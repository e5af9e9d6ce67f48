-- ===== src/Gateway/Shown.antt =====
-- What a page shows of the messages that it has got.
use aether_x.Prelude.{
  ℕ, zero, suc, ◌≡◌, refl, ap, ◌∙◌, List, [], ◌∷◌, take, Option, none, some, Bool-cases, inl, inr,
  if◌then◌else◌, arith,
}
use aether_x.Prelude.Text.{Text, text_eq}
use aether_x.Matching.Book.{Level}
use aether_x.Gateway.Client.{
  TradeExecutedData, Client, new_client, Event, connect, disconnect, wallet_refresh, market_initial,
  trade_executed, observability_stats, set_depth, set_indicators, on_event, clean_up, on_events,
  show_all,
}

take-take : {A : Type 0} (n : ℕ) (xs : List A) → take n (take (suc n) xs) ≡ take n xs
take-take zero xs = refl
take-take (suc n) [] = refl
take-take (suc n) (x ∷ xs) = ap (λ ys. x ∷ ys) (take-take n xs)

module _ {A : Type 0} where
  -- The trades of a symbol in a list of events, newest first, in front of older ones.
  abbrev newest : Text → Event A → List TradeExecutedData → List TradeExecutedData
  newest symbol (trade_executed t) older = if text_eq t.symbol symbol then t ∷ older else older
  newest symbol _ older = older

  abbrev pub trades_before : Text → List (Event A) → List TradeExecutedData → List TradeExecutedData
  trades_before symbol [] older = older
  trades_before symbol (e ∷ es) older = trades_before symbol es (newest symbol e older)

  abbrev pub trades_of_visits :
      List (Text × List (Event A)) → List TradeExecutedData → List TradeExecutedData
  trades_of_visits [] older = older
  trades_of_visits ((symbol, es) ∷ rest) older =
      trades_of_visits rest (trades_before symbol es older)

  executions-initial :
      (symbol : Text) (now spot : ℕ) (indicators : Option A)
      (depth : Option (List Level × List Level)) (c : Client A)
      → (set_indicators symbol now spot indicators (set_depth depth c)).executions ≡ c.executions
  executions-initial symbol now spot none none c = refl
  executions-initial symbol now spot none (some d) c = refl
  executions-initial symbol now spot (some i) none c = refl
  executions-initial symbol now spot (some i) (some d) c = refl

  executions-on_event :
      (symbol : Text) (e : Event A) (older : List TradeExecutedData) (c : Client A)
      → c.executions ≡ take 50 older
      → (on_event symbol e c).executions ≡ take 50 (newest symbol e older)
  unfolding on_event
  executions-on_event symbol (trade_executed t) older c h =
      elim (Bool-cases (text_eq t.symbol symbol)) [
        | inl mine ↦ rw mine (ap (λ xs. t ∷ take 49 xs) h ∙ ap (λ xs. t ∷ xs) (take-take 49 older))
        | inr other ↦ rw other h
      ]
  executions-on_event symbol (market_initial s spot depth indicators now) older c h =
      ground (arith, h, executions-initial symbol now spot indicators depth c)
  executions-on_event symbol connect older c h = h
  executions-on_event symbol disconnect older c h = h
  executions-on_event symbol wallet_refresh older c h = h
  executions-on_event symbol (observability_stats s) older c h = h
  executions-on_event symbol _ older c h = ground (arith, h)

  executions-on_events :
      (symbol : Text) (es : List (Event A)) (older : List TradeExecutedData) (c : Client A)
      → c.executions ≡ take 50 older
      → (on_events symbol es c).executions ≡ take 50 (trades_before symbol es older)
  executions-on_events symbol [] older c h = h
  executions-on_events symbol (e ∷ es) older c h =
      executions-on_events symbol es (newest symbol e older) (on_event symbol e c)
        (executions-on_event symbol e older c h)

  executions-show_all :
      (visits : List (Text × List (Event A))) (older : List TradeExecutedData) (c : Client A)
      → c.executions ≡ take 50 older
      → (show_all visits c).executions ≡ take 50 (trades_of_visits visits older)
  unfolding clean_up
  executions-show_all [] older c h = h
  executions-show_all ((symbol, es) ∷ rest) older c h =
      executions-show_all rest (trades_before symbol es older) _
        (executions-on_events symbol es older c h)

  -- A page that shows one symbol after the other, with whatever events for each, has the newest 50 of
  -- all trades that came for the symbol of their time, newest first: those of earlier symbols stay.
  pub show_all-executions :
      (visits : List (Text × List (Event A)))
      → (show_all visits new_client).executions ≡ take 50 (trades_of_visits visits [])
  show_all-executions visits = executions-show_all visits [] new_client refl
