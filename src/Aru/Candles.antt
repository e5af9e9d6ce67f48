-- ===== src/Aru/Candles.antt =====
-- The candles that backend/src/services/aruAlgoService.ts builds from ticks, and what reading the latest
-- indicators does to them.
use aether_x.Prelude.{
  ℕ, ◌<◌, ◌≡◌, refl, ap, ◌∙◌, List, [], ◌∷◌, length, some, true, ltb, Bool-cases, inl, inr, arith,
}
use aether_x.Aru.Numbers.{Numbers, IsOrder}
use aether_x.Aru.Algo.{Candle, Params, max_len, drop_last, push_candle}
use aether_x.Aru.Window.{process_candle-candles}
use aether_x.Aru.Service.{
  SymbolCandleState, Tick, candle_time, open_candle, update_candle, on_tick, on_ticks,
  get_latest_indicators,
}

module _ {N : Type 0} (num : Numbers N) where
  -- The open and the close are between the low and the high.
  pub record IsCandle (c : Candle N) : Type 0 where
    pub low_open : num.le c.low c.open_price ≡ true
    pub open_high : num.le c.open_price c.high ≡ true
    pub low_close : num.le c.low c.close ≡ true
    pub close_high : num.le c.close c.high ≡ true

  -- Newest first, and all of them before a time.
  abbrev pub AreBefore : ℕ → List (Candle N) → Type 0
  AreBefore time [] = Unit
  AreBefore time (c ∷ cs) = (c.time < time) × IsCandle c × AreBefore c.time cs

  -- A candle is open, it is well formed, and so are the closed ones, whose times ascend to its own.
  pub record IsChart (s : SymbolCandleState N) : Type 0 where
    pub active : Candle N
    pub open_now : s.current_candle ≡ some active
    pub formed : IsCandle active
    pub closed : AreBefore active.time s.algo.candles

  drop_last-AreBefore :
      (time : ℕ) (cs : List (Candle N)) → AreBefore time cs → AreBefore time (drop_last cs)
  drop_last-AreBefore time [] h = tt
  drop_last-AreBefore time (c ∷ []) h = tt
  drop_last-AreBefore time (c ∷ d ∷ cs) h = (h.0, h.1, drop_last-AreBefore c.time (d ∷ cs) h.2)

  push_candle-AreBefore :
      (p : Params N) (time : ℕ) (c : Candle N) (cs : List (Candle N))
      → AreBefore time (c ∷ cs)
      → AreBefore time (push_candle p c cs)
  unfolding push_candle
  push_candle-AreBefore p time c cs h = elim (Bool-cases (ltb (max_len p) (length (c ∷ cs)))) [
    | inl full ↦ rw full (drop_last-AreBefore time (c ∷ cs) h)
    | inr room ↦ rw room h
  ]

  module _ (order : IsOrder num) (p : Params N) where
    open_candle-IsCandle : (time : ℕ) (t : Tick N) → IsCandle (open_candle time t)
    open_candle-IsCandle time t = record {
      low_open = order.le_refl t.price;
      open_high = order.le_refl t.price;
      low_close = order.le_refl t.price;
      close_high = order.le_refl t.price;
    }

    update_candle-IsCandle :
        (t : Tick N) (c : Candle N) → IsCandle c → IsCandle (update_candle num p t c)
    update_candle-IsCandle t c h = record {
      low_open = order.le_trans _ c.low c.open_price (order.min_le_left c.low t.price) h.low_open;
      open_high =
          order.le_trans c.open_price c.high _ h.open_high (order.le_max_left c.high t.price);
      low_close = order.min_le_right c.low t.price;
      close_high = order.le_max_right c.high t.price;
    }

    on_tick-IsChart :
        (t : Tick N) (s : SymbolCandleState N) → IsChart s → IsChart (on_tick num p t s).0
    unfolding on_tick
    on_tick-IsChart t s h =
        let time = candle_time s.interval_sec t.timestamp in
        let c = h.active in
        rw h.open_now (elim (Bool-cases (ltb c.time time)) [
          | inl expired ↦ rw expired (record {
            active = open_candle time t;
            open_now = refl;
            formed = open_candle-IsCandle time t;
            closed = rw (process_candle-candles num p c s.algo) (
                push_candle-AreBefore p time c s.algo.candles
                  (ground (arith, expired), h.formed, h.closed));
          })
          | inr inside ↦ rw inside (record {
            active = update_candle num p t c;
            open_now = refl;
            formed = update_candle-IsCandle t c h.formed;
            closed = h.closed;
          })
        ])

    -- Under a linear order, from a state with an open candle and closed candles before it, any ticks,
    -- late ones among them, lead to such a state: the open and close of every candle are between its
    -- low and high, and the times of the candles that the algorithm holds ascend to the open one's.
    pub on_ticks-IsChart :
        (ts : List (Tick N)) (s : SymbolCandleState N) → IsChart s → IsChart (on_ticks num p ts s).0
    on_ticks-IsChart [] s h = h
    on_ticks-IsChart (t ∷ ts) s h =
        on_ticks-IsChart ts (on_tick num p t s).0 (on_tick-IsChart t s h)

  module _ (p : Params N) where
    -- After the latest indicators were read while a candle was open, the tick that closes the candle
    -- gives it to the algorithm a second time.
    get_latest_indicators-twice :
        (c : Candle N) (t : Tick N) (s : SymbolCandleState N)
        → s.current_candle ≡ some c
        → c.time < candle_time s.interval_sec t.timestamp
        → (on_tick num p t (get_latest_indicators num p s).1).0.algo.candles
          ≡ push_candle p c (push_candle p c s.algo.candles)
    unfolding on_tick get_latest_indicators
    get_latest_indicators-twice c t s e late =
        let expired : ltb c.time (candle_time s.interval_sec t.timestamp) ≡ true =
          ground (arith, late) in
        rw e (
          rw expired (
            process_candle-candles num p c _
            ∙ ap (push_candle p c) (process_candle-candles num p c s.algo)))
