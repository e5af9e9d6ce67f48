-- ===== src/Matching/Sweep.antt =====
-- The outer loop of `matchOrder`: one taker against the price levels of the other side.
use aether_x.Prelude.{
  ℕ, ◌<◌, ◌≡◌, refl, ◌⊎◌, inl, inr, List, [], ◌∷◌, some, true, false, Map, arith, insert, erase,
  ◌==◌, Bool-cases,
}
use aether_x.Matching.Queue.{Side, buy, sell, OrderNode, OrderQueue, is_empty}
use aether_x.Matching.Book.{Entry}
use aether_x.Matching.Match.{Fill, Sweep, match_queue, match_levels, stops, leave, after}
use aether_x.Matching.Invariant.{IsQueue}
use aether_x.Matching.Fills.{
  match_queue-counted, match_queue-stops, match_queue-IsResting, match_queue-IsDistinct,
}

abbrev pub other : Side → Side
other buy = sell
other sell = buy

module _ (symbol : ℕ) (taker : OrderNode) (is_buy : Side) where
  abbrev pub sweep : List ℕ → ℕ → Map OrderQueue → Map Entry → Sweep
  sweep = match_levels symbol taker is_buy

  abbrev pub fill : ℕ → OrderQueue → ℕ → Map Entry → Fill
  fill best q quantity = match_queue symbol taker is_buy best q.nodes quantity q.volume

  -- With nothing wanted the loop ends.
  sweep_done :
      (ps : List ℕ) (levels : Map OrderQueue) (om : Map Entry)
      → sweep ps 0 levels om ≡ leave false 0 ps levels om
  unfolding match_levels
  sweep_done [] levels om = refl
  sweep_done (p ∷ ps) levels om = refl

  pub fill-IsQueue :
      (s : Side) (p next quantity : ℕ) (om : Map Entry) (q : OrderQueue)
      → IsQueue s p next q
      → let f = fill p q quantity om in is_empty f.queue.nodes ≡ false → IsQueue s p next f.queue
  fill-IsQueue s p next quantity om q h e = record {
    inhabited = e;
    resting =
        match_queue-IsResting symbol taker is_buy s p next p q.nodes quantity q.volume om h.resting;
    distinct = match_queue-IsDistinct symbol taker is_buy p q.nodes quantity q.volume om h.distinct;
    counted = match_queue-counted symbol taker is_buy p q.nodes quantity q.volume om h.counted;
  }

  -- One level: the loop stops before it, uses it up, or ends in it.
  pub data Turn (best : ℕ) (ps : List ℕ) (quantity : ℕ) (levels : Map OrderQueue) (om : Map Entry)
      (w : Sweep) : Type 0 where
    at_end :
        (quantity ≡ 0) ⊎ (stops is_buy taker.price best ≡ true)
        → w ≡ leave false quantity (best ∷ ps) levels om
        → Turn best ps quantity levels om w
    used_up :
        (q : OrderQueue)
        → levels best ≡ some q
        → is_empty (fill best q quantity om).queue.nodes ≡ true
        → stops is_buy taker.price best ≡ false
        → 0 < quantity
        → w
          ≡ after (fill best q quantity om).trades (
              sweep ps
                (fill best q quantity om).quantity
                (erase best levels)
                (fill best q quantity om).order_map)
        → Turn best ps quantity levels om w
    ends_in :
        (q : OrderQueue)
        → levels best ≡ some q
        → is_empty (fill best q quantity om).queue.nodes ≡ false
        → stops is_buy taker.price best ≡ false
        → 0 < quantity
        → w
          ≡ after (fill best q quantity om).trades (
              leave false 0
                (best ∷ ps)
                (insert best (fill best q quantity om).queue levels)
                (fill best q quantity om).order_map)
        → Turn best ps quantity levels om w

  sweep-used_up :
      (best : ℕ) (ps : List ℕ) (quantity : ℕ) (levels : Map OrderQueue) (om : Map Entry)
      (q : OrderQueue)
      → levels best ≡ some q
      → is_empty (fill best q quantity om).queue.nodes ≡ true
      → stops is_buy taker.price best ≡ false
      → 0 < quantity
      → let f = fill best q quantity om in
        sweep (best ∷ ps) quantity levels om
        ≡ after f.trades (sweep ps f.quantity (erase best levels) f.order_map)
  unfolding match_levels
  sweep-used_up best ps quantity levels om q known empty go wants =
      rw (known, go, empty) (ground arith)

  sweep-ends_in :
      (best : ℕ) (ps : List ℕ) (quantity : ℕ) (levels : Map OrderQueue) (om : Map Entry)
      (q : OrderQueue)
      → levels best ≡ some q
      → is_empty (fill best q quantity om).queue.nodes ≡ false
      → stops is_buy taker.price best ≡ false
      → 0 < quantity
      → let f = fill best q quantity om in
        sweep (best ∷ ps) quantity levels om
        ≡ after f.trades (leave false 0 (best ∷ ps) (insert best f.queue levels) f.order_map)
  unfolding match_levels
  sweep-ends_in best ps quantity levels om q known left go wants =
      let z = match_queue-stops symbol taker is_buy best q.nodes quantity q.volume om left in
      ground (
        arith,
        z,
        sweep_done ps (insert best (fill best q quantity om).queue levels)
            (fill best q quantity om).order_map,
      )

  pub turn :
      (best : ℕ) (ps : List ℕ) (quantity : ℕ) (levels : Map OrderQueue) (om : Map Entry)
      (q : OrderQueue)
      → levels best ≡ some q
      → Turn best ps quantity levels om (sweep (best ∷ ps) quantity levels om)
  turn best ps quantity levels om q known = elim (Bool-cases (quantity == 0)) [
    | inl z ↦ at_end (inl (ground arith)) (unfold match_levels in rw z refl)
    | inr wants ↦ elim (Bool-cases (stops is_buy taker.price best)) [
      | inl h ↦ at_end (inr h) (unfold match_levels in rw (wants, h) refl)
      | inr go ↦ elim (Bool-cases (is_empty (fill best q quantity om).queue.nodes)) [
        | inl e ↦
            used_up q known e go (ground arith)
              (sweep-used_up best ps quantity levels om q known e go (ground arith))
        | inr e ↦
            ends_in q known e go (ground arith)
              (sweep-ends_in best ps quantity levels om q known e go (ground arith))
      ]
    ]
  ]
