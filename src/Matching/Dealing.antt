-- ===== src/Matching/Dealing.antt =====
-- The trades of the whole of `matchOrder`, over well-formed levels.
use aether_x.Prelude.{
  ℕ, ◌+◌, ◌<◌, ◌≡◌, refl, ap, List, [], ◌∷◌, ◌++◌, some, true, false, Map, All, arith, insert,
  erase, total-append, All-append, All-map,
}
use aether_x.Matching.Queue.{Side, buy, sell, OrderNode, OrderQueue, is_empty}
use aether_x.Matching.Book.{Entry, before, Trade, volume_of}
use aether_x.Matching.Match.{match_levels, stops, leave, after, Sweep}
use aether_x.Matching.Invariant.{lots, traded, has_price, IsResting, IsLevels}
use aether_x.Matching.Levels.{before_irrefl, has_price_later, best_level, erase-IsLevels}
use aether_x.Matching.Fills.{match_queue-makers, match_queue-counted}
use aether_x.Matching.Sweep.{other, sweep, fill, Turn, turn, at_end, used_up, ends_in}
use aether_x.Matching.Trades.{
  IsFair, stops-IsWithin, AreInOrder, fill-IsFair, offered, offered-erase, offered-insert,
}

before-asym : (s : Side) (p r : ℕ) → before s p r ≡ true → before s r p ≡ false
before-asym buy p r h = ground arith
before-asym sell p r h = ground arith

listed_later :
    (s : Side) (best r : ℕ) (ps : List ℕ)
    → All (λ x. before s best x ≡ true) ps
    → has_price r ps ≡ true
    → before s best r ≡ true
listed_later s best r [] a e = cc
listed_later s best r (q ∷ ps) a e = ground (arith, listed_later s best r ps a.1)

-- Trades at the best price come before those at later ones.
InOrder-append :
    (s : Side) (best : ℕ) (ps : List ℕ) (ts us : List Trade)
    → All (λ r. before s best r ≡ true) ps
    → All (λ (t : Trade). (t.price ≡ best) × (0 < t.quantity)) ts
    → All (λ (t : Trade). has_price t.price ps ≡ true) us
    → AreInOrder s us
    → AreInOrder s (ts ++ us)
InOrder-append s best ps [] us b h k o = o
InOrder-append s best ps (t ∷ ts) us b h k o = (
  All-append (λ (u : Trade). before s u.price t.price ≡ false) ts us
      (All-map (λ (u : Trade). (u.price ≡ best) × (0 < u.quantity))
        (λ (u : Trade). before s u.price t.price ≡ false)
        (λ u e. rw (e.0, h.0.0) (before_irrefl s best)) ts h.1)
      (All-map (λ (u : Trade). has_price u.price ps ≡ true)
        (λ (u : Trade). before s u.price t.price ≡ false)
        (λ u e. rw h.0.0 (before-asym s best u.price (listed_later s best u.price ps b e))) us k),
  InOrder-append s best ps ts us b h.1 k o,
)

pub lots_empty : (ns : List OrderNode) → is_empty ns ≡ true → lots ns ≡ 0
lots_empty [] h = refl
lots_empty (n ∷ ns) h = cc

volume_inserted :
    (levels : Map OrderQueue) (p : ℕ) (q : OrderQueue) → volume_of (insert p q levels p) ≡ q.volume
volume_inserted levels p q = ground arith

pub positive :
    (s : Side) (p next : ℕ) (ns : List OrderNode)
    → All (IsResting s p next) ns
    → All (λ (n : OrderNode). 0 < n.quantity) ns
positive s p next = All-map (IsResting s p next) (λ (n : OrderNode). 0 < n.quantity) (λ n h. h.2)

module _ (symbol : ℕ) (taker : OrderNode) (is_buy : Side) where
  pub record Dealing (ps : List ℕ) (levels : Map OrderQueue) (w : Sweep) : Type 0 where
    pub fair : All (IsFair is_buy taker.price ps) w.trades
    pub ordered : AreInOrder (other is_buy) w.trades
    pub balanced : offered levels ps ≡ offered w.levels w.prices + traded w.trades

  leave-Dealing :
      (ps : List ℕ) (quantity : ℕ) (levels : Map OrderQueue) (om : Map Entry)
      → Dealing ps levels (leave false quantity ps levels om)
  leave-Dealing ps quantity levels om = record { fair = tt; ordered = tt; balanced = omega arith }

  module _ (next best : ℕ) (ps : List ℕ) (quantity : ℕ) (levels : Map OrderQueue) (om : Map Entry)
      (q : OrderQueue) (known : levels best ≡ some q)
      (valid : IsLevels (other is_buy) next (record { levels = levels; prices = best ∷ ps }))
      (go : stops is_buy taker.price best ≡ false) where
    at_best :
        let f = fill symbol taker is_buy best q quantity om in
        All (λ (t : Trade). (t.price ≡ best) × (0 < t.quantity)) f.trades
    at_best =
        fill-IsFair symbol taker is_buy best q.nodes quantity q.volume om
          (positive (other is_buy) best next q.nodes (valid.queues best q known).resting)

    IsFair-here :
        let f = fill symbol taker is_buy best q quantity om in
        All (IsFair is_buy taker.price (best ∷ ps)) f.trades
    IsFair-here =
        let f = fill symbol taker is_buy best q quantity om in
        All-map (λ (t : Trade). (t.price ≡ best) × (0 < t.quantity))
          (IsFair is_buy taker.price (best ∷ ps))
          (λ t h. (ground (arith), stops-IsWithin is_buy taker.price t.price (rw h.0 go), h.1))
          f.trades at_best

    counted_here :
        let f = fill symbol taker is_buy best q quantity om in
        q.volume ≡ f.queue.volume + traded f.trades
    counted_here =
        let c = (valid.queues best q known).counted in
        omega (
          arith,
          c,
          match_queue-makers symbol taker is_buy best q.nodes quantity q.volume om,
          match_queue-counted symbol taker is_buy best q.nodes quantity q.volume om c,
        )

    used_up-Dealing :
        (w : Sweep)
        → is_empty (fill symbol taker is_buy best q quantity om).queue.nodes ≡ true
        → let f = fill symbol taker is_buy best q quantity om in
          Dealing ps (erase best levels) w → Dealing (best ∷ ps) levels (after f.trades w)
    used_up-Dealing w empty d =
        let f = fill symbol taker is_buy best q quantity om in
        record {
          fair = All-append (IsFair is_buy taker.price (best ∷ ps)) f.trades w.trades IsFair-here (
              All-map (IsFair is_buy taker.price ps) (IsFair is_buy taker.price (best ∷ ps))
                (λ t h. (ground (arith), h.1, h.2)) w.trades d.fair);
          ordered =
              InOrder-append (other is_buy) best ps f.trades w.trades valid.sorted.0 at_best
                (All-map (IsFair is_buy taker.price ps) (λ (t : Trade). has_price t.price ps ≡ true)
                  (λ t h. h.0) w.trades d.fair)
                d.ordered;
          balanced = omega (
            arith,
            ap volume_of known,
            counted_here,
            match_queue-counted symbol taker is_buy best q.nodes quantity q.volume om
                (valid.queues best q known).counted,
            lots_empty f.queue.nodes empty,
            offered-erase levels best ps (has_price_later (other is_buy) best ps valid.sorted.0),
            total-append (λ (t : Trade). t.quantity) f.trades w.trades,
            d.balanced,
          );
        }

    ends_in-Dealing :
        is_empty (fill symbol taker is_buy best q quantity om).queue.nodes ≡ false
        → let f = fill symbol taker is_buy best q quantity om in
          Dealing
            (best ∷ ps)
            levels
            (after f.trades (leave false 0 (best ∷ ps) (insert best f.queue levels) f.order_map))
    ends_in-Dealing left =
        let f = fill symbol taker is_buy best q quantity om in
        record {
          fair = All-append (IsFair is_buy taker.price (best ∷ ps)) f.trades [] IsFair-here tt;
          ordered = InOrder-append (other is_buy) best ps f.trades [] valid.sorted.0 at_best tt tt;
          balanced = omega (
            arith,
            ap volume_of known,
            volume_inserted levels best f.queue,
            counted_here,
            offered-insert levels best f.queue ps
                (has_price_later (other is_buy) best ps valid.sorted.0),
            total-append (λ (t : Trade). t.quantity) f.trades [],
          );
        }

  Turn-Dealing :
      (next best : ℕ) (ps : List ℕ) (quantity : ℕ) (levels : Map OrderQueue) (om : Map Entry)
      {w : Sweep}
      → IsLevels (other is_buy) next (record { levels = levels; prices = best ∷ ps })
      → ((q : OrderQueue)
          → let f = fill symbol taker is_buy best q quantity om in
            Dealing ps
              (erase best levels)
              (sweep symbol taker is_buy ps f.quantity (erase best levels) f.order_map))
      → Turn symbol taker is_buy best ps quantity levels om w
      → Dealing (best ∷ ps) levels w
  Turn-Dealing next best ps quantity levels om h ih (at_end why e) =
      rw e (leave-Dealing (best ∷ ps) quantity levels om)
  Turn-Dealing next best ps quantity levels om h ih (used_up q known empty go wants e) =
      rw e (used_up-Dealing next best ps quantity levels om q known h go _ empty (ih q))
  Turn-Dealing next best ps quantity levels om h ih (ends_in q known left go wants e) =
      rw e (ends_in-Dealing next best ps quantity levels om q known h go left)

  pub match_levels-Dealing :
      (next : ℕ) (ps : List ℕ) (quantity : ℕ) (levels : Map OrderQueue) (om : Map Entry)
      → IsLevels (other is_buy) next (record { levels = levels; prices = ps })
      → Dealing ps levels (sweep symbol taker is_buy ps quantity levels om)
  match_levels-Dealing next [] quantity levels om h =
      unfold match_levels in leave-Dealing [] quantity levels om
  match_levels-Dealing next (best ∷ ps) quantity levels om h =
      let (q, known, iq) = best_level (other is_buy) next best ps levels h in
      Turn-Dealing next best ps quantity levels om h
        (λ q.
          let f = fill symbol taker is_buy best q quantity om in
          match_levels-Dealing next ps f.quantity (erase best levels) f.order_map
            (erase-IsLevels (other is_buy) next best ps levels h))
        (turn symbol taker is_buy best ps quantity levels om q known)
