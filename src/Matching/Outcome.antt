-- ===== src/Matching/Outcome.antt =====
-- What the outer loop of `matchOrder` leaves behind on well-formed levels: no fault, well-formed
-- levels, an order map whose entries are still live, and a taker that is used up or stopped.
use aether_x.Prelude.{
  ℕ, ◌+◌, ◌≡◌, refl, ◌⊎◌, inl, inr, List, [], ◌∷◌, some, true, false, Map, All, arith, insert,
  erase, total-append,
}
use aether_x.Matching.Queue.{Side, buy, sell, OrderNode, OrderQueue, is_empty}
use aether_x.Matching.Book.{Entry, before, Trade}
use aether_x.Matching.Match.{Sweep, match_levels, stops, leave, after, makers_of}
use aether_x.Matching.Invariant.{traded, has_price, IsLevels, is_live}
use aether_x.Matching.Levels.{best_level, erase-IsLevels, insert-IsLevels}
use aether_x.Matching.Fills.{match_queue-taker, match_queue-stops, match_queue-map}
use aether_x.Matching.Sweep.{other, sweep, fill, fill-IsQueue, Turn, turn, at_end, used_up, ends_in}

-- Past a price that stops the taker, all prices do.
stops-later :
    (is_buy : Side) (limit best p : ℕ)
    → before (other is_buy) best p ≡ true
    → stops is_buy limit best ≡ true
    → stops is_buy limit p ≡ true
stops-later buy limit best p b h = ground arith
stops-later sell limit best p b h = ground arith

All-stop :
    (is_buy : Side) (limit best : ℕ) (ps : List ℕ)
    → All (λ r. before (other is_buy) best r ≡ true) ps
    → stops is_buy limit best ≡ true
    → (p : ℕ) → has_price p (best ∷ ps) ≡ true
    → stops is_buy limit p ≡ true
All-stop is_buy limit best [] b h p e = ground arith
All-stop is_buy limit best (r ∷ ps) b h p e =
    ground (arith, All-stop is_buy limit best ps b.1 h p, stops-later is_buy limit best r b.0 h)

module _ (symbol : ℕ) (taker : OrderNode) (is_buy : Side) where
  pub record Outcome (next : ℕ) (ps : List ℕ) (quantity : ℕ) (levels : Map OrderQueue)
      (om : Map Entry) (w : Sweep) : Type 0 where
    pub sound : w.fault ≡ false
    pub valid : IsLevels (other is_buy) next (makers_of w)
    pub wanted : quantity ≡ w.quantity + traded w.trades
    pub fewer : (p : ℕ) → has_price p w.prices ≡ true → has_price p ps ≡ true
    pub mapped :
        (id : ℕ) (e : Entry)
        → w.order_map id ≡ some e
        → (om id ≡ some e)
          × (is_live id e (levels e.price) ≡ true → is_live id e (w.levels e.price) ≡ true)
    pub ended :
        (w.quantity ≡ 0)
        ⊎ ((p : ℕ) → has_price p w.prices ≡ true → stops is_buy taker.price p ≡ true)

  leave-Outcome :
      (next : ℕ) (ps : List ℕ) (quantity : ℕ) (levels : Map OrderQueue) (om : Map Entry)
      → IsLevels (other is_buy) next (record { levels = levels; prices = ps })
      → (quantity ≡ 0) ⊎ ((p : ℕ) → has_price p ps ≡ true → stops is_buy taker.price p ≡ true)
      → Outcome next ps quantity levels om (leave false quantity ps levels om)
  leave-Outcome next ps quantity levels om h e = record {
    sound = refl;
    valid = h;
    wanted = omega arith;
    fewer = λ p e. e;
    mapped = λ id e h'. (h', λ l. l);
    ended = e;
  }

  module _ (next best : ℕ) (ps : List ℕ) (quantity : ℕ) (levels : Map OrderQueue) (om : Map Entry)
      (q : OrderQueue) (known : levels best ≡ some q)
      (valid : IsLevels (other is_buy) next (record { levels = levels; prices = best ∷ ps })) where
    used_up-Outcome :
        (w : Sweep)
        → is_empty (fill symbol taker is_buy best q quantity om).queue.nodes ≡ true
        → let f = fill symbol taker is_buy best q quantity om in
          Outcome next ps f.quantity (erase best levels) f.order_map w
          → Outcome next (best ∷ ps) quantity levels om (after f.trades w)
    used_up-Outcome w empty o =
        let f = fill symbol taker is_buy best q quantity om in
        record {
          sound = o.sound;
          valid = o.valid;
          wanted = omega (
            arith,
            o.wanted,
            total-append (λ (t : Trade). t.quantity) f.trades w.trades,
            match_queue-taker symbol taker is_buy best q.nodes quantity q.volume om,
          );
          fewer = λ p e. ground (arith, o.fewer p);
          mapped = λ id e h'. ground (
            arith,
            o.mapped id e h',
            match_queue-map symbol taker is_buy best q.nodes quantity q.volume om id e,
          );
          ended = o.ended;
        }

    ends_in-Outcome :
        is_empty (fill symbol taker is_buy best q quantity om).queue.nodes ≡ false
        → let f = fill symbol taker is_buy best q quantity om in
          Outcome next
            (best ∷ ps)
            quantity
            levels
            om
            (after f.trades (leave false 0 (best ∷ ps) (insert best f.queue levels) f.order_map))
    ends_in-Outcome left =
        let f = fill symbol taker is_buy best q quantity om in
        record {
          sound = refl;
          valid =
              insert-IsLevels (other is_buy) next best ps levels f.queue
                (fill-IsQueue symbol taker is_buy (other is_buy) best next quantity om q
                  (valid.queues best q known) left)
                valid;
          wanted = omega (
            arith,
            match_queue-taker symbol taker is_buy best q.nodes quantity q.volume om,
            match_queue-stops symbol taker is_buy best q.nodes quantity q.volume om left,
            total-append (λ (t : Trade). t.quantity) f.trades [],
          );
          fewer = λ p e. e;
          mapped = λ id e h'.
              ground
                (arith, match_queue-map symbol taker is_buy best q.nodes quantity q.volume om id e);
          ended = inl refl;
        }

  Turn-Outcome :
      (next best : ℕ) (ps : List ℕ) (quantity : ℕ) (levels : Map OrderQueue) (om : Map Entry)
      {w : Sweep}
      → IsLevels (other is_buy) next (record { levels = levels; prices = best ∷ ps })
      → ((q : OrderQueue)
          → let f = fill symbol taker is_buy best q quantity om in
            Outcome next ps f.quantity
              (erase best levels)
              f.order_map
              (sweep symbol taker is_buy ps f.quantity (erase best levels) f.order_map))
      → Turn symbol taker is_buy best ps quantity levels om w
      → Outcome next (best ∷ ps) quantity levels om w
  Turn-Outcome next best ps quantity levels om h ih (at_end why e) = rw e (
      leave-Outcome next (best ∷ ps) quantity levels om h (elim why [
        | inl z ↦ inl z
        | inr stop ↦ inr (All-stop is_buy taker.price best ps h.sorted.0 stop)
      ]))
  Turn-Outcome next best ps quantity levels om h ih (used_up q known empty go wants e) =
      rw e (used_up-Outcome next best ps quantity levels om q known h _ empty (ih q))
  Turn-Outcome next best ps quantity levels om h ih (ends_in q known left go wants e) =
      rw e (ends_in-Outcome next best ps quantity levels om q known h left)

  pub match_levels-Outcome :
      (next : ℕ) (ps : List ℕ) (quantity : ℕ) (levels : Map OrderQueue) (om : Map Entry)
      → IsLevels (other is_buy) next (record { levels = levels; prices = ps })
      → Outcome next ps quantity levels om (sweep symbol taker is_buy ps quantity levels om)
  match_levels-Outcome next [] quantity levels om h =
      unfold match_levels in leave-Outcome next [] quantity levels om h (inr (λ p e. cc))
  match_levels-Outcome next (best ∷ ps) quantity levels om h =
      let (q, known, iq) = best_level (other is_buy) next best ps levels h in
      Turn-Outcome next best ps quantity levels om h
        (λ q.
          let f = fill symbol taker is_buy best q quantity om in
          match_levels-Outcome next ps f.quantity (erase best levels) f.order_map
            (erase-IsLevels (other is_buy) next best ps levels h))
        (turn symbol taker is_buy best ps quantity levels om q known)

  -- The end of the loop, at one price that is left.
  pub ended_at :
      (next : ℕ) (ps : List ℕ) (quantity : ℕ) (levels : Map OrderQueue) (om : Map Entry) (w : Sweep)
      (p : ℕ)
      → Outcome next ps quantity levels om w
      → has_price p w.prices ≡ true
      → (w.quantity ≡ 0) ⊎ (stops is_buy taker.price p ≡ true)
  ended_at next ps quantity levels om w p o h = elim o.ended [
    | inl z ↦ inl z
    | inr all ↦ inr (all p h)
  ]
