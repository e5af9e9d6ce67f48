-- ===== src/Matching/Levels.antt =====
-- The price levels of one side under the writes that `matchOrder`, `insertResting` and `cancelOrder`
-- make: the best level spliced out, or a queue put back at its price.
use aether_x.Prelude.{
  ℕ, ◌≡◌, refl, inl, inr, List, [], ◌∷◌, some, true, false, All, arith, Map, insert, erase,
  Option-cases,
}
use aether_x.Matching.Queue.{Side, buy, sell, OrderQueue}
use aether_x.Matching.Book.{before}
use aether_x.Matching.Invariant.{has_price, IsQueue, IsLevels}

-- A price does not come before itself.
pub before_irrefl : (s : Side) (p : ℕ) → before s p p ≡ false
before_irrefl buy p = ground arith
before_irrefl sell p = ground arith

pub has_price_later :
    (s : Side) (p : ℕ) (ps : List ℕ) → All (λ r. before s p r ≡ true) ps → has_price p ps ≡ false
has_price_later s p [] h = refl
has_price_later s p (r ∷ ps) h = ground (arith, has_price_later s p ps h.1, before_irrefl s p)

module _ (s : Side) (next best : ℕ) (ps : List ℕ) (levels : Map OrderQueue) where
  pub best_level :
      IsLevels s next (record { levels = levels; prices = best ∷ ps })
      → (q : OrderQueue) × (levels best ≡ some q) × IsQueue s best next q
  best_level h = elim (Option-cases (levels best)) [
    | inl missing ↦ absurd (ground (arith, h.keyed best))
    | inr (q, e) ↦ (q, e, h.queues best q e)
  ]

  pub erase-IsLevels :
      IsLevels s next (record { levels = levels; prices = best ∷ ps })
      → IsLevels s next (record { levels = erase best levels; prices = ps })
  erase-IsLevels h = record {
    sorted = h.sorted.1;
    keyed = λ p. ground (arith, h.keyed p, has_price_later s best ps h.sorted.0);
    queues = λ p q e. ground (arith, h.queues p q);
  }

  pub insert-IsLevels :
      (q : OrderQueue)
      → IsQueue s best next q
      → IsLevels s next (record { levels = levels; prices = best ∷ ps })
      → IsLevels s next (record { levels = insert best q levels; prices = best ∷ ps })
  insert-IsLevels q iq h = record {
    sorted = h.sorted;
    keyed = λ p. ground (arith, h.keyed p);
    queues = λ p q' e. ground (arith, h.queues p q', iq);
  }
