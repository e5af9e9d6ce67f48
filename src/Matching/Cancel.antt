-- ===== src/Matching/Cancel.antt =====
-- `cancelOrder` on well-formed levels.
use aether_x.Prelude.{
  ℕ, ◌+◌, ◌≡◌, refl, List, [], ◌∷◌, some, true, false, All, arith, ◌==◌, Bool-cases, inl, inr, not,
}
use aether_x.Matching.Queue.{Side, OrderNode, OrderQueue, is_empty, remove, unlink, quantity_of}
use aether_x.Matching.Book.{PriceLevels, Entry, cancel_in}
use aether_x.Matching.Invariant.{
  lots, has_node, has_ref, has_price, IsResting, IsDistinct, IsQueue, IsLevels, is_live,
}
use aether_x.Matching.Sorting.{has_price-keep, keep-IsSorted}

pub unlink-lots :
    (ref : ℕ) (ns : List OrderNode) → lots (unlink ref ns) + quantity_of ref ns ≡ lots ns
unlink-lots ref [] = omega arith
unlink-lots ref (n ∷ ns) = ground (arith, unlink-lots ref ns)

unlink-IsResting :
    (s : Side) (p next ref : ℕ) (ns : List OrderNode)
    → All (IsResting s p next) ns
    → All (IsResting s p next) (unlink ref ns)
unlink-IsResting s p next ref [] h = tt
unlink-IsResting s p next ref (n ∷ ns) h = ground (arith, unlink-IsResting s p next ref ns h.1)

has_ref-unlink :
    (r ref : ℕ) (ns : List OrderNode) → has_ref r ns ≡ false → has_ref r (unlink ref ns) ≡ false
has_ref-unlink r ref [] h = refl
has_ref-unlink r ref (n ∷ ns) h = ground (arith, has_ref-unlink r ref ns)

unlink-IsDistinct : (ref : ℕ) (ns : List OrderNode) → IsDistinct ns → IsDistinct (unlink ref ns)
unlink-IsDistinct ref [] h = tt
unlink-IsDistinct ref (n ∷ ns) h =
    ground (arith, unlink-IsDistinct ref ns h.1, has_ref-unlink n.ref ref ns)

has_ref-of_node :
    (ref id : ℕ) (ns : List OrderNode) → has_node ref id ns ≡ true → has_ref ref ns ≡ true
has_ref-of_node ref id [] h = cc
has_ref-of_node ref id (n ∷ ns) h = ground (arith, has_ref-of_node ref id ns)

-- Taking out the node of one order leaves that of another one.
has_node-unlink :
    (ref ref' id id' : ℕ) (ns : List OrderNode)
    → IsDistinct ns
    → (id == id') ≡ false
    → has_node ref id ns ≡ true
    → has_node ref' id' ns ≡ true
    → has_node ref' id' (unlink ref ns) ≡ true
has_node-unlink ref ref' id id' [] d ne h k = cc
has_node-unlink ref ref' id id' (n ∷ ns) d ne h k = ground (
  arith,
  has_node-unlink ref ref' id id' ns d.1 ne,
  has_ref-of_node ref id ns,
  has_ref-of_node ref' id' ns,
)

module _ (s : Side) (next : ℕ) (ref p : ℕ) (h : PriceLevels) (v : IsLevels s next h) where
  left-IsQueue :
      (q : OrderQueue)
      → IsQueue s p next q
      → is_empty (unlink ref q.nodes) ≡ false
      → IsQueue s p next (remove ref q)
  unfolding remove
  left-IsQueue q i e = record {
    inhabited = e;
    resting = unlink-IsResting s p next ref q.nodes i.resting;
    distinct = unlink-IsDistinct ref q.nodes i.distinct;
    counted = omega (arith, i.counted, unlink-lots ref q.nodes);
  }

  pub cancel_in-IsLevels :
      (q : OrderQueue) → h.levels p ≡ some q → IsLevels s next (cancel_in ref p (some q) h)
  unfolding remove
  cancel_in-IsLevels q known = elim (Bool-cases (is_empty (unlink ref q.nodes))) [
    | inl gone ↦ rw gone (record {
      sorted = keep-IsSorted s (λ x. not (x == p)) h.prices v.sorted;
      keyed = λ r. ground (arith, v.keyed r, has_price-keep p r h.prices);
      queues = λ r q' e. ground (arith, v.queues r q');
    })
    | inr left ↦ rw left (record {
      sorted = v.sorted;
      keyed = λ r. ground (arith, v.keyed r);
      queues = λ r q' e. ground (arith, v.queues r q', left-IsQueue q (v.queues p q known) left);
    })
  ]

  pub cancel_in-has_price :
      (q : OrderQueue) (r : ℕ)
      → has_price r (cancel_in ref p (some q) h).prices ≡ true
      → has_price r h.prices ≡ true
  unfolding remove
  cancel_in-has_price q r = ground (arith, has_price-keep p r h.prices)

  pub cancel_in-live :
      (q : OrderQueue) (id id' : ℕ) (e : Entry)
      → h.levels p ≡ some q
      → has_node ref id q.nodes ≡ true
      → (id == id') ≡ false
      → is_live id' e (h.levels e.price) ≡ true
      → is_live id' e ((cancel_in ref p (some q) h).levels e.price) ≡ true
  unfolding remove
  cancel_in-live q id id' e known node ne live =
      ground (arith, has_node-unlink ref e.ref id id' q.nodes (v.queues p q known).distinct ne node)
