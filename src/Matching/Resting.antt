-- ===== src/Matching/Resting.antt =====
-- `insertResting` on well-formed levels.
use aether_x.Prelude.{
  ℕ, suc, ◌<◌, ◌≡◌, refl, ◌⊎◌, inl, inr, List, [], ◌∷◌, ◌++◌, some, true, false, Map, All, arith,
  ◌==◌, if◌then◌else◌, Option-cases, total-append, All-append, All-map,
}
use aether_x.Matching.Queue.{Side, OrderNode, OrderQueue, new_queue, is_empty, push}
use aether_x.Matching.Book.{PriceLevels, Entry, open_level, insert_resting}
use aether_x.Matching.Invariant.{
  has_node, has_ref, has_price, IsResting, IsDistinct, IsQueue, IsLevels, is_live,
}
use aether_x.Matching.Sorting.{has_price-sort, has_price-append, sort-IsSorted}

is_empty-append : (n : OrderNode) (ns : List OrderNode) → is_empty (ns ++ n ∷ []) ≡ false
is_empty-append n [] = refl
is_empty-append n (m ∷ ns) = refl

has_ref-append :
    (r : ℕ) (n : OrderNode) (ns : List OrderNode)
    → has_ref r (ns ++ n ∷ []) ≡ (if n.ref == r then true else has_ref r ns)
has_ref-append r n [] = ground arith
has_ref-append r n (m ∷ ns) = ground (arith, has_ref-append r n ns)

has_ref-fresh :
    (s : Side) (p next : ℕ) (ns : List OrderNode)
    → All (IsResting s p next) ns
    → has_ref next ns ≡ false
has_ref-fresh s p next [] h = refl
has_ref-fresh s p next (m ∷ ns) h = ground (arith, has_ref-fresh s p next ns h.1)

append-IsDistinct :
    (n : OrderNode) (ns : List OrderNode)
    → IsDistinct ns
    → has_ref n.ref ns ≡ false
    → IsDistinct (ns ++ n ∷ [])
append-IsDistinct n [] h f = (refl, tt)
append-IsDistinct n (m ∷ ns) h f =
    ground (arith, append-IsDistinct n ns h.1, has_ref-append m.ref n ns)

pub has_node-append :
    (ref id : ℕ) (n : OrderNode) (ns : List OrderNode)
    → has_node ref id ns ≡ true
    → has_node ref id (ns ++ n ∷ []) ≡ true
has_node-append ref id n [] h = cc
has_node-append ref id n (m ∷ ns) h = ground (arith, has_node-append ref id n ns)

pub has_node-append_self :
    (n : OrderNode) (ns : List OrderNode) → has_node n.ref n.id (ns ++ n ∷ []) ≡ true
has_node-append_self n [] = ground arith
has_node-append_self n (m ∷ ns) = ground (arith, has_node-append_self n ns)

IsResting-suc :
    (s : Side) (p next : ℕ) (n : OrderNode) → IsResting s p next n → IsResting s p (suc next) n
IsResting-suc s p next n h = ground arith

pub IsQueue-suc :
    (s : Side) (p next : ℕ) (q : OrderQueue) → IsQueue s p next q → IsQueue s p (suc next) q
IsQueue-suc s p next q h = record {
  inhabited = h.inhabited;
  resting =
      All-map (IsResting s p next) (IsResting s p (suc next)) (IsResting-suc s p next) q.nodes
        h.resting;
  distinct = h.distinct;
  counted = h.counted;
}

pub IsLevels-suc :
    (s : Side) (next : ℕ) (h : PriceLevels) → IsLevels s next h → IsLevels s (suc next) h
IsLevels-suc s next h v = record {
  sorted = v.sorted;
  keyed = v.keyed;
  queues = λ p q e. IsQueue-suc s p next q (v.queues p q e);
}

module _ (s : Side) (next : ℕ) (n : OrderNode) (fresh : n.ref ≡ next) (side : n.side ≡ s)
    (wants : 0 < n.quantity) where
  push_new-IsQueue : IsQueue s n.price (suc next) (push n new_queue)
  unfolding push
  push_new-IsQueue = record {
    inhabited = refl;
    resting = ground arith;
    distinct = ground arith;
    counted = omega arith;
  }

  push-IsQueue :
      (q : OrderQueue) → IsQueue s n.price next q → IsQueue s n.price (suc next) (push n q)
  unfolding push
  push-IsQueue q h = record {
    inhabited = is_empty-append n q.nodes;
    resting =
        All-append (IsResting s n.price (suc next)) q.nodes (n ∷ [])
          (IsQueue-suc s n.price next q h).resting (ground arith);
    distinct =
        append-IsDistinct n q.nodes h.distinct
          (rw fresh (has_ref-fresh s n.price next q.nodes h.resting));
    counted =
        omega (arith, h.counted, total-append (λ (m : OrderNode). m.quantity) q.nodes (n ∷ []));
  }

  -- The levels stay well formed, the new order among them.
  pub insert_resting-IsLevels :
      (h : PriceLevels) (om : Map Entry)
      → IsLevels s next h
      → IsLevels s (suc next) (insert_resting s n h om).0
  unfolding insert_resting
  insert_resting-IsLevels h om v = elim (Option-cases (h.levels n.price)) [
    | inl missing ↦
        rw (missing, open_level)
          (record {
            sorted = sort-IsSorted s n.price h.prices v.sorted (ground (arith, v.keyed n.price));
            keyed = λ p. ground (
              arith,
              v.keyed p,
              has_price-sort s p (h.prices ++ n.price ∷ []),
              has_price-append p n.price h.prices,
            );
            queues =
                λ p q e. ground (arith, push_new-IsQueue, (IsLevels-suc s next h v).queues p q);
          })
    | inr (q, e) ↦
        rw (e, open_level)
          (record {
            sorted = v.sorted;
            keyed = λ p. ground (arith, v.keyed p);
            queues = λ p q' e'. ground (
              arith,
              push-IsQueue q (v.queues n.price q e),
              (IsLevels-suc s next h v).queues p q',
            );
          })
  ]

  -- Which prices there are afterwards.
  pub has_price-insert_resting :
      (h : PriceLevels) (om : Map Entry) (p : ℕ)
      → IsLevels s next h
      → has_price p (insert_resting s n h om).0.prices ≡ true
      → (n.price ≡ p) ⊎ (has_price p h.prices ≡ true)
  unfolding insert_resting
  has_price-insert_resting h om p v =
      ground
        (arith, has_price-sort s p (h.prices ++ n.price ∷ []), has_price-append p n.price h.prices)

  -- An entry of the order map afterwards is live, if those before were live on this side.
  pub insert_resting-live :
      (h : PriceLevels) (om : Map Entry) (id : ℕ) (e : Entry)
      → (insert_resting s n h om).1 id ≡ some e
      → ((n.id ≡ id)
          × (e ≡ record { ref = n.ref; side = s; price = n.price })
          × (is_live id e ((insert_resting s n h om).0.levels e.price) ≡ true))
        ⊎ ((om id ≡ some e)
            × (is_live id e (h.levels e.price) ≡ true
                → is_live id e ((insert_resting s n h om).0.levels e.price) ≡ true))
  unfolding insert_resting push
  insert_resting-live h om id e m = elim (Option-cases (h.levels n.price)) [
    | inl missing ↦ rw (missing, open_level) (ground (arith, missing, has_node-append_self n []))
    | inr (q, k) ↦
        rw (k, open_level)
          (ground (arith, k, has_node-append_self n q.nodes, has_node-append e.ref id n q.nodes))
  ]
