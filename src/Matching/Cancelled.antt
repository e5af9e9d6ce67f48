-- ===== src/Matching/Cancelled.antt =====
-- What `cancelOrder` does to a well-formed book.
use aether_x.Prelude.{
  ℕ, ◌+◌, ◌≡◌, refl, inl, inr, List, [], ◌∷◌, none, some, false, arith, erase, ◌==◌, Option-cases,
  Bool-cases,
}
use aether_x.Matching.Queue.{
  Side, buy, sell, OrderNode, OrderQueue, is_empty, remove, unlink, quantity_of,
}
use aether_x.Matching.Book.{PriceLevels, Entry, OrderBook, cancel_order, cancel_in, cancel_side}
use aether_x.Matching.Invariant.{lots, has_ref, IsDistinct, IsLevels, IsBook, levels_of}
use aether_x.Matching.Cancel.{unlink-lots}
use aether_x.Matching.Orders.{orders_at}
use aether_x.Matching.Dealing.{lots_empty}

has_ref-unlink_self :
    (ref : ℕ) (ns : List OrderNode) → IsDistinct ns → has_ref ref (unlink ref ns) ≡ false
has_ref-unlink_self ref [] d = refl
has_ref-unlink_self ref (n ∷ ns) d = ground (arith, has_ref-unlink_self ref ns d.1)

-- The order is no longer known, its node is gone, and its level offers that much less; no level of
-- another price changes.
abbrev pub Cancels : Side → ℕ → Entry → OrderBook → OrderBook → Type 0
Cancels s id e b b' =
    (b'.order_map id ≡ none)
    × (has_ref e.ref (orders_at ((levels_of s b').levels e.price)) ≡ false)
    × (lots (orders_at ((levels_of s b').levels e.price))
          + quantity_of e.ref (orders_at ((levels_of s b).levels e.price))
        ≡ lots (orders_at ((levels_of s b).levels e.price)))
    × ((p : ℕ) → (p == e.price) ≡ false → (levels_of s b').levels p ≡ (levels_of s b).levels p)

cancel_in-Cancels :
    (s : Side) (next ref p : ℕ) (h : PriceLevels) (q : OrderQueue)
    → IsLevels s next h
    → h.levels p ≡ some q
    → let h' = cancel_in ref p (some q) h in
      (has_ref ref (orders_at (h'.levels p)) ≡ false)
      × (lots (orders_at (h'.levels p)) + quantity_of ref q.nodes ≡ lots q.nodes)
      × ((r : ℕ) → (r == p) ≡ false → h'.levels r ≡ h.levels r)
unfolding remove
cancel_in-Cancels s next ref p h q v known = elim (Bool-cases (is_empty (unlink ref q.nodes))) [
  | inl gone ↦ rw gone (
    ground arith,
    ground (arith, unlink-lots ref q.nodes, lots_empty (unlink ref q.nodes) gone),
    λ r ne. ground arith,
  )
  | inr left ↦ rw left (
    ground (arith, has_ref-unlink_self ref q.nodes (v.queues p q known).distinct),
    ground (arith, unlink-lots ref q.nodes),
    λ r ne. ground arith,
  )
]

cancel_side-Cancels :
    (s : Side) (id : ℕ) (e : Entry) (b : OrderBook)
    → IsBook b
    → b.order_map id ≡ some e
    → e.side ≡ s
    → Cancels s id e b (record (cancel_side s e b) { order_map = erase id b.order_map })
cancel_side-Cancels buy id e b v m side = elim (Option-cases (b.bids.levels e.price)) [
  | inl missing ↦ absurd (ground (arith, v.live id e m))
  | inr (q, known) ↦
      let c = cancel_in-Cancels buy b.next_ref e.ref e.price b.bids q v.bids_valid known in
      rw known (ground arith, c.0, c.1, c.2)
]
cancel_side-Cancels sell id e b v m side = elim (Option-cases (b.asks.levels e.price)) [
  | inl missing ↦ absurd (ground (arith, v.live id e m))
  | inr (q, known) ↦
      let c = cancel_in-Cancels sell b.next_ref e.ref e.price b.asks q v.asks_valid known in
      rw known (ground arith, c.0, c.1, c.2)
]

-- Cancelling a known order of a well-formed book takes its node out of its level, and what the level
-- offered is what it still offers and what the order still wanted; the order is no longer known, and
-- no level of another price changes.
pub cancel_order-Cancels :
    (id : ℕ) (e : Entry) (b : OrderBook)
    → IsBook b
    → b.order_map id ≡ some e
    → Cancels e.side id e b (cancel_order id b).0
unfolding cancel_order
cancel_order-Cancels id e b v m = rw m (cancel_side-Cancels e.side id e b v m refl)
