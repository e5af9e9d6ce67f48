-- ===== src/Matching/Fills.antt =====
-- The inner loop of `matchOrder`: one taker against the queue of one price.
use aether_x.Prelude.{
  ℕ, ◌+◌, ◌-◌, ◌≡◌, List, [], ◌∷◌, some, true, false, Map, All, arith, min, erase,
}
use aether_x.Matching.Queue.{Side, OrderNode, is_empty}
use aether_x.Matching.Book.{Entry}
use aether_x.Matching.Match.{Fill, match_queue}
use aether_x.Matching.Invariant.{lots, traded, has_node, IsResting, IsDistinct}

-- The queue's volume after a match with its head, and after the head is shifted out.
abbrev next_volume : ℕ → ℕ → OrderNode → ℕ
next_volume volume quantity n = let q = min quantity n.quantity in volume - q - (n.quantity - q)

module _ (symbol : ℕ) (taker : OrderNode) (is_buy : Side) where
  abbrev run : ℕ → List OrderNode → ℕ → ℕ → Map Entry → Fill
  run = match_queue symbol taker is_buy

  -- What the taker wanted is what it still wants and what was traded.
  pub match_queue-taker :
      (best : ℕ) (ns : List OrderNode) (quantity volume : ℕ) (om : Map Entry)
      → let f = run best ns quantity volume om in quantity ≡ f.quantity + traded f.trades
  unfolding match_queue
  match_queue-taker best [] quantity volume om = omega arith
  match_queue-taker best (n ∷ ns) quantity volume om = ground (
    arith,
    match_queue-taker best ns (quantity - min quantity n.quantity) (next_volume volume quantity n)
        (erase n.id om),
  )

  -- What the makers offered is what they still offer and what was traded.
  pub match_queue-makers :
      (best : ℕ) (ns : List OrderNode) (quantity volume : ℕ) (om : Map Entry)
      → let f = run best ns quantity volume om in lots ns ≡ lots f.queue.nodes + traded f.trades
  unfolding match_queue
  match_queue-makers best [] quantity volume om = omega arith
  match_queue-makers best (n ∷ ns) quantity volume om = ground (
    arith,
    match_queue-makers best ns (quantity - min quantity n.quantity) (next_volume volume quantity n)
        (erase n.id om),
  )

  -- The volume stays the sum of the quantities.
  pub match_queue-counted :
      (best : ℕ) (ns : List OrderNode) (quantity volume : ℕ) (om : Map Entry)
      → volume ≡ lots ns
      → let f = run best ns quantity volume om in f.queue.volume ≡ lots f.queue.nodes
  unfolding match_queue
  match_queue-counted best [] quantity volume om h = h
  match_queue-counted best (n ∷ ns) quantity volume om h = ground (
    arith,
    match_queue-counted best ns (quantity - min quantity n.quantity) (next_volume volume quantity n)
        (erase n.id om),
  )

  -- A queue that is not used up has used up the taker.
  pub match_queue-stops :
      (best : ℕ) (ns : List OrderNode) (quantity volume : ℕ) (om : Map Entry)
      → let f = run best ns quantity volume om in is_empty f.queue.nodes ≡ false → f.quantity ≡ 0
  unfolding match_queue
  match_queue-stops best [] quantity volume om h = cc
  match_queue-stops best (n ∷ ns) quantity volume om h = ground (
    arith,
    match_queue-stops best ns (quantity - min quantity n.quantity) (next_volume volume quantity n)
        (erase n.id om),
  )

  pub match_queue-IsResting :
      (s : Side) (p next best : ℕ) (ns : List OrderNode) (quantity volume : ℕ) (om : Map Entry)
      → All (IsResting s p next) ns
      → All (IsResting s p next) (run best ns quantity volume om).queue.nodes
  unfolding match_queue
  match_queue-IsResting s p next best [] quantity volume om h = tt
  match_queue-IsResting s p next best (n ∷ ns) quantity volume om h = ground (
    arith,
    match_queue-IsResting s p next best ns (quantity - min quantity n.quantity)
        (next_volume volume quantity n) (erase n.id om) h.1,
  )

  pub match_queue-IsDistinct :
      (best : ℕ) (ns : List OrderNode) (quantity volume : ℕ) (om : Map Entry)
      → IsDistinct ns
      → IsDistinct (run best ns quantity volume om).queue.nodes
  unfolding match_queue
  match_queue-IsDistinct best [] quantity volume om h = tt
  match_queue-IsDistinct best (n ∷ ns) quantity volume om h = ground (
    arith,
    match_queue-IsDistinct best ns (quantity - min quantity n.quantity)
        (next_volume volume quantity n) (erase n.id om) h.1,
  )

  -- An order that is still in the order map after the loop was there before, and if its node was in
  -- the queue, it still is.
  pub match_queue-map :
      (best : ℕ) (ns : List OrderNode) (quantity volume : ℕ) (om : Map Entry) (id : ℕ) (e : Entry)
      → let f = run best ns quantity volume om in
        f.order_map id ≡ some e
        → (om id ≡ some e) × (has_node e.ref id ns ≡ true → has_node e.ref id f.queue.nodes ≡ true)
  unfolding match_queue
  match_queue-map best [] quantity volume om id e h = (h, λ m. m)
  match_queue-map best (n ∷ ns) quantity volume om id e h = ground (
    arith,
    match_queue-map best ns (quantity - min quantity n.quantity) (next_volume volume quantity n)
        (erase n.id om) id e,
  )
