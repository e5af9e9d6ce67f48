-- ===== src/Matching/Orders.antt =====
-- What one message does to a well-formed book: the headline statements on `addOrder`, `cancelOrder`
-- and `broadcastDepth`.
use aether_x.Prelude.{
  ℕ, ◌+◌, ◌≡◌, refl, ap, ◌⊎◌, inl, inr, List, [], ◌++◌, map, Option, none, some, true, false, Map,
  All, arith, take, Option-cases,
}
use mathlib.Core.Path.{fun_ext}
use aether_x.Matching.Queue.{Side, buy, sell, OrderNode, OrderQueue}
use aether_x.Matching.Book.{
  PriceLevels, Entry, OrderBook, Level, trade_executed, depth, broadcast_depth, volume_of,
}
use aether_x.Matching.Match.{
  Order, Sweep, match_order, match_queue, opposite, node_of, finish, add_order,
}
use aether_x.Matching.Invariant.{lots, traded, has_price, IsQueue, IsLevels, IsBook}
use aether_x.Matching.Sweep.{other}
use aether_x.Matching.Books.{match_order-Outcome}
use aether_x.Matching.Trades.{
  IsFair, IsPast, stops-IsPast, AreInOrder, offered, fifo, shares, fill-fifo,
}
use aether_x.Matching.Dealing.{Dealing, match_levels-Dealing, positive}

-- The run of `matchOrder` inside `addOrder`.
abbrev pub sweep_of : Order → OrderBook → Sweep
sweep_of order b =
    match_order b.symbol (node_of order b.next_ref) (opposite order.side b) order.side b.order_map

match_order-Dealing :
    (s : Side) (node : OrderNode) (b : OrderBook)
    → IsBook b
    → Dealing b.symbol node s
        (opposite s b).prices
        (opposite s b).levels
        (match_order b.symbol node (opposite s b) s b.order_map)
unfolding match_order
match_order-Dealing buy node b v =
    match_levels-Dealing b.symbol node buy b.next_ref b.asks.prices node.quantity b.asks.levels
      b.order_map v.asks_valid
match_order-Dealing sell node b v =
    match_levels-Dealing b.symbol node sell b.next_ref b.bids.prices node.quantity b.bids.levels
      b.order_map v.bids_valid

finish-posts :
    (s : Side) (node : OrderNode) (w : Sweep) (b : OrderBook)
    → w.fault ≡ false
    → (finish s node w b).1 ≡ map trade_executed w.trades ++ broadcast_depth (finish s node w b).0
finish-posts s node w b h = simp h

-- On a well-formed book `addOrder` raises no exception, and posts one message for each trade of
-- `matchOrder`, in order, and then the depth of the new book.
pub add_order-posts :
    (order : Order) (b : OrderBook)
    → IsBook b
    → ((sweep_of order b).fault ≡ false)
      × ((add_order order b).1
          ≡ map trade_executed (sweep_of order b).trades ++ broadcast_depth (add_order order b).0)
unfolding add_order
add_order-posts order b v =
    let node = node_of order b.next_ref in
    let o = match_order-Outcome order.side node b v in
    (o.sound, finish-posts order.side node (sweep_of order b) _ o.sound)

-- Matching makes and loses nothing: what an order asks for is what it trades and what it still wants,
-- and what the other side offered is what it still offers and what was traded.
pub match_order-conserves :
    (order : Order) (b : OrderBook)
    → IsBook b
    → let w = sweep_of order b in
      (order.quantity ≡ w.quantity + traded w.trades)
      × (offered (opposite order.side b).levels (opposite order.side b).prices
          ≡ offered w.levels w.prices + traded w.trades)
match_order-conserves order b v =
    let node = node_of order b.next_ref in
    (
      (match_order-Outcome order.side node b v).wanted,
      (match_order-Dealing order.side node b v).balanced,
    )

-- Every trade of an order is at a price on the other side's list that does not pass the order's limit
-- (a market order, of price 0, has none), and is of a positive quantity; and no trade is at a better
-- price than one before it.
pub match_order-IsFair :
    (order : Order) (b : OrderBook)
    → IsBook b
    → let w = sweep_of order b in
      All (IsFair order.side order.price (opposite order.side b).prices) w.trades
      × AreInOrder (other order.side) w.trades
match_order-IsFair order b v =
    let d = match_order-Dealing order.side (node_of order b.next_ref) b v in (d.fair, d.ordered)

-- Matching ends only when the order is filled, or every price left on the other side is past its limit.
pub match_order_complete :
    (order : Order) (b : OrderBook)
    → IsBook b
    → let w = sweep_of order b in
      (w.quantity ≡ 0) ⊎ ((p : ℕ) → has_price p w.prices ≡ true → IsPast order.side order.price p)
match_order_complete order b v =
    elim (match_order-Outcome order.side (node_of order b.next_ref) b v).ended [
      | inl filled ↦ inl filled
      | inr past ↦ inr (λ p h. stops-IsPast order.side order.price p (past p h))
    ]

-- In a well-formed queue the makers are served first come, first served: the shares that the inner
-- loop of `matchOrder` hands out are those of `fifo`, which is written without the loop.
pub match_queue-fifo :
    (s : Side) (p next symbol : ℕ) (taker : OrderNode) (is_buy : Side) (q : OrderQueue)
    (quantity : ℕ) (om : Map Entry)
    → IsQueue s p next q
    → shares (match_queue symbol taker is_buy p q.nodes quantity q.volume om).trades
      ≡ fifo quantity 0 q.nodes
match_queue-fifo s p next symbol taker is_buy q quantity om h =
    fill-fifo symbol taker is_buy p q.nodes quantity 0 quantity q.volume om
      (positive s p next q.nodes h.resting) (omega arith)

abbrev pub orders_at : Option OrderQueue → List OrderNode
orders_at none = []
orders_at (some q) = q.nodes

volume-lots :
    (s : Side) (next : ℕ) (h : PriceLevels)
    → IsLevels s next h
    → (p : ℕ) → volume_of (h.levels p) ≡ lots (orders_at (h.levels p))
volume-lots s next h v p = elim (Option-cases (h.levels p)) [
  | inl missing ↦ rw missing refl
  | inr (q, known) ↦ rw known ((v.queues p q known).counted)
]

-- The depth of a side of a well-formed book gives, for its best prices, the sum of the quantities that
-- rest there.
pub depth-lots :
    (s : Side) (next : ℕ) (h : PriceLevels)
    → IsLevels s next h
    → depth h
      ≡ map (λ p. record { price = p; volume = lots (orders_at (h.levels p)) }) (take 20 h.prices)
depth-lots s next h v =
    ap (λ (f : ℕ → Level). map f (take 20 h.prices))
      (fun_ext (λ p. ap (λ n. record { price = p; volume = n }) (volume-lots s next h v p)))
