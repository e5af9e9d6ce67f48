-- ===== src/Matching/Books.antt =====
-- `addOrder` and `cancelOrder` keep an order book well formed.
use aether_x.Prelude.{ℕ, suc, ◌≡◌, refl, inl, inr, some, arith, erase, Bool-cases, Option-cases}
use aether_x.Matching.Queue.{Side, buy, sell, OrderNode}
use aether_x.Matching.Book.{Entry, OrderBook, cancel_side, cancel_order}
use aether_x.Matching.Match.{
  Order, Sweep, match_order, rests, settle_book, opposite, makers_of, node_of, finish, add_order,
}
use aether_x.Matching.Invariant.{IsBook}
use aether_x.Matching.Outcome.{Outcome, match_levels-Outcome, ended_at}
use aether_x.Matching.Resting.{
  IsLevels-suc, insert_resting-IsLevels, has_price-insert_resting, insert_resting-live,
}
use aether_x.Matching.Cancel.{cancel_in-IsLevels, cancel_in-has_price, cancel_in-live}

abbrev pub OrderOutcome : Side → OrderNode → OrderBook → Sweep → Type 0
OrderOutcome s node b w =
    Outcome b.symbol node s b.next_ref (opposite s b).prices node.quantity (opposite s b).levels
      b.order_map w

pub match_order-Outcome :
    (s : Side) (node : OrderNode) (b : OrderBook)
    → IsBook b
    → OrderOutcome s node b (match_order b.symbol node (opposite s b) s b.order_map)
unfolding match_order
match_order-Outcome buy node b v =
    match_levels-Outcome b.symbol node buy b.next_ref b.asks.prices node.quantity b.asks.levels
      b.order_map v.asks_valid
match_order-Outcome sell node b v =
    match_levels-Outcome b.symbol node sell b.next_ref b.bids.prices node.quantity b.bids.levels
      b.order_map v.bids_valid

-- The book after `matchOrder` with the next identity taken.
abbrev taken : OrderBook → OrderBook
taken b = record b { next_ref = suc b.next_ref }

module _ (node : OrderNode) (b : OrderBook) (v : IsBook b) (fresh : node.ref ≡ b.next_ref)
    (w : Sweep) where
  settle_buy-IsBook :
      node.side ≡ buy → OrderOutcome buy node b w → IsBook (settle_book buy node w (taken b))
  settle_buy-IsBook side o = elim (Bool-cases (rests node w.quantity)) [
    | inl stays ↦
        let n = record node { quantity = w.quantity } in
        rw stays (record {
          bids_valid =
              insert_resting-IsLevels buy b.next_ref n fresh side (ground arith) b.bids w.order_map
                v.bids_valid;
          asks_valid = IsLevels-suc sell b.next_ref (makers_of w) o.valid;
          live = λ id e m. ground (
            arith,
            insert_resting-live buy b.next_ref n fresh side (ground arith) b.bids w.order_map id e
                m,
            o.mapped id e,
            v.live id e,
          );
          uncrossed = λ p r x y. ground (
            arith,
            has_price-insert_resting buy b.next_ref n fresh side (ground arith) b.bids w.order_map p
                v.bids_valid x,
            v.uncrossed p r,
            o.fewer r y,
            ended_at b.symbol node buy b.next_ref b.asks.prices node.quantity b.asks.levels
                b.order_map w r o y,
          );
        })
    | inr gone ↦ rw gone (record {
      bids_valid = IsLevels-suc buy b.next_ref b.bids v.bids_valid;
      asks_valid = IsLevels-suc sell b.next_ref (makers_of w) o.valid;
      live = λ id e m. ground (arith, o.mapped id e m, v.live id e);
      uncrossed = λ p r x y. v.uncrossed p r x (o.fewer r y);
    })
  ]

  settle_sell-IsBook :
      node.side ≡ sell → OrderOutcome sell node b w → IsBook (settle_book sell node w (taken b))
  settle_sell-IsBook side o = elim (Bool-cases (rests node w.quantity)) [
    | inl stays ↦
        let n = record node { quantity = w.quantity } in
        rw stays (record {
          bids_valid = IsLevels-suc buy b.next_ref (makers_of w) o.valid;
          asks_valid =
              insert_resting-IsLevels sell b.next_ref n fresh side (ground arith) b.asks w.order_map
                v.asks_valid;
          live = λ id e m. ground (
            arith,
            insert_resting-live sell b.next_ref n fresh side (ground arith) b.asks w.order_map id e
                m,
            o.mapped id e,
            v.live id e,
          );
          uncrossed = λ p r x y. ground (
            arith,
            has_price-insert_resting sell b.next_ref n fresh side (ground arith) b.asks w.order_map
                r v.asks_valid y,
            v.uncrossed p r,
            o.fewer p x,
            ended_at b.symbol node sell b.next_ref b.bids.prices node.quantity b.bids.levels
                b.order_map w p o x,
          );
        })
    | inr gone ↦ rw gone (record {
      bids_valid = IsLevels-suc buy b.next_ref (makers_of w) o.valid;
      asks_valid = IsLevels-suc sell b.next_ref b.asks v.asks_valid;
      live = λ id e m. ground (arith, o.mapped id e m, v.live id e);
      uncrossed = λ p r x y. v.uncrossed p r (o.fewer p x) y;
    })
  ]

settle-IsBook :
    (s : Side) (node : OrderNode) (b : OrderBook) (w : Sweep)
    → IsBook b
    → node.ref ≡ b.next_ref
    → node.side ≡ s
    → OrderOutcome s node b w
    → IsBook (settle_book s node w (taken b))
settle-IsBook buy node b w v fresh side o = settle_buy-IsBook node b v fresh w side o
settle-IsBook sell node b w v fresh side o = settle_sell-IsBook node b v fresh w side o

finish-IsBook :
    (node : OrderNode) (b : OrderBook) (w : Sweep)
    → IsBook b
    → node.ref ≡ b.next_ref
    → OrderOutcome node.side node b w
    → IsBook (finish node.side node w (taken b)).0
finish-IsBook node b w v fresh o = simp (o.sound) (settle-IsBook node.side node b w v fresh refl o)

-- A new order keeps the book well formed.
pub add_order-IsBook : (order : Order) (b : OrderBook) → IsBook b → IsBook (add_order order b).0
unfolding add_order
add_order-IsBook order b v =
    let node = node_of order b.next_ref in
    let w = match_order b.symbol node (opposite order.side b) order.side b.order_map in
    finish-IsBook node b w v refl (match_order-Outcome order.side node b v)

-- So does a cancellation.
cancel_side-IsBook :
    (s : Side) (id : ℕ) (e : Entry) (b : OrderBook)
    → IsBook b
    → b.order_map id ≡ some e
    → e.side ≡ s
    → IsBook (record (cancel_side s e b) { order_map = erase id b.order_map })
cancel_side-IsBook buy id e b v m side = elim (Option-cases (b.bids.levels e.price)) [
  | inl missing ↦ absurd (ground (arith, v.live id e m))
  | inr (q, known) ↦ rw known (record {
    bids_valid = cancel_in-IsLevels buy b.next_ref e.ref e.price b.bids v.bids_valid q known;
    asks_valid = v.asks_valid;
    live = λ id' e' m'. ground (
      arith,
      v.live id e m,
      v.live id' e',
      cancel_in-live buy b.next_ref e.ref e.price b.bids v.bids_valid q id id' e' known,
    );
    uncrossed = λ p r x y.
        v.uncrossed p r (cancel_in-has_price buy b.next_ref e.ref e.price b.bids v.bids_valid q p x)
          y;
  })
]
cancel_side-IsBook sell id e b v m side = elim (Option-cases (b.asks.levels e.price)) [
  | inl missing ↦ absurd (ground (arith, v.live id e m))
  | inr (q, known) ↦ rw known (record {
    asks_valid = cancel_in-IsLevels sell b.next_ref e.ref e.price b.asks v.asks_valid q known;
    bids_valid = v.bids_valid;
    live = λ id' e' m'. ground (
      arith,
      v.live id e m,
      v.live id' e',
      cancel_in-live sell b.next_ref e.ref e.price b.asks v.asks_valid q id id' e' known,
    );
    uncrossed = λ p r x y.
        v.uncrossed p r x
          (cancel_in-has_price sell b.next_ref e.ref e.price b.asks v.asks_valid q r y);
  })
]

pub cancel_order-IsBook : (id : ℕ) (b : OrderBook) → IsBook b → IsBook (cancel_order id b).0
unfolding cancel_order
cancel_order-IsBook id b v = elim (Option-cases (b.order_map id)) [
  | inl unknown ↦ rw unknown v
  | inr (e, m) ↦ rw m (cancel_side-IsBook e.side id e b v m refl)
]
