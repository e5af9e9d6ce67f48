-- ===== src/Matching/Book.antt =====
-- `class OrderBook` of backend/src/services/matchingWorker.ts, but for `matchOrder`. A map of price
-- levels and the sorted array of its prices are one record, `PriceLevels`.
use aether_x.Prelude.{
  ℕ, List, [], ◌∷◌, ◌++◌, map, Option, none, some, Bool, not, Map, empty, insert, erase, keep, take,
  ltb, ◌==◌, if◌then◌else◌,
}
use aether_x.Matching.Queue.{
  Side, buy, sell, OrderNode, OrderQueue, new_queue, is_empty, push, remove,
}

pub record PriceLevels : Type 0 where
  pub levels : Map OrderQueue
  pub prices : List ℕ

-- An entry of `orderMap`: the node object, by its identity and side, and its price level.
pub record Entry : Type 0 where
  pub ref : ℕ
  pub side : Side
  pub price : ℕ

pub record OrderBook : Type 0 where
  pub symbol : ℕ
  pub bids : PriceLevels
  pub asks : PriceLevels
  pub order_map : Map Entry
  pub next_ref : ℕ  -- the identity of the next node object

pub record Trade : Type 0 where
  pub symbol : ℕ
  pub price : ℕ
  pub quantity : ℕ
  pub buyer_id : ℕ
  pub seller_id : ℕ
  pub maker_order_id : ℕ
  pub taker_order_id : ℕ

pub record Level : Type 0 where
  pub price : ℕ
  pub volume : ℕ

-- What the worker posts to its parent.
pub data Message : Type 0 where
  trade_executed : Trade → Message
  depth_update : ℕ → List Level → List Level → Message

abbrev pub no_levels : PriceLevels
no_levels = record { levels = empty; prices = [] }

abbrev pub new_book : ℕ → OrderBook
new_book symbol = record {
  symbol = symbol;
  bids = no_levels;
  asks = no_levels;
  order_map = empty;
  next_ref = 0;
}

-- The comparison functions handed to `sort`: bids descending, asks ascending.
abbrev pub before : Side → ℕ → ℕ → Bool
before buy a b = ltb b a
before sell a b = ltb a b

-- `Array.prototype.sort`, as a stable insertion sort by that comparison.
abbrev pub insert_price : Side → ℕ → List ℕ → List ℕ
insert_price s p [] = p ∷ []
insert_price s p (r ∷ rs) = if before s r p then r ∷ insert_price s p rs else p ∷ r ∷ rs

unfoldable pub sort : Side → List ℕ → List ℕ
sort s [] = []
sort s (p ∷ ps) = insert_price s p (sort s ps)

-- Makes the level of a price if it is not there.
abbrev pub open_level : Side → ℕ → Option OrderQueue → PriceLevels → OrderQueue × PriceLevels
open_level s price (some queue) h = (queue, h)
open_level s price none h = (
  new_queue,
  record { levels = insert price new_queue h.levels; prices = sort s (h.prices ++ price ∷ []) },
)

-- The queue of a level is a shared object: a push into it is seen through the map.
unfoldable pub insert_resting : Side → OrderNode → PriceLevels → Map Entry → PriceLevels × Map Entry
unfolding push
insert_resting s node h order_map =
    let (queue, h') = open_level s node.price (h.levels node.price) h in
    (
      record h' { levels = insert node.price (push node queue) h'.levels },
      insert node.id (record { ref = node.ref; side = node.side; price = node.price }) order_map,
    )

-- One side of `cancelOrder`, on the queue that the level's look-up gave.
abbrev pub cancel_in : ℕ → ℕ → Option OrderQueue → PriceLevels → PriceLevels
unfolding remove
cancel_in ref price none h = h
cancel_in ref price (some queue) h =
    let left = remove ref queue in
    if is_empty left.nodes
    then record { levels = erase price h.levels; prices = keep (λ p. not (p == price)) h.prices }
    else record h { levels = insert price left h.levels }

abbrev pub volume_of : Option OrderQueue → ℕ
volume_of none = 0
volume_of (some queue) = queue.volume

abbrev pub depth : PriceLevels → List Level
depth h = map (λ p. record { price = p; volume = volume_of (h.levels p) }) (take 20 h.prices)

unfoldable pub broadcast_depth : OrderBook → List Message
broadcast_depth b = depth_update b.symbol (depth b.bids) (depth b.asks) ∷ []

-- `cancelOrder` chooses the side by the node's.
abbrev pub cancel_side : Side → Entry → OrderBook → OrderBook
cancel_side buy e b = record b { bids = cancel_in e.ref e.price (b.bids.levels e.price) b.bids }
cancel_side sell e b = record b { asks = cancel_in e.ref e.price (b.asks.levels e.price) b.asks }

abbrev pub cancel_entry : ℕ → Option Entry → OrderBook → OrderBook × List Message
cancel_entry order_id none b = (b, [])
cancel_entry order_id (some e) b =
    let b' = record (cancel_side e.side e b) { order_map = erase order_id b.order_map } in
    (b', broadcast_depth b')

unfoldable pub cancel_order : ℕ → OrderBook → OrderBook × List Message
cancel_order order_id b = cancel_entry order_id (b.order_map order_id) b
