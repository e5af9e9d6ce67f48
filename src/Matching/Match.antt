-- ===== src/Matching/Match.antt =====
-- `matchOrder`, `addOrder` and the message handler of backend/src/services/matchingWorker.ts.
use aether_x.Prelude.{
  ℕ, suc, ◌-◌, min, List, [], ◌∷◌, ◌++◌, map, Option, none, some, Bool, true, false, ◌&&◌, Map,
  insert, erase, ltb, ◌==◌, if◌then◌else◌,
}
use aether_x.Matching.Queue.{Side, buy, sell, OrderNode, OrderQueue, is_empty, shift}
use aether_x.Matching.Book.{
  PriceLevels, Entry, OrderBook, Trade, Message, trade_executed, new_book, insert_resting,
  broadcast_depth, cancel_order,
}

-- The payload of `ADD_ORDER`. A market order has price 0.
pub record Order : Type 0 where
  pub id : ℕ
  pub user_id : ℕ
  pub side : Side
  pub price : ℕ
  pub quantity : ℕ

-- The message of one match. Its timestamp is left out.
abbrev pub trade : ℕ → OrderNode → ℕ → OrderNode → ℕ → Side → Trade
trade symbol taker price maker quantity buy = record {
  symbol = symbol;
  price = price;
  quantity = quantity;
  buyer_id = taker.user_id;
  seller_id = maker.user_id;
  maker_order_id = maker.id;
  taker_order_id = taker.id;
}
trade symbol taker price maker quantity sell = record {
  symbol = symbol;
  price = price;
  quantity = quantity;
  buyer_id = maker.user_id;
  seller_id = taker.user_id;
  maker_order_id = maker.id;
  taker_order_id = taker.id;
}

-- The state after the inner loop of `matchOrder`: what the taker still wants, the queue, the order
-- map and the trades posted.
pub record Fill : Type 0 where
  pub quantity : ℕ
  pub queue : OrderQueue
  pub order_map : Map Entry
  pub trades : List Trade

abbrev pub reduced : OrderNode → ℕ → OrderNode
reduced maker quantity = record maker { quantity = maker.quantity - quantity }

-- The state after the outer loop. `fault` is the exception that `queue.head` raises where a price has
-- no queue.
pub record Sweep : Type 0 where
  pub quantity : ℕ
  pub prices : List ℕ
  pub levels : Map OrderQueue
  pub order_map : Map Entry
  pub trades : List Trade
  pub fault : Bool

-- The test that ends the outer loop: a limit order stops at a price that does not cross.
abbrev pub stops : Side → ℕ → ℕ → Bool
stops buy limit best = ltb 0 limit && ltb limit best
stops sell limit best = ltb 0 limit && ltb best limit

-- The inner loop ends with the queue as it stands.
abbrev pub halt : ℕ → List OrderNode → ℕ → Map Entry → Fill
halt quantity nodes volume order_map = record {
  quantity = quantity;
  queue = record { nodes = nodes; volume = volume };
  order_map = order_map;
  trades = [];
}

abbrev pub posting : Trade → Fill → Fill
posting t f = record f { trades = t ∷ f.trades }

-- The queue after a match of `quantity` with its head, before the head may be shifted out.
abbrev pub touched : OrderNode → List OrderNode → ℕ → ℕ → OrderQueue
touched maker rest volume quantity = record {
  nodes = reduced maker quantity ∷ rest;
  volume = volume - quantity;
}

-- The outer loop ends with the levels from here on as they stand.
abbrev pub leave : Bool → ℕ → List ℕ → Map OrderQueue → Map Entry → Sweep
leave fault quantity prices levels order_map = record {
  quantity = quantity;
  prices = prices;
  levels = levels;
  order_map = order_map;
  trades = [];
  fault = fault;
}

abbrev pub after : List Trade → Sweep → Sweep
after ts w = record w { trades = ts ++ w.trades }

abbrev pub keeping : ℕ → Sweep → Sweep
keeping p w = record w { prices = p ∷ w.prices }

module _ (symbol : ℕ) (taker : OrderNode) (is_buy : Side) where
  -- The inner loop, from the queue's head. A maker that keeps some quantity has used up the taker's,
  -- so the loop's test fails next.
  unfoldable pub match_queue : ℕ → List OrderNode → ℕ → ℕ → Map Entry → Fill
  unfolding shift
  match_queue best [] quantity volume order_map = halt quantity [] volume order_map
  match_queue best (maker ∷ rest) quantity volume order_map =
      let match_qty : ℕ = min quantity maker.quantity in
      let posted = trade symbol taker best maker match_qty is_buy in
      let q = touched maker rest volume match_qty in
      let next : Fill =
        match_queue best rest (quantity - match_qty) (shift q).1.volume
          (erase maker.id order_map) in
      if quantity == 0
      then halt quantity (maker ∷ rest) volume order_map
      else posting posted (
          if maker.quantity - match_qty == 0
          then next
          else halt (quantity - match_qty) q.nodes q.volume order_map)

  -- The outer loop over the prices from index `i` on. A level that is used up is spliced out and the
  -- index stays; else the index moves on.
  unfoldable pub match_levels : List ℕ → ℕ → Map OrderQueue → Map Entry → Sweep
  match_levels [] quantity levels order_map = leave false quantity [] levels order_map
  match_levels (best ∷ rest) quantity levels order_map =
      if quantity == 0
      then leave false quantity (best ∷ rest) levels order_map
      else if stops is_buy taker.price best
      then leave false quantity (best ∷ rest) levels order_map
      else elim (levels best) [
        | none ↦ leave true quantity (best ∷ rest) levels order_map
        | some queue ↦
            let f = match_queue best queue.nodes quantity queue.volume order_map in
            let done = is_empty f.queue.nodes in
            let levels' = if done then erase best levels else insert best f.queue levels in
            let w = match_levels rest f.quantity levels' f.order_map in
            after f.trades (if done then w else keeping best w)
      ]

unfoldable pub match_order : ℕ → OrderNode → PriceLevels → Side → Map Entry → Sweep
match_order symbol taker makers is_buy order_map =
    match_levels symbol taker is_buy makers.prices taker.quantity makers.levels order_map

abbrev pub makers_of : Sweep → PriceLevels
makers_of w = record { levels = w.levels; prices = w.prices }

abbrev pub node_of : Order → ℕ → OrderNode
node_of order ref = record {
  ref = ref;
  id = order.id;
  user_id = order.user_id;
  side = order.side;
  price = order.price;
  quantity = order.quantity;
}

-- The end of `addOrder`: the rest of a limit order is put on its own side.
abbrev pub rests : OrderNode → ℕ → Bool
rests node quantity = ltb 0 quantity && ltb 0 node.price

abbrev pub settle_in : Side → OrderNode → Sweep → PriceLevels → PriceLevels × Map Entry
settle_in s node w own =
    if rests node w.quantity
    then insert_resting s (record node { quantity = w.quantity }) own w.order_map
    else (own, w.order_map)

-- `addOrder` by the side of the order, on the outcome of `matchOrder`.
abbrev pub settle_book : Side → OrderNode → Sweep → OrderBook → OrderBook
settle_book buy node w b =
    let r = settle_in buy node w b.bids in
    record b { bids = r.0; asks = makers_of w; order_map = r.1 }
settle_book sell node w b =
    let r = settle_in sell node w b.asks in
    record b { asks = r.0; bids = makers_of w; order_map = r.1 }

-- What an exception inside `matchOrder` leaves behind.
abbrev pub broken_book : Side → Sweep → OrderBook → OrderBook
broken_book buy w b = record b { asks = makers_of w; order_map = w.order_map }
broken_book sell w b = record b { bids = makers_of w; order_map = w.order_map }

abbrev pub opposite : Side → OrderBook → PriceLevels
opposite buy b = b.asks
opposite sell b = b.bids

-- `addOrder` from the outcome of `matchOrder` on.
abbrev pub finish : Side → OrderNode → Sweep → OrderBook → OrderBook × List Message
finish s node w b =
    let posted = map trade_executed w.trades in
    let b' = settle_book s node w b in
    if w.fault then (broken_book s w b, posted) else (b', posted ++ broadcast_depth b')

unfoldable pub add_order : Order → OrderBook → OrderBook × List Message
add_order order b =
    let node = node_of order b.next_ref in
    let w = match_order b.symbol node (opposite order.side b) order.side b.order_map in
    finish order.side node w (record b { next_ref = suc b.next_ref })

-- The messages of the worker. A missing or empty `symbol` is `none`.
pub data Request : Type 0 where
  add_request : Option ℕ → Order → Request
  cancel_request : Option ℕ → ℕ → Request
  depth_request : Option ℕ → Request
  other_request : Option ℕ → Request

abbrev pub symbol_of : Request → Option ℕ
symbol_of (add_request s o) = s
symbol_of (cancel_request s i) = s
symbol_of (depth_request s) = s
symbol_of (other_request s) = s

abbrev pub get_book : ℕ → Map OrderBook → OrderBook
get_book s books = elim (books s) [ none ↦ new_book s | some b ↦ b ]

abbrev pub serve : Request → OrderBook → OrderBook × List Message
serve (add_request s order) b = add_order order b
serve (cancel_request s id) b = cancel_order id b
serve (depth_request s) b = (b, broadcast_depth b)
serve (other_request s) b = (b, [])

-- The `message` handler: the book of the symbol is made if it is not there.
abbrev pub on_symbol : Option ℕ → Request → Map OrderBook → Map OrderBook × List Message
on_symbol none r books = (books, [])
on_symbol (some s) r books =
    let (b, posted) = serve r (get_book s books) in (insert s b books, posted)

unfoldable pub on_message : Request → Map OrderBook → Map OrderBook × List Message
on_message r books = on_symbol (symbol_of r) r books
