-- ===== src/Orders/Tests.antt =====
-- Witnesses for the order controller and the wiring of the worker.
use aether_x.Prelude.{◌≡◌, refl, List, [], ◌∷◌, none, some, empty}
use aether_x.Prelude.Text.{codes}
use aether_x.Prelude.Int.{pos}
use aether_x.Matching.Book.{Trade, Message, trade_executed}
use aether_x.Oms.Engine.{OrderRow}
use aether_x.Oms.Intents.{Payload, no_payload, stop, active}
use aether_x.Orders.Api.{num, OrderRequest, Intent, accepted, place_order}
use aether_x.Orders.Wiring.{Gateway}

abbrev request : OrderRequest
request = record {
  symbol = some (codes "btcusdt");
  side = some (codes "buy");
  order_type = some (codes "limit");
  price = none;
  quantity = some (num (pos 3));
  idempotency_key = none;
}

-- A limit order in lower case passes without a price.
abbrev taken : Intent
taken = record {
  idempotency_key = codes "u";
  user_id = 10;
  symbol = codes "BTCUSDT";
  side = codes "BUY";
  order_type = codes "LIMIT";
  price = num (pos 0);
  quantity = num (pos 3);
}

priceless : place_order (some 10) (codes "u") request ≡ accepted taken
unfolding place_order
priceless = refl

abbrev row : OrderRow
row = record {
  id = codes "k";
  details = record no_payload { user_id = some 10 };
  status = some active;
}

abbrev gateway : Gateway
gateway = record {
  log = record { store = record { rows = []; next_sequence = 1 }; published = [] };
  order_book_cache = empty;
}

abbrev traded : Trade
traded = record {
  symbol = 1;
  price = 100;
  quantity = 3;
  buyer_id = 10;
  seller_id = 11;
  maker_order_id = 5;
  taker_order_id = 6;
}

abbrev posted : List Message
posted = trade_executed traded ∷ trade_executed traded ∷ []

abbrev stop_order : Payload
stop_order = record no_payload { order_type = some stop; quantity = some 3 }
