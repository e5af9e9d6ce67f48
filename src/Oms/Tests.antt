-- ===== src/Oms/Tests.antt =====
-- Witnesses for the order management: an order with two linked orders, sent twice and cancelled.
use aether_x.Prelude.{◌≡◌, refl, arith, List, [], ◌∷◌, none, some, true, false}
use aether_x.Prelude.Text.{codes}
use aether_x.Matching.Queue.{buy}
use aether_x.Events.Log.{Log, IsLogged}
use aether_x.Oms.Engine.{Oms}
use aether_x.Oms.Intents.{Payload, OrderIntent, limit, process_intent}
use aether_x.Oms.Once.{Delivery, intent, cancel_intent, process_intent_once}

abbrev bracket : OrderIntent
bracket = record {
  idempotency_key = codes "k";
  user_id = 10;
  symbol = 1;
  side = buy;
  order_type = limit;
  price = 100;
  quantity = 3;
  stop_price = none;
  take_profit_order = some (record { price = 120; quantity = 3 });
  stop_loss_order = some (record { price = 90; quantity = 3 });
}

abbrev empty_log : Log Payload
empty_log = record { store = record { rows = []; next_sequence = 1 }; published = [] }

abbrev idle : Oms
idle = record { orders = []; relationships = []; log = empty_log }

empty_log-IsLogged : IsLogged empty_log
empty_log-IsLogged = record {
  is_store = record { ascends = omega arith; keys = tt };
  logged = refl;
}

abbrev deliveries : List Delivery
deliveries = intent true bracket ∷ intent true bracket ∷ cancel_intent (codes "k") 10 1 ∷ []

process_intent_once_example :
    let once = process_intent true bracket empty_log in
    let twice = process_intent false bracket once in
    (twice.store.rows ≡ once.store.rows) × (twice.published ≡ once.published)
process_intent_once_example =
    process_intent_once true false bracket bracket empty_log b'k' [] empty_log-IsLogged refl refl
