-- ===== src/Oms/Intents.antt =====
-- The command handlers of `class OMSEngine` of backend/src/services/omsEngine.ts. A delivery from the bus is one call of a
-- handler. Fields that are only carried along (time in force, linked orders, timestamps) are left out.
use aether_x.Prelude.{ℕ, List, [], ◌∷◌, ◌++◌, Option, none, some, Bool, if◌then◌else◌}
use aether_x.Prelude.Text.{Text, codes}
use aether_x.Matching.Queue.{Side, buy, sell}
use aether_x.Events.Store.{
  order_created, order_rejected, order_canceled, AppendEventParams, DomainEvent, EventStore,
  append_batch,
}
use aether_x.Events.Log.{Log, emit}

pub data OrderType : Type 0 where
  market limit stop stop_limit take_profit : OrderType

pub data Status : Type 0 where
  pending active trigger_waiting triggered canceled partially_filled filled : Status

-- `payload` is an object whose fields may be missing. Where the code reads `price || 0`, a missing
-- price is 0.
pub record Payload : Type 0 where
  pub id : Option Text
  pub user_id : Option ℕ
  pub symbol : Option ℕ
  pub side : Option Side
  pub order_type : Option OrderType
  pub price : ℕ
  pub quantity : Option ℕ
  pub stop_price : Option ℕ
  pub trigger_price : Option ℕ
  pub status : Option Status
  pub parent_order_id : Option Text

abbrev pub no_payload : Payload
no_payload = record {
  id = none;
  user_id = none;
  symbol = none;
  side = none;
  order_type = none;
  price = 0;
  quantity = none;
  stop_price = none;
  trigger_price = none;
  status = none;
  parent_order_id = none;
}

-- A linked order: its price or stop price, and its quantity.
pub record Linked : Type 0 where
  pub price : ℕ
  pub quantity : ℕ

pub record OrderIntent : Type 0 where
  pub idempotency_key : Text
  pub user_id : ℕ
  pub symbol : ℕ
  pub side : Side
  pub order_type : OrderType
  pub price : ℕ
  pub quantity : ℕ
  pub stop_price : Option ℕ
  pub take_profit_order : Option Linked
  pub stop_loss_order : Option Linked

abbrev pub other_side : Side → Side
other_side buy = sell
other_side sell = buy

-- `{ ...intent, status: 'PENDING' }`
abbrev pub intent_payload : OrderIntent → Payload
intent_payload i = record no_payload {
  user_id = some i.user_id;
  symbol = some i.symbol;
  side = some i.side;
  order_type = some i.order_type;
  price = i.price;
  quantity = some i.quantity;
  stop_price = i.stop_price;
  status = some pending;
}

abbrev pub created : Text → Payload → AppendEventParams Payload
created id payload = record {
  aggregate_id = id;
  event_type = order_created;
  payload = payload;
  idempotency_key = some id;
}

-- The child orders are on the other side of their parent.
abbrev pub child_payload : OrderIntent → Payload
child_payload i = record (intent_payload i) {
  side = some (other_side i.side);
  parent_order_id = some i.idempotency_key;
}

abbrev pub take_profit_events : OrderIntent → Option Linked → List (AppendEventParams Payload)
take_profit_events i none = []
take_profit_events i (some l) =
    created (i.idempotency_key ++ codes "-tp") (record (child_payload i) {
      order_type = some take_profit;
      price = l.price;
      quantity = some l.quantity;
    })
    ∷ []

abbrev pub stop_loss_events : OrderIntent → Option Linked → List (AppendEventParams Payload)
stop_loss_events i none = []
stop_loss_events i (some l) =
    created (i.idempotency_key ++ codes "-sl") (record (child_payload i) {
      order_type = some stop;
      stop_price = some l.price;
      quantity = some l.quantity;
    })
    ∷ []

-- `eventsToAppend`
abbrev pub events_to_append : OrderIntent → List (AppendEventParams Payload)
events_to_append i =
    created i.idempotency_key (intent_payload i) ∷ take_profit_events i i.take_profit_order
    ++ stop_loss_events i i.stop_loss_order

-- The `catch` of `processIntent`. Its reason is left out.
abbrev pub rejected : Text → AppendEventParams Payload
rejected key = record {
  aggregate_id = key;
  event_type = order_rejected;
  payload = no_payload;
  idempotency_key = some key;
}

abbrev pub publish_batch :
    Text → Option (List (DomainEvent Payload)) × EventStore Payload → Log Payload → Log Payload
publish_batch key (none, s) l = emit (rejected key) (record l { store = s })
publish_batch key (some es, s) l = record { store = s; published = l.published ++ es }

-- `processIntent`, by whether `RiskEngine.validateOrder` lets the order pass.
unfoldable pub process_intent : Bool → OrderIntent → Log Payload → Log Payload
process_intent passes i l =
    if passes
    then publish_batch i.idempotency_key (append_batch (events_to_append i) l.store) l
    else emit (rejected i.idempotency_key) l

-- `processCancel`
unfoldable pub process_cancel : Text → ℕ → ℕ → Log Payload → Log Payload
process_cancel order_id user_id symbol = emit (record {
  aggregate_id = order_id;
  event_type = order_canceled;
  payload = record no_payload { user_id = some user_id; symbol = some symbol };
  idempotency_key = some (order_id ++ codes "-cancel");
})
