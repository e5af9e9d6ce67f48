-- ===== src/Oms/Engine.antt =====
-- The projections of `class OMSEngine` of backend/src/services/omsEngine.ts: events into the rows of the
-- read model, and the events that follow.
use aether_x.Prelude.{
  List, [], ◌∷◌, ◌++◌, map, Option, none, some, Bool, true, false, ◌&&◌, any, if◌then◌else◌,
}
use aether_x.Prelude.Text.{Text, text_eq}
use aether_x.Events.Store.{
  EventType, order_created, order_rejected, order_activated, order_triggered, order_filled,
  order_canceled, trade_executed, AppendEventParams, DomainEvent, key_or_null,
}
use aether_x.Events.Log.{Log, emit}
use aether_x.Oms.Intents.{
  OrderType, Payload, Status, active, canceled, limit, market, no_payload, trigger_waiting,
  triggered,
}

-- The rows of `orders` and `order_relationships` that the projections write.
pub record OrderRow : Type 0 where
  pub id : Text
  pub details : Payload
  pub status : Option Status

pub record Relationship : Type 0 where
  pub parent_order_id : Text
  pub child_order_id : Text

-- The read model, and the log that the projections append to.
pub record Oms : Type 0 where
  pub orders : List OrderRow
  pub relationships : List Relationship
  pub log : Log Payload

abbrev pub has_order : Text → List OrderRow → Bool
has_order id = any (λ (r : OrderRow). text_eq r.id id)

-- `INSERT INTO orders ... ON CONFLICT (id) DO NOTHING`
abbrev pub insert_order : OrderRow → List OrderRow → List OrderRow
insert_order r rows = if has_order r.id rows then rows else rows ++ r ∷ []

-- `UPDATE orders SET status = ... WHERE id = ...`
abbrev pub update_status : Option Status → Text → List OrderRow → List OrderRow
update_status status id = map (λ r. if text_eq r.id id then record r { status = status } else r)

-- `INSERT INTO order_relationships`, under its UNIQUE constraint.
abbrev pub insert_relationship : Relationship → List Relationship → List Relationship
insert_relationship r rs =
    if any
      (λ (s : Relationship).
        text_eq s.parent_order_id r.parent_order_id && text_eq s.child_order_id r.child_order_id)
      rs
    then rs
    else rs ++ r ∷ []

-- An event of an order without an idempotency key.
abbrev pub follow_up : EventType → Text → Payload → AppendEventParams Payload
follow_up type id payload = record {
  aggregate_id = id;
  event_type = type;
  payload = payload;
  idempotency_key = none;
}

-- `['MARKET', 'LIMIT'].includes(payload.type)`
abbrev pub is_immediate : Option OrderType → Bool
is_immediate (some market) = true
is_immediate (some limit) = true
is_immediate _ = false

abbrev pub activation : Text → Payload → AppendEventParams Payload
activation id payload = follow_up order_activated id (record payload {
  status = some (if is_immediate payload.order_type then active else trigger_waiting);
})

-- What `ORDER_CREATED` does once the row is in. The foreign keys of a relationship refuse it where an
-- order is not there.
abbrev pub relate : Option Text → DomainEvent Payload → Oms → Oms
relate none e o = record o { log = emit (activation e.aggregate_id e.payload) o.log }
relate (some parent) e o =
    if has_order parent o.orders && has_order e.aggregate_id o.orders
    then record o {
      relationships =
          insert_relationship (record { parent_order_id = parent; child_order_id = e.aggregate_id })
            o.relationships;
    }
    else o

-- The loop over the children of a filled order.
abbrev pub trigger_children : Text → List Relationship → Log Payload → Log Payload
trigger_children id [] l = l
trigger_children id (r ∷ rs) l = trigger_children id rs (
    if text_eq r.parent_order_id id
    then emit
        (follow_up order_triggered r.child_order_id (record no_payload { status = some triggered }))
        l
    else l)

module _ (fits : OrderRow → Bool) where
  -- `projectEvent` by the event's type. `fits` says whether PostgreSQL takes the row for `orders`, by
  -- its column types, references and checks: if not, the `catch` ends the handler.
  abbrev pub project_type : EventType → DomainEvent Payload → Oms → Oms
  project_type order_created e o =
      let row : OrderRow = record {
        id = e.aggregate_id;
        details = e.payload;
        status = e.payload.status;
      } in
      if fits row
      then relate (key_or_null e.payload.parent_order_id) e
          (record o { orders = insert_order row o.orders })
      else o
  project_type order_activated e o = record o {
    orders = update_status e.payload.status e.aggregate_id o.orders;
  }
  project_type order_triggered e o = record o {
    orders = update_status (some active) e.aggregate_id o.orders;
    log =
        emit (follow_up order_activated e.aggregate_id (record e.payload { status = some active }))
          o.log;
  }
  project_type order_filled e o = record o {
    log = trigger_children e.aggregate_id o.relationships o.log;
  }
  project_type order_canceled e o = record o {
    orders = update_status (some canceled) e.aggregate_id o.orders;
  }
  project_type order_rejected e o = o
  project_type trade_executed e o = o

  unfoldable pub project_event : DomainEvent Payload → Oms → Oms
  project_event e o = project_type e.event_type e o
