-- ===== src/Triggers/Engine.antt =====
-- `class TriggerEngine` of backend/src/services/triggerEngine.ts. An order id that is
-- empty or missing is `none`, as is a price that is 0 or missing; a missing symbol is 0, where symbols
-- are numbers from 1 on.
use aether_x.Prelude.{
  ℕ, suc, List, [], ◌∷◌, ◌++◌, Option, none, some, Bool, true, false, not, Map, empty, insert, keep,
  leb, if◌then◌else◌,
}
use aether_x.Prelude.Text.{Text, text_eq}
use aether_x.Matching.Queue.{Side, buy, sell}
use aether_x.Events.Store.{
  EventType, order_rejected, order_triggered, order_filled, order_canceled, DomainEvent,
  key_or_null,
}
use aether_x.Events.Log.{Log, emit}
use aether_x.Oms.Engine.{follow_up}
use aether_x.Oms.Intents.{
  OrderType, stop, stop_limit, take_profit, Status, trigger_waiting, triggered, Payload, no_payload,
}

pub record TriggerOrder : Type 0 where
  pub id : Option Text
  pub symbol : ℕ
  pub side : Option Side
  pub order_type : Option OrderType
  pub trigger_price : ℕ

pub record TriggerEngine : Type 0 where
  pub stop_buckets : Map (List TriggerOrder)
  pub take_profit_buckets : Map (List TriggerOrder)

abbrev pub no_triggers : TriggerEngine
no_triggers = record { stop_buckets = empty; take_profit_buckets = empty }

-- `buckets.get(symbol) || []`
abbrev pub bucket : Map (List TriggerOrder) → ℕ → List TriggerOrder
bucket m symbol = elim (m symbol) [ none ↦ [] | some ts ↦ ts ]

abbrev pub push_bucket : TriggerOrder → Map (List TriggerOrder) → Map (List TriggerOrder)
push_bucket t m = insert t.symbol (bucket m t.symbol ++ t ∷ []) m

abbrev pub or_else {ℓ} : {A : Type ℓ} → Option A → Option A → Option A
or_else none o = o
or_else (some a) o = some a

abbrev pub symbol_or_zero : Option ℕ → ℕ
symbol_or_zero none = 0
symbol_or_zero (some s) = s

abbrev pub put_trigger : Option OrderType → TriggerOrder → TriggerEngine → TriggerEngine
put_trigger (some stop) t g = record g { stop_buckets = push_bucket t g.stop_buckets }
put_trigger (some stop_limit) t g = record g { stop_buckets = push_bucket t g.stop_buckets }
put_trigger (some take_profit) t g = record g {
  take_profit_buckets = push_bucket t g.take_profit_buckets;
}
put_trigger _ t g = g

-- The payload of an order has no `aggregateId`: without an id the trigger has none.
abbrev pub add_priced : Option ℕ → Payload → TriggerEngine → TriggerEngine
add_priced none order g = g
add_priced (some price) order g =
    put_trigger order.order_type
      (record {
        id = key_or_null order.id;
        symbol = symbol_or_zero order.symbol;
        side = order.side;
        order_type = order.order_type;
        trigger_price = price;
      })
      g

-- `addTrigger`
unfoldable pub add_trigger : Payload → TriggerEngine → TriggerEngine
add_trigger order = add_priced (or_else order.trigger_price order.stop_price) order

-- `loadActiveTriggers`, from the rows of orders that wait.
abbrev pub load_active_triggers : List Payload → TriggerEngine → TriggerEngine
load_active_triggers [] g = g
load_active_triggers (row ∷ rows) g = load_active_triggers rows (add_trigger row g)

-- `===` of two ids
abbrev pub same_id : Option Text → Option Text → Bool
same_id none none = true
same_id (some s) (some t) = text_eq s t
same_id _ _ = false

-- `if (buckets.has(symbol)) buckets.set(symbol, buckets.get(symbol).filter(...))`
abbrev pub filter_bucket : Option Text → ℕ → Map (List TriggerOrder) → Map (List TriggerOrder)
filter_bucket id symbol m = elim (m symbol) [
  | none ↦ m
  | some ts ↦ insert symbol (keep (λ t. not (same_id t.id id)) ts) m
]

unfoldable pub remove_trigger : Option Text → ℕ → TriggerEngine → TriggerEngine
remove_trigger id symbol g = record {
  stop_buckets = filter_bucket id symbol g.stop_buckets;
  take_profit_buckets = filter_bucket id symbol g.take_profit_buckets;
}

-- The tests of the two loops of `evaluateTriggers`.
abbrev pub stop_hit : ℕ → Option Side → ℕ → Bool
stop_hit current (some sell) price = leb current price
stop_hit current (some buy) price = leb price current
stop_hit current none price = false

abbrev pub take_profit_hit : ℕ → Option Side → ℕ → Bool
take_profit_hit current (some sell) price = leb price current
take_profit_hit current (some buy) price = leb current price
take_profit_hit current none price = false

abbrev pub hits : ℕ → ℕ → TriggerEngine → List TriggerOrder
hits symbol current g =
    keep (λ t. stop_hit current t.side t.trigger_price) (bucket g.stop_buckets symbol)
    ++ keep (λ t. take_profit_hit current t.side t.trigger_price)
        (bucket g.take_profit_buckets symbol)

-- `{ ...order, status: 'TRIGGERED' }`
abbrev pub triggered_payload : TriggerOrder → Payload
triggered_payload t = record no_payload {
  id = t.id;
  symbol = some t.symbol;
  side = t.side;
  order_type = t.order_type;
  trigger_price = some t.trigger_price;
  status = some triggered;
}

-- An append without an aggregate id violates NOT NULL; the number of the row is used up.
abbrev pub refuse_append : Log Payload → Log Payload
refuse_append l = record l { store = record l.store { next_sequence = suc l.store.next_sequence } }

-- The append of one event, which throws where the order has no id, and then the rest of the loop.
abbrev pub fire_next :
    Option Text
    → TriggerOrder
    → (TriggerEngine → Log Payload → TriggerEngine × Log Payload)
    → TriggerEngine
    → Log Payload
    → TriggerEngine × Log Payload
fire_next none t rest g l = (g, refuse_append l)
fire_next (some id) t rest g l =
    rest g (emit (follow_up order_triggered id (triggered_payload t)) l)

-- The loop that fires what was hit.
unfoldable pub fire : List TriggerOrder → TriggerEngine → Log Payload → TriggerEngine × Log Payload
fire [] g l = (g, l)
fire (t ∷ ts) g l = let rest = fire ts in fire_next t.id t rest (remove_trigger t.id t.symbol g) l

unfoldable pub evaluate_triggers : ℕ → ℕ → TriggerEngine → Log Payload → TriggerEngine × Log Payload
evaluate_triggers symbol current g = fire (hits symbol current g) g

-- The handler of order events.
abbrev pub is_waiting : Option Status → Bool
is_waiting (some trigger_waiting) = true
is_waiting _ = false

abbrev pub ends_order : EventType → Bool
ends_order order_canceled = true
ends_order order_filled = true
ends_order order_rejected = true
ends_order _ = false

unfoldable pub on_order_event : DomainEvent Payload → TriggerEngine → TriggerEngine
on_order_event e g =
    let g' = if is_waiting e.payload.status then add_trigger e.payload g else g in
    if ends_order e.event_type
    then remove_trigger (some e.aggregate_id) (symbol_or_zero e.payload.symbol) g'
    else g'
