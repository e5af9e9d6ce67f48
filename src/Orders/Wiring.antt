-- ===== src/Orders/Wiring.antt =====
-- backend/src/services/matchingEngine.ts: from the event log to the worker thread and back. Order ids
-- are numbers in the worker's model and texts here: `id_text` is the text of one.
use aether_x.Prelude.{ℕ, ◌≡◌, refl, List, [], ◌∷◌, ◌++◌, Option, none, some, Map, insert, arith}
use aether_x.Prelude.Text.{Text, codes}
use aether_x.Matching.Queue.{Side}
use aether_x.Matching.Book.{Trade, Level, Message, depth_update}
use aether_x.Events.Store.{
  EventType, order_activated, order_canceled, AppendEventParams, DomainEvent, row_of,
}
use aether_x.Events.Log.{Log, emit, IsLogged, emit-IsLogged}
use aether_x.Oms.Engine.{activation}
use aether_x.Oms.Intents.{stop, trigger_waiting, Payload, no_payload}

-- What is posted to the worker; a field that the event lacks is posted as undefined.
pub data Posted : Type 0 where
  add_posted : Text → Option ℕ → Option ℕ → Option Side → ℕ → Option ℕ → Posted
  cancel_posted : Text → Option ℕ → Posted

-- The handler of order events.
abbrev pub post_type : EventType → DomainEvent Payload → Option Posted
post_type order_activated e = some (
    add_posted e.aggregate_id e.payload.user_id e.payload.symbol e.payload.side e.payload.price
      e.payload.quantity)
post_type order_canceled e = some (cancel_posted e.aggregate_id e.payload.symbol)
post_type _ e = none

unfoldable pub post_to_worker : DomainEvent Payload → Option Posted
post_to_worker e = post_type e.event_type e

-- The log, and the last depth of each symbol.
pub record Gateway : Type 0 where
  pub log : Log Payload
  pub order_book_cache : Map (List Level × List Level)

abbrev pub depth_or_empty : Option (List Level × List Level) → List Level × List Level
depth_or_empty none = ([], [])
depth_or_empty (some d) = d

abbrev pub get_order_book_depth : ℕ → Gateway → List Level × List Level
get_order_book_depth symbol g = depth_or_empty (g.order_book_cache symbol)

module _ (id_text : ℕ → Text) where
  -- The event of a trade. The parties and orders in its payload are left out.
  abbrev pub trade_event : Trade → AppendEventParams Payload
  trade_event t = record {
    aggregate_id = id_text t.taker_order_id;
    event_type = EventType.trade_executed;
    payload = record no_payload {
      symbol = some t.symbol;
      price = t.price;
      quantity = some t.quantity;
    };
    idempotency_key = some (id_text t.taker_order_id ++ codes "-" ++ id_text t.maker_order_id);
  }

  -- The handler of the worker's messages.
  unfoldable pub on_worker_message : Message → Gateway → Gateway
  on_worker_message (Message.trade_executed t) g = record g { log = emit (trade_event t) g.log }
  on_worker_message (depth_update symbol bids asks) g = record g {
    order_book_cache = insert symbol (bids, asks) g.order_book_cache;
  }

  abbrev pub on_worker_messages : List Message → Gateway → Gateway
  on_worker_messages [] g = g
  on_worker_messages (m ∷ ms) g = on_worker_messages ms (on_worker_message m g)

  -- Whatever the worker posts, the published stream of a gateway stays its event store: a trade that
  -- is posted twice is stored and published once.
  on_worker_messages-IsLogged :
      (ms : List Message) (g : Gateway) → IsLogged g.log → IsLogged (on_worker_messages ms g).log
  unfolding on_worker_message
  on_worker_messages-IsLogged [] g h = h
  on_worker_messages-IsLogged (Message.trade_executed t ∷ ms) g h =
      on_worker_messages-IsLogged ms _ (emit-IsLogged (trade_event t) g.log h)
  on_worker_messages-IsLogged (depth_update s b a ∷ ms) g h = on_worker_messages-IsLogged ms _ h

-- The event with which a new stop order is set to wait for its trigger is posted to the worker as an
-- order to match.
post_to_worker-activation :
    (id : Text) (p : Payload) (n : ℕ)
    → p.order_type ≡ some stop
    → let e = row_of (activation id p) n in
      (e.payload.status ≡ some trigger_waiting)
      × (post_to_worker e ≡ some (add_posted id p.user_id p.symbol p.side p.price p.quantity))
unfolding post_to_worker
post_to_worker-activation id p n h = (ground (arith, h), refl)
