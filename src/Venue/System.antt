-- ===== src/Venue/System.antt =====
-- The order management, the matching engine and its worker of backend/src/services/, as one state with
-- the queues between them. The two consumers of `order.events` have cursors of their own, which stand
-- at `$` until a first event is handled; the worker thread has an inbox and an outbox. Each handler runs
-- to its end. The events of other services, such as the trigger engine, are appends of their own.
use aether_x.Prelude.{
  ℕ, zero, suc, List, [], ◌∷◌, ◌++◌, length, Option, none, some, Bool, Map, empty,
}
use aether_x.Prelude.Text.{Text}
use aether_x.Bus.Stream.{Cursor, tail, seen_to, resolve}
use aether_x.Matching.Queue.{Side, sell}
use aether_x.Matching.Book.{OrderBook, Level, Message}
use aether_x.Matching.Match.{Request, add_request, cancel_request, on_message}
use aether_x.Events.Store.{AppendEventParams, DomainEvent}
use aether_x.Events.Log.{emit}
use aether_x.Oms.Engine.{OrderRow, Oms, project_event}
use aether_x.Oms.Intents.{Payload, OrderIntent, process_intent, process_cancel}
use aether_x.Orders.Wiring.{
  Posted, add_posted, cancel_posted, post_to_worker, Gateway, on_worker_message,
}

-- A subscription's loop: its cursor, and the place in the stream behind which its current read waits
-- or returns events, if it is in one.
pub record Consumer : Type 0 where
  pub last_seen_id : Cursor
  pub reading : Option ℕ

pub record Venue : Type 0 where
  pub oms : Oms
  pub order_book_cache : Map (List Level × List Level)
  pub projection : Consumer
  pub engine : Consumer
  pub inbox : List Request
  pub books : Map OrderBook
  pub outbox : List Message

abbrev pub new_consumer : Consumer
new_consumer = record { last_seen_id = tail; reading = none }

-- The subscriptions start from `$` and with no read, and the worker with no books.
abbrev pub boot : Oms → Venue
boot o = record {
  oms = o;
  order_book_cache = empty;
  projection = new_consumer;
  engine = new_consumer;
  inbox = [];
  books = empty;
  outbox = [];
}

pub data Action : Type 0 where
  intend : Bool → OrderIntent → Action
  cancel : Text → ℕ → ℕ → Action
  add_event : AppendEventParams Payload → Action
  projection_read projection_timeout project : Action
  engine_read engine_timeout post : Action
  work report : Action

abbrev pub get_elem? {ℓ} : {A : Type ℓ} → List A → ℕ → Option A
get_elem? [] n = none
get_elem? (x ∷ xs) zero = some x
get_elem? (x ∷ xs) (suc n) = get_elem? xs n

-- `XREAD` from the cursor, where no read is under way: `$` is the end of the stream at this moment.
abbrev pub read_at : Option ℕ → ℕ → Option ℕ
read_at none n = some n
read_at (some k) n = some k

abbrev pub begin_reading {ℓ} : {A : Type ℓ} → List A → Consumer → Consumer
begin_reading stream c = record c { reading = read_at c.reading (resolve c.last_seen_id stream) }

-- A read that timed out or failed.
abbrev pub end_reading : Consumer → Consumer
end_reading c = record c { reading = none }

abbrev with_place {ℓ} : {A : Type ℓ} → ℕ → Option A → Option (ℕ × A)
with_place n none = none
with_place n (some e) = some (n, e)

-- The next event of a read, with its place.
abbrev pub next_event {ℓ} : {A : Type ℓ} → Option ℕ → List A → Option (ℕ × A)
next_event none es = none
next_event (some n) es = with_place n (get_elem? es n)

-- The cursor behind the event at a place, and the loop at what comes next.
abbrev pub advance : ℕ → Consumer
advance n = record { last_seen_id = seen_to (suc n); reading = some (suc n) }

-- A missing field as the worker takes it: no loop runs and nothing rests where the quantity is
-- undefined, and a side other than BUY is a sale.
abbrev pub or_zero : Option ℕ → ℕ
or_zero none = 0
or_zero (some n) = n

abbrev pub or_sell : Option Side → Side
or_sell none = sell
or_sell (some s) = s

abbrev pub gateway_of : Venue → Gateway
gateway_of v = record { log = v.oms.log; order_book_cache = v.order_book_cache }

abbrev pub with_gateway : Gateway → Venue → Venue
with_gateway g v = record v {
  oms = record v.oms { log = g.log };
  order_book_cache = g.order_book_cache;
}

module _ (id_number : Text → ℕ) where
  -- `id_number` is the number that stands for an id in the worker's model.
  abbrev pub to_request : Posted → Request
  to_request (add_posted id user symbol side price quantity) = add_request symbol (record {
    id = id_number id;
    user_id = or_zero user;
    side = or_sell side;
    price = price;
    quantity = or_zero quantity;
  })
  to_request (cancel_posted id symbol) = cancel_request symbol (id_number id)

  abbrev pub posts : Option Posted → List Request
  posts none = []
  posts (some p) = to_request p ∷ []

  -- What the matching engine posts for a list of events.
  abbrev pub requests_of : List (DomainEvent Payload) → List Request
  requests_of [] = []
  requests_of (e ∷ es) = posts (post_to_worker e) ++ requests_of es

-- Where the matching engine's last read from `$` began: a read that begins while no event has been
-- handled starts from the end of the stream at this moment.
abbrev pub start_from : Cursor → Option ℕ → ℕ → ℕ → ℕ
start_from tail none here n = here
start_from _ _ here n = n

module _ (fits : OrderRow → Bool) (id_number : Text → ℕ) (id_text : ℕ → Text) where
  abbrev pub project_next : Option (ℕ × DomainEvent Payload) → Venue → Venue
  project_next none v = v
  project_next (some (n, e)) v = record v {
    oms = project_event fits e v.oms;
    projection = advance n;
  }

  abbrev pub post_next : Option (ℕ × DomainEvent Payload) → Venue → Venue
  post_next none v = v
  post_next (some (n, e)) v = record v {
    inbox = v.inbox ++ posts id_number (post_to_worker e);
    engine = advance n;
  }

  abbrev pub work_next : List Request → Venue → Venue
  work_next [] v = v
  work_next (r ∷ rs) v =
      let (books, messages) = on_message r v.books in
      record v { inbox = rs; books = books; outbox = v.outbox ++ messages }

  abbrev pub report_next : List Message → Venue → Venue
  report_next [] v = v
  report_next (m ∷ ms) v =
      with_gateway (on_worker_message id_text m (gateway_of v)) (record v { outbox = ms })

  -- One handler runs; where it has nothing to take, nothing changes.
  unfoldable pub act : Action → Venue → Venue
  act (intend passes i) v = record v {
    oms = record v.oms { log = process_intent passes i v.oms.log };
  }
  act (cancel id user symbol) v = record v {
    oms = record v.oms { log = process_cancel id user symbol v.oms.log };
  }
  act (add_event p) v = record v { oms = record v.oms { log = emit p v.oms.log } }
  act projection_read v = record v { projection = begin_reading v.oms.log.published v.projection }
  act projection_timeout v = record v { projection = end_reading v.projection }
  act project v = project_next (next_event v.projection.reading v.oms.log.published) v
  act engine_read v = record v { engine = begin_reading v.oms.log.published v.engine }
  act engine_timeout v = record v { engine = end_reading v.engine }
  act post v = post_next (next_event v.engine.reading v.oms.log.published) v
  act work v = work_next v.inbox v
  act report v = report_next v.outbox v

  abbrev pub act_all : List Action → Venue → Venue
  act_all [] v = v
  act_all (a ∷ actions) v = act_all actions (act a v)

  abbrev pub started : Action → Venue → ℕ → ℕ
  started engine_read v n =
      start_from v.engine.last_seen_id v.engine.reading (length v.oms.log.published) n
  started _ v n = n

  abbrev pub start_of : List Action → Venue → ℕ → ℕ
  start_of [] v n = n
  start_of (a ∷ actions) v n = start_of actions (act a v) (started a v n)
