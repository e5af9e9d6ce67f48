-- ===== src/Oms/Once.antt =====
-- The log of events through the handlers of the order management.
use aether_x.Prelude.{
  ℕ, ◌≡◌, sym, ap, ◌∙◌, inl, inr, List, [], ◌∷◌, ◌++◌, Option, none, some, Bool, true, false, ◌&&◌,
  any-middle, Bool-cases,
}
use aether_x.Prelude.Text.{Text, text_eq, text_eq_refl}
use aether_x.Events.Store.{
  EventType, order_created, order_rejected, order_activated, order_triggered, order_filled,
  order_canceled, trade_executed, AppendEventParams, DomainEvent, same_key, has_key, key_or_null,
  append_batch,
}
use aether_x.Events.Keep.{append_batch_old, append_batch-cases}
use aether_x.Events.Log.{Log, IsLogged, emit-IsLogged, emit_old, has_key-emit}
use aether_x.Oms.Engine.{
  OrderRow, Relationship, Oms, trigger_children, relate, activation, project_type, project_event,
  has_order,
}
use aether_x.Oms.Intents.{
  Payload, OrderIntent, created, events_to_append, intent_payload, rejected, publish_batch,
  process_intent, process_cancel, take_profit_events, stop_loss_events,
}

publish_batch-IsLogged :
    (key : Text) (ps : List (AppendEventParams Payload)) (l : Log Payload)
    → IsLogged l
    → IsLogged (publish_batch key (append_batch ps l.store) l)
publish_batch-IsLogged key ps l h = elim (append_batch-cases ps l.store h.is_store) [
  | inl (es, s, e, rows, asked, kept) ↦
      rw e (record { is_store = kept; logged = ap (λ xs. xs ++ es) h.logged ∙ sym rows })
  | inr (s, e, rows, kept) ↦ rw e (
      emit-IsLogged (rejected key) (record l { store = s })
        (record { is_store = kept; logged = h.logged ∙ sym rows }))
]

process_intent-IsLogged :
    (passes : Bool) (i : OrderIntent) (l : Log Payload)
    → IsLogged l
    → IsLogged (process_intent passes i l)
unfolding process_intent
process_intent-IsLogged true i l h =
    publish_batch-IsLogged i.idempotency_key (events_to_append i) l h
process_intent-IsLogged false i l h = emit-IsLogged (rejected i.idempotency_key) l h

trigger_children-IsLogged :
    (id : Text) (rs : List Relationship) (l : Log Payload)
    → IsLogged l
    → IsLogged (trigger_children id rs l)
trigger_children-IsLogged id [] l h = h
trigger_children-IsLogged id (r ∷ rs) l h = elim (Bool-cases (text_eq r.parent_order_id id)) [
  | inl child ↦ rw child (trigger_children-IsLogged id rs _ (emit-IsLogged _ l h))
  | inr other ↦ rw other (trigger_children-IsLogged id rs l h)
]

relate-IsLogged :
    (parent : Option Text) (e : DomainEvent Payload) (o : Oms)
    → IsLogged o.log
    → IsLogged (relate parent e o).log
relate-IsLogged none e o h = emit-IsLogged (activation e.aggregate_id e.payload) o.log h
relate-IsLogged (some parent) e o h =
    elim (Bool-cases (has_order parent o.orders && has_order e.aggregate_id o.orders)) [
      | inl there ↦ rw there h
      | inr missing ↦ rw missing h
    ]

-- The handlers, as steps of the system.
pub data Delivery : Type 0 where
  intent : Bool → OrderIntent → Delivery
  cancel_intent : Text → ℕ → ℕ → Delivery
  event : DomainEvent Payload → Delivery

module _ (fits : OrderRow → Bool) where
  project_type-IsLogged :
      (t : EventType) (e : DomainEvent Payload) (o : Oms)
      → IsLogged o.log
      → IsLogged (project_type fits t e o).log
  project_type-IsLogged order_created e o h =
      let row : OrderRow = record {
        id = e.aggregate_id;
        details = e.payload;
        status = e.payload.status;
      } in
      elim (Bool-cases (fits row)) [
        | inl taken ↦ rw taken (relate-IsLogged (key_or_null e.payload.parent_order_id) e _ h)
        | inr refused ↦ rw refused h
      ]
  project_type-IsLogged order_activated e o h = h
  project_type-IsLogged order_triggered e o h = emit-IsLogged _ o.log h
  project_type-IsLogged order_filled e o h =
      trigger_children-IsLogged e.aggregate_id o.relationships o.log h
  project_type-IsLogged order_canceled e o h = h
  project_type-IsLogged order_rejected e o h = h
  project_type-IsLogged trade_executed e o h = h

  abbrev pub deliver : Delivery → Oms → Oms
  deliver (intent passes i) o = record o { log = process_intent passes i o.log }
  deliver (cancel_intent id user symbol) o = record o { log = process_cancel id user symbol o.log }
  deliver (event e) o = project_event fits e o

  abbrev pub deliver_all : List Delivery → Oms → Oms
  deliver_all [] o = o
  deliver_all (d ∷ ds) o = deliver_all ds (deliver d o)

  pub deliver-IsLogged : (d : Delivery) (o : Oms) → IsLogged o.log → IsLogged (deliver d o).log
  unfolding project_event process_cancel
  deliver-IsLogged (intent passes i) o h = process_intent-IsLogged passes i o.log h
  deliver-IsLogged (cancel_intent id user symbol) o h = emit-IsLogged _ o.log h
  deliver-IsLogged (event e) o h = project_type-IsLogged e.event_type e o h

  -- Whatever is delivered in whatever order to handlers whose stream is the event store, with
  -- ascending sequences and no key twice, the stream stays the event store.
  deliver_all-IsLogged :
      (ds : List Delivery) (o : Oms) → IsLogged o.log → IsLogged (deliver_all ds o).log
  deliver_all-IsLogged [] o h = h
  deliver_all-IsLogged (d ∷ ds) o h = deliver_all-IsLogged ds (deliver d o) (deliver-IsLogged d o h)

-- After an intent its key, if it is not empty, is the key of a row.
has_key-process_intent :
    (passes : Bool) (i : OrderIntent) (l : Log Payload) (c : ℕ) (cs : Text)
    → IsLogged l
    → i.idempotency_key ≡ c ∷ cs
    → has_key (some (c ∷ cs)) (process_intent passes i l).store.rows ≡ true
unfolding process_intent
has_key-process_intent true i l c cs h k =
    elim (append_batch-cases (events_to_append i) l.store h.is_store) [
      | inl ([], s, e, rows, asked, kept) ↦ absurd asked
      | inl (f ∷ fs, s, e, rows, asked, kept) ↦
          let mine : same_key (some (c ∷ cs)) f.idempotency_key ≡ true =
            rw (ap (λ g. g.idempotency_key) asked.0 ∙ ap (λ t. key_or_null (some t)) k)
              (text_eq_refl (c ∷ cs)) in
          rw e (
            rw rows (
              any-middle (λ (g : DomainEvent Payload). same_key (some (c ∷ cs)) g.idempotency_key)
                l.store.rows f fs mine))
      | inr (s, e, rows, kept) ↦
          rw e (has_key-emit (rejected i.idempotency_key) (record l { store = s }) c cs (ap some k))
    ]
has_key-process_intent false i l c cs h k =
    has_key-emit (rejected i.idempotency_key) l c cs (ap some k)

-- An intent whose key a row has stores and publishes nothing.
process_intent_old :
    (passes : Bool) (i : OrderIntent) (l : Log Payload) (c : ℕ) (cs : Text)
    → i.idempotency_key ≡ c ∷ cs
    → has_key (some (c ∷ cs)) l.store.rows ≡ true
    → ((process_intent passes i l).store.rows ≡ l.store.rows)
      × ((process_intent passes i l).published ≡ l.published)
unfolding process_intent
process_intent_old true i l c cs k old =
    let taken =
      append_batch_old (created i.idempotency_key (intent_payload i))
        (take_profit_events i i.take_profit_order ++ stop_loss_events i i.stop_loss_order) l.store
        (rw k old) in
    rw taken (emit_old (rejected i.idempotency_key) (record l { store = _ }) (rw k old))
process_intent_old false i l c cs k old = emit_old (rejected i.idempotency_key) l (rw k old)

-- A second intent with the key of one that was processed, which is not empty, stores and publishes
-- nothing, whatever the risk check says of either.
pub process_intent_once :
    (passes passes' : Bool) (i i' : OrderIntent) (l : Log Payload) (c : ℕ) (cs : Text)
    → IsLogged l
    → i.idempotency_key ≡ c ∷ cs
    → i'.idempotency_key ≡ c ∷ cs
    → let once = process_intent passes i l in
      let twice = process_intent passes' i' once in
      (twice.store.rows ≡ once.store.rows) × (twice.published ≡ once.published)
process_intent_once passes passes' i i' l c cs h k k' =
    process_intent_old passes' i' (process_intent passes i l) c cs k'
      (has_key-process_intent passes i l c cs h k)
