-- ===== src/Venue/Grows.antt =====
-- What the handlers of the venue do to the published stream.
use aether_x.Prelude.{
  ℕ, ◌≡◌, refl, sym, ap, ◌∙◌, ◌⊎◌, inl, inr, List, [], ◌∷◌, ◌++◌, append_nil, append_assoc, Option,
  none, some, ◌&&◌, Bool, true, false, Bool-cases, if◌then◌else◌,
}
use aether_x.Prelude.Text.{Text, text_eq}
use aether_x.Events.Store.{
  EventType, order_created, order_rejected, order_activated, order_triggered, order_filled,
  order_canceled, trade_executed, AppendEventParams, DomainEvent, EventStore, row_of, has_key,
  key_or_null, append_batch,
}
use aether_x.Events.Keep.{append_old, append_new}
use aether_x.Events.Log.{Log, emit}
use aether_x.Oms.Engine.{
  OrderRow, Relationship, Oms, trigger_children, relate, project_type, project_event, activation,
  has_order, follow_up,
}
use aether_x.Oms.Intents.{
  Payload, OrderIntent, events_to_append, rejected, publish_batch, process_intent, no_payload,
  triggered,
}

-- The second stream is the first with events behind it.
abbrev pub Grows : Log Payload → Log Payload → Type 0
Grows l m = (es : List (DomainEvent Payload)) × (m.published ≡ l.published ++ es)

pub Grows-refl : (l : Log Payload) → Grows l l
Grows-refl l = ([], sym (append_nil l.published))

Grows-trans : (l m n : Log Payload) → Grows l m → Grows m n → Grows l n
Grows-trans l m n (es, e) (fs, f) =
    (es ++ fs, f ∙ ap (λ xs. xs ++ fs) e ∙ append_assoc l.published es fs)

-- An append publishes nothing or its own event.
pub emit-cases :
    (p : AppendEventParams Payload) (l : Log Payload)
    → ((emit p l).published ≡ l.published)
      ⊎ ((n : ℕ) × ((emit p l).published ≡ l.published ++ row_of p n ∷ []))
unfolding emit
emit-cases p l = elim (Bool-cases (has_key (key_or_null p.idempotency_key) l.store.rows)) [
  | inl old ↦ inl (rw (append_old p l.store old) refl)
  | inr new ↦ inr (l.store.next_sequence, rw (append_new p l.store new) refl)
]

pub emit-Grows : (p : AppendEventParams Payload) (l : Log Payload) → Grows l (emit p l)
emit-Grows p l = elim (emit-cases p l) [
  | inl same ↦ ([], same ∙ sym (append_nil l.published))
  | inr (n, more) ↦ (row_of p n ∷ [], more)
]

publish_batch-Grows :
    (key : Text) (r : Option (List (DomainEvent Payload)) × EventStore Payload) (l : Log Payload)
    → Grows l (publish_batch key r l)
publish_batch-Grows key (some es, s) l = (es, refl)
publish_batch-Grows key (none, s) l = emit-Grows (rejected key) (record l { store = s })

pub process_intent-Grows :
    (passes : Bool) (i : OrderIntent) (l : Log Payload) → Grows l (process_intent passes i l)
unfolding process_intent
process_intent-Grows true i l =
    publish_batch-Grows i.idempotency_key (append_batch (events_to_append i) l.store) l
process_intent-Grows false i l = emit-Grows (rejected i.idempotency_key) l

if-Grows : (b : Bool) (l m : Log Payload) → Grows l m → Grows l (if b then m else l)
if-Grows true l m h = h
if-Grows false l m h = Grows-refl l

trigger_children-Grows :
    (id : Text) (rs : List Relationship) (l : Log Payload) → Grows l (trigger_children id rs l)
trigger_children-Grows id [] l = Grows-refl l
trigger_children-Grows id (r ∷ rs) l =
    let asked : AppendEventParams Payload =
      follow_up order_triggered r.child_order_id (record no_payload { status = some triggered }) in
    let next : Log Payload = if text_eq r.parent_order_id id then emit asked l else l in
    Grows-trans l next (trigger_children id rs next)
      (if-Grows (text_eq r.parent_order_id id) l (emit asked l) (emit-Grows asked l))
      (trigger_children-Grows id rs next)

relate-Grows :
    (parent : Option Text) (e : DomainEvent Payload) (o : Oms) → Grows o.log (relate parent e o).log
relate-Grows none e o = emit-Grows (activation e.aggregate_id e.payload) o.log
relate-Grows (some parent) e o =
    elim (Bool-cases (has_order parent o.orders && has_order e.aggregate_id o.orders)) [
      | inl there ↦ rw there (Grows-refl o.log)
      | inr missing ↦ rw missing (Grows-refl o.log)
    ]

module _ (fits : OrderRow → Bool) where
  project_type-Grows :
      (t : EventType) (e : DomainEvent Payload) (o : Oms)
      → Grows o.log (project_type fits t e o).log
  project_type-Grows order_created e o =
      let row : OrderRow = record {
        id = e.aggregate_id;
        details = e.payload;
        status = e.payload.status;
      } in
      elim (Bool-cases (fits row)) [
        | inl taken ↦ rw taken (relate-Grows (key_or_null e.payload.parent_order_id) e _)
        | inr refused ↦ rw refused (Grows-refl o.log)
      ]
  project_type-Grows order_activated e o = Grows-refl o.log
  project_type-Grows order_triggered e o = emit-Grows _ o.log
  project_type-Grows order_filled e o = trigger_children-Grows e.aggregate_id o.relationships o.log
  project_type-Grows order_canceled e o = Grows-refl o.log
  project_type-Grows order_rejected e o = Grows-refl o.log
  project_type-Grows trade_executed e o = Grows-refl o.log

  pub project_event-Grows :
      (e : DomainEvent Payload) (o : Oms) → Grows o.log (project_event fits e o).log
  unfolding project_event
  project_event-Grows e o = project_type-Grows e.event_type e o
