-- ===== src/Events/Store.antt =====
-- `class EventStore` of backend/src/services/eventStore.ts over the table that
-- backend/src/models/migrations/001_event_sourcing.sql declares. The row's own uuid, its metadata
-- and its timestamp are left out. Appends are taken one at a time.
use aether_x.Prelude.{
  ℕ, suc, List, [], ◌∷◌, ◌++◌, Option, none, some, Bool, false, any, keep, map, leb, if◌then◌else◌,
}
use aether_x.Prelude.Text.{Text, text_eq}

pub data EventType : Type 0 where
  order_created order_rejected order_activated order_triggered : EventType
  order_filled order_canceled trade_executed : EventType

-- The fields of `AppendEventParams`; an absent key is `none`.
pub record AppendEventParams (P : Type 0) : Type 0 where
  pub aggregate_id : Text
  pub event_type : EventType
  pub payload : P
  pub idempotency_key : Option Text

pub record DomainEvent (P : Type 0) : Type 0 where
  pub sequence : ℕ
  pub aggregate_id : Text
  pub event_type : EventType
  pub payload : P
  pub idempotency_key : Option Text

-- What `mapRow` gives for a row of a history, without the fields that the model of a row leaves out
-- (its id, aggregate type, metadata and time); an undefined field is `none`.
pub record MappedRow (P : Type 0) : Type 0 where
  pub sequence : ℕ
  pub payload : P
  pub aggregate_id : Option Text
  pub event_type : Option EventType
  pub idempotency_key : Option Text

-- The rows in the order of their insertion, and the next value of the BIGSERIAL.
pub record EventStore (P : Type 0) : Type 0 where
  pub rows : List (DomainEvent P)
  pub next_sequence : ℕ

-- `idempotencyKey || null`
abbrev pub key_or_null : Option Text → Option Text
key_or_null none = none
key_or_null (some []) = none
key_or_null (some (c ∷ cs)) = some (c ∷ cs)

-- The UNIQUE constraint of the key: two NULLs do not conflict.
abbrev pub same_key : Option Text → Option Text → Bool
same_key none l = false
same_key (some k) none = false
same_key (some k) (some l) = text_eq k l

module _ {P : Type 0} where
  abbrev pub has_key : Option Text → List (DomainEvent P) → Bool
  has_key k = any (λ e. same_key k e.idempotency_key)

  abbrev pub row_of : AppendEventParams P → ℕ → DomainEvent P
  row_of p n = record {
    sequence = n;
    aggregate_id = p.aggregate_id;
    event_type = p.event_type;
    payload = p.payload;
    idempotency_key = key_or_null p.idempotency_key;
  }

  -- `append`. A conflict inserts nothing, but has taken a number of the sequence.
  unfoldable pub append : AppendEventParams P → EventStore P → Option (DomainEvent P) × EventStore P
  append p s =
      let row = row_of p s.next_sequence in
      if has_key row.idempotency_key s.rows
      then (none, record s { next_sequence = suc s.next_sequence })
      else (some row, record { rows = s.rows ++ row ∷ []; next_sequence = suc s.next_sequence })

  -- What the loop does with an append's answer, by what comes of the rest of the batch.
  abbrev pub cons_event :
      Option (DomainEvent P)
      → EventStore P
      → Option (List (DomainEvent P)) × EventStore P
      → Option (List (DomainEvent P)) × EventStore P
  cons_event none s rest = (none, s)
  cons_event (some e) s (none, t) = (none, t)
  cons_event (some e) s (some es, t) = (some (e ∷ es), t)

  -- The loop of `appendBatch`, ended by the first duplicate.
  unfoldable pub append_each :
      List (AppendEventParams P) → EventStore P → Option (List (DomainEvent P)) × EventStore P
  append_each [] s = (some [], s)
  append_each (p ∷ ps) s =
      let r = append p s in let rest = append_each ps r.1 in cons_event r.0 r.1 rest

  -- COMMIT or ROLLBACK: rows are taken back, numbers of the sequence are not.
  abbrev pub close_batch :
      List (DomainEvent P)
      → Option (List (DomainEvent P)) × EventStore P
      → Option (List (DomainEvent P)) × EventStore P
  close_batch rows (none, s) = (none, record s { rows = rows })
  close_batch rows (some es, s) = (some es, s)

  -- `appendBatch`; `none` is the error it throws.
  unfoldable pub append_batch :
      List (AppendEventParams P) → EventStore P → Option (List (DomainEvent P)) × EventStore P
  append_batch ps s = close_batch s.rows (append_each ps s)

  -- `ORDER BY sequence ASC`
  abbrev pub insert_by_sequence : DomainEvent P → List (DomainEvent P) → List (DomainEvent P)
  insert_by_sequence e [] = e ∷ []
  insert_by_sequence e (f ∷ fs) =
      if leb e.sequence f.sequence then e ∷ f ∷ fs else f ∷ insert_by_sequence e fs

  abbrev pub order_by_sequence : List (DomainEvent P) → List (DomainEvent P)
  order_by_sequence [] = []
  order_by_sequence (e ∷ es) = insert_by_sequence e (order_by_sequence es)

  -- `mapRow` on a row of `SELECT *`: of the columns in the model it finds the sequence and the payload,
  -- and reads the other three by names that the columns do not have.
  abbrev pub map_history_row : DomainEvent P → MappedRow P
  map_history_row e = record {
    sequence = e.sequence;
    payload = e.payload;
    aggregate_id = none;
    event_type = none;
    idempotency_key = none;
  }

  unfoldable pub get_aggregate_history : Text → EventStore P → List (MappedRow P)
  get_aggregate_history id s =
      map map_history_row (order_by_sequence (keep (λ e. text_eq e.aggregate_id id) s.rows))
