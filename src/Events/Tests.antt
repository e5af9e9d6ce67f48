-- ===== src/Events/Tests.antt =====
-- Witnesses for the event store, on rows whose payload is a number.
use aether_x.Prelude.{
  ℕ, ◌≡◌, refl, arith, ◌≤◌, ◌⊎◌, List, [], ◌∷◌, ◌++◌, Option, none, some, keep, map, All,
}
use aether_x.Prelude.Text.{Text, codes, text_eq}
use aether_x.Events.Store.{
  AppendEventParams, DomainEvent, EventStore, order_created, order_activated, append, append_each,
  append_batch, MappedRow, get_aggregate_history,
}
use aether_x.Events.Keep.{IsStore, Asked, append_batch-IsAtomic}
use aether_x.Events.History.{IsUnread, history-appends}

abbrev created : Option Text → AppendEventParams ℕ
created key = record {
  aggregate_id = codes "a";
  event_type = order_created;
  payload = 5;
  idempotency_key = key;
}

abbrev one_row : EventStore ℕ
one_row = record {
  rows =
      record {
        sequence = 1;
        aggregate_id = codes "b";
        event_type = order_activated;
        payload = 4;
        idempotency_key = none;
      }
      ∷ [];
  next_sequence = 2;
}

one_row-IsStore : IsStore one_row
one_row-IsStore = record { ascends = (omega arith, omega arith); keys = (refl, tt) }

-- A batch with the same key twice is rolled back and has taken two numbers.
rolled_back :
    append_batch (created (some (codes "k")) ∷ created (some (codes "k")) ∷ []) one_row
    ≡ (none, record one_row { next_sequence = 4 })
unfolding append_batch append_each append
rolled_back = refl

abbrev batch : List (AppendEventParams ℕ)
batch = created (some (codes "k")) ∷ created none ∷ []

append_batch-IsAtomic_example :
    let r = append_batch batch one_row in
    (((es : List (DomainEvent ℕ)) × (r.0 ≡ some es)
        × (r.1.rows ≡ one_row.rows ++ es)
        × Asked batch es
        × IsStore r.1)
      ⊎ ((r.0 ≡ none) × (r.1.rows ≡ one_row.rows) × (2 ≤ r.1.next_sequence)))
    × IsStore r.1
append_batch-IsAtomic_example = append_batch-IsAtomic batch one_row one_row-IsStore

history-appends_example :
    let own = keep (λ (e : DomainEvent ℕ). text_eq e.aggregate_id (codes "b")) one_row.rows in
    let history = get_aggregate_history (codes "b") one_row in
    (map (λ (r : MappedRow ℕ). r.sequence) history ≡ map (λ (e : DomainEvent ℕ). e.sequence) own)
    × (map (λ (r : MappedRow ℕ). r.payload) history ≡ map (λ (e : DomainEvent ℕ). e.payload) own)
    × All IsUnread history
history-appends_example = history-appends (codes "b") one_row one_row-IsStore
