-- ===== src/Events/History.antt =====
-- The histories of aggregates.
use aether_x.Prelude.{
  ℕ, suc, ◌≡◌, refl, ap, ◌∙◌, ◌≤◌, inl, inr, List, [], ◌∷◌, Bool, keep, map, All, none, arith,
  Bool-cases,
}
use aether_x.Prelude.Text.{Text, text_eq}
use aether_x.Events.Store.{
  DomainEvent, MappedRow, EventStore, order_by_sequence, map_history_row, get_aggregate_history,
}
use aether_x.Events.Keep.{IsStore, Ascends}

map-map :
    {A B C : Type 0} (f : A → B) (g : B → C) (xs : List A)
    → map g (map f xs) ≡ map (λ x. g (f x)) xs
map-map f g [] = refl
map-map f g (x ∷ xs) = ap (λ ys. g (f x) ∷ ys) (map-map f g xs)

-- What `mapRow` reads by a name that the row does not have.
abbrev pub IsUnread : {P : Type 0} → MappedRow P → Type 0
IsUnread r = (r.aggregate_id ≡ none) × (r.event_type ≡ none) × (r.idempotency_key ≡ none)

module _ {P : Type 0} where
  Ascends-from :
      (low low' high : ℕ) (es : List (DomainEvent P))
      → low ≤ low'
      → Ascends low' es high
      → Ascends low es high
  Ascends-from low low' high [] le h = omega arith
  Ascends-from low low' high (f ∷ es) le h = (omega arith, h.1)

  keep-Ascends :
      (f : DomainEvent P → Bool) (low high : ℕ) (es : List (DomainEvent P))
      → Ascends low es high
      → Ascends low (keep f es) high
  keep-Ascends f low high [] h = h
  keep-Ascends f low high (e ∷ es) h = elim (Bool-cases (f e)) [
    | inl kept ↦ rw kept (h.0, keep-Ascends f (suc e.sequence) high es h.1)
    | inr left ↦ rw left (
        Ascends-from low (suc e.sequence) high _ (omega arith)
          (keep-Ascends f (suc e.sequence) high es h.1))
  ]

  order-Ascends :
      (low high : ℕ) (es : List (DomainEvent P)) → Ascends low es high → order_by_sequence es ≡ es
  order-Ascends low high [] h = refl
  order-Ascends low high (e ∷ []) h = refl
  order-Ascends low high (e ∷ f ∷ es) h =
      rw (order-Ascends (suc e.sequence) high (f ∷ es) h.1) (ground arith)

  All-IsUnread : (es : List (DomainEvent P)) → All IsUnread (map map_history_row es)
  All-IsUnread [] = tt
  All-IsUnread (e ∷ es) = ((refl, refl, refl), All-IsUnread es)

  -- On a well-formed store the history of an aggregate has the sequences and the payloads of its
  -- events, in the order of their appends; its aggregate ids, event types and keys are undefined.
  pub history-appends :
      (id : Text) (s : EventStore P)
      → IsStore s
      → let own = keep (λ (e : DomainEvent P). text_eq e.aggregate_id id) s.rows in
        let history = get_aggregate_history id s in
        (map (λ (r : MappedRow P). r.sequence) history
          ≡ map (λ (e : DomainEvent P). e.sequence) own)
        × (map (λ (r : MappedRow P). r.payload) history
            ≡ map (λ (e : DomainEvent P). e.payload) own)
        × All IsUnread history
  unfolding get_aggregate_history
  history-appends id s h =
      let own = keep (λ (e : DomainEvent P). text_eq e.aggregate_id id) s.rows in
      let ordered : order_by_sequence own ≡ own = order-Ascends 0 s.next_sequence own (
        keep-Ascends (λ (e : DomainEvent P). text_eq e.aggregate_id id) 0 s.next_sequence s.rows
          h.ascends) in
      (
        map-map map_history_row (λ (r : MappedRow P). r.sequence) (order_by_sequence own)
            ∙ ap (map (λ (e : DomainEvent P). e.sequence)) ordered,
        map-map map_history_row (λ (r : MappedRow P). r.payload) (order_by_sequence own)
            ∙ ap (map (λ (e : DomainEvent P). e.payload)) ordered,
        All-IsUnread (order_by_sequence own),
      )
