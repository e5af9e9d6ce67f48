-- ===== src/Events/Log.antt =====
-- What the engines do after each append: the event that was stored is published on the bus. The
-- stream `order.events` is the list of what was published. The deliveries are steps of their own.
use mathlib.Core.Path.{subst}
use aether_x.Prelude.{
  ℕ, List, [], ◌∷◌, ◌++◌, Option, none, some, ◌≡◌, refl, ap, true, Bool-cases, inl, inr,
}
use aether_x.Prelude.Text.{Text}
use aether_x.Events.Store.{
  AppendEventParams, DomainEvent, EventStore, row_of, append, has_key, key_or_null,
}
use aether_x.Events.Keep.{
  IsStore, append-IsStore, append_old, append_new, appended, no_key, has_key-append,
}

pub record Log (P : Type 0) : Type 0 where
  pub store : EventStore P
  pub published : List (DomainEvent P)

module _ {P : Type 0} where
  -- `if (event) await EventBus.publish('order.events', event)`
  abbrev pub publish : Option (DomainEvent P) × EventStore P → Log P → Log P
  publish (none, s) l = record l { store = s }
  publish (some e, s) l = record { store = s; published = l.published ++ e ∷ [] }

  unfoldable pub emit : AppendEventParams P → Log P → Log P
  emit p l = publish (append p l.store) l

  publish_store :
      (r : Option (DomainEvent P) × EventStore P) (l : Log P) → (publish r l).store ≡ r.1
  publish_store (none, s) l = refl
  publish_store (some e, s) l = refl

  -- Every event of the store is published, in the order of the store, and nothing else is.
  pub record IsLogged (l : Log P) : Type 0 where
    pub is_store : IsStore l.store
    pub logged : l.published ≡ l.store.rows

  pub emit-IsLogged : (p : AppendEventParams P) (l : Log P) → IsLogged l → IsLogged (emit p l)
  unfolding emit
  emit-IsLogged p l h =
      let kept = append-IsStore p l.store h.is_store in
      elim (Bool-cases (has_key (key_or_null p.idempotency_key) l.store.rows)) [
        | inl old ↦
            let e = append_old p l.store old in
            rw e (record { is_store = subst (λ r. IsStore r.1) e kept; logged = h.logged })
        | inr new ↦
            let e = append_new p l.store new in
            rw e (record {
              is_store = subst (λ r. IsStore r.1) e kept;
              logged = ap (λ es. es ++ row_of p l.store.next_sequence ∷ []) h.logged;
            })
      ]

  -- Nothing is stored or published by an append whose key a row has.
  pub emit_old :
      (p : AppendEventParams P) (l : Log P)
      → has_key (key_or_null p.idempotency_key) l.store.rows ≡ true
      → ((emit p l).store.rows ≡ l.store.rows) × ((emit p l).published ≡ l.published)
  unfolding emit
  emit_old p l old = rw (append_old p l.store old) (refl, refl)

  -- A key that is not empty is the key of a row once an event with it has been emitted.
  pub has_key-emit :
      (p : AppendEventParams P) (l : Log P) (c : ℕ) (cs : Text)
      → p.idempotency_key ≡ some (c ∷ cs)
      → has_key (some (c ∷ cs)) (emit p l).store.rows ≡ true
  unfolding emit
  has_key-emit p l c cs k =
      rw (publish_store (append p l.store) l) (has_key-append p l.store c cs k)

  -- An event without a key is always stored and published.
  pub emit_new :
      (p : AppendEventParams P) (l : Log P)
      → p.idempotency_key ≡ none
      → emit p l ≡ record {
        store = appended p l.store;
        published = l.published ++ row_of p l.store.next_sequence ∷ [];
      }
  unfolding emit
  emit_new p l k = rw (append_new p l.store (rw k (no_key l.store.rows))) refl
