-- ===== src/Triggers/Fired.antt =====
-- What a tick fires, and what it leaves waiting.
use aether_x.Prelude.{
  ℕ, suc, ◌≡◌, refl, sym, ◌∙◌, ap, inl, inr, List, [], ◌∷◌, ◌++◌, not, Map, any, keep, Option, none,
  some, All, All-append, All-keep, append_nil, append_assoc, arith, Option-cases,
}
use aether_x.Prelude.Text.{Text}
use aether_x.Events.Store.{order_triggered, DomainEvent, row_of}
use aether_x.Events.Log.{Log, emit, emit_new}
use aether_x.Oms.Engine.{follow_up}
use aether_x.Oms.Intents.{Payload}
use aether_x.Triggers.Engine.{
  TriggerOrder, TriggerEngine, bucket, filter_bucket, remove_trigger, hits, triggered_payload,
  same_id, fire_next, fire, evaluate_triggers,
}

-- Every order waits in the bucket of its symbol.
abbrev pub IsOfSymbol : ℕ → TriggerOrder → Type 0
IsOfSymbol symbol t = t.symbol ≡ symbol

-- The waiting orders whose id is not among those of some orders.
abbrev pub without : List TriggerOrder → List TriggerOrder → List TriggerOrder
without us = keep (λ t. not (any (λ u. same_id t.id u.id) us))

-- The orders that the loop gets to: all up to the first that has no id.
abbrev pub attempted_next : Option Text → List TriggerOrder → List TriggerOrder
attempted_next none later = []
attempted_next (some id) later = later

abbrev pub attempted : List TriggerOrder → List TriggerOrder
attempted [] = []
attempted (t ∷ ts) = let later = attempted ts in t ∷ attempted_next t.id later

-- The events of the orders before the first that has no id, with the numbers that the store gives them.
abbrev pub fired_next :
    Option Text → TriggerOrder → List (DomainEvent Payload) → ℕ → List (DomainEvent Payload)
fired_next none t later n = []
fired_next (some id) t later n =
    row_of (follow_up order_triggered id (triggered_payload t)) n ∷ later

abbrev pub fired_events : List TriggerOrder → ℕ → List (DomainEvent Payload)
fired_events [] n = []
fired_events (t ∷ ts) n = let later = fired_events ts (suc n) in fired_next t.id t later n

bucket-filter_bucket :
    (id : Option Text) (symbol : ℕ) (m : Map (List TriggerOrder))
    → bucket (filter_bucket id symbol m) symbol
      ≡ keep (λ (t : TriggerOrder). not (same_id t.id id)) (bucket m symbol)
bucket-filter_bucket id symbol m = elim (Option-cases (m symbol)) [
  | inl e ↦ ground (arith, e)
  | inr (ts, e) ↦ ground (arith, e)
]

without_nil : (ts : List TriggerOrder) → without [] ts ≡ ts
without_nil [] = refl
without_nil (t ∷ ts) = ground (arith, without_nil ts)

without_cons :
    (u : TriggerOrder) (us ts : List TriggerOrder)
    → without us (keep (λ (t : TriggerOrder). not (same_id t.id u.id)) ts) ≡ without (u ∷ us) ts
without_cons u us [] = refl
without_cons u us (t ∷ ts) = ground (arith, without_cons u us ts)

-- What the loop leaves in the buckets of a symbol and publishes.
abbrev IsFired :
    ℕ
    → List TriggerOrder
    → List (DomainEvent Payload)
    → TriggerEngine
    → Log Payload
    → TriggerEngine × Log Payload
    → Type 0
IsFired symbol us es g l r =
    (bucket r.0.stop_buckets symbol ≡ without us (bucket g.stop_buckets symbol))
    × (bucket r.0.take_profit_buckets symbol ≡ without us (bucket g.take_profit_buckets symbol))
    × (r.1.published ≡ l.published ++ es)

-- One turn of the loop behind the removal, by the id of its order.
fire_next_lem :
    (symbol : ℕ) (t : TriggerOrder) (ts : List TriggerOrder) (id : Option Text) (g : TriggerEngine)
    (l : Log Payload)
    → ((m : Log Payload)
        → IsFired symbol (attempted ts) (fired_events ts m.store.next_sequence) g m (fire ts g m))
    → IsFired symbol
        (attempted_next id (attempted ts))
        (fired_next id t (fired_events ts (suc l.store.next_sequence)) l.store.next_sequence)
        g
        l
        (fire_next id t (fire ts) g l)
fire_next_lem symbol t ts none g l ih = (
  sym (without_nil (bucket g.stop_buckets symbol)),
  sym (without_nil (bucket g.take_profit_buckets symbol)),
  sym (append_nil l.published),
)
fire_next_lem symbol t ts (some id) g l ih =
    let p = follow_up order_triggered id (triggered_payload t) in
    let (stops, profits, more) = ih (emit p l) in
    (
      stops,
      profits,
      more
          ∙ ap (λ (m : Log Payload). m.published ++ fired_events ts m.store.next_sequence)
              (emit_new p l refl)
          ∙ append_assoc l.published (row_of p l.store.next_sequence ∷ [])
              (fired_events ts (suc l.store.next_sequence)),
    )

fire_lem :
    (symbol : ℕ) (ts : List TriggerOrder) (g : TriggerEngine) (l : Log Payload)
    → All (IsOfSymbol symbol) ts
    → IsFired symbol (attempted ts) (fired_events ts l.store.next_sequence) g l (fire ts g l)
unfolding fire remove_trigger
fire_lem symbol [] g l h = (
  sym (without_nil (bucket g.stop_buckets symbol)),
  sym (without_nil (bucket g.take_profit_buckets symbol)),
  sym (append_nil l.published),
)
fire_lem symbol (t ∷ ts) g l h =
    let us = attempted_next t.id (attempted ts) in
    let g' = remove_trigger t.id t.symbol g in
    let (stops, profits, more) =
      fire_next_lem symbol t ts t.id g' l (λ m. fire_lem symbol ts g' m h.1) in
    (
      stops
          ∙ rw h.0 (
              ap (without us) (bucket-filter_bucket t.id symbol g.stop_buckets)
              ∙ without_cons t us (bucket g.stop_buckets symbol)),
      profits
          ∙ rw h.0 (
              ap (without us) (bucket-filter_bucket t.id symbol g.take_profit_buckets)
              ∙ without_cons t us (bucket g.take_profit_buckets symbol)),
      more,
    )

-- When the orders of a symbol wait in its buckets, a tick takes the orders whose price is hit, stops
-- first, in the order they were registered, up to the first that has no id: for each one before that it
-- publishes one `ORDER_TRIGGERED`, for that one it publishes nothing and ends, and exactly the orders
-- with the ids of those it took leave the buckets, those without an id with the one that ended it.
pub evaluate_triggers-fired_events :
    (symbol current : ℕ) (g : TriggerEngine) (l : Log Payload)
    → All (IsOfSymbol symbol) (bucket g.stop_buckets symbol)
    → All (IsOfSymbol symbol) (bucket g.take_profit_buckets symbol)
    → let r = evaluate_triggers symbol current g l in
      let hit = hits symbol current g in
      let taken = attempted hit in
      (bucket r.0.stop_buckets symbol ≡ without taken (bucket g.stop_buckets symbol))
      × (bucket r.0.take_profit_buckets symbol
          ≡ without taken (bucket g.take_profit_buckets symbol))
      × (r.1.published ≡ l.published ++ fired_events hit l.store.next_sequence)
unfolding evaluate_triggers
evaluate_triggers-fired_events symbol current g l hs ht =
    fire_lem symbol (hits symbol current g) g l (
      All-append (IsOfSymbol symbol) _ _
        (All-keep (IsOfSymbol symbol) _ (bucket g.stop_buckets symbol) hs)
        (All-keep (IsOfSymbol symbol) _ (bucket g.take_profit_buckets symbol) ht))
