-- ===== src/Events/Keep.antt =====
-- The event store through its operations: its constraint, its order, batches as one step.
use aether_x.Prelude.{
  ℕ, suc, ◌≡◌, refl, sym, ap, ◌∙◌, ◌≤◌, ◌⊎◌, inl, inr, List, [], ◌∷◌, ◌++◌, Option, none, some,
  true, false, any-append, append_nil, append_assoc, arith, Bool-cases,
}
use aether_x.Prelude.Text.{Text, text_eq, text_eq_refl, text_eq_sound}
use aether_x.Events.Store.{
  AppendEventParams, DomainEvent, EventStore, key_or_null, same_key, has_key, row_of, append,
  cons_event, append_each, close_batch, append_batch,
}

same_key_sym : (k l : Option Text) → same_key k l ≡ false → same_key l k ≡ false
same_key_sym none none h = refl
same_key_sym none (some l) h = refl
same_key_sym (some k) none h = refl
same_key_sym (some k) (some l) h = elim (Bool-cases (text_eq l k)) [
  | inl same ↦ ground (arith, text_eq_sound l k same, text_eq_refl k)
  | inr other ↦ other
]

module _ {P : Type 0} where
  -- Sequences ascend from the first row on, and no key stands twice.
  abbrev pub Ascends : ℕ → List (DomainEvent P) → ℕ → Type 0
  Ascends low [] high = low ≤ high
  Ascends low (e ∷ es) high = (low ≤ e.sequence) × Ascends (suc e.sequence) es high

  abbrev pub KeysDiffer : List (DomainEvent P) → Type 0
  KeysDiffer [] = Unit
  KeysDiffer (e ∷ es) = (has_key e.idempotency_key es ≡ false) × KeysDiffer es

  pub record IsStore (s : EventStore P) : Type 0 where
    pub ascends : Ascends 0 s.rows s.next_sequence
    pub keys : KeysDiffer s.rows

  Ascends-append :
      (low : ℕ) (es : List (DomainEvent P)) (e : DomainEvent P)
      → Ascends low es e.sequence
      → Ascends low (es ++ e ∷ []) (suc e.sequence)
  Ascends-append low [] e h = (h, omega arith)
  Ascends-append low (f ∷ es) e h = (h.0, Ascends-append (suc f.sequence) es e h.1)

  Ascends-weaken :
      (low high : ℕ) (es : List (DomainEvent P)) → Ascends low es high → Ascends low es (suc high)
  Ascends-weaken low high [] h = omega arith
  Ascends-weaken low high (f ∷ es) h = (h.0, Ascends-weaken (suc f.sequence) high es h.1)

  KeysDiffer-append :
      (es : List (DomainEvent P)) (e : DomainEvent P)
      → KeysDiffer es
      → has_key e.idempotency_key es ≡ false
      → KeysDiffer (es ++ e ∷ [])
  KeysDiffer-append [] e u h = (refl, tt)
  KeysDiffer-append (f ∷ es) e u h = (
    ground (
      arith,
      any-append (λ (g : DomainEvent P). same_key f.idempotency_key g.idempotency_key) es e,
      same_key_sym e.idempotency_key f.idempotency_key,
    ),
    KeysDiffer-append es e u.1 (ground arith),
  )

  pub append-IsStore :
      (p : AppendEventParams P) (s : EventStore P) → IsStore s → IsStore (append p s).1
  unfolding append
  append-IsStore p s h = elim (Bool-cases (has_key (key_or_null p.idempotency_key) s.rows)) [
    | inl old ↦
        rw old
          (record { ascends = Ascends-weaken 0 s.next_sequence s.rows h.ascends; keys = h.keys })
    | inr new ↦ rw new (record {
      ascends = Ascends-append 0 s.rows (row_of p s.next_sequence) h.ascends;
      keys = KeysDiffer-append s.rows (row_of p s.next_sequence) h.keys new;
    })
  ]

  -- The events of a batch, each the row of its parameters.
  abbrev pub Asked : List (AppendEventParams P) → List (DomainEvent P) → Type 0
  Asked [] [] = Unit
  Asked [] (e ∷ es) = ⊥
  Asked (p ∷ ps) [] = ⊥
  Asked (p ∷ ps) (e ∷ es) = (e ≡ row_of p e.sequence) × Asked ps es

  -- All the events asked for were added behind the rows, or the batch ended in an error.
  abbrev pub Outcome :
      (List (DomainEvent P) → Type 0)
      → List (AppendEventParams P)
      → EventStore P
      → Option (List (DomainEvent P)) × EventStore P
      → Type 0
  Outcome Failed ps s r =
      ((es : List (DomainEvent P)) × (r.0 ≡ some es)
        × (r.1.rows ≡ s.rows ++ es)
        × Asked ps es
        × IsStore r.1)
      ⊎ ((r.0 ≡ none) × Failed r.1.rows × (s.next_sequence ≤ r.1.next_sequence))

  -- The store after an append that goes through.
  abbrev pub appended : AppendEventParams P → EventStore P → EventStore P
  appended p s = record {
    rows = s.rows ++ row_of p s.next_sequence ∷ [];
    next_sequence = suc s.next_sequence;
  }

  each_old :
      (p : AppendEventParams P) (ps : List (AppendEventParams P)) (s : EventStore P)
      → has_key (key_or_null p.idempotency_key) s.rows ≡ true
      → append_each (p ∷ ps) s ≡ (none, record s { next_sequence = suc s.next_sequence })
  unfolding append append_each
  each_old p ps s old = rw old refl

  each_new :
      (p : AppendEventParams P) (ps : List (AppendEventParams P)) (s : EventStore P)
      → has_key (key_or_null p.idempotency_key) s.rows ≡ false
      → append_each (p ∷ ps) s
        ≡ cons_event
            (some (row_of p s.next_sequence))
            (appended p s)
            (append_each ps (appended p s))
  unfolding append append_each
  each_new p ps s new = rw new refl

  appended-IsStore :
      (p : AppendEventParams P) (s : EventStore P)
      → IsStore s
      → has_key (key_or_null p.idempotency_key) s.rows ≡ false
      → IsStore (appended p s)
  appended-IsStore p s h new = record {
    ascends = Ascends-append 0 s.rows (row_of p s.next_sequence) h.ascends;
    keys = KeysDiffer-append s.rows (row_of p s.next_sequence) h.keys new;
  }

  cons_event-Outcome :
      (p : AppendEventParams P) (ps : List (AppendEventParams P)) (s : EventStore P)
      (r : Option (List (DomainEvent P)) × EventStore P)
      → Outcome (λ rows. Unit) ps (appended p s) r
      → Outcome
          (λ rows. Unit)
          (p ∷ ps)
          s
          (cons_event (some (row_of p s.next_sequence)) (appended p s) r)
  cons_event-Outcome p ps s (none, t) (inl (es, e, q, asked, g)) = cc
  cons_event-Outcome p ps s (some fs, t) (inl (es, e, q, asked, g)) = inl (
    row_of p s.next_sequence ∷ es,
    ground arith,
    q ∙ append_assoc s.rows (row_of p s.next_sequence ∷ []) es,
    (refl, asked),
    g,
  )
  cons_event-Outcome p ps s (none, t) (inr (e, u, le)) = inr (refl, tt, omega arith)
  cons_event-Outcome p ps s (some fs, t) (inr (e, u, le)) = cc

  append_each-Outcome :
      (ps : List (AppendEventParams P)) (s : EventStore P)
      → IsStore s
      → Outcome (λ rows. Unit) ps s (append_each ps s)
  unfolding append_each
  append_each-Outcome [] s h = inl ([], refl, sym (append_nil s.rows), tt, h)
  append_each-Outcome (p ∷ ps) s h =
      elim (Bool-cases (has_key (key_or_null p.idempotency_key) s.rows)) [
        | inl old ↦ rw (each_old p ps s old) (inr (refl, tt, omega arith))
        | inr new ↦ rw (each_new p ps s new) (
            cons_event-Outcome p ps s (append_each ps (appended p s))
              (append_each-Outcome ps (appended p s) (appended-IsStore p s h new)))
      ]

  Ascends-le :
      (low high top : ℕ) (es : List (DomainEvent P))
      → high ≤ top
      → Ascends low es high
      → Ascends low es top
  Ascends-le low high top [] le h = omega arith
  Ascends-le low high top (f ∷ es) le h = (h.0, Ascends-le (suc f.sequence) high top es le h.1)

  close_batch-Outcome :
      (ps : List (AppendEventParams P)) (s : EventStore P)
      (r : Option (List (DomainEvent P)) × EventStore P)
      → IsStore s
      → Outcome (λ rows. Unit) ps s r
      → Outcome (λ rows. rows ≡ s.rows) ps s (close_batch s.rows r)
        × IsStore (close_batch s.rows r).1
  close_batch-Outcome ps s (none, t) h (inl (es, e, q, asked, g)) = cc
  close_batch-Outcome ps s (some fs, t) h (inl (es, e, q, asked, g)) = (inl (es, e, q, asked, g), g)
  close_batch-Outcome ps s (none, t) h (inr (e, u, le)) = (
    inr (refl, refl, le),
    record {
      ascends = Ascends-le 0 s.next_sequence t.next_sequence s.rows le h.ascends;
      keys = h.keys;
    },
  )
  close_batch-Outcome ps s (some fs, t) h (inr (e, u, le)) = cc

  -- On a store whose sequences ascend and whose keys differ, a batch adds all of its events, in
  -- order behind the rows, or throws and leaves the rows as they were; the store stays such a store.
  pub append_batch-IsAtomic :
      (ps : List (AppendEventParams P)) (s : EventStore P)
      → IsStore s
      → let r = append_batch ps s in
        (((es : List (DomainEvent P)) × (r.0 ≡ some es)
            × (r.1.rows ≡ s.rows ++ es)
            × Asked ps es
            × IsStore r.1)
          ⊎ ((r.0 ≡ none) × (r.1.rows ≡ s.rows) × (s.next_sequence ≤ r.1.next_sequence)))
        × IsStore r.1
  unfolding append_batch
  append_batch-IsAtomic ps s h =
      close_batch-Outcome ps s (append_each ps s) h (append_each-Outcome ps s h)

  pub append_old :
      (q : AppendEventParams P) (s : EventStore P)
      → has_key (key_or_null q.idempotency_key) s.rows ≡ true
      → append q s ≡ (none, record s { next_sequence = suc s.next_sequence })
  unfolding append
  append_old q s old = rw old refl

  pub append_new :
      (p : AppendEventParams P) (s : EventStore P)
      → has_key (key_or_null p.idempotency_key) s.rows ≡ false
      → append p s ≡ (some (row_of p s.next_sequence), appended p s)
  unfolding append
  append_new p s new = rw new refl

  -- A batch, by its outcome.
  pub append_batch-cases :
      (ps : List (AppendEventParams P)) (s : EventStore P)
      → IsStore s
      → ((es : List (DomainEvent P)) × (t : EventStore P) × (append_batch ps s ≡ (some es, t))
          × (t.rows ≡ s.rows ++ es)
          × Asked ps es
          × IsStore t)
        ⊎ ((t : EventStore P) × (append_batch ps s ≡ (none, t)) × (t.rows ≡ s.rows) × IsStore t)
  append_batch-cases ps s h = elim (append_batch-IsAtomic ps s h).0 [
    | inl (es, e, rows, asked, kept) ↦
        inl (es, (append_batch ps s).1, ground (arith, e), rows, asked, kept)
    | inr (e, rows, le) ↦
        inr ((append_batch ps s).1, ground (arith, e), rows, (append_batch-IsAtomic ps s h).1)
  ]

  -- A batch whose first key is taken throws.
  pub append_batch_old :
      (p : AppendEventParams P) (ps : List (AppendEventParams P)) (s : EventStore P)
      → has_key (key_or_null p.idempotency_key) s.rows ≡ true
      → append_batch (p ∷ ps) s ≡ (none, record s { next_sequence = suc s.next_sequence })
  unfolding append_batch
  append_batch_old p ps s old = rw (each_old p ps s old) refl

  -- Once a key that is not empty has been appended, it is the key of a row.
  pub has_key-append :
      (p : AppendEventParams P) (s : EventStore P) (c : ℕ) (cs : Text)
      → p.idempotency_key ≡ some (c ∷ cs)
      → has_key (some (c ∷ cs)) (append p s).1.rows ≡ true
  has_key-append p s c cs hp = elim (Bool-cases (has_key (key_or_null p.idempotency_key) s.rows)) [
    | inl old ↦ rw (append_old p s old) (rw (← ap key_or_null hp) old)
    | inr new ↦ rw (append_new p s new) (
        ground (
          arith,
          any-append (λ (g : DomainEvent P). same_key (some (c ∷ cs)) g.idempotency_key) s.rows
              (row_of p s.next_sequence),
          ap key_or_null hp,
          text_eq_refl (c ∷ cs),
        ))
  ]

  -- Appending with a key that is not empty and has been appended before inserts nothing.
  pub append_once :
      (p q : AppendEventParams P) (s : EventStore P) (c : ℕ) (cs : Text)
      → p.idempotency_key ≡ some (c ∷ cs)
      → q.idempotency_key ≡ some (c ∷ cs)
      → let t = (append p s).1 in ((append q t).0 ≡ none) × ((append q t).1.rows ≡ t.rows)
  append_once p q s c cs hp hq =
      let old : has_key (key_or_null q.idempotency_key) (append p s).1.rows ≡ true =
        rw (ap key_or_null hq) (has_key-append p s c cs hp) in
      rw (append_old q (append p s).1 old) (refl, refl)

  pub no_key : (es : List (DomainEvent P)) → has_key none es ≡ false
  no_key [] = refl
  no_key (e ∷ es) = no_key es
