-- ===== src/Bus/Deliver.antt =====
-- What a subscriber of backend/src/services/eventBus.ts gets, whatever is published while it reads.
use mathlib.Core.Path.{subst}
use aether_x.Prelude.{
  ℕ, zero, suc, ◌≡◌, refl, sym, ap, ◌∙◌, List, [], ◌∷◌, ◌++◌, length, length-append, take,
  append_nil, append_assoc, Option, arith,
}
use aether_x.Prelude.Text.{Text}
use aether_x.Bus.Stream.{
  Message, seen_to, Phase, idle, waiting, handling, Subscriber, drop, payload_of, resolve, calls_of,
  calls, unsubscribe, publish, begin_read, end_read, receive, handle, Step, publishes, reads,
  gives_up, receives, handles, finishes, leaves, Steps, rests, goes,
}

drop-length : (xs ys : List Message) → drop (length xs) (xs ++ ys) ≡ ys
drop-length [] ys = refl
drop-length (x ∷ xs) ys = drop-length xs ys

take-drop : (n : ℕ) (ms : List Message) → take n ms ++ drop n ms ≡ ms
take-drop zero ms = refl
take-drop (suc n) [] = refl
take-drop (suc n) (m ∷ ms) = ap (λ x. m ∷ x) (take-drop n ms)

pub take-length : (ms : List Message) → take (length ms) ms ≡ ms
take-length [] = refl
take-length (m ∷ ms) = ap (λ x. m ∷ x) (take-length ms)

-- Where the loop stands, by how far it has come and what is still unseen.
abbrev pub Stands : Phase → ℕ → List Message → Type 0
Stands idle place unseen = Unit
Stands (waiting start) place unseen = start ≡ place
Stands (handling start ms) place unseen =
    (start ≡ place) × (later : List Message) × (unseen ≡ ms ++ later)

module _ {A : Type 0} (parse : Text → Option A) where
  calls-++ : (ms ns : List Message) → calls parse (ms ++ ns) ≡ calls parse ms ++ calls parse ns
  calls-++ [] ns = refl
  calls-++ (m ∷ ms) ns =
      ap (λ x. calls_of parse (payload_of m) ++ x) (calls-++ ms ns)
      ∙ sym (append_assoc (calls_of parse (payload_of m)) (calls parse ms) (calls parse ns))

  -- The subscriber has seen `old` and the messages after it up to its cursor, and after the calls
  -- `before` the callback was called for each of these once, in order.
  pub record IsServed (old : List Message) (before : List A) (s : Subscriber A) : Type 0 where
    pub seen : List Message
    pub unseen : List Message
    pub split : s.stream ≡ old ++ (seen ++ unseen)
    pub cursor : s.last_seen_id ≡ seen_to (length (old ++ seen))
    pub served : s.called ≡ before ++ calls parse seen
    pub stands : Stands s.phase (length (old ++ seen)) unseen

  module _ (old : List Message) (before : List A) where
    publish-IsServed :
        (m : Message) (s : Subscriber A) → IsServed old before s → IsServed old before (publish m s)
    unfolding publish
    publish-IsServed m s h = record {
      seen = h.seen;
      unseen = h.unseen ++ m ∷ [];
      split =
          ap (λ x. x ++ m ∷ []) h.split
          ∙ append_assoc old (h.seen ++ h.unseen) (m ∷ [])
          ∙ ap (λ x. old ++ x) (append_assoc h.seen h.unseen (m ∷ []));
      cursor = h.cursor;
      served = h.served;
      stands = still s.phase h.stands;
    }
      where
        still :
            (phase : Phase)
            → Stands phase (length (old ++ h.seen)) h.unseen
            → Stands phase (length (old ++ h.seen)) (h.unseen ++ m ∷ [])
        still idle k = tt
        still (waiting start) k = k
        still (handling start ms) (e, later, k) =
            (e, later ++ m ∷ [], ap (λ x. x ++ m ∷ []) k ∙ append_assoc ms later (m ∷ []))

    -- The same messages, with the loop in another phase.
    in_phase :
        (s t : Subscriber A)
        → t.stream ≡ s.stream
        → t.last_seen_id ≡ s.last_seen_id
        → t.called ≡ s.called
        → (h : IsServed old before s) → Stands t.phase (length (old ++ h.seen)) h.unseen
        → IsServed old before t
    in_phase s t e f g h stands = record {
      seen = h.seen;
      unseen = h.unseen;
      split = e ∙ h.split;
      cursor = f ∙ h.cursor;
      served = g ∙ h.served;
      stands = stands;
    }

    pub at_drop :
        (s : Subscriber A) (h : IsServed old before s)
        → drop (length (old ++ h.seen)) s.stream ≡ h.unseen
    at_drop s h =
        ap (drop (length (old ++ h.seen))) (h.split ∙ sym (append_assoc old h.seen h.unseen))
        ∙ drop-length (old ++ h.seen) h.unseen

    receive-IsServed :
        (start count : ℕ) (s : Subscriber A)
        → IsServed old before s
        → s.phase ≡ waiting start
        → IsServed old before (receive start (take count (drop start s.stream)) s)
    unfolding receive
    receive-IsServed start count s h e =
        let place : start ≡ length (old ++ h.seen) =
          subst (λ x. Stands x (length (old ++ h.seen)) h.unseen) e h.stands in
        in_phase s _ refl refl refl h
          (place, drop count h.unseen, rw place (rw (at_drop s h) (sym (take-drop count h.unseen))))

    handle-IsServed :
        (start : ℕ) (m : Message) (ms : List Message) (s : Subscriber A)
        → IsServed old before s
        → s.phase ≡ handling start (m ∷ ms)
        → IsServed old before (handle parse start m ms s)
    unfolding handle
    handle-IsServed start m ms s h e =
        let (place, later, rest) : Stands (handling start (m ∷ ms)) (length (old ++ h.seen))
            h.unseen =
          subst (λ x. Stands x (length (old ++ h.seen)) h.unseen) e h.stands in
        let next : suc start ≡ length (old ++ (h.seen ++ m ∷ [])) = omega (
          arith,
          length-append old h.seen,
          length-append old (h.seen ++ m ∷ []),
          length-append h.seen (m ∷ []),
          place,
        ) in
        record {
          seen = h.seen ++ m ∷ [];
          unseen = ms ++ later;
          split =
              h.split
              ∙ ap (λ x. old ++ x)
                  (ap (λ x. h.seen ++ x) rest ∙ sym (append_assoc h.seen (m ∷ []) (ms ++ later)));
          cursor = ap seen_to next;
          served =
              ap (λ x. x ++ calls_of parse (payload_of m)) h.served
              ∙ append_assoc before (calls parse h.seen) (calls_of parse (payload_of m))
              ∙ ap (λ x. before ++ x)
                  (ap (λ x. calls parse h.seen ++ x)
                      (sym (append_nil (calls_of parse (payload_of m))))
                    ∙ sym (calls-++ h.seen (m ∷ [])));
          stands = (next, later, refl);
        }

    Step-IsServed :
        (s t : Subscriber A) → IsServed old before s → Step parse s t → IsServed old before t
    unfolding begin_read end_read unsubscribe
    Step-IsServed s _ h (publishes m) = publish-IsServed m s h
    Step-IsServed s _ h (reads e on) =
        in_phase s _ refl refl refl h (ap (λ c. resolve c s.stream) h.cursor)
    Step-IsServed s _ h (gives_up start e) = in_phase s _ refl refl refl h tt
    Step-IsServed s _ h (receives start count e some_new) = receive-IsServed start count s h e
    Step-IsServed s _ h (handles start m ms e) = handle-IsServed start m ms s h e
    Step-IsServed s _ h (finishes start e) = in_phase s _ refl refl refl h tt
    Step-IsServed s _ h leaves = in_phase s _ refl refl refl h h.stands

    -- A subscriber whose cursor is an id is served without a gap: after any steps, of publishers and
    -- of its loop, the callback was called once for each message from the old cursor to the new one
    -- whose payload parses, in the order of the stream, and the cursor stands behind the last.
    pub Steps-IsServed :
        (s t : Subscriber A) → IsServed old before s → Steps parse s t → IsServed old before t
    Steps-IsServed s _ h rests = h
    Steps-IsServed s u h (goes {t} step more) = Steps-IsServed t u (Step-IsServed s t h step) more
