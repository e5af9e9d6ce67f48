-- ===== src/Bus/Progress.antt =====
-- The progress of a subscriber of backend/src/services/eventBus.ts.
use aether_x.Prelude.{
  ℕ, suc, ◌+◌, ◌≡◌, refl, sym, ap, ◌∙◌, List, [], ◌∷◌, ◌++◌, length, length-append, take, Option,
  true, arith,
}
use aether_x.Prelude.Text.{Text}
use aether_x.Bus.Stream.{
  Message, seen_to, idle, handling, Subscriber, drop, is_some_message, resolve, begin_read,
  end_read, receive, handle, Steps, reads, receives, handles, finishes, rests, goes,
}
use aether_x.Bus.Deliver.{IsServed, Steps-IsServed, take-length, at_drop}

module _ {A : Type 0} (parse : Text → Option A) where
  -- The loop is through with the stream as it is.
  pub record HasCaughtUp (s t : Subscriber A) : Type 0 where
    pub steps : Steps parse s t
    pub stream : t.stream ≡ s.stream
    pub resting : t.phase ≡ idle
    pub cursor : t.last_seen_id ≡ seen_to (length s.stream)

  -- The inner loop runs to the end of its messages.
  handle_all :
      (start : ℕ) (ms : List Message) (s : Subscriber A)
      → s.phase ≡ handling start ms
      → s.last_seen_id ≡ seen_to start
      → (t : Subscriber A) × Steps parse s t
        × (t.stream ≡ s.stream)
        × (t.phase ≡ idle)
        × (t.last_seen_id ≡ seen_to (start + length ms))
  unfolding handle end_read
  handle_all start [] s e c =
      (end_read s, goes (finishes start e) rests, refl, refl, c ∙ ap seen_to (omega arith))
  handle_all start (m ∷ ms) s e c =
      let (t, more, f, g, k) = handle_all (suc start) ms (handle parse start m ms s) refl refl in
      (t, goes (handles start m ms e) more, f, g, k ∙ ap seen_to (omega arith))

  -- From an active subscriber before a read, whose cursor is an id, the loop alone can go on to a
  -- state where the cursor stands at the end of the stream; by then the callback was called for
  -- every message behind the old cursor whose payload parses, once and in order.
  pub catches_up :
      (old : List Message) (before : List A) (s : Subscriber A)
      → IsServed parse old before s
      → s.phase ≡ idle
      → s.active ≡ true
      → (t : Subscriber A) × HasCaughtUp s t × IsServed parse old before t
  unfolding begin_read receive
  catches_up old before s h e on = go h.unseen refl
    where
      here : ℕ
      here = length (old ++ h.seen)

      size : length s.stream ≡ here + length h.unseen
      size =
          ap length h.split
          ∙ omega (
            arith,
            length-append old (h.seen ++ h.unseen),
            length-append h.seen h.unseen,
            length-append old h.seen,
          )

      go :
          (ms : List Message)
          → h.unseen ≡ ms
          → (t : Subscriber A) × HasCaughtUp s t × IsServed parse old before t
      go [] k = (
        s,
        record {
          steps = rests;
          stream = refl;
          resting = e;
          cursor = h.cursor ∙ ap seen_to (omega (arith, size, ap length k));
        },
        h,
      )
      go (m ∷ ms) k =
          let s₁ = begin_read s in
          let start = resolve s.last_seen_id s.stream in
          let at_start : start ≡ here = ap (λ c. resolve c s.stream) h.cursor in
          let batch = take (length (m ∷ ms)) (drop start s.stream) in
          let whole : batch ≡ m ∷ ms =
            rw at_start (rw (at_drop parse old before s h) (rw k (take-length (m ∷ ms)))) in
          let s₂ = receive start batch s₁ in
          let (t, steps, f, g, c) =
            handle_all start batch s₂ refl (h.cursor ∙ ap seen_to (sym at_start)) in
          let run =
            goes (reads e on)
              (goes (receives start (length (m ∷ ms)) refl (ap is_some_message whole)) steps) in
          (
            t,
            record {
              steps = run;
              stream = f;
              resting = g;
              cursor = c ∙ ap seen_to (omega (arith, size, at_start, ap length whole, ap length k));
            },
            Steps-IsServed parse old before s t h run,
          )
