-- ===== src/Bus/Tests.antt =====
-- A subscriber that has seen one of two messages, and a third that is published while it reads.
use aether_x.Prelude.{◌≡◌, refl, [], ◌∷◌, Option, some, true, false}
use aether_x.Prelude.Text.{Text, codes}
use aether_x.Bus.Stream.{
  Message, tail, seen_to, idle, Subscriber, subscribe, publish, begin_read, end_read, receive,
  handle, Steps, publishes, reads, receives, handles, goes, rests, waiting,
}
use aether_x.Bus.Deliver.{IsServed, Steps-IsServed}
use aether_x.Bus.Progress.{HasCaughtUp, catches_up}

abbrev entry : Text → Message
entry payload = codes "payload" ∷ payload ∷ []

abbrev parse_text : Text → Option Text
parse_text t = some t

abbrev halfway : Subscriber Text
halfway = record {
  stream = entry (codes "a") ∷ entry (codes "b") ∷ [];
  active = true;
  last_seen_id = seen_to 1;
  phase = idle;
  called = [];
}

halfway-IsServed : IsServed parse_text (entry (codes "a") ∷ []) [] halfway
halfway-IsServed = record {
  seen = [];
  unseen = entry (codes "b") ∷ [];
  split = refl;
  cursor = refl;
  served = refl;
  stands = tt;
}

abbrev reading : Subscriber Text
reading = receive 1 (entry (codes "b") ∷ []) (begin_read halfway)

abbrev served : Subscriber Text
served = handle parse_text 1 (entry (codes "b")) [] (publish (entry (codes "c")) reading)

halfway_steps : Steps parse_text halfway served
unfolding begin_read receive publish handle
halfway_steps = goes (reads refl refl) (
    goes (receives 1 1 refl refl)
      (goes (publishes (entry (codes "c"))) (goes (handles 1 (entry (codes "b")) [] refl) rests)))

Steps-IsServed_example : IsServed parse_text (entry (codes "a") ∷ []) [] served
Steps-IsServed_example =
    Steps-IsServed parse_text (entry (codes "a") ∷ []) [] halfway served halfway-IsServed
      halfway_steps

catches_up_example :
    (t : Subscriber Text) × HasCaughtUp parse_text halfway t
    × IsServed parse_text (entry (codes "a") ∷ []) [] t
catches_up_example =
    catches_up parse_text (entry (codes "a") ∷ []) [] halfway halfway-IsServed refl refl

-- A subscriber that waits at the tail misses what is published between two of its reads.
abbrev fresh : Subscriber Text
fresh =
    subscribe
      (record { stream = []; active = false; last_seen_id = tail; phase = idle; called = [] })

abbrev late : Subscriber Text
late = begin_read (publish (entry (codes "a")) (end_read (begin_read fresh)))

misses_a : (late.phase ≡ waiting 1) × (late.stream ≡ entry (codes "a") ∷ [])
unfolding begin_read end_read publish subscribe
misses_a = (refl, refl)
