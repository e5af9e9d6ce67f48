-- ===== src/Bus/Stream.antt =====
-- `class EventBus` of backend/src/services/eventBus.ts: one topic and one of its subscribers. A Redis
-- stream is its messages in the order of their ids, and the id of a message is its place, from 1 on.
-- `XREAD` from an id returns messages behind it, `$` stands for the last id at the time of the call,
-- and a call that finds none ends without a result. `parse` is `JSON.parse`.
use aether_x.Prelude.{
  ℕ, zero, suc, ◌≡◌, List, [], ◌∷◌, ◌++◌, length, take, Option, none, some, Bool, true, false,
}
use aether_x.Prelude.Text.{Text, codes, text_eq}

-- The fields of a stream entry, names and values in turn.
abbrev pub Message : Type 0
Message = List Text

pub data Cursor : Type 0 where
  tail : Cursor
  seen_to : ℕ → Cursor

-- Where the loop stands: before a read, in one that started behind some place, or at the messages
-- that a read returned, the first of them behind that place.
pub data Phase : Type 0 where
  idle : Phase
  waiting : ℕ → Phase
  handling : ℕ → List Message → Phase

pub record Subscriber (A : Type 0) : Type 0 where
  pub stream : List Message
  pub active : Bool
  pub last_seen_id : Cursor
  pub phase : Phase
  -- What the callback was called with.
  pub called : List A

abbrev pub drop : ℕ → List Message → List Message
drop zero ms = ms
drop (suc n) [] = []
drop (suc n) (m ∷ ms) = drop n ms

-- The value behind the first field of the name `payload`, if there is one and it is not empty.
abbrev pub not_empty : List Text → Option Text
not_empty [] = none
not_empty ([] ∷ fs) = none
not_empty ((c ∷ t) ∷ fs) = some (c ∷ t)

abbrev pub payload_of : Message → Option Text
payload_of [] = none
payload_of (f ∷ fs) = elim (text_eq f (codes "payload")) [
  | true ↦ not_empty fs
  | false ↦ payload_of fs
]

abbrev pub resolve {ℓ} : {A : Type ℓ} → Cursor → List A → ℕ
resolve tail stream = length stream
resolve (seen_to n) stream = n

abbrev pub is_some_message : List Message → Bool
is_some_message [] = false
is_some_message (m ∷ ms) = true

module _ {A : Type 0} where
  -- `subscribe`, which does nothing for a subscriber that is active.
  abbrev pub subscribe_if : Bool → Subscriber A → Subscriber A
  subscribe_if true s = s
  subscribe_if false s = record s { active = true; last_seen_id = tail; phase = idle }

  unfoldable pub subscribe : Subscriber A → Subscriber A
  subscribe s = subscribe_if s.active s

  unfoldable pub unsubscribe : Subscriber A → Subscriber A
  unsubscribe s = record s { active = false }

  unfoldable pub publish : Message → Subscriber A → Subscriber A
  publish m s = record s { stream = s.stream ++ m ∷ [] }

  unfoldable pub begin_read : Subscriber A → Subscriber A
  begin_read s = record s { phase = waiting (resolve s.last_seen_id s.stream) }

  -- A read that timed out or failed.
  unfoldable pub end_read : Subscriber A → Subscriber A
  end_read s = record s { phase = idle }

  unfoldable pub receive : ℕ → List Message → Subscriber A → Subscriber A
  receive start ms s = record s { phase = handling start ms }

module _ {A : Type 0} (parse : Text → Option A) where
  abbrev parsed : Option A → List A
  parsed none = []
  parsed (some a) = a ∷ []

  -- The calls of the callback for one message; whether a call fails makes no difference to the loop.
  abbrev pub calls_of : Option Text → List A
  calls_of none = []
  calls_of (some payload) = parsed (parse payload)

  abbrev pub calls : List Message → List A
  calls [] = []
  calls (m ∷ ms) = calls_of (payload_of m) ++ calls ms

  -- One turn of the inner loop.
  unfoldable pub handle : ℕ → Message → List Message → Subscriber A → Subscriber A
  handle start m ms s = record s {
    called = s.called ++ calls_of (payload_of m);
    last_seen_id = seen_to (suc start);
    phase = handling (suc start) ms;
  }

  -- What can happen next: a message is published at any time, and the loop goes on from its phase.
  pub data Step (s : Subscriber A) : Subscriber A → Type 0 where
    publishes : (m : Message) → Step s (publish m s)
    reads : s.phase ≡ idle → s.active ≡ true → Step s (begin_read s)
    gives_up : (start : ℕ) → s.phase ≡ waiting start → Step s (end_read s)
    receives :
        (start count : ℕ)
        → s.phase ≡ waiting start
        → is_some_message (take count (drop start s.stream)) ≡ true
        → Step s (receive start (take count (drop start s.stream)) s)
    handles :
        (start : ℕ) (m : Message) (ms : List Message)
        → s.phase ≡ handling start (m ∷ ms)
        → Step s (handle start m ms s)
    finishes : (start : ℕ) → s.phase ≡ handling start [] → Step s (end_read s)
    leaves : Step s (unsubscribe s)

  pub data Steps : Subscriber A → Subscriber A → Type 0 where
    rests : {s : Subscriber A} → Steps s s
    goes : {s t u : Subscriber A} → Step s t → Steps t u → Steps s u
