-- ===== src/Gateway/Rooms.antt =====
-- The connection handler of backend/src/index.ts. The rooms are socket.io's: `RoomServer` is what the
-- handlers call of it, and `RoomLaws` what its documentation says of these calls.
use aether_x.Prelude.{
  ℕ, ◌≡◌, refl, ap, ◌∙◌, List, [], ◌∷◌, Option, none, some, Bool, true, false, ◌&&◌, ◌==◌,
  if◌then◌else◌,
}
use aether_x.Prelude.Text.{Text, text_eq, upper}
use aether_x.Matching.Book.{Level}
use aether_x.Watch.Metrics.{Observability, increment_sockets, decrement_sockets}

pub record RoomServer (R : Type 0) : Type 0 where
  pub join : ℕ → Text → R → R
  pub leave : ℕ → Text → R → R
  pub leave_all : ℕ → R → R
  pub is_in : ℕ → Text → R → Bool

pub record RoomLaws {R : Type 0} (io : RoomServer R) : Type 0 where
  pub joined :
      (s t : ℕ) (room other : Text) (r : R)
      → io.is_in t other (io.join s room r)
        ≡ (if t == s && text_eq other room then true else io.is_in t other r)
  pub left :
      (s t : ℕ) (room other : Text) (r : R)
      → io.is_in t other (io.leave s room r)
        ≡ (if t == s && text_eq other room then false else io.is_in t other r)
  pub left_all :
      (s t : ℕ) (other : Text) (r : R)
      → io.is_in t other (io.leave_all s r) ≡ (if t == s then false else io.is_in t other r)

-- What a socket does; the sockets are numbered.
pub data Signal : Type 0 where
  connection disconnection : ℕ → Signal
  subscribe unsubscribe : ℕ → Text → Signal

-- `market.initial`, without the indicators.
pub record Initial : Type 0 where
  pub symbol : Text
  pub spot : ℕ
  pub depth : List Level × List Level

pub record Gate (R : Type 0) : Type 0 where
  pub rooms : R
  pub observability : Observability

module _ {R : Type 0} (io : RoomServer R) (price_of : Text → ℕ)
    (depth_of : Text → List Level × List Level) where
  -- The handlers, with what is sent to the socket itself. A socket that disconnects leaves its rooms.
  abbrev pub on_signal : Signal → Gate R → Gate R × Option Initial
  on_signal (connection s) g =
      (record g { observability = increment_sockets g.observability }, none)
  on_signal (subscribe s symbol) g =
      let room = upper symbol in
      (
        record g { rooms = io.join s room g.rooms },
        some (record { symbol = room; spot = price_of room; depth = depth_of room }),
      )
  on_signal (unsubscribe s symbol) g =
      (record g { rooms = io.leave s (upper symbol) g.rooms }, none)
  on_signal (disconnection s) g = (
    record { rooms = io.leave_all s g.rooms; observability = decrement_sockets g.observability },
    none,
  )

  abbrev pub on_signals : List Signal → Gate R → Gate R
  on_signals [] g = g
  on_signals (x ∷ xs) g = on_signals xs (on_signal x g).0

  -- Whether a socket is subscribed to a room, by its own signals alone: its last one decides.
  abbrev wants_after : ℕ → Text → Signal → Bool → Bool
  wants_after s room (connection t) was = was
  wants_after s room (subscribe t symbol) was =
      if s == t && text_eq room (upper symbol) then true else was
  wants_after s room (unsubscribe t symbol) was =
      if s == t && text_eq room (upper symbol) then false else was
  wants_after s room (disconnection t) was = if s == t then false else was

  abbrev pub wants : ℕ → Text → List Signal → Bool → Bool
  wants s room [] was = was
  wants s room (x ∷ xs) was = wants s room xs (wants_after s room x was)

  module _ (laws : RoomLaws io) where
    is_in-on_signal :
        (s : ℕ) (room : Text) (x : Signal) (g : Gate R)
        → io.is_in s room (on_signal x g).0.rooms ≡ wants_after s room x (io.is_in s room g.rooms)
    is_in-on_signal s room (connection t) g = refl
    is_in-on_signal s room (subscribe t symbol) g = laws.joined t s (upper symbol) room g.rooms
    is_in-on_signal s room (unsubscribe t symbol) g = laws.left t s (upper symbol) room g.rooms
    is_in-on_signal s room (disconnection t) g = laws.left_all t s room g.rooms

    -- After any signals of any sockets, a socket gets what is sent to a room exactly if the last of its
    -- own signals for this room, in whatever case it was written, was a subscription, and it has not
    -- disconnected since; without a signal of its own it stays as it was.
    pub is_in-on_signals :
        (s : ℕ) (room : Text) (xs : List Signal) (g : Gate R)
        → io.is_in s room (on_signals xs g).rooms ≡ wants s room xs (io.is_in s room g.rooms)
    is_in-on_signals s room [] g = refl
    is_in-on_signals s room (x ∷ xs) g =
        is_in-on_signals s room xs (on_signal x g).0
        ∙ ap (wants s room xs) (is_in-on_signal s room x g)
