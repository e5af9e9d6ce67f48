-- ===== src/Feed/Source.antt =====
-- When backend/src/services/marketIngestion.ts makes prices of its own.
use aether_x.Prelude.{
  ℕ, ◌-◌, ◌≡◌, refl, List, [], ◌∷◌, ◌++◌, Bool, true, false, not, ◌&&◌, any, All, ◌==◌,
  if◌then◌else◌, Bool-cases, inl, inr,
}
use aether_x.Prelude.Text.{Text, text_eq}
use aether_x.Feed.Ingestion.{
  Connection, connecting, open_now, closed, broken, MarketTick, Ingestion, symbols, start_feeds_if,
  start_synthetic_feeds, stop_synthetic_feeds, take_tick, FeedEvent, opened, silent, heard, ignored,
  errored, closing, reconnecting, walked, on_open, on_heartbeat, on_failure, on_close, connect,
  on_timer, on_interval, on_event, on_events,
}

abbrev pub is_down : Connection → Bool
is_down connecting = false
is_down open_now = false
is_down closed = true
is_down broken = true

-- The intervals run for all symbols or for none, as the flag says, and they run while the connection
-- is down.
pub record IsFeed (g : Ingestion) : Type 0 where
  pub intervals : g.synthetic_intervals ≡ (if g.is_synthetic then symbols else [])
  pub covered : is_down g.connection && not g.is_synthetic ≡ false

start-IsFeed :
    (g : Ingestion)
    → g.synthetic_intervals ≡ (if g.is_synthetic then symbols else [])
    → IsFeed (start_synthetic_feeds g)
unfolding start_synthetic_feeds
start-IsFeed g h = go g.is_synthetic refl
  where
    down-covered : (b : Bool) → b && false ≡ false
    down-covered true = refl
    down-covered false = refl

    go : (b : Bool) → g.is_synthetic ≡ b → IsFeed (start_feeds_if b g)
    go true e = record { intervals = h; covered = rw e (down-covered (is_down g.connection)) }
    go false e = record { intervals = refl; covered = down-covered (is_down g.connection) }

failure-IsFeed : (c : Connection) (g : Ingestion) → IsFeed g → IsFeed (on_failure c g)
unfolding on_failure
failure-IsFeed c g h = start-IsFeed (record g { heartbeat = false; connection = c }) h.intervals

-- Ticks touch neither the feeds nor the connection.
take_tick-IsFeed : (t : MarketTick) (g : Ingestion) → IsFeed g → IsFeed (take_tick t g)
unfolding take_tick
take_tick-IsFeed t g h = record { intervals = h.intervals; covered = h.covered }

timer-IsFeed : (works : Bool) (g : Ingestion) → IsFeed g → IsFeed (on_timer works g)
unfolding on_timer
timer-IsFeed works g h = elim (Bool-cases (g.reconnections == 0)) [
  | inl none_left ↦ rw none_left h
  | inr some_left ↦ rw some_left (fired g.is_synthetic)
]
  where
    connect-IsFeed :
        (works : Bool) → IsFeed (connect works (record g { reconnections = g.reconnections - 1 }))
    connect-IsFeed true = record { intervals = h.intervals; covered = refl }
    connect-IsFeed false =
        failure-IsFeed broken (record g { reconnections = g.reconnections - 1 })
          (record { intervals = h.intervals; covered = h.covered })

    fired :
        (b : Bool)
        → IsFeed (
            if b
            then connect works (record g { reconnections = g.reconnections - 1 })
            else record g { reconnections = g.reconnections - 1 })
    fired true = connect-IsFeed works
    fired false = record { intervals = h.intervals; covered = h.covered }

on_event-IsFeed : (e : FeedEvent) (g : Ingestion) → IsFeed g → IsFeed (on_event e g)
unfolding on_event on_open stop_synthetic_feeds on_heartbeat on_close on_interval
on_event-IsFeed opened g h = record { intervals = refl; covered = refl }
on_event-IsFeed silent g h = elim (Bool-cases (g.heartbeat && not g.is_synthetic)) [
  | inl quiet ↦ rw quiet (start-IsFeed g h.intervals)
  | inr other ↦ rw other h
]
on_event-IsFeed (heard symbol price quantity timestamp) g h = take_tick-IsFeed _ g h
on_event-IsFeed ignored g h = h
on_event-IsFeed errored g h = failure-IsFeed broken g h
on_event-IsFeed closing g h =
    let down = failure-IsFeed closed g h in
    record { intervals = down.intervals; covered = down.covered }
on_event-IsFeed (reconnecting works) g h = timer-IsFeed works g h
on_event-IsFeed (walked symbol price quantity timestamp) g h =
    elim (Bool-cases (any (text_eq symbol) g.synthetic_intervals)) [
      | inl runs ↦ rw runs (take_tick-IsFeed _ g h)
      | inr stopped ↦ rw stopped h
    ]

-- From a state in which the synthetic feeds run for all symbols or for none, as the flag says, and
-- run while the connection is down, any events lead to such a state.
pub on_events-IsFeed : (es : List FeedEvent) (g : Ingestion) → IsFeed g → IsFeed (on_events es g)
on_events-IsFeed [] g h = h
on_events-IsFeed (e ∷ es) g h = on_events-IsFeed es (on_event e g) (on_event-IsFeed e g h)

-- An event that is not the opening of a connection.
abbrev pub no_opening : FeedEvent → Bool
no_opening opened = false
no_opening _ = true

start-runs : (g : Ingestion) → (start_synthetic_feeds g).is_synthetic ≡ true
unfolding start_synthetic_feeds
start-runs g = go g.is_synthetic refl
  where
    go : (b : Bool) → g.is_synthetic ≡ b → (start_feeds_if b g).is_synthetic ≡ true
    go true e = e
    go false e = refl

on_event-stays :
    (e : FeedEvent) (g : Ingestion)
    → no_opening e ≡ true
    → g.is_synthetic ≡ true
    → (on_event e g).is_synthetic ≡ true
unfolding on_event on_heartbeat on_failure on_close on_timer on_interval take_tick
on_event-stays opened g n h = cc
on_event-stays silent g n h = elim (Bool-cases (g.heartbeat && not g.is_synthetic)) [
  | inl quiet ↦ rw quiet (start-runs g)
  | inr other ↦ rw other h
]
on_event-stays (heard symbol price quantity timestamp) g n h = h
on_event-stays ignored g n h = h
on_event-stays errored g n h = start-runs _
on_event-stays closing g n h = start-runs _
on_event-stays (reconnecting works) g n h = elim (Bool-cases (g.reconnections == 0)) [
  | inl none_left ↦ rw none_left h
  | inr some_left ↦ rw some_left (fired g.is_synthetic works)
]
  where
    fired :
        (b works' : Bool)
        → (if b
            then connect works' (record g { reconnections = g.reconnections - 1 })
            else record g { reconnections = g.reconnections - 1 }).is_synthetic
          ≡ true
    fired true true = h
    fired true false = start-runs _
    fired false works' = h
on_event-stays (walked symbol price quantity timestamp) g n h =
    elim (Bool-cases (any (text_eq symbol) g.synthetic_intervals)) [
      | inl runs ↦ rw runs h
      | inr stopped ↦ rw stopped h
    ]

on_events-stays :
    (es : List FeedEvent) (g : Ingestion)
    → All (λ e. no_opening e ≡ true) es
    → g.is_synthetic ≡ true
    → (on_events es g).is_synthetic ≡ true
on_events-stays [] g n h = h
on_events-stays (e ∷ es) g n h = on_events-stays es (on_event e g) n.1 (on_event-stays e g n.0 h)

-- Once the synthetic feeds run, any events but the opening of a connection, trades of the exchange
-- among them, leave them running: the next turn of a symbol's interval still publishes its price.
pub walked-publishes :
    (es : List FeedEvent) (g : Ingestion) (symbol : Text) (price quantity timestamp : ℕ)
    → IsFeed g
    → g.is_synthetic ≡ true
    → All (λ e. no_opening e ≡ true) es
    → any (text_eq symbol) symbols ≡ true
    → (on_event (walked symbol price quantity timestamp) (on_events es g)).published
      ≡ (on_events es g).published
        ++ record {
          symbol = symbol;
          price = price;
          quantity = quantity;
          timestamp = timestamp;
          is_synthetic = true;
        }
          ∷ []
unfolding on_event on_interval take_tick
walked-publishes es g symbol price quantity timestamp f h n known =
    let running = on_events-stays es g n h in
    let feeds = (on_events-IsFeed es g f).intervals in rw feeds (rw running (rw known refl))
