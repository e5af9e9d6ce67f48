-- ===== src/Watch/Metrics.antt =====
-- `class ObservabilityService` of backend/src/services/observability.ts. Times are thousandths of a
-- millisecond; the clock, the figures of the operating system and the random fallback latency are
-- arguments. The rounding of the figures for display is left out.
use aether_x.Prelude.{
  ℕ, ◌+◌, ◌-◌, ◌/◌, ◌≤◌, List, [], ◌∷◌, ◌++◌, length, length-append, total, ltb, if◌then◌else◌,
  arith,
}

pub record SystemMetrics : Type 0 where
  pub tps : ℕ
  pub matching_latency : ℕ
  pub active_sockets : ℕ
  pub cpu_load : ℕ
  pub memory_usage : ℕ
  pub event_loop_lag : ℕ
  pub timestamp : ℕ

pub record Observability : Type 0 where
  pub transaction_count : ℕ
  pub latencies : List ℕ
  pub active_socket_count : ℕ
  pub last_tick : ℕ
  pub current_event_loop_lag : ℕ
  pub metrics_history : List SystemMetrics

-- The oldest entry goes where there are more than n.
abbrev pub without_first {ℓ} : {A : Type ℓ} → List A → List A
without_first [] = []
without_first (x ∷ xs) = xs

abbrev pub keep_last {ℓ} : {A : Type ℓ} → ℕ → List A → List A
keep_last n xs = if ltb n (length xs) then without_first xs else xs

-- A turn of the timer of `init`, every 500 milliseconds.
unfoldable pub on_lag_timer : ℕ → Observability → Observability
on_lag_timer now o = record o {
  current_event_loop_lag = now - o.last_tick - 500000;
  last_tick = now;
}

unfoldable pub increment_sockets : Observability → Observability
increment_sockets o = record o { active_socket_count = o.active_socket_count + 1 }

unfoldable pub decrement_sockets : Observability → Observability
decrement_sockets o = record o { active_socket_count = o.active_socket_count - 1 }

unfoldable pub record_latency : ℕ → Observability → Observability
record_latency time o = record o { latencies = keep_last 500 (o.latencies ++ time ∷ []) }

unfoldable pub increment_tps : Observability → Observability
increment_tps o = record o { transaction_count = o.transaction_count + 1 }

abbrev pub average : List ℕ → ℕ → ℕ
average [] fallback = fallback
average (t ∷ ts) fallback = total (λ x. x) (t ∷ ts) / length (t ∷ ts)

unfoldable pub capture_snapshot : ℕ → ℕ → ℕ → ℕ → Observability → SystemMetrics × Observability
capture_snapshot now cpu_load memory_usage fallback o =
    let snapshot : SystemMetrics = record {
      tps = o.transaction_count;
      matching_latency = average o.latencies fallback;
      active_sockets = o.active_socket_count;
      cpu_load = cpu_load;
      memory_usage = memory_usage;
      event_loop_lag = o.current_event_loop_lag;
      timestamp = now;
    } in
    (
      snapshot,
      record o {
        transaction_count = 0;
        metrics_history = keep_last 60 (o.metrics_history ++ snapshot ∷ []);
      },
    )

pub data WatchEvent : Type 0 where
  lag_timer : ℕ → WatchEvent
  socket_opened socket_closed matched : WatchEvent
  latency : ℕ → WatchEvent
  second : ℕ → ℕ → ℕ → ℕ → WatchEvent

unfoldable pub on_watch_event : WatchEvent → Observability → Observability
on_watch_event (lag_timer now) o = on_lag_timer now o
on_watch_event socket_opened o = increment_sockets o
on_watch_event socket_closed o = decrement_sockets o
on_watch_event matched o = increment_tps o
on_watch_event (latency time) o = record_latency time o
on_watch_event (second now cpu memory fallback) o = (capture_snapshot now cpu memory fallback o).1

abbrev pub on_watch_events : List WatchEvent → Observability → Observability
on_watch_events [] o = o
on_watch_events (e ∷ es) o = on_watch_events es (on_watch_event e o)

-- The windows do not outgrow their limits.
pub record IsBounded (o : Observability) : Type 0 where
  pub latencies : length o.latencies ≤ 500
  pub history : length o.metrics_history ≤ 60

keep_last-length {ℓ} :
    {A : Type ℓ} (n : ℕ) (xs : List A) (x : A)
    → length xs ≤ n
    → length (keep_last n (xs ++ x ∷ [])) ≤ n
keep_last-length n [] x h = ground (arith, h)
keep_last-length n (y ∷ xs) x h = ground (arith, h, length-append xs (x ∷ []))

on_watch_event-IsBounded :
    (e : WatchEvent) (o : Observability) → IsBounded o → IsBounded (on_watch_event e o)
unfolding on_watch_event on_lag_timer increment_sockets decrement_sockets increment_tps
    record_latency capture_snapshot
on_watch_event-IsBounded (lag_timer now) o h = record {
  latencies = h.latencies;
  history = h.history;
}
on_watch_event-IsBounded socket_opened o h = record { latencies = h.latencies; history = h.history }
on_watch_event-IsBounded socket_closed o h = record { latencies = h.latencies; history = h.history }
on_watch_event-IsBounded matched o h = record { latencies = h.latencies; history = h.history }
on_watch_event-IsBounded (latency time) o h = record {
  latencies = keep_last-length 500 o.latencies time h.latencies;
  history = h.history;
}
on_watch_event-IsBounded (second now cpu memory fallback) o h = record {
  latencies = h.latencies;
  history = keep_last-length 60 o.metrics_history _ h.history;
}

-- From windows within their limits, any events leave at most 500 latencies and 60 snapshots.
pub on_watch_events-IsBounded :
    (es : List WatchEvent) (o : Observability) → IsBounded o → IsBounded (on_watch_events es o)
on_watch_events-IsBounded [] o h = h
on_watch_events-IsBounded (e ∷ es) o h =
    on_watch_events-IsBounded es (on_watch_event e o) (on_watch_event-IsBounded e o h)
