-- ===== src/Watch/Tests.antt =====
-- Two sockets, one of which closes twice, and a second with one match.
use aether_x.Prelude.{◌≡◌, refl, List, [], ◌∷◌}
use aether_x.Watch.Metrics.{
  Observability, WatchEvent, socket_opened, socket_closed, matched, latency, on_watch_event,
  on_watch_events, increment_sockets, decrement_sockets, increment_tps, record_latency,
  capture_snapshot,
}

abbrev quiet : Observability
quiet = record {
  transaction_count = 0;
  latencies = [];
  active_socket_count = 0;
  last_tick = 0;
  current_event_loop_lag = 0;
  metrics_history = [];
}

abbrev busy : List WatchEvent
busy =
    socket_opened
    ∷ socket_closed
    ∷ socket_closed
    ∷ socket_opened
    ∷ matched
    ∷ latency 40
    ∷ latency 60
    ∷ []

sockets_do_not_go_below : (on_watch_events busy quiet).active_socket_count ≡ 1
unfolding on_watch_event increment_sockets decrement_sockets increment_tps record_latency
sockets_do_not_go_below = refl

mean_latency : (capture_snapshot 9 1 1 55 (on_watch_events busy quiet)).0.matching_latency ≡ 50
unfolding on_watch_event increment_sockets decrement_sockets increment_tps record_latency
    capture_snapshot
mean_latency = refl
