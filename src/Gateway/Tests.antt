-- ===== src/Gateway/Tests.antt =====
-- Witnesses for the gateway and its clients.
use aether_x.Prelude.{
  ◌⊎◌, ℕ, ◌≡◌, refl, List, [], ◌∷◌, take, Option, none, some, Bool, true, false, ◌&&◌, ◌==◌,
  if◌then◌else◌,
}
use aether_x.Prelude.Text.{Text, codes, text_eq}
use aether_x.Watch.Metrics.{Observability}
use aether_x.Gateway.Bridge.{Value, object, entry, text, null, no_fields, field_of}
use aether_x.Gateway.Rooms.{
  RoomServer, RoomLaws, subscribe, unsubscribe, connection, Signal, Gate, on_signals, wants,
  is_in-on_signals,
}
use aether_x.Gateway.Routes.{
  get_orders, dispatch, handled, unauthorized, reads_user, is_absent, dispatch-IsAdmitted, Method,
}
use aether_x.Gateway.Client.{
  TradeExecutedData, Event, trade_executed, wallet_refresh, new_client, show_all,
}
use aether_x.Gateway.Shown.{trades_of_visits, show_all-executions}

-- Rooms as the sets of their sockets.
abbrev Sets : Type 0
Sets = ℕ → Text → Bool

abbrev sets : RoomServer Sets
sets = record {
  join = λ s room r t other. if t == s && text_eq other room then true else r t other;
  leave = λ s room r t other. if t == s && text_eq other room then false else r t other;
  leave_all = λ s r t other. if t == s then false else r t other;
  is_in = λ t other r. r t other;
}

sets-RoomLaws : RoomLaws sets
sets-RoomLaws = record {
  joined = λ s t room other r. refl;
  left = λ s t room other r. refl;
  left_all = λ s t other r. refl;
}

abbrev quiet : Observability
quiet = record {
  transaction_count = 0;
  latencies = [];
  active_socket_count = 0;
  last_tick = 0;
  current_event_loop_lag = 0;
  metrics_history = [];
}

abbrev signals : List Signal
signals =
    connection 1
    ∷ subscribe 1 (codes "btcusdt")
    ∷ unsubscribe 2 (codes "BTCUSDT")
    ∷ subscribe 1 (codes "ETHUSDT")
    ∷ []

abbrev gate : Gate Sets
gate = record { rooms = λ t other. false; observability = quiet }

is_in-on_signals_example :
    sets.is_in 1 (codes "BTCUSDT") (on_signals sets (λ r. 0) (λ r. ([], [])) signals gate).rooms
    ≡ wants sets (λ r. 0) (λ r. ([], [])) 1 (codes "BTCUSDT") signals false
is_in-on_signals_example =
    is_in-on_signals sets (λ r. 0) (λ r. ([], [])) sets-RoomLaws 1 (codes "BTCUSDT") signals gate

abbrev session : Value
session = object (entry (codes "id") (text (codes "7")) no_fields)

-- Two cookies that are JSON: one is a session and one is `null`.
abbrev parse : Text → Option Value
parse t =
    if text_eq t (codes "s")
    then some session
    else if text_eq t (codes "null")
    then some null
    else none

abbrev is_orders : Method → Text → Bool
is_orders Method.get pattern_text = text_eq pattern_text (codes "/orders")
is_orders _ pattern_text = false

found : dispatch parse is_orders (some (codes "s")) ≡ handled get_orders session
unfolding dispatch
found = refl

-- The middleware lets `null` pass, and the handler refuses it.
refused : dispatch parse is_orders (some (codes "null")) ≡ unauthorized
unfolding dispatch
refused = refl

dispatch-IsAdmitted_example :
    (reads_user get_orders ≡ true → is_absent (field_of (codes "id") session) ≡ false)
    × ((parse (codes "s") ≡ some session)
        ⊎ ((session ≡ Value.undefined) × (reads_user get_orders ≡ false)))
dispatch-IsAdmitted_example =
    dispatch-IsAdmitted parse is_orders (some (codes "s")) get_orders session found

abbrev trade_of : Text → TradeExecutedData
trade_of symbol = record {
  symbol = symbol;
  price = 1;
  quantity = 2;
  buyer_id = 3;
  seller_id = 4;
  timestamp = 5;
}

abbrev visits : List (Text × List (Event ℕ))
visits =
    (codes "A", trade_executed (trade_of (codes "A")) ∷ wallet_refresh ∷ [])
    ∷ (
      codes "B",
      trade_executed (trade_of (codes "A")) ∷ trade_executed (trade_of (codes "B")) ∷ [],
    )
    ∷ []

-- The trade of A stays behind that of B.
two_shown : trades_of_visits visits [] ≡ trade_of (codes "B") ∷ trade_of (codes "A") ∷ []
two_shown = refl

show_all-executions_example :
    (show_all visits new_client).executions ≡ take 50 (trades_of_visits visits [])
show_all-executions_example = show_all-executions visits
