-- ===== src/Feed/Ingestion.antt =====
-- `class MarketIngestionService` of backend/src/services/marketIngestion.ts: the socket to the exchange
-- with its handlers, and the synthetic feeds that stand in for it. What the socket, the timers and the
-- random walk do are events; a price is a number of ten-thousandths. The spot prices that are fetched
-- before the first connection are in the state that a run starts from.
use aether_x.Prelude.{
  ℕ, ◌-◌, ◌+◌, List, [], ◌∷◌, ◌++◌, Option, none, some, Bool, true, false, not, any, ◌==◌, ◌&&◌,
  if◌then◌else◌,
}
use aether_x.Prelude.Text.{Text, codes, text_eq, upper}

pub data Connection : Type 0 where
  connecting open_now closed broken : Connection

pub record MarketTick : Type 0 where
  pub symbol : Text
  pub price : ℕ
  pub quantity : ℕ
  pub timestamp : ℕ
  pub is_synthetic : Bool

pub record Ingestion : Type 0 where
  pub is_synthetic : Bool
  -- The symbols that have an interval.
  pub synthetic_intervals : List Text
  pub current_prices : List (Text × ℕ)
  pub heartbeat : Bool
  pub connection : Connection
  -- The timers of `onclose` that have not fired.
  pub reconnections : ℕ
  pub published : List MarketTick

abbrev pub symbols : List Text
symbols = codes "BTCUSDT" ∷ codes "ETHUSDT" ∷ codes "SOLUSDT" ∷ []

abbrev pub set_price : Text → ℕ → List (Text × ℕ) → List (Text × ℕ)
set_price symbol price [] = (symbol, price) ∷ []
set_price symbol price ((s, p) ∷ ps) =
    if text_eq s symbol then (s, price) ∷ ps else (s, p) ∷ set_price symbol price ps

abbrev pub price_in : Text → List (Text × ℕ) → Option ℕ
price_in symbol [] = none
price_in symbol ((s, p) ∷ ps) = if text_eq s symbol then some p else price_in symbol ps

abbrev pub start_feeds_if : Bool → Ingestion → Ingestion
start_feeds_if true g = g
start_feeds_if false g = record g { is_synthetic = true; synthetic_intervals = symbols }

unfoldable pub start_synthetic_feeds : Ingestion → Ingestion
start_synthetic_feeds g = start_feeds_if g.is_synthetic g

unfoldable pub stop_synthetic_feeds : Ingestion → Ingestion
stop_synthetic_feeds g = record g { synthetic_intervals = [] }

-- The price is kept and published.
unfoldable pub take_tick : MarketTick → Ingestion → Ingestion
take_tick t g = record g {
  current_prices = set_price t.symbol t.price g.current_prices;
  published = g.published ++ t ∷ [];
}

pub data FeedEvent : Type 0 where
  opened : FeedEvent
  -- The heartbeat finds that the last message is more than five seconds old.
  silent : FeedEvent
  -- A trade, and a message that is none.
  heard : Text → ℕ → ℕ → ℕ → FeedEvent
  ignored : FeedEvent
  errored : FeedEvent
  closing : FeedEvent
  -- A timer of `onclose` fires, and the new socket is set up or throws.
  reconnecting : Bool → FeedEvent
  -- A turn of the interval of a symbol.
  walked : Text → ℕ → ℕ → ℕ → FeedEvent

unfoldable pub on_open : Ingestion → Ingestion
on_open g =
    let g' = stop_synthetic_feeds (record g { connection = open_now; is_synthetic = false }) in
    record g' { heartbeat = true }

unfoldable pub on_heartbeat : Ingestion → Ingestion
on_heartbeat g = if g.heartbeat && not g.is_synthetic then start_synthetic_feeds g else g

-- `onerror`, and the end of a setup that threw.
unfoldable pub on_failure : Connection → Ingestion → Ingestion
on_failure c g = start_synthetic_feeds (record g { heartbeat = false; connection = c })

unfoldable pub on_close : Ingestion → Ingestion
on_close g = let g' = on_failure closed g in record g' { reconnections = g'.reconnections + 1 }

-- `connectBinance`: `works` says whether the socket can be made.
abbrev pub connect : Bool → Ingestion → Ingestion
connect true g = record g { connection = connecting }
connect false g = on_failure broken g

unfoldable pub on_timer : Bool → Ingestion → Ingestion
on_timer works g =
    let g' : Ingestion = record g { reconnections = g.reconnections - 1 } in
    if g.reconnections == 0 then g else if g.is_synthetic then connect works g' else g'

unfoldable pub on_interval : MarketTick → Ingestion → Ingestion
on_interval t g = if any (text_eq t.symbol) g.synthetic_intervals then take_tick t g else g

unfoldable pub on_event : FeedEvent → Ingestion → Ingestion
on_event opened g = on_open g
on_event silent g = on_heartbeat g
on_event (heard symbol price quantity timestamp) g =
    take_tick
      (record {
        symbol = symbol;
        price = price;
        quantity = quantity;
        timestamp = timestamp;
        is_synthetic = false;
      })
      g
on_event ignored g = g
on_event errored g = on_failure broken g
on_event closing g = on_close g
on_event (reconnecting works) g = on_timer works g
on_event (walked symbol price quantity timestamp) g =
    on_interval
      (record {
        symbol = symbol;
        price = price;
        quantity = quantity;
        timestamp = timestamp;
        is_synthetic = true;
      })
      g

abbrev pub on_events : List FeedEvent → Ingestion → Ingestion
on_events [] g = g
on_events (e ∷ es) g = on_events es (on_event e g)

abbrev pub or_zero : Option ℕ → ℕ
or_zero none = 0
or_zero (some price) = price

abbrev pub get_current_price : Text → Ingestion → ℕ
get_current_price symbol g = or_zero (price_in (upper symbol) g.current_prices)
