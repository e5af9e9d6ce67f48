-- ===== src/Gateway/Client.antt =====
-- `useWebSockets` of frontend/src/hooks/useWebSockets.ts: what the page keeps of the messages of its
-- socket. The indicators of a candle are carried along as they come.
use aether_x.Prelude.{
  ℕ, suc, List, [], ◌∷◌, ◌++◌, Option, none, some, Bool, true, false, take, if◌then◌else◌,
}
use aether_x.Prelude.Text.{Text, text_eq}
use aether_x.Matching.Book.{Level}
use aether_x.Watch.Metrics.{SystemMetrics}

pub record TickData : Type 0 where
  pub symbol : Text
  pub price : ℕ
  pub quantity : ℕ
  pub timestamp : ℕ

pub record CandleData : Type 0 where
  pub time : ℕ
  pub open_price : ℕ
  pub high : ℕ
  pub low : ℕ
  pub close : ℕ
  pub volume : ℕ

pub record IndicatorData (A : Type 0) : Type 0 where
  pub symbol : Text
  pub candle : CandleData
  pub indicators : A

pub record TradeExecutedData : Type 0 where
  pub symbol : Text
  pub price : ℕ
  pub quantity : ℕ
  pub buyer_id : ℕ
  pub seller_id : ℕ
  pub timestamp : ℕ

pub data Request : Type 0 where
  subscribe unsubscribe : Text → Request

-- The states of the hook, its pending timer, and what it has emitted.
pub record Client (A : Type 0) : Type 0 where
  pub connected : Bool
  pub tick : Option TickData
  pub indicators : Option (IndicatorData A)
  pub order_book : List Level × List Level
  pub executions : List TradeExecutedData
  pub stats : Option SystemMetrics
  pub refresh_trigger : ℕ
  pub refresh_timeout : Bool
  pub sent : List Request

abbrev pub new_client : {A : Type 0} → Client A
new_client = record {
  connected = false;
  tick = none;
  indicators = none;
  order_book = ([], []);
  executions = [];
  stats = none;
  refresh_trigger = 0;
  refresh_timeout = false;
  sent = [];
}

-- The events of the socket, and the end of the timer. `market_initial` has the symbol, the spot price,
-- the depth and the indicators where they are truthy, and the clock.
pub data Event (A : Type 0) : Type 0 where
  connect disconnect wallet_refresh refresh_due : Event A
  market_initial : Text → ℕ → Option (List Level × List Level) → Option A → ℕ → Event A
  market_tick : TickData → Event A
  market_indicators : IndicatorData A → Event A
  orderbook_update : Text → List Level × List Level → Event A
  trade_executed : TradeExecutedData → Event A
  observability_stats : SystemMetrics → Event A

abbrev pub flat_candle : ℕ → ℕ → CandleData
flat_candle now spot = record {
  time = now;
  open_price = spot;
  high = spot;
  low = spot;
  close = spot;
  volume = 0;
}

module _ {A : Type 0} where
  abbrev pub set_depth : Option (List Level × List Level) → Client A → Client A
  set_depth none c = c
  set_depth (some depth) c = record c { order_book = depth }

  abbrev pub set_indicators : Text → ℕ → ℕ → Option A → Client A → Client A
  set_indicators symbol now spot none c = c
  set_indicators symbol now spot (some i) c = record c {
    indicators = some (record { symbol = symbol; candle = flat_candle now spot; indicators = i });
  }

  -- `[data, ...prev.slice(0, 49)]`
  abbrev pub add_execution : TradeExecutedData → Client A → Client A
  add_execution t c = record c { executions = t ∷ take 49 c.executions }

  -- The observers of one effect, which was set up for `symbol`.
  unfoldable pub on_event : Text → Event A → Client A → Client A
  on_event symbol connect c = record c { connected = true; sent = c.sent ++ subscribe symbol ∷ [] }
  on_event symbol disconnect c = record c { connected = false }
  on_event symbol (market_initial s spot depth indicators now) c =
      if text_eq s symbol then set_indicators symbol now spot indicators (set_depth depth c) else c
  on_event symbol (market_tick t) c =
      if text_eq t.symbol symbol then record c { tick = some t } else c
  on_event symbol (market_indicators i) c =
      if text_eq i.symbol symbol then record c { indicators = some i } else c
  on_event symbol (orderbook_update s depth) c =
      if text_eq s symbol then record c { order_book = depth } else c
  on_event symbol (trade_executed t) c = if text_eq t.symbol symbol then add_execution t c else c
  on_event symbol (observability_stats s) c = record c { stats = some s }
  on_event symbol wallet_refresh c = record c { refresh_timeout = true }
  on_event symbol refresh_due c =
      if c.refresh_timeout
      then record c { refresh_trigger = suc c.refresh_trigger; refresh_timeout = false }
      else c

  -- The effect's cleanup, when the page shows another symbol: the socket is closed, the states stay.
  unfoldable pub clean_up : Text → Client A → Client A
  clean_up symbol c = record c { refresh_timeout = false; sent = c.sent ++ unsubscribe symbol ∷ [] }

  abbrev pub on_events : Text → List (Event A) → Client A → Client A
  on_events symbol [] c = c
  on_events symbol (e ∷ es) c = on_events symbol es (on_event symbol e c)

  -- A page that shows one symbol after the other.
  abbrev pub show_all : List (Text × List (Event A)) → Client A → Client A
  show_all [] c = c
  show_all ((symbol, es) ∷ rest) c = show_all rest (clean_up symbol (on_events symbol es c))
