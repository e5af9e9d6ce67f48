-- ===== src/Aru/Service.antt =====
-- `AruAlgoService` of backend/src/services/aruAlgoService.ts, for one symbol: the map of states has one
-- for each, and no handler touches another's. The candles that `seedInitialCandles` draws at random
-- are in the state that a run starts from. What is published on the indicator topic is a list.
use aether_x.Prelude.{ℕ, ◌*◌, ◌/◌, List, [], ◌∷◌, ◌++◌, Option, none, some, ltb, if◌then◌else◌}
use aether_x.Aru.Numbers.{Numbers}
use aether_x.Aru.Algo.{Candle, Params, AruAlgo, Readings, AruAlgoResult, not_ready, ready}
use aether_x.Aru.Process.{process_candle}

pub record SymbolCandleState (N : Type 0) : Type 0 where
  pub current_candle : Option (Candle N)
  pub algo : AruAlgo N
  pub interval_sec : ℕ

pub record Tick (N : Type 0) : Type 0 where
  pub price : N
  pub quantity : N
  pub timestamp : ℕ

pub record Indicators (N : Type 0) : Type 0 where
  pub candle : Candle N
  pub readings : Readings N

-- The start of the interval that a time in milliseconds falls into.
abbrev pub candle_time : ℕ → ℕ → ℕ
candle_time interval_sec timestamp = timestamp / 1000 / interval_sec * interval_sec

abbrev pub publish_ready : {N : Type 0} → Candle N → AruAlgoResult N → List (Indicators N)
publish_ready c not_ready = []
publish_ready c (ready r) = record { candle = c; readings = r } ∷ []

abbrev pub open_candle : {N : Type 0} → ℕ → Tick N → Candle N
open_candle time t = record {
  time = time;
  open_price = t.price;
  high = t.price;
  low = t.price;
  close = t.price;
  volume = t.quantity;
}

module _ {N : Type 0} (num : Numbers N) (p : Params N) where
  abbrev pub update_candle : Tick N → Candle N → Candle N
  update_candle t c = record c {
    high = num.max_of c.high t.price;
    low = num.min_of c.low t.price;
    close = t.price;
    volume = num.add c.volume t.quantity;
  }

  abbrev pub close_candle :
      Candle N → ℕ → Tick N → SymbolCandleState N → SymbolCandleState N × List (Indicators N)
  close_candle active time t s =
      let (result, algo) = process_candle num p active s.algo in
      (
        record s { current_candle = some (open_candle time t); algo = algo },
        publish_ready active result,
      )

  -- The handler, by the candle that is open and the start of the tick's interval.
  abbrev pub tick_at :
      Option (Candle N)
      → ℕ
      → Tick N
      → SymbolCandleState N
      → SymbolCandleState N × List (Indicators N)
  tick_at none time t s = (record s { current_candle = some (open_candle time t) }, [])
  tick_at (some active) time t s =
      if ltb active.time time
      then close_candle active time t s
      else (record s { current_candle = some (update_candle t active) }, [])

  unfoldable pub on_tick : Tick N → SymbolCandleState N → SymbolCandleState N × List (Indicators N)
  on_tick t s = tick_at s.current_candle (candle_time s.interval_sec t.timestamp) t s

  abbrev pub on_ticks :
      List (Tick N) → SymbolCandleState N → SymbolCandleState N × List (Indicators N)
  on_ticks [] s = (s, [])
  on_ticks (t ∷ ts) s =
      let (s', out) = on_tick t s in let (s'', outs) = on_ticks ts s' in (s'', out ++ outs)

  -- The clone that `getLatestIndicators` works on has its own numbers, but shares `_candles`,
  -- `_emaCache` and `_rsiCache` with the instance.
  abbrev pub shared_with : AruAlgo N → AruAlgo N → AruAlgo N
  shared_with a clone = record a {
    candles = clone.candles;
    trend_ema = clone.trend_ema;
    stop_ema = clone.stop_ema;
    averages = clone.averages;
  }

  abbrev pub latest_of :
      Option (Candle N) → SymbolCandleState N → Option (AruAlgoResult N) × SymbolCandleState N
  latest_of none s = (none, s)
  latest_of (some c) s =
      let (result, clone) = process_candle num p c s.algo in
      (some result, record s { algo = shared_with s.algo clone })

  unfoldable pub get_latest_indicators :
      SymbolCandleState N → Option (AruAlgoResult N) × SymbolCandleState N
  get_latest_indicators s = latest_of s.current_candle s
