-- ===== src/Aru/Process.antt =====
-- `processCandle` of backend/src/services/aruAlgo.ts. The order of the steps is the source's: the
-- average true range is updated for the stop first and again for the directional index.
use aether_x.Prelude.{
  ℕ, List, [], ◌∷◌, ◌++◌, length, Option, none, some, Bool, true, false, ◌&&◌, if◌then◌else◌,
}
use aether_x.Aru.Numbers.{Numbers, abs_of, or_else}
use aether_x.Aru.Algo.{
  Candle, Params, AruAlgo, LabelType, primary_buy, primary_sell, simple_buy, simple_sell,
  SignalLabel, BarColor, buy_bar, sell_bar, plain_bar, Readings, AruAlgoResult, not_ready, ready,
  push_candle, or_value, ema, rma, true_range, compute_atr, update_averages, rsi_of,
}

-- The averages behind the directional index, and the index.
pub record Adx (N : Type 0) : Type 0 where
  pub plus_dm : N
  pub minus_dm : N
  pub tr_rma : N
  pub dx_rma : Option N
  pub adx : N

-- `trendDirection`: 1, -1 or 0.
pub data Direction : Type 0 where
  rising falling level : Direction

abbrev pub not_falling : Direction → Bool
not_falling falling = false
not_falling _ = true

abbrev pub not_rising : Direction → Bool
not_rising rising = false
not_rising _ = true

-- `buyCond` and `sellCond`, by their parts.
unfoldable pub confirmed : Bool → Bool → Bool → Bool → Bool → Bool
confirmed beyond crosses trend rsi strong = beyond && (beyond && crosses) && trend && rsi && strong

module _ {N : Type 0} (num : Numbers N) where
  abbrev pub trend_direction : N → N → Direction
  trend_direction src trend =
      if num.lt trend src then rising else if num.lt src trend then falling else level

  abbrev zero_n : N
  zero_n = num.of_nat 0

  -- `up` if it is above `down` and positive.
  abbrev pub movement : N → N → N
  movement up down = if num.lt down up && num.lt zero_n up then up else zero_n

  abbrev pub index_of : N → N → N → N
  index_of plus minus tr =
      let hundred = num.of_nat 100 in
      let plus_di = num.mul hundred (num.div plus tr) in
      let minus_di = num.mul hundred (num.div minus tr) in
      num.div (num.mul hundred (abs_of num (num.sub plus_di minus_di)))
        (or_else num (num.add plus_di minus_di) num.tiny)

  abbrev pub close_adx : ℕ → N → N → N → Option N → Adx N
  close_adx p plus minus tr dx =
      if num.is_zero tr
      then record { plus_dm = plus; minus_dm = minus; tr_rma = tr; dx_rma = dx; adx = zero_n }
      else let dx' = rma num p dx (index_of plus minus tr) in
        record { plus_dm = plus; minus_dm = minus; tr_rma = tr; dx_rma = some dx'; adx = dx' }

  -- `_updateADX`, with the average true range that it finds.
  abbrev pub update_adx : ℕ → Candle N → Candle N → N → AruAlgo N → Adx N
  update_adx p curr prev tr_rma a =
      let up = num.sub curr.high prev.high in
      let down = num.sub prev.low curr.low in
      close_adx p (rma num p a.plus_dm (movement up down)) (rma num p a.minus_dm (movement down up))
        (rma num p (some tr_rma) (true_range num prev curr)) a.dx_rma

  -- The trailing stop, from the one before and the closes of two candles.
  abbrev pub next_stop : N → N → N → N → N
  next_stop src prev_src prev_stop n_loss =
      if num.lt prev_stop src && num.lt prev_stop prev_src
      then num.max_of prev_stop (num.sub src n_loss)
      else if num.lt src prev_stop && num.lt prev_src prev_stop
      then num.min_of prev_stop (num.add src n_loss)
      else if num.lt prev_stop src
      then num.sub src n_loss
      else num.add src n_loss

  -- `_wasCrossOver`: whichever of the two comes first, the closes of before are compared in one order.
  abbrev pub was_cross_over : N → Option N → N → N → Bool
  was_cross_over prev_close last_smoothed a_now b_now =
      num.le prev_close (or_value last_smoothed b_now) && num.lt b_now a_now

  abbrev pub below : Option N → N → Bool
  below none x = false
  below (some y) x = num.lt y x

  abbrev pub above : Option N → N → Bool
  above none x = false
  above (some y) x = num.lt x y

  -- `lastSL` and `lastTP` after one of the four conditions.
  abbrev pub marked : Bool → N × N → Option N × Option N → Option N × Option N
  marked cond (sl, tp) last = if cond then (some sl, some tp) else last

  abbrev pub label : Bool → LabelType → ℕ → N → N × N → List (SignalLabel N)
  label cond type time price (sl, tp) =
      if cond
      then record {
        label_type = type;
        time = time;
        price = price;
        sl = num.to_cents sl;
        tp = num.to_cents tp;
      }
        ∷ []
      else []

  abbrev pub color : Bool → Bool → BarColor
  color buy_cond sell_cond = if buy_cond then buy_bar else if sell_cond then sell_bar else plain_bar

  -- What a candle says, when there is one before it.
  unfoldable pub evaluate : Params N → ℕ → Candle N → Candle N → AruAlgo N → Readings N × AruAlgo N
  evaluate p n c b a =
      let src = c.close in
      let atr = compute_atr num n p.atr_period a.tr_rma (true_range num b c) in
      let trend = ema num p.trend_ema_period a.trend_ema src in
      let averages = update_averages num p.rsi_period a.candles (num.sub src b.close) a.averages in
      let rsi = rsi_of num averages in
      let d = update_adx p.adx_period c b atr a in
      let prev_stop = or_value a.atr_stop_prev b.close in
      let stop = next_stop src b.close prev_stop (num.mul p.sensitivity atr) in
      let smoothed = ema num 5 a.stop_ema stop in
      let crosses_up = was_cross_over b.close a.last_smoothed src smoothed in
      let crosses_down = was_cross_over b.close a.last_smoothed smoothed src in
      let strong = num.lt p.adx_threshold d.adx in
      let buy_cond =
        confirmed (num.lt smoothed src) crosses_up (not_falling (trend_direction src trend))
          (below rsi p.rsi_oversold) strong in
      let sell_cond =
        confirmed (num.lt src smoothed) crosses_down (not_rising (trend_direction src trend))
          (above rsi p.rsi_overbought) strong in
      let long : N × N =
        (num.sub src (num.mul atr p.sl_multiplier), num.add src (num.mul atr p.tp_multiplier)) in
      let short : N × N =
        (num.add src (num.mul atr p.sl_multiplier), num.sub src (num.mul atr p.tp_multiplier)) in
      let (sl, tp) = marked crosses_down short (
        marked crosses_up long
          (marked sell_cond short (marked buy_cond long (a.last_sl, a.last_tp)))) in
      (
        record {
          time = c.time;
          close = src;
          atr = atr;
          smoothed_atr_stop = smoothed;
          trend_ema = trend;
          rsi = rsi;
          adx = d.adx;
          buy_cond = buy_cond;
          sell_cond = sell_cond;
          simple_buy_cond = crosses_up;
          simple_sell_cond = crosses_down;
          last_sl = sl;
          last_tp = tp;
          signal_labels =
              label buy_cond primary_buy c.time src long
              ++ label sell_cond primary_sell c.time src short
              ++ label crosses_up simple_buy c.time src long
              ++ label crosses_down simple_sell c.time src short;
          bar_color = color buy_cond sell_cond;
        },
        record {
          candles = a.candles;
          atr_stop_prev = some stop;
          last_sl = sl;
          last_tp = tp;
          last_smoothed = some smoothed;
          trend_ema = some trend;
          stop_ema = some smoothed;
          averages = averages;
          plus_dm = some d.plus_dm;
          minus_dm = some d.minus_dm;
          tr_rma = some d.tr_rma;
          dx_rma = d.dx_rma;
        },
      )

  abbrev pub answered : Readings N × AruAlgo N → AruAlgoResult N × AruAlgo N
  answered (r, a) = (ready r, a)

  abbrev pub process_pushed : Params N → List (Candle N) → AruAlgo N → AruAlgoResult N × AruAlgo N
  process_pushed p [] a = (not_ready, a)
  process_pushed p (c ∷ []) a = (not_ready, a)
  process_pushed p (c ∷ b ∷ cs) a = answered (evaluate p (length (c ∷ b ∷ cs)) c b a)

  unfoldable pub process_candle : Params N → Candle N → AruAlgo N → AruAlgoResult N × AruAlgo N
  process_candle p c a =
      let window = push_candle p c a.candles in
      process_pushed p window (record a { candles = window })

  abbrev pub process_all : Params N → List (Candle N) → AruAlgo N → AruAlgo N
  process_all p [] a = a
  process_all p (c ∷ cs) a = process_all p cs (process_candle p c a).1
