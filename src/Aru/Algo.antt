-- ===== src/Aru/Algo.antt =====
-- `class AruAlgo` of backend/src/services/aruAlgo.ts. `_candles` is a list with the newest candle first;
-- the two keys that `_emaCache` ever has are fields; what is null is `none`, and so is a stop or a
-- target that is NaN. The texts of the labels are left out: they show the label's stop and target.
use aether_x.Prelude.{
  ℕ, zero, suc, ◌+◌, ◌-◌, ◌*◌, max, List, [], ◌∷◌, length, Option, none, some, Bool, ◌==◌, ltb, leb,
  if◌then◌else◌,
}
use aether_x.Aru.Numbers.{Numbers, abs_of}

pub record Candle (N : Type 0) : Type 0 where
  pub time : ℕ
  pub open_price : N
  pub high : N
  pub low : N
  pub close : N
  pub volume : N

pub record Params (N : Type 0) : Type 0 where
  pub sensitivity : N
  pub atr_period : ℕ
  pub trend_ema_period : ℕ
  pub rsi_period : ℕ
  pub rsi_overbought : N
  pub rsi_oversold : N
  pub adx_period : ℕ
  pub adx_threshold : N
  pub sl_multiplier : N
  pub tp_multiplier : N

pub record AruAlgo (N : Type 0) : Type 0 where
  pub candles : List (Candle N)
  pub atr_stop_prev : Option N
  pub last_sl : Option N
  pub last_tp : Option N
  pub last_smoothed : Option N
  pub trend_ema : Option N
  pub stop_ema : Option N
  pub averages : Option (N × N)
  pub plus_dm : Option N
  pub minus_dm : Option N
  pub tr_rma : Option N
  pub dx_rma : Option N

abbrev pub new_algo : {N : Type 0} → AruAlgo N
new_algo = record {
  candles = [];
  atr_stop_prev = none;
  last_sl = none;
  last_tp = none;
  last_smoothed = none;
  trend_ema = none;
  stop_ema = none;
  averages = none;
  plus_dm = none;
  minus_dm = none;
  tr_rma = none;
  dx_rma = none;
}

pub data LabelType : Type 0 where
  primary_buy primary_sell simple_buy simple_sell : LabelType

pub record SignalLabel (N : Type 0) : Type 0 where
  pub label_type : LabelType
  pub time : ℕ
  pub price : N
  pub sl : N
  pub tp : N

pub data BarColor : Type 0 where
  buy_bar sell_bar plain_bar : BarColor

pub record Readings (N : Type 0) : Type 0 where
  pub time : ℕ
  pub close : N
  pub atr : N
  pub smoothed_atr_stop : N
  pub trend_ema : N
  pub rsi : Option N
  pub adx : N
  pub buy_cond : Bool
  pub sell_cond : Bool
  pub simple_buy_cond : Bool
  pub simple_sell_cond : Bool
  pub last_sl : Option N
  pub last_tp : Option N
  pub signal_labels : List (SignalLabel N)
  pub bar_color : BarColor

pub data AruAlgoResult (N : Type 0) : Type 0 where
  not_ready : AruAlgoResult N
  ready : Readings N → AruAlgoResult N

abbrev pub max_len : {N : Type 0} → Params N → ℕ
max_len p = max 5000 (p.atr_period * 10)

-- The oldest candle goes.
abbrev pub drop_last : {N : Type 0} → List (Candle N) → List (Candle N)
drop_last [] = []
drop_last (c ∷ []) = []
drop_last (c ∷ d ∷ cs) = c ∷ drop_last (d ∷ cs)

unfoldable pub push_candle : {N : Type 0} → Params N → Candle N → List (Candle N) → List (Candle N)
push_candle p c cs =
    let window = c ∷ cs in if ltb (max_len p) (length window) then drop_last window else window

abbrev pub or_value : {N : Type 0} → Option N → N → N
or_value none x = x
or_value (some y) x = y

module _ {N : Type 0} (num : Numbers N) where
  abbrev pub ema : ℕ → Option N → N → N
  ema period none value = value
  ema period (some prev) value =
      let k = num.div (num.of_nat 2) (num.of_nat (period + 1)) in
      num.add (num.mul (num.sub value prev) k) prev

  abbrev pub rma : ℕ → Option N → N → N
  rma period none value = value
  rma period (some prev) value =
      num.div (num.add (num.mul prev (num.of_nat (period - 1))) value) (num.of_nat period)

  abbrev pub true_range : Candle N → Candle N → N
  true_range prev curr =
      num.max_of
        (num.max_of (num.sub curr.high curr.low) (abs_of num (num.sub curr.high prev.close)))
        (abs_of num (num.sub curr.low prev.close))

  -- `_computeATRUsingRMA`, where there are two candles: the first range starts the average again.
  abbrev pub compute_atr : ℕ → ℕ → Option N → N → N
  compute_atr n period tr_rma tr = if n == 2 then tr else rma period tr_rma tr

  abbrev pub gain : N → N
  gain change = num.max_of change (num.of_nat 0)

  abbrev pub loss : N → N
  loss change = num.max_of (num.sub (num.of_nat 0) change) (num.of_nat 0)

  -- The gains, or the losses, of the newest changes, oldest of them first.
  abbrev pub sum_changes : (N → N) → ℕ → List (Candle N) → N
  sum_changes part zero cs = num.of_nat 0
  sum_changes part (suc k) [] = num.of_nat 0
  sum_changes part (suc k) (c ∷ []) = num.of_nat 0
  sum_changes part (suc k) (c ∷ b ∷ cs) =
      num.add (sum_changes part k (b ∷ cs)) (part (num.sub c.close b.close))

  -- `_rsiCache` after the newest change.
  abbrev pub update_averages : ℕ → List (Candle N) → N → Option (N × N) → Option (N × N)
  update_averages p cs change none =
      if leb (p + 1) (length cs)
      then some (
        num.div (sum_changes gain p cs) (num.of_nat p),
        num.div (sum_changes loss p cs) (num.of_nat p),
      )
      else none
  update_averages p cs change (some (g, l)) =
      some (rma p (some g) (gain change), rma p (some l) (loss change))

  abbrev pub rsi_of : Option (N × N) → Option N
  rsi_of none = none
  rsi_of (some (g, l)) =
      let rs = if num.is_zero l then num.of_nat 100 else num.div g l in
      some (num.sub (num.of_nat 100) (num.div (num.of_nat 100) (num.add (num.of_nat 1) rs)))
