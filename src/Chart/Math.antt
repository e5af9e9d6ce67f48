-- ===== src/Chart/Math.antt =====
-- The indicator functions of frontend/src/components/TVChart.tsx, over an interface of numbers. The
-- loops that look at a candle and the one before it run along the list with the one before in hand.
use aether_x.Prelude.{ℕ, suc, ◌-◌, List, [], ◌∷◌, ◌++◌, map, take, ◌&&◌, length, leb, if◌then◌else◌}
use aether_x.Aru.Numbers.{Numbers, abs_of, or_else}
use aether_x.Front.Depth.{drop}

pub record Bar (N : Type 0) : Type 0 where
  pub time : ℕ
  pub high : N
  pub low : N
  pub close : N
  pub volume : N

pub record LineData (N : Type 0) : Type 0 where
  pub time : ℕ
  pub value : N

pub record Bands (N : Type 0) : Type 0 where
  pub upper : List (LineData N)
  pub lower : List (LineData N)
  pub atr_values : List N

-- What one candle adds to the directional movement.
pub record Movement (N : Type 0) : Type 0 where
  pub plus : N
  pub minus : N
  pub range : N

module _ {N : Type 0} (num : Numbers N) where
  abbrev point : ℕ → N → LineData N
  point time value = record { time = time; value = value }

  -- `(average * (period - 1) + x) / period`
  abbrev pub rma : ℕ → N → N → N
  rma period average x =
      num.div (num.add (num.mul average (num.of_nat (period - 1))) x) (num.of_nat period)

  -- `Math.max(a, b, c)` of the ranges of a candle after another.
  abbrev pub true_range : Bar N → Bar N → N
  true_range prev curr =
      num.max_of
        (num.max_of (num.sub curr.high curr.low) (abs_of num (num.sub curr.high prev.close)))
        (abs_of num (num.sub curr.low prev.close))

  abbrev pub ema_from : N → N → List (Bar N) → List (LineData N)
  ema_from k prev_ema [] = []
  ema_from k prev_ema (c ∷ cs) =
      let value = num.add (num.mul c.close k) (num.mul prev_ema (num.sub (num.of_nat 1) k)) in
      point c.time value ∷ ema_from k value cs

  unfoldable pub compute_ema : ℕ → List (Bar N) → List (LineData N)
  compute_ema period [] = []
  compute_ema period (c ∷ cs) =
      let k = num.div (num.of_nat 2) (num.add (num.of_nat period) (num.of_nat 1)) in
      point c.time c.close ∷ ema_from k c.close cs

  abbrev pub vwap_from : N → N → List (Bar N) → List (LineData N)
  vwap_from cum_tp_vol cum_vol [] = []
  vwap_from cum_tp_vol cum_vol (c ∷ cs) =
      let typical_price = num.div (num.add (num.add c.high c.low) c.close) (num.of_nat 3) in
      let vol = or_else num c.volume (num.of_nat 1) in
      let tp_vol = num.add cum_tp_vol (num.mul typical_price vol) in
      let all_vol = num.add cum_vol vol in
      point c.time (num.div tp_vol all_vol) ∷ vwap_from tp_vol all_vol cs

  unfoldable pub compute_vwap : List (Bar N) → List (LineData N)
  compute_vwap = vwap_from (num.of_nat 0) (num.of_nat 0)

  abbrev pub ranges_after : Bar N → List (Bar N) → List N
  ranges_after prev [] = []
  ranges_after prev (c ∷ cs) = true_range prev c ∷ ranges_after c cs

  abbrev pub averages_from : ℕ → N → List N → List N
  averages_from period average [] = []
  averages_from period average (x ∷ xs) =
      let next = rma period average x in next ∷ averages_from period next xs

  -- `close + 1.5 * atr` and `close - 1.5 * atr`, by the operation.
  abbrev pub band : (N → N → N) → List (Bar N) → List N → List (LineData N)
  band side [] atrs = []
  band side (c ∷ cs) [] = []
  band side (c ∷ cs) (atr ∷ atrs) =
      point c.time (side c.close (num.mul (num.div (num.of_nat 3) (num.of_nat 2)) atr))
      ∷ band side cs atrs

  abbrev pub atr_list : ℕ → Bar N → List (Bar N) → List N
  atr_list period c cs =
      let first = num.sub c.high c.low in first ∷ averages_from period first (ranges_after c cs)

  unfoldable pub compute_atr_bands : ℕ → List (Bar N) → Bands N
  compute_atr_bands period [] = record { upper = []; lower = []; atr_values = [] }
  compute_atr_bands period (c ∷ cs) =
      let atrs = atr_list period c cs in
      record {
        upper = band num.add (c ∷ cs) atrs;
        lower = band num.sub (c ∷ cs) atrs;
        atr_values = atrs;
      }

  -- The changes between neighbours: gains and losses.
  abbrev pub change : Bar N → Bar N → N × N
  change prev c =
      let diff = num.sub c.close prev.close in
      (num.max_of diff (num.of_nat 0), num.max_of (num.sub (num.of_nat 0) diff) (num.of_nat 0))

  abbrev pub changes_after : Bar N → List (Bar N) → List (N × N)
  changes_after prev [] = []
  changes_after prev (c ∷ cs) = change prev c ∷ changes_after c cs

  abbrev pub sum_changes : List (N × N) → N × N → N × N
  sum_changes [] sums = sums
  sum_changes ((gain, loss) ∷ rest) (gains, losses) =
      sum_changes rest (num.add gains gain, num.add losses loss)

  -- The averages before the loop: of the first `period` changes, or the first change alone.
  abbrev pub first_averages : ℕ → N × N → List (N × N) → N × N
  first_averages period first rest =
      let (gains, losses) = sum_changes (take period (first ∷ rest)) (num.of_nat 0, num.of_nat 0) in
      if leb period (length (first ∷ rest))
      then (num.div gains (num.of_nat period), num.div losses (num.of_nat period))
      else first

  abbrev pub rsi_value : N → N → N
  rsi_value avg_gain avg_loss =
      let rs = if num.is_zero avg_loss then num.of_nat 100 else num.div avg_gain avg_loss in
      num.sub (num.of_nat 100) (num.div (num.of_nat 100) (num.add (num.of_nat 1) rs))

  abbrev pub rsi_from : ℕ → N × N → List (N × N) → List (Bar N) → List (LineData N)
  rsi_from period averages [] cs = []
  rsi_from period averages (change ∷ changes) [] = []
  rsi_from period averages (change ∷ changes) (c ∷ cs) =
      let gain = rma period averages.0 change.0 in
      let loss = rma period averages.1 change.1 in
      point c.time (rsi_value gain loss) ∷ rsi_from period (gain, loss) changes cs

  abbrev pub neutral : List (Bar N) → List (LineData N)
  neutral = map (λ (c : Bar N). point c.time (num.of_nat 50))

  unfoldable pub compute_rsi : ℕ → List (Bar N) → List (LineData N)
  compute_rsi period [] = []
  compute_rsi period (c ∷ []) = []
  compute_rsi period (c ∷ d ∷ cs) =
      let averages = first_averages period (change c d) (changes_after d cs) in
      neutral (take (suc period) (c ∷ d ∷ cs))
      ++ rsi_from period averages (drop period (changes_after c (d ∷ cs))) (drop period (d ∷ cs))

  abbrev pub movement : Bar N → Bar N → Movement N
  movement prev curr =
      let up = num.sub curr.high prev.high in
      let down = num.sub prev.low curr.low in
      let zero_value = num.of_nat 0 in
      record {
        plus = if num.lt down up && num.lt zero_value up then up else zero_value;
        minus = if num.lt up down && num.lt zero_value down then down else zero_value;
        range = true_range prev curr;
      }

  abbrev pub movements_after : Bar N → List (Bar N) → List (Movement N)
  movements_after prev [] = []
  movements_after prev (c ∷ cs) = movement prev c ∷ movements_after c cs

  abbrev pub di : N → N → N
  di tr_rma dm_rma =
      if num.is_zero tr_rma then num.of_nat 0 else num.mul (num.of_nat 100) (num.div dm_rma tr_rma)

  abbrev pub dx_from : ℕ → Movement N → List (Movement N) → List N
  dx_from period average [] = []
  dx_from period average (m ∷ ms) =
      let next : Movement N = record {
        plus = rma period average.plus m.plus;
        minus = rma period average.minus m.minus;
        range = rma period average.range m.range;
      } in
      let plus_di = di next.range next.plus in
      let minus_di = di next.range next.minus in
      num.mul
        (num.div (abs_of num (num.sub plus_di minus_di))
          (or_else num (num.add plus_di minus_di) num.tiny))
        (num.of_nat 100)
      ∷ dx_from period next ms

  -- The first value stays at the 15 that the array was filled with.
  unfoldable pub compute_adx : ℕ → List (Bar N) → List N
  compute_adx period [] = []
  compute_adx period (c ∷ cs) =
      let start : Movement N = record {
        plus = num.of_nat 0;
        minus = num.of_nat 0;
        range = num.sub c.high c.low;
      } in
      num.of_nat 15
      ∷ averages_from period (num.of_nat 0) (dx_from period start (movements_after c cs))
