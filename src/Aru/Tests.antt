-- ===== src/Aru/Tests.antt =====
-- The integers as the numbers, with a division that drops the remainder, and a few candles and ticks.
use aether_x.Prelude.{
  ℕ, ◌+◌, ◌/◌, ◌≡◌, refl, List, [], ◌∷◌, some, Bool, not, ◌&&◌, if◌then◌else◌, arith,
}
use aether_x.Prelude.Int.{ℤ, pos, pos_part, neg_part, sub_ℕ, ltb_ℤ, ◌+ℤ◌, ◌-ℤ◌, ◌*ℤ◌}
use aether_x.Aru.Numbers.{Numbers, IsOrder}
use aether_x.Aru.Algo.{Candle, Params, AruAlgo, new_algo, Readings, ready, push_candle}
use aether_x.Aru.Process.{evaluate, process_candle, process_all}
use aether_x.Aru.Signals.{AreConsistent, process_candle-AreConsistent}
use aether_x.Aru.Service.{SymbolCandleState, Tick, on_ticks}
use aether_x.Aru.Candles.{IsCandle, IsChart, on_ticks-IsChart}

abbrev is_zero_ℤ : ℤ → Bool
is_zero_ℤ n = not (ltb_ℤ n (pos 0)) && not (ltb_ℤ (pos 0) n)

abbrev le_ℤ : ℤ → ℤ → Bool
le_ℤ a b = not (ltb_ℤ b a)

abbrev div_ℤ : ℤ → ℤ → ℤ
div_ℤ a b =
    let size : ℕ = pos_part b + neg_part b in
    if ltb_ℤ b (pos 0)
    then sub_ℕ (neg_part a / size) (pos_part a / size)
    else sub_ℕ (pos_part a / size) (neg_part a / size)

abbrev integers : Numbers ℤ
integers = record {
  lt = ltb_ℤ;
  le = le_ℤ;
  is_zero = is_zero_ℤ;
  add = ◌+ℤ◌;
  sub = ◌-ℤ◌;
  mul = ◌*ℤ◌;
  div = div_ℤ;
  max_of = λ a b. if ltb_ℤ a b then b else a;
  min_of = λ a b. if ltb_ℤ a b then a else b;
  of_nat = pos;
  tiny = pos 1;
  to_cents = λ a. a;
}

integers-IsOrder : IsOrder integers
integers-IsOrder = record {
  lt_asym = λ a b h. ground (arith, h);
  lt-le = λ a b h. ground (arith, h);
  le_refl = λ a. ground arith;
  le_trans = λ a b c h k. ground (arith, h, k);
  le_max_left = λ a b. ground arith;
  le_max_right = λ a b. ground arith;
  min_le_left = λ a b. ground arith;
  min_le_right = λ a b. ground arith;
}

abbrev params : Params ℤ
params = record {
  sensitivity = pos 1;
  atr_period = 20;
  trend_ema_period = 50;
  rsi_period = 14;
  rsi_overbought = pos 60;
  rsi_oversold = pos 40;
  adx_period = 14;
  adx_threshold = pos 15;
  sl_multiplier = pos 2;
  tp_multiplier = pos 2;
}

abbrev candle : ℕ → ℕ → Candle ℤ
candle time price = record {
  time = time;
  open_price = pos price;
  high = pos (price + 1);
  low = pos price;
  close = pos price;
  volume = pos 5;
}

abbrev three_candles : List (Candle ℤ)
three_candles = candle 10 100 ∷ candle 20 110 ∷ candle 30 120 ∷ []

abbrev fed : AruAlgo ℤ
fed = process_all integers params (candle 10 100 ∷ candle 20 110 ∷ []) new_algo

abbrev last_readings : Readings ℤ
last_readings =
    (evaluate integers params 3 (candle 30 120) (candle 20 110)
      (record fed { candles = candle 30 120 ∷ candle 20 110 ∷ candle 10 100 ∷ [] })).0

fed-ready : (process_candle integers params (candle 30 120) fed).0 ≡ ready last_readings
unfolding process_candle push_candle evaluate
fed-ready = refl

process_candle-AreConsistent_example : AreConsistent integers integers-IsOrder last_readings
process_candle-AreConsistent_example =
    process_candle-AreConsistent integers integers-IsOrder params (candle 30 120) fed last_readings
      fed-ready

abbrev trailing : AruAlgo ℤ
trailing = record new_algo { atr_stop_prev = some (pos 90); last_smoothed = some (pos 95) }

abbrev live : SymbolCandleState ℤ
live = record {
  current_candle = some (candle 30 120);
  algo = record new_algo { candles = candle 20 110 ∷ candle 10 100 ∷ [] };
  interval_sec = 10;
}

abbrev tick : ℕ → ℕ → Tick ℤ
tick price timestamp = record { price = pos price; quantity = pos 1; timestamp = timestamp }

abbrev ticks : List (Tick ℤ)
ticks = tick 125 31000 ∷ tick 115 42500 ∷ tick 90 39000 ∷ []

candle-IsCandle : (time price : ℕ) → IsCandle integers (candle time price)
candle-IsCandle time price = record {
  low_open = ground arith;
  open_high = ground arith;
  low_close = ground arith;
  close_high = ground arith;
}

on_ticks-IsChart_example : IsChart integers (on_ticks integers params ticks live).0
on_ticks-IsChart_example = on_ticks-IsChart integers integers-IsOrder params ticks live (record {
  active = candle 30 120;
  open_now = refl;
  formed = candle-IsCandle 30 120;
  closed = (omega arith, candle-IsCandle 20 110, (omega arith, candle-IsCandle 10 100, tt));
})
