-- ===== src/Chart/Tests.antt =====
-- Witnesses for the chart's indicators, over numbers whose operations are those of ℕ.
use aether_x.Prelude.{
  ℕ, ◌+◌, ◌-◌, ◌*◌, ◌==◌, List, [], ◌∷◌, ltb, leb, min, max, ◌/◌, if◌then◌else◌, arith,
}
use aether_x.Aru.Numbers.{Numbers}
use aether_x.Chart.Math.{Bar}
use aether_x.Chart.Aligned.{AreAligned, indicators-AreAligned}
use aether_x.Prelude.Text.{codes}
use aether_x.Chart.Backfill.{IsBackwards, mock_history, mock_history-IsBackwards}
use aether_x.Chart.Stable.{IsStable, indicators-IsStable}

-- Division is that of whole numbers, and 0 by 0.
abbrev naturals : Numbers ℕ
naturals = record {
  lt = ltb;
  le = leb;
  is_zero = λ n. n == 0;
  add = ◌+◌;
  sub = ◌-◌;
  mul = ◌*◌;
  div = λ a b. if b == 0 then 0 else a / b;
  max_of = max;
  min_of = min;
  of_nat = λ n. n;
  tiny = 1;
  to_cents = λ n. n;
}

abbrev bar : ℕ → ℕ → Bar ℕ
bar time close = record {
  time = time;
  high = close + 2;
  low = close - 2;
  close = close;
  volume = 7;
}

abbrev bars : List (Bar ℕ)
bars = bar 0 100 ∷ bar 60 104 ∷ bar 120 99 ∷ []

indicators-AreAligned_example : AreAligned naturals 2 bars
indicators-AreAligned_example = indicators-AreAligned naturals 2 bars (omega arith)

indicators-IsStable_example : IsStable naturals 2 bars (bar 180 101 ∷ [])
indicators-IsStable_example = indicators-IsStable naturals 2 bars (bar 180 101 ∷ [])

-- Each step of the walk drops by the same draw.
mock_history-IsBackwards_example :
    IsBackwards naturals
      (λ i. (3, 1, 1))
      ((1000000 - 120 * 60) * 1000)
      (1000000 * 1000)
      60
      84
      (mock_history naturals (λ i. (3, 1, 1)) 1000000 (codes "1m") 84)
mock_history-IsBackwards_example =
    mock_history-IsBackwards naturals (λ i. (3, 1, 1)) 1000000 (codes "1m") 84 (omega arith)
