-- ===== src/Chart/Backfill.antt =====
-- The candles that `getMarketHistory` of backend/src/controllers/market.ts makes up when the exchange
-- does not answer. `draw` has the three random numbers of each turn of the loop; the fields of a candle
-- that are constants are left out.
use mathlib.Core.Path.{subst}
use aether_x.Prelude.{
  ℕ, zero, suc, ◌+◌, ◌-◌, ◌*◌, ◌≤◌, ◌≡◌, refl, List, [], ◌∷◌, arith, if◌then◌else◌,
}
use aether_x.Prelude.Text.{Text, codes, text_eq}
use aether_x.Aru.Numbers.{Numbers, or_else}

pub record Kline (N : Type 0) : Type 0 where
  pub open_time : ℕ
  pub open_price : N
  pub high : N
  pub low : N
  pub close : N
  pub close_time : ℕ

abbrev pub timeframe_sec : Text → ℕ
timeframe_sec interval =
    if text_eq interval (codes "30m")
    then 1800
    else if text_eq interval (codes "15m")
    then 900
    else if text_eq interval (codes "5m")
    then 300
    else 60

timeframe_sec-positive : (interval : Text) → 1 ≤ timeframe_sec interval
timeframe_sec-positive interval = ground arith

zero_mul : (n : ℕ) → 0 * n ≡ 0
zero_mul n = omega arith

suc_mul : (i n : ℕ) → suc i * n ≡ n + i * n
suc_mul i n = ground arith

-- `getCurrentPrice(...) || ...`, on the spot price of the feed.
abbrev pub seed_price : {N : Type 0} → Numbers N → Text → N → N
seed_price num symbol spot = or_else num spot (
    num.of_nat (
      if text_eq symbol (codes "BTCUSDT")
      then 76650
      else if text_eq symbol (codes "ETHUSDT")
      then 2090
      else 84))

module _ {N : Type 0} (num : Numbers N) (draw : ℕ → N × N × N) where
  abbrev fraction : ℕ → ℕ → N
  fraction a b = num.div (num.of_nat a) (num.of_nat b)

  abbrev pub mock_candle : ℕ → ℕ → N → N × N × N → Kline N
  mock_candle open_time step price (r, s, t) =
      let change = num.mul (num.sub r (fraction 1 2)) (num.mul price (fraction 6 10000)) in
      let start = num.sub price change in
      record {
        open_time = open_time;
        open_price = start;
        high = num.add (num.max_of start price) (num.mul (num.mul s price) (fraction 2 10000));
        low = num.sub (num.min_of start price) (num.mul (num.mul t price) (fraction 2 10000));
        close = price;
        close_time = open_time + step * 1000 - 1;
      }

  -- `for (let i = 120; i > 0; i--)`, from `i` on.
  unfoldable pub mock_from : ℕ → ℕ → ℕ → N → List (Kline N)
  mock_from now step zero price = []
  mock_from now step (suc i) price =
      let candle = mock_candle ((now - suc i * step) * 1000) step price (draw (suc i)) in
      candle ∷ mock_from now step i candle.open_price

  abbrev pub mock_history : ℕ → Text → N → List (Kline N)
  mock_history now interval price = mock_from now (timeframe_sec interval) 120 price

  -- Candles from a time on, without a gap up to another, the first of which closes at a price; each one
  -- behind closes where the one before it opened.
  abbrev pub IsBackwards : ℕ → ℕ → ℕ → N → List (Kline N) → Type 0
  IsBackwards time last step price [] = time ≡ last
  IsBackwards time last step price (c ∷ cs) =
      (c.open_time ≡ time)
      × (suc c.close_time ≡ time + step * 1000)
      × (c.close ≡ price)
      × IsBackwards (time + step * 1000) last step c.open_price cs

  mock_from-IsBackwards :
      (i now step : ℕ) (price : N)
      → 1 ≤ step
      → i * step ≤ now
      → IsBackwards ((now - i * step) * 1000) (now * 1000) step price (mock_from now step i price)
  unfolding mock_from
  mock_from-IsBackwards zero now step price h k = omega (arith, zero_mul step)
  mock_from-IsBackwards (suc i) now step price h k =
      let next : (now - i * step) * 1000 ≡ (now - suc i * step) * 1000 + step * 1000 =
        omega (arith, k, suc_mul i step) in
      let rest =
        mock_from-IsBackwards i now step (mock_candle 0 step price (draw (suc i))).open_price h
          (omega (arith, k, suc_mul i step)) in
      (
        refl,
        omega (arith, h),
        refl,
        subst
            (λ time.
              IsBackwards time (now * 1000) step
                (mock_candle 0 step price (draw (suc i))).open_price
                (mock_from now step i (mock_candle 0 step price (draw (suc i))).open_price))
            next rest,
      )

  -- Where the clock is past the candles that are made up: they follow one another without a gap up to
  -- the clock, the first of them closes at the price that it was asked for, and each one behind closes
  -- where the one before it opened.
  pub mock_history-IsBackwards :
      (now : ℕ) (interval : Text) (price : N)
      → 120 * timeframe_sec interval ≤ now
      → IsBackwards
          ((now - 120 * timeframe_sec interval) * 1000)
          (now * 1000)
          (timeframe_sec interval)
          price
          (mock_history now interval price)
  mock_history-IsBackwards now interval price k =
      mock_from-IsBackwards 120 now (timeframe_sec interval) price (timeframe_sec-positive interval)
        k
