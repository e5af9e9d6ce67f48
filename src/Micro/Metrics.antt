-- ===== src/Micro/Metrics.antt =====
-- `class MicrostructureAnalytics` of backend/src/services/microstructureAnalytics.ts, with exact
-- fractions where the code has floating-point ones. Prices are cents and volumes ten-thousandths, so
-- that `toFixed` of a sum of them changes nothing; a metric with a fixed number of decimals is a whole
-- number of its last decimal.
use aether_x.Prelude.{
  ℕ, ◌+◌, ◌-◌, ◌*◌, ◌/◌, min, List, [], ◌∷◌, ◌++◌, length, take, keep, total, ltb, leb, ◌==◌,
  if◌then◌else◌,
}
use aether_x.Prelude.Int.{ℤ, pos, pos_part, neg_part, sub_ℕ, ltb_ℤ, ◌-ℤ◌, ◌*ℤ◌}

pub record OrderBookLevel : Type 0 where
  pub price : ℕ
  pub volume : ℕ

-- The nearest whole number to a fraction, half up.
abbrev pub round_div : ℕ → ℕ → ℕ
round_div n d = (2 * n + d) / (2 * d)

-- `toFixed`, on a fraction in units of the last decimal: half away from zero.
unfoldable pub to_fixed : ℤ → ℕ → ℤ
to_fixed n d =
    if ltb_ℤ n (pos 0) then sub_ℕ 0 (round_div (neg_part n) d) else pos (round_div (pos_part n) d)

pub record SpreadMetrics : Type 0 where
  pub absolute : ℤ
  pub bps : ℤ
  pub mid_price : ℕ
  pub best_bid : ℕ
  pub best_ask : ℕ

pub record DepthMetrics : Type 0 where
  pub bid_depth_total : ℕ
  pub ask_depth_total : ℕ
  pub depth_ratio : ℕ
  pub bid_depth5 : ℕ
  pub ask_depth5 : ℕ

pub data Pressure : Type 0 where
  strong_buy buying neutral selling strong_sell : Pressure

pub record OrderFlowMetrics : Type 0 where
  pub imbalance : ℤ
  pub pressure : Pressure
  pub pressure_score : ℕ

pub record MarketImpactEstimate : Type 0 where
  pub buy_impact_bps : ℕ
  pub sell_impact_bps : ℕ
  pub effective_liquidity_usd : ℕ

pub data VolatilityState : Type 0 where
  expansion compression steady : VolatilityState

pub record MicrostructureSnapshot : Type 0 where
  pub spread : SpreadMetrics
  pub depth : DepthMetrics
  pub order_flow : OrderFlowMetrics
  pub impact : MarketImpactEstimate
  pub liquidity_score : ℕ
  pub volatility_state : VolatilityState

-- The best price, or a part of the tick's price, in ten-thousandths of a cent.
abbrev pub best_price : List OrderBookLevel → ℕ → ℕ → ℕ
best_price [] tick_price part = tick_price * part
best_price (l ∷ ls) tick_price part = l.price * 10000

unfoldable pub compute_spread : List OrderBookLevel → List OrderBookLevel → ℕ → SpreadMetrics
compute_spread bids asks tick_price =
    let best_bid = best_price bids tick_price 9999 in
    let best_ask = best_price asks tick_price 10001 in
    let both : ℕ = best_bid + best_ask in
    let absolute = sub_ℕ best_ask best_bid in
    record {
      absolute = to_fixed absolute 10000;
      bps = if ltb 0 both then to_fixed (absolute *ℤ pos 20000000) both else pos 0;
      mid_price = round_div both 20000;
      best_bid = round_div best_bid 10000;
      best_ask = round_div best_ask 10000;
    }

abbrev pub volume_of : List OrderBookLevel → ℕ
volume_of = total (λ l. l.volume)

unfoldable pub compute_depth : List OrderBookLevel → List OrderBookLevel → DepthMetrics
compute_depth bids asks =
    let bid_depth_total = volume_of (take 10 bids) in
    let ask_depth_total = volume_of (take 10 asks) in
    record {
      bid_depth_total = bid_depth_total;
      ask_depth_total = ask_depth_total;
      depth_ratio =
          if ltb 0 ask_depth_total
          then round_div (bid_depth_total * 1000) ask_depth_total
          else 1000;
      bid_depth5 = volume_of (take 5 bids);
      ask_depth5 = volume_of (take 5 asks);
    }

unfoldable pub pressure_of : ℤ → Pressure
pressure_of imbalance =
    if ltb_ℤ (pos 4000) imbalance
    then strong_buy
    else if ltb_ℤ (pos 1500) imbalance
    then buying
    else if ltb_ℤ imbalance (sub_ℕ 0 4000)
    then strong_sell
    else if ltb_ℤ imbalance (sub_ℕ 0 1500)
    then selling
    else neutral

-- `Math.round(50 + imbalance * 50)`; what it rounds is not negative.
unfoldable pub pressure_score_of : ℤ → ℕ
pressure_score_of imbalance = (10000 + pos_part imbalance - neg_part imbalance + 100) / 200

unfoldable pub imbalance_of : ℕ → ℕ → ℤ
imbalance_of bid_vol ask_vol =
    if ltb 0 (bid_vol + ask_vol)
    then to_fixed (sub_ℕ (bid_vol * 10000) (ask_vol * 10000)) (bid_vol + ask_vol)
    else pos 0

unfoldable pub compute_order_flow : List OrderBookLevel → List OrderBookLevel → OrderFlowMetrics
compute_order_flow bids asks =
    let imbalance = imbalance_of (volume_of (take 5 bids)) (volume_of (take 5 asks)) in
    record {
      imbalance = imbalance;
      pressure = pressure_of imbalance;
      pressure_score = pressure_score_of imbalance;
    }

-- The loop of `estimateImpact`: what a walk through the levels costs and fills.
abbrev pub walk : List OrderBookLevel → ℕ → ℕ × ℕ
walk [] remaining = (0, 0)
walk (l ∷ ls) remaining =
    let fill = min remaining l.volume in
    let (cost, filled) = walk ls (remaining - fill) in
    if remaining == 0 then (0, 0) else (fill * l.price + cost, fill + filled)

abbrev pub distance : ℕ → ℕ → ℕ
distance a b = (a - b) + (b - a)

abbrev pub impact_of : ℕ × ℕ → ℕ → ℕ
impact_of (cost, filled) mid_price =
    if filled == 0
    then 10000
    else if mid_price == 0
    then 0
    else round_div (distance cost (mid_price * filled) * 1000000) (filled * mid_price)

unfoldable pub estimate_impact : List OrderBookLevel → ℕ → ℕ → ℕ
estimate_impact levels size mid_price = impact_of (walk levels size) mid_price

abbrev pub notional : List OrderBookLevel → ℕ
notional = total (λ l. l.volume * l.price)

unfoldable pub compute_market_impact :
    List OrderBookLevel → List OrderBookLevel → ℕ → MarketImpactEstimate
compute_market_impact bids asks mid_price =
    let near_bids = keep (λ l. leb (1000 * mid_price) (mid_price + 1000 * l.price)) bids in
    let near_asks = keep (λ l. leb (1000 * l.price) (mid_price + 1000 * mid_price)) asks in
    record {
      buy_impact_bps = estimate_impact asks 5000 mid_price;
      sell_impact_bps = estimate_impact bids 5000 mid_price;
      effective_liquidity_usd = round_div (notional near_bids + notional near_asks) 10000;
    }

-- The three scores are computed in ten-thousandths of a point.
unfoldable pub compute_liquidity_score : SpreadMetrics → DepthMetrics → MarketImpactEstimate → ℕ
compute_liquidity_score spread depth impact =
    let spread_score = pos_part (pos 400000 -ℤ (pos 100 *ℤ spread.bps)) in
    let depth_score = min 400000 (4 * (depth.bid_depth_total + depth.ask_depth_total)) in
    let impact_score : ℕ = 200000 - 100 * (impact.buy_impact_bps + impact.sell_impact_bps) in
    round_div (min 1000000 (spread_score + depth_score + impact_score)) 10000

-- `atrHistory` of a symbol, oldest first.
abbrev pub keep_newest : List ℕ → List ℕ
keep_newest [] = []
keep_newest (a ∷ as') = if ltb 20 (length (a ∷ as')) then as' else a ∷ as'

-- A mean is compared with the newest value: above 1.25 or below 0.75 times the mean.
abbrev pub volatility_of : ℕ → List ℕ → VolatilityState
volatility_of current_atr history =
    let n = length history in
    let sum = total (λ a. a) history in
    if ltb n 5
    then steady
    else if ltb (5 * sum) (4 * n * current_atr)
    then expansion
    else if ltb (4 * n * current_atr) (3 * sum)
    then compression
    else steady

-- An ATR that is missing is 0, which is falsy as well.
unfoldable pub compute_volatility_state : ℕ → List ℕ → VolatilityState × List ℕ
compute_volatility_state current_atr history =
    let history' = keep_newest (history ++ current_atr ∷ []) in
    if current_atr == 0 then (steady, history) else (volatility_of current_atr history', history')

-- `compute`, with the symbol's history.
unfoldable pub compute :
    ℕ → List OrderBookLevel → List OrderBookLevel → ℕ → List ℕ → MicrostructureSnapshot × List ℕ
compute tick_price bids asks current_atr history =
    let spread = compute_spread bids asks tick_price in
    let depth = compute_depth bids asks in
    let impact = compute_market_impact bids asks spread.mid_price in
    let (state, history') = compute_volatility_state current_atr history in
    (
      record {
        spread = spread;
        depth = depth;
        order_flow = compute_order_flow bids asks;
        impact = impact;
        liquidity_score = compute_liquidity_score spread depth impact;
        volatility_state = state;
      },
      history',
    )
