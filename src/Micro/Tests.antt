-- ===== src/Micro/Tests.antt =====
-- A small book of BTC, and the same book turned around.
use aether_x.Prelude.{◌≡◌, refl, List, [], ◌∷◌, arith}
use aether_x.Micro.Metrics.{
  OrderBookLevel, strong_sell, compute_order_flow, compute, to_fixed, imbalance_of, pressure_of,
  estimate_impact,
}
use aether_x.Micro.Range.{IsInRange, compute-IsInRange}

abbrev bids : List OrderBookLevel
bids = record { price = 6719900; volume = 3000 } ∷ record { price = 6719500; volume = 2000 } ∷ []

abbrev asks : List OrderBookLevel
asks = record { price = 6720100; volume = 20000 } ∷ []

compute-IsInRange_example :
    IsInRange
      (compute 6720000 bids asks 150 (100 ∷ 120 ∷ [])).0
      (compute 6720000 bids asks 150 (100 ∷ 120 ∷ [])).1
compute-IsInRange_example = compute-IsInRange 6720000 bids asks 150 (100 ∷ 120 ∷ []) (omega arith)

sellers_press : (compute_order_flow bids asks).pressure ≡ strong_sell
unfolding compute_order_flow imbalance_of to_fixed pressure_of
sellers_press = refl

-- Half a coin is bought at the best ask, a basis point and a half above the middle.
buy_impact : estimate_impact asks 5000 6720000 ≡ 15
unfolding estimate_impact
buy_impact = refl
