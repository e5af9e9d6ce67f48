-- ===== src/Position/Tests.antt =====
-- Witnesses for the positions.
use aether_x.Prelude.{◌/◌, ◌≡◌, refl, List, [], ◌∷◌, true, false, ◌==◌}
use aether_x.Prelude.Int.{ℤ, pos, negsuc, ◌*ℤ◌}
use aether_x.Position.Engine.{PositionState, new_position, handle_trade_execution, flush_to_db}
use aether_x.Position.Net.{net, net-handle_trade_execution}

-- A division for the tests, exact where the divisor is 1.
abbrev divide : ℤ → ℤ → ℤ
divide a b = a

abbrev long : PositionState
long = record (new_position 10 1) { size = pos 2; average_entry_price = pos 50; is_dirty = true }

abbrev short : PositionState
short = record (new_position 11 1) {
  size = negsuc 1;
  average_entry_price = pos 50;
  is_dirty = true;
}

abbrev open_positions : List PositionState
open_positions = long ∷ short ∷ []

net-handle_trade_execution_example :
    net 1 (handle_trade_execution divide 11 12 1 (pos 60) (pos 3) open_positions)
    ≡ net 1 open_positions
net-handle_trade_execution_example =
    net-handle_trade_execution divide 11 12 1 (pos 60) (pos 3) open_positions

-- The second query fails: the first position is clean in memory and missing in the table.
lost_flush : flush_to_db (λ p. p.user_id == 11) open_positions [] ≡ record {
  positions = record long { is_dirty = false } ∷ short ∷ [];
  table = [];
  committed = false;
}
lost_flush = refl

abbrev whole_divide : ℤ → ℤ → ℤ
whole_divide (pos a) (pos b) = pos (a / b)
whole_divide a b = a

whole_price : whole_divide (pos 3 *ℤ pos 50) (pos 3) ≡ pos 50
unfolding ◌*ℤ◌
whole_price = refl
