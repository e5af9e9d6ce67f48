-- ===== src/Position/Engine.antt =====
-- `class PositionEngine` of backend/src/services/positionEngine.ts. Its numbers are integers, in units
-- small enough, but for `/`, which is a parameter `divide`.
use aether_x.Prelude.{
  ℕ, List, [], ◌∷◌, map, Option, none, some, Bool, true, false, not, ◌&&◌, ◌||◌, keep, ◌==◌,
  if◌then◌else◌,
}
use aether_x.Prelude.Int.{ℤ, pos, negsuc, ◌+ℤ◌, ◌-ℤ◌, ◌*ℤ◌, ltb_ℤ, abs}
use aether_x.Matching.Queue.{Side, buy, sell}

pub record PositionState : Type 0 where
  pub user_id : ℕ
  pub symbol : ℕ
  pub size : ℤ
  pub average_entry_price : ℤ
  pub realized_pnl : ℤ
  pub unrealized_pnl : ℤ
  pub margin_used : ℤ
  pub liquidation_price : Option ℤ
  pub leverage : ℤ
  pub is_dirty : Bool

-- A position that a trade opens.
abbrev pub new_position : ℕ → ℕ → PositionState
new_position user_id symbol = record {
  user_id = user_id;
  symbol = symbol;
  size = pos 0;
  average_entry_price = pos 0;
  realized_pnl = pos 0;
  unrealized_pnl = pos 0;
  margin_used = pos 0;
  liquidation_price = none;
  leverage = pos 1;
  is_dirty = false;
}

-- The `Map` of positions, in the order of its keys `${userId}-${symbol}`.
abbrev pub has_ids : ℕ → ℕ → PositionState → Bool
has_ids user_id symbol p = p.user_id == user_id && p.symbol == symbol

abbrev pub get_position : ℕ → ℕ → List PositionState → Option PositionState
get_position user_id symbol [] = none
get_position user_id symbol (p ∷ ps) =
    if has_ids user_id symbol p then some p else get_position user_id symbol ps

abbrev pub get_user_positions : ℕ → List PositionState → List PositionState
get_user_positions user_id = keep (λ p. p.user_id == user_id)

-- `Math.sign`, and its values compared.
abbrev pub sign : ℤ → ℕ
sign (pos n) = if n == 0 then 0 else 1
sign (negsuc n) = 2

abbrev pub is_zero : ℤ → Bool
is_zero a = sign a == 0

abbrev pub trade_qty : Side → ℤ → ℤ
trade_qty buy quantity = quantity
trade_qty sell quantity = pos 0 -ℤ quantity

abbrev pub pnl_per_unit : Side → ℤ → ℤ → ℤ
pnl_per_unit buy average price = average -ℤ price
pnl_per_unit sell average price = price -ℤ average

abbrev pub min_ℤ : ℤ → ℤ → ℤ
min_ℤ a b = if ltb_ℤ b a then b else a

-- The test for scaling in.
abbrev pub scales_in : ℤ → ℤ → Bool
scales_in size qty = sign size == sign qty || is_zero size

abbrev pub next_realized : Side → ℤ → ℤ → PositionState → ℤ
next_realized side price quantity p =
    if scales_in p.size (trade_qty side quantity)
    then p.realized_pnl
    else p.realized_pnl
      +ℤ min_ℤ (abs p.size) quantity *ℤ pnl_per_unit side p.average_entry_price price

module _ (divide : ℤ → ℤ → ℤ) where
  abbrev pub next_average : Side → ℤ → ℤ → PositionState → ℤ
  next_average side price quantity p =
      let qty = trade_qty side quantity in
      let new_size = p.size +ℤ qty in
      if scales_in p.size qty
      then divide (abs p.size *ℤ p.average_entry_price +ℤ quantity *ℤ price) (abs new_size)
      else if ltb_ℤ (abs p.size) (abs qty)
      then price
      else if is_zero new_size
      then pos 0
      else p.average_entry_price

  abbrev pub next_margin : ℤ → ℤ → ℤ → ℤ
  next_margin size average leverage =
      if is_zero size then pos 0 else divide (abs size *ℤ average) leverage

  -- `average * (1 - 1 / leverage)` and `average * (1 + 1 / leverage)`, multiplied out.
  abbrev pub next_liquidation : ℤ → ℤ → ℤ → Option ℤ
  next_liquidation size average leverage =
      if ltb_ℤ (pos 0) size
      then some (average -ℤ divide average leverage)
      else if ltb_ℤ size (pos 0)
      then some (average +ℤ divide average leverage)
      else none

  -- `processSide`, on the position that is there or was opened.
  unfoldable pub next_position : Side → ℤ → ℤ → PositionState → PositionState
  next_position side price quantity p =
      let size = p.size +ℤ trade_qty side quantity in
      let average = next_average side price quantity p in
      record p {
        size = size;
        average_entry_price = average;
        realized_pnl = next_realized side price quantity p;
        margin_used = next_margin size average p.leverage;
        liquidation_price = next_liquidation size average p.leverage;
        is_dirty = true;
      }

  abbrev pub process_side : ℕ → ℕ → ℤ → ℤ → Side → List PositionState → List PositionState
  process_side user_id symbol price quantity side [] =
      next_position side price quantity (new_position user_id symbol) ∷ []
  process_side user_id symbol price quantity side (p ∷ ps) =
      let rest = process_side user_id symbol price quantity side ps in
      if has_ids user_id symbol p then next_position side price quantity p ∷ ps else p ∷ rest

  unfoldable pub handle_trade_execution :
      ℕ → ℕ → ℕ → ℤ → ℤ → List PositionState → List PositionState
  handle_trade_execution buyer_id seller_id symbol price quantity ps =
      process_side seller_id symbol price quantity sell
        (process_side buyer_id symbol price quantity buy ps)

-- `markToMarket`
abbrev pub unrealized : ℤ → PositionState → ℤ
unrealized current p =
    if ltb_ℤ (pos 0) p.size
    then p.size *ℤ (current -ℤ p.average_entry_price)
    else if ltb_ℤ p.size (pos 0)
    then abs p.size *ℤ (p.average_entry_price -ℤ current)
    else pos 0

-- `tolerance` is the 0.01 of the source in the units of the model.
module _ (tolerance : ℤ) where
  abbrev pub mark_position : ℕ → ℤ → PositionState → PositionState
  mark_position symbol current p =
      let pnl = unrealized current p in
      if p.symbol == symbol && not (is_zero p.size)
      then if ltb_ℤ tolerance (abs (p.unrealized_pnl -ℤ pnl))
        then record p { unrealized_pnl = pnl; is_dirty = true }
        else p
      else p

  unfoldable pub mark_to_market : ℕ → ℤ → List PositionState → List PositionState
  mark_to_market symbol current = map (mark_position symbol current)

-- The row that `INSERT ... ON CONFLICT (user_id, symbol) DO UPDATE` leaves: an old one keeps its
-- leverage.
abbrev pub upsert_row : PositionState → List PositionState → List PositionState
upsert_row p [] = p ∷ []
upsert_row p (r ∷ rs) =
    let rest = upsert_row p rs in
    if has_ids p.user_id p.symbol r then record p { leverage = r.leverage } ∷ rs else r ∷ rest

-- The positions in memory, the table, and whether every query went through.
pub record Flush : Type 0 where
  pub positions : List PositionState
  pub table : List PositionState
  pub committed : Bool

abbrev pub keep_position : PositionState → Flush → Flush
keep_position p f = record f { positions = p ∷ f.positions }

-- `refused` says of which positions the query fails.
module _ (refused : PositionState → Bool) where
  abbrev pub flush_each : List PositionState → List PositionState → Flush
  flush_each [] table = record { positions = []; table = table; committed = true }
  flush_each (p ∷ ps) table =
      let skipped = keep_position p (flush_each ps table) in
      let stored =
        keep_position (record p { is_dirty = false }) (flush_each ps (upsert_row p table)) in
      if not p.is_dirty
      then skipped
      else if refused p
      then record { positions = p ∷ ps; table = table; committed = false }
      else stored

  -- `flushToDB`: ROLLBACK takes the rows back, but not the flags that were cleared.
  abbrev pub flush_to_db : List PositionState → List PositionState → Flush
  flush_to_db ps table =
      let f = flush_each ps table in if f.committed then f else record f { table = table }
