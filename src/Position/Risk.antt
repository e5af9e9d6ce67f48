-- ===== src/Position/Risk.antt =====
-- `class RiskEngine` of backend/src/services/riskEngine.ts.
use aether_x.Prelude.{
  ℕ, ◌≡◌, List, [], ◌∷◌, Option, none, some, Bool, true, not, ◌&&◌, ◌==◌, arith, if◌then◌else◌,
}
use aether_x.Prelude.Text.{codes, text_eq}
use aether_x.Prelude.Int.{ℤ, pos, ◌+ℤ◌, ◌*ℤ◌, ◌≤ℤ◌, ltb_ℤ}
use aether_x.Matching.Queue.{Side, buy, sell}
use aether_x.Ledger.Table.{Account}
use aether_x.Position.Engine.{PositionState, get_position, get_user_positions, is_zero}

-- The errors of `validateOrder`.
pub data Violation : Type 0 where
  account_missing leverage_exceeded insufficient_margin : Violation

-- `SELECT balance FROM accounts WHERE owner_id = $1 AND currency = 'USD'`, its first row.
abbrev pub usd_balance : ℕ → List Account → Option ℤ
usd_balance owner [] = none
usd_balance owner (a ∷ as') =
    if a.owner_id == owner && text_eq a.currency (codes "USD")
    then some (pos a.balance)
    else usd_balance owner as'

abbrev pub size_or_zero : Option PositionState → ℤ
size_or_zero none = pos 0
size_or_zero (some p) = p.size

abbrev pub leverage_or_one : Option PositionState → ℤ
leverage_or_one none = pos 1
leverage_or_one (some p) = p.leverage

abbrev pub is_increasing : Side → ℤ → Bool
is_increasing buy size = not (ltb_ℤ size (pos 0))
is_increasing sell size = not (ltb_ℤ (pos 0) size)

module _ (divide : ℤ → ℤ → ℤ) where
  abbrev pub check_margin : Side → ℤ → ℤ → Option PositionState → Option ℤ → Option Violation
  check_margin side price quantity p none = some account_missing
  check_margin side price quantity p (some equity) =
      if ltb_ℤ (pos 10) (leverage_or_one p)
      then some leverage_exceeded
      else if is_increasing side (size_or_zero p)
          && ltb_ℤ equity (divide (price *ℤ quantity) (leverage_or_one p))
      then some insufficient_margin
      else none

  -- `validateOrder`: `none` lets the order pass.
  unfoldable pub validate_order :
      ℕ → ℕ → Side → ℤ → ℤ → List Account → List PositionState → Option Violation
  validate_order user_id symbol side price quantity accounts positions =
      check_margin side price quantity (get_position user_id symbol positions)
        (usd_balance user_id accounts)

abbrev pub margin_total : List PositionState → ℤ
margin_total [] = pos 0
margin_total (p ∷ ps) =
    let rest = margin_total ps in if is_zero p.size then rest else p.margin_used +ℤ rest

abbrev pub pnl_total : List PositionState → ℤ
pnl_total [] = pos 0
pnl_total (p ∷ ps) =
    let rest = pnl_total ps in if is_zero p.size then rest else p.unrealized_pnl +ℤ rest

abbrev pub balance_or_zero : Option ℤ → ℤ
balance_or_zero none = pos 0
balance_or_zero (some b) = b

-- `evaluateDrawdown`: whether the user is liquidated. Half of the margin is compared by doubling.
unfoldable pub evaluate_drawdown : ℕ → List Account → List PositionState → Bool
evaluate_drawdown user_id accounts positions =
    let ps = get_user_positions user_id positions in
    let margin = margin_total ps in
    let active_equity = balance_or_zero (usd_balance user_id accounts) +ℤ pnl_total ps in
    ltb_ℤ (pos 0) margin && not (ltb_ℤ margin (active_equity +ℤ active_equity))

-- Where a wallet is there and the leverage is at most 10, a sale against a long position passes,
-- whatever its price and quantity: selling more than is held is not asked for margin.
validate_order-sell :
    (divide : ℤ → ℤ → ℤ) (user_id symbol : ℕ) (price quantity equity : ℤ) (p : PositionState)
    (accounts : List Account) (positions : List PositionState)
    → usd_balance user_id accounts ≡ some equity
    → get_position user_id symbol positions ≡ some p
    → ltb_ℤ (pos 0) p.size ≡ true
    → p.leverage ≤ℤ pos 10
    → validate_order divide user_id symbol sell price quantity accounts positions ≡ none
unfolding validate_order
validate_order-sell divide user_id symbol price quantity equity p accounts positions e f long low =
    rw e (rw f (ground arith))
