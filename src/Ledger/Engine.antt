-- ===== src/Ledger/Engine.antt =====
-- `class LedgerEngine` of backend/src/services/ledgerEngine.ts. The ids that uuid hands out are
-- arguments, and owners are numbers: the system's nil UUID is 0.
use aether_x.Prelude.{ℕ, ◌*◌, ltb, ◌==◌, if◌then◌else◌}
use aether_x.Prelude.Text.{Text, codes, drop_first}
use aether_x.Matching.Queue.{Side, buy, sell}
use aether_x.Ledger.Table.{
  AccountType, checking, escrow, debit, credit, Account, Db, Result, Query, ◌>>=◌, ◌>>◌, throw_if,
  insufficient_funds, ledger_inconsistency, buyer_short, seller_short, get_account_locked,
  sub_balance, add_balance, insert_transaction, insert_entry, in_transaction,
}

abbrev pub usd : Text
usd = codes "USD"

-- `symbol.replace('USDT', '')`
abbrev pub asset_of : Text → Text
asset_of = drop_first (codes "USDT")

abbrev pub escrow_currency : Side → Text → Text
escrow_currency buy symbol = usd
escrow_currency sell symbol = asset_of symbol

abbrev pub escrow_amount : Side → ℕ → ℕ → ℕ
escrow_amount buy price quantity = price * quantity
escrow_amount sell price quantity = quantity

-- The header and the two legs that every movement of money writes: the debit of `source`, the credit
-- of `dest`.
unfoldable pub move_funds : ℕ → ℕ → Text → Account → Account → Query (Unit {0})
move_funds transaction_id amount currency source dest = do
  insert_transaction (record {
    id = transaction_id;
    amount = amount;
    currency = currency;
    source_account_id = source.id;
    dest_account_id = dest.id;
  })
  sub_balance amount source.id
  insert_entry (record {
    transaction_id = transaction_id;
    account_id = source.id;
    entry_type = debit;
    amount = amount;
    currency = currency;
  })
  add_balance amount dest.id
  insert_entry (record {
    transaction_id = transaction_id;
    account_id = dest.id;
    entry_type = credit;
    amount = amount;
    currency = currency;
  })

-- The body of `lockEscrow`'s transaction.
unfoldable pub lock_body : ℕ → ℕ → Text → Side → ℕ → ℕ → Query (Unit {0})
lock_body transaction_id user_id symbol side price quantity =
    let currency = escrow_currency side symbol in
    let amount = escrow_amount side price quantity in
    do
      from ← get_account_locked user_id currency checking
      throw_if (ltb from.balance amount) insufficient_funds
      to ← get_account_locked user_id currency escrow
      move_funds transaction_id amount currency from to

unfoldable pub lock_escrow : ℕ → ℕ → Text → Side → ℕ → ℕ → Db → Result (Unit {0}) × Db
lock_escrow transaction_id user_id symbol side price quantity =
    in_transaction (lock_body transaction_id user_id symbol side price quantity)

unfoldable pub release_body : ℕ → ℕ → Text → Side → ℕ → ℕ → Query (Unit {0})
release_body transaction_id user_id symbol side price quantity =
    let currency = escrow_currency side symbol in
    let amount = escrow_amount side price quantity in
    do
      to ← get_account_locked user_id currency checking
      from ← get_account_locked user_id currency escrow
      throw_if (ltb from.balance amount) ledger_inconsistency
      move_funds transaction_id amount currency from to

unfoldable pub release_escrow : ℕ → ℕ → Text → Side → ℕ → ℕ → Db → Result (Unit {0}) × Db
release_escrow transaction_id user_id symbol side price quantity =
    in_transaction (release_body transaction_id user_id symbol side price quantity)

-- The system account trades out of its checking wallets, a user out of escrow.
abbrev pub paying_type : ℕ → AccountType
paying_type owner = if owner == 0 then checking else escrow

unfoldable pub settle_body : ℕ → ℕ → ℕ → ℕ → Text → ℕ → ℕ → Query (Unit {0})
settle_body cash_tx_id asset_tx_id buyer_id seller_id symbol price quantity =
    let asset = asset_of symbol in
    let cash_amount : ℕ = price * quantity in
    do
      buyer_cash ← get_account_locked buyer_id usd (paying_type buyer_id)
      seller_cash ← get_account_locked seller_id usd checking
      seller_asset ← get_account_locked seller_id asset (paying_type seller_id)
      buyer_asset ← get_account_locked buyer_id asset checking
      throw_if (ltb buyer_cash.balance cash_amount) buyer_short
      throw_if (ltb seller_asset.balance quantity) seller_short
      move_funds cash_tx_id cash_amount usd buyer_cash seller_cash
      move_funds asset_tx_id quantity asset seller_asset buyer_asset

unfoldable pub settle_trade : ℕ → ℕ → ℕ → ℕ → Text → ℕ → ℕ → Db → Result (Unit {0}) × Db
settle_trade cash_tx_id asset_tx_id buyer_id seller_id symbol price quantity =
    in_transaction (settle_body cash_tx_id asset_tx_id buyer_id seller_id symbol price quantity)
