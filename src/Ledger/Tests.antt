-- ===== src/Ledger/Tests.antt =====
-- A buyer and a seller of BTC: escrow is locked, released and settled.
use aether_x.Prelude.{◌≡◌, refl, List, [], ◌∷◌, some, arith}
use aether_x.Prelude.Text.{Text, codes}
use aether_x.Matching.Queue.{buy}
use aether_x.Ledger.Table.{
  checking, escrow, Account, Db, ok, find_account, get_account_locked, in_transaction, sub_balance,
  add_balance, insert_transaction, insert_entry,
}
use aether_x.Ledger.Engine.{
  usd, move_funds, lock_body, lock_escrow, release_escrow, settle_body, settle_trade,
}
use aether_x.Ledger.Keeping.{Keeps}
use aether_x.Ledger.Conserve.{lock_escrow-Keeps}
use aether_x.Ledger.Effects.{HasWallets, lock_escrow_effect, lock-release}

abbrev symbol : Text
symbol = codes "BTCUSDT"

abbrev cash : Account
cash = record {
  id = 1;
  owner_id = 10;
  currency = codes "USD";
  account_type = checking;
  balance = 500;
}

abbrev cash_vault : Account
cash_vault = record {
  id = 2;
  owner_id = 10;
  currency = codes "USD";
  account_type = escrow;
  balance = 0;
}

abbrev wallets : List Account
wallets =
    cash
    ∷ cash_vault
    ∷ record { id = 3; owner_id = 10; currency = codes "BTC"; account_type = checking; balance = 0 }
    ∷ record {
      id = 4;
      owner_id = 11;
      currency = codes "USD";
      account_type = checking;
      balance = 20;
    }
    ∷ record { id = 5; owner_id = 11; currency = codes "BTC"; account_type = escrow; balance = 7 }
    ∷ []

abbrev tables : Db
tables = record { accounts = wallets; transactions = []; entries = [] }

-- The buyer locks 3 at 100, and the seller's 7 in escrow are settled against it.
abbrev locked : Db
locked = (lock_escrow 70 10 symbol buy 100 3 tables).1

settled : (settle_trade 71 72 10 11 symbol 100 3 locked).0 ≡ ok tt
unfolding settle_trade settle_body lock_escrow lock_body in_transaction get_account_locked
    move_funds sub_balance add_balance insert_transaction insert_entry
settled = refl

locked-Keeps : Keeps tables locked
locked-Keeps = lock_escrow-Keeps 70 10 symbol buy 100 3 tables (ground arith)

has_wallets : HasWallets 10 (codes "USD") cash cash_vault tables
has_wallets = record { key = ground arith; checking_wallet = refl; escrow_wallet = refl }

lock_escrow_effect_example :
    let (r, db') = lock_escrow 70 10 symbol buy 100 3 tables in
    (r ≡ ok tt)
    × (find_account 10 usd checking db'.accounts ≡ some (record cash { balance = 200 }))
    × (find_account 10 usd escrow db'.accounts ≡ some (record cash_vault { balance = 300 }))
lock_escrow_effect_example =
    lock_escrow_effect 70 10 symbol buy 100 3 cash cash_vault tables has_wallets (omega arith)
      (omega arith) refl

lock-release_example :
    let (r, db') =
      release_escrow 71 10 symbol buy 100 3 (lock_escrow 70 10 symbol buy 100 3 tables).1 in
    (r ≡ ok tt) × (db'.accounts ≡ wallets)
lock-release_example =
    lock-release 70 10 symbol buy 100 3 cash cash_vault tables has_wallets (omega arith)
      (omega arith) refl 71 refl (omega arith)
