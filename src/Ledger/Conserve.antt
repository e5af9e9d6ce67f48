-- ===== src/Ledger/Conserve.antt =====
-- No operation of the ledger makes or loses money of any currency.
use aether_x.Prelude.{ℕ, ◌*◌, inl, inr, ltb, Bool-cases, Option-cases}
use aether_x.Prelude.Text.{Text, upper}
use aether_x.Matching.Queue.{Side}
use aether_x.Ledger.Table.{Account, Db, go_on, find_account, get_account_locked, checking, escrow}
use aether_x.Ledger.Engine.{
  usd, asset_of, escrow_currency, escrow_amount, paying_type, move_funds, lock_body, lock_escrow,
  release_body, release_escrow, settle_body, settle_trade,
}
use aether_x.Ledger.Rows.{HasKey, IsListed, find_account-IsListed}
use aether_x.Ledger.Keeping.{
  Ensures, failed, go_on-Ensures, Keeps, Keeps-refl, move_funds-Ensures, in_transaction-Keeps,
}

lock_body-Keeps :
    (transaction_id user_id : ℕ) (symbol : Text) (side : Side) (price quantity : ℕ) (db : Db)
    → HasKey db.accounts
    → Ensures (Keeps db) (lock_body transaction_id user_id symbol side price quantity db)
unfolding lock_body get_account_locked
lock_body-Keeps transaction_id user_id symbol side price quantity db u =
    let k = upper (escrow_currency side symbol) in
    let amount = escrow_amount side price quantity in
    elim (Option-cases (find_account user_id k checking db.accounts)) [
      | inl missing ↦ rw missing failed
      | inr (from, f) ↦ rw f (elim (Bool-cases (ltb from.balance amount)) [
        | inl short ↦ rw short failed
        | inr covered ↦
            rw covered (elim (Option-cases (find_account user_id k escrow db.accounts)) [
              | inl missing ↦ rw missing failed
              | inr (to, t) ↦ rw t (
                  move_funds-Ensures transaction_id amount (escrow_currency side symbol) k from to
                    db db (Keeps-refl db u)
                    (find_account-IsListed user_id k checking db.accounts from f)
                    (find_account-IsListed user_id k escrow db.accounts to t))
            ])
      ])
    ]

release_body-Keeps :
    (transaction_id user_id : ℕ) (symbol : Text) (side : Side) (price quantity : ℕ) (db : Db)
    → HasKey db.accounts
    → Ensures (Keeps db) (release_body transaction_id user_id symbol side price quantity db)
unfolding release_body get_account_locked
release_body-Keeps transaction_id user_id symbol side price quantity db u =
    let k = upper (escrow_currency side symbol) in
    let amount = escrow_amount side price quantity in
    elim (Option-cases (find_account user_id k checking db.accounts)) [
      | inl missing ↦ rw missing failed
      | inr (to, t) ↦ rw t (elim (Option-cases (find_account user_id k escrow db.accounts)) [
        | inl missing ↦ rw missing failed
        | inr (from, f) ↦ rw f (elim (Bool-cases (ltb from.balance amount)) [
          | inl short ↦ rw short failed
          | inr covered ↦ rw covered (
              move_funds-Ensures transaction_id amount (escrow_currency side symbol) k from to db db
                (Keeps-refl db u) (find_account-IsListed user_id k escrow db.accounts from f)
                (find_account-IsListed user_id k checking db.accounts to t))
        ])
      ])
    ]

-- The two movements of a settlement, one after the other.
settle_legs-Keeps :
    (cash_tx_id asset_tx_id cash_amount quantity : ℕ) (asset cash_k asset_k : Text)
    (buyer_cash seller_cash seller_asset buyer_asset : Account) (db : Db)
    → HasKey db.accounts
    → IsListed buyer_cash.id cash_k db.accounts
    → IsListed seller_cash.id cash_k db.accounts
    → IsListed seller_asset.id asset_k db.accounts
    → IsListed buyer_asset.id asset_k db.accounts
    → Ensures (Keeps db) (
        go_on
          (move_funds cash_tx_id cash_amount usd buyer_cash seller_cash db)
          (λ u. move_funds asset_tx_id quantity asset seller_asset buyer_asset))
settle_legs-Keeps cash_tx_id asset_tx_id cash_amount quantity asset cash_k asset_k buyer_cash
      seller_cash seller_asset buyer_asset db u bc sc sa ba =
    go_on-Ensures (λ u. move_funds asset_tx_id quantity asset seller_asset buyer_asset)
      (move_funds-Ensures cash_tx_id cash_amount usd cash_k buyer_cash seller_cash db db
        (Keeps-refl db u) bc sc)
      (λ x db' h.
        move_funds-Ensures asset_tx_id quantity asset asset_k seller_asset buyer_asset db db' h sa
          ba)

settle_body-Keeps :
    (cash_tx_id asset_tx_id buyer_id seller_id : ℕ) (symbol : Text) (price quantity : ℕ) (db : Db)
    → HasKey db.accounts
    → Ensures
        (Keeps db)
        (settle_body cash_tx_id asset_tx_id buyer_id seller_id symbol price quantity db)
unfolding settle_body get_account_locked
settle_body-Keeps cash_tx_id asset_tx_id buyer_id seller_id symbol price quantity db u =
    let asset = asset_of symbol in
    let k = upper asset in
    let rows = db.accounts in
    elim (Option-cases (find_account buyer_id (upper usd) (paying_type buyer_id) rows)) [
      | inl missing ↦ rw missing failed
      | inr (bc, f₁) ↦
          rw f₁ (elim (Option-cases (find_account seller_id (upper usd) checking rows)) [
            | inl missing ↦ rw missing failed
            | inr (sc, f₂) ↦
                rw f₂ (elim (Option-cases (find_account seller_id k (paying_type seller_id) rows)) [
                  | inl missing ↦ rw missing failed
                  | inr (sa, f₃) ↦
                      rw f₃ (elim (Option-cases (find_account buyer_id k checking rows)) [
                        | inl missing ↦ rw missing failed
                        | inr (ba, f₄) ↦
                            rw f₄ (elim (Bool-cases (ltb bc.balance (price * quantity))) [
                              | inl short ↦ rw short failed
                              | inr paid ↦ rw paid (elim (Bool-cases (ltb sa.balance quantity)) [
                                | inl short ↦ rw short failed
                                | inr sold ↦ rw sold (
                                    settle_legs-Keeps cash_tx_id asset_tx_id (price * quantity)
                                      quantity asset (upper usd) k bc sc sa ba db u
                                      (find_account-IsListed buyer_id (upper usd)
                                        (paying_type buyer_id) rows bc f₁)
                                      (find_account-IsListed seller_id (upper usd) checking rows sc
                                        f₂)
                                      (find_account-IsListed seller_id k (paying_type seller_id)
                                        rows sa f₃)
                                      (find_account-IsListed buyer_id k checking rows ba f₄))
                              ])
                            ])
                      ])
                ])
          ])
    ]

-- Locking escrow on tables whose accounts have distinct ids, whether it goes through or is rolled
-- back, keeps what `Keeps` lists: the accounts and their key, the money of every currency, balanced
-- transactions and positive entries.
pub lock_escrow-Keeps :
    (transaction_id user_id : ℕ) (symbol : Text) (side : Side) (price quantity : ℕ) (db : Db)
    → HasKey db.accounts
    → Keeps db (lock_escrow transaction_id user_id symbol side price quantity db).1
unfolding lock_escrow
lock_escrow-Keeps transaction_id user_id symbol side price quantity db u =
    in_transaction-Keeps (lock_body transaction_id user_id symbol side price quantity) db u
      (lock_body-Keeps transaction_id user_id symbol side price quantity db u)

-- Releasing escrow on tables whose accounts have distinct ids, whether it goes through or is rolled
-- back, keeps what `Keeps` lists: the accounts and their key, the money of every currency, balanced
-- transactions and positive entries.
pub release_escrow-Keeps :
    (transaction_id user_id : ℕ) (symbol : Text) (side : Side) (price quantity : ℕ) (db : Db)
    → HasKey db.accounts
    → Keeps db (release_escrow transaction_id user_id symbol side price quantity db).1
unfolding release_escrow
release_escrow-Keeps transaction_id user_id symbol side price quantity db u =
    in_transaction-Keeps (release_body transaction_id user_id symbol side price quantity) db u
      (release_body-Keeps transaction_id user_id symbol side price quantity db u)

-- Settling a trade on tables whose accounts have distinct ids, whether it goes through or is rolled
-- back, keeps what `Keeps` lists: the accounts and their key, the money of every currency, balanced
-- transactions and positive entries.
pub settle_trade-Keeps :
    (cash_tx_id asset_tx_id buyer_id seller_id : ℕ) (symbol : Text) (price quantity : ℕ) (db : Db)
    → HasKey db.accounts
    → Keeps db (settle_trade cash_tx_id asset_tx_id buyer_id seller_id symbol price quantity db).1
unfolding settle_trade
settle_trade-Keeps cash_tx_id asset_tx_id buyer_id seller_id symbol price quantity db u =
    in_transaction-Keeps
      (settle_body cash_tx_id asset_tx_id buyer_id seller_id symbol price quantity) db u
      (settle_body-Keeps cash_tx_id asset_tx_id buyer_id seller_id symbol price quantity db u)
