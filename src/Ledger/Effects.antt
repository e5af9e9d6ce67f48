-- ===== src/Ledger/Effects.antt =====
-- What `lockEscrow` does when it goes through, and that `releaseEscrow` takes it back.
use aether_x.Prelude.{
  ℕ, ◌+◌, ◌-◌, ◌<◌, ◌≤◌, ◌≡◌, ◌≢◌, refl, inl, inr, List, [], ◌∷◌, Option, none, some, true, false,
  any-append, arith, ltb, ◌==◌, if◌then◌else◌, Bool-cases, Option-cases,
}
use aether_x.Prelude.Text.{Text, upper}
use aether_x.Matching.Queue.{Side}
use aether_x.Ledger.Table.{
  AccountType, checking, escrow, type_eq, Account, Transaction, Db, ok, find_account, matches,
  sub_rows, add_rows, get_account_locked, in_transaction,
}
use aether_x.Ledger.Engine.{
  escrow_currency, escrow_amount, lock_body, lock_escrow, release_body, release_escrow,
}
use aether_x.Ledger.Rows.{has_id, HasKey, sub_rows-absent, has_transaction, moved, move_funds_lem}

abbrev pub credited : ℕ → ℕ → Account → Account
credited amount id a = if a.id == id then record a { balance = a.balance + amount } else a

abbrev pub debited : ℕ → ℕ → Account → Account
debited amount id a = if a.id == id then record a { balance = a.balance - amount } else a

abbrev pub changed : (Account → Account) → Option Account → Option Account
changed f none = none
changed f (some a) = some (f a)

find_account-add_rows :
    (owner : ℕ) (k : Text) (t : AccountType) (amount id : ℕ) (rows : List Account)
    → find_account owner k t (add_rows amount id rows)
      ≡ changed (credited amount id) (find_account owner k t rows)
find_account-add_rows owner k t amount id [] = refl
find_account-add_rows owner k t amount id (a ∷ rows) =
    ground (arith, find_account-add_rows owner k t amount id rows)

find_account-sub_rows :
    (owner : ℕ) (k : Text) (t : AccountType) (amount id : ℕ) (rows rows' : List Account)
    → sub_rows amount id rows ≡ some rows'
    → find_account owner k t rows' ≡ changed (debited amount id) (find_account owner k t rows)
find_account-sub_rows owner k t amount id [] rows' e = ground arith
find_account-sub_rows owner k t amount id (a ∷ rows) rows' e =
    elim (Option-cases (sub_rows amount id rows)) [
      | inl refused ↦ absurd (ground arith)
      | inr (rest, e') ↦ ground (arith, find_account-sub_rows owner k t amount id rows rest e')
    ]

has_id-of_found :
    (owner : ℕ) (k : Text) (t : AccountType) (rows : List Account) (a : Account)
    → find_account owner k t rows ≡ some a
    → has_id a.id rows ≡ true
has_id-of_found owner k t [] a e = cc
has_id-of_found owner k t (b ∷ rows) a e = ground (arith, has_id-of_found owner k t rows a)

type_of_found :
    (owner : ℕ) (k : Text) (t : AccountType) (rows : List Account) (a : Account)
    → find_account owner k t rows ≡ some a
    → type_eq a.account_type t ≡ true
type_of_found owner k t [] a e = cc
type_of_found owner k t (b ∷ rows) a e = ground (arith, type_of_found owner k t rows a)

-- The two wallets of a user are different accounts.
found_ne :
    (owner : ℕ) (k : Text) (rows : List Account) (a b : Account)
    → HasKey rows
    → find_account owner k checking rows ≡ some a
    → find_account owner k escrow rows ≡ some b
    → (a.id == b.id) ≡ false
found_ne owner k [] a b u e f = cc
found_ne owner k (c ∷ rows) a b u e f = ground (
  arith,
  has_id-of_found owner k escrow rows b,
  has_id-of_found owner k checking rows a,
  found_ne owner k rows a b u.1,
)

sub_rows-ok :
    (owner : ℕ) (k : Text) (t : AccountType) (amount : ℕ) (rows : List Account) (a : Account)
    → HasKey rows
    → find_account owner k t rows ≡ some a
    → amount ≤ a.balance
    → (rows' : List Account) × (sub_rows amount a.id rows ≡ some rows')
sub_rows-ok owner k t amount [] a u e h = cc
sub_rows-ok owner k t amount (c ∷ rows) a u e h = elim (Bool-cases (matches owner k t c)) [
  | inl found ↦ (
    record a { balance = a.balance - amount } ∷ rows,
    ground (arith, sub_rows-absent amount a.id rows),
  )
  | inr other ↦
      let (rest, e') = sub_rows-ok owner k t amount rows a u.1 (ground arith) h in
      (c ∷ rest, ground (arith, has_id-of_found owner k t rows a))
]

-- A debit undoes a credit, and a credit a debit.
sub_rows-add_rows :
    (amount id : ℕ) (rows : List Account) → sub_rows amount id (add_rows amount id rows) ≡ some rows
sub_rows-add_rows amount id [] = refl
sub_rows-add_rows amount id (a ∷ rows) = ground (arith, sub_rows-add_rows amount id rows)

add_rows-sub_rows :
    (amount id : ℕ) (rows rows' : List Account)
    → sub_rows amount id rows ≡ some rows'
    → add_rows amount id rows' ≡ rows
add_rows-sub_rows amount id [] rows' e = ground arith
add_rows-sub_rows amount id (a ∷ rows) rows' e = elim (Option-cases (sub_rows amount id rows)) [
  | inl refused ↦ absurd (ground arith)
  | inr (rest, e') ↦ ground (arith, add_rows-sub_rows amount id rows rest e')
]

-- The two wallets of a user in one currency.
pub record HasWallets (owner : ℕ) (k : Text) (from to : Account) (db : Db) : Type 0 where
  pub key : HasKey db.accounts
  pub checking_wallet : find_account owner k checking db.accounts ≡ some from
  pub escrow_wallet : find_account owner k escrow db.accounts ≡ some to

module _ (transaction_id user_id : ℕ) (symbol : Text) (side : Side) (price quantity : ℕ)
    (from to : Account) (db : Db)
    (w : HasWallets user_id (upper (escrow_currency side symbol)) from to db)
    (covered : escrow_amount side price quantity ≤ from.balance)
    (positive : 0 < escrow_amount side price quantity)
    (new : has_transaction transaction_id db ≡ false) where
  abbrev amount : ℕ
  amount = escrow_amount side price quantity

  abbrev rows_of : List Account
  rows_of =
      (sub_rows-ok user_id (upper (escrow_currency side symbol)) checking amount db.accounts from
        w.key w.checking_wallet covered).0

  debited_rows : sub_rows amount from.id db.accounts ≡ some rows_of
  debited_rows =
      (sub_rows-ok user_id (upper (escrow_currency side symbol)) checking amount db.accounts from
        w.key w.checking_wallet covered).1

  -- With the funds there, the lock goes through.
  lock_escrow-runs :
      lock_escrow transaction_id user_id symbol side price quantity db
      ≡ (ok tt, moved transaction_id amount (escrow_currency side symbol) from to rows_of db)
  unfolding lock_escrow lock_body get_account_locked in_transaction
  lock_escrow-runs =
      let c : ltb from.balance amount ≡ false = ground arith in
      let p : ltb 0 amount ≡ true = ground arith in
      simp (w.checking_wallet, c, w.escrow_wallet, move_funds_lem, new, debited_rows, p)

  checking_after :
      find_account user_id
        (upper (escrow_currency side symbol))
        checking
        (add_rows amount to.id rows_of)
      ≡ some (record from { balance = from.balance - amount })
  checking_after =
      let k = upper (escrow_currency side symbol) in
      ground (
        arith,
        find_account-add_rows user_id k checking amount to.id rows_of,
        find_account-sub_rows user_id k checking amount from.id db.accounts rows_of debited_rows,
        w.checking_wallet,
        found_ne user_id k db.accounts from to w.key w.checking_wallet w.escrow_wallet,
      )

  escrow_after :
      find_account user_id
        (upper (escrow_currency side symbol))
        escrow
        (add_rows amount to.id rows_of)
      ≡ some (record to { balance = to.balance + amount })
  escrow_after =
      let k = upper (escrow_currency side symbol) in
      ground (
        arith,
        find_account-add_rows user_id k escrow amount to.id rows_of,
        find_account-sub_rows user_id k escrow amount from.id db.accounts rows_of debited_rows,
        w.escrow_wallet,
        found_ne user_id k db.accounts from to w.key w.checking_wallet w.escrow_wallet,
      )

  -- With the wallets there, the funds in checking, a positive amount and a new transaction id,
  -- `lockEscrow` goes through: checking has the amount less and escrow has it more.
  pub lock_escrow_effect :
      let (r, db') = lock_escrow transaction_id user_id symbol side price quantity db in
      (r ≡ ok tt)
      × (find_account user_id (upper (escrow_currency side symbol)) checking db'.accounts
          ≡ some (record from { balance = from.balance - escrow_amount side price quantity }))
      × (find_account user_id (upper (escrow_currency side symbol)) escrow db'.accounts
          ≡ some (record to { balance = to.balance + escrow_amount side price quantity }))
  lock_escrow_effect = rw lock_escrow-runs (refl, checking_after, escrow_after)

  release_after :
      (release_id : ℕ) (db' : Db)
      → db'.accounts ≡ add_rows amount to.id rows_of
      → has_transaction release_id db' ≡ false
      → let (r, db'') = release_escrow release_id user_id symbol side price quantity db' in
        (r ≡ ok tt) × (db''.accounts ≡ db.accounts)
  unfolding release_escrow release_body get_account_locked in_transaction
  release_after release_id db' same fresh =
      let k = upper (escrow_currency side symbol) in
      let c : find_account user_id k checking db'.accounts
          ≡ some (record from { balance = from.balance - amount }) =
        rw same checking_after in
      let e : find_account user_id k escrow db'.accounts
          ≡ some (record to { balance = to.balance + amount }) =
        rw same escrow_after in
      let n : ltb (to.balance + amount) amount ≡ false = ground arith in
      let p : ltb 0 amount ≡ true = ground arith in
      let s : sub_rows amount to.id db'.accounts ≡ some rows_of =
        rw same (sub_rows-add_rows amount to.id rows_of) in
      simp (c, e, n, move_funds_lem, fresh, s, p)
        (refl, add_rows-sub_rows amount from.id db.accounts rows_of debited_rows)

  -- Releasing the same order under another transaction id then goes through too, and leaves every
  -- account as it was before the lock.
  pub lock-release :
      (release_id : ℕ)
      → has_transaction release_id db ≡ false
      → release_id ≢ transaction_id
      → let (r, db') =
          release_escrow release_id user_id symbol side price quantity
            (lock_escrow transaction_id user_id symbol side price quantity db).1 in
        (r ≡ ok tt) × (db'.accounts ≡ db.accounts)
  lock-release release_id fresh ne = rw lock_escrow-runs (
      release_after release_id _ refl (
        ground (
          arith,
          any-append (λ (u : Transaction). u.id == release_id) db.transactions
              (record {
                id = transaction_id;
                amount = amount;
                currency = escrow_currency side symbol;
                source_account_id = from.id;
                dest_account_id = to.id;
              }),
        )))
