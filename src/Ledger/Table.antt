-- ===== src/Ledger/Table.antt =====
-- The tables behind backend/src/services/ledgerEngine.ts, as backend/src/models/schema.sql declares
-- them, and the queries that the engine makes. Amounts are whole units in which `price * quantity` is
-- exact. A row that a CHECK or a key of the schema refuses is an error of the query.
use aether_x.Prelude.{
  ℕ, ◌+◌, ◌-◌, List, [], ◌∷◌, ◌++◌, Option, none, some, Bool, true, false, ◌&&◌, any, ltb, ◌==◌,
  if◌then◌else◌,
}
use aether_x.Prelude.Text.{Text, text_eq, upper}

pub data AccountType : Type 0 where
  checking escrow fee : AccountType

abbrev pub type_eq : AccountType → AccountType → Bool
type_eq checking checking = true
type_eq escrow escrow = true
type_eq fee fee = true
type_eq _ _ = false

pub data EntryType : Type 0 where
  debit credit : EntryType

pub record Account : Type 0 where
  pub id : ℕ
  pub owner_id : ℕ
  pub currency : Text
  pub account_type : AccountType
  pub balance : ℕ

pub record Transaction : Type 0 where
  pub id : ℕ
  pub amount : ℕ
  pub currency : Text
  pub source_account_id : ℕ
  pub dest_account_id : ℕ

pub record LedgerEntry : Type 0 where
  pub transaction_id : ℕ
  pub account_id : ℕ
  pub entry_type : EntryType
  pub amount : ℕ
  pub currency : Text

pub record Db : Type 0 where
  pub accounts : List Account
  pub transactions : List Transaction
  pub entries : List LedgerEntry

pub data LedgerError : Type 0 where
  account_not_found insufficient_funds ledger_inconsistency : LedgerError
  buyer_short seller_short : LedgerError
  negative_balance amount_not_positive duplicate_key missing_reference : LedgerError

pub data Result {ℓ} (A : Type ℓ) : Type ℓ where
  ok : A → Result A
  err : LedgerError → Result A

-- A query inside a transaction: the new tables, or an error.
abbrev pub Query : Type 0 → Type 0
Query A = Db → Result (A × Db)

-- What comes after a query that has run.
abbrev pub go_on : {A B : Type 0} → Result (A × Db) → (A → Db → Result (B × Db)) → Result (B × Db)
go_on (ok (a, db)) f = f a db
go_on (err e) f = err e

infixl 5 ◌>>=◌ ◌>>◌
abbrev pub ◌>>=◌ : {A B : Type 0} → Query A → (A → Query B) → Query B
◌>>=◌ m f db = go_on (m db) f

abbrev pub ◌>>◌ : {A B : Type 0} → Query A → Query B → Query B
m >> k = m >>= λ _. k

-- `throw` under a condition.
abbrev pub throw_if : Bool → LedgerError → Query (Unit {0})
throw_if c e db = if c then err e else ok (tt, db)

abbrev pub matches : ℕ → Text → AccountType → Account → Bool
matches owner currency type a =
    a.owner_id == owner && text_eq a.currency currency && type_eq a.account_type type

abbrev pub find_account : ℕ → Text → AccountType → List Account → Option Account
find_account owner currency type [] = none
find_account owner currency type (a ∷ as') =
    if matches owner currency type a then some a else find_account owner currency type as'

abbrev pub or_throw : Option Account → LedgerError → Query Account
or_throw none e db = err e
or_throw (some a) e db = ok (a, db)

-- `getAccountLocked`. The lock itself is the transaction's: no other one runs in between.
unfoldable pub get_account_locked : ℕ → Text → AccountType → Query Account
get_account_locked owner currency type db =
    or_throw (find_account owner (upper currency) type db.accounts) account_not_found db

-- One row of the update: whether it is meant, whether the CHECK refuses it, the row after and before.
abbrev pub put_row : Bool → Bool → Account → Account → Option (List Account) → Option (List Account)
put_row meant short a' a none = none
put_row false short a' a (some rest) = some (a ∷ rest)
put_row true true a' a (some rest) = none
put_row true false a' a (some rest) = some (a' ∷ rest)

-- `UPDATE accounts SET balance = balance - $1 WHERE id = $2`, under CHECK (balance >= 0).
abbrev pub sub_rows : ℕ → ℕ → List Account → Option (List Account)
sub_rows amount id [] = some []
sub_rows amount id (a ∷ as') =
    put_row (a.id == id) (ltb a.balance amount) (record a { balance = a.balance - amount }) a
      (sub_rows amount id as')

abbrev pub store_rows : Option (List Account) → LedgerError → Query (Unit {0})
store_rows none e db = err e
store_rows (some rows) e db = ok (tt, record db { accounts = rows })

unfoldable pub sub_balance : ℕ → ℕ → Query (Unit {0})
sub_balance amount id db = store_rows (sub_rows amount id db.accounts) negative_balance db

-- `UPDATE accounts SET balance = balance + $1 WHERE id = $2`.
abbrev pub add_rows : ℕ → ℕ → List Account → List Account
add_rows amount id [] = []
add_rows amount id (a ∷ as') =
    (if a.id == id then record a { balance = a.balance + amount } else a) ∷ add_rows amount id as'

unfoldable pub add_balance : ℕ → ℕ → Query (Unit {0})
add_balance amount id db = ok (tt, record db { accounts = add_rows amount id db.accounts })

-- `INSERT INTO transactions`, whose id is the primary key.
unfoldable pub insert_transaction : Transaction → Query (Unit {0})
insert_transaction t db =
    if any (λ (u : Transaction). u.id == t.id) db.transactions
    then err duplicate_key
    else ok (tt, record db { transactions = db.transactions ++ t ∷ [] })

-- `INSERT INTO ledger_entries`, under CHECK (amount > 0).
unfoldable pub insert_entry : LedgerEntry → Query (Unit {0})
insert_entry e db =
    if ltb 0 e.amount
    then ok (tt, record db { entries = db.entries ++ e ∷ [] })
    else err amount_not_positive

-- BEGIN, the body, COMMIT; on an error ROLLBACK, and the error is thrown again.
abbrev pub close_transaction : Db → Result (Unit {0} × Db) → Result (Unit {0}) × Db
close_transaction db (ok (a, db')) = (ok a, db')
close_transaction db (err e) = (err e, db)

unfoldable pub in_transaction : Query (Unit {0}) → Db → Result (Unit {0}) × Db
in_transaction body db = close_transaction db (body db)
