-- ===== src/Auth/Users.antt =====
-- `register` of backend/src/controllers/auth.ts, over the users table and the ledger's tables of
-- backend/src/models/schema.sql. The account numbers, a UNIQUE column, stand in a list of their own.
-- `uuid n` is what the call number n of `uuidv4` gives, `show_id` a UUID as a text, `hash` is
-- `bcrypt.hash` under the salt that was drawn, and `units` is how many units a dollar has.
use aether_x.Prelude.{
  ℕ, suc, ◌+◌, ◌*◌, List, [], ◌∷◌, ◌++◌, Option, none, some, Bool, true, false, ◌||◌, any, take,
  ◌==◌, if◌then◌else◌,
}
use aether_x.Prelude.Text.{Text, codes, text_eq, lower}
use aether_x.Ledger.Table.{
  AccountType, checking, escrow, EntryType, debit, credit, Account, LedgerEntry, Db, Result, ok,
  err, Query, duplicate_key, missing_reference, sub_balance, insert_transaction, insert_entry,
}
use aether_x.Ledger.Engine.{usd}
use aether_x.Ledger.Rows.{has_id}

pub record User : Type 0 where
  pub id : ℕ
  pub email : Text
  pub password_hash : Text

pub record AuthDb : Type 0 where
  pub users : List User
  pub account_numbers : List Text
  pub tables : Db

-- A statement inside the transaction, and a list of them in a row.
abbrev pub Statement : Type 0
Statement = AuthDb → Result AuthDb

abbrev pub then_run : Result AuthDb → Statement → Result AuthDb
then_run (ok d) s = s d
then_run (err e) s = err e

abbrev pub run_all : List Statement → Statement
run_all [] d = ok d
run_all (s ∷ ss) d = then_run (s d) (run_all ss)

abbrev pub with_tables : AuthDb → Result (Unit {0} × Db) → Result AuthDb
with_tables d (ok (u, db)) = ok (record d { tables = db })
with_tables d (err e) = err e

-- A statement on the ledger's tables.
abbrev pub on_tables : Query (Unit {0}) → Statement
on_tables q d = with_tables d (q d.tables)

abbrev pub has_email : Text → List User → Bool
has_email email = any (λ (u : User). text_eq u.email email)

abbrev pub has_user : ℕ → List User → Bool
has_user id = any (λ (u : User). u.id == id)

-- `INSERT INTO users`, under its primary key and the UNIQUE email.
unfoldable pub insert_user : User → Statement
insert_user u d =
    if has_user u.id d.users || has_email u.email d.users
    then err duplicate_key
    else ok (record d { users = d.users ++ u ∷ [] })

-- `INSERT INTO accounts`, under its primary key, the UNIQUE number and the owner's foreign key. The
-- balance that is inserted is never negative.
unfoldable pub insert_account : Account → Text → Statement
insert_account a number d =
    if has_id a.id d.tables.accounts || any (text_eq number) d.account_numbers
    then err duplicate_key
    else if has_user a.owner_id d.users
    then ok (record d {
      account_numbers = number ∷ d.account_numbers;
      tables = record (d.tables) { accounts = d.tables.accounts ++ a ∷ [] };
    })
    else err missing_reference

-- A foreign key to the accounts.
abbrev pub referring : ℕ → Statement → Statement
referring id s d = if has_id id d.tables.accounts then s d else err missing_reference

-- The system's USD account.
abbrev pub system_id : ℕ
system_id = 1

abbrev pub currencies : List Text
currencies = usd ∷ codes "BTC" ∷ codes "ETH" ∷ codes "SOL" ∷ []

abbrev pub account_number : Text → Text → Text
account_number user cur = codes "ACC-" ++ take 8 user ++ codes "-" ++ cur

abbrev pub wallet : ℕ → ℕ → Text → AccountType → ℕ → Account
wallet id owner cur type balance = record {
  id = id;
  owner_id = owner;
  currency = cur;
  account_type = type;
  balance = balance;
}

abbrev pub seed_entry : ℕ → ℕ → EntryType → ℕ → LedgerEntry
seed_entry seed_tx_id account type amount = record {
  transaction_id = seed_tx_id;
  account_id = account;
  entry_type = type;
  amount = amount;
  currency = usd;
}

pub data RegisterAnswer : Type 0 where
  bad_request conflict seeding_failed : RegisterAnswer
  created : ℕ → Text → RegisterAnswer

abbrev pub answer : ℕ → Text → AuthDb → Result AuthDb → RegisterAnswer × AuthDb
answer user_id email d (ok d') = (created user_id email, d')
answer user_id email d (err e) = (seeding_failed, d)

abbrev pub is_falsy : Option Text → Bool
is_falsy none = true
is_falsy (some []) = true
is_falsy (some (c ∷ t)) = false

-- A field of the body that is missing or empty.
abbrev pub or_empty : Option Text → Text
or_empty none = []
or_empty (some t) = t

-- The summary and the two legs of the seed, as they are inserted.
abbrev pub seed_summary : ℕ → ℕ → ℕ → Statement
seed_summary seed_tx_id checking_id amount = referring system_id (
    referring checking_id (
      on_tables (
        insert_transaction (record {
          id = seed_tx_id;
          amount = amount;
          currency = usd;
          source_account_id = system_id;
          dest_account_id = checking_id;
        }))))

abbrev pub seed_leg : ℕ → ℕ → EntryType → ℕ → Statement
seed_leg seed_tx_id account type amount =
    referring account (on_tables (insert_entry (seed_entry seed_tx_id account type amount)))

unfoldable pub seed_legs : ℕ → ℕ → ℕ → List Statement
seed_legs seed_tx_id checking_id amount =
    seed_summary seed_tx_id checking_id amount
    ∷ on_tables (sub_balance amount system_id)
    ∷ seed_leg seed_tx_id system_id debit amount
    ∷ seed_leg seed_tx_id checking_id credit amount
    ∷ []

module _ (uuid : ℕ → ℕ) (show_id : ℕ → Text) (hash : Text → Text) (units : ℕ) where
  -- One turn of the loop over the currencies; n counts the UUIDs that are used up.
  unfoldable pub seed_wallet : ℕ → Text → List Statement
  seed_wallet n cur =
      let is_usd = text_eq cur usd in
      let initial = if is_usd then 100000 * units else 0 in
      let number = account_number (show_id (uuid 0)) cur in
      insert_account (wallet (uuid n) (uuid 0) cur checking initial) number
      ∷ insert_account (wallet (uuid (suc n)) (uuid 0) cur escrow 0) (number ++ codes "-ESCROW")
      ∷ (if is_usd then seed_legs (uuid (n + 2)) (uuid n) initial else [])

  abbrev pub next_uuid : ℕ → Text → ℕ
  next_uuid n cur = if text_eq cur usd then n + 3 else n + 2

  unfoldable pub seed_wallets : ℕ → List Text → List Statement
  seed_wallets n [] = []
  seed_wallets n (cur ∷ curs) = seed_wallet n cur ++ seed_wallets (next_uuid n cur) curs

  unfoldable pub registration : Text → Text → Statement
  registration email password = run_all (
      insert_user (record { id = uuid 0; email = lower email; password_hash = hash password })
      ∷ seed_wallets 1 currencies)

  abbrev pub register_new : Text → Text → AuthDb → RegisterAnswer × AuthDb
  register_new email password d =
      if has_email (lower email) d.users
      then (conflict, d)
      else answer (uuid 0) email d (registration email password d)

  unfoldable pub register : Option Text → Option Text → AuthDb → RegisterAnswer × AuthDb
  register email password d =
      if is_falsy email || is_falsy password
      then (bad_request, d)
      else register_new (or_empty email) (or_empty password) d
