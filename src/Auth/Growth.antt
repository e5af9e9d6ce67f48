-- ===== src/Auth/Growth.antt =====
-- What the statements of a registration, in backend/src/controllers/auth.ts, do to the money of the
-- ledger.
use aether_x.Prelude.{
  ℕ, ◌+◌, ◌≡◌, refl, List, [], ◌∷◌, ◌++◌, false, total-append, any, ◌==◌, if◌then◌else◌, Bool-cases,
  Option-cases, inl, inr, arith,
}
use aether_x.Prelude.Text.{Text, text_eq}
use aether_x.Ledger.Table.{
  Account, Transaction, Db, Result, ok, err, sub_rows, sub_balance, insert_transaction,
}
use aether_x.Ledger.Engine.{usd}
use aether_x.Ledger.Rows.{
  has_id, HasKey, IsListed, money, has_transaction, sub_rows_keeps, money-sub_rows,
}
use aether_x.Ledger.Reconcile.{IsBalanced, ArePositive}
use aether_x.Ledger.Keeping.{Keeps}
use aether_x.Auth.Users.{
  AuthDb, Statement, then_run, run_all, on_tables, has_user, insert_account, referring, system_id,
}

-- What holds after a statement that goes through.
abbrev pub Succeeds : (AuthDb → Type 0) → Result AuthDb → Type 0
Succeeds P (ok d) = P d
Succeeds P (err e) = Unit

pub then_run-Succeeds :
    (P Q : AuthDb → Type 0) (r : Result AuthDb) (s : Statement)
    → Succeeds Q r
    → ((d : AuthDb) → Q d → Succeeds P (s d))
    → Succeeds P (then_run r s)
then_run-Succeeds P Q (ok d) s q k = k d q
then_run-Succeeds P Q (err e) s q k = tt

-- One statement of a list, and the others.
pub run_all-Succeeds :
    (P Q : AuthDb → Type 0) (s : Statement) (ss : List Statement) (d : AuthDb)
    → Succeeds Q (s d)
    → ((d' : AuthDb) → Q d' → Succeeds P (run_all ss d'))
    → Succeeds P (run_all (s ∷ ss) d)
run_all-Succeeds P Q s ss d q k = then_run-Succeeds P Q (s d) (run_all ss) q k

pub run_all-++ :
    (ss ts : List Statement) (d : AuthDb)
    → run_all (ss ++ ts) d ≡ then_run (run_all ss d) (run_all ts)
run_all-++ [] ts d = refl
run_all-++ (s ∷ ss) ts d = go (s d) (λ d'. run_all-++ ss ts d')
  where
    go :
        (r : Result AuthDb)
        → ((d' : AuthDb) → run_all (ss ++ ts) d' ≡ then_run (run_all ss d') (run_all ts))
        → then_run r (run_all (ss ++ ts)) ≡ then_run (then_run r (run_all ss)) (run_all ts)
    go (ok d') ih = ih d'
    go (err e) ih = refl

pub referring-Succeeds :
    (P : AuthDb → Type 0) (id : ℕ) (s : Statement) (d : AuthDb)
    → Succeeds P (s d)
    → Succeeds P (referring id s d)
referring-Succeeds P id s d h = elim (Bool-cases (has_id id d.tables.accounts)) [
  | inl there ↦ rw there h
  | inr missing ↦ rw missing tt
]

-- `Keeps`, but for an amount of dollars that is still to be paid.
pub record Grows (amount : ℕ) (db db' : Db) : Type 0 where
  pub key : HasKey db'.accounts
  pub listed : (j : ℕ) (k : Text) → IsListed j k db.accounts → IsListed j k db'.accounts
  pub grown :
      (c : Text)
      → money c db'.accounts ≡ money c db.accounts + (if text_eq usd c then amount else 0)
  pub balanced : IsBalanced db → IsBalanced db'
  pub positive : ArePositive db.entries → ArePositive db'.entries

pub Grows-none : (db db' : Db) → Grows 0 db db' → Keeps db db'
Grows-none db db' g = record {
  key = g.key;
  listed = g.listed;
  conserved = λ c. ground (arith, g.grown c);
  balanced = g.balanced;
  positive = g.positive;
}

pub none-Grows : (db db' : Db) → Keeps db db' → Grows 0 db db'
none-Grows db db' g = record {
  key = g.key;
  listed = g.listed;
  grown = λ c. ground (arith, g.conserved c);
  balanced = g.balanced;
  positive = g.positive;
}

has_id-++ :
    (j : ℕ) (rows : List Account) (a : Account)
    → has_id j rows ≡ false
    → (a.id == j) ≡ false
    → has_id j (rows ++ a ∷ []) ≡ false
has_id-++ j [] a h e = ground arith
has_id-++ j (b ∷ rows) a h e = ground (arith, has_id-++ j rows a (ground arith) e)

HasKey-++ :
    (rows : List Account) (a : Account)
    → HasKey rows
    → has_id a.id rows ≡ false
    → HasKey (rows ++ a ∷ [])
HasKey-++ [] a u h = (refl, tt)
HasKey-++ (b ∷ rows) a u h =
    (has_id-++ b.id rows a u.0 (ground arith), HasKey-++ rows a u.1 (ground arith))

IsListed-++ :
    (j : ℕ) (k : Text) (rows : List Account) (a : Account)
    → IsListed j k rows
    → IsListed j k (rows ++ a ∷ [])
IsListed-++ j k [] a h = absurd h
IsListed-++ j k (b ∷ rows) a (inl e) = inl e
IsListed-++ j k (b ∷ rows) a (inr h) = inr (IsListed-++ j k rows a h)

-- A new wallet adds its balance to the money of its currency.
insert_account-Grows :
    (a : Account) (number : Text) (d : AuthDb) (db : Db) (before after : ℕ)
    → Grows before db d.tables
    → ((c : Text)
        → (if text_eq usd c then before else 0) + (if text_eq a.currency c then a.balance else 0)
          ≡ (if text_eq usd c then after else 0))
    → Succeeds (λ d'. Grows after db d'.tables) (insert_account a number d)
unfolding insert_account
insert_account-Grows a number d db before after g owed =
    elim (Bool-cases (has_id a.id d.tables.accounts)) [
      | inl old ↦ rw old tt
      | inr new ↦ rw new (elim (Bool-cases (any (text_eq number) d.account_numbers)) [
        | inl old ↦ rw old tt
        | inr fresh ↦ rw fresh (elim (Bool-cases (has_user a.owner_id d.users)) [
          | inl owned ↦ rw owned (record {
            key = HasKey-++ d.tables.accounts a g.key new;
            listed = λ j k h. IsListed-++ j k d.tables.accounts a (g.listed j k h);
            grown = λ c. ground (
              arith,
              total-append (λ (x : Account). if text_eq x.currency c then x.balance else 0)
                  d.tables.accounts (a ∷ []),
              g.grown c,
              owed c,
            );
            balanced = g.balanced;
            positive = g.positive;
          })
          | inr unowned ↦ rw unowned tt
        ])
      ])
    ]

pub insert_account-empty :
    (a : Account) (number : Text) (d : AuthDb) (db : Db) (amount : ℕ)
    → a.balance ≡ 0
    → Grows amount db d.tables
    → Succeeds (λ d'. Grows amount db d'.tables) (insert_account a number d)
insert_account-empty a number d db amount z g =
    insert_account-Grows a number d db amount amount g (λ c. rw z (ground arith))

pub insert_account-funded :
    (a : Account) (number : Text) (d : AuthDb) (db : Db)
    → a.currency ≡ usd
    → Grows 0 db d.tables
    → Succeeds (λ d'. Grows a.balance db d'.tables) (insert_account a number d)
insert_account-funded a number d db k g =
    insert_account-Grows a number d db 0 a.balance g (λ c. rw k (ground arith))

pub transaction-Grows :
    (t : Transaction) (d : AuthDb) (db : Db) (amount : ℕ)
    → Grows amount db d.tables
    → Succeeds (λ d'. Grows amount db d'.tables) (on_tables (insert_transaction t) d)
unfolding insert_transaction
transaction-Grows t d db amount g = elim (Bool-cases (has_transaction t.id d.tables)) [
  | inl old ↦ rw old tt
  | inr new ↦ rw new (record {
    key = g.key;
    listed = g.listed;
    grown = g.grown;
    balanced = g.balanced;
    positive = g.positive;
  })
]

-- The debit of the system's account pays what was owed.
pub sub_balance-Grows :
    (amount : ℕ) (d : AuthDb) (db : Db)
    → IsListed system_id usd db.accounts
    → Grows amount db d.tables
    → Succeeds (λ d'. Grows 0 db d'.tables) (on_tables (sub_balance amount system_id) d)
unfolding sub_balance
sub_balance-Grows amount d db s g =
    elim (Option-cases (sub_rows amount system_id d.tables.accounts)) [
      | inl refused ↦ rw refused tt
      | inr (rows, e) ↦
          let keep = sub_rows_keeps amount system_id d.tables.accounts rows e in
          rw e (record {
            key = keep.1 g.key;
            listed = λ j k h. keep.2 j k (g.listed j k h);
            grown = λ c. ground (
              arith,
              money-sub_rows c usd amount system_id d.tables.accounts rows g.key
                  (g.listed system_id usd s) e,
              g.grown c,
            );
            balanced = g.balanced;
            positive = g.positive;
          })
    ]
