-- ===== src/Ledger/Keeping.antt =====
-- What a movement of money and a transaction of backend/src/services/ledgerEngine.ts keep.
use aether_x.Prelude.{ℕ, ◌≡◌, refl, ◌<◌, [], ◌∷◌, ◌++◌, All-append, arith}
use aether_x.Prelude.Text.{Text}
use aether_x.Ledger.Table.{
  Account, LedgerEntry, Db, LedgerError, Result, ok, err, Query, go_on, in_transaction,
  close_transaction,
}
use aether_x.Ledger.Engine.{move_funds}
use aether_x.Ledger.Reconcile.{IsBalanced, ArePositive, append_legs}
use aether_x.Ledger.Rows.{
  HasKey, IsListed, money, money-add_rows, money-sub_rows, add_rows-HasKey, add_rows-IsListed,
  sub_rows_keeps, move_funds-ok,
}

-- What holds of the tables if the query goes through.
pub data Ensures {A : Type 0} (P : Db → Type 0) : Result (A × Db) → Type 0 where
  done : {a : A} {db : Db} → P db → Ensures P (ok (a, db))
  failed : {e : LedgerError} → Ensures P (err e)

pub go_on-Ensures :
    {A B : Type 0} {P Q : Db → Type 0} {m : Result (A × Db)} (f : A → Db → Result (B × Db))
    → Ensures Q m
    → ((a : A) (db : Db) → Q db → Ensures P (f a db))
    → Ensures P (go_on m f)
go_on-Ensures f (done {a} {db} q) k = k a db q
go_on-Ensures f failed k = failed

-- What every operation keeps: the key of the accounts, the accounts, and the money of each currency.
pub record Keeps (db db' : Db) : Type 0 where
  pub key : HasKey db'.accounts
  pub listed : (j : ℕ) (k : Text) → IsListed j k db.accounts → IsListed j k db'.accounts
  pub conserved : (c : Text) → money c db'.accounts ≡ money c db.accounts
  pub balanced : IsBalanced db → IsBalanced db'
  pub positive : ArePositive db.entries → ArePositive db'.entries

pub Keeps-trans : (db db' db'' : Db) → Keeps db db' → Keeps db' db'' → Keeps db db''
Keeps-trans db db' db'' h k = record {
  key = k.key;
  listed = λ j c l. k.listed j c (h.listed j c l);
  conserved = λ c. omega (arith, h.conserved c, k.conserved c);
  balanced = λ b. k.balanced (h.balanced b);
  positive = λ b. k.positive (h.positive b);
}

move_funds-Keeps :
    (transaction_id amount : ℕ) (currency k : Text) (source dest : Account) (db db' : Db)
    → HasKey db.accounts
    → IsListed source.id k db.accounts
    → IsListed dest.id k db.accounts
    → move_funds transaction_id amount currency source dest db ≡ ok (tt, db')
    → Keeps db db'
move_funds-Keeps transaction_id amount currency k source dest db db' u hs hd e =
    let (rows, sub, pays, is) = move_funds-ok transaction_id amount currency source dest db db' e in
    let keep = sub_rows_keeps amount source.id db.accounts rows sub in
    rw is (record {
      key = add_rows-HasKey amount dest.id rows (keep.1 u);
      listed = λ j c l. add_rows-IsListed j c amount dest.id rows (keep.2 j c l);
      conserved = λ c. omega (
        arith,
        money-add_rows c k amount dest.id rows (keep.1 u) (keep.2 dest.id k hd),
        money-sub_rows c k amount source.id db.accounts rows u hs sub,
      );
      balanced = λ b t. append_legs db.entries _ _ t refl refl refl refl (b t);
      positive = λ b.
          All-append (λ (x : LedgerEntry). 0 < x.amount) (db.entries ++ _ ∷ []) (_ ∷ [])
            (All-append (λ (x : LedgerEntry). 0 < x.amount) db.entries (_ ∷ []) b (pays, tt))
            (pays, tt);
    })

-- A movement between two accounts of one currency.
pub move_funds-Ensures :
    (transaction_id amount : ℕ) (currency k : Text) (source dest : Account) (db₀ db : Db)
    → Keeps db₀ db
    → IsListed source.id k db₀.accounts
    → IsListed dest.id k db₀.accounts
    → Ensures (Keeps db₀) (move_funds transaction_id amount currency source dest db)
move_funds-Ensures transaction_id amount currency k source dest db₀ db h hs hd =
    go (move_funds transaction_id amount currency source dest db) (λ db' e.
      Keeps-trans db₀ db db' h (
        move_funds-Keeps transaction_id amount currency k source dest db db' h.key
          (h.listed source.id k hs) (h.listed dest.id k hd) e))
  where
    go :
        (r : Result (Unit {0} × Db))
        → ((db' : Db) → r ≡ ok (tt, db') → Keeps db₀ db')
        → Ensures (Keeps db₀) r
    go (ok (u, db')) f = done (f db' refl)
    go (err e) f = failed

pub Keeps-refl : (db : Db) → HasKey db.accounts → Keeps db db
Keeps-refl db u = record {
  key = u;
  listed = λ j k l. l;
  conserved = λ c. refl;
  balanced = λ b. b;
  positive = λ b. b;
}

pub in_transaction-Keeps :
    (body : Query (Unit {0})) (db : Db)
    → HasKey db.accounts
    → Ensures (Keeps db) (body db)
    → Keeps db (in_transaction body db).1
unfolding in_transaction
in_transaction-Keeps body db u h = go (body db) h
  where
    go : (r : Result (Unit {0} × Db)) → Ensures (Keeps db) r → Keeps db (close_transaction db r).1
    go (ok (x, db')) (done k) = k
    go (err e) failed = Keeps-refl db u
