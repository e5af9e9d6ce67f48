-- ===== src/Ledger/Rows.antt =====
-- The account rows under the two updates, and what one movement of money does.
use aether_x.Prelude.{
  ℕ, ◌+◌, ◌<◌, ◌≡◌, refl, ◌⊎◌, inl, inr, List, [], ◌∷◌, ◌++◌, none, some, Bool, true, false, any,
  total, arith, ltb, ◌==◌, if◌then◌else◌, Bool-cases, Option-cases,
}
use aether_x.Prelude.Text.{Text, text_eq, text_eq_sound}
use aether_x.Ledger.Table.{
  AccountType, debit, credit, Account, Transaction, Db, ok, err, negative_balance,
  amount_not_positive, duplicate_key, sub_rows, add_rows, matches, find_account, insert_transaction,
  sub_balance, add_balance, insert_entry,
}
use aether_x.Ledger.Engine.{move_funds}

abbrev pub has_id : ℕ → List Account → Bool
has_id id = any (λ a. a.id == id)

-- `id` is the primary key.
abbrev pub HasKey : List Account → Type 0
HasKey [] = Unit
HasKey (a ∷ as') = (has_id a.id as' ≡ false) × HasKey as'

-- There is an account of this id and currency.
abbrev pub IsListed : ℕ → Text → List Account → Type 0
IsListed id currency [] = ⊥
IsListed id currency (a ∷ as') = ((a.id ≡ id) × (a.currency ≡ currency)) ⊎ IsListed id currency as'

-- The money of one currency.
abbrev pub money : Text → List Account → ℕ
money c = total (λ a. if text_eq a.currency c then a.balance else 0)

pub has_id-of_listed :
    (id : ℕ) (k : Text) (rows : List Account) → IsListed id k rows → has_id id rows ≡ true
has_id-of_listed id k [] h = absurd h
has_id-of_listed id k (a ∷ rows) (inl e) = ground arith
has_id-of_listed id k (a ∷ rows) (inr h) = ground (arith, has_id-of_listed id k rows h)

add_rows-absent :
    (amount id : ℕ) (rows : List Account) → has_id id rows ≡ false → add_rows amount id rows ≡ rows
add_rows-absent amount id [] h = refl
add_rows-absent amount id (a ∷ rows) h = ground (arith, add_rows-absent amount id rows)

pub sub_rows-absent :
    (amount id : ℕ) (rows : List Account)
    → has_id id rows ≡ false
    → sub_rows amount id rows ≡ some rows
sub_rows-absent amount id [] h = refl
sub_rows-absent amount id (a ∷ rows) h = ground (arith, sub_rows-absent amount id rows)

-- A credit adds its amount to the money of its account's currency.
pub money-add_rows :
    (c k : Text) (amount id : ℕ) (rows : List Account)
    → HasKey rows
    → IsListed id k rows
    → money c (add_rows amount id rows) ≡ money c rows + (if text_eq k c then amount else 0)
money-add_rows c k amount id [] u h = absurd h
money-add_rows c k amount id (a ∷ rows) u (inl e) =
    rw (← e.1) (ground (arith, add_rows-absent amount id rows))
money-add_rows c k amount id (a ∷ rows) u (inr h) =
    ground (arith, money-add_rows c k amount id rows u.1 h, has_id-of_listed id k rows h)

-- A debit that is not refused takes its amount from it.
pub money-sub_rows :
    (c k : Text) (amount id : ℕ) (rows rows' : List Account)
    → HasKey rows
    → IsListed id k rows
    → sub_rows amount id rows ≡ some rows'
    → money c rows' + (if text_eq k c then amount else 0) ≡ money c rows
money-sub_rows c k amount id [] rows' u h e = absurd h
money-sub_rows c k amount id (a ∷ rows) rows' u (inl g) e =
    rw (← g.1) (ground (arith, sub_rows-absent amount id rows))
money-sub_rows c k amount id (a ∷ rows) rows' u (inr h) e =
    elim (Option-cases (sub_rows amount id rows)) [
      | inl refused ↦ absurd (ground arith)
      | inr (rest, e') ↦
          ground
            (arith, money-sub_rows c k amount id rows rest u.1 h e', has_id-of_listed id k rows h)
    ]

has_id-add_rows :
    (j amount id : ℕ) (rows : List Account) → has_id j (add_rows amount id rows) ≡ has_id j rows
has_id-add_rows j amount id [] = refl
has_id-add_rows j amount id (a ∷ rows) = ground (arith, has_id-add_rows j amount id rows)

pub add_rows-HasKey :
    (amount id : ℕ) (rows : List Account) → HasKey rows → HasKey (add_rows amount id rows)
add_rows-HasKey amount id [] u = tt
add_rows-HasKey amount id (a ∷ rows) u =
    ground (arith, add_rows-HasKey amount id rows u.1, has_id-add_rows a.id amount id rows)

pub add_rows-IsListed :
    (j : ℕ) (k : Text) (amount id : ℕ) (rows : List Account)
    → IsListed j k rows
    → IsListed j k (add_rows amount id rows)
add_rows-IsListed j k amount id [] h = h
add_rows-IsListed j k amount id (a ∷ rows) (inl e) = inl (ground arith)
add_rows-IsListed j k amount id (a ∷ rows) (inr h) = inr (add_rows-IsListed j k amount id rows h)

-- A debit keeps the key and every account.
pub sub_rows_keeps :
    (amount id : ℕ) (rows rows' : List Account)
    → sub_rows amount id rows ≡ some rows'
    → ((j : ℕ) → has_id j rows' ≡ has_id j rows)
      × (HasKey rows → HasKey rows')
      × ((j : ℕ) (k : Text) → IsListed j k rows → IsListed j k rows')
sub_rows_keeps amount id [] rows' e = (λ j. ground arith, λ u. ground arith, λ j k h. absurd h)
sub_rows_keeps amount id (a ∷ rows) rows' e = elim (Option-cases (sub_rows amount id rows)) [
  | inl refused ↦ absurd (ground arith)
  | inr (rest, e') ↦
      let ih = sub_rows_keeps amount id rows rest e' in
      (
        λ j. ground (arith, ih.0 j),
        λ u. ground (arith, ih.0 a.id, ih.1 u.1),
        λ j k h. ground (arith, ih.2 j k),
      )
]

pub find_account-IsListed :
    (owner : ℕ) (k : Text) (t : AccountType) (rows : List Account) (a : Account)
    → find_account owner k t rows ≡ some a
    → IsListed a.id k rows
find_account-IsListed owner k t [] a e = cc
find_account-IsListed owner k t (b ∷ rows) a e = elim (Bool-cases (matches owner k t b)) [
  | inl found ↦ inl (ground arith, text_eq_sound b.currency k (ground arith))
  | inr other ↦ inr (find_account-IsListed owner k t rows a (ground arith))
]

-- The tables after a movement of money that goes through.
abbrev pub moved : ℕ → ℕ → Text → Account → Account → List Account → Db → Db
moved transaction_id amount currency source dest rows db = record {
  accounts = add_rows amount dest.id rows;
  transactions =
      db.transactions
      ++ record {
        id = transaction_id;
        amount = amount;
        currency = currency;
        source_account_id = source.id;
        dest_account_id = dest.id;
      }
        ∷ [];
  entries =
      (db.entries
        ++ record {
          transaction_id = transaction_id;
          account_id = source.id;
          entry_type = debit;
          amount = amount;
          currency = currency;
        }
          ∷ [])
      ++ record {
        transaction_id = transaction_id;
        account_id = dest.id;
        entry_type = credit;
        amount = amount;
        currency = currency;
      }
        ∷ [];
}

abbrev pub has_transaction : ℕ → Db → Bool
has_transaction id db = any (λ (u : Transaction). u.id == id) db.transactions

-- It goes through exactly if its id is new, the debit is not refused and the amount is positive.
pub move_funds_lem :
    (transaction_id amount : ℕ) (currency : Text) (source dest : Account) (db : Db)
    → move_funds transaction_id amount currency source dest db ≡ (
        if has_transaction transaction_id db
        then err duplicate_key
        else elim (sub_rows amount source.id db.accounts) [
          | none ↦ err negative_balance
          | some rows ↦
              if ltb 0 amount
              then ok (tt, moved transaction_id amount currency source dest rows db)
              else err amount_not_positive
        ])
unfolding move_funds insert_transaction sub_balance insert_entry add_balance
move_funds_lem transaction_id amount currency source dest db =
    elim (Bool-cases (has_transaction transaction_id db)) [
      | inl old ↦ rw old refl
      | inr new ↦ rw new (elim (Option-cases (sub_rows amount source.id db.accounts)) [
        | inl refused ↦ rw refused refl
        | inr (rows, e) ↦ rw e (elim (Bool-cases (ltb 0 amount)) [
          | inl enough ↦ rw enough (rw enough refl)
          | inr zero_amount ↦ rw zero_amount refl
        ])
      ])
    ]

pub move_funds-ok :
    (transaction_id amount : ℕ) (currency : Text) (source dest : Account) (db db' : Db)
    → move_funds transaction_id amount currency source dest db ≡ ok (tt, db')
    → (rows : List Account) × (sub_rows amount source.id db.accounts ≡ some rows)
      × (0 < amount)
      × (db' ≡ moved transaction_id amount currency source dest rows db)
move_funds-ok transaction_id amount currency source dest db db' e =
    elim (Option-cases (sub_rows amount source.id db.accounts)) [
      | inl refused ↦
          absurd (ground (arith, move_funds_lem transaction_id amount currency source dest db))
      | inr (rows, k) ↦ (
        rows,
        k,
        ground (arith, move_funds_lem transaction_id amount currency source dest db),
        ground (arith, move_funds_lem transaction_id amount currency source dest db),
      )
    ]
