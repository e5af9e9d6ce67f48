-- ===== src/Front/Inspector.antt =====
-- The ledger's inspector: `getLedgerEntries` of backend/src/controllers/stats.ts and the groups of
-- frontend/src/components/LedgerViewer.tsx. How PostgreSQL orders the rows is a parameter; the columns
-- that are only shown are left out, and a transaction's id stands for its unique reference.
use aether_x.Prelude.{
  ℕ, zero, suc, ◌≤◌, ◌≡◌, refl, sym, ap, ◌∙◌, List, [], ◌∷◌, ◌++◌, append_nil, append_assoc, Option,
  none, some, Bool, true, ◌&&◌, keep, take, length, any, total, All, ◌==◌, Bool-cases, inl, inr,
  if◌then◌else◌, arith,
}
use aether_x.Ledger.Table.{Account, Transaction, LedgerEntry, Db}
use aether_x.Ledger.Reconcile.{is_debit, debit_of, credit_of, debits, credits, IsBalanced}

-- `JOIN accounts`, `JOIN transactions`
abbrev pub is_joined : Db → LedgerEntry → Bool
is_joined db e =
    any (λ (a : Account). a.id == e.account_id) db.accounts
    && any (λ (t : Transaction). t.id == e.transaction_id) db.transactions

-- The subquery: the transactions with a leg on an account of the user.
abbrev pub is_of_user : ℕ → Db → LedgerEntry → Bool
is_of_user user db e = any (λ (a : Account). a.id == e.account_id && a.owner_id == user) db.accounts

abbrev pub participates : ℕ → Db → ℕ → Bool
participates user db t =
    any (λ (e : LedgerEntry). e.transaction_id == t && is_of_user user db e) db.entries

abbrev pub matching_rows : ℕ → Db → List LedgerEntry
matching_rows user db =
    keep (λ (e : LedgerEntry). is_joined db e && participates user db e.transaction_id) db.entries

pub data EntriesAnswer : Type 0 where
  unauthorized : EntriesAnswer
  ledger_entries : List LedgerEntry → EntriesAnswer

unfoldable pub get_ledger_entries :
    (List LedgerEntry → List LedgerEntry) → Option ℕ → Db → EntriesAnswer
get_ledger_entries order_by none db = unauthorized
get_ledger_entries order_by (some user) db =
    ledger_entries (take 100 (order_by (matching_rows user db)))

-- `groupedTxns`
pub record Group : Type 0 where
  pub reference : ℕ
  pub legs : List LedgerEntry

abbrev pub push_leg : LedgerEntry → List Group → List Group
push_leg e [] = record { reference = e.transaction_id; legs = e ∷ [] } ∷ []
push_leg e (g ∷ gs) =
    let rest = push_leg e gs in
    if g.reference == e.transaction_id then record g { legs = g.legs ++ e ∷ [] } ∷ gs else g ∷ rest

abbrev pub group_legs : List Group → List LedgerEntry → List Group
group_legs acc [] = acc
group_legs acc (e ∷ es) = group_legs (push_leg e acc) es

unfoldable pub grouped_txns : List LedgerEntry → List Group
grouped_txns = group_legs []

-- The legs under a reference.
abbrev pub legs_of : ℕ → List Group → List LedgerEntry
legs_of t [] = []
legs_of t (g ∷ gs) = if g.reference == t then g.legs else legs_of t gs

abbrev of_transaction : ℕ → List LedgerEntry → List LedgerEntry
of_transaction t = keep (λ (e : LedgerEntry). e.transaction_id == t)

legs_of-push_leg :
    (t : ℕ) (e : LedgerEntry) (gs : List Group)
    → legs_of t (push_leg e gs)
      ≡ (if e.transaction_id == t then legs_of t gs ++ e ∷ [] else legs_of t gs)
legs_of-push_leg t e [] = ground arith
legs_of-push_leg t e (g ∷ gs) = ground (arith, legs_of-push_leg t e gs)

legs_of-group_legs :
    (t : ℕ) (es : List LedgerEntry) (gs : List Group)
    → legs_of t (group_legs gs es) ≡ legs_of t gs ++ of_transaction t es
legs_of-group_legs t [] gs = sym (append_nil (legs_of t gs))
legs_of-group_legs t (e ∷ es) gs =
    legs_of-group_legs t es (push_leg e gs)
    ∙ ground
        (arith, legs_of-push_leg t e gs, append_assoc (legs_of t gs) (e ∷ []) (of_transaction t es))

abbrev pub debit_amount : LedgerEntry → ℕ
debit_amount e = if is_debit e.entry_type then e.amount else 0

abbrev pub credit_amount : LedgerEntry → ℕ
credit_amount e = if is_debit e.entry_type then 0 else e.amount

total-of_transaction :
    (t : ℕ) (es : List LedgerEntry)
    → (total debit_amount (of_transaction t es) ≡ debits t es)
      × (total credit_amount (of_transaction t es) ≡ credits t es)
total-of_transaction t [] = (refl, refl)
total-of_transaction t (e ∷ es) = ground (arith, total-of_transaction t es)

module _ (db : Db) (chosen : ℕ → Bool) where
  abbrev is_kept : LedgerEntry → Bool
  is_kept e = is_joined db e && chosen e.transaction_id

  kept_sums :
      (t : ℕ) (es : List LedgerEntry)
      → All (λ (e : LedgerEntry). is_joined db e ≡ true) es
      → (debits t (keep is_kept es) ≡ (if chosen t then debits t es else 0))
        × (credits t (keep is_kept es) ≡ (if chosen t then credits t es else 0))
  kept_sums t [] h = ground arith
  kept_sums t (e ∷ es) h = elim (Bool-cases (chosen e.transaction_id)) [
    | inl taken ↦
        rw (h.0, taken)
          (ground (arith, taken, kept_sums t es h.1, λ (i : e.transaction_id ≡ t). ap chosen i))
    | inr dropped ↦
        rw (h.0, dropped)
          (ground (arith, dropped, kept_sums t es h.1, λ (i : e.transaction_id ≡ t). ap chosen i))
  ]

take-all : {A : Type 0} (n : ℕ) (xs : List A) → length xs ≤ n → take n xs ≡ xs
take-all zero [] h = refl
take-all zero (x ∷ xs) h = absurd (omega (arith, h))
take-all (suc n) [] h = refl
take-all (suc n) (x ∷ xs) h = ap (λ ys. x ∷ ys) (take-all n xs (omega (arith, h)))

answered_rows :
    (rows kept : List LedgerEntry) → ledger_entries kept ≡ ledger_entries rows → kept ≡ rows
answered_rows rows kept e = cc

-- Where the order in which PostgreSQL answers changes no sum and no length, every entry refers to an
-- account and a transaction, the books balance, and the user's transactions have at most 100 legs, so
-- that the limit cuts nothing: the debits and the credits under every reference of the inspector are
-- equal.
pub grouped_txns-get_ledger_entries :
    (order_by : List LedgerEntry → List LedgerEntry) (user : ℕ) (db : Db) (rows : List LedgerEntry)
    (t : ℕ)
    → ((f : LedgerEntry → ℕ) (xs : List LedgerEntry) → total f (order_by xs) ≡ total f xs)
    → ((xs : List LedgerEntry) → length (order_by xs) ≡ length xs)
    → get_ledger_entries order_by (some user) db ≡ ledger_entries rows
    → All (λ (e : LedgerEntry). is_joined db e ≡ true) db.entries
    → IsBalanced db
    → length (matching_rows user db) ≤ 100
    → total debit_amount (legs_of t (grouped_txns rows))
      ≡ total credit_amount (legs_of t (grouped_txns rows))
unfolding get_ledger_entries grouped_txns
grouped_txns-get_ledger_entries order_by user db rows t sums lengths e joined balanced short =
    let found = order_by (matching_rows user db) in
    let shown : found ≡ rows =
      sym (take-all 100 found (omega (arith, lengths (matching_rows user db), short)))
      ∙ answered_rows rows _ e in
    let kept = kept_sums db (participates user db) t db.entries joined in
    let legs = legs_of-group_legs t rows [] in
    let both = total-of_transaction t rows in
    ap (total debit_amount) legs
    ∙ both.0
    ∙ ap (debits t) (sym shown)
    ∙ sums (debit_of t) (matching_rows user db)
    ∙ kept.0
    ∙ ap (λ n. if participates user db t then n else 0) (balanced t)
    ∙ sym kept.1
    ∙ sym (sums (credit_of t) (matching_rows user db))
    ∙ ap (credits t) shown
    ∙ sym both.1
    ∙ sym (ap (total credit_amount) legs)
