-- ===== src/Ledger/Reconcile.antt =====
-- `runReconciliationJob` of backend/src/services/ledgerEngine.ts and `verifyInvariants` of
-- backend/src/services/reconciliationWorker.ts: the two checks of the ledger's books.
use aether_x.Prelude.{
  ℕ, ◌<◌, ◌≡◌, refl, List, [], ◌∷◌, ◌++◌, Bool, true, false, not, ◌&&◌, total, keep, All, arith,
  ltb, ◌==◌, if◌then◌else◌, length, total-append,
}
use aether_x.Prelude.Text.{Text, text_eq, text_eq_refl}
use aether_x.Ledger.Table.{EntryType, debit, credit, Account, LedgerEntry, Db}

abbrev pub is_debit : EntryType → Bool
is_debit debit = true
is_debit credit = false

-- The two halves of `SUM(CASE WHEN entry_type = 'DEBIT' THEN amount ELSE -amount END)` in the group of
-- one transaction.
abbrev pub debit_of : ℕ → LedgerEntry → ℕ
debit_of t e = if e.transaction_id == t && is_debit e.entry_type then e.amount else 0

abbrev pub credit_of : ℕ → LedgerEntry → ℕ
credit_of t e = if e.transaction_id == t && not (is_debit e.entry_type) then e.amount else 0

abbrev pub debits : ℕ → List LedgerEntry → ℕ
debits t = total (debit_of t)

abbrev pub credits : ℕ → List LedgerEntry → ℕ
credits t = total (credit_of t)

-- The groups of `GROUP BY transaction_id`.
abbrev pub transaction_ids : List LedgerEntry → List ℕ
transaction_ids [] = []
transaction_ids (e ∷ es) =
    e.transaction_id ∷ keep (λ t. not (t == e.transaction_id)) (transaction_ids es)

-- The first query: the transactions whose debits and credits differ.
unfoldable pub mismatched : Db → List ℕ
mismatched db =
    keep (λ t. not (debits t db.entries == credits t db.entries)) (transaction_ids db.entries)

-- The second query. The CHECK of the table leaves it nothing to find.
unfoldable pub negative : Db → List Account
negative db = keep (λ a. ltb a.balance 0) db.accounts

pub record Report : Type 0 where
  pub mismatches : List ℕ
  pub negatives : List Account

unfoldable pub run_reconciliation_job : Db → Report
unfolding mismatched negative
run_reconciliation_job db = record { mismatches = mismatched db; negatives = negative db }

-- The worker's second query: `SUM(amount)` by currency, with no sign.
abbrev pub sum_of : Text → List LedgerEntry → ℕ
sum_of c = total (λ e. if text_eq e.currency c then e.amount else 0)

abbrev pub currencies : List LedgerEntry → List Text
currencies [] = []
currencies (e ∷ es) = e.currency ∷ keep (λ c. not (text_eq c e.currency)) (currencies es)

unfoldable pub imbalanced : Db → List Text
imbalanced db = keep (λ c. not (sum_of c db.entries == 0)) (currencies db.entries)

pub data Issue : Type 0 where
  negative_balances : ℕ → Issue
  ledger_imbalance : List Text → Issue

abbrev pub negative_issue : List Account → List Issue
negative_issue [] = []
negative_issue (a ∷ as') = negative_balances (length (a ∷ as')) ∷ []

abbrev pub imbalance_issue : List Text → List Issue
imbalance_issue [] = []
imbalance_issue (c ∷ cs) = ledger_imbalance (c ∷ cs) ∷ []

unfoldable pub verify_invariants : Db → List Issue
unfolding negative imbalanced
verify_invariants db = negative_issue (negative db) ++ imbalance_issue (imbalanced db)

-- Every transaction's debits are its credits.
abbrev pub IsBalanced : Db → Type 0
IsBalanced db = (t : ℕ) → debits t db.entries ≡ credits t db.entries

-- Two matching legs keep a transaction balanced.
pub append_legs :
    (es : List LedgerEntry) (d c : LedgerEntry) (t : ℕ)
    → d.transaction_id ≡ c.transaction_id
    → d.amount ≡ c.amount
    → d.entry_type ≡ debit
    → c.entry_type ≡ credit
    → debits t es ≡ credits t es
    → debits t ((es ++ d ∷ []) ++ c ∷ []) ≡ credits t ((es ++ d ∷ []) ++ c ∷ [])
append_legs es d c t i a dd cc' h = ground (
  arith,
  total-append (debit_of t) (es ++ d ∷ []) (c ∷ []),
  total-append (debit_of t) es (d ∷ []),
  total-append (credit_of t) (es ++ d ∷ []) (c ∷ []),
  total-append (credit_of t) es (d ∷ []),
)

keep_none {ℓ} : {A : Type ℓ} (p : A → Bool) (xs : List A) → ((x : A) → p x ≡ false) → keep p xs ≡ []
keep_none p [] h = refl
keep_none p (x ∷ xs) h = ground (arith, h x, keep_none p xs h)

-- On balanced books with nothing below zero the job reports nothing.
pub job-IsBalanced :
    (db : Db)
    → IsBalanced db
    → run_reconciliation_job db ≡ record { mismatches = []; negatives = [] }
unfolding run_reconciliation_job
job-IsBalanced db h =
    let m =
      keep_none (λ t. not (debits t db.entries == credits t db.entries))
        (transaction_ids db.entries) (λ t. ground (arith, h t)) in
    let n = keep_none (λ (a : Account). ltb a.balance 0) db.accounts (λ a. ground arith) in
    rw (m, n) refl

-- The CHECK of the entries' table.
abbrev pub ArePositive : List LedgerEntry → Type 0
ArePositive = All (λ e. 0 < e.amount)

keep-All {ℓ} : {A : Type ℓ} (p : A → Bool) (xs : List A) → All (λ x. p x ≡ true) xs → keep p xs ≡ xs
keep-All p [] h = refl
keep-All p (x ∷ xs) h = ground (arith, keep-All p xs h.1)

All-keep {ℓ κ} :
    {A : Type ℓ} (P : A → Type κ) (p : A → Bool) (xs : List A) → All P xs → All P (keep p xs)
All-keep P p [] h = tt
All-keep P p (x ∷ xs) h = ground (arith, All-keep P p xs h.1)

sum_of-grows :
    (e : LedgerEntry) (es : List LedgerEntry) (cs : List Text)
    → All (λ c. not (sum_of c es == 0) ≡ true) cs
    → All (λ c. not (sum_of c (e ∷ es) == 0) ≡ true) cs
sum_of-grows e es [] h = tt
sum_of-grows e es (c ∷ cs) h = ground (arith, sum_of-grows e es cs h.1)

sums_positive :
    (es : List LedgerEntry)
    → ArePositive es
    → All (λ c. not (sum_of c es == 0) ≡ true) (currencies es)
sums_positive [] h = tt
sums_positive (e ∷ es) h = (
  ground (arith, text_eq_refl e.currency),
  All-keep (λ c. not (sum_of c (e ∷ es) == 0) ≡ true) (λ c. not (text_eq c e.currency))
      (currencies es) (sum_of-grows e es (currencies es) (sums_positive es h.1)),
)

-- The worker's query lists every currency that has an entry at all, however the books stand: amounts
-- are positive, and it adds the debits to the credits.
imbalanced-currencies : (db : Db) → ArePositive db.entries → imbalanced db ≡ currencies db.entries
unfolding imbalanced
imbalanced-currencies db h =
    keep-All (λ c. not (sum_of c db.entries == 0)) (currencies db.entries)
      (sums_positive db.entries h)
