-- ===== src/Auth/Legs.antt =====
-- The legs of the seed in backend/src/controllers/auth.ts: a debit of the system's account and a credit
-- of the new wallet.
use aether_x.Prelude.{
  ℕ, ◌<◌, ◌≡◌, refl, [], ◌∷◌, ◌++◌, true, All-append, ltb, Bool-cases, inl, inr, arith,
}
use aether_x.Ledger.Table.{
  debit, credit, LedgerEntry, Transaction, Db, insert_entry, insert_transaction, sub_balance,
}
use aether_x.Ledger.Engine.{usd}
use aether_x.Ledger.Rows.{IsListed}
use aether_x.Ledger.Reconcile.{append_legs}
use aether_x.Auth.Users.{
  AuthDb, run_all, on_tables, referring, system_id, seed_entry, seed_summary, seed_leg, seed_legs,
}
use aether_x.Auth.Growth.{
  Succeeds, run_all-Succeeds, referring-Succeeds, Grows, transaction-Grows, sub_balance-Grows,
}

-- One leg is written, and the other is still missing.
record HalfWritten (leg : LedgerEntry) (db : Db) (d : AuthDb) : Type 0 where
  first : Db
  kept : Grows 0 db first
  entries : d.tables.entries ≡ first.entries ++ leg ∷ []
  accounts : d.tables.accounts ≡ first.accounts
  pays : 0 < leg.amount

first_leg :
    (seed_tx_id amount : ℕ) (d : AuthDb) (db : Db)
    → Grows 0 db d.tables
    → Succeeds
        (HalfWritten (seed_entry seed_tx_id system_id debit amount) db)
        (seed_leg seed_tx_id system_id debit amount d)
unfolding insert_entry
first_leg seed_tx_id amount d db g =
    let leg = seed_entry seed_tx_id system_id debit amount in
    referring-Succeeds (HalfWritten leg db) system_id (on_tables (insert_entry leg)) d (go leg)
  where
    go : (leg : LedgerEntry) → Succeeds (HalfWritten leg db) (on_tables (insert_entry leg) d)
    go leg = elim (Bool-cases (ltb 0 leg.amount)) [
      | inl positive ↦ rw positive (record {
        first = d.tables;
        kept = g;
        entries = refl;
        accounts = refl;
        pays = ground arith;
      })
      | inr empty ↦ rw empty tt
    ]

second_leg :
    (seed_tx_id checking_id amount : ℕ) (d : AuthDb) (db : Db)
    → HalfWritten (seed_entry seed_tx_id system_id debit amount) db d
    → Succeeds (λ d'. Grows 0 db d'.tables) (seed_leg seed_tx_id checking_id credit amount d)
unfolding insert_entry
second_leg seed_tx_id checking_id amount d db h =
    let leg = seed_entry seed_tx_id system_id debit amount in
    let leg' = seed_entry seed_tx_id checking_id credit amount in
    let g = h.kept in
    let positive : ltb 0 amount ≡ true = ground (arith, h.pays) in
    let es = h.first.entries in
    let paid : AuthDb → Type 0 = λ d'. Grows 0 db d'.tables in
    referring-Succeeds paid checking_id (on_tables (insert_entry leg')) d (
      rw positive (record {
        key = rw h.accounts g.key;
        listed = λ j k l. rw h.accounts (g.listed j k l);
        grown = λ c. rw h.accounts (g.grown c);
        balanced =
            λ b t. rw h.entries (append_legs es leg leg' t refl refl refl refl (g.balanced b t));
        positive = λ b. rw h.entries (
            All-append (λ (x : LedgerEntry). 0 < x.amount) (es ++ leg ∷ []) (leg' ∷ [])
              (All-append (λ (x : LedgerEntry). 0 < x.amount) es (leg ∷ []) (g.positive b)
                (h.pays, tt))
              (h.pays, tt));
      }))

summary-Grows :
    (seed_tx_id checking_id amount : ℕ) (d : AuthDb) (db : Db)
    → Grows amount db d.tables
    → Succeeds (λ d'. Grows amount db d'.tables) (seed_summary seed_tx_id checking_id amount d)
summary-Grows seed_tx_id checking_id amount d db g =
    let owing : AuthDb → Type 0 = λ d'. Grows amount db d'.tables in
    let t : Transaction = record {
      id = seed_tx_id;
      amount = amount;
      currency = usd;
      source_account_id = system_id;
      dest_account_id = checking_id;
    } in
    let insert = on_tables (insert_transaction t) in
    referring-Succeeds owing system_id (referring checking_id insert) d
      (referring-Succeeds owing checking_id insert d (transaction-Grows t d db amount g))

-- The seed of the new wallet is paid by the system's account.
pub seed_legs-Grows :
    (seed_tx_id checking_id amount : ℕ) (d : AuthDb) (db : Db)
    → IsListed system_id usd db.accounts
    → Grows amount db d.tables
    → Succeeds (λ d'. Grows 0 db d'.tables) (run_all (seed_legs seed_tx_id checking_id amount) d)
unfolding seed_legs
seed_legs-Grows seed_tx_id checking_id amount d db s g =
    let paid : AuthDb → Type 0 = λ d'. Grows 0 db d'.tables in
    let owing : AuthDb → Type 0 = λ d'. Grows amount db d'.tables in
    let half = HalfWritten (seed_entry seed_tx_id system_id debit amount) db in
    let credit_leg = seed_leg seed_tx_id checking_id credit amount in
    let debit_leg = seed_leg seed_tx_id system_id debit amount in
    let pay = on_tables (sub_balance amount system_id) in
    run_all-Succeeds paid owing (seed_summary seed_tx_id checking_id amount)
      (pay ∷ debit_leg ∷ credit_leg ∷ []) d (summary-Grows seed_tx_id checking_id amount d db g)
      (λ d₁ g₁.
        run_all-Succeeds paid paid pay (debit_leg ∷ credit_leg ∷ []) d₁
          (sub_balance-Grows amount d₁ db s g₁)
          (λ d₂ g₂.
            run_all-Succeeds paid half debit_leg (credit_leg ∷ []) d₂
              (first_leg seed_tx_id amount d₂ db g₂)
              (λ d₃ h.
                run_all-Succeeds paid paid credit_leg [] d₃
                  (second_leg seed_tx_id checking_id amount d₃ db h) (λ d₄ g₄. g₄))))
