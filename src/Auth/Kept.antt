-- ===== src/Auth/Kept.antt =====
-- The users table under the statements that seed the wallets in backend/src/controllers/auth.ts.
use aether_x.Prelude.{
  ℕ, suc, ◌+◌, ◌≡◌, List, [], ◌∷◌, ◌++◌, ◌||◌, any, All, All-append, Bool-cases, inl, inr,
}
use aether_x.Prelude.Text.{Text, codes, text_eq}
use aether_x.Ledger.Table.{
  checking, escrow, EntryType, debit, credit, Account, Db, Result, ok, err, Query,
  insert_transaction, insert_entry, sub_balance,
}
use aether_x.Ledger.Engine.{usd}
use aether_x.Ledger.Rows.{has_id}
use aether_x.Auth.Users.{
  User, AuthDb, Statement, run_all, on_tables, with_tables, has_user, insert_account, referring,
  system_id, seed_summary, seed_leg, seed_legs, seed_entry, wallet, account_number, seed_wallet,
  next_uuid, seed_wallets,
}
use aether_x.Auth.Growth.{Succeeds, then_run-Succeeds, referring-Succeeds}

-- A statement that leaves the users as they are.
abbrev pub KeepsUsers : Statement → Type 0
KeepsUsers s = (us : List User) (d : AuthDb) → d.users ≡ us → Succeeds (λ d'. d'.users ≡ us) (s d)

on_tables-KeepsUsers : (q : Query (Unit {0})) → KeepsUsers (on_tables q)
on_tables-KeepsUsers q us d h = go (q d.tables)
  where
    go : (r : Result (Unit {0} × Db)) → Succeeds (λ d'. d'.users ≡ us) (with_tables d r)
    go (ok (u, db)) = h
    go (err e) = tt

referring-KeepsUsers : (id : ℕ) (s : Statement) → KeepsUsers s → KeepsUsers (referring id s)
referring-KeepsUsers id s k us d h = referring-Succeeds (λ d'. d'.users ≡ us) id s d (k us d h)

insert_account-KeepsUsers : (a : Account) (number : Text) → KeepsUsers (insert_account a number)
unfolding insert_account
insert_account-KeepsUsers a number us d h =
    elim (Bool-cases (has_id a.id d.tables.accounts || any (text_eq number) d.account_numbers)) [
      | inl old ↦ rw old tt
      | inr new ↦ rw new (elim (Bool-cases (has_user a.owner_id d.users)) [
        | inl owned ↦ rw owned h
        | inr unowned ↦ rw unowned tt
      ])
    ]

pub run_all-KeepsUsers : (ss : List Statement) → All KeepsUsers ss → KeepsUsers (run_all ss)
run_all-KeepsUsers [] k us d h = h
run_all-KeepsUsers (s ∷ ss) k us d h =
    then_run-Succeeds (λ d'. d'.users ≡ us) (λ d'. d'.users ≡ us) (s d) (run_all ss) (k.0 us d h)
      (λ d' h'. run_all-KeepsUsers ss k.1 us d' h')

seed_leg-KeepsUsers :
    (tx account : ℕ) (type : EntryType) (amount : ℕ) → KeepsUsers (seed_leg tx account type amount)
seed_leg-KeepsUsers tx account type amount =
    let insert = insert_entry (seed_entry tx account type amount) in
    referring-KeepsUsers account (on_tables insert) (on_tables-KeepsUsers insert)

seed_summary-KeepsUsers : (tx id amount : ℕ) → KeepsUsers (seed_summary tx id amount)
seed_summary-KeepsUsers tx id amount =
    let insert = insert_transaction (record {
      id = tx;
      amount = amount;
      currency = usd;
      source_account_id = system_id;
      dest_account_id = id;
    }) in
    referring-KeepsUsers system_id (referring id (on_tables insert))
      (referring-KeepsUsers id (on_tables insert) (on_tables-KeepsUsers insert))

seed_legs-KeepsUsers : (tx id amount : ℕ) → All KeepsUsers (seed_legs tx id amount)
unfolding seed_legs
seed_legs-KeepsUsers tx id amount = (
  seed_summary-KeepsUsers tx id amount,
  (
    on_tables-KeepsUsers (sub_balance amount system_id),
    (seed_leg-KeepsUsers tx system_id debit amount, (seed_leg-KeepsUsers tx id credit amount, tt)),
  ),
)

module _ (uuid : ℕ → ℕ) (show_id : ℕ → Text) (hash : Text → Text) (units : ℕ) where
  seed_wallet-KeepsUsers :
      (n : ℕ) (cur : Text) → All KeepsUsers (seed_wallet uuid show_id hash units n cur)
  unfolding seed_wallet
  seed_wallet-KeepsUsers n cur = elim (Bool-cases (text_eq cur usd)) [
    | inl seeded ↦ rw seeded (funded _, (vault, seed_legs-KeepsUsers (uuid (n + 2)) (uuid n) _))
    | inr other ↦ rw other (funded _, (vault, tt))
  ]
    where
      number : Text
      number = account_number (show_id (uuid 0)) cur

      funded :
          (balance : ℕ)
          → KeepsUsers (insert_account (wallet (uuid n) (uuid 0) cur checking balance) number)
      funded balance =
          insert_account-KeepsUsers (wallet (uuid n) (uuid 0) cur checking balance) number

      vault :
          KeepsUsers (
            insert_account
              (wallet (uuid (suc n)) (uuid 0) cur escrow 0)
              (number ++ codes "-ESCROW"))
      vault =
          insert_account-KeepsUsers (wallet (uuid (suc n)) (uuid 0) cur escrow 0)
            (number ++ codes "-ESCROW")

  pub seed_wallets-KeepsUsers :
      (n : ℕ) (curs : List Text) → All KeepsUsers (seed_wallets uuid show_id hash units n curs)
  unfolding seed_wallets
  seed_wallets-KeepsUsers n [] = tt
  seed_wallets-KeepsUsers n (cur ∷ curs) =
      All-append KeepsUsers (seed_wallet uuid show_id hash units n cur) _
        (seed_wallet-KeepsUsers n cur)
        (seed_wallets-KeepsUsers (next_uuid uuid show_id hash units n cur) curs)
