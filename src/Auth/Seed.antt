-- ===== src/Auth/Seed.antt =====
-- The money of the ledger under `register` of backend/src/controllers/auth.ts.
use aether_x.Prelude.{
  ℕ, suc, ◌+◌, ◌*◌, ◌≡◌, refl, List, [], ◌∷◌, ◌++◌, Option, false, ◌||◌, All, Bool-cases, inl, inr,
}
use aether_x.Prelude.Text.{Text, codes, lower, text_eq}
use aether_x.Ledger.Table.{checking, escrow, Db, Result, ok, err}
use aether_x.Ledger.Engine.{usd}
use aether_x.Ledger.Rows.{HasKey, IsListed}
use aether_x.Ledger.Keeping.{Keeps, Keeps-refl}
use aether_x.Auth.Users.{
  User, AuthDb, Statement, run_all, has_email, has_user, insert_user, insert_account, system_id,
  seed_legs, wallet, account_number, seed_wallet, seed_wallets, next_uuid, registration, register,
  answer, is_falsy, or_empty,
}
use aether_x.Auth.Growth.{
  Succeeds, then_run-Succeeds, run_all-Succeeds, run_all-++, Grows, Grows-none, none-Grows,
  insert_account-empty, insert_account-funded,
}
use aether_x.Auth.Legs.{seed_legs-Grows}

module _ (uuid : ℕ → ℕ) (show_id : ℕ → Text) (hash : Text → Text) (units : ℕ) (db : Db) where
  -- The two wallets of a currency that is not seeded.
  empty_wallets :
      (n : ℕ) (cur : Text) (d : AuthDb) (rest : List Statement)
      → text_eq cur usd ≡ false
      → Grows 0 db d.tables
      → ((d' : AuthDb)
          → Grows 0 db d'.tables
          → Succeeds (λ d'. Grows 0 db d'.tables) (run_all rest d'))
      → Succeeds
          (λ d'. Grows 0 db d'.tables)
          (run_all (seed_wallet uuid show_id hash units n cur ++ rest) d)
  unfolding seed_wallet
  empty_wallets n cur d rest other g k =
      let paid : AuthDb → Type 0 = λ d'. Grows 0 db d'.tables in
      let number = account_number (show_id (uuid 0)) cur in
      let a = wallet (uuid n) (uuid 0) cur checking 0 in
      let a' = wallet (uuid (suc n)) (uuid 0) cur escrow 0 in
      let number' = number ++ codes "-ESCROW" in
      rw other (
        run_all-Succeeds paid paid (insert_account a number) (insert_account a' number' ∷ rest) d
          (insert_account-empty a number d db 0 refl g)
          (λ d₁ g₁.
            run_all-Succeeds paid paid (insert_account a' number') rest d₁
              (insert_account-empty a' number' d₁ db 0 refl g₁) k))

  -- The loop over currencies of which none is seeded.
  empty_wallets-Grows :
      (n : ℕ) (curs : List Text) (d : AuthDb)
      → All (λ cur. text_eq cur usd ≡ false) curs
      → Grows 0 db d.tables
      → Succeeds
          (λ d'. Grows 0 db d'.tables)
          (run_all (seed_wallets uuid show_id hash units n curs) d)
  unfolding seed_wallets
  empty_wallets-Grows n [] d others g = g
  empty_wallets-Grows n (cur ∷ curs) d others g =
      let next = next_uuid uuid show_id hash units n cur in
      empty_wallets n cur d (seed_wallets uuid show_id hash units next curs) others.0 g
        (λ d' g'. empty_wallets-Grows next curs d' others.1 g')

  -- The wallets in USD, of which one is seeded.
  seeded_wallets :
      (n : ℕ) (d : AuthDb) (rest : List Statement)
      → IsListed system_id usd db.accounts
      → Grows 0 db d.tables
      → ((d' : AuthDb)
          → Grows 0 db d'.tables
          → Succeeds (λ d'. Grows 0 db d'.tables) (run_all rest d'))
      → Succeeds
          (λ d'. Grows 0 db d'.tables)
          (run_all (seed_wallet uuid show_id hash units n usd ++ rest) d)
  unfolding seed_wallet
  seeded_wallets n d rest s g k =
      let paid : AuthDb → Type 0 = λ d'. Grows 0 db d'.tables in
      let amount : ℕ = 100000 * units in
      let owing : AuthDb → Type 0 = λ d'. Grows amount db d'.tables in
      let number = account_number (show_id (uuid 0)) usd in
      let a = wallet (uuid n) (uuid 0) usd checking amount in
      let a' = wallet (uuid (suc n)) (uuid 0) usd escrow 0 in
      let number' = number ++ codes "-ESCROW" in
      let legs = seed_legs (uuid (n + 2)) (uuid n) amount in
      run_all-Succeeds paid owing (insert_account a number)
        (insert_account a' number' ∷ legs ++ rest) d (insert_account-funded a number d db refl g)
        (λ d₁ g₁.
          run_all-Succeeds paid owing (insert_account a' number') (legs ++ rest) d₁
            (insert_account-empty a' number' d₁ db amount refl g₁)
            (λ d₂ g₂. rw (run_all-++ legs rest d₂) (
              then_run-Succeeds paid paid (run_all legs d₂) (run_all rest)
                (seed_legs-Grows (uuid (n + 2)) (uuid n) amount d₂ db s g₂) k)))

  registration-Grows :
      (email password : Text) (d : AuthDb)
      → IsListed system_id usd db.accounts
      → Grows 0 db d.tables
      → Succeeds
          (λ d'. Grows 0 db d'.tables)
          (registration uuid show_id hash units email password d)
  unfolding registration insert_user seed_wallets
  registration-Grows email password d s g =
      elim (Bool-cases (has_user (uuid 0) d.users || has_email (lower email) d.users)) [
        | inl taken ↦ rw taken tt
        | inr free ↦
            let curs = codes "BTC" ∷ codes "ETH" ∷ codes "SOL" ∷ [] in
            let others : All (λ cur. text_eq cur usd ≡ false) curs = (refl, (refl, (refl, tt))) in
            let user : User = record {
              id = uuid 0;
              email = lower email;
              password_hash = hash password;
            } in
            let d₁ = record d { users = d.users ++ user ∷ [] } in
            rw free (
              seeded_wallets 1 d₁ (seed_wallets uuid show_id hash units 4 curs) s g
                (λ d' g'. empty_wallets-Grows 4 curs d' others g'))
      ]

-- Whatever `register` answers, it keeps the money of every currency, the accounts and their key,
-- balanced transactions and positive entries.
pub register-Keeps :
    (uuid : ℕ → ℕ) (show_id : ℕ → Text) (hash : Text → Text) (units : ℕ)
    (email password : Option Text) (d : AuthDb)
    → HasKey d.tables.accounts
    → IsListed system_id usd d.tables.accounts
    → Keeps d.tables (register uuid show_id hash units email password d).1.tables
unfolding register
register-Keeps uuid show_id hash units email password d u s =
    elim (Bool-cases (is_falsy email || is_falsy password)) [
      | inl incomplete ↦ rw incomplete (Keeps-refl d.tables u)
      | inr complete ↦ rw complete (elim (Bool-cases (has_email (lower (or_empty email)) d.users)) [
        | inl known ↦ rw known (Keeps-refl d.tables u)
        | inr new ↦
            let made =
              registration uuid show_id hash units (or_empty email) (or_empty password) d in
            rw new (
              answered made (
                registration-Grows uuid show_id hash units d.tables (or_empty email)
                  (or_empty password) d s (none-Grows d.tables d.tables (Keeps-refl d.tables u))))
      ])
    ]
  where
    answered :
        (r : Result AuthDb)
        → Succeeds (λ d'. Grows 0 d.tables d'.tables) r
        → Keeps d.tables (answer (uuid 0) (or_empty email) d r).1.tables
    answered (ok d') g = Grows-none d.tables d'.tables g
    answered (err e) g = Keeps-refl d.tables u
