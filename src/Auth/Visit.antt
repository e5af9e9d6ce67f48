-- ===== src/Auth/Visit.antt =====
-- `register`, `login`, `me` and `logout` of
-- backend/src/controllers/auth.ts, one after the other.
use aether_x.Prelude.{
  ℕ, ◌≡◌, refl, List, [], ◌∷◌, ◌++◌, Option, none, some, Bool, true, false, ◌||◌, Bool-cases, inl,
  inr, arith,
}
use aether_x.Prelude.Text.{Text, text_eq, text_eq_refl, lower}
use aether_x.Ledger.Table.{Result, ok, err}
use aether_x.Auth.Users.{
  User, AuthDb, has_email, has_user, insert_user, seed_wallets, registration, register, answer,
  created, is_falsy, currencies,
}
use aether_x.Auth.Growth.{Succeeds}
use aether_x.Auth.Session.{
  Session, login, logged_in, logout, me, signed_in, not_authenticated, find_user,
}
use aether_x.Auth.Kept.{run_all-KeepsUsers, seed_wallets-KeepsUsers}

find_user-last :
    (email : Text) (us : List User) (u : User)
    → has_email email us ≡ false
    → text_eq u.email email ≡ true
    → find_user email (us ++ u ∷ []) ≡ some u
find_user-last email [] u h e = rw e refl
find_user-last email (v ∷ us) u h e = elim (Bool-cases (text_eq v.email email)) [
  | inl same ↦ cc
  | inr other ↦ rw other (find_user-last email us u (ground arith) e)
]

module _ (uuid : ℕ → ℕ) (show_id : ℕ → Text) (hash : Text → Text) (units : ℕ) where
  -- The new user stands last in the table.
  registration-users :
      (email password : Text) (d : AuthDb)
      → Succeeds
          (λ d'.
            d'.users
            ≡ d.users
              ++ record { id = uuid 0; email = lower email; password_hash = hash password } ∷ [])
          (registration uuid show_id hash units email password d)
  unfolding registration insert_user
  registration-users email password d =
      elim (Bool-cases (has_user (uuid 0) d.users || has_email (lower email) d.users)) [
        | inl taken ↦ rw taken tt
        | inr free ↦ rw free (
            run_all-KeepsUsers (seed_wallets uuid show_id hash units 1 currencies)
              (seed_wallets-KeepsUsers uuid show_id hash units 1 currencies) _ _ refl)
      ]

  -- What a registration that goes through leaves behind.
  register-created :
      (email password sent : Text) (id : ℕ) (d : AuthDb)
      → (register uuid show_id hash units (some email) (some password) d).0 ≡ created id sent
      → (is_falsy (some password) ≡ false)
        × (is_falsy (some email) ≡ false)
        × (has_email (lower email) d.users ≡ false)
        × (id ≡ uuid 0)
        × ((register uuid show_id hash units (some email) (some password) d).1.users
            ≡ d.users
              ++ record { id = uuid 0; email = lower email; password_hash = hash password } ∷ [])
  unfolding register
  register-created email password sent id d e =
      elim (Bool-cases (is_falsy (some email) || is_falsy (some password))) [
        | inl incomplete ↦ absurd (ground arith)
        | inr complete ↦ elim (Bool-cases (has_email (lower email) d.users)) [
          | inl known ↦ absurd (ground arith)
          | inr new ↦
              let made = registration uuid show_id hash units email password d in
              let answered : (answer (uuid 0) email d made).0 ≡ created id sent = ground arith in
              let (i, us) = went_through made (registration-users email password d) answered in
              (ground arith, ground arith, new, i, rw complete (rw new us))
        ]
      ]
    where
      went_through :
          (r : Result AuthDb)
          → Succeeds
              (λ d'.
                d'.users
                ≡ d.users
                  ++ record { id = uuid 0; email = lower email; password_hash = hash password }
                    ∷ [])
              r
          → (answer (uuid 0) email d r).0 ≡ created id sent
          → (id ≡ uuid 0)
            × ((answer (uuid 0) email d r).1.users
                ≡ d.users
                  ++ record { id = uuid 0; email = lower email; password_hash = hash password }
                    ∷ [])
      went_through (ok d') us h = (cc, us)
      went_through (err x) us h = cc

-- Let `compare` accept a password for its hash, and `parse` give back what `stringify` was given but
-- nothing for the empty text. When `register` answers that the user was created, `login` with the
-- same password and the same email, in any case, signs the user in under the id that was answered
-- and the lower-case email; `me` then answers with that session, and after `logout` with none.
pub register-login :
    (uuid : ℕ → ℕ) (show_id : ℕ → Text) (hash : Text → Text) (units : ℕ)
    (compare : Text → Text → Bool) (stringify : Session → Text) (parse : Text → Option Session)
    → ((p : Text) → compare p (hash p) ≡ true)
    → ((s : Session) → parse (stringify s) ≡ some s)
    → parse [] ≡ none
    → (email email' password sent : Text) (id : ℕ) (d : AuthDb) (cookie : Option Text)
    → (register uuid show_id hash units (some email) (some password) d).0 ≡ created id sent
    → lower email' ≡ lower email
    → let d' = (register uuid show_id hash units (some email) (some password) d).1 in
      let (said, cookie') = login compare stringify (some email') (some password) d' cookie in
      let session : Session = record { id = id; email = lower email } in
      (said ≡ logged_in session)
      × (me parse cookie' ≡ signed_in session)
      × (me parse (logout cookie') ≡ not_authenticated)
unfolding login me
register-login uuid show_id hash units compare stringify parse accepts parses no_session email
      email' password sent id d cookie e same =
    let (full, filled, new, i, us) =
      register-created uuid show_id hash units email password sent id d e in
    let user : User = record { id = uuid 0; email = lower email; password_hash = hash password } in
    let found = find_user-last (lower email) d.users user new (text_eq_refl (lower email)) in
    let session : Session = record { id = id; email = lower email } in
    let named : is_falsy (some email') ≡ false = lower-filled email email' same filled in
    let written : is_falsy (some (stringify session)) ≡ false =
      parsed-filled (stringify session) parse no_session session (parses session) in
    rw named (
      rw full (
        rw same (
          rw us (
            rw found (
              rw (accepts password)
                (rw (← i) (rw written (rw (parses session) (refl, refl, refl)))))))))
  where
    lower-filled :
        (s t : Text) → lower t ≡ lower s → is_falsy (some s) ≡ false → is_falsy (some t) ≡ false
    lower-filled [] t h f = cc
    lower-filled (c ∷ s) [] h f = cc
    lower-filled (c ∷ s) (b ∷ t) h f = refl

    parsed-filled :
        (t : Text) (read : Text → Option Session)
        → read [] ≡ none
        → (s : Session) → read t ≡ some s
        → is_falsy (some t) ≡ false
    parsed-filled [] read z s h = cc
    parsed-filled (c ∷ t) read z s h = refl
