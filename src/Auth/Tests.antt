-- ===== src/Auth/Tests.antt =====
-- A system account with enough dollars, and a user who registers, logs in and trades.
use aether_x.Prelude.{ℕ, ◌+◌, ◌≡◌, refl, List, [], ◌∷◌, ◌++◌, Option, none, some, Bool, inl}
use aether_x.Prelude.Text.{Text, codes, text_eq, text_eq_refl, lower}
use aether_x.Matching.Queue.{buy}
use aether_x.Ledger.Table.{checking, Account, sub_balance, insert_transaction, insert_entry}
use aether_x.Ledger.Engine.{usd}
use aether_x.Ledger.Keeping.{Keeps}
use aether_x.Auth.Users.{
  AuthDb, insert_user, insert_account, seed_legs, seed_wallet, seed_wallets, registration, register,
  created,
}
use aether_x.Auth.Session.{Session, login, logged_in, logout, me, signed_in, not_authenticated}
use aether_x.Auth.Money.{
  MoneyCall, locking, releasing, settling, registering, calls_money, calls_money-Keeps,
}
use aether_x.Auth.Visit.{register-login}

abbrev reserve : Account
reserve = record {
  id = 1;
  owner_id = 0;
  currency = usd;
  account_type = checking;
  balance = 1000000;
}

abbrev before_users : AuthDb
before_users = record {
  users = [];
  account_numbers = [];
  tables = record { accounts = reserve ∷ []; transactions = []; entries = [] };
}

abbrev drawn : ℕ → ℕ
drawn n = 20 + n

abbrev show : ℕ → Text
show n = n ∷ codes "-uuid"

abbrev hashed : Text → Text
hashed p = codes "#" ++ p

abbrev hash_matches : Text → Text → Bool
hash_matches p h = text_eq (hashed p) h

abbrev write_session : Session → Text
write_session s = s.id ∷ s.email

abbrev read_session : Text → Option Session
read_session [] = none
read_session (c ∷ t) = some (record { id = c; email = t })

abbrev money_calls : List MoneyCall
money_calls =
    registering drawn hashed (some (codes "Ann@x.io")) (some (codes "pw"))
    ∷ locking 70 20 (codes "BTCUSDT") buy 100 3
    ∷ settling 71 72 20 0 (codes "BTCUSDT") 100 3
    ∷ releasing 73 20 (codes "BTCUSDT") buy 100 3
    ∷ []

calls_money-Keeps_example :
    Keeps before_users.tables (calls_money show 1 money_calls before_users).tables
calls_money-Keeps_example =
    calls_money-Keeps show 1 money_calls before_users (refl, tt) (inl (refl, refl))

ann_is_created :
    (register drawn show hashed 1 (some (codes "Ann@x.io")) (some (codes "pw")) before_users).0
    ≡ created 20 (codes "Ann@x.io")
unfolding register registration insert_user insert_account seed_wallets seed_wallet seed_legs
    sub_balance insert_transaction insert_entry
ann_is_created = refl

register-login_example :
    let d' =
      (register drawn show hashed 1 (some (codes "Ann@x.io")) (some (codes "pw")) before_users).1 in
    let (said, cookie') =
      login hash_matches write_session (some (codes "ann@X.io")) (some (codes "pw")) d' none in
    let session : Session = record { id = 20; email = lower (codes "Ann@x.io") } in
    (said ≡ logged_in session)
    × (me read_session cookie' ≡ signed_in session)
    × (me read_session (logout cookie') ≡ not_authenticated)
register-login_example =
    register-login drawn show hashed 1 hash_matches write_session read_session
      (λ p. text_eq_refl (hashed p)) (λ s. refl) refl (codes "Ann@x.io") (codes "ann@X.io")
      (codes "pw") (codes "Ann@x.io") 20 before_users none ann_is_created refl
