-- ===== src/Auth/Money.antt =====
-- The money of the whole program: the calls of backend/src/services/ledgerEngine.ts and the
-- registrations of backend/src/controllers/auth.ts, in any order.
use aether_x.Prelude.{ℕ, List, [], ◌∷◌, Option}
use aether_x.Prelude.Text.{Text}
use aether_x.Matching.Queue.{Side}
use aether_x.Ledger.Engine.{usd, lock_escrow, release_escrow, settle_trade}
use aether_x.Ledger.Rows.{HasKey, IsListed}
use aether_x.Ledger.Keeping.{Keeps, Keeps-refl, Keeps-trans}
use aether_x.Ledger.Conserve.{lock_escrow-Keeps, release_escrow-Keeps, settle_trade-Keeps}
use aether_x.Auth.Users.{AuthDb, system_id, register}
use aether_x.Auth.Seed.{register-Keeps}

-- A call, with the ids and the salt that it draws.
pub data MoneyCall : Type 0 where
  locking releasing : ℕ → ℕ → Text → Side → ℕ → ℕ → MoneyCall
  settling : ℕ → ℕ → ℕ → ℕ → Text → ℕ → ℕ → MoneyCall
  registering : (ℕ → ℕ) → (Text → Text) → Option Text → Option Text → MoneyCall

module _ (show_id : ℕ → Text) (units : ℕ) where
  abbrev pub call_money : MoneyCall → AuthDb → AuthDb
  call_money (locking tx user symbol side price quantity) d = record d {
    tables = (lock_escrow tx user symbol side price quantity d.tables).1;
  }
  call_money (releasing tx user symbol side price quantity) d = record d {
    tables = (release_escrow tx user symbol side price quantity d.tables).1;
  }
  call_money (settling cash_tx asset_tx buyer seller symbol price quantity) d = record d {
    tables = (settle_trade cash_tx asset_tx buyer seller symbol price quantity d.tables).1;
  }
  call_money (registering uuid hash email password) d =
      (register uuid show_id hash units email password d).1

  abbrev pub calls_money : List MoneyCall → AuthDb → AuthDb
  calls_money [] d = d
  calls_money (c ∷ cs) d = calls_money cs (call_money c d)

  call_money-Keeps :
      (c : MoneyCall) (d : AuthDb)
      → HasKey d.tables.accounts
      → IsListed system_id usd d.tables.accounts
      → Keeps d.tables (call_money c d).tables
  call_money-Keeps (locking tx user symbol side price quantity) d u s =
      lock_escrow-Keeps tx user symbol side price quantity d.tables u
  call_money-Keeps (releasing tx user symbol side price quantity) d u s =
      release_escrow-Keeps tx user symbol side price quantity d.tables u
  call_money-Keeps (settling cash_tx asset_tx buyer seller symbol price quantity) d u s =
      settle_trade-Keeps cash_tx asset_tx buyer seller symbol price quantity d.tables u
  call_money-Keeps (registering uuid hash email password) d u s =
      register-Keeps uuid show_id hash units email password d u s

  -- Where the accounts have distinct ids and the system's USD account is there, any list of locks,
  -- releases, settlements and registrations, failed ones among them, keeps the money of every
  -- currency, the accounts and their key, balanced transactions and positive entries.
  pub calls_money-Keeps :
      (cs : List MoneyCall) (d : AuthDb)
      → HasKey d.tables.accounts
      → IsListed system_id usd d.tables.accounts
      → Keeps d.tables (calls_money cs d).tables
  calls_money-Keeps [] d u s = Keeps-refl d.tables u
  calls_money-Keeps (c ∷ cs) d u s =
      let first = call_money-Keeps c d u s in
      let d' = call_money c d in
      Keeps-trans d.tables d'.tables (calls_money cs d').tables first
        (calls_money-Keeps cs d' first.key (first.listed system_id usd s))
