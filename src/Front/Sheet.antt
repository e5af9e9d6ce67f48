-- ===== src/Front/Sheet.antt =====
-- The balance sheet of frontend/src/components/Positions.tsx over the wallets that `getBalances` of
-- backend/src/controllers/wallet.ts answers with. How PostgreSQL orders them is a parameter.
use aether_x.Prelude.{
  ℕ, ◌+◌, ◌≡◌, refl, sym, ap, ◌∙◌, List, [], ◌∷◌, Option, none, some, Bool, true, false, ◌&&◌, keep,
  any, total, ◌==◌, Bool-cases, inl, inr, if◌then◌else◌, arith,
}
use aether_x.Prelude.Text.{Text, text_eq, text_eq_sound, text_eq_refl}
use aether_x.Ledger.Table.{AccountType, checking, escrow, fee, Account, Db}

pub data BalancesAnswer : Type 0 where
  unauthorized : BalancesAnswer
  balances : List Account → BalancesAnswer

unfoldable pub get_balances : (List Account → List Account) → Option ℕ → Db → BalancesAnswer
get_balances order_by none db = unauthorized
get_balances order_by (some user) db =
    balances (order_by (keep (λ (a : Account). a.owner_id == user) db.accounts))

-- `groupedBalances`: an entry for each currency, in the order of their first wallets.
pub record Grouped : Type 0 where
  pub currency : Text
  pub free_balance : ℕ
  pub locked_escrow : ℕ

abbrev pub no_balance : Text → Grouped
no_balance currency = record { currency = currency; free_balance = 0; locked_escrow = 0 }

-- Every type but CHECKING is written to the second balance.
abbrev pub assign : AccountType → ℕ → Grouped → Grouped
assign checking n g = record g { free_balance = n }
assign _ n g = record g { locked_escrow = n }

abbrev pub put_balance : Account → List Grouped → List Grouped
put_balance a [] = assign a.account_type a.balance (no_balance a.currency) ∷ []
put_balance a (g ∷ gs) =
    let rest = put_balance a gs in
    if text_eq g.currency a.currency then assign a.account_type a.balance g ∷ gs else g ∷ rest

abbrev pub group_from : List Grouped → List Account → List Grouped
group_from acc [] = acc
group_from acc (a ∷ later) = group_from (put_balance a acc) later

unfoldable pub grouped_balances : List Account → List Grouped
grouped_balances = group_from []

-- The two balances of a currency, and the one that a wallet's type is written to.
pub data Slot : Type 0 where
  free locked : Slot

abbrev pub slot_of : AccountType → Slot
slot_of checking = free
slot_of _ = locked

abbrev pub slot_eq : Slot → Slot → Bool
slot_eq free free = true
slot_eq locked locked = true
slot_eq _ _ = false

-- The column `Total Portfolio` of a currency; 0 where it has no row.
abbrev pub slot : Slot → Grouped → ℕ
slot free g = g.free_balance
slot locked g = g.locked_escrow

abbrev pub slot_in : Slot → Text → List Grouped → ℕ
slot_in t c [] = 0
slot_in t c (g ∷ gs) = if text_eq g.currency c then slot t g else slot_in t c gs

abbrev pub portfolio_total : Text → List Grouped → ℕ
portfolio_total c gs = slot_in free c gs + slot_in locked c gs

abbrev is_wallet : Slot → Text → Account → Bool
is_wallet t c a = text_eq a.currency c && slot_eq (slot_of a.account_type) t

slot-assign :
    (t : Slot) (u : AccountType) (n : ℕ) (g : Grouped)
    → slot t (assign u n g) ≡ (if slot_eq (slot_of u) t then n else slot t g)
slot-assign free checking n g = refl
slot-assign free escrow n g = refl
slot-assign free fee n g = refl
slot-assign locked checking n g = refl
slot-assign locked escrow n g = refl
slot-assign locked fee n g = refl

currency-assign : (u : AccountType) (n : ℕ) (g : Grouped) → (assign u n g).currency ≡ g.currency
currency-assign checking n g = refl
currency-assign escrow n g = refl
currency-assign fee n g = refl

slot-no_balance : (t : Slot) (c : Text) → slot t (no_balance c) ≡ 0
slot-no_balance free c = refl
slot-no_balance locked c = refl

text_eq-join : (a b c : Text) → text_eq a c ≡ true → text_eq b c ≡ true → text_eq a b ≡ true
text_eq-join a b c h k = rw (text_eq_sound a c h, text_eq_sound b c k) (text_eq_refl c)

slot_in-put_balance :
    (t : Slot) (c : Text) (a : Account) (gs : List Grouped)
    → slot_in t c (put_balance a gs) ≡ (if is_wallet t c a then a.balance else slot_in t c gs)
slot_in-put_balance t c a [] =
    let new = no_balance a.currency in
    rw (currency-assign a.account_type a.balance new)
      (ground (arith, slot-assign t a.account_type a.balance new, slot-no_balance t a.currency))
slot_in-put_balance t c a (g ∷ gs) = elim (Bool-cases (text_eq g.currency a.currency)) [
  | inl same ↦
      rw (same, currency-assign a.account_type a.balance g)
        (ground (
          arith,
          slot-assign t a.account_type a.balance g,
          ap (λ x. text_eq x c) (text_eq_sound g.currency a.currency same),
        ))
  | inr other ↦
      rw other
        (ground (arith, other, slot_in-put_balance t c a gs, text_eq-join g.currency a.currency c))
]

-- No two wallets have one currency and are both CHECKING or both of another type.
abbrev pub same_wallet : Account → Account → Bool
same_wallet a b =
    text_eq b.currency a.currency && slot_eq (slot_of b.account_type) (slot_of a.account_type)

abbrev pub AreDistinct : List Account → Type 0
AreDistinct [] = Unit
AreDistinct (a ∷ later) = (any (same_wallet a) later ≡ false) × AreDistinct later

abbrev pub balance_in : Text → Account → ℕ
balance_in c a = if text_eq a.currency c then a.balance else 0

abbrev wallet_balance : Slot → Text → Account → ℕ
wallet_balance t c a = if is_wallet t c a then a.balance else 0

slot_eq-join : (t u v : Slot) → slot_eq t v ≡ true → slot_eq u v ≡ true → slot_eq u t ≡ true
slot_eq-join free free v h k = refl
slot_eq-join locked locked v h k = refl
slot_eq-join free locked free h k = cc
slot_eq-join free locked locked h k = cc
slot_eq-join locked free free h k = cc
slot_eq-join locked free locked h k = cc

is_wallet-other :
    (t : Slot) (c : Text) (a b : Account)
    → is_wallet t c a ≡ true
    → same_wallet a b ≡ false
    → is_wallet t c b ≡ false
is_wallet-other t c a b w h = ground (
  arith,
  w,
  h,
  text_eq-join b.currency a.currency c,
  slot_eq-join (slot_of a.account_type) (slot_of b.account_type) t,
)

-- A balance of a currency has no second wallet.
no_second :
    (t : Slot) (c : Text) (a : Account) (rows : List Account)
    → is_wallet t c a ≡ true
    → any (same_wallet a) rows ≡ false
    → any (is_wallet t c) rows ≡ false
no_second t c a [] w h = refl
no_second t c a (b ∷ rows) w h = elim (Bool-cases (same_wallet a b)) [
  | inl same ↦ absurd (ground (arith, h, same))
  | inr other ↦
      rw (is_wallet-other t c a b w other) (no_second t c a rows w (ground (arith, h, other)))
]

-- What is not there adds nothing.
total-none :
    (t : Slot) (c : Text) (rows : List Account)
    → any (is_wallet t c) rows ≡ false
    → total (wallet_balance t c) rows ≡ 0
total-none t c [] h = refl
total-none t c (a ∷ rows) h = ground (arith, h, total-none t c rows)

slot_in-group_from :
    (t : Slot) (c : Text) (rows : List Account) (acc : List Grouped)
    → AreDistinct rows
    → slot_in t c (group_from acc rows)
      ≡ (if any (is_wallet t c) rows then total (wallet_balance t c) rows else slot_in t c acc)
slot_in-group_from t c [] acc d = refl
slot_in-group_from t c (a ∷ rows) acc d =
    slot_in-group_from t c rows (put_balance a acc) d.1 ∙ elim (Bool-cases (is_wallet t c a)) [
      | inl mine ↦
          let none_later = no_second t c a rows mine d.0 in
          ground
            (arith, mine, none_later, total-none t c rows none_later, slot_in-put_balance t c a acc)
      | inr other ↦ ground (arith, other, slot_in-put_balance t c a acc)
    ]

slot_in-grouped :
    (t : Slot) (c : Text) (rows : List Account)
    → AreDistinct rows
    → slot_in t c (group_from [] rows) ≡ total (wallet_balance t c) rows
slot_in-grouped t c rows d =
    slot_in-group_from t c rows [] d ∙ elim (Bool-cases (any (is_wallet t c) rows)) [
      | inl there ↦ rw there refl
      | inr missing ↦ rw missing (sym (total-none t c rows missing))
    ]

split_wallet :
    (c currency : Text) (t : AccountType) (n : ℕ)
    → (if text_eq currency c && slot_eq (slot_of t) free then n else 0)
        + (if text_eq currency c && slot_eq (slot_of t) locked then n else 0)
      ≡ (if text_eq currency c then n else 0)
split_wallet c currency checking n = ground arith
split_wallet c currency escrow n = ground arith
split_wallet c currency fee n = ground arith

split_balance :
    (c : Text) (rows : List Account)
    → total (wallet_balance free c) rows + total (wallet_balance locked c) rows
      ≡ total (balance_in c) rows
split_balance c [] = refl
split_balance c (a ∷ rows) =
    omega (arith, split_balance c rows, split_wallet c a.currency a.account_type a.balance)

portfolio_total-grouped_balances :
    (rows : List Account) (c : Text)
    → AreDistinct rows
    → portfolio_total c (grouped_balances rows) ≡ total (balance_in c) rows
unfolding grouped_balances
portfolio_total-grouped_balances rows c d =
    omega
      (arith, slot_in-grouped free c rows d, slot_in-grouped locked c rows d, split_balance c rows)

balances_rows : (rows kept : List Account) → balances kept ≡ balances rows → kept ≡ rows
balances_rows rows kept e = cc

-- Where the order in which PostgreSQL answers changes no sum, and of the wallets in the answer of
-- `getBalances` to a user no two of one currency are both CHECKING or both not: the total of a currency on the sheet is
-- the sum of the balances of the user's wallets in this currency in the ledger's tables, 0 without any.
pub portfolio_total-get_balances :
    (order_by : List Account → List Account) (user : ℕ) (db : Db) (rows : List Account) (c : Text)
    → ((f : Account → ℕ) (xs : List Account) → total f (order_by xs) ≡ total f xs)
    → get_balances order_by (some user) db ≡ balances rows
    → AreDistinct rows
    → portfolio_total c (grouped_balances rows)
      ≡ total (balance_in c) (keep (λ (a : Account). a.owner_id == user) db.accounts)
unfolding get_balances
portfolio_total-get_balances order_by user db rows c sums e d =
    portfolio_total-grouped_balances rows c d
    ∙ ap (total (balance_in c)) (sym (balances_rows rows _ e))
    ∙ sums (balance_in c) _
