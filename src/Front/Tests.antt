-- ===== src/Front/Tests.antt =====
-- Witnesses for the order form, the view of the order book and the balance sheet.
use aether_x.Prelude.{
  arith, ℕ, zero, suc, ◌≡◌, ◌≢◌, refl, List, [], ◌∷◌, All, some, false, total, ◌==◌, keep, ◌≤◌,
}
use aether_x.Prelude.Text.{Text, codes}
use aether_x.Prelude.Int.{pos, negsuc}
use aether_x.Matching.Queue.{buy}
use aether_x.Matching.Book.{Level}
use aether_x.Ledger.Table.{LedgerEntry, debit, credit, checking, escrow, Account, Db}
use aether_x.Orders.Api.{Number, nan, num, accepted, place_order}
use aether_x.Front.Form.{
  limit, Form, OrderPayload, sent, payload_of, handle_submit, request_of, intent_for,
  handle_submit-place_order,
}
use aether_x.Front.Depth.{Shown, bids_shown, asks_shown, max_cumulative, shown-max_cumulative}
use aether_x.Ledger.Reconcile.{IsBalanced}
use aether_x.Front.Inspector.{
  ledger_entries, get_ledger_entries, grouped_txns, legs_of, debit_amount, credit_amount,
  grouped_txns-get_ledger_entries,
}
use aether_x.Front.Sheet.{
  get_balances, balances, grouped_balances, portfolio_total, balance_in,
  portfolio_total-get_balances,
}

-- Numbers written as two codes, a sign and a value.
abbrev to_string : Number → Text
to_string nan = 0 ∷ []
to_string (num (pos n)) = 0 ∷ n ∷ []
to_string (num (negsuc n)) = 1 ∷ n ∷ []

abbrev parse_float : Text → Number
parse_float (zero ∷ n ∷ rest) = num (pos n)
parse_float (suc k ∷ n ∷ rest) = num (negsuc n)
parse_float _ = nan

parse_string : (x : Number) → parse_float (to_string x) ≡ x
parse_string nan = refl
parse_string (num (pos n)) = refl
parse_string (num (negsuc n)) = refl

string_filled : (x : Number) → to_string x ≢ []
string_filled nan e = cc
string_filled (num (pos n)) e = cc
string_filled (num (negsuc n)) e = cc

abbrev form : Form
form = record {
  symbol = codes "BTCUSDT";
  spot_price = num (pos 90);
  side = buy;
  order_type = limit;
  price = 0 ∷ 100 ∷ [];
  stop_price = [];
  quantity = 0 ∷ 3 ∷ [];
  time_in_force = codes "GTC";
  post_only = false;
  use_bracket = false;
  tp_price = [];
  sl_price = [];
}

abbrev payload : OrderPayload
payload = payload_of parse_float to_string form (num (pos 100)) (num (pos 3))

submitted : handle_submit parse_float to_string form ≡ sent payload
unfolding handle_submit
submitted = refl

handle_submit-place_order_example :
    place_order (some 10) (codes "u") (request_of parse_float to_string payload)
    ≡ accepted (intent_for parse_float to_string 10 (codes "u") form)
handle_submit-place_order_example =
    handle_submit-place_order parse_float to_string parse_string string_filled 10 (codes "u") form
      payload b'B' (codes "TCUSDT") submitted refl

abbrev level : ℕ → ℕ → Level
level price volume = record { price = price; volume = volume }

abbrev bids : List Level
bids = level 99 5 ∷ level 98 7 ∷ []

shown-max_cumulative_example :
    All (λ (s : Shown). s.cumulative ≤ max_cumulative bids []) (bids_shown bids)
    × All (λ (s : Shown). s.cumulative ≤ max_cumulative bids []) (asks_shown [])
shown-max_cumulative_example = shown-max_cumulative bids []

abbrev usd : ℕ → Account
usd n = record {
  id = 1;
  owner_id = 10;
  currency = codes "USD";
  account_type = checking;
  balance = n;
}

abbrev wallets : List Account
wallets = usd 70 ∷ record (usd 30) { id = 2; account_type = escrow } ∷ []

abbrev tables : Db
tables = record {
  accounts = record (usd 5) { id = 3; owner_id = 11 } ∷ wallets;
  transactions = [];
  entries = [];
}

answered : get_balances (λ rows. rows) (some 10) tables ≡ balances wallets
unfolding get_balances
answered = refl

portfolio_total-get_balances_example :
    portfolio_total (codes "USD") (grouped_balances wallets)
    ≡ total (balance_in (codes "USD")) (keep (λ (a : Account). a.owner_id == 10) tables.accounts)
portfolio_total-get_balances_example =
    portfolio_total-get_balances (λ rows. rows) 10 tables wallets (codes "USD") (λ f xs. refl)
      answered (refl, (refl, tt))

-- Two legs between the wallets of the user.
abbrev leg : LedgerEntry
leg = record {
  transaction_id = 4;
  account_id = 1;
  entry_type = debit;
  amount = 6;
  currency = codes "USD";
}

abbrev booked : Db
booked = record {
  accounts = wallets;
  transactions =
      record {
        id = 4;
        amount = 6;
        currency = codes "USD";
        source_account_id = 1;
        dest_account_id = 2;
      }
      ∷ [];
  entries = leg ∷ record leg { account_id = 2; entry_type = credit } ∷ [];
}

booked-IsBalanced : IsBalanced booked
booked-IsBalanced t = ground arith

inspected : get_ledger_entries (λ es. es) (some 10) booked ≡ ledger_entries booked.entries
unfolding get_ledger_entries
inspected = refl

grouped_txns-get_ledger_entries_example :
    total debit_amount (legs_of 4 (grouped_txns booked.entries))
    ≡ total credit_amount (legs_of 4 (grouped_txns booked.entries))
grouped_txns-get_ledger_entries_example =
    grouped_txns-get_ledger_entries (λ es. es) 10 booked booked.entries 4 (λ f xs. refl)
      (λ xs. refl) inspected (refl, (refl, tt)) booked-IsBalanced (omega arith)
