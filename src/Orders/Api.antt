-- ===== src/Orders/Api.antt =====
-- The handlers of backend/src/controllers/order.ts. Fields that are only carried along (stop price, time
-- in force, linked orders, timestamp) are left out. `parseFloat` has been applied to the numbers of a
-- request: it gives NaN for a text that is no number. Times, bodies of answers and failures of the bus
-- are left out.
use mathlib.Core.Path.{subst}
use aether_x.Prelude.{
  ℕ, ◌≡◌, refl, List, [], ◌∷◌, Option, none, some, Bool, true, false, not, ◌&&◌, any, keep, take,
  ◌==◌, arith, ◌≢◌, All, All-take, All-kept, ap, if◌then◌else◌,
}
use aether_x.Prelude.Text.{Text, codes, text_eq, upper}
use aether_x.Prelude.Int.{ℤ, pos, ltb_ℤ}
use aether_x.Oms.Engine.{OrderRow}
use aether_x.Oms.Intents.{
  Status, pending, active, trigger_waiting, canceled, partially_filled, filled,
}

-- The values of `parseFloat`.
pub data Number : Type 0 where
  nan : Number
  num : ℤ → Number

-- `x <= 0`, which is false of NaN.
abbrev pub not_positive : Number → Bool
not_positive nan = false
not_positive (num n) = not (ltb_ℤ (pos 0) n)

-- The body of a request; a field that is missing or falsy is `none`.
pub record OrderRequest : Type 0 where
  pub symbol : Option Text
  pub side : Option Text
  pub order_type : Option Text
  pub price : Option Number
  pub quantity : Option Number
  pub idempotency_key : Option Text

-- What is published on `order.intents`, in upper case.
pub record Intent : Type 0 where
  pub idempotency_key : Text
  pub user_id : ℕ
  pub symbol : Text
  pub side : Text
  pub order_type : Text
  pub price : Number
  pub quantity : Number

pub data Response : Type 0 where
  unauthorized missing_fields price_missing quantity_missing bad_side bad_type : Response
  accepted : Intent → Response

abbrev pub sides : List Text
sides = codes "BUY" ∷ codes "SELL" ∷ []

abbrev pub types : List Text
types =
    codes "LIMIT" ∷ codes "MARKET" ∷ codes "STOP" ∷ codes "STOP_LIMIT" ∷ codes "TAKE_PROFIT" ∷ []

-- `list.includes(t)`
abbrev pub includes : List Text → Text → Bool
includes ts t = any (text_eq t) ts

-- `parseFloat(price || '0')`
abbrev pub number_or_zero : Option Number → Number
number_or_zero none = num (pos 0)
number_or_zero (some n) = n

-- `idempotencyKey || uuidv4()`
abbrev pub key_or_uuid : Option Text → Text → Text
key_or_uuid none uuid = uuid
key_or_uuid (some k) uuid = k

-- The checks on the fields that are there, in the order of the code.
abbrev pub check_fields : ℕ → Text → OrderRequest → Text → Text → Text → Number → Response
check_fields user_id uuid r symbol side type quantity =
    let price = number_or_zero r.price in
    if text_eq type (codes "LIMIT") && not_positive price
    then price_missing
    else if not_positive quantity
    then quantity_missing
    else if not (includes sides (upper side))
    then bad_side
    else if not (includes types (upper type))
    then bad_type
    else accepted (record {
      idempotency_key = key_or_uuid r.idempotency_key uuid;
      user_id = user_id;
      symbol = upper symbol;
      side = upper side;
      order_type = upper type;
      price = price;
      quantity = quantity;
    })

abbrev pub required :
    ℕ → Text → OrderRequest → Option Text → Option Text → Option Text → Option Number → Response
required user_id uuid r (some symbol) (some side) (some type) (some quantity) =
    check_fields user_id uuid r symbol side type quantity
required user_id uuid r _ _ _ _ = missing_fields

abbrev pub place_for : Option ℕ → Text → OrderRequest → Response
place_for none uuid r = unauthorized
place_for (some user_id) uuid r = required user_id uuid r r.symbol r.side r.order_type r.quantity

-- `placeOrder`: its answer, and the intent it publishes with `accepted`.
unfoldable pub place_order : Option ℕ → Text → OrderRequest → Response
place_order user uuid r = place_for user uuid r

-- The test of `cancelOrder` on the row's status.
abbrev pub can_cancel : Option Status → Bool
can_cancel (some pending) = true
can_cancel (some partially_filled) = true
can_cancel (some trigger_waiting) = true
can_cancel (some active) = true
can_cancel _ = false

pub data CancelResponse : Type 0 where
  cancel_unauthorized order_not_found cannot_cancel : CancelResponse
  submitted : Text → ℕ → Option ℕ → CancelResponse

abbrev pub owned_by : ℕ → OrderRow → Bool
owned_by user r = elim r.details.user_id [ none ↦ false | some u ↦ u == user ]

-- `SELECT ... WHERE id = $1 AND user_id = $2`
abbrev pub find_order : Text → ℕ → List OrderRow → Option OrderRow
find_order id user [] = none
find_order id user (r ∷ rs) =
    if text_eq r.id id && owned_by user r then some r else find_order id user rs

abbrev pub answer_cancel : Text → ℕ → Option OrderRow → CancelResponse
answer_cancel id user none = order_not_found
answer_cancel id user (some r) =
    if can_cancel r.status then submitted id user r.details.symbol else cannot_cancel

-- `cancelOrder`: `submitted` is the intent that it publishes.
abbrev pub cancel_request : Option ℕ → Text → List OrderRow → CancelResponse
cancel_request none id rows = cancel_unauthorized
cancel_request (some user) id rows = answer_cancel id user (find_order id user rows)

-- The two queries of `getOrders`, on rows that stand newest first.
abbrev pub is_listed_active : Option Status → Bool
is_listed_active (some pending) = true
is_listed_active (some partially_filled) = true
is_listed_active (some trigger_waiting) = true
is_listed_active _ = false

abbrev pub is_listed_history : Option Status → Bool
is_listed_history (some filled) = true
is_listed_history (some canceled) = true
is_listed_history _ = false

pub record OrderLists : Type 0 where
  pub active_orders : List OrderRow
  pub history : List OrderRow

abbrev pub get_orders : ℕ → List OrderRow → OrderLists
get_orders user rows = record {
  active_orders = keep (λ r. owned_by user r && is_listed_active r.status) rows;
  history = take 50 (keep (λ r. owned_by user r && is_listed_history r.status) rows);
}

-- What an accepted intent satisfies.
pub record IsAccepted (user : Option ℕ) (i : Intent) : Type 0 where
  pub from_user : user ≡ some i.user_id
  pub listed_side : includes sides i.side ≡ true
  pub listed_type : includes types i.order_type ≡ true
  pub quantity_left : not_positive i.quantity ≡ false

-- Four guards in a row before an intent is accepted.
guarded :
    (a b c d : Bool) (i j : Intent)
    → (if a
        then price_missing
        else if b
        then quantity_missing
        else if c
        then bad_side
        else if d
        then bad_type
        else accepted i)
      ≡ accepted j
    → (i ≡ j) × (b ≡ false) × (c ≡ false) × (d ≡ false)
guarded false false false false i j h = (ground (arith, h), refl, refl, refl)
guarded true b c d i j h = cc
guarded false true c d i j h = cc
guarded false false true d i j h = cc
guarded false false false true i j h = cc

not-false : (b : Bool) → not b ≡ false → b ≡ true
not-false true h = refl
not-false false h = cc

check_fields-IsAccepted :
    (user_id : ℕ) (uuid : Text) (r : OrderRequest) (symbol side type : Text) (quantity : Number)
    (i : Intent)
    → check_fields user_id uuid r symbol side type quantity ≡ accepted i
    → IsAccepted (some user_id) i
check_fields-IsAccepted user_id uuid r symbol side type quantity i h =
    let g = guarded _ _ _ _ _ i h in
    record {
      from_user = ap (λ (j : Intent). some j.user_id) g.0;
      listed_side = subst (λ (j : Intent). includes sides j.side ≡ true) g.0 (not-false _ g.2);
      listed_type =
          subst (λ (j : Intent). includes types j.order_type ≡ true) g.0 (not-false _ g.3);
      quantity_left = subst (λ (j : Intent). not_positive j.quantity ≡ false) g.0 g.1;
    }

required-IsAccepted :
    (user : ℕ) (uuid : Text) (r : OrderRequest) (symbol side type : Option Text)
    (quantity : Option Number) (i : Intent)
    → required user uuid r symbol side type quantity ≡ accepted i
    → IsAccepted (some user) i
required-IsAccepted user uuid r (some s) (some d) (some t) (some q) i h =
    check_fields-IsAccepted user uuid r s d t q i h
required-IsAccepted user uuid r none d t q i h = cc
required-IsAccepted user uuid r (some s) none t q i h = cc
required-IsAccepted user uuid r (some s) (some d) none q i h = cc
required-IsAccepted user uuid r (some s) (some d) (some t) none i h = cc

-- An intent that is published comes from the user who is signed in, has a side and a type of the two
-- lists, and its quantity is not zero or less (it may be NaN).
place_order-IsAccepted :
    (user : Option ℕ) (uuid : Text) (r : OrderRequest) (i : Intent)
    → place_order user uuid r ≡ accepted i
    → IsAccepted user i
unfolding place_order
place_order-IsAccepted none uuid r i h = cc
place_order-IsAccepted (some user) uuid r i h =
    required-IsAccepted user uuid r r.symbol r.side r.order_type r.quantity i h

-- No order whose status is ACTIVE is in either list of `getOrders`.
get_orders-active :
    (user : ℕ) (rows : List OrderRow)
    → All (λ (r : OrderRow). r.status ≢ some active) (get_orders user rows).active_orders
      × All (λ (r : OrderRow). r.status ≢ some active) (get_orders user rows).history
get_orders-active user rows =
    let open_status : (s : Option Status) → is_listed_active s ≡ true → s ≢ some active =
      λ s h e. ground (arith, h, e) in
    let past_status : (s : Option Status) → is_listed_history s ≡ true → s ≢ some active =
      λ s h e. ground (arith, h, e) in
    (
      All-kept _ _ (λ r h. open_status r.status (ground (arith, h))) rows,
      All-take _ 50 _ (All-kept _ _ (λ r h. past_status r.status (ground (arith, h))) rows),
    )
