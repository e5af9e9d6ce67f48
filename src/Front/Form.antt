-- ===== src/Front/Form.antt =====
-- `OrderForm` of frontend/src/components/OrderForm.tsx: what a submission sends. `parse_float` and
-- `to_string` are JavaScript's; a request body goes to `placeOrder` as it was sent.
use aether_x.Prelude.{
  ℕ, ◌≡◌, ◌≢◌, refl, sym, ap, ◌∙◌, [], ◌∷◌, Option, none, some, Bool, true, false, ◌&&◌, ◌||◌,
  if◌then◌else◌,
}
use aether_x.Prelude.Text.{Text, codes, upper}
use aether_x.Matching.Queue.{Side, buy, sell}
use aether_x.Orders.Api.{
  Number, nan, num, not_positive, OrderRequest, Intent, accepted, place_order, check_fields,
  key_or_uuid,
}

pub data FormType : Type 0 where
  limit market stop : FormType

pub record Form : Type 0 where
  pub symbol : Text
  pub spot_price : Number
  pub side : Side
  pub order_type : FormType
  pub price : Text
  pub stop_price : Text
  pub quantity : Text
  pub time_in_force : Text
  pub post_only : Bool
  pub use_bracket : Bool
  pub tp_price : Text
  pub sl_price : Text

-- A linked order: its price or stop price, and its quantity.
pub record Leg : Type 0 where
  pub price : Number
  pub quantity : Number

pub record LinkedOrders : Type 0 where
  pub take_profit : Option Leg
  pub stop_loss : Option Leg

pub record OrderPayload : Type 0 where
  pub symbol : Text
  pub side : Text
  pub order_type : Text
  pub price : Text
  pub quantity : Text
  pub time_in_force : Text
  pub stop_price : Option Text
  pub linked_orders : Option LinkedOrders

pub data Submission : Type 0 where
  bad_quantity bad_price bad_stop_price : Submission
  sent : OrderPayload → Submission

abbrev pub side_text : Side → Text
side_text buy = codes "BUY"
side_text sell = codes "SELL"

abbrev pub type_text : FormType → Text
type_text limit = codes "LIMIT"
type_text market = codes "MARKET"
type_text stop = codes "STOP"

abbrev pub is_nan : Number → Bool
is_nan nan = true
is_nan (num n) = false

-- `isNaN(x) || x <= 0`
abbrev pub is_bad : Number → Bool
is_bad x = is_nan x || not_positive x

abbrev pub has_price : FormType → Bool
has_price market = false
has_price _ = true

abbrev pub is_stop : FormType → Bool
is_stop stop = true
is_stop _ = false

-- A text that is truthy.
abbrev pub if_filled : Text → Option Text
if_filled [] = none
if_filled (c ∷ cs) = some (c ∷ cs)

abbrev pub map_number : (Text → Number) → Option Text → Option Number
map_number f none = none
map_number f (some t) = some (f t)

abbrev pub leg_at : Number → Option Number → Option Leg
leg_at quantity none = none
leg_at quantity (some price) = some (record { price = price; quantity = quantity })

module _ (parse_float : Text → Number) (to_string : Number → Text) where
  -- `type === 'MARKET' ? spotPrice : parseFloat(price)`
  abbrev pub price_for : FormType → Form → Number
  price_for market f = f.spot_price
  price_for _ f = parse_float f.price

  abbrev pub brackets : Form → Number → LinkedOrders
  brackets f quantity = record {
    take_profit = leg_at quantity (map_number parse_float (if_filled f.tp_price));
    stop_loss = leg_at quantity (map_number parse_float (if_filled f.sl_price));
  }

  abbrev pub payload_of : Form → Number → Number → OrderPayload
  payload_of f price quantity = record {
    symbol = f.symbol;
    side = side_text f.side;
    order_type = type_text f.order_type;
    price = to_string price;
    quantity = to_string quantity;
    time_in_force = if f.post_only then codes "GTC" else f.time_in_force;
    stop_price = if is_stop f.order_type then some f.stop_price else none;
    linked_orders = if f.use_bracket then some (brackets f quantity) else none;
  }

  -- `handleSubmit`, up to its request.
  unfoldable pub handle_submit : Form → Submission
  handle_submit f =
      let quantity = parse_float f.quantity in
      let price = price_for f.order_type f in
      if is_bad quantity
      then bad_quantity
      else if has_price f.order_type && is_bad price
      then bad_price
      else if is_stop f.order_type && is_bad (parse_float f.stop_price)
      then bad_stop_price
      else sent (payload_of f price quantity)

  -- The body as `placeOrder` reads it.
  abbrev pub request_of : OrderPayload → OrderRequest
  request_of p = record {
    symbol = if_filled p.symbol;
    side = if_filled p.side;
    order_type = if_filled p.order_type;
    price = map_number parse_float (if_filled p.price);
    quantity = map_number parse_float (if_filled p.quantity);
    idempotency_key = none;
  }

  -- What the controller publishes for a form.
  abbrev pub intent_for : ℕ → Text → Form → Intent
  intent_for user uuid f = record {
    idempotency_key = uuid;
    user_id = user;
    symbol = upper f.symbol;
    side = side_text f.side;
    order_type = type_text f.order_type;
    price = price_for f.order_type f;
    quantity = parse_float f.quantity;
  }

  if_filled-some : (t : Text) → t ≢ [] → if_filled t ≡ some t
  if_filled-some [] h = absurd (h refl)
  if_filled-some (c ∷ cs) h = refl

  if_filled-side : (s : Side) → if_filled (side_text s) ≡ some (side_text s)
  if_filled-side buy = refl
  if_filled-side sell = refl

  if_filled-type : (t : FormType) → if_filled (type_text t) ≡ some (type_text t)
  if_filled-type limit = refl
  if_filled-type market = refl
  if_filled-type stop = refl

  -- A chain of three checks that ends in a request.
  passed_all :
      (a b d : Bool) (p q : OrderPayload)
      → (if a then bad_quantity else if b then bad_price else if d then bad_stop_price else sent q)
        ≡ sent p
      → (a ≡ false) × (b ≡ false) × (p ≡ q)
  passed_all true b d p q e = cc
  passed_all false true d p q e = cc
  passed_all false false true p q e = cc
  passed_all false false false p q e = (refl, refl, cc)

  is_bad-parts : (x : Number) → is_bad x ≡ false → not_positive x ≡ false
  is_bad-parts nan h = cc
  is_bad-parts (num n) h = h

  -- The controller's checks pass what the form's checks pass.
  checked :
      (s : Side) (t : FormType) (price quantity : Number) (user : ℕ) (uuid symbol : Text)
      (r : OrderRequest)
      → r.price ≡ some price
      → not_positive quantity ≡ false
      → (has_price t && is_bad price) ≡ false
      → check_fields user uuid r symbol (side_text s) (type_text t) quantity
        ≡ accepted (record {
          idempotency_key = key_or_uuid r.idempotency_key uuid;
          user_id = user;
          symbol = upper symbol;
          side = side_text s;
          order_type = type_text t;
          price = price;
          quantity = quantity;
        })
  checked buy limit price quantity user uuid symbol r p q h = rw (p, is_bad-parts price h, q) refl
  checked buy market price quantity user uuid symbol r p q h = rw (p, q) refl
  checked buy stop price quantity user uuid symbol r p q h = rw (p, q) refl
  checked sell limit price quantity user uuid symbol r p q h = rw (p, is_bad-parts price h, q) refl
  checked sell market price quantity user uuid symbol r p q h = rw (p, q) refl
  checked sell stop price quantity user uuid symbol r p q h = rw (p, q) refl

  module _ (parse_string : (x : Number) → parse_float (to_string x) ≡ x)
      (string_filled : (x : Number) → to_string x ≢ []) where
    read_back : (x : Number) → map_number parse_float (if_filled (to_string x)) ≡ some x
    read_back x = rw (if_filled-some (to_string x) (string_filled x)) (ap some (parse_string x))

    placed :
        (user : ℕ) (uuid : Text) (f : Form) (c : ℕ) (cs : Text)
        → f.symbol ≡ c ∷ cs
        → is_bad (parse_float f.quantity) ≡ false
        → (has_price f.order_type && is_bad (price_for f.order_type f)) ≡ false
        → place_order
            (some user)
            uuid
            (request_of (payload_of f (price_for f.order_type f) (parse_float f.quantity)))
          ≡ accepted (intent_for user uuid f)
    unfolding place_order
    placed user uuid f c cs named quantity price =
        let amount = parse_float f.quantity in
        let cost = price_for f.order_type f in
        let symbol : if_filled f.symbol ≡ some f.symbol =
          ap if_filled named ∙ sym (ap some named) in
        rw (symbol, if_filled-side f.side, if_filled-type f.order_type, read_back amount)
          (checked f.side f.order_type cost amount user uuid f.symbol
            (request_of (payload_of f cost amount)) (read_back cost) (is_bad-parts amount quantity)
            price)

    -- Where `parseFloat` reads back what `toString` writes, which is never empty: what the form sends
    -- for a symbol is accepted by `placeOrder` for any user who is signed in, and the intent has the
    -- side, the type and the quantity of the form, and its price, or the spot price for a market order.
    pub handle_submit-place_order :
        (user : ℕ) (uuid : Text) (f : Form) (p : OrderPayload) (c : ℕ) (cs : Text)
        → handle_submit f ≡ sent p
        → f.symbol ≡ c ∷ cs
        → place_order (some user) uuid (request_of p) ≡ accepted (intent_for user uuid f)
    unfolding handle_submit
    handle_submit-place_order user uuid f p c cs e named =
        let (quantity, price, same) = passed_all _ _ _ p _ e in
        rw same (placed user uuid f c cs named quantity price)
