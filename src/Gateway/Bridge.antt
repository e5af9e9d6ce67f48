-- ===== src/Gateway/Bridge.antt =====
-- The broadcasters of backend/src/index.ts: what a message of the bus becomes on the sockets. A message
-- is a JavaScript object, by its fields; a field that it lacks is undefined. A number is given by a
-- code, 0 for the number 0; an array is an object of its elements.
use aether_x.Prelude.{ℕ, zero, List, [], ◌∷◌, Bool, false, ◌||◌, if◌then◌else◌}
use aether_x.Prelude.Text.{Text, codes, text_eq}
use aether_x.Matching.Book.{Level}

mutual
  pub data Value : Type 0 where
    undefined null : Value
    text : Text → Value
    boolean : Bool → Value
    number : ℕ → Value
    object : Object → Value

  pub data Object : Type 0 where
    no_fields : Object
    entry : Text → Value → Object → Object

-- `o.name`
abbrev pub field : Text → Object → Value
field name no_fields = undefined
field name (entry key value rest) = if text_eq key name then value else field name rest

-- `o?.name`
abbrev pub field_of : Text → Value → Value
field_of name (object o) = field name o
field_of name _ = undefined

-- `a || b`
abbrev pub or_value : Value → Value → Value
or_value undefined b = b
or_value null b = b
or_value (text []) b = b
or_value (number zero) b = b
or_value (boolean false) b = b
or_value a b = a

abbrev pub is_text : Text → Value → Bool
is_text t (text s) = text_eq s t
is_text t _ = false

abbrev pub Depth : Type 0
Depth = List Level × List Level

pub data Emission : Type 0 where
  tick_to : Text → Value → Value → Value → Emission
  indicators_to : Text → Value → Value → Emission
  trade_to : Value → Value → Value → Value → Value → Value → Emission
  book_to : Value → Depth → Emission
  refresh_parties : Value → Value → Emission
  refresh_user : Value → Emission

-- `ws-tick-broadcaster-…` and `ws-indicator-broadcaster-…`
abbrev pub on_tick : Text → Object → List Emission
on_tick room tick =
    tick_to room (field (codes "price") tick) (field (codes "quantity") tick)
      (field (codes "timestamp") tick)
    ∷ []

abbrev pub on_indicators : Text → Object → List Emission
on_indicators room data_object =
    indicators_to room (field (codes "candle") data_object) (field (codes "indicators") data_object)
    ∷ []

-- `ws-order-broadcaster`, on `getOrderBookDepth`.
module _ (depth_of : Value → Depth) where
  abbrev pub on_trade : Object → List Emission
  on_trade evt =
      let symbol = field (codes "symbol") evt in
      let buyer = field (codes "buyerId") evt in
      let seller = field (codes "sellerId") evt in
      trade_to symbol (field (codes "price") evt) (field (codes "quantity") evt) buyer seller
        (field (codes "timestamp") evt)
      ∷ book_to symbol (depth_of symbol)
      ∷ refresh_parties buyer seller
      ∷ []

  abbrev pub on_order_change : Object → List Emission
  on_order_change evt =
      let order = field (codes "order") evt in
      let symbol = or_value (field_of (codes "symbol") order) (field (codes "symbol") evt) in
      let user = or_value (field_of (codes "userId") order) (field (codes "userId") evt) in
      book_to symbol (depth_of symbol) ∷ refresh_user user ∷ []

  unfoldable pub on_order_event : Object → List Emission
  on_order_event evt =
      let type = field (codes "type") evt in
      if is_text (codes "TRADE_EXECUTED") type
      then on_trade evt
      else if is_text (codes "ORDER_PLACED") type || is_text (codes "ORDER_CANCELED") type
      then on_order_change evt
      else []
