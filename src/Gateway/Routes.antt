-- ===== src/Gateway/Routes.antt =====
-- backend/src/routes/api.ts: the table of routes, the middleware before their handlers, and the first
-- check of the handlers in backend/src/controllers/. How a method and a path match a pattern is
-- Express's: `matches`. `parse` is `JSON.parse`: `none` where it throws, else any JSON value at all.
use mathlib.Core.Path.{subst}
use aether_x.Prelude.{
  ◌≡◌, refl, ◌⊎◌, ◌&&◌, zero, List, [], ◌∷◌, Option, none, some, Bool, true, false, Bool-cases, inl,
  inr, arith, if◌then◌else◌,
}
use aether_x.Prelude.Text.{Text, codes}
use aether_x.Auth.Users.{is_falsy, or_empty}
use aether_x.Gateway.Bridge.{Value, undefined, null, text, boolean, number, field_of}

pub data Method : Type 0 where
  get post delete : Method

pub data Handler : Type 0 where
  register login logout me : Handler
  get_balances get_positions : Handler
  place_order cancel_order get_orders : Handler
  get_market_history : Handler
  get_ledger_entries get_performance_stats get_system_metrics : Handler

pub record Route : Type 0 where
  pub method : Method
  pub pattern_text : Text
  pub is_protected : Bool
  pub handler : Handler

abbrev open_route : Method → Text → Handler → Route
open_route method path handler = record {
  method = method;
  pattern_text = path;
  is_protected = false;
  handler = handler;
}

abbrev protected_route : Method → Text → Handler → Route
protected_route method path handler = record {
  method = method;
  pattern_text = path;
  is_protected = true;
  handler = handler;
}

abbrev pub routes : List Route
routes =
    open_route post (codes "/auth/register") register
    ∷ open_route post (codes "/auth/login") login
    ∷ open_route post (codes "/auth/logout") logout
    ∷ open_route get (codes "/auth/me") me
    ∷ protected_route get (codes "/wallet/balances") get_balances
    ∷ protected_route get (codes "/wallet/positions") get_positions
    ∷ protected_route post (codes "/orders") place_order
    ∷ protected_route delete (codes "/orders/:orderId") cancel_order
    ∷ protected_route get (codes "/orders") get_orders
    ∷ open_route get (codes "/market/history") get_market_history
    ∷ protected_route get (codes "/stats/ledger") get_ledger_entries
    ∷ protected_route get (codes "/stats/performance") get_performance_stats
    ∷ protected_route get (codes "/stats/metrics") get_system_metrics
    ∷ []

-- Without a session, with one that does not parse, or for no user the answer is 401.
pub data Outcome : Type 0 where
  no_session malformed_cookie unauthorized not_found : Outcome
  handled : Handler → Value → Outcome

-- `!v`
abbrev pub is_absent : Value → Bool
is_absent undefined = true
is_absent null = true
is_absent (text []) = true
is_absent (number zero) = true
is_absent (boolean false) = true
is_absent _ = false

-- A handler that begins with the check of `req.user?.id`.
abbrev pub reads_user : Handler → Bool
reads_user get_balances = true
reads_user get_positions = true
reads_user place_order = true
reads_user cancel_order = true
reads_user get_orders = true
reads_user get_ledger_entries = true
reads_user get_performance_stats = true
reads_user _ = false

-- A handler's first check, on `req.user`.
abbrev pub enter : Handler → Value → Outcome
enter h user =
    if reads_user h && is_absent (field_of (codes "id") user) then unauthorized else handled h user

module _ (parse : Text → Option Value) (matches : Method → Text → Bool) where
  abbrev admit : Option Value → (Value → Outcome) → Outcome
  admit none next = malformed_cookie
  admit (some parsed) next = next parsed

  abbrev pub require_auth : Option Text → (Value → Outcome) → Outcome
  require_auth cookie next =
      if is_falsy cookie then no_session else admit (parse (or_empty cookie)) next

  abbrev pub run_route : Option Text → Route → Outcome
  run_route cookie r =
      if r.is_protected then require_auth cookie (enter r.handler) else enter r.handler undefined

  abbrev pub dispatch_in : Option Text → List Route → Outcome
  dispatch_in cookie [] = not_found
  dispatch_in cookie (r ∷ rs) =
      let rest = dispatch_in cookie rs in
      if matches r.method r.pattern_text then run_route cookie r else rest

  unfoldable pub dispatch : Option Text → Outcome
  dispatch cookie = dispatch_in cookie routes

  -- A request's handler has the value of the cookie, and an id where it reads one; the handler of an
  -- open route has no user and reads none.
  abbrev IsAdmitted : Option Text → Outcome → Type 0
  IsAdmitted cookie (handled h user) =
      (reads_user h ≡ true → is_absent (field_of (codes "id") user) ≡ false)
      × ((parse (or_empty cookie) ≡ some user) ⊎ ((user ≡ undefined) × (reads_user h ≡ false)))
  IsAdmitted cookie _ = Unit

  -- Only a handler that does not read the user stands on an open route.
  abbrev AreGuarded : List Route → Type 0
  AreGuarded [] = Unit
  AreGuarded (r ∷ rs) = (r.is_protected ≡ false → reads_user r.handler ≡ false) × AreGuarded rs

  enter-IsAdmitted :
      (cookie : Option Text) (h : Handler) (user : Value)
      → (parse (or_empty cookie) ≡ some user) ⊎ ((user ≡ undefined) × (reads_user h ≡ false))
      → IsAdmitted cookie (enter h user)
  enter-IsAdmitted cookie h user e = elim (Bool-cases (reads_user h)) [
    | inl reads ↦ elim (Bool-cases (is_absent (field_of (codes "id") user))) [
      | inl absent ↦ rw (reads, absent) tt
      | inr there ↦ rw (reads, there) ((λ r. there), e)
    ]
    | inr not_read ↦ rw not_read ((λ r. cc (r, not_read)), e)
  ]

  admit-IsAdmitted :
      (cookie : Option Text) (h : Handler) (o : Option Value)
      → parse (or_empty cookie) ≡ o
      → IsAdmitted cookie (admit o (enter h))
  admit-IsAdmitted cookie h none e = tt
  admit-IsAdmitted cookie h (some v) e = enter-IsAdmitted cookie h v (inl e)

  require_auth-IsAdmitted :
      (cookie : Option Text) (h : Handler) → IsAdmitted cookie (require_auth cookie (enter h))
  require_auth-IsAdmitted cookie h = elim (Bool-cases (is_falsy cookie)) [
    | inl missing ↦ rw missing tt
    | inr there ↦ rw there (admit-IsAdmitted cookie h (parse (or_empty cookie)) refl)
  ]

  run_route-IsAdmitted :
      (cookie : Option Text) (r : Route)
      → (r.is_protected ≡ false → reads_user r.handler ≡ false)
      → IsAdmitted cookie (run_route cookie r)
  run_route-IsAdmitted cookie r h = elim (Bool-cases r.is_protected) [
    | inl guarded ↦ rw guarded (require_auth-IsAdmitted cookie r.handler)
    | inr open_one ↦
        rw open_one (enter-IsAdmitted cookie r.handler undefined (inr (refl, h open_one)))
  ]

  dispatch_in-IsAdmitted :
      (cookie : Option Text) (rs : List Route)
      → AreGuarded rs
      → IsAdmitted cookie (dispatch_in cookie rs)
  dispatch_in-IsAdmitted cookie [] h = tt
  dispatch_in-IsAdmitted cookie (r ∷ rs) h = elim (Bool-cases (matches r.method r.pattern_text)) [
    | inl here ↦ rw here (run_route-IsAdmitted cookie r h.0)
    | inr later ↦ rw later (dispatch_in-IsAdmitted cookie rs h.1)
  ]

  -- Whatever matches, and whatever JSON value the cookie holds: a handler that reads the user gets
  -- past its first check only with the value that the cookie of the request parses to, and this value
  -- has an id that is not falsy; a handler that does not read the user has that value or no user.
  pub dispatch-IsAdmitted :
      (cookie : Option Text) (h : Handler) (user : Value)
      → dispatch cookie ≡ handled h user
      → (reads_user h ≡ true → is_absent (field_of (codes "id") user) ≡ false)
        × ((parse (or_empty cookie) ≡ some user) ⊎ ((user ≡ undefined) × (reads_user h ≡ false)))
  unfolding dispatch
  dispatch-IsAdmitted cookie h user e =
      subst (IsAdmitted cookie) e (dispatch_in-IsAdmitted cookie routes guarded)
    where
      guarded : AreGuarded routes
      guarded = ground arith
