-- ===== src/Auth/Session.antt =====
-- `login`, `logout` and `me` of backend/src/controllers/auth.ts. `compare` is `bcrypt.compare`;
-- `stringify` and `parse` are those of `JSON` on a session.
use aether_x.Prelude.{ℕ, List, [], ◌∷◌, Option, none, some, Bool, ◌||◌, if◌then◌else◌}
use aether_x.Prelude.Text.{Text, text_eq, lower}
use aether_x.Auth.Users.{User, AuthDb, or_empty, is_falsy}

pub record Session : Type 0 where
  pub id : ℕ
  pub email : Text

pub data LoginAnswer : Type 0 where
  incomplete rejected : LoginAnswer
  logged_in : Session → LoginAnswer

pub data MeAnswer : Type 0 where
  not_authenticated invalid_cookie : MeAnswer
  signed_in : Session → MeAnswer

-- `SELECT … FROM users WHERE email = $1`, the first row.
abbrev pub find_user : Text → List User → Option User
find_user email [] = none
find_user email (u ∷ us) = if text_eq u.email email then some u else find_user email us

abbrev pub me_parsed : Option Session → MeAnswer
me_parsed none = invalid_cookie
me_parsed (some s) = signed_in s

module _ (compare : Text → Text → Bool) (stringify : Session → Text) where
  -- The answer and the `userSession` cookie after it.
  abbrev pub login_as : Option User → Text → Option Text → LoginAnswer × Option Text
  login_as none password cookie = (rejected, cookie)
  login_as (some u) password cookie =
      let session : Session = record { id = u.id; email = u.email } in
      if compare password u.password_hash
      then (logged_in session, some (stringify session))
      else (rejected, cookie)

  unfoldable pub login :
      Option Text → Option Text → AuthDb → Option Text → LoginAnswer × Option Text
  login email password d cookie =
      if is_falsy email || is_falsy password
      then (incomplete, cookie)
      else login_as (find_user (lower (or_empty email)) d.users) (or_empty password) cookie

abbrev pub logout : Option Text → Option Text
logout cookie = none

unfoldable pub me : (Text → Option Session) → Option Text → MeAnswer
me parse cookie = if is_falsy cookie then not_authenticated else me_parsed (parse (or_empty cookie))
