-- ===== src/Prelude/Text.antt =====
-- JavaScript strings as lists of character codes, and what the program calls on them.
use Prim.Native.Nat.{ℕ, ◌+◌, ◌-◌}
use Prim.Native.Char.{code}
use Prim.Native.String.{String}
use mathlib.Core.Path.{◌≡◌, refl, ap₂}
use mathlib.Core.Bool.{Bool, true, false, ◌&&◌}
use mathlib.Core.List.{List, [], ◌∷◌, map}
use mathlib.Core.Option.{Option, none, some}
use native.Mathlib.Omega.{arith}
use aether_x.Prelude.Tests.{leb, ◌==◌, if◌then◌else◌}

abbrev pub Text : Type 0
Text = List ℕ

abbrev pub codes : String → Text
codes String.[] = []
codes (String.◌∷◌ c s) = code c ∷ codes s

abbrev pub text_eq : Text → Text → Bool
text_eq [] [] = true
text_eq [] (d ∷ ds) = false
text_eq (c ∷ cs) [] = false
text_eq (c ∷ cs) (d ∷ ds) = c == d && text_eq cs ds

pub text_eq_sound : (s t : Text) → text_eq s t ≡ true → s ≡ t
text_eq_sound [] [] h = refl
text_eq_sound [] (d ∷ ds) h = cc
text_eq_sound (c ∷ cs) [] h = cc
text_eq_sound (c ∷ cs) (d ∷ ds) h = ap₂ ◌∷◌ (ground arith) (text_eq_sound cs ds (ground arith))

pub text_eq_refl : (s : Text) → text_eq s s ≡ true
text_eq_refl [] = refl
text_eq_refl (c ∷ cs) = ground (arith, text_eq_refl cs)

-- `toUpperCase`, on ASCII.
abbrev pub upper : Text → Text
upper = map (λ c. if leb b'a' c && leb c b'z' then c - 32 else c)

-- `toLowerCase`, on ASCII.
abbrev pub lower : Text → Text
lower = map (λ c. if leb b'A' c && leb c b'Z' then c + 32 else c)

-- What follows a prefix, if it is one.
abbrev pub strip : Text → Text → Option Text
strip [] s = some s
strip (c ∷ cs) [] = none
strip (c ∷ cs) (d ∷ ds) = if c == d then strip cs ds else none

abbrev after_match : ℕ → Text → Option Text → Text
after_match d rest (some left) = left
after_match d rest none = d ∷ rest

-- `s.replace(pattern, '')`: the first occurrence is dropped.
abbrev pub drop_first : Text → Text → Text
drop_first pattern_text [] = []
drop_first pattern_text (d ∷ ds) =
    after_match d (drop_first pattern_text ds) (strip pattern_text (d ∷ ds))
