-- ===== src/Prelude/Lists.antt =====
-- Lists over the native numbers: lengths, membership of a predicate, sums and filters.
use Prim.Native.Nat.{ℕ, zero, suc, ◌+◌, min}
use mathlib.Core.Path.{◌≡◌, refl}
use mathlib.Core.Bool.{Bool, true, false}
use mathlib.Core.List.{List, [], ◌∷◌, ◌++◌}
use native.Mathlib.Omega.{arith}
use mathlib.Core.Logic.{inl, inr}
use aether_x.Prelude.Tests.{if◌then◌else◌, Bool-cases}

module _ {ℓ} {A : Type ℓ} where
  abbrev pub length : List A → ℕ
  length [] = 0
  length (x ∷ xs) = suc (length xs)

  abbrev pub take : ℕ → List A → List A
  take zero xs = []
  take (suc n) [] = []
  take (suc n) (x ∷ xs) = x ∷ take n xs

  abbrev pub keep : (A → Bool) → List A → List A
  keep p [] = []
  keep p (x ∷ xs) = let rest = keep p xs in if p x then x ∷ rest else rest

  abbrev pub any : (A → Bool) → List A → Bool
  any p [] = false
  any p (x ∷ xs) = if p x then true else any p xs

  abbrev pub total : (A → ℕ) → List A → ℕ
  total f [] = 0
  total f (x ∷ xs) = f x + total f xs

  -- A predicate of every element.
  abbrev pub All {κ} : (A → Type κ) → List A → Type κ
  All P [] = Unit
  All P (x ∷ xs) = P x × All P xs

  pub length-append : (xs ys : List A) → length (xs ++ ys) ≡ length xs + length ys
  length-append [] ys = omega arith
  length-append (x ∷ xs) ys = omega (arith, length-append xs ys)

  pub length-take : (n : ℕ) (xs : List A) → length (take n xs) ≡ min n (length xs)
  length-take zero xs = omega arith
  length-take (suc n) [] = omega arith
  length-take (suc n) (x ∷ xs) = omega (arith, length-take n xs)

  pub total-append : (f : A → ℕ) (xs ys : List A) → total f (xs ++ ys) ≡ total f xs + total f ys
  total-append f [] ys = omega arith
  total-append f (x ∷ xs) ys = omega (arith, total-append f xs ys)

  pub All-append {κ} : (P : A → Type κ) (xs ys : List A) → All P xs → All P ys → All P (xs ++ ys)
  All-append P [] ys hx hy = hy
  All-append P (x ∷ xs) ys hx hy = (hx.0, All-append P xs ys hx.1 hy)

  pub All-map {κ μ} :
      (P : A → Type κ) (Q : A → Type μ)
      → ((x : A) → P x → Q x)
      → (xs : List A) → All P xs
      → All Q xs
  All-map P Q f [] h = tt
  All-map P Q f (x ∷ xs) h = (f x h.0, All-map P Q f xs h.1)

  pub any-append :
      (p : A → Bool) (xs : List A) (y : A) → any p (xs ++ y ∷ []) ≡ (if p y then true else any p xs)
  any-append p [] y = refl
  any-append p (x ∷ xs) y = ground (arith, any-append p xs y)

  pub append_nil : (xs : List A) → xs ++ [] ≡ xs
  append_nil [] = refl
  append_nil (x ∷ xs) = ground (arith, append_nil xs)

  pub append_assoc : (xs ys zs : List A) → (xs ++ ys) ++ zs ≡ xs ++ (ys ++ zs)
  append_assoc [] ys zs = refl
  append_assoc (x ∷ xs) ys zs = ground (arith, append_assoc xs ys zs)

  pub any-middle :
      (p : A → Bool) (xs : List A) (y : A) (ys : List A) → p y ≡ true → any p (xs ++ y ∷ ys) ≡ true
  any-middle p [] y ys h = ground arith
  any-middle p (x ∷ xs) y ys h = ground (arith, any-middle p xs y ys h)

  pub All-keep {κ} : (P : A → Type κ) (f : A → Bool) (xs : List A) → All P xs → All P (keep f xs)
  All-keep P f [] h = tt
  All-keep P f (x ∷ xs) h = ground (arith, All-keep P f xs h.1)

  pub All-take {κ} : (P : A → Type κ) (n : ℕ) (xs : List A) → All P xs → All P (take n xs)
  All-take P zero xs h = tt
  All-take P (suc n) [] h = tt
  All-take P (suc n) (x ∷ xs) h = (h.0, All-take P n xs h.1)

  -- What is kept satisfies whatever the test gives.
  pub All-kept {κ} :
      (P : A → Type κ) (f : A → Bool)
      → ((x : A) → f x ≡ true → P x)
      → (xs : List A) → All P (keep f xs)
  All-kept P f k [] = tt
  All-kept P f k (x ∷ xs) = elim (Bool-cases (f x)) [
    | inl kept ↦ rw kept (k x kept, All-kept P f k xs)
    | inr left ↦ rw left (All-kept P f k xs)
  ]
