-- ===== src/Aru/Numbers.antt =====
-- The numbers that backend/src/services/aruAlgo.ts computes with, as an interface: the operations that
-- it calls and what the proofs ask of their order. All values stand for finite numbers; NaN, where the
-- code stores it, is the absence of a number.
use aether_x.Prelude.{ℕ, ◌≡◌, Bool, true, false, if◌then◌else◌}

pub record Numbers (N : Type 0) : Type 0 where
  pub lt : N → N → Bool
  pub le : N → N → Bool
  pub is_zero : N → Bool
  pub add : N → N → N
  pub sub : N → N → N
  pub mul : N → N → N
  pub div : N → N → N
  pub max_of : N → N → N
  pub min_of : N → N → N
  pub of_nat : ℕ → N
  -- `1e-9`, and `Math.round(v * 100) / 100`.
  pub tiny : N
  pub to_cents : N → N

-- A linear order, with its bounds.
pub record IsOrder {N : Type 0} (num : Numbers N) : Type 0 where
  pub lt_asym : (a b : N) → num.lt a b ≡ true → num.lt b a ≡ false
  pub le_refl : (a : N) → num.le a a ≡ true
  pub le_trans : (a b c : N) → num.le a b ≡ true → num.le b c ≡ true → num.le a c ≡ true
  pub lt-le : (a b : N) → num.lt a b ≡ true → num.le b a ≡ false
  pub le_max_left : (a b : N) → num.le a (num.max_of a b) ≡ true
  pub le_max_right : (a b : N) → num.le b (num.max_of a b) ≡ true
  pub min_le_left : (a b : N) → num.le (num.min_of a b) a ≡ true
  pub min_le_right : (a b : N) → num.le (num.min_of a b) b ≡ true

module _ {N : Type 0} (num : Numbers N) where
  abbrev pub abs_of : N → N
  abs_of x = if num.lt x (num.of_nat 0) then num.sub (num.of_nat 0) x else x

  -- `||`, which is for a zero on its left.
  abbrev pub or_else : N → N → N
  or_else x y = if num.is_zero x then y else x
