-- ===== src/Position/Marks.antt =====
-- Marking positions to the market.
use mathlib.Core.Path.{subst}
use aether_x.Prelude.{
  ℕ, suc, ◌≡◌, ◌≢◌, inl, inr, List, [], ◌∷◌, All, true, false, not, ◌&&◌, arith, ◌==◌,
  if◌then◌else◌, Bool-cases,
}
use aether_x.Prelude.Int.{ℤ, pos, negsuc, pos_part, neg_part, ◌-ℤ◌, ◌*ℤ◌, ◌≤ℤ◌, ltb_ℤ, abs}
use aether_x.Position.Engine.{PositionState, is_zero, unrealized, mark_position, mark_to_market}

-- The unrealized profit of a position, long or short.
abbrev pub mark_value : ℤ → PositionState → ℤ
mark_value current p = p.size *ℤ (current -ℤ p.average_entry_price)

abbrev pub IsMarked : ℤ → ℕ → ℤ → PositionState → Type 0
IsMarked tolerance symbol current p =
    p.symbol ≡ symbol → p.size ≢ pos 0 → abs (p.unrealized_pnl -ℤ mark_value current p) ≤ℤ tolerance

sub_flip :
    (a b : ℤ) → (pos_part (a -ℤ b) ≡ neg_part (b -ℤ a)) × (neg_part (a -ℤ b) ≡ pos_part (b -ℤ a))
unfolding ◌-ℤ◌
sub_flip a b = ground arith

abs_negsuc : (n : ℕ) → abs (negsuc n) ≡ pos (suc n)
unfolding abs ◌-ℤ◌
abs_negsuc n = ground arith

neg_mul :
    (n : ℕ) (d d' : ℤ)
    → pos_part d ≡ neg_part d'
    → neg_part d ≡ pos_part d'
    → pos (suc n) *ℤ d ≡ negsuc n *ℤ d'
unfolding ◌*ℤ◌
neg_mul n d d' h k = rw h (rw k (ground arith))

zero_mul : (d : ℤ) → pos 0 *ℤ d ≡ pos 0
unfolding ◌*ℤ◌
zero_mul d = ground arith

-- The source's two formulas for the profit of a long and of a short position are one.
unrealized_parts :
    (size current average : ℤ)
    → (if ltb_ℤ (pos 0) size
        then size *ℤ (current -ℤ average)
        else if ltb_ℤ size (pos 0)
        then abs size *ℤ (average -ℤ current)
        else pos 0)
      ≡ size *ℤ (current -ℤ average)
unrealized_parts (pos n) current average = ground (arith, zero_mul (current -ℤ average))
unrealized_parts (negsuc n) current average =
    let below : ltb_ℤ (pos 0) (negsuc n) ≡ false = ground arith in
    let above : ltb_ℤ (negsuc n) (pos 0) ≡ true = ground arith in
    let f = sub_flip average current in
    rw below
      (rw above (rw (abs_negsuc n) (neg_mul n (average -ℤ current) (current -ℤ average) f.0 f.1)))

unrealized_lem : (current : ℤ) (p : PositionState) → unrealized current p ≡ mark_value current p
unrealized_lem current p = unrealized_parts p.size current p.average_entry_price

abs_zero : (a : ℤ) → abs (a -ℤ a) ≡ pos 0
unfolding abs ◌-ℤ◌
abs_zero a = ground arith

le_of_ltb : (a t : ℤ) → ltb_ℤ t a ≡ false → a ≤ℤ t
le_of_ltb a t h = ground arith

mark_position-IsMarked :
    (tolerance : ℤ) (symbol : ℕ) (current : ℤ) (p : PositionState)
    → pos 0 ≤ℤ tolerance
    → IsMarked tolerance symbol current (mark_position tolerance symbol current p)
mark_position-IsMarked tolerance symbol current p h =
    elim (Bool-cases (p.symbol == symbol && not (is_zero p.size))) [
      | inr other ↦ rw other (λ s z. absurd (ground arith))
      | inl mine ↦
          rw mine
            (elim (Bool-cases (ltb_ℤ tolerance (abs (p.unrealized_pnl -ℤ unrealized current p)))) [
              | inl far ↦
                  rw far
                    (λ s z. rw (unrealized_lem current p) (rw (abs_zero (mark_value current p)) h))
              | inr near ↦
                  let e = unrealized_lem current p in
                  rw near (λ s z.
                    le_of_ltb _ tolerance
                      (subst (λ m. ltb_ℤ tolerance (abs (p.unrealized_pnl -ℤ m)) ≡ false) e near))
            ])
    ]

-- After a tick the unrealized profit of every open position of the symbol, long or short, is within
-- the tolerance, which is not negative, of its size times the distance from its entry price.
mark_to_market-IsMarked :
    (tolerance : ℤ) (symbol : ℕ) (current : ℤ) (ps : List PositionState)
    → pos 0 ≤ℤ tolerance
    → All (IsMarked tolerance symbol current) (mark_to_market tolerance symbol current ps)
unfolding mark_to_market
mark_to_market-IsMarked tolerance symbol current [] h = tt
mark_to_market-IsMarked tolerance symbol current (p ∷ ps) h = (
  mark_position-IsMarked tolerance symbol current p h,
  mark_to_market-IsMarked tolerance symbol current ps h,
)
