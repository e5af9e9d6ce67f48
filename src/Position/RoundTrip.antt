-- ===== src/Position/RoundTrip.antt =====
-- A position that is opened and closed again.
use aether_x.Prelude.{ℕ, suc, ◌≡◌, arith}
use aether_x.Prelude.Int.{ℤ, pos, negsuc, ◌+ℤ◌, ◌-ℤ◌, ◌*ℤ◌, abs, eq_of_parts, int_laws}
use aether_x.Matching.Queue.{buy, sell}
use aether_x.Position.Engine.{new_position, next_average, next_position}

module _ (n : ℕ) where
  opened_size : pos 0 +ℤ pos (suc n) ≡ pos (suc n)
  unfolding ◌+ℤ◌
  opened_size = ground arith

  closed_size : pos (suc n) +ℤ (pos 0 -ℤ pos (suc n)) ≡ pos 0
  unfolding ◌+ℤ◌ ◌-ℤ◌
  closed_size = ground arith

  sold_size : pos 0 -ℤ pos (suc n) ≡ negsuc n
  unfolding ◌-ℤ◌
  sold_size = ground arith

  abs_pos : abs (pos n) ≡ pos n
  unfolding abs
  abs_pos = ground arith

  abs_negsuc : abs (negsuc n) ≡ pos (suc n)
  unfolding abs ◌-ℤ◌
  abs_negsuc = ground arith

nothing_held : (a b : ℤ) → abs (pos 0) *ℤ a +ℤ b ≡ b
unfolding abs ◌*ℤ◌ ◌+ℤ◌
nothing_held a b = ground arith

zero_sum : (a : ℤ) → pos 0 +ℤ a ≡ a
zero_sum a = eq_of_parts _ _ (omega int_laws)

module _ (divide : ℤ → ℤ → ℤ) (user_id symbol n : ℕ) (bought sold : ℤ)
    (exact : divide (pos (suc n) *ℤ bought) (pos (suc n)) ≡ bought) where
  opened_average :
      next_average divide buy bought (pos (suc n)) (new_position user_id symbol) ≡ bought
  opened_average =
      rw (nothing_held (pos 0) (pos (suc n) *ℤ bought))
        (rw (opened_size n) (rw (abs_pos (suc n)) (ground (arith, exact))))

  -- Where dividing the cost of a positive quantity by it gives its price, a user without a position
  -- who buys the quantity has that price as average entry, and selling it at another price leaves no
  -- size, no average and no margin, and a profit of the quantity times the difference of the prices.
  pub next_position-flat :
      let p = next_position divide buy bought (pos (suc n)) (new_position user_id symbol) in
      let q = next_position divide sell sold (pos (suc n)) p in
      (p.average_entry_price ≡ bought)
      × (q.size ≡ pos 0)
      × (q.average_entry_price ≡ pos 0)
      × (q.margin_used ≡ pos 0)
      × (q.realized_pnl ≡ pos (suc n) *ℤ (sold -ℤ bought))
  unfolding next_position
  next_position-flat = rw opened_average (
      rw (opened_size n) (
        rw (closed_size n) (
          rw (sold_size n) (
            rw (abs_pos (suc n))
              (rw (abs_negsuc n) (ground (arith, zero_sum (pos (suc n) *ℤ (sold -ℤ bought)))))))))
