-- ===== src/Position/Net.antt =====
-- Trades and the net position of a symbol.
use aether_x.Prelude.{
  ℕ, ◌≡◌, refl, sym, ap, ◌∙◌, inl, inr, List, [], ◌∷◌, arith, ◌==◌, if◌then◌else◌, Bool-cases,
}
use aether_x.Prelude.Int.{ℤ, pos, ◌+ℤ◌, ◌-ℤ◌, eq_of_parts, int_laws}
use aether_x.Matching.Queue.{Side, buy, sell}
use aether_x.Position.Engine.{
  PositionState, new_position, has_ids, trade_qty, next_position, process_side,
  handle_trade_execution,
}

-- The sum of the sizes of a symbol's positions.
abbrev pub net : ℕ → List PositionState → ℤ
net symbol [] = pos 0
net symbol (p ∷ ps) = (if p.symbol == symbol then p.size else pos 0) +ℤ net symbol ps

net-own :
    (symbol : ℕ) (p : PositionState) (ps : List PositionState)
    → p.symbol ≡ symbol
    → net symbol (p ∷ ps) ≡ p.size +ℤ net symbol ps
net-own symbol p ps e = ground arith

+ℤ_swap : (a b c : ℤ) → (a +ℤ b) +ℤ c ≡ (a +ℤ c) +ℤ b
+ℤ_swap a b c = eq_of_parts _ _ (omega int_laws)

+ℤ_assoc : (a b c : ℤ) → (a +ℤ b) +ℤ c ≡ a +ℤ (b +ℤ c)
+ℤ_assoc a b c = eq_of_parts _ _ (omega int_laws)

+ℤ_zero : (a : ℤ) → a +ℤ pos 0 ≡ a
+ℤ_zero a = eq_of_parts _ _ (omega int_laws)

module _ (divide : ℤ → ℤ → ℤ) where
  next_position_ids :
      (side : Side) (price quantity : ℤ) (p : PositionState)
      → ((next_position divide side price quantity p).size ≡ p.size +ℤ trade_qty side quantity)
        × ((next_position divide side price quantity p).symbol ≡ p.symbol)
  unfolding next_position
  next_position_ids side price quantity p = (refl, refl)

  net-process_side :
      (user symbol : ℕ) (price quantity : ℤ) (side : Side) (ps : List PositionState)
      → net symbol (process_side divide user symbol price quantity side ps)
        ≡ net symbol ps +ℤ trade_qty side quantity
  net-process_side user symbol price quantity side [] =
      let ids = next_position_ids side price quantity (new_position user symbol) in
      net-own symbol (next_position divide side price quantity (new_position user symbol)) [] ids.1
      ∙ ap (λ n. n +ℤ pos 0) ids.0
      ∙ +ℤ_zero (pos 0 +ℤ trade_qty side quantity)
  net-process_side user symbol price quantity side (p ∷ ps) =
      let ids = next_position_ids side price quantity p in
      elim (Bool-cases (has_ids user symbol p)) [
        | inl found ↦ rw found (
            net-own symbol (next_position divide side price quantity p) ps
              (ids.1 ∙ ground (arith, found))
            ∙ ap (λ n. n +ℤ net symbol ps) ids.0
            ∙ +ℤ_swap p.size (trade_qty side quantity) (net symbol ps)
            ∙ ap (λ n. n +ℤ trade_qty side quantity)
                (sym (net-own symbol p ps (ground (arith, found)))))
        | inr other ↦ rw other (
            ap (λ n. (if p.symbol == symbol then p.size else pos 0) +ℤ n)
              (net-process_side user symbol price quantity side ps)
            ∙ sym (+ℤ_assoc _ _ _))
      ]

  -- A trade leaves the net position of its symbol, over all users, as it was: the buyer's size
  -- grows by what the seller's falls, also if they are the same user.
  pub net-handle_trade_execution :
      (buyer_id seller_id symbol : ℕ) (price quantity : ℤ) (ps : List PositionState)
      → net symbol (handle_trade_execution divide buyer_id seller_id symbol price quantity ps)
        ≡ net symbol ps
  unfolding handle_trade_execution
  net-handle_trade_execution buyer_id seller_id symbol price quantity ps =
      net-process_side seller_id symbol price quantity sell _
      ∙ ap (λ n. n +ℤ (pos 0 -ℤ quantity)) (net-process_side buyer_id symbol price quantity buy ps)
      ∙ eq_of_parts _ _ (omega int_laws)
