-- ===== src/Micro/Range.antt =====
-- The ranges that backend/src/services/microstructureAnalytics.ts states for its metrics, and its order
-- flow when the two sides of a book trade places.
use native.Mathlib.Nat.{div-lt_iff_lt-mul}
use aether_x.Prelude.{
  ℕ, zero, suc, ◌+◌, ◌*◌, ◌≤◌, ◌<◌, ◌≡◌, refl, sym, ap, ◌∙◌, List, [], ◌∷◌, ◌++◌, length,
  length-append, take, true, false, ltb, ◌==◌, Bool-cases, inl, inr, arith,
}
use aether_x.Prelude.Int.{ℤ, pos, negsuc, pos_part, neg_part, sub_ℕ, ltb_ℤ}
use aether_x.Micro.Metrics.{
  OrderBookLevel, round_div, to_fixed, Pressure, strong_buy, buying, neutral, selling, strong_sell,
  MicrostructureSnapshot, volume_of, pressure_of, pressure_score_of, imbalance_of,
  compute_order_flow, compute_liquidity_score, keep_newest, compute_volatility_state, compute,
}

round_div-le : (n d : ℕ) → 0 < d → n ≤ 10000 * d → round_div n d ≤ 10000
round_div-le n d h k =
    let below : round_div n d < 10001 =
      (div-lt_iff_lt-mul {k = 2 * d} {x = 2 * n + d} {y = 10001} (omega (arith, h))).1
        (omega (arith, h, k)) in
    omega (arith, below)

-- At most 10000 on either side of 0.
abbrev pub IsWithin : ℤ → Type 0
IsWithin n = (pos_part n ≤ 10000) × (neg_part n ≤ 10000)

to_fixed-IsWithin :
    (n : ℤ) (d : ℕ)
    → 0 < d
    → pos_part n ≤ 10000 * d
    → neg_part n ≤ 10000 * d
    → IsWithin (to_fixed n d)
unfolding to_fixed
to_fixed-IsWithin (pos n) d h k l =
    let sign : ltb_ℤ (pos n) (pos 0) ≡ false = ground arith in
    rw sign (round_div-le n d h k, omega arith)
to_fixed-IsWithin (negsuc n) d h k l =
    let sign : ltb_ℤ (negsuc n) (pos 0) ≡ true = ground arith in
    let bound = round_div-le (suc n) d h l in rw sign (ground (arith, bound), ground (arith, bound))

imbalance_of-IsWithin : (b a : ℕ) → IsWithin (imbalance_of b a)
unfolding imbalance_of
imbalance_of-IsWithin b a = elim (Bool-cases (ltb 0 (b + a))) [
  | inl some_volume ↦ rw some_volume (
      to_fixed-IsWithin (sub_ℕ (b * 10000) (a * 10000)) (b + a) (ground (arith, some_volume))
        (ground arith) (ground arith))
  | inr empty ↦ rw empty (omega arith, omega arith)
]

pressure_score_of-le : (i : ℤ) → IsWithin i → pressure_score_of i ≤ 100
unfolding pressure_score_of
pressure_score_of-le i h = omega (arith, h.0, h.1)

-- The metrics with a stated range.
pub record IsInRange (s : MicrostructureSnapshot) (history : List ℕ) : Type 0 where
  pub imbalance : IsWithin s.order_flow.imbalance
  pub pressure_score : s.order_flow.pressure_score ≤ 100
  pub liquidity_score : s.liquidity_score ≤ 100
  pub window : length history ≤ 20

keep_newest-length : (as' : List ℕ) → length as' ≤ 21 → length (keep_newest as') ≤ 20
keep_newest-length [] h = omega arith
keep_newest-length (a ∷ as') h = ground (arith, h)

-- Whatever the tick and the two sides of the book, the imbalance is between -1 and 1, the pressure and
-- the liquidity score are at most 100, and a history of at most 20 values stays that short.
pub compute-IsInRange :
    (tick_price : ℕ) (bids asks : List OrderBookLevel) (current_atr : ℕ) (history : List ℕ)
    → length history ≤ 20
    → IsInRange
        (compute tick_price bids asks current_atr history).0
        (compute tick_price bids asks current_atr history).1
unfolding compute compute_order_flow compute_liquidity_score compute_volatility_state
compute-IsInRange tick_price bids asks current_atr history h =
    let within = imbalance_of-IsWithin (volume_of (take 5 bids)) (volume_of (take 5 asks)) in
    record {
      imbalance = within;
      pressure_score = pressure_score_of-le _ within;
      liquidity_score = omega arith;
      window = kept;
    }
  where
    kept : length (compute_volatility_state current_atr history).1 ≤ 20
    kept = elim (Bool-cases (current_atr == 0)) [
      | inl missing ↦ rw missing h
      | inr there ↦ rw there (
          keep_newest-length (history ++ current_atr ∷ [])
            (omega (arith, h, length-append history (current_atr ∷ []))))
    ]

abbrev pub mirror : Pressure → Pressure
mirror strong_buy = strong_sell
mirror buying = selling
mirror neutral = neutral
mirror selling = buying
mirror strong_sell = strong_buy

abbrev pub opposite : ℤ → ℤ
opposite n = sub_ℕ (neg_part n) (pos_part n)

pressure_of-mirror : (i : ℤ) → pressure_of (opposite i) ≡ mirror (pressure_of i)
unfolding pressure_of
pressure_of-mirror i = ground arith

round_div-none : (d : ℕ) → round_div 0 d ≡ 0
round_div-none zero = refl
round_div-none (suc d) =
    let below : round_div 0 (suc d) < 1 =
      (div-lt_iff_lt-mul {k = 2 * suc d} {x = 2 * 0 + suc d} {y = 1} (omega arith)).1
        (omega arith) in
    omega (arith, below)

opposite_of_negative : (r : ℕ) → opposite (sub_ℕ 0 r) ≡ pos r
opposite_of_negative r = ground arith

to_fixed-pos : (n d : ℕ) → to_fixed (pos n) d ≡ pos (round_div n d)
unfolding to_fixed
to_fixed-pos n d = let sign : ltb_ℤ (pos n) (pos 0) ≡ false = ground arith in rw sign refl

to_fixed-negsuc : (n d : ℕ) → to_fixed (negsuc n) d ≡ sub_ℕ 0 (round_div (suc n) d)
unfolding to_fixed
to_fixed-negsuc n d = let sign : ltb_ℤ (negsuc n) (pos 0) ≡ true = ground arith in rw sign refl

to_fixed-opposite : (n : ℤ) (d : ℕ) → to_fixed (opposite n) d ≡ opposite (to_fixed n d)
to_fixed-opposite (pos zero) d =
    to_fixed-pos 0 d
    ∙ rw (round_div-none d) (sym (ap opposite (to_fixed-pos 0 d ∙ ap pos (round_div-none d))))
to_fixed-opposite (pos (suc n)) d =
    let turned : opposite (pos (suc n)) ≡ negsuc n = ground arith in
    ap (λ x. to_fixed x d) turned ∙ to_fixed-negsuc n d ∙ sym (ap opposite (to_fixed-pos (suc n) d))
to_fixed-opposite (negsuc n) d =
    let turned : opposite (negsuc n) ≡ pos (suc n) = ground arith in
    ap (λ x. to_fixed x d) turned
    ∙ to_fixed-pos (suc n) d
    ∙ sym (ap opposite (to_fixed-negsuc n d) ∙ opposite_of_negative (round_div (suc n) d))

sub_ℕ-opposite : (x y : ℕ) → sub_ℕ x y ≡ opposite (sub_ℕ y x)
sub_ℕ-opposite x y = ground arith

imbalance_of-mirror : (b a : ℕ) → imbalance_of a b ≡ opposite (imbalance_of b a)
unfolding imbalance_of
imbalance_of-mirror b a =
    let both : a + b ≡ b + a = omega arith in
    rw both (elim (Bool-cases (ltb 0 (b + a))) [
      | inl some_volume ↦ rw some_volume (
          ap (λ x. to_fixed x (b + a)) (sub_ℕ-opposite (a * 10000) (b * 10000))
          ∙ to_fixed-opposite (sub_ℕ (b * 10000) (a * 10000)) (b + a))
      | inr empty ↦ rw empty refl
    ])

score-mirror :
    (i : ℤ)
    → IsWithin i
    → (100 ≤ pressure_score_of i + pressure_score_of (opposite i))
      × (pressure_score_of i + pressure_score_of (opposite i) ≤ 101)
unfolding pressure_score_of
score-mirror i h = (ground (arith, h), ground (arith, h))

-- When the two sides of a book trade places, the imbalance changes its sign, the pressure is its
-- mirror image, and the two scores make 100, or 101 where both were rounded up.
compute_order_flow-mirror :
    (bids asks : List OrderBookLevel)
    → let flow = compute_order_flow bids asks in
      let turned = compute_order_flow asks bids in
      (turned.imbalance ≡ opposite flow.imbalance)
      × (turned.pressure ≡ mirror flow.pressure)
      × (100 ≤ flow.pressure_score + turned.pressure_score)
      × (flow.pressure_score + turned.pressure_score ≤ 101)
unfolding compute_order_flow
compute_order_flow-mirror bids asks =
    let b = volume_of (take 5 bids) in
    let a = volume_of (take 5 asks) in
    let sign = imbalance_of-mirror b a in
    let scores = score-mirror (imbalance_of b a) (imbalance_of-IsWithin b a) in
    (
      sign,
      ap pressure_of sign ∙ pressure_of-mirror (imbalance_of b a),
      rw sign scores.0,
      rw sign scores.1,
    )
