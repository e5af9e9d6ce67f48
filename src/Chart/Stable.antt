-- ===== src/Chart/Stable.antt =====
-- What candles that come later do to the points that the chart has drawn.
use aether_x.Prelude.{ℕ, ◌≡◌, refl, ap, List, [], ◌∷◌, ◌++◌}
use aether_x.Aru.Numbers.{Numbers}
use aether_x.Chart.Math.{
  Bar, Movement, ema_from, compute_ema, vwap_from, compute_vwap, ranges_after, averages_from, band,
  atr_list, compute_atr_bands, movements_after, dx_from, compute_adx,
}

-- The first list with others behind it is the second.
pub record IsPrefix {A : Type 0} (xs ys : List A) : Type 0 where
  pub later : List A
  pub split : ys ≡ xs ++ later

prefix-cons : {A : Type 0} (x : A) {xs ys : List A} → IsPrefix xs ys → IsPrefix (x ∷ xs) (x ∷ ys)
prefix-cons x h = record { later = h.later; split = ap (λ l. x ∷ l) h.split }

prefix-nil : {A : Type 0} (ys : List A) → IsPrefix [] ys
prefix-nil ys = record { later = ys; split = refl }

module _ {N : Type 0} (num : Numbers N) where
  ema_from-IsPrefix :
      (cs ds : List (Bar N)) (k prev : N)
      → IsPrefix (ema_from num k prev cs) (ema_from num k prev (cs ++ ds))
  ema_from-IsPrefix [] ds k prev = prefix-nil _
  ema_from-IsPrefix (c ∷ cs) ds k prev = prefix-cons _ (ema_from-IsPrefix cs ds k _)

  vwap_from-IsPrefix :
      (cs ds : List (Bar N)) (tp vol : N)
      → IsPrefix (vwap_from num tp vol cs) (vwap_from num tp vol (cs ++ ds))
  vwap_from-IsPrefix [] ds tp vol = prefix-nil _
  vwap_from-IsPrefix (c ∷ cs) ds tp vol = prefix-cons _ (vwap_from-IsPrefix cs ds _ _)

  ranges_after-IsPrefix :
      (cs ds : List (Bar N)) (prev : Bar N)
      → IsPrefix (ranges_after num prev cs) (ranges_after num prev (cs ++ ds))
  ranges_after-IsPrefix [] ds prev = prefix-nil _
  ranges_after-IsPrefix (c ∷ cs) ds prev = prefix-cons _ (ranges_after-IsPrefix cs ds c)

  averages_from-IsPrefix :
      (period : ℕ) (xs ys : List N) (average : N)
      → IsPrefix (averages_from num period average xs) (averages_from num period average (xs ++ ys))
  averages_from-IsPrefix period [] ys average = prefix-nil _
  averages_from-IsPrefix period (x ∷ xs) ys average =
      prefix-cons _ (averages_from-IsPrefix period xs ys _)

  averages_of-IsPrefix :
      (period : ℕ) (xs ys : List N) (average : N)
      → IsPrefix xs ys
      → IsPrefix (averages_from num period average xs) (averages_from num period average ys)
  averages_of-IsPrefix period xs ys average h =
      rw h.split (averages_from-IsPrefix period xs h.later average)

  atr_list-IsPrefix :
      (period : ℕ) (c : Bar N) (cs ds : List (Bar N))
      → IsPrefix (atr_list num period c cs) (atr_list num period c (cs ++ ds))
  atr_list-IsPrefix period c cs ds =
      prefix-cons _ (averages_of-IsPrefix period _ _ _ (ranges_after-IsPrefix cs ds c))

  band-append :
      (side : N → N → N) (cs ds : List (Bar N)) (xs more : List N)
      → IsPrefix (band num side cs xs) (band num side (cs ++ ds) (xs ++ more))
  band-append side [] ds xs more = prefix-nil _
  band-append side (c ∷ cs) ds [] more = prefix-nil _
  band-append side (c ∷ cs) ds (x ∷ xs) more = prefix-cons _ (band-append side cs ds xs more)

  band-IsPrefix :
      (side : N → N → N) (cs ds : List (Bar N)) (xs ys : List N)
      → IsPrefix xs ys
      → IsPrefix (band num side cs xs) (band num side (cs ++ ds) ys)
  band-IsPrefix side cs ds xs ys h = rw h.split (band-append side cs ds xs h.later)

  movements_after-IsPrefix :
      (cs ds : List (Bar N)) (prev : Bar N)
      → IsPrefix (movements_after num prev cs) (movements_after num prev (cs ++ ds))
  movements_after-IsPrefix [] ds prev = prefix-nil _
  movements_after-IsPrefix (c ∷ cs) ds prev = prefix-cons _ (movements_after-IsPrefix cs ds c)

  dx_from-append :
      (period : ℕ) (ms more : List (Movement N)) (average : Movement N)
      → IsPrefix (dx_from num period average ms) (dx_from num period average (ms ++ more))
  dx_from-append period [] more average = prefix-nil _
  dx_from-append period (m ∷ ms) more average = prefix-cons _ (dx_from-append period ms more _)

  dx_from-IsPrefix :
      (period : ℕ) (ms ns : List (Movement N)) (average : Movement N)
      → IsPrefix ms ns
      → IsPrefix (dx_from num period average ms) (dx_from num period average ns)
  dx_from-IsPrefix period ms ns average h = rw h.split (dx_from-append period ms h.later average)

  -- No point of a series is moved by candles behind its own.
  abbrev pub IsStable : ℕ → List (Bar N) → List (Bar N) → Type 0
  IsStable period cs ds =
      IsPrefix (compute_ema num period cs) (compute_ema num period (cs ++ ds))
      × IsPrefix (compute_vwap num cs) (compute_vwap num (cs ++ ds))
      × IsPrefix (compute_atr_bands num period cs).upper
          (compute_atr_bands num period (cs ++ ds)).upper
      × IsPrefix (compute_atr_bands num period cs).lower
          (compute_atr_bands num period (cs ++ ds)).lower
      × IsPrefix (compute_adx num period cs) (compute_adx num period (cs ++ ds))

  -- Whatever the period and the numbers: when candles are added behind others, the moving average, the
  -- volume-weighted price, both bands and the directional index keep all points that they had, and only
  -- add some behind them.
  pub indicators-IsStable : (period : ℕ) (cs ds : List (Bar N)) → IsStable period cs ds
  unfolding compute_ema compute_vwap compute_atr_bands compute_adx
  indicators-IsStable period [] ds =
      (prefix-nil _, prefix-nil _, prefix-nil _, prefix-nil _, prefix-nil _)
  indicators-IsStable period (c ∷ cs) ds =
      let before = atr_list num period c cs in
      let after = atr_list num period c (cs ++ ds) in
      let atrs = atr_list-IsPrefix period c cs ds in
      (
        prefix-cons _ (ema_from-IsPrefix cs ds _ _),
        vwap_from-IsPrefix (c ∷ cs) ds _ _,
        band-IsPrefix num.add (c ∷ cs) ds before after atrs,
        band-IsPrefix num.sub (c ∷ cs) ds before after atrs,
        prefix-cons _ (
            averages_of-IsPrefix period _ _ _
              (dx_from-IsPrefix period _ _ _ (movements_after-IsPrefix cs ds c))),
      )
