-- ===== src/Chart/Aligned.antt =====
-- The points of the chart's indicators and the candles they are drawn with.
use aether_x.Prelude.{
  ℕ, zero, suc, ◌-◌, ◌≤◌, ◌≡◌, refl, sym, ap, ◌∙◌, List, [], ◌∷◌, ◌++◌, map, take, length, arith,
}
use aether_x.Aru.Numbers.{Numbers}
use aether_x.Front.Depth.{drop}
use aether_x.Chart.Math.{
  Bar, LineData, Movement, ema_from, compute_ema, vwap_from, compute_vwap, ranges_after,
  averages_from, band, atr_list, compute_atr_bands, change, changes_after, first_averages, rsi_from,
  neutral, compute_rsi, movements_after, dx_from, compute_adx,
}

take-drop : {A : Type 0} (n : ℕ) (xs : List A) → take n xs ++ drop n xs ≡ xs
take-drop zero xs = refl
take-drop (suc n) [] = refl
take-drop (suc n) (x ∷ xs) = ap (λ ys. x ∷ ys) (take-drop n xs)

length-drop : {A : Type 0} (n : ℕ) (xs : List A) → length (drop n xs) ≡ length xs - n
length-drop zero xs = omega arith
length-drop (suc n) [] = omega arith
length-drop (suc n) (x ∷ xs) = omega (arith, length-drop n xs)

map-append : {A B : Type 0} (f : A → B) (xs ys : List A) → map f (xs ++ ys) ≡ map f xs ++ map f ys
map-append f [] ys = refl
map-append f (x ∷ xs) ys = ap (λ zs. f x ∷ zs) (map-append f xs ys)

module _ {N : Type 0} (num : Numbers N) where
  abbrev pub times : List (LineData N) → List ℕ
  times = map (λ (p : LineData N). p.time)

  abbrev pub bar_times : List (Bar N) → List ℕ
  bar_times = map (λ (c : Bar N). c.time)

  times-ema_from : (cs : List (Bar N)) (k prev : N) → times (ema_from num k prev cs) ≡ bar_times cs
  times-ema_from [] k prev = refl
  times-ema_from (c ∷ cs) k prev = ap (λ ts. c.time ∷ ts) (times-ema_from cs k _)

  times-compute_ema :
      (period : ℕ) (cs : List (Bar N)) → times (compute_ema num period cs) ≡ bar_times cs
  unfolding compute_ema
  times-compute_ema period [] = refl
  times-compute_ema period (c ∷ cs) = ap (λ ts. c.time ∷ ts) (times-ema_from cs _ _)

  times-vwap_from :
      (cs : List (Bar N)) (tp vol : N) → times (vwap_from num tp vol cs) ≡ bar_times cs
  times-vwap_from [] tp vol = refl
  times-vwap_from (c ∷ cs) tp vol = ap (λ ts. c.time ∷ ts) (times-vwap_from cs _ _)

  times-band :
      (side : N → N → N) (cs : List (Bar N)) (atrs : List N)
      → length atrs ≡ length cs
      → times (band num side cs atrs) ≡ bar_times cs
  times-band side [] atrs e = refl
  times-band side (c ∷ cs) [] e = absurd (omega (arith, e))
  times-band side (c ∷ cs) (a ∷ atrs) e =
      ap (λ ts. c.time ∷ ts) (times-band side cs atrs (omega (arith, e)))

  length-averages_from :
      (period : ℕ) (xs : List N) (average : N)
      → length (averages_from num period average xs) ≡ length xs
  length-averages_from period [] average = refl
  length-averages_from period (x ∷ xs) average = ap suc (length-averages_from period xs _)

  length-ranges_after :
      (prev : Bar N) (cs : List (Bar N)) → length (ranges_after num prev cs) ≡ length cs
  length-ranges_after prev [] = refl
  length-ranges_after prev (c ∷ cs) = ap suc (length-ranges_after c cs)

  length-atr_list :
      (period : ℕ) (c : Bar N) (cs : List (Bar N))
      → length (atr_list num period c cs) ≡ length (c ∷ cs)
  length-atr_list period c cs =
      ap suc (length-averages_from period (ranges_after num c cs) _ ∙ length-ranges_after c cs)

  length-changes_after :
      (prev : Bar N) (cs : List (Bar N)) → length (changes_after num prev cs) ≡ length cs
  length-changes_after prev [] = refl
  length-changes_after prev (c ∷ cs) = ap suc (length-changes_after c cs)

  times-rsi_from :
      (period : ℕ) (changes : List (N × N)) (cs : List (Bar N)) (averages : N × N)
      → length changes ≡ length cs
      → times (rsi_from num period averages changes cs) ≡ bar_times cs
  times-rsi_from period [] [] averages e = refl
  times-rsi_from period [] (c ∷ cs) averages e = absurd (omega (arith, e))
  times-rsi_from period (x ∷ changes) [] averages e = absurd (omega (arith, e))
  times-rsi_from period (x ∷ changes) (c ∷ cs) averages e =
      ap (λ ts. c.time ∷ ts) (times-rsi_from period changes cs _ (omega (arith, e)))

  times-neutral : (cs : List (Bar N)) → times (neutral num cs) ≡ bar_times cs
  times-neutral [] = refl
  times-neutral (c ∷ cs) = ap (λ ts. c.time ∷ ts) (times-neutral cs)

  times-compute_rsi :
      (period : ℕ) (c d : Bar N) (cs : List (Bar N))
      → times (compute_rsi num period (c ∷ d ∷ cs)) ≡ bar_times (c ∷ d ∷ cs)
  unfolding compute_rsi
  times-compute_rsi period c d cs =
      let all = c ∷ d ∷ cs in
      let changes = changes_after num c (d ∷ cs) in
      let averages = first_averages num period (change num c d) (changes_after num d cs) in
      let later = rsi_from num period averages (drop period changes) (drop period (d ∷ cs)) in
      let same : length (drop period changes) ≡ length (drop period (d ∷ cs)) = omega (
        arith,
        length-drop period changes,
        length-drop period (d ∷ cs),
        length-changes_after c (d ∷ cs),
      ) in
      map-append (λ (p : LineData N). p.time) (neutral num (take (suc period) all)) later
      ∙ ap (λ ts. ts ++ times later) (times-neutral (take (suc period) all))
      ∙ ap (λ ts. bar_times (take (suc period) all) ++ ts)
          (times-rsi_from period (drop period changes) (drop period (d ∷ cs)) averages same)
      ∙ sym (map-append (λ (b : Bar N). b.time) (take (suc period) all) (drop period (d ∷ cs)))
      ∙ ap bar_times (take-drop (suc period) all)

  length-movements_after :
      (prev : Bar N) (cs : List (Bar N)) → length (movements_after num prev cs) ≡ length cs
  length-movements_after prev [] = refl
  length-movements_after prev (c ∷ cs) = ap suc (length-movements_after c cs)

  length-dx_from :
      (period : ℕ) (ms : List (Movement N)) (average : Movement N)
      → length (dx_from num period average ms) ≡ length ms
  length-dx_from period [] average = refl
  length-dx_from period (m ∷ ms) average = ap suc (length-dx_from period ms _)

  length-compute_adx :
      (period : ℕ) (cs : List (Bar N)) → length (compute_adx num period cs) ≡ length cs
  unfolding compute_adx
  length-compute_adx period [] = refl
  length-compute_adx period (c ∷ cs) = ap suc (
      length-averages_from period (dx_from num period _ (movements_after num c cs)) _
      ∙ length-dx_from period (movements_after num c cs) _
      ∙ length-movements_after c cs)

  -- The points of every series stand at the times of the candles, one for each and in their order; the
  -- directional index has a value for each.
  abbrev pub AreAligned : ℕ → List (Bar N) → Type 0
  AreAligned period cs =
      (times (compute_ema num period cs) ≡ bar_times cs)
      × (times (compute_vwap num cs) ≡ bar_times cs)
      × (times (compute_atr_bands num period cs).upper ≡ bar_times cs)
      × (times (compute_atr_bands num period cs).lower ≡ bar_times cs)
      × (times (compute_rsi num period cs) ≡ bar_times cs)
      × (length (compute_adx num period cs) ≡ length cs)

  -- Whatever the period and the numbers, for two or more candles: the points of the moving average, of
  -- the volume-weighted price, of both bands and of the strength index stand at the times of the
  -- candles, one for each and in their order, and the directional index has one value for each.
  pub indicators-AreAligned :
      (period : ℕ) (cs : List (Bar N)) → 2 ≤ length cs → AreAligned period cs
  unfolding compute_vwap compute_atr_bands
  indicators-AreAligned period [] h = absurd (omega (arith, h))
  indicators-AreAligned period (c ∷ []) h = absurd (omega (arith, h))
  indicators-AreAligned period (c ∷ d ∷ cs) h =
      let all = c ∷ d ∷ cs in
      let atrs = atr_list num period c (d ∷ cs) in
      (
        times-compute_ema period all,
        times-vwap_from all _ _,
        times-band num.add all atrs (length-atr_list period c (d ∷ cs)),
        times-band num.sub all atrs (length-atr_list period c (d ∷ cs)),
        times-compute_rsi period c d cs,
        length-compute_adx period all,
      )
