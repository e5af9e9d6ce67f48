-- ===== src/Aru/Window.antt =====
-- The candles that `AruAlgo` of backend/src/services/aruAlgo.ts holds.
use aether_x.Prelude.{
  ℕ, zero, suc, ◌≡◌, ◌≤◌, refl, sym, ap, ◌∙◌, List, [], ◌∷◌, length, length-take, take, ltb,
  if◌then◌else◌, Bool-cases, inl, inr, arith,
}
use aether_x.Aru.Numbers.{Numbers}
use aether_x.Aru.Algo.{Candle, Params, AruAlgo, new_algo, max_len, drop_last, push_candle}
use aether_x.Aru.Process.{process_candle, process_pushed, process_all, evaluate}

module _ {N : Type 0} where
  take-all : (n : ℕ) (cs : List (Candle N)) → length cs ≤ n → take n cs ≡ cs
  take-all zero [] h = refl
  take-all zero (c ∷ cs) h = absurd (omega (arith, h))
  take-all (suc n) [] h = refl
  take-all (suc n) (c ∷ cs) h = ap (λ x. c ∷ x) (take-all n cs (omega (arith, h)))

  take-take : (n : ℕ) (cs : List (Candle N)) → take n (take (suc n) cs) ≡ take n cs
  take-take zero cs = refl
  take-take (suc n) [] = refl
  take-take (suc n) (c ∷ cs) = ap (λ x. c ∷ x) (take-take n cs)

  drop_last-take :
      (n : ℕ) (c : Candle N) (cs : List (Candle N))
      → length cs ≡ n
      → drop_last (c ∷ cs) ≡ take n (c ∷ cs)
  drop_last-take zero c [] h = refl
  drop_last-take (suc n) c [] h = absurd (omega (arith, h))
  drop_last-take zero c (d ∷ cs) h = absurd (omega (arith, h))
  drop_last-take (suc n) c (d ∷ cs) h = ap (λ x. c ∷ x) (drop_last-take n d cs (omega (arith, h)))

  -- A push to a window that holds the newest candles.
  window-push :
      (n : ℕ) (c : Candle N) (fed : List (Candle N))
      → (if ltb (suc n) (length (c ∷ take (suc n) fed))
          then drop_last (c ∷ take (suc n) fed)
          else c ∷ take (suc n) fed)
        ≡ take (suc n) (c ∷ fed)
  window-push n c fed =
      let w = take (suc n) fed in
      let size : length w ≤ suc n = omega (arith, length-take (suc n) fed) in
      elim (Bool-cases (ltb (suc n) (length (c ∷ w)))) [
        | inl full ↦
            let exact : length w ≡ suc n = ground (arith, size) in
            rw full (drop_last-take (suc n) c w exact ∙ ap (λ x. c ∷ x) (take-take n fed))
        | inr room ↦
            let small : length w ≤ n = ground (arith, size) in
            rw room (ap (λ x. c ∷ x) (sym (take-all n w small) ∙ take-take n fed))
      ]

  push_candle-window :
      (p : Params N) (c : Candle N) (fed : List (Candle N))
      → push_candle p c (take (max_len p) fed) ≡ take (max_len p) (c ∷ fed)
  unfolding push_candle
  push_candle-window p c fed = go (max_len p) (omega arith)
    where
      go :
          (m : ℕ)
          → 1 ≤ m
          → (if ltb m (length (c ∷ take m fed)) then drop_last (c ∷ take m fed) else c ∷ take m fed)
            ≡ take m (c ∷ fed)
      go zero h = absurd (omega (arith, h))
      go (suc n) h = window-push n c fed

  -- The newest first, in front of those that came before.
  abbrev pub newest_first : List (Candle N) → List (Candle N) → List (Candle N)
  newest_first [] fed = fed
  newest_first (c ∷ cs) fed = newest_first cs (c ∷ fed)

module _ {N : Type 0} (num : Numbers N) (p : Params N) where
  process_pushed-candles :
      (w : List (Candle N)) (a : AruAlgo N) → (process_pushed num p w a).1.candles ≡ a.candles
  unfolding evaluate
  process_pushed-candles [] a = refl
  process_pushed-candles (c ∷ []) a = refl
  process_pushed-candles (c ∷ b ∷ cs) a = refl

  pub process_candle-candles :
      (c : Candle N) (a : AruAlgo N)
      → (process_candle num p c a).1.candles ≡ push_candle p c a.candles
  unfolding process_candle
  process_candle-candles c a = process_pushed-candles (push_candle p c a.candles) _

  process_all-candles :
      (cs fed : List (Candle N)) (a : AruAlgo N)
      → a.candles ≡ take (max_len p) fed
      → (process_all num p cs a).candles ≡ take (max_len p) (newest_first cs fed)
  process_all-candles [] fed a h = h
  process_all-candles (c ∷ cs) fed a h =
      process_all-candles cs (c ∷ fed) (process_candle num p c a).1
        (process_candle-candles c a ∙ ap (push_candle p c) h ∙ push_candle-window p c fed)

  -- After any list of candles a new instance holds the newest of them, newest first and at most as
  -- many as its limit, and nothing else.
  pub process_all-window :
      (cs : List (Candle N))
      → ((process_all num p cs new_algo).candles ≡ take (max_len p) (newest_first cs []))
        × (length (process_all num p cs new_algo).candles ≤ max_len p)
  process_all-window cs =
      let held = process_all-candles cs [] new_algo (sym (take-none (max_len p))) in
      (held, rw held (omega (arith, length-take (max_len p) (newest_first cs []))))
    where
      take-none : (n : ℕ) → take {A = Candle N} n [] ≡ []
      take-none zero = refl
      take-none (suc n) = refl
