-- ===== src/Front/Depth.antt =====
-- The view of frontend/src/components/OrderBook.tsx: the levels with their running volumes, and the
-- scale of their bars. Volumes are whole units.
use mathlib.Core.List.{reverse, reverse-cons}
use aether_x.Prelude.{
  ℕ, zero, suc, ◌+◌, ◌-◌, ◌≤◌, ◌≡◌, refl, sym, ap, ◌∙◌, max, List, [], ◌∷◌, ◌++◌, length, take,
  total, total-append, length-append, All, All-append, All-take, All-map, append_assoc, arith,
}
use aether_x.Matching.Book.{Level}

pub record Shown : Type 0 where
  pub price : ℕ
  pub volume : ℕ
  pub cumulative : ℕ

-- `slice(0, n)` is `take n`; `slice(-n)` is what is left of a list without all but its last n.
abbrev pub drop {ℓ} : {A : Type ℓ} → ℕ → List A → List A
drop zero xs = xs
drop (suc n) [] = []
drop (suc n) (x ∷ xs) = drop n xs

abbrev pub slice_last {ℓ} : {A : Type ℓ} → ℕ → List A → List A
slice_last n xs = drop (length xs - n) xs

-- `reduce((s, l) => s + l.volume, 0)`
abbrev pub volume_sum : List Level → ℕ
volume_sum = total (λ l. l.volume)

abbrev pub shown_at : ℕ → Level → Shown
shown_at sum l = record { price = l.price; volume = l.volume; cumulative = sum }

-- `levels.map((level, i) => ...)`, from an index on.
abbrev pub map_from : List Level → ℕ → List Level → List Shown
map_from levels i [] = []
map_from levels i (l ∷ ls) =
    shown_at (volume_sum (take (suc i) levels)) l ∷ map_from levels (suc i) ls

abbrev pub with_cumulative : List Level → List Shown
with_cumulative levels = map_from levels 0 levels

unfoldable pub asks_shown : List Level → List Shown
asks_shown asks = slice_last 10 (reverse (with_cumulative asks))

unfoldable pub bids_shown : List Level → List Shown
bids_shown bids = take 10 (with_cumulative bids)

abbrev pub first_or_one : List Shown → ℕ
first_or_one [] = 1
first_or_one (s ∷ ss) = s.cumulative

abbrev pub last_or_one : List Shown → ℕ
last_or_one [] = 1
last_or_one (s ∷ []) = s.cumulative
last_or_one (s ∷ t ∷ ss) = last_or_one (t ∷ ss)

unfoldable pub max_cumulative : List Level → List Level → ℕ
max_cumulative bids asks = max (first_or_one (asks_shown asks)) (last_or_one (bids_shown bids))

-- The same in one pass.
abbrev pub running : ℕ → List Level → List Shown
running sum [] = []
running sum (l ∷ ls) = shown_at (sum + l.volume) l ∷ running (sum + l.volume) ls

volume_sum-take :
    (pre : List Level) (l : Level) (ls : List Level)
    → volume_sum (take (suc (length pre)) (pre ++ l ∷ ls)) ≡ volume_sum pre + l.volume
volume_sum-take [] l ls = omega arith
volume_sum-take (k ∷ pre) l ls = omega (arith, volume_sum-take pre l ls)

map_from-running :
    (pre ls : List Level) → map_from (pre ++ ls) (length pre) ls ≡ running (volume_sum pre) ls
map_from-running pre [] = refl
map_from-running pre (l ∷ ls) =
    let more = pre ++ l ∷ [] in
    let index : suc (length pre) ≡ length more = omega (arith, length-append pre (l ∷ [])) in
    let sum : volume_sum more ≡ volume_sum pre + l.volume =
      omega (arith, total-append (λ (k : Level). k.volume) pre (l ∷ [])) in
    let next : map_from (pre ++ l ∷ ls) (suc (length pre)) ls
        ≡ running (volume_sum pre + l.volume) ls =
      ap (λ xs. map_from xs (suc (length pre)) ls) (sym (append_assoc pre (l ∷ []) ls))
      ∙ ap (λ i. map_from (more ++ ls) i ls) index
      ∙ map_from-running more ls
      ∙ ap (λ n. running n ls) sum in
    rw (volume_sum-take pre l ls, next) refl

-- The running volumes that are summed anew for each level are those of one pass.
with_cumulative-running : (levels : List Level) → with_cumulative levels ≡ running 0 levels
with_cumulative-running levels = map_from-running [] levels

-- Each volume is at most those behind it; or at least.
abbrev Ascends : List Shown → Type 0
Ascends [] = Unit
Ascends (s ∷ ss) = All (λ (t : Shown). s.cumulative ≤ t.cumulative) ss × Ascends ss

abbrev Descends : List Shown → Type 0
Descends [] = Unit
Descends (s ∷ ss) = All (λ (t : Shown). t.cumulative ≤ s.cumulative) ss × Descends ss

running-above :
    (n sum : ℕ) (ls : List Level) → n ≤ sum → All (λ (t : Shown). n ≤ t.cumulative) (running sum ls)
running-above n sum [] h = tt
running-above n sum (l ∷ ls) h =
    (omega (arith, h), running-above n (sum + l.volume) ls (omega (arith, h)))

running-Ascends : (sum : ℕ) (ls : List Level) → Ascends (running sum ls)
running-Ascends sum [] = tt
running-Ascends sum (l ∷ ls) = (
  running-above (sum + l.volume) (sum + l.volume) ls (omega arith),
  running-Ascends (sum + l.volume) ls,
)

take-Ascends : (n : ℕ) (ss : List Shown) → Ascends ss → Ascends (take n ss)
take-Ascends zero ss h = tt
take-Ascends (suc n) [] h = tt
take-Ascends (suc n) (s ∷ ss) h = (All-take _ n ss h.0, take-Ascends n ss h.1)

drop-Descends : (n : ℕ) (ss : List Shown) → Descends ss → Descends (drop n ss)
drop-Descends zero ss h = h
drop-Descends (suc n) [] h = h
drop-Descends (suc n) (s ∷ ss) h = drop-Descends n ss h.1

end-Descends :
    (ss : List Shown) (t : Shown)
    → Descends ss
    → All (λ (s : Shown). t.cumulative ≤ s.cumulative) ss
    → Descends (ss ++ t ∷ [])
end-Descends [] t h k = (tt, tt)
end-Descends (s ∷ ss) t h k = (All-append _ ss (t ∷ []) h.0 (k.0, tt), end-Descends ss t h.1 k.1)

reverse-All :
    (n : ℕ) (ss : List Shown)
    → All (λ (s : Shown). n ≤ s.cumulative) ss
    → All (λ (s : Shown). n ≤ s.cumulative) (reverse ss)
reverse-All n [] h = tt
reverse-All n (s ∷ ss) h =
    rw (reverse-cons s ss) (All-append _ (reverse ss) (s ∷ []) (reverse-All n ss h.1) (h.0, tt))

reverse-Descends : (ss : List Shown) → Ascends ss → Descends (reverse ss)
reverse-Descends [] h = tt
reverse-Descends (s ∷ ss) h =
    rw (reverse-cons s ss)
      (end-Descends (reverse ss) s (reverse-Descends ss h.1) (reverse-All s.cumulative ss h.0))

last-AtMost : (ss : List Shown) → Ascends ss → All (λ (s : Shown). s.cumulative ≤ last_or_one ss) ss
last-AtMost [] h = tt
last-AtMost (s ∷ []) h = (omega arith, tt)
last-AtMost (s ∷ t ∷ ss) h =
    let rest = last-AtMost (t ∷ ss) h.1 in (omega (arith, h.0.0, rest.0), rest)

first-AtMost :
    (ss : List Shown) → Descends ss → All (λ (s : Shown). s.cumulative ≤ first_or_one ss) ss
first-AtMost [] h = tt
first-AtMost (s ∷ ss) h = (omega arith, h.0)

with_cumulative-Ascends : (levels : List Level) → Ascends (with_cumulative levels)
with_cumulative-Ascends levels = rw (with_cumulative-running levels) (running-Ascends 0 levels)

-- The volume of every bar that is shown, of either side of any book, is at most the scale of the bars,
-- so no bar is cut at its full width.
pub shown-max_cumulative :
    (bids asks : List Level)
    → All (λ (s : Shown). s.cumulative ≤ max_cumulative bids asks) (bids_shown bids)
      × All (λ (s : Shown). s.cumulative ≤ max_cumulative bids asks) (asks_shown asks)
unfolding max_cumulative bids_shown asks_shown
shown-max_cumulative bids asks =
    let asks_down =
      drop-Descends _ _ (reverse-Descends (with_cumulative asks) (with_cumulative-Ascends asks)) in
    let bids_up = take-Ascends 10 (with_cumulative bids) (with_cumulative-Ascends bids) in
    (
      All-map _ _ (λ s h. omega (arith, h)) _ (last-AtMost _ bids_up),
      All-map _ _ (λ s h. omega (arith, h)) _ (first-AtMost _ asks_down),
    )
