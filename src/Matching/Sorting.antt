-- ===== src/Matching/Sorting.antt =====
-- `prices.push(price); prices.sort(sortFn)` keeps a price array strictly sorted.
use aether_x.Prelude.{
  ℕ, ◌≡◌, refl, ◌∙◌, List, [], ◌∷◌, ◌++◌, Bool, true, false, All, arith, not, keep, ◌==◌,
  if◌then◌else◌,
}
use aether_x.Matching.Queue.{Side, buy, sell}
use aether_x.Matching.Book.{before, insert_price, sort}
use aether_x.Matching.Invariant.{has_price, IsSorted}
use aether_x.Matching.Levels.{has_price_later}

before-total : (s : Side) (p r : ℕ) → before s r p ≡ false → (r == p) ≡ false → before s p r ≡ true
before-total buy p r h e = ground arith
before-total sell p r h e = ground arith

before_trans :
    (s : Side) (p q r : ℕ) → before s p q ≡ true → before s q r ≡ true → before s p r ≡ true
before_trans buy p q r h k = ground arith
before_trans sell p q r h k = ground arith

All-before :
    (s : Side) (p q : ℕ) (ps : List ℕ)
    → before s p q ≡ true
    → All (λ r. before s q r ≡ true) ps
    → All (λ r. before s p r ≡ true) ps
All-before s p q [] h k = tt
All-before s p q (r ∷ ps) h k = (before_trans s p q r h k.0, All-before s p q ps h k.1)

has_price-insert_price :
    (s : Side) (r p : ℕ) (ps : List ℕ)
    → has_price p (insert_price s r ps) ≡ (if r == p then true else has_price p ps)
has_price-insert_price s r p [] = refl
has_price-insert_price s r p (q ∷ ps) = ground (arith, has_price-insert_price s r p ps)

pub has_price-append :
    (p r : ℕ) (ps : List ℕ) → has_price p (ps ++ r ∷ []) ≡ (if r == p then true else has_price p ps)
has_price-append p r [] = refl
has_price-append p r (q ∷ ps) = ground (arith, has_price-append p r ps)

pub has_price-sort : (s : Side) (p : ℕ) (ps : List ℕ) → has_price p (sort s ps) ≡ has_price p ps
unfolding sort
has_price-sort s p [] = refl
has_price-sort s p (q ∷ ps) =
    ground (arith, has_price-insert_price s q p (sort s ps), has_price-sort s p ps)

All-insert_price :
    (s : Side) (p r : ℕ) (ps : List ℕ)
    → before s p r ≡ true
    → All (λ x. before s p x ≡ true) ps
    → All (λ x. before s p x ≡ true) (insert_price s r ps)
All-insert_price s p r [] h k = (h, tt)
All-insert_price s p r (q ∷ ps) h k = ground (arith, All-insert_price s p r ps h k.1)

insert_price-IsSorted :
    (s : Side) (r : ℕ) (ps : List ℕ)
    → IsSorted s ps
    → has_price r ps ≡ false
    → IsSorted s (insert_price s r ps)
insert_price-IsSorted s r [] h n = (tt, tt)
insert_price-IsSorted s r (q ∷ ps) h n = ground (
  arith,
  insert_price-IsSorted s r ps h.1,
  All-insert_price s q r ps,
  before-total s r q,
  All-before s r q ps,
)

pub sort-IsSorted :
    (s : Side) (p : ℕ) (ps : List ℕ)
    → IsSorted s ps
    → has_price p ps ≡ false
    → IsSorted s (sort s (ps ++ p ∷ []))
unfolding sort
sort-IsSorted s p [] h n = (tt, tt)
sort-IsSorted s p (q ∷ ps) h n =
    insert_price-IsSorted s q (sort s (ps ++ p ∷ [])) (sort-IsSorted s p ps h.1 (ground arith)) (
      has_price-sort s q (ps ++ p ∷ [])
      ∙ has_price-append q p ps
      ∙ ground (arith, has_price_later s q ps h.0))

-- The filter of `cancelOrder` takes one price out.
pub has_price-keep :
    (r p : ℕ) (ps : List ℕ)
    → has_price p (keep (λ x. not (x == r)) ps) ≡ (if r == p then false else has_price p ps)
has_price-keep r p [] = ground arith
has_price-keep r p (q ∷ ps) = ground (arith, has_price-keep r p ps)

All-keep {κ} : (P : ℕ → Type κ) (f : ℕ → Bool) (ps : List ℕ) → All P ps → All P (keep f ps)
All-keep P f [] h = tt
All-keep P f (q ∷ ps) h = ground (arith, All-keep P f ps h.1)

pub keep-IsSorted : (s : Side) (f : ℕ → Bool) (ps : List ℕ) → IsSorted s ps → IsSorted s (keep f ps)
keep-IsSorted s f [] h = tt
keep-IsSorted s f (q ∷ ps) h =
    ground (arith, keep-IsSorted s f ps h.1, All-keep (λ r. before s q r ≡ true) f ps h.0)
