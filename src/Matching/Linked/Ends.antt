-- ===== src/Matching/Linked/Ends.antt =====
-- The ends of a linked queue after `remove`, and what its list keeps: for
-- backend/src/services/matchingWorker.ts.
use aether_x.Prelude.{
  ℕ, ◌≡◌, ◌≢◌, refl, sym, ap, List, [], ◌∷◌, ◌++◌, Option, none, some, true, false, arith, ◌==◌,
  if◌then◌else◌, Bool-cases, inl, inr,
}
use aether_x.Matching.Queue.{OrderNode, unlink, quantity_of}
use aether_x.Matching.Invariant.{has_ref, IsDistinct}
use aether_x.Matching.Linked.{Store, points_to, or_pointer}
use aether_x.Matching.Linked.Calls.{new_node}
use aether_x.Matching.Linked.Chain.{Chain, Chain-frame, Chain-last}

-- The `quantity` of a node that is in the chain.
pub quantity_of-Chain :
    (h : Store) (p f : Option ℕ) (ns : List OrderNode) (l : Option ℕ) (r : ℕ)
    → Chain h p f ns l
    → has_ref r ns ≡ true
    → quantity_of r ns ≡ (h r).order.quantity
quantity_of-Chain h p f [] l r c i = cc
quantity_of-Chain h p f (n ∷ ns) l r c i = elim (Bool-cases (n.ref == r)) [
  | inl here ↦
      let e : n.ref ≡ r = ground arith in rw here (rw (← e) (sym (ap (λ x. x.quantity) c.1)))
  | inr later ↦ rw later (quantity_of-Chain h (some n.ref) (h n.ref).next ns l r c.3 (ground arith))
]

prev-some :
    (h : Store) (p : ℕ) (f : Option ℕ) (ns : List OrderNode) (l : Option ℕ) (r : ℕ) (x y : Option ℕ)
    → Chain h (some p) f ns l
    → has_ref r ns ≡ true
    → or_pointer (h r).prev x y ≡ y
prev-some h p f [] l r x y c i = cc
prev-some h p f (n ∷ ns) l r x y c i = elim (Bool-cases (n.ref == r)) [
  | inl here ↦ let e : n.ref ≡ r = ground arith in rw (← e) (rw c.2 refl)
  | inr later ↦ prev-some h n.ref (h n.ref).next ns l r x y c.3 (ground arith)
]

-- The head and the tail after `remove`.
pub head-remove :
    (h : Store) (f : Option ℕ) (ns : List OrderNode) (l : Option ℕ) (r : ℕ) (x : Option ℕ)
    → Chain h none f ns l
    → has_ref r ns ≡ true
    → or_pointer (h r).prev x f ≡ (if points_to f r then x else f)
head-remove h f [] l r x c i = cc
head-remove h f (n ∷ ns) l r x c i = elim (Bool-cases (n.ref == r)) [
  | inl here ↦ let e : n.ref ≡ r = ground arith in rw c.0 (rw here (rw (← e) (rw c.2 refl)))
  | inr later ↦
      rw c.0 (rw later (prev-some h n.ref (h n.ref).next ns l r x (some n.ref) c.3 (ground arith)))
]

pub tail-remove :
    (h : Store) (p f : Option ℕ) (ns : List OrderNode) (l : Option ℕ) (r : ℕ) (x : Option ℕ)
    → Chain h p f ns l
    → IsDistinct ns
    → has_ref r ns ≡ true
    → or_pointer (h r).next x l ≡ (if points_to l r then x else l)
tail-remove h p f [] l r x c d i = cc
tail-remove h p f (n ∷ []) l r x c d i =
    let e : n.ref ≡ r = ground arith in rw c.3.1 (rw (← e) (rw c.3.0 (ground arith)))
tail-remove h p f (n ∷ m ∷ ms) l r x c d i = elim (Bool-cases (n.ref == r)) [
  | inl here ↦
      let e : n.ref ≡ r = ground arith in
      let (t, q, j) = Chain-last h (some n.ref) (h n.ref).next m ms l c.3 in
      let ne : t ≢ n.ref = λ same. ground (arith, ap (λ x. has_ref x (m ∷ ms)) same) in
      let apart : (t == n.ref) ≡ false = ground (arith, ne) in
      rw (← e) (rw q (rw apart (rw c.3.0 refl)))
  | inr later ↦ tail-remove h (some n.ref) (h n.ref).next (m ∷ ms) l r x c.3 d.1 (ground arith)
]

has_ref-++ :
    (r : ℕ) (ns : List OrderNode) (o : OrderNode)
    → has_ref r ns ≡ false
    → (o.ref == r) ≡ false
    → has_ref r (ns ++ o ∷ []) ≡ false
has_ref-++ r [] o i e = ground arith
has_ref-++ r (n ∷ ns) o i e = ground (arith, has_ref-++ r ns o (ground arith) e)

pub IsDistinct-++ :
    (ns : List OrderNode) (o : OrderNode)
    → IsDistinct ns
    → has_ref o.ref ns ≡ false
    → IsDistinct (ns ++ o ∷ [])
IsDistinct-++ [] o d i = (refl, tt)
IsDistinct-++ (n ∷ ns) o d i =
    (has_ref-++ n.ref ns o d.0 (ground arith), IsDistinct-++ ns o d.1 (ground arith))

has_ref-unlink :
    (r s : ℕ) (ns : List OrderNode) → has_ref s ns ≡ false → has_ref s (unlink r ns) ≡ false
has_ref-unlink r s [] i = refl
has_ref-unlink r s (n ∷ ns) i = elim (Bool-cases (n.ref == r)) [
  | inl here ↦ rw here (ground arith)
  | inr later ↦ rw later (ground (arith, has_ref-unlink r s ns (ground arith)))
]

pub IsDistinct-unlink : (r : ℕ) (ns : List OrderNode) → IsDistinct ns → IsDistinct (unlink r ns)
IsDistinct-unlink r [] d = tt
IsDistinct-unlink r (n ∷ ns) d = elim (Bool-cases (n.ref == r)) [
  | inl here ↦ rw here d.1
  | inr later ↦ rw later (has_ref-unlink r n.ref ns d.0, IsDistinct-unlink r ns d.1)
]

-- A new object leaves a chain that it is not in.
pub Chain-new :
    (h : Store) (f : Option ℕ) (ns : List OrderNode) (l : Option ℕ) (o : OrderNode)
    → Chain h none f ns l
    → has_ref o.ref ns ≡ false
    → Chain (new_node o h) none f ns l
Chain-new h f ns l o c i =
    Chain-frame h (new_node o h) none f ns l
      (λ r j. ground (arith, (λ (same : r ≡ o.ref). ap (λ x. has_ref x ns) same))) c

pub new_node-here :
    (o : OrderNode) (h : Store)
    → new_node o h o.ref ≡ record { order = o; prev = none; next = none }
new_node-here o h = ground arith
