-- ===== src/Matching/Linked/Chain.antt =====
-- What the pointers of a queue say, for backend/src/services/matchingWorker.ts.
use aether_x.Prelude.{
  ℕ, ◌≡◌, ◌≢◌, ap, ◌∙◌, ◌⊎◌, inl, inr, List, [], ◌∷◌, ◌++◌, Option, none, some, true, false, arith,
  ◌==◌, Bool-cases,
}
use aether_x.Matching.Queue.{OrderNode}
use aether_x.Matching.Invariant.{has_ref, IsDistinct}
use aether_x.Matching.Linked.{Store, set_prev, set_next_if}

-- From `first` the `next` pointers lead through the nodes to `last`, and each `prev` pointer leads
-- back; `before` is what comes before the first node.
abbrev pub Chain : Store → Option ℕ → Option ℕ → List OrderNode → Option ℕ → Type 0
Chain h before first [] last = (first ≡ none) × (last ≡ before)
Chain h before first (n ∷ ns) last =
    (first ≡ some n.ref)
    × ((h n.ref).order ≡ n)
    × ((h n.ref).prev ≡ before)
    × Chain h (some n.ref) (h n.ref).next ns last

-- A chain depends on the objects of its nodes only.
pub Chain-frame :
    (h g : Store) (p f : Option ℕ) (ns : List OrderNode) (l : Option ℕ)
    → ((r : ℕ) → has_ref r ns ≡ true → g r ≡ h r)
    → Chain h p f ns l
    → Chain g p f ns l
Chain-frame h g p f [] l same c = c
Chain-frame h g p f (n ∷ ns) l same c =
    let here : g n.ref ≡ h n.ref = same n.ref (ground arith) in
    (
      c.0,
      ap (λ x. x.order) here ∙ c.1,
      ap (λ x. x.prev) here ∙ c.2,
      rw here (
          Chain-frame h g (some n.ref) (h n.ref).next ns l (λ r m. same r (ground (arith, m))) c.3),
    )

-- The last pointer of a chain that is not empty leads to one of its nodes.
pub Chain-last :
    (h : Store) (p f : Option ℕ) (n : OrderNode) (ns : List OrderNode) (l : Option ℕ)
    → Chain h p f (n ∷ ns) l
    → (t : ℕ) × (l ≡ some t) × (has_ref t (n ∷ ns) ≡ true)
Chain-last h p f n [] l c = (n.ref, c.3.1, ground arith)
Chain-last h p f n (m ∷ ns) l c =
    let (t, e, i) = Chain-last h (some n.ref) (h n.ref).next m ns l c.3 in (t, e, ground (arith, i))

-- `next` of a node in a chain is null or a node of the chain.
pub Chain-next :
    (h : Store) (p f : Option ℕ) (ns : List OrderNode) (l : Option ℕ) (r s : ℕ)
    → Chain h p f ns l
    → has_ref r ns ≡ true
    → (h r).next ≡ some s
    → has_ref s ns ≡ true
Chain-next h p f [] l r s c i e = cc
Chain-next h p f (n ∷ []) l r s c i e = elim (Bool-cases (n.ref == r)) [
  | inl here ↦ ground (arith, c.3.0)
  | inr later ↦ cc
]
Chain-next h p f (n ∷ m ∷ ns) l r s c i e = elim (Bool-cases (n.ref == r)) [
  | inl here ↦ ground (arith, c.3.0)
  | inr later ↦
      ground (arith, Chain-next h (some n.ref) (h n.ref).next (m ∷ ns) l r s c.3 (ground arith) e)
]

-- `prev` of a node in a chain is what comes before the chain, or a node of it.
pub Chain-prev :
    (h : Store) (p f : Option ℕ) (ns : List OrderNode) (l : Option ℕ) (r s : ℕ)
    → Chain h p f ns l
    → has_ref r ns ≡ true
    → (h r).prev ≡ some s
    → (p ≡ some s) ⊎ (has_ref s ns ≡ true)
Chain-prev h p f [] l r s c i e = cc
Chain-prev h p f (n ∷ ns) l r s c i e = elim (Bool-cases (n.ref == r)) [
  | inl here ↦ inl (ground (arith, c.2))
  | inr later ↦ elim (Chain-prev h (some n.ref) (h n.ref).next ns l r s c.3 (ground arith) e) [
    | inl at_head ↦ inr (ground arith)
    | inr inside ↦ inr (ground arith)
  ]
]

-- A chain that is not empty, with a new node linked behind its last.
pub Chain-push :
    (h : Store) (p f : Option ℕ) (n : OrderNode) (ns : List OrderNode) (l : Option ℕ)
    (o : OrderNode)
    → Chain h p f (n ∷ ns) l
    → IsDistinct (n ∷ ns)
    → has_ref o.ref (n ∷ ns) ≡ false
    → (h o.ref).order ≡ o
    → (h o.ref).next ≡ none
    → Chain (set_next_if l (some o.ref) (set_prev o.ref l h)) p f ((n ∷ ns) ++ o ∷ []) (some o.ref)
Chain-push h p f n [] l o c d u e z = rw (c.3.1) (ground arith)
Chain-push h p f n (m ∷ ns) l o c d u e z =
    let (t, q, i) = Chain-last h (some n.ref) (h n.ref).next m ns l c.3 in
    let rest = Chain-push h (some n.ref) (h n.ref).next m ns l o c.3 d.1 (ground arith) e z in
    let apart : t ≢ n.ref = λ same. ground (arith, ap (λ x. has_ref x (m ∷ ns)) same) in
    let kept : set_next_if l (some o.ref) (set_prev o.ref l h) n.ref ≡ h n.ref =
      rw q (ground arith) in
    (c.0, ap (λ x. x.order) kept ∙ c.1, ap (λ x. x.prev) kept ∙ c.2, rw kept rest)
