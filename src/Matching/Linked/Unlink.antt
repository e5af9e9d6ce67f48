-- ===== src/Matching/Linked/Unlink.antt =====
-- A chain without one of its nodes.
use aether_x.Prelude.{
  ℕ, ◌≡◌, ◌≢◌, refl, ap, ◌∙◌, inl, inr, List, [], ◌∷◌, Option, none, some, true, false, arith, ◌==◌,
  if◌then◌else◌, Bool-cases,
}
use aether_x.Matching.Queue.{OrderNode, unlink}
use aether_x.Matching.Invariant.{has_ref, IsDistinct}
use aether_x.Matching.Linked.{Cell, Store, points_to, unlink_store}
use aether_x.Matching.Linked.Chain.{Chain, Chain-frame, Chain-last, Chain-next, Chain-prev}

points_to_eq : (o : Option ℕ) (r : ℕ) → points_to o r ≡ true → o ≡ some r
points_to_eq none r h = cc
points_to_eq (some s) r h = ground arith

points_to-out :
    (o : Option ℕ) (r : ℕ) (ns : List OrderNode)
    → ((s : ℕ) → o ≡ some s → has_ref s ns ≡ false)
    → has_ref r ns ≡ true
    → points_to o r ≡ false
points_to-out none r ns out i = refl
points_to-out (some s) r ns out i = elim (Bool-cases (s == r)) [
  | inl same ↦ let e : s ≡ r = ground arith in ground (arith, ap (λ x. has_ref x ns) e, out s refl)
  | inr other ↦ other
]

points_to-out-of : (o : Option ℕ) (r : ℕ) → o ≢ some r → points_to o r ≡ false
points_to-out-of none r ne = refl
points_to-out-of (some s) r ne = elim (Bool-cases (s == r)) [
  | inl same ↦ let e : s ≡ r = ground arith in absurd (ne (ap some e))
  | inr other ↦ other
]

-- The object of another node after `remove`.
unlinked : ℕ → Store → ℕ → Cell
unlinked r h s = record {
  order = (h s).order;
  prev = if points_to (h r).next s then (h r).prev else (h s).prev;
  next = if points_to (h r).prev s then (h r).next else (h s).next;
}

unlink_store-other :
    (r s : ℕ) (h : Store)
    → points_to (h r).prev r ≡ false
    → s ≢ r
    → unlink_store r h s ≡ unlinked r h s
unfolding unlinked
unlink_store-other r s h apart ne = ground arith

-- No node of a chain comes before itself.
pub Chain-apart :
    (h : Store) (p f : Option ℕ) (ns : List OrderNode) (l : Option ℕ) (r : ℕ)
    → Chain h p f ns l
    → IsDistinct ns
    → ((s : ℕ) → p ≡ some s → has_ref s ns ≡ false)
    → has_ref r ns ≡ true
    → points_to (h r).prev r ≡ false
Chain-apart h p f [] l r c d out i = cc
Chain-apart h p f (n ∷ ns) l r c d out i = elim (Bool-cases (n.ref == r)) [
  | inl here ↦
      let e : n.ref ≡ r = ground arith in
      rw (← e) (rw c.2 (points_to-out p n.ref (n ∷ ns) out (ground arith)))
  | inr later ↦
      Chain-apart h (some n.ref) (h n.ref).next ns l r c.3 d.1
        (λ s e. ground (arith, d.0, ap (λ x. has_ref x ns) (n_is s e))) (ground arith)
]
  where
    n_is : (s : ℕ) → some n.ref ≡ some s → n.ref ≡ s
    n_is s e = cc

module _ (h : Store) (r : ℕ) (apart : points_to (h r).prev r ≡ false) where
  same_elsewhere :
      (s : ℕ)
      → s ≢ r
      → points_to (h r).prev s ≡ false
      → points_to (h r).next s ≡ false
      → unlink_store r h s ≡ h s
  unfolding unlinked
  same_elsewhere s ne p n = unlink_store-other r s h apart ne ∙ rw p (rw n refl)

  has_ref-ne : (s t : ℕ) (ns : List OrderNode) → has_ref s ns ≡ true → has_ref t ns ≡ false → s ≢ t
  has_ref-ne s t ns i o same = ground (arith, ap (λ x. has_ref x ns) same)

  renewed :
      (s : ℕ) (p : Option ℕ)
      → (h r).prev ≡ p
      → points_to (h r).next s ≡ true
      → points_to (h r).prev s ≡ false
      → unlinked r h s ≡ record (h s) { prev = p }
  unfolding unlinked
  renewed s p q n o = rw n (rw o (rw q refl))

  -- The nodes behind the one that is removed.
  Chain-behind :
      (p : Option ℕ) (ns : List OrderNode) (l : Option ℕ)
      → (h r).prev ≡ p
      → Chain h (some r) (h r).next ns l
      → IsDistinct ns
      → has_ref r ns ≡ false
      → ((s : ℕ) → p ≡ some s → has_ref s ns ≡ false)
      → Chain (unlink_store r h) p (h r).next ns (if points_to l r then (h r).prev else l)
  Chain-behind p [] l q c d absent out = (c.0, ground (arith, q, c.1))
  Chain-behind p (m ∷ ms) l q c d absent out =
      let (t, e, i) = Chain-last h (some r) (h r).next m ms l c in
      let t_ne : t ≢ r = λ same. ground (arith, ap (λ x. has_ref x (m ∷ ms)) same) in
      let last : (if points_to l r then (h r).prev else l) ≡ l = ground (arith, e, t_ne) in
      let m_ne : m.ref ≢ r = ground arith in
      let p_out : points_to (h r).prev m.ref ≡ false =
        rw q (points_to-out p m.ref (m ∷ ms) out (ground arith)) in
      let at_m = unlink_store-other r m.ref h apart m_ne in
      let next_is : points_to (h r).next m.ref ≡ true = rw c.0 (ground arith) in
      let now : unlink_store r h m.ref ≡ record (h m.ref) { prev = p } =
        at_m ∙ renewed m.ref p q next_is p_out in
      (
        c.0,
        ap (λ x. x.order) now ∙ c.1,
        ap (λ x. x.prev) now,
        rw last (
            rw (ap (λ x. x.next) now) (
              Chain-frame h (unlink_store r h) (some m.ref) (h m.ref).next ms l
                (λ s i.
                  same_elsewhere s (has_ref-ne s r ms i (ground arith))
                    (rw q (points_to-out p s (m ∷ ms) out (ground (arith, i))))
                    (rw c.0 (ground (arith, has_ref-ne s m.ref ms i d.0))))
                c.3)),
      )

  -- What `next` of the node is not, and what `prev` of it is.
  next_behind :
      (n m : OrderNode) (p f : Option ℕ) (ms : List OrderNode) (l : Option ℕ)
      → Chain h p f (n ∷ m ∷ ms) l
      → IsDistinct (n ∷ m ∷ ms)
      → has_ref r (m ∷ ms) ≡ true
      → points_to (h r).next n.ref ≡ false
  next_behind n m p f ms l c d i = points_to-out-of (h r).next n.ref (λ e.
      let inside = Chain-next h (some n.ref) (h n.ref).next (m ∷ ms) l r n.ref c.3 i e in
      ground (arith, d.0, inside))

  prev_ahead :
      (n m : OrderNode) (p f : Option ℕ) (ms : List OrderNode) (l : Option ℕ)
      → Chain h p f (n ∷ m ∷ ms) l
      → IsDistinct (n ∷ m ∷ ms)
      → has_ref r (m ∷ ms) ≡ true
      → points_to (h r).prev n.ref ≡ points_to (h n.ref).next r
  prev_ahead n m p f ms l c d i = elim (Bool-cases (m.ref == r)) [
    | inl here ↦ let e : m.ref ≡ r = ground arith in rw c.3.0 (rw (← e) (rw c.3.2 (ground arith)))
    | inr later ↦ rw c.3.0 (
        rw later (
          points_to-out-of (h r).prev n.ref (λ e.
            elim (Chain-prev h (some m.ref) (h m.ref).next ms l r n.ref c.3.3 (ground arith) e) [
              | inl at_head ↦ ground (arith, d.0, some_ref at_head)
              | inr inside ↦ ground (arith, d.0, inside)
            ])))
  ]
    where
      some_ref : some m.ref ≡ some n.ref → m.ref ≡ n.ref
      some_ref e = cc

  -- The node before the one that is removed, or one further ahead.
  unlinked_ahead :
      (n m : OrderNode) (p f : Option ℕ) (ms : List OrderNode) (l : Option ℕ)
      → Chain h p f (n ∷ m ∷ ms) l
      → IsDistinct (n ∷ m ∷ ms)
      → has_ref r (m ∷ ms) ≡ true
      → n.ref ≢ r
      → unlink_store r h n.ref ≡ record (h n.ref) {
        next = if points_to (h n.ref).next r then (h r).next else (h n.ref).next;
      }
  unfolding unlinked
  unlinked_ahead n m p f ms l c d i ne =
      unlink_store-other r n.ref h apart ne
      ∙ rw (next_behind n m p f ms l c d i) (rw (prev_ahead n m p f ms l c d i) refl)

  -- The node is the first of the chain.
  unlink_first :
      (p f : Option ℕ) (n : OrderNode) (ns : List OrderNode) (l : Option ℕ)
      → Chain h p f (n ∷ ns) l
      → IsDistinct (n ∷ ns)
      → n.ref ≡ r
      → ((s : ℕ) → p ≡ some s → has_ref s (n ∷ ns) ≡ false)
      → Chain
          (unlink_store r h)
          p
          (if points_to f r then (h r).next else f)
          (unlink r (n ∷ ns))
          (if points_to l r then (h r).prev else l)
  unlink_first p f n ns l c d e out =
      let first : points_to f r ≡ true = rw c.0 (ground (arith, e)) in
      let here : (n.ref == r) ≡ true = ground (arith, e) in
      let behind : Chain h (some r) (h r).next ns l = rw (← e) c.3 in
      rw here (
        rw first (
          Chain-behind p ns l (rw (← e) c.2) behind d.1 (rw (← e) d.0)
            (λ s q. ground (arith, out s q))))

  -- A chain that has the node is a chain of the others once the node is removed.
  pub Chain-unlink :
      (p f : Option ℕ) (ns : List OrderNode) (l : Option ℕ)
      → Chain h p f ns l
      → IsDistinct ns
      → has_ref r ns ≡ true
      → ((s : ℕ) → p ≡ some s → has_ref s ns ≡ false)
      → Chain
          (unlink_store r h)
          p
          (if points_to f r then (h r).next else f)
          (unlink r ns)
          (if points_to l r then (h r).prev else l)
  Chain-unlink p f [] l c d i out = cc
  Chain-unlink p f (n ∷ []) l c d i out = unlink_first p f n [] l c d (ground arith) out
  Chain-unlink p f (n ∷ m ∷ ms) l c d i out = elim (Bool-cases (n.ref == r)) [
    | inl here ↦ unlink_first p f n (m ∷ ms) l c d (ground arith) out
    | inr later ↦
        let ahead = unlinked_ahead n m p f ms l c d (ground arith) (ground arith) in
        let first : points_to f r ≡ false = rw c.0 later in
        let rest =
          Chain-unlink (some n.ref) (h n.ref).next (m ∷ ms) l c.3 d.1 (ground arith)
            (λ s q. ground (arith, d.0, n_is n s q)) in
        rw first (
          rw later (
            c.0,
            ap (λ x. x.order) ahead ∙ c.1,
            ap (λ x. x.prev) ahead ∙ c.2,
            rw (ap (λ x. x.next) ahead) rest,
          ))
  ]
    where
      n_is : (n : OrderNode) (s : ℕ) → some n.ref ≡ some s → s ≡ n.ref
      n_is n s e = cc
