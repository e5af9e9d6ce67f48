-- ===== src/Matching/Linked/Refine.antt =====
-- The queue of linked nodes against the list of its nodes, under runs of `push`, `shift` and `remove` of
-- `OrderQueue` in backend/src/services/matchingWorker.ts.
use aether_x.Prelude.{
  ℕ, ◌≡◌, ◌≢◌, refl, ap, ◌∙◌, List, [], ◌∷◌, Option, none, some, true, false, arith,
}
use aether_x.Matching.Queue.{OrderNode, OrderQueue, push, shift, remove}
use aether_x.Matching.Invariant.{has_ref, IsDistinct}
use aether_x.Matching.Linked.{
  Store, LinkedQueue, push_node, shift_node, remove_node, set_prev, set_next,
}
use aether_x.Matching.Linked.Calls.{
  QueueCall, do_push, do_shift, do_remove, new_node, call_node, call_list, calls_node, calls_list,
  IsAllowed, AreAllowed,
}
use aether_x.Matching.Linked.Chain.{Chain, Chain-frame, Chain-push}
use aether_x.Matching.Linked.Unlink.{Chain-unlink, Chain-apart}
use aether_x.Matching.Linked.Ends.{
  quantity_of-Chain, head-remove, tail-remove, IsDistinct-++, IsDistinct-unlink, Chain-new,
  new_node-here,
}

-- The linked queue has the nodes of the list, in order, and the same volume.
pub record IsLinked (q : LinkedQueue) (h : Store) (l : OrderQueue) : Type 0 where
  pub chain : Chain h none q.head l.nodes q.tail
  pub distinct : IsDistinct l.nodes
  pub volume : q.volume ≡ l.volume

push-IsLinked :
    (o : OrderNode) (ns : List OrderNode) (v : ℕ) (q : LinkedQueue) (h : Store)
    → IsLinked q h (record { nodes = ns; volume = v })
    → has_ref o.ref ns ≡ false
    → IsLinked
        (push_node o.ref q (new_node o h)).0
        (push_node o.ref q (new_node o h)).1
        (push o (record { nodes = ns; volume = v }))
unfolding push_node push
push-IsLinked o [] v q h k i =
    let here = new_node-here o h in
    rw k.chain.0 (record {
      chain = (refl, ap (λ x. x.order) here, ap (λ x. x.prev) here, (ap (λ x. x.next) here, refl));
      distinct = (refl, tt);
      volume = rw here (rw k.volume refl);
    })
push-IsLinked o (n ∷ ns) v q h k i =
    let here = new_node-here o h in
    let at_head : Chain h none (some n.ref) (n ∷ ns) q.tail =
      (refl, k.chain.1, k.chain.2, k.chain.3) in
    let old = Chain-new h (some n.ref) (n ∷ ns) q.tail o at_head i in
    let chain =
      Chain-push (new_node o h) none (some n.ref) n ns q.tail o old k.distinct i
        (ap (λ x. x.order) here) (ap (λ x. x.next) here) in
    rw k.chain.0 (record {
      chain = chain;
      distinct = IsDistinct-++ (n ∷ ns) o k.distinct i;
      volume = rw here (rw k.volume refl);
    })

-- What is left of a chain of two or more when `shift` takes its first node.
behead-Chain :
    (h : Store) (n m : OrderNode) (ms : List OrderNode) (l : Option ℕ)
    → Chain h (some n.ref) (h n.ref).next (m ∷ ms) l
    → IsDistinct (n ∷ m ∷ ms)
    → Chain (set_next n.ref none (set_prev m.ref none h)) none (some m.ref) (m ∷ ms) l
behead-Chain h n m ms l c d =
    let g = set_next n.ref none (set_prev m.ref none h) in
    let at_m : g m.ref ≡ record (h m.ref) { prev = none } = ground (arith, d.0) in
    (
      refl,
      ap (λ x. x.order) at_m ∙ c.1,
      ap (λ x. x.prev) at_m,
      rw (ap (λ x. x.next) at_m) (
          Chain-frame h g (some m.ref) (h m.ref).next ms l
            (λ r i.
              let n_ne : n.ref ≢ r = λ same. ground (arith, d.0, ap (λ x. has_ref x ms) same) in
              let m_ne : m.ref ≢ r = λ same. ground (arith, d.1.0, ap (λ x. has_ref x ms) same) in
              ground (arith, n_ne, m_ne))
            c.3),
    )

shift-IsLinked :
    (ns : List OrderNode) (v : ℕ) (q : LinkedQueue) (h : Store)
    → IsLinked q h (record { nodes = ns; volume = v })
    → (call_node do_shift q h).0 ≡ (shift (record { nodes = ns; volume = v })).0
      × IsLinked
          (call_node do_shift q h).1
          (call_node do_shift q h).2
          (shift (record { nodes = ns; volume = v })).1
unfolding shift_node shift
shift-IsLinked [] v q h k =
    rw k.chain.0 (refl, record { chain = (refl, k.chain.1); distinct = tt; volume = k.volume })
shift-IsLinked (n ∷ []) v q h k = rw k.chain.0 (
    rw k.chain.3.0 (
      ap some (ground (arith, k.chain.1)),
      record { chain = (refl, refl); distinct = tt; volume = rw k.volume (rw k.chain.1 refl) },
    ))
shift-IsLinked (n ∷ m ∷ ms) v q h k = rw k.chain.0 (
    rw k.chain.3.0 (
      ap some (ground (arith, k.chain.1)),
      record {
        chain = behead-Chain h n m ms q.tail k.chain.3 k.distinct;
        distinct = k.distinct.1;
        volume = rw k.volume (rw k.chain.1 refl);
      },
    ))

remove-IsLinked :
    (r : ℕ) (q : LinkedQueue) (h : Store) (l : OrderQueue)
    → IsLinked q h l
    → has_ref r l.nodes ≡ true
    → IsLinked (remove_node r q h).0 (remove_node r q h).1 (remove r l)
unfolding remove_node remove
remove-IsLinked r q h l k i =
    let apart = Chain-apart h none q.head l.nodes q.tail r k.chain k.distinct (λ s e. cc) i in
    record {
      chain = rw (head-remove h q.head l.nodes q.tail r (h r).next k.chain i) (
          rw (tail-remove h none q.head l.nodes q.tail r (h r).prev k.chain k.distinct i)
            (Chain-unlink h r apart none q.head l.nodes q.tail k.chain k.distinct i (λ s e. cc)));
      distinct = IsDistinct-unlink r l.nodes k.distinct;
      volume = rw k.volume (rw (quantity_of-Chain h none q.head l.nodes q.tail r k.chain i) refl);
    }

call-IsLinked :
    (c : QueueCall) (q : LinkedQueue) (h : Store) (l : OrderQueue)
    → IsLinked q h l
    → IsAllowed c l
    → ((call_node c q h).0 ≡ (call_list c l).0)
      × IsLinked (call_node c q h).1 (call_node c q h).2 (call_list c l).1
call-IsLinked (do_push o) q h l k i = (refl, push-IsLinked o l.nodes l.volume q h k i)
call-IsLinked do_shift q h l k i = shift-IsLinked l.nodes l.volume q h k
call-IsLinked (do_remove r) q h l k i = (refl, remove-IsLinked r q h l k i)

-- Let a linked queue have the nodes of a list, in order and with their `prev` pointers, and its
-- volume, and let a run of calls push only nodes that are not in the list then and remove only
-- nodes that are. The run returns on the linked nodes what it returns on the list, and the linked
-- queue that it ends with has the nodes, in order, and the volume of the list that it ends with.
pub calls-IsLinked :
    (cs : List QueueCall) (q : LinkedQueue) (h : Store) (l : OrderQueue)
    → IsLinked q h l
    → AreAllowed cs l
    → ((calls_node cs q h).0 ≡ (calls_list cs l).0)
      × IsLinked (calls_node cs q h).1 (calls_node cs q h).2 (calls_list cs l).1
calls-IsLinked [] q h l k a = (refl, k)
calls-IsLinked (c ∷ cs) q h l k a =
    let now = call-IsLinked c q h l k a.0 in
    let (_, q', h') = call_node c q h in
    let rest = calls-IsLinked cs q' h' (call_list c l).1 now.1 a.1 in
    (rw now.0 (ap (λ os. (call_list c l).0 ∷ os) rest.0), rest.1)
