-- ===== src/Matching/Linked/Calls.antt =====
-- Runs of `push`, `shift` and `remove` of `OrderQueue` in backend/src/services/matchingWorker.ts, on
-- the linked nodes and on the list that they stand for.
use aether_x.Prelude.{ℕ, ◌≡◌, List, [], ◌∷◌, Option, none, some, true, false, ◌==◌, if◌then◌else◌}
use aether_x.Matching.Queue.{OrderNode, OrderQueue, push, shift, remove}
use aether_x.Matching.Invariant.{has_ref}
use aether_x.Matching.Linked.{Store, LinkedQueue, push_node, shift_node, remove_node}

-- The object of a new order, whose pointers are null.
abbrev pub new_node : OrderNode → Store → Store
new_node o h s = if s == o.ref then record { order = o; prev = none; next = none } else h s

pub data QueueCall : Type 0 where
  do_push : OrderNode → QueueCall
  do_shift : QueueCall
  do_remove : ℕ → QueueCall

abbrev pub read_order : Store → Option ℕ → Option OrderNode
read_order h none = none
read_order h (some n) = some (h n).order

-- One call, with the node that `shift` returns.
abbrev pub call_node : QueueCall → LinkedQueue → Store → Option OrderNode × LinkedQueue × Store
call_node (do_push o) q h = let (q', h') = push_node o.ref q (new_node o h) in (none, q', h')
call_node do_shift q h = let (n, q', h') = shift_node q h in (read_order h' n, q', h')
call_node (do_remove r) q h = let (q', h') = remove_node r q h in (none, q', h')

abbrev pub call_list : QueueCall → OrderQueue → Option OrderNode × OrderQueue
call_list (do_push o) q = (none, push o q)
call_list do_shift q = shift q
call_list (do_remove r) q = (none, remove r q)

-- All the calls in a row, with what they return.
abbrev pub calls_node :
    List QueueCall → LinkedQueue → Store → List (Option OrderNode) × LinkedQueue × Store
calls_node [] q h = ([], q, h)
calls_node (c ∷ cs) q h =
    let (o, q', h') = call_node c q h in
    let (os, q'', h'') = calls_node cs q' h' in (o ∷ os, q'', h'')

abbrev pub calls_list : List QueueCall → OrderQueue → List (Option OrderNode) × OrderQueue
calls_list [] q = ([], q)
calls_list (c ∷ cs) q =
    let (o, q') = call_list c q in let (os, q'') = calls_list cs q' in (o ∷ os, q'')

-- A node is pushed while it is in no place of the queue, and removed while it is in one.
abbrev pub IsAllowed : QueueCall → OrderQueue → Type 0
IsAllowed (do_push o) q = has_ref o.ref q.nodes ≡ false
IsAllowed do_shift q = Unit
IsAllowed (do_remove r) q = has_ref r q.nodes ≡ true

abbrev pub AreAllowed : List QueueCall → OrderQueue → Type 0
AreAllowed [] q = Unit
AreAllowed (c ∷ cs) q = IsAllowed c q × AreAllowed cs (call_list c q).1
