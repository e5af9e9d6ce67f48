-- ===== src/Matching/Linked.antt =====
-- `OrderQueue` of backend/src/services/matchingWorker.ts as it is written: a doubly linked list of
-- shared node objects. The objects stand in a store, by their identity; a pointer is an identity or
-- null. Matching/Queue has the list that such a queue stands for.
pub mod Calls
mod Chain
mod Ends
mod Unlink
pub mod Refine
use aether_x.Prelude.{ℕ, ◌+◌, ◌-◌, Option, none, some, Bool, false, ◌==◌, if◌then◌else◌}
use aether_x.Matching.Queue.{OrderNode}

-- A node object: its own fields, and its two pointers.
pub record Cell : Type 0 where
  pub order : OrderNode
  pub prev : Option ℕ
  pub next : Option ℕ

abbrev pub Store : Type 0
Store = ℕ → Cell

pub record LinkedQueue : Type 0 where
  pub head : Option ℕ
  pub tail : Option ℕ
  pub volume : ℕ

abbrev pub new_linked : LinkedQueue
new_linked = record { head = none; tail = none; volume = 0 }

abbrev pub points_to : Option ℕ → ℕ → Bool
points_to none r = false
points_to (some s) r = s == r

-- `node.prev = …` and `node.next = …`; with an optional node, under `if (node)`.
abbrev pub set_prev : ℕ → Option ℕ → Store → Store
set_prev r p h s = if s == r then record (h s) { prev = p } else h s

abbrev pub set_next : ℕ → Option ℕ → Store → Store
set_next r p h s = if s == r then record (h s) { next = p } else h s

abbrev pub set_prev_if : Option ℕ → Option ℕ → Store → Store
set_prev_if o p h s = if points_to o s then record (h s) { prev = p } else h s

abbrev pub set_next_if : Option ℕ → Option ℕ → Store → Store
set_next_if o p h s = if points_to o s then record (h s) { next = p } else h s

-- `push`, by the head that it finds.
abbrev pub push_at : Option ℕ → ℕ → LinkedQueue → Store → LinkedQueue × Store
push_at none r q h =
    (record { head = some r; tail = some r; volume = q.volume + (h r).order.quantity }, h)
push_at (some first) r q h = (
  record q { tail = some r; volume = q.volume + (h r).order.quantity },
  set_next_if q.tail (some r) (set_prev r q.tail h),
)

unfoldable pub push_node : ℕ → LinkedQueue → Store → LinkedQueue × Store
push_node r q h = push_at q.head r q h

-- The end of `shift`, by the node that is the new head.
abbrev pub behead : Option ℕ → LinkedQueue → Store → LinkedQueue × Store
behead none q h = (record q { head = none; tail = none }, h)
behead (some m) q h = (record q { head = some m }, set_prev m none h)

abbrev pub shift_at : Option ℕ → LinkedQueue → Store → Option ℕ × LinkedQueue × Store
shift_at none q h = (none, q, h)
shift_at (some n) q h =
    let (q', h') = behead (h n).next q h in
    (some n, record q' { volume = q.volume - (h n).order.quantity }, set_next n none h')

unfoldable pub shift_node : LinkedQueue → Store → Option ℕ × LinkedQueue × Store
shift_node q h = shift_at q.head q h

-- The pointers of the neighbours, as `remove` writes them, and then the node's own.
abbrev pub unlink_store : ℕ → Store → Store
unlink_store r h =
    let h' = set_next_if (h r).prev (h r).next h in
    let h'' = set_prev_if (h' r).next (h' r).prev h' in set_next r none (set_prev r none h'')

-- `this.head = order.next` where the node has no `prev`, and likewise the tail.
abbrev pub or_pointer : Option ℕ → Option ℕ → Option ℕ → Option ℕ
or_pointer none new old = new
or_pointer (some p) new old = old

unfoldable pub remove_node : ℕ → LinkedQueue → Store → LinkedQueue × Store
remove_node r q h = (
  record {
    head = or_pointer (h r).prev (h r).next q.head;
    tail = or_pointer (h r).next (h r).prev q.tail;
    volume = q.volume - (h r).order.quantity;
  },
  unlink_store r h,
)
