-- ===== src/Matching/Queue.antt =====
-- `OrderNode` and `OrderQueue` of backend/src/services/matchingWorker.ts. A queue is the list of its
-- nodes from `head` along `next`; `ref` is the identity of the node object, which the order map
-- shares. Quantities are whole lots and prices whole ticks. `volume -= …` stops at 0 here; the
-- invariant of Matching/Invariant shows that it never would fall below.
use aether_x.Prelude.{
  ℕ, ◌+◌, ◌-◌, List, [], ◌∷◌, ◌++◌, Option, none, some, Bool, true, false, ◌==◌, if◌then◌else◌,
}

pub data Side : Type 0 where
  buy sell : Side

pub record OrderNode : Type 0 where
  pub ref : ℕ
  pub id : ℕ
  pub user_id : ℕ
  pub side : Side
  pub price : ℕ
  pub quantity : ℕ

pub record OrderQueue : Type 0 where
  pub nodes : List OrderNode
  pub volume : ℕ

abbrev pub new_queue : OrderQueue
new_queue = record { nodes = []; volume = 0 }

abbrev pub is_empty : List OrderNode → Bool
is_empty [] = true
is_empty (n ∷ ns) = false

unfoldable pub push : OrderNode → OrderQueue → OrderQueue
push order q = record { nodes = q.nodes ++ order ∷ []; volume = q.volume + order.quantity }

-- What `shift` does on the nodes that it finds.
abbrev pub shift_nodes : List OrderNode → ℕ → Option OrderNode × OrderQueue
shift_nodes [] volume = (none, record { nodes = []; volume = volume })
shift_nodes (node ∷ rest) volume =
    (some node, record { nodes = rest; volume = volume - node.quantity })

unfoldable pub shift : OrderQueue → Option OrderNode × OrderQueue
shift q = shift_nodes q.nodes q.volume

-- Unlinks the node with this identity from its neighbours.
abbrev pub unlink : ℕ → List OrderNode → List OrderNode
unlink ref [] = []
unlink ref (n ∷ ns) = if n.ref == ref then ns else n ∷ unlink ref ns

-- The quantity of the node object.
abbrev pub quantity_of : ℕ → List OrderNode → ℕ
quantity_of ref [] = 0
quantity_of ref (n ∷ ns) = if n.ref == ref then n.quantity else quantity_of ref ns

unfoldable pub remove : ℕ → OrderQueue → OrderQueue
remove ref q = record { nodes = unlink ref q.nodes; volume = q.volume - quantity_of ref q.nodes }
