-- ===== src/Matching/Invariant.antt =====
-- The well-formedness of an order book between two messages: what `orderMap`, the two maps of levels
-- and the two price arrays of backend/src/services/matchingWorker.ts say of one another.
use aether_x.Prelude.{
  ℕ, ◌<◌, ◌≡◌, List, [], ◌∷◌, Option, none, some, Bool, true, false, ◌&&◌, total, any, All, ◌==◌,
}
use aether_x.Matching.Queue.{Side, buy, sell, OrderNode, OrderQueue, is_empty}
use aether_x.Matching.Book.{PriceLevels, Entry, OrderBook, Trade, before}

abbrev pub lots : List OrderNode → ℕ
lots = total (λ n. n.quantity)

abbrev pub traded : List Trade → ℕ
traded = total (λ t. t.quantity)

abbrev pub has_node : ℕ → ℕ → List OrderNode → Bool
has_node ref id = any (λ n. n.ref == ref && n.id == id)

abbrev pub has_ref : ℕ → List OrderNode → Bool
has_ref ref = any (λ n. n.ref == ref)

abbrev pub has_price : ℕ → List ℕ → Bool
has_price p = any (λ r. r == p)

abbrev pub is_some {ℓ} : {A : Type ℓ} → Option A → Bool
is_some none = false
is_some (some a) = true

-- A resting node stands at the price and side of its level, and wants something.
abbrev pub IsResting : Side → ℕ → ℕ → OrderNode → Type 0
IsResting s p next n = (n.price ≡ p) × (n.side ≡ s) × (0 < n.quantity) × (n.ref < next)

-- No two nodes are one object.
abbrev pub IsDistinct : List OrderNode → Type 0
IsDistinct [] = Unit
IsDistinct (n ∷ ns) = (has_ref n.ref ns ≡ false) × IsDistinct ns

pub record IsQueue (s : Side) (p : ℕ) (next : ℕ) (q : OrderQueue) : Type 0 where
  pub inhabited : is_empty q.nodes ≡ false
  pub resting : All (IsResting s p next) q.nodes
  pub distinct : IsDistinct q.nodes
  pub counted : q.volume ≡ lots q.nodes

-- Strictly sorted, best price first.
abbrev pub IsSorted : Side → List ℕ → Type 0
IsSorted s [] = Unit
IsSorted s (p ∷ ps) = All (λ r. before s p r ≡ true) ps × IsSorted s ps

pub record IsLevels (s : Side) (next : ℕ) (h : PriceLevels) : Type 0 where
  pub sorted : IsSorted s h.prices
  pub keyed : (p : ℕ) → has_price p h.prices ≡ is_some (h.levels p)
  pub queues : (p : ℕ) (q : OrderQueue) → h.levels p ≡ some q → IsQueue s p next q

-- The node of an entry stands in the queue that its price leads to.
abbrev pub is_live : ℕ → Entry → Option OrderQueue → Bool
is_live id e none = false
is_live id e (some q) = has_node e.ref id q.nodes

abbrev pub levels_of : Side → OrderBook → PriceLevels
levels_of buy b = b.bids
levels_of sell b = b.asks

pub record IsBook (b : OrderBook) : Type 0 where
  pub bids_valid : IsLevels buy b.next_ref b.bids
  pub asks_valid : IsLevels sell b.next_ref b.asks
  pub live :
      (id : ℕ) (e : Entry)
      → b.order_map id ≡ some e
      → is_live id e ((levels_of e.side b).levels e.price) ≡ true
  pub uncrossed :
      (p r : ℕ) → has_price p b.bids.prices ≡ true → has_price r b.asks.prices ≡ true → p < r
