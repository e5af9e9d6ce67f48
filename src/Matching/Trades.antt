-- ===== src/Matching/Trades.antt =====
-- What `matchOrder` trades: at which prices, in which order, and how much.
use aether_x.Prelude.{
  ℕ, ◌+◌, ◌-◌, ◌<◌, ◌≤◌, ◌≡◌, refl, ◌⊎◌, List, [], ◌∷◌, map, true, false, Map, All, arith, insert,
  erase, min, total, ◌==◌, if◌then◌else◌,
}
use aether_x.Matching.Queue.{Side, buy, sell, OrderNode, OrderQueue}
use aether_x.Matching.Book.{Entry, before, Trade, volume_of}
use aether_x.Matching.Match.{match_queue, stops}
use aether_x.Matching.Invariant.{has_price}

-- A price within an order's limit, and one past it. A market order has the limit 0.
abbrev pub IsWithin : Side → ℕ → ℕ → Type 0
IsWithin buy limit price = (limit ≡ 0) ⊎ (price ≤ limit)
IsWithin sell limit price = (limit ≡ 0) ⊎ (limit ≤ price)

abbrev pub IsPast : Side → ℕ → ℕ → Type 0
IsPast buy limit price = (0 < limit) × (limit < price)
IsPast sell limit price = (0 < limit) × (price < limit)

pub stops-IsWithin :
    (s : Side) (limit price : ℕ) → stops s limit price ≡ false → IsWithin s limit price
stops-IsWithin buy limit price h = ground arith
stops-IsWithin sell limit price h = ground arith

pub stops-IsPast : (s : Side) (limit price : ℕ) → stops s limit price ≡ true → IsPast s limit price
stops-IsPast buy limit price h = ground arith
stops-IsPast sell limit price h = ground arith

-- A trade that an order may make: at a listed price within its limit, of a positive quantity.
abbrev pub IsFair : Side → ℕ → List ℕ → Trade → Type 0
IsFair is_buy limit ps t =
    (has_price t.price ps ≡ true) × IsWithin is_buy limit t.price × (0 < t.quantity)

-- No trade is at a better price than one before it.
abbrev pub AreInOrder : Side → List Trade → Type 0
AreInOrder s [] = Unit
AreInOrder s (t ∷ ts) = All (λ u. before s u.price t.price ≡ false) ts × AreInOrder s ts

-- First come, first served, independently of the loop: a maker behind `ahead` lots gets what is left
-- of `quantity`, at most what it offers.
unfoldable pub fifo : ℕ → ℕ → List OrderNode → List (ℕ × ℕ)
fifo quantity ahead [] = []
fifo quantity ahead (n ∷ ns) =
    let share : ℕ = min n.quantity (quantity - ahead) in
    let rest = fifo quantity (ahead + n.quantity) ns in
    if share == 0 then rest else (n.id, share) ∷ rest

fifo_over :
    (quantity ahead : ℕ) (ns : List OrderNode) → quantity - ahead ≡ 0 → fifo quantity ahead ns ≡ []
unfolding fifo
fifo_over quantity ahead [] h = refl
fifo_over quantity ahead (n ∷ ns) h = ground (arith, fifo_over quantity (ahead + n.quantity) ns)

abbrev pub shares : List Trade → List (ℕ × ℕ)
shares = map (λ t. (t.maker_order_id, t.quantity))

module _ (symbol : ℕ) (taker : OrderNode) (is_buy : Side) where
  pub fill-fifo :
      (best : ℕ) (ns : List OrderNode) (total ahead quantity volume : ℕ) (om : Map Entry)
      → All (λ (n : OrderNode). 0 < n.quantity) ns
      → quantity ≡ total - ahead
      → shares (match_queue symbol taker is_buy best ns quantity volume om).trades
        ≡ fifo total ahead ns
  unfolding match_queue fifo
  fill-fifo best [] total ahead quantity volume om h e = refl
  fill-fifo best (n ∷ ns) total ahead quantity volume om h e = ground (
    arith,
    fill-fifo best ns total (ahead + n.quantity) (quantity - min quantity n.quantity)
        (volume - min quantity n.quantity - (n.quantity - min quantity n.quantity)) (erase n.id om)
        h.1,
    fifo_over total (ahead + n.quantity) ns,
  )

  -- The trades at one price are fair, and all at that price.
  pub fill-IsFair :
      (best : ℕ) (ns : List OrderNode) (quantity volume : ℕ) (om : Map Entry)
      → All (λ (n : OrderNode). 0 < n.quantity) ns
      → All
          (λ (t : Trade). (t.price ≡ best) × (0 < t.quantity))
          (match_queue symbol taker is_buy best ns quantity volume om).trades
  unfolding match_queue
  fill-IsFair best [] quantity volume om h = tt
  fill-IsFair best (n ∷ ns) quantity volume om h = ground (
    arith,
    fill-IsFair best ns (quantity - min quantity n.quantity)
        (volume - min quantity n.quantity - (n.quantity - min quantity n.quantity)) (erase n.id om)
        h.1,
  )

-- The volume on offer at some prices.
abbrev pub offered : Map OrderQueue → List ℕ → ℕ
offered levels = total (λ p. volume_of (levels p))

pub offered-erase :
    (levels : Map OrderQueue) (best : ℕ) (ps : List ℕ)
    → has_price best ps ≡ false
    → offered (erase best levels) ps ≡ offered levels ps
offered-erase levels best [] h = refl
offered-erase levels best (p ∷ ps) h = ground (arith, offered-erase levels best ps)

pub offered-insert :
    (levels : Map OrderQueue) (best : ℕ) (q : OrderQueue) (ps : List ℕ)
    → has_price best ps ≡ false
    → offered (insert best q levels) ps ≡ offered levels ps
offered-insert levels best q [] h = refl
offered-insert levels best q (p ∷ ps) h = ground (arith, offered-insert levels best q ps)
