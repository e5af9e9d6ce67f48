-- ===== src/Matching/Worker.antt =====
-- The message handler of the matching worker over all its books.
use aether_x.Prelude.{
  ℕ, ◌≡◌, refl, inl, inr, List, [], ◌∷◌, Option, none, some, Map, empty, arith, Option-cases,
}
use aether_x.Matching.Book.{OrderBook, new_book}
use aether_x.Matching.Match.{
  Request, add_request, cancel_request, depth_request, other_request, symbol_of, get_book, serve,
  on_symbol, on_message,
}
use aether_x.Matching.Invariant.{IsBook}
use aether_x.Matching.Books.{add_order-IsBook, cancel_order-IsBook}

pub new_book-IsBook : (symbol : ℕ) → IsBook (new_book symbol)
new_book-IsBook symbol = record {
  bids_valid = record { sorted = tt; keyed = λ p. refl; queues = λ p q e. cc };
  asks_valid = record { sorted = tt; keyed = λ p. refl; queues = λ p q e. cc };
  live = λ id e m. cc;
  uncrossed = λ p r x y. cc;
}

-- All books of the worker are well formed.
abbrev pub AreBooks : Map OrderBook → Type 0
AreBooks books = (s : ℕ) (b : OrderBook) → books s ≡ some b → IsBook b

get_book-IsBook : (s : ℕ) (books : Map OrderBook) → AreBooks books → IsBook (get_book s books)
get_book-IsBook s books v = elim (Option-cases (books s)) [
  | inl missing ↦ rw (missing, get_book) (new_book-IsBook s)
  | inr (b, known) ↦ rw (known, get_book) (v s b known)
]

serve-IsBook : (r : Request) (b : OrderBook) → IsBook b → IsBook (serve r b).0
serve-IsBook (add_request s order) b v = add_order-IsBook order b v
serve-IsBook (cancel_request s id) b v = cancel_order-IsBook id b v
serve-IsBook (depth_request s) b v = v
serve-IsBook (other_request s) b v = v

on_symbol-AreBooks :
    (o : Option ℕ) (r : Request) (books : Map OrderBook)
    → AreBooks books
    → AreBooks (on_symbol o r books).0
on_symbol-AreBooks none r books v k b e = v k b e
on_symbol-AreBooks (some s) r books v k b e =
    ground (arith, v k b, serve-IsBook r (get_book s books) (get_book-IsBook s books v))

-- The books after any list of messages to a worker.
unfoldable pub run : List Request → Map OrderBook → Map OrderBook
run [] books = books
run (r ∷ rs) books = run rs (on_message r books).0

pub run-AreBooks :
    (rs : List Request) (books : Map OrderBook) → AreBooks books → AreBooks (run rs books)
unfolding run on_message
run-AreBooks [] books v = v
run-AreBooks (r ∷ rs) books v =
    run-AreBooks rs (on_message r books).0 (on_symbol-AreBooks (symbol_of r) r books v)

-- A worker starts with no books. After any messages, every book that it holds is well formed: its
-- price arrays are strictly sorted and list the levels that there are, each level is a nonempty queue
-- of orders of its price and side with a positive quantity, whose sum is the queue's volume, every
-- entry of the order map leads to its order, and the best bid is below the best ask.
pub worker-AreBooks : (rs : List Request) → AreBooks (run rs empty)
worker-AreBooks rs = run-AreBooks rs empty (λ s b e. cc)
