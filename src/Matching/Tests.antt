-- ===== src/Matching/Tests.antt =====
-- A book with two bids and two asks, run through the worker, and the headline theorems at it.
use aether_x.Prelude.{
  ℕ, ◌+◌, ◌≡◌, refl, ◌⊎◌, List, [], ◌∷◌, ◌++◌, map, none, some, true, false, All, empty, arith,
  take,
}
use aether_x.Matching.Queue.{buy, sell, OrderNode, OrderQueue, new_queue, push, shift, remove}
use aether_x.Matching.Book.{
  OrderBook, Entry, trade_executed, sort, insert_resting, broadcast_depth, cancel_order, depth,
}
use aether_x.Matching.Match.{
  Order, add_request, cancel_request, Request, match_queue, match_levels, match_order, add_order,
  on_message, get_book,
}
use aether_x.Matching.Invariant.{IsBook, IsQueue, lots, traded, has_price}
use aether_x.Matching.Worker.{AreBooks, run, worker-AreBooks}
use aether_x.Matching.Trades.{IsFair, IsPast, AreInOrder, offered, fifo, shares}
use aether_x.Matching.Orders.{
  sweep_of, add_order-posts, match_order-conserves, match_order-IsFair, match_order_complete,
  match_queue-fifo, depth-lots, orders_at,
}
use aether_x.Matching.Linked.{Store, new_linked, push_node, shift_node, remove_node}
use aether_x.Matching.Linked.Calls.{
  QueueCall, do_push, do_shift, do_remove, calls_node, calls_list, AreAllowed,
}
use aether_x.Matching.Linked.Refine.{IsLinked, calls-IsLinked}
use aether_x.Matching.Cancelled.{Cancels, cancel_order-Cancels}

abbrev requests : List Request
requests =
    add_request (some 7) (record { id = 1; user_id = 10; side = sell; price = 105; quantity = 4 })
    ∷ add_request (some 7) (record { id = 2; user_id = 11; side = sell; price = 101; quantity = 3 })
    ∷ add_request (some 7) (record { id = 3; user_id = 12; side = sell; price = 101; quantity = 2 })
    ∷ add_request (some 7) (record { id = 4; user_id = 13; side = buy; price = 99; quantity = 6 })
    ∷ add_request (some 7) (record { id = 5; user_id = 13; side = buy; price = 98; quantity = 1 })
    ∷ add_request none (record { id = 6; user_id = 13; side = buy; price = 98; quantity = 1 })
    ∷ cancel_request (some 7) 5
    ∷ []

worker-AreBooks_example : AreBooks (run requests empty)
worker-AreBooks_example = worker-AreBooks requests

abbrev book : OrderBook
book = get_book 7 (run requests empty)

book-IsBook : IsBook book
unfolding run on_message add_order match_order match_levels match_queue cancel_order insert_resting
    sort push remove broadcast_depth
book-IsBook = worker-AreBooks requests 7 book refl

-- It takes both orders at 101, oldest first, and then part of the one at 105.
abbrev taker : Order
taker = record { id = 9; user_id = 20; side = buy; price = 110; quantity = 7 }

taker_trades : shares (sweep_of taker book).trades ≡ (2, 3) ∷ (3, 2) ∷ (1, 2) ∷ []
unfolding run on_message add_order match_order match_levels match_queue cancel_order insert_resting
    sort push remove broadcast_depth shift
taker_trades = refl

add_order-posts_example :
    ((sweep_of taker book).fault ≡ false)
    × ((add_order taker book).1
        ≡ map trade_executed (sweep_of taker book).trades
          ++ broadcast_depth (add_order taker book).0)
add_order-posts_example = add_order-posts taker book book-IsBook

match_order-conserves_example :
    let w = sweep_of taker book in
    (7 ≡ w.quantity + traded w.trades)
    × (offered book.asks.levels book.asks.prices ≡ offered w.levels w.prices + traded w.trades)
match_order-conserves_example = match_order-conserves taker book book-IsBook

match_order-IsFair_example :
    let w = sweep_of taker book in
    All (IsFair buy 110 book.asks.prices) w.trades × AreInOrder sell w.trades
match_order-IsFair_example = match_order-IsFair taker book book-IsBook

match_order_complete_example :
    let w = sweep_of taker book in
    (w.quantity ≡ 0) ⊎ ((p : ℕ) → has_price p w.prices ≡ true → IsPast buy 110 p)
match_order_complete_example = match_order_complete taker book book-IsBook

abbrev makers : List OrderNode
makers =
    record { ref = 1; id = 2; user_id = 11; side = sell; price = 101; quantity = 3 }
    ∷ record { ref = 2; id = 3; user_id = 12; side = sell; price = 101; quantity = 2 }
    ∷ []

abbrev queue : OrderQueue
queue = record { nodes = makers; volume = 5 }

queue-IsQueue : IsQueue sell 101 3 queue
queue-IsQueue = ground arith

abbrev node : OrderNode
node = record { ref = 3; id = 9; user_id = 20; side = buy; price = 110; quantity = 4 }

match_queue-fifo_example :
    shares (match_queue 7 node buy 101 makers 4 5 empty).trades ≡ fifo 4 0 makers
match_queue-fifo_example = match_queue-fifo sell 101 3 7 node buy queue 4 empty queue-IsQueue

depth-lots_example :
    depth book.asks
    ≡ map
        (λ p. record { price = p; volume = lots (orders_at (book.asks.levels p)) })
        (take 20 book.asks.prices)
depth-lots_example = depth-lots sell book.next_ref book.asks book-IsBook.asks_valid

abbrev entry : Entry
entry = record { ref = 1; side = sell; price = 101 }

cancel_order-Cancels_example : Cancels sell 2 entry book (cancel_order 2 book).0
unfolding run on_message add_order match_order match_levels match_queue cancel_order insert_resting
    sort push remove broadcast_depth
cancel_order-Cancels_example = cancel_order-Cancels 2 entry book book-IsBook refl

-- Three nodes are pushed, the one in the middle is removed, and the first is shifted.
abbrev lot : ℕ → OrderNode
lot r = record { ref = r; id = r; user_id = 1; side = buy; price = 5; quantity = 2 }

abbrev queue_calls : List QueueCall
queue_calls = do_push (lot 1) ∷ do_push (lot 2) ∷ do_push (lot 3) ∷ do_remove 2 ∷ do_shift ∷ []

abbrev no_cells : Store
no_cells r = record { order = lot 0; prev = none; next = none }

queue_calls-AreAllowed : AreAllowed queue_calls new_queue
unfolding push remove shift
queue_calls-AreAllowed = (refl, (refl, (refl, (refl, (tt, tt)))))

no_nodes-IsLinked : IsLinked new_linked no_cells new_queue
no_nodes-IsLinked = record { chain = (refl, refl); distinct = tt; volume = refl }

calls-IsLinked_example :
    ((calls_node queue_calls new_linked no_cells).0 ≡ (calls_list queue_calls new_queue).0)
    × IsLinked
        (calls_node queue_calls new_linked no_cells).1
        (calls_node queue_calls new_linked no_cells).2
        (calls_list queue_calls new_queue).1
calls-IsLinked_example =
    calls-IsLinked queue_calls new_linked no_cells new_queue no_nodes-IsLinked
      queue_calls-AreAllowed

linked_calls : (calls_node queue_calls new_linked no_cells).1.head ≡ some 3
unfolding push_node remove_node shift_node
linked_calls = refl
