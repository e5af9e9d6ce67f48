-- ===== src/Venue/Replay.antt =====
-- The books of the venue and its event log: what the worker has, and will have, is what a new worker
-- makes of the events that the matching engine has handled.
use mathlib.Core.Path.{subst}
use aether_x.Prelude.{
  ℕ, suc, ◌+◌, ◌≡◌, refl, sym, ap, ◌∙◌, List, [], ◌∷◌, ◌++◌, append_nil, append_assoc, length,
  length-append, Option, none, some, Bool, Map, empty, insert, arith,
}
use aether_x.Prelude.Text.{Text}
use aether_x.Bus.Stream.{Cursor, tail, seen_to}
use aether_x.Matching.Book.{OrderBook, Level, Message, trade_executed, depth_update}
use aether_x.Matching.Match.{Request, on_message}
use aether_x.Matching.Worker.{AreBooks, run, run-AreBooks}
use aether_x.Events.Store.{DomainEvent}
use aether_x.Events.Log.{Log, emit, IsLogged, emit-IsLogged}
use aether_x.Oms.Engine.{OrderRow, Oms, project_event}
use aether_x.Oms.Intents.{Payload, process_cancel}
use aether_x.Oms.Once.{intent, cancel_intent, event, deliver-IsLogged}
use aether_x.Orders.Wiring.{post_to_worker, on_worker_message, trade_event}
use aether_x.Venue.System.{
  Consumer, Venue, boot, Action, intend, cancel, add_event, projection_read, projection_timeout,
  project, engine_read, engine_timeout, post, work, report, get_elem?, begin_reading, end_reading,
  next_event, advance, posts, requests_of, project_next, post_next, work_next, report_next, act,
  act_all, start_from, started, start_of,
}
use aether_x.Venue.Grows.{Grows, Grows-refl, emit-Grows, process_intent-Grows, project_event-Grows}

get_elem?-end : {A : Type 0} (xs : List A) → get_elem? (xs ++ []) (length xs) ≡ none
get_elem?-end [] = refl
get_elem?-end (x ∷ xs) = get_elem?-end xs

pub get_elem?-next :
    {A : Type 0} (xs ys : List A) (y : A) → get_elem? (xs ++ y ∷ ys) (length xs) ≡ some y
get_elem?-next [] ys y = refl
get_elem?-next (x ∷ xs) ys y = get_elem?-next xs ys y

pub length-eq-zero : {A : Type 0} (xs : List A) → length xs ≡ 0 → xs ≡ []
length-eq-zero [] e = refl
length-eq-zero (x ∷ xs) e = absurd (omega (arith, e))

some_injective : (j k : ℕ) → some j ≡ some k → j ≡ k
some_injective j k e = cc

run-++ :
    (rs ss : List Request) (books : Map OrderBook) → run (rs ++ ss) books ≡ run ss (run rs books)
unfolding run
run-++ [] ss books = refl
run-++ (r ∷ rs) ss books = run-++ rs ss (on_message r books).0

-- A loop that began behind `start` events and has handled `n`: its cursor is `$` or behind them, and so
-- is its read, if it is in one.
abbrev pub Stands : ℕ → ℕ → Cursor → Option ℕ → Type 0
Stands start n tail none = n ≡ 0
Stands start n tail (some k) = (n ≡ 0) × (k ≡ start)
Stands start n (seen_to m) none = m ≡ start + n
Stands start n (seen_to m) (some k) = (m ≡ start + n) × (k ≡ start + n)

pub Stands-reading :
    (start n k : ℕ) (c : Cursor) (r : Option ℕ) → Stands start n c r → r ≡ some k → k ≡ start + n
Stands-reading start n k tail none h e = cc
Stands-reading start n k tail (some j) h e = omega (arith, h, some_injective j k e)
Stands-reading start n k (seen_to m) none h e = cc
Stands-reading start n k (seen_to m) (some j) h e = omega (arith, h, some_injective j k e)

end-Stands : (start n : ℕ) (c : Cursor) (r : Option ℕ) → Stands start n c r → Stands start n c none
end-Stands start n tail none h = h
end-Stands start n tail (some k) h = h.0
end-Stands start n (seen_to m) none h = h
end-Stands start n (seen_to m) (some k) h = h.0

module _ (id_number : Text → ℕ) where
  requests_of-++ :
      (es fs : List (DomainEvent Payload))
      → requests_of id_number (es ++ fs) ≡ requests_of id_number es ++ requests_of id_number fs
  requests_of-++ [] fs = refl
  requests_of-++ (e ∷ es) fs =
      ap (λ rs. posts id_number (post_to_worker e) ++ rs) (requests_of-++ es fs)
      ∙ sym (append_assoc (posts id_number (post_to_worker e)) _ _)

  -- The matching engine has handled the events of the event store behind the first `start`, in order and
  -- up to its cursor; the books after what is in the inbox are those of a new worker that gets the
  -- requests of these events; the stream is the event store; and all books are well formed.
  pub record IsReplayed (start : ℕ) (v : Venue) : Type 0 where
    pub first : List (DomainEvent Payload)
    pub handled : List (DomainEvent Payload)
    pub later : List (DomainEvent Payload)
    pub begins : length first ≡ start
    pub split : v.oms.log.store.rows ≡ (first ++ handled) ++ later
    pub stands : Stands start (length handled) v.engine.last_seen_id v.engine.reading
    pub books : run v.inbox v.books ≡ run (requests_of id_number handled) empty
    pub logged : IsLogged v.oms.log
    pub valid : AreBooks v.books

module _ (fits : OrderRow → Bool) (id_number : Text → ℕ) (id_text : ℕ → Text) where
  -- A handler that only appends to the log, whatever it does with the cache, the projection's place
  -- and the outbox.
  grow :
      (start : ℕ) (o : Oms) (cache : Map (List Level × List Level)) (c : Consumer)
      (out : List Message) (v : Venue)
      → Grows v.oms.log o.log
      → IsLogged o.log
      → IsReplayed id_number start v
      → IsReplayed id_number start
          (record v { oms = o; order_book_cache = cache; projection = c; outbox = out })
  grow start o cache c out v (es, more) logged h = record {
    first = h.first;
    handled = h.handled;
    later = h.later ++ es;
    begins = h.begins;
    split =
        sym logged.logged
        ∙ more
        ∙ ap (λ xs. xs ++ es) (h.logged.logged ∙ h.split)
        ∙ append_assoc (h.first ++ h.handled) h.later es;
    stands = h.stands;
    books = h.books;
    logged = logged;
    valid = h.valid;
  }

  project_next-IsReplayed :
      (start : ℕ) (e : Option (ℕ × DomainEvent Payload)) (v : Venue)
      → IsReplayed id_number start v
      → IsReplayed id_number start (project_next fits id_number id_text e v)
  project_next-IsReplayed start none v h = h
  project_next-IsReplayed start (some (n, e)) v h =
      grow start (project_event fits e v.oms) v.order_book_cache (advance n) v.outbox v
        (project_event-Grows fits e v.oms) (deliver-IsLogged fits (event e) v.oms h.logged) h

  -- What the matching engine takes stands behind what it has handled.
  post_at :
      (start k : ℕ) (later : List (DomainEvent Payload)) (v : Venue)
      (h : IsReplayed id_number start v)
      → k ≡ length (h.first ++ h.handled)
      → h.later ≡ later
      → IsReplayed id_number start
          (post_next fits id_number id_text (next_event (some k) v.oms.log.published) v)
  post_at start k [] v h p e =
      let missing : get_elem? v.oms.log.published k ≡ none =
        rw (h.logged.logged, h.split, p)
          (ap (λ xs. get_elem? ((h.first ++ h.handled) ++ xs) (length (h.first ++ h.handled))) e
            ∙ get_elem?-end (h.first ++ h.handled)) in
      rw missing h
  post_at start k (f ∷ fs) v h p e =
      let found : get_elem? v.oms.log.published k ≡ some f =
        rw (h.logged.logged, h.split, p)
          (ap (λ xs. get_elem? ((h.first ++ h.handled) ++ xs) (length (h.first ++ h.handled))) e
            ∙ get_elem?-next (h.first ++ h.handled) fs f) in
      let place : suc k ≡ start + length (h.handled ++ f ∷ []) =
        omega
          (arith, p, h.begins, length-append h.first h.handled, length-append h.handled (f ∷ [])) in
      rw found (record {
        first = h.first;
        handled = h.handled ++ f ∷ [];
        later = fs;
        begins = h.begins;
        split =
            h.split
            ∙ ap (λ xs. (h.first ++ h.handled) ++ xs) e
            ∙ sym (append_assoc (h.first ++ h.handled) (f ∷ []) fs)
            ∙ ap (λ xs. xs ++ fs) (append_assoc h.first h.handled (f ∷ []));
        stands = (place, place);
        books =
            run-++ v.inbox (posts id_number (post_to_worker f)) v.books
            ∙ ap (run (posts id_number (post_to_worker f))) h.books
            ∙ sym (
                run-++ (requests_of id_number h.handled) (posts id_number (post_to_worker f)) empty)
            ∙ ap (λ rs. run rs empty)
                (ap (λ rs. requests_of id_number h.handled ++ rs)
                    (sym (append_nil (posts id_number (post_to_worker f))))
                  ∙ sym (requests_of-++ id_number h.handled (f ∷ [])));
        logged = h.logged;
        valid = h.valid;
      })

  post_next-IsReplayed :
      (start : ℕ) (r : Option ℕ) (v : Venue)
      → v.engine.reading ≡ r
      → IsReplayed id_number start v
      → IsReplayed id_number start
          (post_next fits id_number id_text (next_event r v.oms.log.published) v)
  post_next-IsReplayed start none v e h = h
  post_next-IsReplayed start (some k) v e h =
      post_at start k h.later v h
        (omega (
          arith,
          Stands-reading start (length h.handled) k _ _ h.stands e,
          h.begins,
          length-append h.first h.handled,
        ))
        refl

  work_next-IsReplayed :
      (start : ℕ) (rs : List Request) (v : Venue)
      → v.inbox ≡ rs
      → IsReplayed id_number start v
      → IsReplayed id_number start (work_next fits id_number id_text rs v)
  work_next-IsReplayed start [] v e h = h
  work_next-IsReplayed start (r ∷ rs) v e h = record {
    first = h.first;
    handled = h.handled;
    later = h.later;
    begins = h.begins;
    split = h.split;
    stands = h.stands;
    books = unfold run in (sym (ap (λ xs. run xs v.books) e) ∙ h.books);
    logged = h.logged;
    valid = unfold run in (run-AreBooks (r ∷ []) v.books h.valid);
  }

  report_next-IsReplayed :
      (start : ℕ) (ms : List Message) (v : Venue)
      → IsReplayed id_number start v
      → IsReplayed id_number start (report_next fits id_number id_text ms v)
  report_next-IsReplayed start [] v h = h
  report_next-IsReplayed start (trade_executed t ∷ ms) v h =
      let p = trade_event id_text t in
      unfold on_worker_message in
      (grow start (record v.oms { log = emit p v.oms.log }) v.order_book_cache v.projection ms v
        (emit-Grows p v.oms.log) (emit-IsLogged p v.oms.log h.logged) h)
  report_next-IsReplayed start (depth_update s bids asks ∷ ms) v h =
      unfold on_worker_message in
      (grow start v.oms (insert s (bids, asks) v.order_book_cache) v.projection ms v
        (Grows-refl v.oms.log) h.logged h)

  append-IsReplayed :
      (start : ℕ) (l : Log Payload) (v : Venue)
      → Grows v.oms.log l
      → IsLogged l
      → IsReplayed id_number start v
      → IsReplayed id_number start (record v { oms = record v.oms { log = l } })
  append-IsReplayed start l v =
      grow start (record v.oms { log = l }) v.order_book_cache v.projection v.outbox v

  -- The loop moves to a place that is as good.
  moved :
      (start : ℕ) (v : Venue) (d : Consumer) (h : IsReplayed id_number start v)
      → Stands start (length h.handled) d.last_seen_id d.reading
      → IsReplayed id_number start (record v { engine = d })
  moved start v d h stands = record {
    first = h.first;
    handled = h.handled;
    later = h.later;
    begins = h.begins;
    split = h.split;
    stands = stands;
    books = h.books;
    logged = h.logged;
    valid = h.valid;
  }

  -- A read, by where the loop is. From `$`, all that is stored is passed over.
  engine_read-IsReplayed :
      (start : ℕ) (c : Cursor) (r : Option ℕ) (v : Venue)
      → v.engine ≡ record { last_seen_id = c; reading = r }
      → IsReplayed id_number start v
      → IsReplayed id_number (start_from c r (length v.oms.log.published) start) (record v {
        engine = begin_reading v.oms.log.published (record { last_seen_id = c; reading = r });
      })
  engine_read-IsReplayed start tail none v e h =
      let empty_yet : length h.handled ≡ 0 =
        subst (λ (d : Consumer). Stands start (length h.handled) d.last_seen_id d.reading) e
          h.stands in
      record {
        first = v.oms.log.store.rows;
        handled = [];
        later = [];
        begins = ap length (sym h.logged.logged);
        split = sym (append_nil (v.oms.log.store.rows ++ []) ∙ append_nil v.oms.log.store.rows);
        stands = (refl, refl);
        books =
            h.books
            ∙ ap (λ es. run (requests_of id_number es) empty) (length-eq-zero h.handled empty_yet);
        logged = h.logged;
        valid = h.valid;
      }
  engine_read-IsReplayed start tail (some k) v e h = moved start v _ h (
      subst (λ (d : Consumer). Stands start (length h.handled) d.last_seen_id d.reading) e h.stands)
  engine_read-IsReplayed start (seen_to m) none v e h =
      let at : m ≡ start + length h.handled =
        subst (λ (d : Consumer). Stands start (length h.handled) d.last_seen_id d.reading) e
          h.stands in
      moved start v _ h (at, at)
  engine_read-IsReplayed start (seen_to m) (some k) v e h = moved start v _ h (
      subst (λ (d : Consumer). Stands start (length h.handled) d.last_seen_id d.reading) e h.stands)

  pub act-IsReplayed :
      (a : Action) (start : ℕ) (v : Venue)
      → IsReplayed id_number start v
      → IsReplayed id_number
          (started fits id_number id_text a v start)
          (act fits id_number id_text a v)
  act-IsReplayed post start v h = unfold act in post_next-IsReplayed start v.engine.reading v refl h
  act-IsReplayed engine_read start v h =
      unfold act in engine_read-IsReplayed start v.engine.last_seen_id v.engine.reading v refl h
  act-IsReplayed engine_timeout start v h =
      unfold act in
      moved start v (end_reading v.engine) h (end-Stands start (length h.handled) _ _ h.stands)
  act-IsReplayed projection_read start v h =
      unfold act in
      grow start v.oms v.order_book_cache _ v.outbox v (Grows-refl v.oms.log) h.logged h
  act-IsReplayed projection_timeout start v h =
      unfold act in
      grow start v.oms v.order_book_cache _ v.outbox v (Grows-refl v.oms.log) h.logged h
  act-IsReplayed project start v h = unfold act in project_next-IsReplayed start _ v h
  act-IsReplayed work start v h = unfold act in work_next-IsReplayed start v.inbox v refl h
  act-IsReplayed report start v h = unfold act in report_next-IsReplayed start v.outbox v h
  act-IsReplayed (add_event p) start v h =
      unfold act in
      append-IsReplayed start (emit p v.oms.log) v (emit-Grows p v.oms.log)
        (emit-IsLogged p v.oms.log h.logged) h
  act-IsReplayed (intend passes i) start v h =
      unfold act in
      append-IsReplayed start _ v (process_intent-Grows passes i v.oms.log)
        (deliver-IsLogged fits (intent passes i) v.oms h.logged) h
  act-IsReplayed (cancel id user symbol) start v h =
      unfold act in
      append-IsReplayed start _ v (unfold process_cancel in emit-Grows _ v.oms.log)
        (deliver-IsLogged fits (cancel_intent id user symbol) v.oms h.logged) h

  act_all-IsReplayed :
      (actions : List Action) (start : ℕ) (v : Venue)
      → IsReplayed id_number start v
      → IsReplayed id_number
          (start_of fits id_number id_text actions v start)
          (act_all fits id_number id_text actions v)
  act_all-IsReplayed [] start v h = h
  act_all-IsReplayed (a ∷ actions) start v h =
      act_all-IsReplayed actions _ _ (act-IsReplayed a start v h)

  boot-IsReplayed :
      (o : Oms) → IsLogged o.log → IsReplayed id_number (length o.log.published) (boot o)
  boot-IsReplayed o h = record {
    first = o.log.store.rows;
    handled = [];
    later = [];
    begins = ap length (sym h.logged);
    split = sym (append_nil (o.log.store.rows ++ []) ∙ append_nil o.log.store.rows);
    stands = refl;
    books = refl;
    logged = h;
    valid = λ s b e. cc;
  }

  -- From the start of a venue whose stream is the event store, after any actions in any order, reads
  -- that time out among them: the stream is still the event store; the matching engine has handled the
  -- events behind the place where its last read from `$` began, up to its cursor, in order and without
  -- a gap; the books of the worker, after what is in its inbox, are those that a new worker makes of
  -- the requests of these events; and all books are well formed.
  pub act_all-boot :
      (o : Oms) (actions : List Action)
      → IsLogged o.log
      → IsReplayed id_number
          (start_of fits id_number id_text actions (boot o) (length o.log.published))
          (act_all fits id_number id_text actions (boot o))
  act_all-boot o actions h =
      act_all-IsReplayed actions (length o.log.published) (boot o) (boot-IsReplayed o h)
