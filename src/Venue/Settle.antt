-- ===== src/Venue/Settle.antt =====
-- A venue that is left alone: what waits for the matching engine, the worker and its reports is
-- handled, and then nothing waits.
use mathlib.Core.Path.{subst}
use aether_x.Prelude.{
  Option, none, ℕ, zero, suc, ◌≡◌, refl, sym, ap, ◌∙◌, List, [], ◌∷◌, ◌++◌, append_nil,
  append_assoc, length, length-append, Bool, empty, insert, some, arith, inl, inr,
}
use aether_x.Prelude.Text.{Text}
use aether_x.Matching.Book.{Trade, Message, trade_executed, depth_update}
use aether_x.Matching.Match.{Request, on_message}
use aether_x.Matching.Worker.{run}
use aether_x.Events.Store.{DomainEvent, row_of}
use aether_x.Events.Log.{Log, IsLogged, emit}
use aether_x.Oms.Engine.{OrderRow, Oms}
use aether_x.Oms.Intents.{Payload}
use aether_x.Orders.Wiring.{post_to_worker, on_worker_message, trade_event}
use aether_x.Bus.Stream.{resolve}
use aether_x.Venue.System.{
  Consumer, Venue, boot, Action, engine_read, post, work, report, read_at, next_event, advance,
  posts, requests_of, act, act_all, started, start_of,
}
use aether_x.Venue.Grows.{emit-cases}
use aether_x.Venue.Replay.{
  get_elem?-next, length-eq-zero, Stands-reading, IsReplayed, act-IsReplayed, act_all-boot,
}

abbrev times : ℕ → Action → List Action → List Action
times zero a rest = rest
times (suc n) a rest = a ∷ times n a rest

-- A read and the turns of the matching engine, the worker, its reports, and the matching engine again.
abbrev pub rounds : ℕ → ℕ → ℕ → ℕ → List Action
rounds posts works reports again =
    engine_read ∷ times posts post (times works work (times reports report (times again post [])))

-- Nothing waits, and the books are what a new worker makes of all events behind the first `start`.
pub record IsSettled (id_number : Text → ℕ) (start : ℕ) (v : Venue) : Type 0 where
  pub inbox : v.inbox ≡ []
  pub outbox : v.outbox ≡ []
  pub first : List (DomainEvent Payload)
  pub events : List (DomainEvent Payload)
  pub begins : length first ≡ start
  pub split : v.oms.log.store.rows ≡ first ++ events
  pub books : v.books ≡ run (requests_of id_number events) empty

-- An append of a trade brings no request.
emitted :
    (id_number : Text → ℕ) (t : Trade) (id_text : ℕ → Text) (l : Log Payload)
    (es : List (DomainEvent Payload))
    → requests_of id_number es ≡ []
    → (fs : List (DomainEvent Payload)) × ((emit (trade_event id_text t) l).published ++ es
        ≡ l.published ++ fs)
      × (requests_of id_number fs ≡ [])
emitted id_number t id_text l es h = elim (emit-cases (trade_event id_text t) l) [
  | inl kept ↦ (es, ap (λ xs. xs ++ es) kept, h)
  | inr (n, grown) ↦ (
    row_of (trade_event id_text t) n ∷ es,
    ap (λ xs. xs ++ es) grown ∙ append_assoc l.published (row_of (trade_event id_text t) n ∷ []) es,
    unfold post_to_worker in h,
  )
]

module _ (fits : OrderRow → Bool) (id_number : Text → ℕ) (id_text : ℕ → Text) where
  post_all :
      (later seen : List (DomainEvent Payload)) (v : Venue)
      → v.oms.log.published ≡ seen ++ later
      → v.engine.reading ≡ some (length seen)
      → let w = act_all fits id_number id_text (times (length later) post []) v in
        (w.engine.reading ≡ some (length (seen ++ later)))
        × (w.oms ≡ v.oms)
        × (w.outbox ≡ v.outbox)
        × (w.inbox ≡ v.inbox ++ requests_of id_number later)
  unfolding act
  post_all [] seen v e p = (
    p ∙ ap (λ xs. some (length xs)) (sym (append_nil seen)),
    refl,
    refl,
    sym (append_nil v.inbox),
  )
  post_all (f ∷ fs) seen v e p =
      let next : next_event v.engine.reading v.oms.log.published ≡ some (length seen, f) =
        rw (p, e, get_elem?-next seen fs f) refl in
      let v' : Venue = record v {
        inbox = v.inbox ++ posts id_number (post_to_worker f);
        engine = advance (length seen);
      } in
      let (place, same, out, more) =
        post_all fs (seen ++ f ∷ []) v' (e ∙ sym (append_assoc seen (f ∷ []) fs))
          (ap some (omega (arith, length-append seen (f ∷ [])))) in
      rw (next, act_all)
        (
          place ∙ ap (λ xs. some (length xs)) (append_assoc seen (f ∷ []) fs),
          same,
          out,
          more ∙ append_assoc v.inbox (posts id_number (post_to_worker f)) _,
        )

  work_all :
      (rs : List Request) (v : Venue)
      → v.inbox ≡ rs
      → let w = act_all fits id_number id_text (times (length rs) work []) v in
        (w.inbox ≡ []) × (w.oms ≡ v.oms) × (w.engine ≡ v.engine)
  unfolding act
  work_all [] v e = (e, refl, refl)
  work_all (r ∷ rs) v e = rw e (
      work_all rs
        (record v {
          inbox = rs;
          books = (on_message r v.books).0;
          outbox = v.outbox ++ (on_message r v.books).1;
        })
        refl)

  report_all :
      (ms : List Message) (v : Venue)
      → v.outbox ≡ ms
      → let w = act_all fits id_number id_text (times (length ms) report []) v in
        (w.outbox ≡ [])
        × (w.inbox ≡ v.inbox)
        × (w.engine ≡ v.engine)
        × (es : List (DomainEvent Payload)) × (w.oms.log.published ≡ v.oms.log.published ++ es)
        × (requests_of id_number es ≡ [])
  unfolding act on_worker_message
  report_all [] v e = (e, refl, refl, [], sym (append_nil _), refl)
  report_all (trade_executed t ∷ ms) v e =
      let p = trade_event id_text t in
      let v' : Venue = record v { oms = record v.oms { log = emit p v.oms.log }; outbox = ms } in
      let (out, same, place, es, more, none_new) = report_all ms v' refl in
      let (fs, grown, no_request) = emitted id_number t id_text v.oms.log es none_new in
      rw e (out, same, place, fs, more ∙ grown, no_request)
  report_all (depth_update s bids asks ∷ ms) v e = rw e (
      report_all ms
        (record v { order_book_cache = insert s (bids, asks) v.order_book_cache; outbox = ms })
        refl)

  act_all-times :
      (n : ℕ) (a : Action) (rest : List Action) (v : Venue)
      → act_all fits id_number id_text (times n a rest) v
        ≡ act_all fits id_number id_text rest (act_all fits id_number id_text (times n a []) v)
  act_all-times zero a rest v = refl
  act_all-times (suc n) a rest v = act_all-times n a rest (act fits id_number id_text a v)

  -- Turns that begin no read keep the start.
  times-IsReplayed :
      (n : ℕ) (a : Action) (start : ℕ) (v : Venue)
      → ((w : Venue) → started fits id_number id_text a w start ≡ start)
      → IsReplayed id_number start v
      → IsReplayed id_number start (act_all fits id_number id_text (times n a []) v)
  times-IsReplayed zero a start v same h = h
  times-IsReplayed (suc n) a start v same h =
      times-IsReplayed n a start (act fits id_number id_text a v) same (
        subst (λ m. IsReplayed id_number m (act fits id_number id_text a v)) (same v)
          (act-IsReplayed fits id_number id_text a start v h))

  -- A state in which nothing waits.
  settled :
      (start : ℕ) (v : Venue)
      → IsReplayed id_number start v
      → v.inbox ≡ []
      → v.outbox ≡ []
      → v.engine.reading ≡ some (length v.oms.log.published)
      → IsSettled id_number start v
  settled start v h none_in none_out at_end = record {
    inbox = none_in;
    outbox = none_out;
    first = h.first;
    events = h.handled;
    begins = h.begins;
    split =
        h.split
        ∙ ap (λ xs. (h.first ++ h.handled) ++ xs)
            (length-eq-zero h.later (
              omega (
                arith,
                Stands-reading start (length h.handled) _ _ _ h.stands at_end,
                h.begins,
                ap length (h.logged.logged ∙ h.split),
                length-append (h.first ++ h.handled) h.later,
                length-append h.first h.handled,
              )))
        ∙ append_nil (h.first ++ h.handled);
    books = unfold run in sym (ap (λ rs. run rs v.books) none_in) ∙ h.books;
  }

  -- From a state in which the matching engine reads, the turns lead to one in which nothing waits.
  settles :
      (start k : ℕ) (v : Venue)
      → IsReplayed id_number start v
      → v.engine.reading ≡ some k
      → (n m l i : ℕ) × IsSettled id_number start (
          act_all fits id_number id_text
            (times n post (times m work (times l report (times i post []))))
            v)
  settles start k v h reads =
      let go : (n : ℕ) (a : Action) (w : Venue) → Venue =
        λ n a w. act_all fits id_number id_text (times n a []) w in
      let seen = h.first ++ h.handled in
      let n = length h.later in
      let v1 = go n post v in
      let m = length v1.inbox in
      let v2 = go m work v1 in
      let l = length v2.outbox in
      let v3 = go l report v2 in
      let place : k ≡ length seen = omega (
        arith,
        Stands-reading start (length h.handled) k _ _ h.stands reads,
        h.begins,
        length-append h.first h.handled,
      ) in
      let (place1, same1, out1, more1) =
        post_all h.later seen v (h.logged.logged ∙ h.split) (reads ∙ ap some place) in
      let (in2, same2, place2) = work_all v1.inbox v1 refl in
      let (out3, in3, place3, es, grown, none_new) = report_all v2.outbox v2 refl in
      let i = length es in
      let v4 = go i post v3 in
      let (place4, same4, out4, more4) = post_all es v2.oms.log.published v3 grown (
        ap (λ (c : Consumer). c.reading) (place3 ∙ place2)
        ∙ place1
        ∙ sym (
            ap (λ (o : Oms). some (length o.log.published)) (same2 ∙ same1)
            ∙ ap (λ xs. some (length xs)) (h.logged.logged ∙ h.split))) in
      let path : act_all fits id_number id_text
            (times n post (times m work (times l report (times i post [])))) v
          ≡ v4 =
        act_all-times n post _ v ∙ act_all-times m work _ v1 ∙ act_all-times l report _ v2 in
      let kept : IsReplayed id_number start v4 =
        times-IsReplayed i post start v3 (λ w. refl)
          (times-IsReplayed l report start v2 (λ w. refl)
            (times-IsReplayed m work start v1 (λ w. refl)
              (times-IsReplayed n post start v (λ w. refl) h))) in
      (
        n,
        m,
        l,
        i,
        rw path (
            settled start v4 kept
              (more4 ∙ ap (λ rs. rs ++ requests_of id_number es) (in3 ∙ in2) ∙ none_new)
              (out4 ∙ out3)
              (place4
                ∙ sym (
                    ap (λ xs. some (length xs))
                      (ap (λ (o : Oms). o.log.published) same4 ∙ grown)))),
      )

  read_at-some : (r : Option ℕ) (n : ℕ) → (k : ℕ) × (read_at r n ≡ some k)
  read_at-some none n = (n, refl)
  read_at-some (some k) n = (k, refl)

  -- After any actions of a venue whose stream is the event store, a read of the matching engine and
  -- then some turns of it, of the worker, of the handler of its messages and of the matching engine
  -- again lead to a state in which nothing waits, and the books of the worker are those that a new
  -- worker makes of the requests of all events that were stored since the matching engine's last read
  -- from `$` began.
  pub settles_after :
      (o : Oms) (actions : List Action)
      → IsLogged o.log
      → let v = act_all fits id_number id_text actions (boot o) in
        let start =
          started fits id_number id_text engine_read v
            (start_of fits id_number id_text actions (boot o) (length o.log.published)) in
        (posts works reports again : ℕ) × IsSettled id_number start
          (act_all fits id_number id_text (rounds posts works reports again) v)
  settles_after o actions h =
      let v = act_all fits id_number id_text actions (boot o) in
      let (k, reads) =
        read_at-some v.engine.reading (resolve v.engine.last_seen_id v.oms.log.published) in
      settles _ k (act fits id_number id_text engine_read v)
        (act-IsReplayed fits id_number id_text engine_read _ v
          (act_all-boot fits id_number id_text o actions h))
        (unfold act in reads)
