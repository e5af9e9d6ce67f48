-- ===== src/Aru/Signals.antt =====
-- What the signals of `processCandle` in backend/src/services/aruAlgo.ts say of one another and of the
-- closes, and how the trailing stop moves.
use aether_x.Prelude.{
  ℕ, ◌≡◌, refl, List, [], ◌∷◌, length, Option, some, Bool, true, false, ◌&&◌, Bool-cases, inl, inr,
  arith,
}
use aether_x.Matching.Queue.{Side, buy, sell}
use aether_x.Aru.Numbers.{Numbers, IsOrder}
use aether_x.Aru.Algo.{Candle, Params, AruAlgo, Readings, ready, push_candle}
use aether_x.Aru.Process.{
  next_stop, was_cross_over, confirmed, evaluate, process_pushed, process_candle,
}

module _ {N : Type 0} (num : Numbers N) (order : IsOrder num) where
  -- The signals of one candle.
  pub record AreConsistent (r : Readings N) : Type 0 where
    pub buy_crosses : r.buy_cond && r.simple_buy_cond ≡ r.buy_cond
    pub sell_crosses : r.sell_cond && r.simple_sell_cond ≡ r.sell_cond
    pub one_side : r.simple_buy_cond && r.simple_sell_cond ≡ false
    pub buy_above : r.simple_buy_cond && num.lt r.smoothed_atr_stop r.close ≡ r.simple_buy_cond
    pub sell_below : r.simple_sell_cond && num.lt r.close r.smoothed_atr_stop ≡ r.simple_sell_cond

  confirmed-crosses :
      (beyond crosses trend rsi strong : Bool)
      → confirmed beyond crosses trend rsi strong && crosses
        ≡ confirmed beyond crosses trend rsi strong
  unfolding confirmed
  confirmed-crosses beyond true trend rsi strong = ground arith
  confirmed-crosses beyond false trend rsi strong = ground arith

  confirmed-false :
      (beyond trend rsi strong : Bool) → confirmed beyond false trend rsi strong ≡ false
  unfolding confirmed
  confirmed-false true trend rsi strong = refl
  confirmed-false false trend rsi strong = refl

  crossing-lt :
      (prev : N) (last : Option N) (x y : N)
      → was_cross_over num prev last x y && num.lt y x ≡ was_cross_over num prev last x y
  crossing-lt prev last x y = elim (Bool-cases (num.lt y x)) [
    | inl above ↦ rw above (ground arith)
    | inr not_above ↦ rw not_above (ground arith)
  ]

  crossing_once :
      (prev : N) (last : Option N) (x y : N)
      → was_cross_over num prev last x y && was_cross_over num prev last y x ≡ false
  crossing_once prev last x y = elim (Bool-cases (num.lt y x)) [
    | inl above ↦ rw above (rw (order.lt_asym y x above) (ground arith))
    | inr not_above ↦ rw not_above (ground arith)
  ]

  evaluate-AreConsistent :
      (p : Params N) (n : ℕ) (c b : Candle N) (a : AruAlgo N)
      → AreConsistent (evaluate num p n c b a).0
  unfolding evaluate
  evaluate-AreConsistent p n c b a =
      let stop = (evaluate num p n c b a).0.smoothed_atr_stop in
      record {
        buy_crosses = confirmed-crosses _ _ _ _ _;
        sell_crosses = confirmed-crosses _ _ _ _ _;
        one_side = crossing_once b.close a.last_smoothed c.close stop;
        buy_above = crossing-lt b.close a.last_smoothed c.close stop;
        sell_below = crossing-lt b.close a.last_smoothed stop c.close;
      }

  -- Under a linear order the readings of any candle are consistent: a primary signal is a simple one
  -- too, there is no buy with a sell, a buy is above the smoothed stop and a sell below it.
  pub process_candle-AreConsistent :
      (p : Params N) (c : Candle N) (a : AruAlgo N) (r : Readings N)
      → (process_candle num p c a).0 ≡ ready r
      → AreConsistent r
  unfolding process_candle
  process_candle-AreConsistent p c a r e =
      go (push_candle p c a.candles) (record a { candles = push_candle p c a.candles }) e
    where
      ready_is : {x y : Readings N} → ready x ≡ ready y → x ≡ y
      ready_is h = cc

      go :
          (w : List (Candle N)) (a' : AruAlgo N)
          → (process_pushed num p w a').0 ≡ ready r
          → AreConsistent r
      go [] a' h = cc
      go (d ∷ []) a' h = cc
      go (d ∷ b ∷ cs) a' h =
          rw⁻¹ (ready_is h) (evaluate-AreConsistent p (length (d ∷ b ∷ cs)) d b a')

  -- The stop has not moved away from the price that it follows.
  abbrev pub holds : Side → N → N → Bool
  holds buy stop price = num.lt stop price
  holds sell stop price = num.lt price stop

  abbrev pub not_worse : Side → N → N → Bool
  not_worse buy old new = num.le old new
  not_worse sell old new = num.le new old

  next_stop-ratchets :
      (side : Side) (src prev_src stop n_loss : N)
      → holds side stop src ≡ true
      → holds side stop prev_src ≡ true
      → not_worse side stop (next_stop num src prev_src stop n_loss) ≡ true
  next_stop-ratchets buy src prev_src stop n_loss h k =
      rw h (rw k (order.le_max_left stop (num.sub src n_loss)))
  next_stop-ratchets sell src prev_src stop n_loss h k =
      rw (order.lt_asym src stop h) (rw h (rw k (order.min_le_left stop (num.add src n_loss))))

  -- No trailing stop gives way: when two closes in a row are on one side of the stop, the stop that
  -- `evaluate` leaves is no further from that side.
  stop-ratchets :
      (side : Side) (p : Params N) (n : ℕ) (c b : Candle N) (a : AruAlgo N) (stop : N)
      → a.atr_stop_prev ≡ some stop
      → holds side stop c.close ≡ true
      → holds side stop b.close ≡ true
      → (stop' : N) × ((evaluate num p n c b a).1.atr_stop_prev ≡ some stop')
        × (not_worse side stop stop' ≡ true)
  unfolding evaluate
  stop-ratchets side p n c b a stop e h k =
      (_, refl, rw e (next_stop-ratchets side c.close b.close stop _ h k))

  -- When the close before was above the smoothed stop of then, neither sell signal is raised, however
  -- far the new close is below the stop.
  no_sell_from_above :
      (p : Params N) (n : ℕ) (c b : Candle N) (a : AruAlgo N) (stop : N)
      → a.last_smoothed ≡ some stop
      → num.lt stop b.close ≡ true
      → ((evaluate num p n c b a).0.simple_sell_cond ≡ false)
        × ((evaluate num p n c b a).0.sell_cond ≡ false)
  unfolding evaluate
  no_sell_from_above p n c b a stop e h =
      let f = order.lt-le stop b.close h in
      (rw e (rw f refl), rw e (rw f (confirmed-false _ _ _ _)))
