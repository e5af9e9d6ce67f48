-- ===== src/Triggers/Tests.antt =====
-- Witnesses for the triggers: two stops of one symbol and two take-profit orders, one of them without an id.
use aether_x.Prelude.{ℕ, ◌≡◌, refl, [], ◌++◌, Option, none, some}
use aether_x.Prelude.Text.{Text, codes}
use aether_x.Matching.Queue.{sell}
use aether_x.Events.Log.{Log}
use aether_x.Oms.Intents.{OrderType, stop, take_profit, Payload, no_payload}
use aether_x.Triggers.Engine.{
  TriggerEngine, no_triggers, bucket, add_trigger, hits, evaluate_triggers,
}
use aether_x.Triggers.Fired.{without, attempted, fired_events, evaluate_triggers-fired_events}

abbrev order : Option Text → OrderType → ℕ → Payload
order id type price = record no_payload {
  id = id;
  symbol = some 1;
  side = some sell;
  order_type = some type;
  stop_price = some price;
}

abbrev waiting : TriggerEngine
unfolding add_trigger
waiting = add_trigger (order (some (codes "a")) stop 100) (
    add_trigger (order (some (codes "b")) stop 80) (
      add_trigger (order (some (codes "c")) take_profit 70)
        (add_trigger (order none take_profit 75) no_triggers)))

abbrev empty_log : Log Payload
empty_log = record { store = record { rows = []; next_sequence = 1 }; published = [] }

evaluate_triggers-fired_events_example :
    let r = evaluate_triggers 1 90 waiting empty_log in
    let hit = hits 1 90 waiting in
    (bucket r.0.stop_buckets 1 ≡ without (attempted hit) (bucket waiting.stop_buckets 1))
    × (bucket r.0.take_profit_buckets 1
        ≡ without (attempted hit) (bucket waiting.take_profit_buckets 1))
    × (r.1.published ≡ [] ++ fired_events hit 1)
unfolding waiting
evaluate_triggers-fired_events_example =
    evaluate_triggers-fired_events 1 90 waiting empty_log (refl, (refl, tt)) (refl, (refl, tt))
