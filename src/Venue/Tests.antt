-- ===== src/Venue/Tests.antt =====
-- Witnesses for the venue: an event before the first read, then a buy and a sale that meet.
use aether_x.Prelude.{ℕ, length, List, [], ◌∷◌, some, true, arith, refl}
use aether_x.Prelude.Text.{Text, codes}
use aether_x.Matching.Queue.{buy, sell}
use aether_x.Events.Store.{append}
use aether_x.Events.Log.{emit, IsLogged}
use aether_x.Oms.Engine.{Oms, activation}
use aether_x.Oms.Intents.{Payload, no_payload, limit}
use aether_x.Orders.Wiring.{post_to_worker}
use aether_x.Venue.System.{
  boot, Action, add_event, engine_read, engine_timeout, post, work, act, act_all,
}
use aether_x.Venue.Replay.{IsReplayed, act_all-boot}
use aether_x.Venue.Settle.{rounds, IsSettled, settles_after}

abbrev idle : Oms
idle = record {
  orders = [];
  relationships = [];
  log = record { store = record { rows = []; next_sequence = 1 }; published = [] };
}

idle-IsLogged : IsLogged idle.log
idle-IsLogged = record { is_store = record { ascends = omega arith; keys = tt }; logged = refl }

abbrev order : Payload
order = record no_payload {
  user_id = some 10;
  symbol = some 1;
  side = some buy;
  order_type = some limit;
  price = 100;
  quantity = some 3;
}

abbrev meeting : List Action
meeting =
    add_event (activation (codes "e") order)
    ∷ engine_read
    ∷ engine_timeout
    ∷ engine_read
    ∷ add_event (activation (codes "b") order)
    ∷ post
    ∷ work
    ∷ add_event (activation (codes "s") (record order { user_id = some 11; side = some sell }))
    ∷ post
    ∷ work
    ∷ []

abbrev number : Text → ℕ
number [] = 0
number (c ∷ cs) = c

act_all-boot_example :
    IsReplayed number 1 (act_all (λ r. true) number (λ n. n ∷ []) meeting (boot idle))
unfolding act emit append
act_all-boot_example = act_all-boot (λ r. true) number (λ n. n ∷ []) idle meeting idle-IsLogged

settles_after_example :
    (posts works reports again : ℕ) × IsSettled number 1 (
      act_all
        (λ r. true)
        number
        (λ n. n ∷ [])
        (rounds posts works reports again)
        (act_all (λ r. true) number (λ n. n ∷ []) meeting (boot idle)))
unfolding act emit append post_to_worker
settles_after_example = settles_after (λ r. true) number (λ n. n ∷ []) idle meeting idle-IsLogged

-- One trade is reported, and nothing rests.
abbrev reports_waiting : ℕ
reports_waiting = length (act_all (λ r. true) number (λ n. n ∷ []) meeting (boot idle)).outbox
