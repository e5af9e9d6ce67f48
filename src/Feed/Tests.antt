-- ===== src/Feed/Tests.antt =====
-- The exchange falls silent for a while, so that its prices and synthetic ones are published in turn.
use aether_x.Prelude.{◌≡◌, refl, List, [], ◌∷◌, ◌++◌, true, false}
use aether_x.Prelude.Text.{codes}
use aether_x.Feed.Ingestion.{
  connecting, Ingestion, FeedEvent, opened, silent, heard, closing, reconnecting, walked,
  on_interval, get_current_price, take_tick, on_open, on_heartbeat, on_event, on_events,
  start_synthetic_feeds, stop_synthetic_feeds,
}
use aether_x.Feed.Source.{IsFeed, on_events-IsFeed, walked-publishes}

abbrev booting : Ingestion
booting = record {
  is_synthetic = false;
  synthetic_intervals = [];
  current_prices = (codes "BTCUSDT", 672500000) ∷ [];
  heartbeat = false;
  connection = connecting;
  reconnections = 0;
  published = [];
}

booting-IsFeed : IsFeed booting
booting-IsFeed = record { intervals = refl; covered = refl }

abbrev live_events : List FeedEvent
live_events =
    opened
    ∷ heard (codes "BTCUSDT") 672510000 3 1
    ∷ closing
    ∷ reconnecting true
    ∷ opened
    ∷ silent
    ∷ []

abbrev silenced : Ingestion
silenced = on_events (opened ∷ silent ∷ []) booting

silenced_runs : silenced.is_synthetic ≡ true
unfolding on_event on_open on_heartbeat start_synthetic_feeds stop_synthetic_feeds
silenced_runs = refl

abbrev back_again : List FeedEvent
back_again = heard (codes "BTCUSDT") 672600000 3 2 ∷ heard (codes "ETHUSDT") 37410000 1 3 ∷ []

walked-publishes_example :
    (on_event (walked (codes "BTCUSDT") 672400000 5 4) (on_events back_again silenced)).published
    ≡ (on_events back_again silenced).published
      ++ record {
        symbol = codes "BTCUSDT";
        price = 672400000;
        quantity = 5;
        timestamp = 4;
        is_synthetic = true;
      }
        ∷ []
walked-publishes_example =
    walked-publishes back_again silenced (codes "BTCUSDT") 672400000 5 4
      (on_events-IsFeed (opened ∷ silent ∷ []) booting booting-IsFeed) silenced_runs
      (refl, (refl, tt)) refl

-- The last price that was published, of either source, is the current one.
last_price :
    get_current_price
      (codes "btcusdt")
      (on_event (walked (codes "BTCUSDT") 672400000 5 4) (on_events back_again silenced))
    ≡ 672400000
unfolding on_event on_open on_heartbeat start_synthetic_feeds stop_synthetic_feeds take_tick
    on_interval
last_price = refl
