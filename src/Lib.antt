-- ===== src/Lib.antt =====
-- AetherX is a trading simulator: a TypeScript backend of services that talk over an event bus, with
-- Redis, PostgreSQL and a worker thread, and a web frontend. This library models the backend's core and
-- what the frontend computes from it.
--
-- How the parts interact. A request to `placeOrder` is checked and published as an intent. The order
-- management asks the risk engine, appends the order's events to the event store in one batch, or a
-- rejection, and publishes them. Its projection writes the orders table and appends follow-up events.
-- The matching engine posts activated and cancelled orders to a worker thread, which keeps the order
-- books and posts trades and depths back; a trade becomes an event again. The trigger engine holds stop
-- and take-profit orders until a tick reaches their price. The position engine keeps sizes, entry
-- prices and profits from trades and ticks. The ledger moves money between wallets in double entries,
-- and two jobs look for books that do not balance. Jobs that failed are retried from a sorted set;
-- answers of requests are kept by idempotency keys; a registration seeds a user's wallets; the registry
-- reports the services' health. Market ingestion publishes the ticks, of the exchange or synthetic ones;
-- the ARU strategy builds candles from them and reads its signals off these, and the order books are
-- measured with every tick. A gateway sends depths, trades and ticks to the sockets in the rooms of a
-- symbol, and the pages keep what they show of them; the order form sends its requests to the routes.
--
-- Which file models what (paths from the repository's root; operations keep their names, in snake case):
--   Matching: backend/src/services/matchingWorker.ts. Queue and Book have the order queues and
--     `OrderBook`; Match has `matchOrder`, `addOrder` and the message handler. Linked has the doubly
--     linked nodes of a queue in a store, beside the list that Queue has. Invariant says what a
--     well-formed book is; the other children prove.
--   Ledger: ledgerEngine.ts and reconciliationWorker.ts there, over the tables of
--     backend/src/models/schema.sql. A query is a function of the tables to a result; a transaction
--     that fails leaves the tables as they were.
--   Events: eventStore.ts and the publishing that follows each append (Log), over the table of
--     backend/src/models/migrations/001_event_sourcing.sql.
--   Oms: omsEngine.ts. Triggers: triggerEngine.ts. Position: positionEngine.ts and riskEngine.ts.
--   Retry: retryQueue.ts. Registry: serviceRegistry.ts. Idempotency: idempotencyStore.ts.
--   Orders: backend/src/controllers/order.ts (Api) and matchingEngine.ts (Wiring).
--   Auth: backend/src/controllers/auth.ts. Users has the registration, Session the sign-in, Money the
--     calls of the ledger and registrations in any order; the other children prove.
--   Aru: backend/src/services/aruAlgo.ts (Numbers, Algo, Process) and aruAlgoService.ts (Service), with
--     Window, Signals and Candles for the proofs.
--   Bus: backend/src/services/eventBus.ts, one subscriber of a stream as a step relation.
--   Micro: backend/src/services/microstructureAnalytics.ts. Feed: marketIngestion.ts there.
--   Watch: observability.ts.
--   Venue: omsEngine.ts, matchingEngine.ts and matchingWorker.ts there at work together: System has one
--     state with the event log, the cursors of its two consumers (eventBus.ts), the worker's inbox, books
--     and outbox, and an action for each handler and each read. Replay and Settle prove.
--   Gateway: backend/src/index.ts (Bridge has the broadcasters, Rooms the connection handler),
--     backend/src/routes/api.ts (Routes, with the first check of the handlers) and frontend/src/hooks/useWebSockets.ts (Client, Shown).
--   Front: frontend/src/components/OrderForm.tsx (Form) and OrderBook.tsx (Depth), and Positions.tsx
--     there over backend/src/controllers/wallet.ts (Sheet), LedgerViewer.tsx over stats.ts (Inspector).
--   Chart: the indicator functions of frontend/src/components/TVChart.tsx (Math), with Aligned and
--     Stable for the proofs, and the made-up candles of backend/src/controllers/market.ts (Backfill).
--   Prelude: lists, maps, texts, signed integers and tests shared by all.
--
-- Conventions. State is passed explicitly, and each handler runs to its end before the next: the code
-- is single-threaded but for its awaits, at which the model lets nothing else run; only in Bus do the
-- steps of publishers come between those of a subscriber. Ids that are only compared are numbers, where
-- the code takes them apart or joins them they are texts. Prices and quantities are whole units in
-- which the products that the code forms are exact; the rounding of floating-point numbers and of
-- NUMERIC columns is not modelled, but that of `toFixed` in Micro is. Division, the handlers of retried
-- jobs, the arithmetic of the trading signals, the rows that PostgreSQL takes for orders, the texts
-- of order ids, the rooms of socket.io, the matching of paths by Express, `JSON.parse`, whether
-- PostgreSQL takes the row of a dead letter, and `parseFloat` and `toString` are parameters.
--
-- Bounds. Every loop of the code is a recursion on the list it runs over (price levels, makers,
-- batches, triggers, due jobs), so there is no fuel. The outer loop of `matchOrder` runs on the price
-- array by an index; the model runs on what is left of the array, which shrinks in every turn. 20
-- levels of depth, 10 due jobs, 1000 dead letters, 50 rows of history are the code's.
--
-- Not modelled: the random walk of synthetic prices, the random candles that warm the ARU strategy,
-- analytics, the requests to the exchange, start-up, configuration and scripts, the drawing of charts,
-- the metrics panel and all rendering of the frontend, which are mostly input and output or
-- floating-point statistics. The timers that call the jobs are left out.
pub mod Prelude
pub mod Matching
pub mod Ledger
pub mod Events
pub mod Oms
pub mod Triggers
pub mod Position
pub mod Retry
pub mod Registry
pub mod Idempotency
pub mod Orders
pub mod Auth
pub mod Aru
pub mod Bus
pub mod Micro
pub mod Feed
pub mod Watch
pub mod Venue
pub mod Gateway
pub mod Front
pub mod Chart
