-- ===== src/Lib.antt =====
-- The DNP3 gateway: a model of its core, with the theorems that make it correct.
--
-- The gateway reads outstations over DNP3 and publishes each changed value to a broker. The poller
-- (src/dnp3_gateway/poller.py) takes the devices that are due from the shared state (state.py), reads
-- them through an adapter and calls `publish` of a ResilientPublisher. That publishes to NATS
-- JetStream and, when the broker raises, enters the message into a queue in SQLite (Outbox). A
-- thread, OutboxRetrier, empties the queue through `publish_outbox_row`. When the queue cannot take a
-- message either, a breaker is set, and the poller skips its cycles. The configuration comes from a
-- backend (backend/config_client.py) and is kept in a file for the next start.
--
-- Base: names that are shared. Numbers are native; Base.Number has int and binary64 by its bits, and
--   Base.Json has JSON values (a text of JSON is the value that it spells).
-- Exception: the exceptions that handlers tell apart, and the outcome of a call.
-- Config, Config.Values, Config.Parse: the data classes and `_parse_gateway_config` with its helpers
--   (src/dnp3_gateway/backend/config_client.py). int(), float(), str() and strip() are parameters.
--   Config.Values.Ranges, Config.Parse.Bounds and Config.Parse.Whole prove the bounds.
-- Config.Fetch: BackendConfigClient.fetch_config; what requests gives is an argument, and json.loads
--   and str.replace are parameters. Config.Fetch.Accepts is on what it accepts.
-- Identity: src/dnp3_gateway/auth/identity.py and headers.py; Identity.Instance is on the id's file.
-- State: class GatewayState (src/dnp3_gateway/state.py); each method is one step under its lock.
--   State.Refresh, State.Due and State.Cache: the operator's refresh, the times, the file; CacheFile
--   has the file's JSON, CacheFile.Reading its reading, CacheFile.Reads what is read of what was
--   written.
-- Outbox: class Outbox (src/dnp3_gateway/messaging/outbox.py) as two tables with AUTOINCREMENT
--   counters and the in-memory estimate. Each method takes the fault that SQLite meets: none, at its
--   n-th statement, or at COMMIT. Outbox.Operations makes calls of them; Outbox.Invariant is on ids,
--   Outbox.Capacity on the estimate and the limit, Outbox.Messages and Outbox.Keeps on what is lost.
--   Outbox.Abstract has the queue as its users see it, and Outbox.Refines the refinement.
-- JetStream: JetStreamPublisher.publish (src/dnp3_gateway/messaging/jetstream_publisher.py). What
--   nats-py does with one message is an argument: it is stored and answered, refused, or stored with
--   the answer lost. The list of what the server has stored is there for the proofs only.
-- Publisher: class ResilientPublisher (src/dnp3_gateway/messaging/resilient_publisher.py). The queue
--   is an argument, since the retrier shares it. Acceptance, Retries, Breaker and Secondary are on
--   what is accepted, the retrier's way in, the breaker, and the secondary publisher.
-- Retrier: class OutboxRetrier (src/dnp3_gateway/messaging/outbox.py) over a parameter publish_fn; a
--   run is a list of turns, one for each round of its loop until the stop flag is seen, so that no
--   fuel is needed. Visits has the rules, Safety what is kept, Outage and Drains what a run does when
--   the broker is down and when it answers (Turns has one turn of it), Backoff its waits, and Poison
--   its dead letters.
-- Delivery: the poller and the retrier on one queue, as steps between two takings of its lock. A
--   schedule is any list of steps. Threads and AtLeastOnce are on all schedules, Empties on the chain
--   while the broker answers.
-- Points: the keys of DNP3 points, and sets and tables of them.
-- Yadnp3: the adapter over OpenDNP3 (src/dnp3_gateway/adapters/dnp3_yadnp3_master.py). Yadnp3.Cache is
--   class _DeviceCache: values, dirty points, and the states online, recovering and lost. Callbacks
--   are OpenDNP3's calls. Read is the body of read_device; its `between n` is what OpenDNP3's threads
--   do in the n-th gap between two takings of the cache's lock. Reader has the masters by code.
--   Invariant, Keeps and Traces are on all lives of a cache; Known, Values, Quiet, Deltas and Delivers
--   on what a read gives; Outage on the states, Race on a frame in a gap, Masters on the reader.
--   Yadnp3.Polls puts this adapter into the poller.
-- Dnp3py: the adapter over dnp3py (src/dnp3_gateway/adapters/dnp3_master.py). Dnp3py.Wire has
--   dnp3py's answers, numbered by the call; Direct and Groups the reads of ranges and of single
--   indices; Batch and Session read_batch with its four strategies; Reader the sessions. The chunks
--   of a range run on fuel, the number of its points: each chunk has one at least. Chunks, Events,
--   Baseline, Sessions and Lengths have the theorems.
-- Poller: poll_device and run_poll_cycle on its serial path (src/dnp3_gateway/poller.py); the adapter
--   is a parameter, and Yadnp3.Polls gives one. Poller.Parallel has what the path of the pool makes
--   of the ends of its futures. Breaks: which exceptions get out. Reads: what becomes due. Deltas:
--   what is sent of the readings of a device. Cycle: what a whole cycle sends.
-- Tests: the theorems on concrete data.
--
-- Durations and times are in milliseconds, the multiplier of the backoff in hundredths. Not
-- modelled: OpenDNP3 and dnp3py themselves, with the configuration of a channel and its stack,
-- the order of the steps inside connect and dnp3py's filter of empty frames; the mock adapter and
-- the choice of an adapter; the pool of threads in the poller and its times; the HTTP health
-- server; the settings; the main loop, the process's start and stop; the RabbitMQ publisher;
-- SQLite, nats-py, pika, requests and json themselves; and the texts of the log.
pub mod Base
pub mod Exception
pub mod Config
pub mod Identity
pub mod CacheFile
pub mod State
pub mod Outbox
pub mod Retrier
pub mod JetStream
pub mod Publisher
pub mod Delivery
pub mod Points
pub mod Yadnp3
pub mod Dnp3py
pub mod Poller
pub mod Tests
