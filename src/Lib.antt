-- ===== src/Lib.antt =====
-- Prometheus Entity Sync: a model of the server's core and the theorems about it.
--
-- The server keeps clients in step with Postgres. Sync rules (crates/pes-rules) say which buckets a
-- user may read; an append-only log per bucket (crates/pes-oplog) holds the changes; a gateway
-- (crates/pes-gateway) authenticates a client, sends snapshots and then the deltas of the buckets of
-- its session, and applies the client's writes.
--
-- Base: lists, texts (lists of the codes of bytes or characters), maps and Rust's `Result`.
-- Core: crates/pes-core/src/types.rs. Protocol: crates/pes-protocol/src/messages.rs.
-- Oplog/Key: crates/pes-oplog/src/key.rs. Oplog/Redb: the ordered table and the codec that the log
--   relies on, as records of operations and laws, with an instance in Oplog/Redb/Sample.
-- Oplog/Store: crates/pes-oplog/src/store.rs and error.rs: `append`, `drain_since`, `checksum`,
--   `compact`; View is the abstract log, a partial map from LSNs to ops for each bucket.
-- Rules/Template, Parser, Validator: the files of these names in crates/pes-rules/src.
-- Rules/Resolver, Rules/Assigner: crates/pes-rules/src/assigner.rs, with `resolve_rule` and the
--   bucket ids in the first, the cache, the sweep and the lookup of buckets in the second.
-- Gateway/Redaction: crates/pes-gateway/src/error.rs. Gateway/Effects, Connection, Snapshots, Writes,
--   Deltas, Serve, Run: crates/pes-gateway/src/connection.rs, one part of the handler each, and in Run the
--   whole connection; Writes/Sql has the texts of the statements that a write may run, apart from the code. Gateway/Feed follows one bucket of a session through appends,
--   compactions, polls and acknowledgements, as a step relation over the code of Oplog/Store, Deltas and Serve.
-- Gateway/Auth: crates/pes-gateway/src/auth.rs. Gateway/Listener: crates/pes-gateway/src/server.rs, the
--   loop and its tasks as a step relation.
-- Router: `route_one_event` and `classify_op` of crates/pes-router/src/router.rs; Router/Isolation
--   relates it to the view of the log; Router/Run is `run` of the same file, Router/Metrics is
--   crates/pes-router/src/metrics.rs.
-- Snapshot/Checksum, Snapshot/Stream: the files of these names in crates/pes-snapshot/src; Pages and Whole
--   are about tables that stand still, Turns and Changing about tables that change between the statements.
-- Server/Config: crates/pes-server/src/config.rs. Server/Broker: crates/pes-server/src/broker.rs.
--   Server/Pipeline puts the broker and the router together as crates/pes-server/src/main.rs does;
--   Server/Delivery follows an event from the router to the client; Server/Shutdown is the wait for the
--   connections to close in main.rs, Server/Main its function `run`; Server/Health is
--   crates/pes-server/src/health.rs.
-- The Tests modules run the code on small concrete inputs.
--
-- State is passed explicitly. A call of the log or of the assigner takes it and returns it beside the
-- result; an action of a connection extends the list of the events that it caused. Every call of redb
-- may fail, by the argument `Faults`; the answers of Postgres, of the socket, of the JWT validator and
-- of the clocks are arguments. An LSN is a number with the bound of `u64` as a hypothesis where it
-- matters; `lsn.0 + 1` and the checksum wrap. A bucket id fits the two bytes of its length where a
-- theorem says so, as key.rs asserts in debug builds. Hash maps are association lists, in any order.
-- The tasks of the accept loop and of the pipeline take their steps in any order; the writes of one
-- task to a shared counter or channel are steps of their own.
--
-- All loops but three go through a list. `page_loop` of Snapshot/Stream runs on fuel, since its end depends on
-- Postgres: more fuel than the table has rows, or than there are ids in its changing states, is enough if
-- Postgres answers as the query says. The loop of `interpolate_env_vars` runs on the length of its
-- input and one more, which is enough. The wait of Server/Shutdown has 301 turns, enough for its 30 s
-- in sleeps of 100 ms.
--
-- Not modelled: the signals and the logging of crates/pes-server, the rendering of the metrics, the
-- four functions of crates/pes-protocol/src/codec.rs, which only call the MessagePack library, the TOML
-- library, and the TypeScript packages.
pub mod Base
pub mod Core
pub mod Oplog
pub mod Rules
pub mod Protocol
pub mod Router
pub mod Snapshot
pub mod Gateway
pub mod Server
