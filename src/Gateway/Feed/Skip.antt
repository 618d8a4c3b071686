-- ===== src/Gateway/Feed/Skip.antt =====
-- crates/pes-gateway/src/connection.rs: an acknowledgement raises what every bucket of the session has seen.
use prometheus_entity_sync.Base.{
  Text, text_eq, get, All, All-map_weaken, Has, ok, some, List, ℕ, ◌+◌, ◌≤◌, ◌<◌, ◌≡◌, refl, ap,
  ◌∙◌, arith,
}
use prometheus_entity_sync.Core.{BucketId, BucketOp, PgLsn, u64_max}
use prometheus_entity_sync.Oplog.Redb.{Backend, StoredOp}
use prometheus_entity_sync.Oplog.Store.{BucketOpLog, Faults, drain_since}
use prometheus_entity_sync.Oplog.Store.View.{Fits, stored_at, IsSound}
use prometheus_entity_sync.Protocol.{ack}
use prometheus_entity_sync.Gateway.Effects.{Env, Event}
use prometheus_entity_sync.Gateway.Connection.{Session}
use prometheus_entity_sync.Gateway.Deltas.{scan_from, or_zero}
use prometheus_entity_sync.Gateway.Deltas.Seen.{scan_from-le, next_lsn}
use prometheus_entity_sync.Gateway.Serve.{raise_lsns, handle_client_message}
use prometheus_entity_sync.Gateway.Feed.Pending.{StandsAt, scan-IsPending}
use prometheus_entity_sync.Gateway.Feed.Acks.{get-raised}

module _ (K : Backend) (log : BucketOpLog K) (io io' : Faults) (b : BucketId) where
  -- The op is in what the scan for the session gives.
  abbrev pub IsNext : Session → BucketOp → Type 0
  IsNext s op = (os : List BucketOp) → drain_since K io log b (scan_from s b) ≡ ok os → Has op os

  -- No op up to the LSN is in what a scan for the session gives.
  abbrev pub IsSkipped : Session → PgLsn → Type 0
  IsSkipped s lsn =
      (os : List BucketOp)
      → drain_since K io' log b (scan_from s b) ≡ ok os
      → All (λ o. lsn < o.lsn) os

  -- An acknowledgement of an LSN, from whichever bucket the client has it, skips what waits in another:
  -- if a bucket has seen `tracked` and an op stands in it above that and not above the
  -- acknowledged LSN, then the next scan gives the op; but once the frame is handled, which sends nothing, no
  -- scan of that log gives an op up to the acknowledged LSN. The log is sound, the bucket id in range
  -- and the LSN below `u64::MAX`.
  pub ack-skips :
      (env : Env) (now_ms : ℕ) (s : Session) (bytes : Text) (events : List Event)
      (lsn tracked l : PgLsn) (st : StoredOp)
      → IsSound K log
      → Fits b
      → lsn < u64_max
      → env.decode_client bytes ≡ ok (ack lsn)
      → get s.last_seen_lsn b ≡ some tracked
      → tracked < l
      → l ≤ lsn
      → stored_at K log b l ≡ some st
      → IsNext s st.op
        × (s' : Session) × (handle_client_message env now_ms s bytes events ≡ (ok s', events))
        × IsSkipped s' lsn
  unfolding handle_client_message
  ack-skips env now_ms s bytes events lsn tracked l st sound hb high decoded found above within
        stored =
      let s' : Session = record s { last_seen_lsn = raise_lsns lsn s.last_seen_lsn } in
      let from : scan_from s b ≡ tracked + 1 =
        ap or_zero found ∙ next_lsn tracked (omega (arith, high, above, within)) in
      let from' : scan_from s' b ≡ lsn + 1 =
        ap or_zero (get-raised lsn s.last_seen_lsn b tracked (omega (arith, above, within)) found)
        ∙ next_lsn lsn high in
      (
        λ os done.
            (scan-IsPending K b io log (scan_from s b) os sound hb
                (scan_from-le (get s.last_seen_lsn b)) done).every
              l st (omega (arith, from, above)) (omega (arith, within, high)) stored,
        s',
        rw decoded refl,
        λ os done.
            All-map_weaken (StandsAt K b log (scan_from s' b)) (λ (o : BucketOp). lsn < o.lsn)
              (λ o h. omega (arith, h.0, from')) os
              (scan-IsPending K b io' log (scan_from s' b) os sound hb
                (scan_from-le (get s'.last_seen_lsn b)) done).each,
      )
