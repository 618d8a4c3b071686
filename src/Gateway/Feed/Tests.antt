-- ===== src/Gateway/Feed/Tests.antt =====
-- One bucket of one session: an op stands in it, another is appended, and the client polls.
use prometheus_entity_sync.Base.{
  Text, codes, text_eq, Map, get, keys, All, Result, ok, none, some, List, [], ◌∷◌, ◌==◌, ==_iff,
  Bool-cases, ◌≡◌, refl, sym, inl, inr, arith,
}
use prometheus_entity_sync.Core.{BucketId, BucketOp}
use prometheus_entity_sync.Oplog.Redb.Sample.{sample}
use prometheus_entity_sync.Oplog.Store.{BucketOpLog, append}
use prometheus_entity_sync.Oplog.Store.View.{IsSound, stored_at}
use prometheus_entity_sync.Oplog.Store.Append.{append-IsSound}
use prometheus_entity_sync.Protocol.{ack}
use prometheus_entity_sync.Gateway.Effects.{Env}
use prometheus_entity_sync.Gateway.Connection.{Session}
use prometheus_entity_sync.Gateway.Deltas.{for_wire, poll_deltas}
use prometheus_entity_sync.Gateway.Serve.{raise_lsns, handle_client_message}
use prometheus_entity_sync.Gateway.Feed.{Feed, Feeds, begins, accepts, polls, acks, ops_under}
use prometheus_entity_sync.Gateway.Feed.Invariant.{IsOwnName}
use prometheus_entity_sync.Gateway.Feed.Exact.{IsInOrder, Feeds-IsInOrder, Feeds-complete}
use prometheus_entity_sync.Gateway.Feed.Skip.{IsNext, IsSkipped, ack-skips}
use prometheus_entity_sync.Gateway.Tests.{todos, session, env, op, log, log-IsSound, no_faults}

abbrev bucket : BucketId
bucket = codes "todos:1"

abbrev start : Feed sample
start = record { log = log; session = session; events = [] }

abbrev newer : BucketOp
newer = record op { lsn = 9 }

abbrev longer : BucketOpLog sample
longer = (append sample no_faults 101 log bucket 9 newer).1

abbrev appended : Feed sample
appended = record start { log = longer }

own_name : IsOwnName session.authorized_buckets bucket todos
unfolding get prometheus_entity_sync.Base.text_beq
own_name = (
  refl,
  λ c x found same. elim (Bool-cases (bucket == c)) [
    | inl here ↦ sym ((==_iff bucket c).0 here)
    | inr other ↦ cc (rw other at found)
  ],
)

course : Feeds sample env bucket start (op ∷ newer ∷ []) appended
unfolding prometheus_entity_sync.Oplog.Store.drain_since prometheus_entity_sync.Oplog.Store.read_ops
    sample append prometheus_entity_sync.Oplog.Store.append_payload
    prometheus_entity_sync.Oplog.Store.append_transaction prometheus_entity_sync.Base.text_lt
    prometheus_entity_sync.Oplog.Key.make_key prometheus_entity_sync.Oplog.Key.Bytes.to_be_bytes
    prometheus_entity_sync.Oplog.Key.make_range_start get
    prometheus_entity_sync.Oplog.Key.make_bucket_range_end
    prometheus_entity_sync.Oplog.Key.lsn_from_key
course =
    accepts no_faults 101 newer 9 (begins no_faults (op ∷ []) refl)
      (omega arith, (omega arith, tt), omega arith) refl

nothing_sent : ops_under (codes "todos") [] ≡ []
unfolding ops_under
nothing_sent = refl

abbrev seen : Session
seen = record session { last_seen_lsn = (bucket, 9) ∷ [] }

abbrev polled : Feed sample
polled = record {
  log = longer;
  session = seen;
  events = (poll_deltas env sample (λ c. longer) no_faults session []).1;
}

acknowledged :
    Feeds sample env bucket start
      (op ∷ newer ∷ [])
      (record polled { session = record seen { last_seen_lsn = raise_lsns 9 seen.last_seen_lsn } })
unfolding poll_deltas prometheus_entity_sync.Oplog.Store.drain_since
    prometheus_entity_sync.Oplog.Store.read_ops sample append
    prometheus_entity_sync.Oplog.Store.append_payload
    prometheus_entity_sync.Oplog.Store.append_transaction prometheus_entity_sync.Base.text_lt
    prometheus_entity_sync.Oplog.Key.make_key prometheus_entity_sync.Oplog.Key.Bytes.to_be_bytes
    prometheus_entity_sync.Base.text_beq prometheus_entity_sync.Oplog.Key.make_range_start get
    prometheus_entity_sync.Oplog.Key.make_bucket_range_end
    prometheus_entity_sync.Oplog.Key.lsn_from_key prometheus_entity_sync.Base.insert
acknowledged = acks 9 9 (polls no_faults (λ c. longer) seen course refl refl) refl (omega arith)

longer-IsSound : IsSound sample longer
longer-IsSound =
    append-IsSound sample no_faults 101 log bucket newer (omega arith) (omega arith) log-IsSound

Feeds-IsInOrder_example :
    IsInOrder sample env bucket todos start
      (omega arith)
      own_name
      log-IsSound
      nothing_sent
      (op ∷ newer ∷ [])
      (record polled { session = record seen { last_seen_lsn = raise_lsns 9 seen.last_seen_lsn } })
Feeds-IsInOrder_example =
    Feeds-IsInOrder sample env bucket todos start (omega arith) own_name log-IsSound nothing_sent
      (op ∷ newer ∷ [])
      (record polled { session = record seen { last_seen_lsn = raise_lsns 9 seen.last_seen_lsn } })
      acknowledged

Feeds-complete_example :
    (s : Session) × ((poll_deltas env sample (λ c. longer) no_faults session []).0 ≡ ok s)
    × (ops_under (codes "todos") (poll_deltas env sample (λ c. longer) no_faults session []).1
        ≡ for_wire (codes "todos") (op ∷ newer ∷ []))
Feeds-complete_example =
    Feeds-complete sample env bucket todos start (omega arith) own_name log-IsSound nothing_sent
      (op ∷ newer ∷ []) appended (λ c. longer) no_faults course (λ c. longer-IsSound) refl
      (omega arith, tt) (λ c. refl) (λ events m. refl)

-- The client has seen 3 of the bucket and acknowledges 8, which it has from another.
abbrev acking : Env
acking = record env { decode_client = λ bytes. ok (ack 8) }

abbrev seen_3 : Session
seen_3 = record session { last_seen_lsn = (bucket, 3) ∷ [] }

stands_at_7 : stored_at sample log bucket 7 ≡ some (record { op = op; appended_at_unix_secs = 100 })
unfolding sample get append prometheus_entity_sync.Oplog.Store.append_payload
    prometheus_entity_sync.Oplog.Store.append_transaction prometheus_entity_sync.Base.text_beq
    prometheus_entity_sync.Oplog.Key.make_key prometheus_entity_sync.Oplog.Key.Bytes.to_be_bytes
stands_at_7 = refl

ack-skips_example :
    IsNext sample log no_faults no_faults bucket seen_3 op
    × (s : Session) × (handle_client_message acking 0 seen_3 [] [] ≡ (ok s, []))
    × IsSkipped sample log no_faults no_faults bucket s 8
unfolding get prometheus_entity_sync.Base.text_beq
ack-skips_example =
    ack-skips sample log no_faults no_faults bucket acking 0 seen_3 [] [] 8 3 7
      (record { op = op; appended_at_unix_secs = 100 }) log-IsSound (omega arith) (omega arith) refl
      refl (omega arith) (omega arith) stands_at_7
