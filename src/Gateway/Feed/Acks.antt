-- ===== src/Gateway/Feed/Acks.antt =====
-- crates/pes-gateway/src/connection.rs: what an acknowledgement does to a tracked LSN.
use prometheus_entity_sync.Base.{
  ltb→le, text_eq, Map, get, some, [], ◌∷◌, ◌≤◌, ltb→lt, Bool-cases, ◌==◌, ◌≡◌, inl, inr, arith,
}
use prometheus_entity_sync.Core.{BucketId, PgLsn}
use prometheus_entity_sync.Gateway.Serve.{raise_lsns}

-- An acknowledgement of no more than was sent leaves what is tracked.
pub get-raise_lsns :
    (lsn : PgLsn) (m : Map BucketId PgLsn) (b : BucketId) (tracked : PgLsn)
    → lsn ≤ tracked
    → get m b ≡ some tracked
    → get (raise_lsns lsn m) b ≡ some tracked
unfolding get raise_lsns
get-raise_lsns lsn [] b tracked le h = cc
get-raise_lsns lsn ((c, t) ∷ m) b tracked le h = elim (Bool-cases (c == b)) [
  | inr other ↦ rw other (get-raise_lsns lsn m b tracked le (rw other at h))
  | inl same ↦
      let e : some t ≡ some tracked = rw same at h in rw same (ground (arith, e, le, ltb→lt t lsn))
]

-- One of more raises it.
pub get-raised :
    (lsn : PgLsn) (m : Map BucketId PgLsn) (b : BucketId) (tracked : PgLsn)
    → tracked ≤ lsn
    → get m b ≡ some tracked
    → get (raise_lsns lsn m) b ≡ some lsn
unfolding get raise_lsns
get-raised lsn [] b tracked le h = cc
get-raised lsn ((c, t) ∷ m) b tracked le h = elim (Bool-cases (c == b)) [
  | inr other ↦ rw other (get-raised lsn m b tracked le (rw other at h))
  | inl same ↦
      let e : some t ≡ some tracked = rw same at h in rw same (ground (arith, e, le, ltb→le t lsn))
]
