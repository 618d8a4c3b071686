-- ===== src/Gateway/Run/Authorized.antt =====
-- crates/pes-gateway/src/connection.rs, auth.rs: whose data a connection sends, with the validator
-- of auth.rs.
use prometheus_entity_sync.Base.{
  EmitsAt, EmitsAt-one, Text, text_eq, All, All-map_weaken, Result, ok, err, Option, some, List,
  Has, ℕ, true, ◌≡◌, refl,
}
use prometheus_entity_sync.Core.{BucketAssignment, BucketId, SyncError, TokenClaims}
use prometheus_entity_sync.Oplog.Redb.{Backend}
use prometheus_entity_sync.Protocol.{subscribe}
use prometheus_entity_sync.Rules.Resolver.{World}
use prometheus_entity_sync.Rules.Assigner.{BucketAssigner, Clock, assign}
use prometheus_entity_sync.Gateway.Auth.{Jwt, JwtValidationConfig, Cache, Surroundings, validate}
use prometheus_entity_sync.Gateway.Auth.Trust.{
  IsTrusted, OffersTrusted, IsChecked, validate-IsChecked,
}
use prometheus_entity_sync.Gateway.Effects.{Env, Event}
use prometheus_entity_sync.Gateway.Connection.{Session, Frame, binary, is_requested, handshake}
use prometheus_entity_sync.Gateway.Connection.Authorized.{IsGranted, handshake-granted}
use prometheus_entity_sync.Gateway.Snapshots.{deliver_snapshots}
use prometheus_entity_sync.Gateway.Serve.{Input, serve}
use prometheus_entity_sync.Gateway.Run.{run_session, run}
use prometheus_entity_sync.Gateway.Run.History.{EmitsAt-continue}
use prometheus_entity_sync.Gateway.Run.Frames.{IsAllowed, deliver_snapshots-Emits}
use prometheus_entity_sync.Gateway.Run.Loop.{serve-May}

module _ (env : Env) (world : World) (clock : Clock) (t : ℕ) (assigner : BucketAssigner)
    (first : Option (Result Text Frame)) (Accepted : Text → TokenClaims → Type 0) where
  -- The first frame is a `Subscribe` that names the rule of the bucket, with a token of accepted claims,
  -- and the bucket is one of those that these claims are assigned.
  abbrev pub IsEntitled : BucketAssignment → Type 0
  IsEntitled a =
      (bytes : Text) × (requested : List Text) × (token : Text) × (resume_lsn : Option ℕ)
      × (version : ℕ) × (claims : TokenClaims) × (granted : List BucketAssignment) × (first
          ≡ some (ok (binary bytes)))
      × (env.decode_client bytes ≡ ok (subscribe requested token resume_lsn version))
      × Accepted token claims
      × ((assign world clock t assigner claims).result ≡ ok granted)
      × Has a granted
      × (is_requested requested a.rule_id ≡ true)

  handshake-Entitled :
      (validate_token : Text → Result SyncError TokenClaims) (s : Session)
      → ((token : Text) (claims : TokenClaims)
          → validate_token token ≡ ok claims
          → Accepted token claims)
      → (handshake env world clock t assigner validate_token first).0 ≡ ok s
      → All (λ e. (e.0 ≡ e.1.bucket_id) × IsEntitled e.1) s.authorized_buckets
  handshake-Entitled validate_token s accepts shaken =
      let (
        bytes,
        binary_first,
        (
          requested,
          token,
          resume_lsn,
          version,
          claims,
          granted,
          decoded,
          valid,
          replied,
          (holds, every),
        ),
      ) =
        handshake-granted env world clock t assigner validate_token first s shaken in
      All-map_weaken (IsGranted requested granted) _
        (λ e (own, has, asked). (
          own,
          (
            bytes,
            requested,
            token,
            resume_lsn,
            version,
            claims,
            granted,
            binary_first,
            decoded,
            accepts token claims valid,
            replied,
            has,
            asked,
          ),
        ))
        s.authorized_buckets holds

  module _ (K : Backend) (read_checksum : BucketId → Result SyncError ℕ)
      (inputs : List (ℕ × Input K)) where
    session-IsAllowed :
        (validate_token : Text → Result SyncError TokenClaims) (shaken : Result SyncError Session)
        (events : List Event)
        → ((token : Text) (claims : TokenClaims)
            → validate_token token ≡ ok claims
            → Accepted token claims)
        → (handshake env world clock t assigner validate_token first).0 ≡ shaken
        → EmitsAt
            (IsAllowed env K read_checksum inputs IsEntitled)
            events
            (run_session env K read_checksum inputs shaken events).1
    unfolding run_session
    session-IsAllowed validate_token (err e) events accepts same =
        EmitsAt-one (IsAllowed env K read_checksum inputs IsEntitled) events _ tt
    session-IsAllowed validate_token (ok s) events accepts same =
        let holds = handshake-Entitled validate_token s accepts same in
        EmitsAt-continue (IsAllowed env K read_checksum inputs IsEntitled) events
          (deliver_snapshots env read_checksum s events) (λ _. serve env K inputs s)
          (deliver_snapshots-Emits env K read_checksum inputs IsEntitled s events holds)
          (λ u e. serve-May env K read_checksum inputs IsEntitled inputs s _ (λ n i has. has) holds)

-- Whatever a client sends and whatever fails, a connection does only this. It sends errors and
-- keepalives; the frames of the snapshot of a bucket that the client is entitled to, with the rows
-- that its stream gave and the checksum of its log; delta frames with the ops that a scan of such a
-- bucket gave; and all these under the id of the bucket's rule. For a write of an op that the
-- client sent, it runs the scope check of a query that such a bucket has for the entity type, with
-- the entity's id bound; and, only if that check has found the entity before, the statements of the
-- op on the one row with this id in the table of the entity type: an `UPDATE` to the value for an
-- upsert, a `DELETE` for a deletion, and for a patch the read of the CRDT state and its `UPDATE` to
-- what `apply_delta` makes of the two; each has the id bound in its `WHERE`. A client is entitled
-- to a bucket if its first frame is a `Subscribe` that names the rule of the bucket, the token in
-- it has claims to which the bucket is assigned, and `decode` accepts the token: in HMAC mode under
-- the shared secret and HS256, in JWKS mode under RS256 and a key that is trusted for its key id;
-- if the cached keys, before and while the call waits, and those that the endpoint offers, are
-- trusted.
pub run-IsAllowed :
    (J : Jwt) (Trusted : Text → J.Key → Type 0) (surroundings : Surroundings J)
    (config : JwtValidationConfig) (cache : Cache J)
    → IsTrusted J Trusted cache
    → IsTrusted J Trusted (surroundings.others cache)
    → OffersTrusted J Trusted surroundings.response
    → (env : Env) (K : Backend) (read_checksum : BucketId → Result SyncError ℕ)
      (inputs : List (ℕ × Input K)) (world : World) (clock : Clock) (t : ℕ)
      (assigner : BucketAssigner) (first : Option (Result Text Frame)) (events : List Event)
    → EmitsAt
        (IsAllowed env K read_checksum inputs
          (IsEntitled env world clock t assigner first (IsChecked J Trusted config)))
        events
        (run env K read_checksum inputs world clock t assigner
          (λ token. (validate J surroundings config token cache).result)
          first
          events).0.1
unfolding run
run-IsAllowed J Trusted surroundings config cache trusted kept offers env K read_checksum inputs
      world clock t assigner first events =
    session-IsAllowed env world clock t assigner first (IsChecked J Trusted config) K read_checksum
      inputs (λ token. (validate J surroundings config token cache).result) _ events
      (λ token claims.
        (validate-IsChecked J Trusted surroundings config token cache trusted kept offers).0 claims)
      refl
