-- ===== src/Gateway/Connection/Authorized.antt =====
-- crates/pes-gateway/src/connection.rs: the buckets of a session after the handshake.
use prometheus_entity_sync.Base.{
  Text, text_eq, Map, insert, contains_key, ==_iff, ==_refl, All, Has, Result, ok, err, Option,
  none, some, List, [], ◌∷◌, ℕ, true, ◌==◌, Bool-cases, ok-injective, Result-cases, ◌≡◌, refl, ap,
  ◌∙◌, inl, inr, arith,
}
use mathlib.Core.Path.{subst}
use prometheus_entity_sync.Core.{BucketAssignment, BucketId, TokenClaims, SyncError, PgLsn}
use prometheus_entity_sync.Protocol.{ClientMessage, subscribe, ack, write, ping}
use prometheus_entity_sync.Rules.Resolver.{World}
use prometheus_entity_sync.Rules.Assigner.{BucketAssigner, Clock, Reply, assign}
use prometheus_entity_sync.Gateway.Effects.{Env}
use prometheus_entity_sync.Gateway.Connection.{
  Session, Frame, binary, close, other, is_requested, authorize, session_for, subscribed,
  first_message, handshake,
}

-- Granted to the user, asked for by the client, and filed under its own id.
abbrev pub IsGranted : List Text → List BucketAssignment → BucketId × BucketAssignment → Type 0
IsGranted requested granted e =
    (e.0 ≡ e.1.bucket_id) × Has e.1 granted × (is_requested requested e.1.rule_id ≡ true)

All-insert :
    (P : BucketId × BucketAssignment → Type 0) (m : Map BucketId BucketAssignment) (b : BucketId)
    (a : BucketAssignment)
    → All P m
    → P (b, a)
    → All P (insert m b a)
unfolding insert
All-insert P [] b a h p = (p, tt)
All-insert P ((c, x) ∷ m) b a h p = elim (Bool-cases (c == b)) [
  | inl same ↦ rw same (p, h.1)
  | inr other_key ↦ rw other_key (h.0, All-insert P m b a h.1 p)
]

authorize-All :
    (P : BucketId × BucketAssignment → Type 0) (requested : List Text) (as' : List BucketAssignment)
    (m : Map BucketId BucketAssignment)
    → ((a : BucketAssignment)
        → Has a as'
        → is_requested requested a.rule_id ≡ true
        → P (a.bucket_id, a))
    → All P m
    → All P (authorize requested as' m)
unfolding authorize
authorize-All P requested [] m f h = h
authorize-All P requested (a ∷ as') m f h = elim (Bool-cases (is_requested requested a.rule_id)) [
  | inl asked ↦ rw asked (
      authorize-All P requested as' (insert m a.bucket_id a) (λ x hx. f x (inr hx))
        (All-insert P m a.bucket_id a h (f a (inl refl) asked)))
  | inr unasked ↦ rw unasked (authorize-All P requested as' m (λ x hx. f x (inr hx)) h)
]

contains_key-insert :
    (m : Map BucketId BucketAssignment) (b c : BucketId) (a : BucketAssignment)
    → contains_key m c ≡ true
    → contains_key (insert m b a) c ≡ true
unfolding contains_key insert
contains_key-insert [] b c a h = cc
contains_key-insert ((d, x) ∷ m) b c a h =
    ground (arith, ==_iff d b, ==_iff d c, ==_iff b c, contains_key-insert m b c a)

contains_key-inserted :
    (m : Map BucketId BucketAssignment) (b : BucketId) (a : BucketAssignment)
    → contains_key (insert m b a) b ≡ true
unfolding contains_key insert
contains_key-inserted [] b a = rw (==_refl b) refl
contains_key-inserted ((d, x) ∷ m) b a =
    ground (arith, ==_iff d b, ==_refl b, contains_key-inserted m b a)

authorize-keeps :
    (requested : List Text) (as' : List BucketAssignment) (m : Map BucketId BucketAssignment)
    (b : BucketId)
    → contains_key m b ≡ true
    → contains_key (authorize requested as' m) b ≡ true
unfolding authorize
authorize-keeps requested [] m b h = h
authorize-keeps requested (a ∷ as') m b h = elim (Bool-cases (is_requested requested a.rule_id)) [
  | inl asked ↦ rw asked (
      authorize-keeps requested as' (insert m a.bucket_id a) b
        (contains_key-insert m a.bucket_id b a h))
  | inr unasked ↦ rw unasked (authorize-keeps requested as' m b h)
]

authorize_complete :
    (requested : List Text) (as' : List BucketAssignment) (m : Map BucketId BucketAssignment)
    (a : BucketAssignment)
    → Has a as'
    → is_requested requested a.rule_id ≡ true
    → contains_key (authorize requested as' m) a.bucket_id ≡ true
unfolding authorize
authorize_complete requested [] m a h r = absurd h
authorize_complete requested (x ∷ as') m a (inl e) r =
    let asked : is_requested requested x.rule_id ≡ true =
      ap (λ y. is_requested requested (BucketAssignment.rule_id y)) e ∙ r in
    rw asked (
      authorize-keeps requested as' (insert m x.bucket_id x) a.bucket_id (
        subst (λ y. contains_key (insert m x.bucket_id x) y ≡ true)
          (ap (λ y. BucketAssignment.bucket_id y) e) (contains_key-inserted m x.bucket_id x)))
authorize_complete requested (x ∷ as') m a (inr h) r =
    elim (Bool-cases (is_requested requested x.rule_id)) [
      | inl asked ↦ rw asked (authorize_complete requested as' (insert m x.bucket_id x) a h r)
      | inr unasked ↦ rw unasked (authorize_complete requested as' m a h r)
    ]

-- What a session holds, for the assignments that the user has and the rules that the client named.
abbrev pub HoldsGranted : List Text → List BucketAssignment → Session → Type 0
HoldsGranted requested granted s =
    All (IsGranted requested granted) s.authorized_buckets
    × ((a : BucketAssignment)
        → Has a granted
        → is_requested requested a.rule_id ≡ true
        → contains_key s.authorized_buckets a.bucket_id ≡ true)

session_for-HoldsGranted :
    (requested : List Text) (resume_lsn : Option PgLsn) (granted : List BucketAssignment)
    → HoldsGranted requested granted (session_for requested resume_lsn granted)
session_for-HoldsGranted requested resume_lsn granted = (
  authorize-All (IsGranted requested granted) requested granted [] (λ a h r. (refl, h, r)) tt,
  λ a h r. authorize_complete requested granted [] a h r,
)

module _ (env : Env) (world : World) where
  -- A frame that subscribes, a token that the validator accepts, and the buckets of its claims.
  abbrev pub Subscribes :
      Clock → ℕ → BucketAssigner → (Text → Result SyncError TokenClaims) → Text → Session → Type 0
  Subscribes clock t a validate bytes s =
      (requested : List Text) × (token : Text) × (resume_lsn : Option PgLsn) × (version : ℕ)
      × (claims : TokenClaims) × (granted : List BucketAssignment) × (env.decode_client bytes
          ≡ ok (subscribe requested token resume_lsn version))
      × (validate token ≡ ok claims)
      × ((assign world clock t a claims).result ≡ ok granted)
      × HoldsGranted requested granted s

  subscribed-granted :
      (a : BucketAssigner) (ask : TokenClaims → Reply) (requested : List Text)
      (resume_lsn : Option PgLsn) (v : Result SyncError TokenClaims) (s : Session)
      → (subscribed a ask requested resume_lsn v).0 ≡ ok s
      → (claims : TokenClaims) × (granted : List BucketAssignment) × (v ≡ ok claims)
        × ((ask claims).result ≡ ok granted)
        × HoldsGranted requested granted s
  subscribed-granted a ask requested resume_lsn (err e) s h = cc
  subscribed-granted a ask requested resume_lsn (ok claims) s h =
      elim (Result-cases (ask claims).result) [
        | inr (e, failed) ↦ cc (rw failed at h)
        | inl (granted, good) ↦
            let same = ok-injective (rw good at h) in
            (
              claims,
              granted,
              refl,
              good,
              subst (HoldsGranted requested granted) same
                  (session_for-HoldsGranted requested resume_lsn granted),
            )
      ]

  first_message-granted :
      (clock : Clock) (t : ℕ) (a : BucketAssigner) (validate : Text → Result SyncError TokenClaims)
      (bytes : Text) (m : Result Text ClientMessage) (s : Session)
      → env.decode_client bytes ≡ m
      → (first_message a (assign world clock t a) validate m).0 ≡ ok s
      → Subscribes clock t a validate bytes s
  first_message-granted clock t a validate bytes (err e) s d h = cc
  first_message-granted clock t a validate bytes (ok (ack lsn)) s d h = cc
  first_message-granted clock t a validate bytes (ok (write ty id op)) s d h = cc
  first_message-granted clock t a validate bytes (ok ping) s d h = cc
  first_message-granted clock t a validate bytes (ok (subscribe requested token resume_lsn version))
        s d h =
      let (claims, granted, valid, replied, holds) =
        subscribed-granted a (assign world clock t a) requested resume_lsn (validate token) s h in
      (requested, token, resume_lsn, version, claims, granted, d, valid, replied, holds)

  -- A handshake that succeeds has read a binary frame with a `Subscribe` whose token the validator
  -- accepts, and the session holds exactly the buckets that were assigned to the claims of that
  -- token and that the client asked for by the id of their rule, each under its own bucket id.
  pub handshake-granted :
      (clock : Clock) (t : ℕ) (a : BucketAssigner) (validate : Text → Result SyncError TokenClaims)
      (frame : Option (Result Text Frame)) (s : Session)
      → (handshake env world clock t a validate frame).0 ≡ ok s
      → (bytes : Text) × (frame ≡ some (ok (binary bytes))) × Subscribes clock t a validate bytes s
  unfolding handshake
  handshake-granted clock t a validate none s h = cc
  handshake-granted clock t a validate (some (err e)) s h = cc
  handshake-granted clock t a validate (some (ok close)) s h = cc
  handshake-granted clock t a validate (some (ok other)) s h = cc
  handshake-granted clock t a validate (some (ok (binary bytes))) s h = (
    bytes,
    refl,
    first_message-granted clock t a validate bytes (env.decode_client bytes) s refl h,
  )
