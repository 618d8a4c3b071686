-- ===== src/Gateway/Feed/Exact.antt =====
-- crates/pes-gateway/src/connection.rs with crates/pes-oplog/src/store.rs: a client has each op of a bucket
-- once, in order, and all of them after a poll.
use prometheus_entity_sync.Base.{
  text_eq, get, keys, All, Has, get-Has-keys, ok, none, some, List, [], ◌∷◌, ◌++◌, ◌≤◌, ◌≡◌, refl,
  sym, ap, ◌∙◌, arith,
}
use mathlib.Core.Path.{subst}
use mathlib.Core.List.{append_assoc, append-nil}
use prometheus_entity_sync.Core.{BucketAssignment, BucketId, BucketOp, PgLsn}
use prometheus_entity_sync.Oplog.Redb.{Backend}
use prometheus_entity_sync.Oplog.Store.{BucketOpLog, Faults, Call}
use prometheus_entity_sync.Oplog.Store.View.{Fits, IsSound, stored_at}
use prometheus_entity_sync.Oplog.Store.Append.{append-IsSound}
use prometheus_entity_sync.Oplog.Store.Compact.{compact-IsSound}
use prometheus_entity_sync.Oplog.Store.Scan.{IsAscendingLsn}
use prometheus_entity_sync.Protocol.{ServerMessage}
use prometheus_entity_sync.Gateway.Effects.{Env, Event}
use prometheus_entity_sync.Gateway.Connection.{Session}
use prometheus_entity_sync.Gateway.Deltas.{scan_from, or_zero, for_wire, poll_deltas}
use prometheus_entity_sync.Gateway.Deltas.Seen.{scan_from-le}
use prometheus_entity_sync.Gateway.Deltas.Settled.{IsSettled}
use prometheus_entity_sync.Gateway.Deltas.Once.{poll_deltas-once}
use prometheus_entity_sync.Gateway.Deltas.Total.{poll_deltas-Succeeds}
use prometheus_entity_sync.Gateway.Serve.{raise_lsns}
use prometheus_entity_sync.Gateway.Feed.{
  Feed, Feeds, begins, accepts, refuses, elsewhere, compacts, polls, acks, other_event, ops_under,
}
use prometheus_entity_sync.Gateway.Feed.Ascending.{IsAscendingLsn-snoc}
use prometheus_entity_sync.Gateway.Feed.Frames.{ops_under-snoc}
use prometheus_entity_sync.Gateway.Feed.Pending.{
  IsPending, scan-IsPending, IsPending-kept, IsPending-accepted, stored-refused, stored-elsewhere,
  stored-compacted,
}
use prometheus_entity_sync.Gateway.Feed.Invariant.{IsOwnName, IsFed, All-after}
use prometheus_entity_sync.Gateway.Feed.Polls.{poll_deltas-IsFed}
use prometheus_entity_sync.Gateway.Feed.Acks.{get-raise_lsns}

All-before : (P : BucketOp → Type 0) (xs ys : List BucketOp) → All P (xs ++ ys) → All P xs
All-before P [] ys h = tt
All-before P (x ∷ xs) ys h = (h.0, All-before P xs ys h.1)

module _ (K : Backend) (env : Env) (b : BucketId) (a : BucketAssignment) (start : Feed K)
    (hb : Fits b) (named : IsOwnName start.session.authorized_buckets b a)
    (sound : IsSound K start.log) (none_sent : ops_under a.rule_id start.events ≡ []) where
  abbrev first : PgLsn
  first = scan_from start.session b

  abbrev Fed : List BucketOp → Feed K → Type 0
  Fed = IsFed K env b a start.session.authorized_buckets hb named first

  -- A log in which the bucket stands as before.
  log-IsFed :
      (accepted : List BucketOp) (f : Feed K) (log : BucketOpLog K) (fed : Fed accepted f)
      → IsSound K log
      → IsPending K b log (scan_from f.session b) fed.pending
      → Fed accepted (record f { log = log })
  log-IsFed accepted f log fed kept waiting = record {
    sound = kept;
    buckets = fed.buckets;
    ascending = fed.ascending;
    seen = fed.seen;
    pending = fed.pending;
    split = fed.split;
    delivered = fed.delivered;
    waiting = waiting;
    frontier = fed.frontier;
  }

  Feeds-IsFed :
      (accepted : List BucketOp) (f : Feed K) → Feeds K env b start accepted f → Fed accepted f
  Feeds-IsFed _ _ (begins io waiting h) =
      let scanned = scan-IsPending K b io start.log first waiting sound hb (scan_from-le _) h in
      record {
        sound = sound;
        buckets = refl;
        ascending = scanned.ascending;
        seen = [];
        pending = waiting;
        split = refl;
        delivered = none_sent;
        waiting = scanned;
        frontier = λ l low h. low;
      }
  Feeds-IsFed _ _ (accepts {accepted = acc} {f = f} io now op l before (low, newer, high) done) =
      let fed = Feeds-IsFed acc f before in
      record {
        sound = append-IsSound K io now f.log b op hb (omega (arith, high)) fed.sound;
        buckets = fed.buckets;
        ascending = IsAscendingLsn-snoc acc op fed.ascending newer;
        seen = fed.seen;
        pending = fed.pending ++ op ∷ [];
        split = ap (λ l. l ++ op ∷ []) fed.split ∙ append_assoc fed.seen fed.pending (op ∷ []);
        delivered = fed.delivered;
        waiting =
            IsPending-accepted K b io now f.log op l (scan_from f.session b) fed.pending hb
              (fed.frontier op.lsn low newer) high
              (All-after K env b a start.session.authorized_buckets hb named first _ fed.seen
                fed.pending (subst (All _) fed.split newer))
              done fed.waiting;
        frontier = λ l first_le h. fed.frontier l first_le (All-before _ acc (op ∷ []) h);
      }
  Feeds-IsFed _ _ (refuses {accepted = acc} {f = f} io now c op e before hc hl failed) =
      subst (λ log. Fed acc (record f { log = log }))
        (sym (stored-refused K b io now f.log c op e hc hl failed)) (Feeds-IsFed acc f before)
  Feeds-IsFed _ _ (elsewhere {accepted = acc} {f = f} io now c op before other hc hl) =
      let fed = Feeds-IsFed acc f before in
      log-IsFed acc f _ fed (append-IsSound K io now f.log c op hc hl fed.sound) (
        IsPending-kept K b f.log _ (scan_from f.session b) fed.pending
          (λ l low high.
            stored-elsewhere K b io now f.log c op hb hc hl other l (omega (arith, high)))
          fed.waiting)
  Feeds-IsFed _ _ (compacts {accepted = acc} {f = f} io now before young) =
      let fed = Feeds-IsFed acc f before in
      log-IsFed acc f _ fed (compact-IsSound K io now f.log fed.sound) (
        IsPending-kept K b f.log _ (scan_from f.session b) fed.pending
          (λ l low high. stored-compacted K b io now f.log l fed.sound (λ st. young l st low high))
          fed.waiting)
  Feeds-IsFed _ _ (polls {accepted = acc} {f = f} io log_at s before at done) =
      poll_deltas-IsFed K env b a start.session.authorized_buckets hb named first acc log_at io f s
        at done (Feeds-IsFed acc f before)
  Feeds-IsFed _ _ (acks {accepted = acc} {f = f} lsn tracked before found le) =
      let fed = Feeds-IsFed acc f before in
      let from : or_zero (get (raise_lsns lsn f.session.last_seen_lsn) b) ≡ scan_from f.session b =
        ap or_zero (get-raise_lsns lsn f.session.last_seen_lsn b tracked le found ∙ sym found) in
      record {
        sound = fed.sound;
        buckets = fed.buckets;
        ascending = fed.ascending;
        seen = fed.seen;
        pending = fed.pending;
        split = fed.split;
        delivered = fed.delivered;
        waiting = subst (λ x. IsPending K b f.log x fed.pending) (sym from) fed.waiting;
        frontier = λ l low h. subst (λ x. x ≤ l) (sym from) (fed.frontier l low h);
      }
  Feeds-IsFed _ _ (other_event {accepted = acc} {f = f} ev before none_of) =
      let fed = Feeds-IsFed acc f before in
      record {
        sound = fed.sound;
        buckets = fed.buckets;
        ascending = fed.ascending;
        seen = fed.seen;
        pending = fed.pending;
        split = fed.split;
        delivered =
            ops_under-snoc a.rule_id f.events ev [] (none_of a.rule_id)
            ∙ append-nil (ops_under a.rule_id f.events)
            ∙ fed.delivered;
        waiting = fed.waiting;
        frontier = fed.frontier;
      }

  -- What the client has is a front part of what was accepted, and the rest waits in the log.
  abbrev pub IsInOrder : List BucketOp → Feed K → Type 0
  IsInOrder accepted f =
      IsAscendingLsn accepted
      × (seen : List BucketOp) × (rest : List BucketOp) × (accepted ≡ seen ++ rest)
      × (ops_under a.rule_id f.events ≡ for_wire a.rule_id seen)
      × IsPending K b f.log (scan_from f.session b) rest

  -- Start from a sound log and a session with the bucket, whose id is in range and whose rule no
  -- other bucket of the session has, before anything of it was sent. However appends to any bucket,
  -- failed ones too, with ids and LSNs in range, compactions that find no waiting op old, successful
  -- polls, acknowledgements of no more than was sent of the bucket, and other events of the
  -- connection follow one another, if each op that the bucket accepts has an LSN above those before,
  -- below `u64::MAX` and not below the start of the first scan: the ops that stood there for the
  -- client and those accepted since go strictly up by LSN; the delta frames for the bucket hold a
  -- front part of them, each op once, in order, under the client's name; and the rest is what is
  -- stored from the start of the next scan on.
  pub Feeds-IsInOrder :
      (accepted : List BucketOp) (f : Feed K)
      → Feeds K env b start accepted f
      → IsInOrder accepted f
  Feeds-IsInOrder accepted f h =
      let fed = Feeds-IsFed accepted f h in
      (fed.ascending, fed.seen, fed.pending, fed.split, fed.delivered, fed.waiting)

  none_left :
      (accepted : List BucketOp) (f : Feed K) (fed : Fed accepted f)
      → IsSettled K (λ c. f.log) f.session b
      → (pending : List BucketOp) → fed.pending ≡ pending
      → ops_under a.rule_id f.events ≡ for_wire a.rule_id accepted
  none_left accepted f fed settled [] same =
      let all : accepted ≡ fed.seen =
        fed.split ∙ ap (λ l. fed.seen ++ l) same ∙ append-nil fed.seen in
      fed.delivered ∙ ap (for_wire a.rule_id) (sym all)
  none_left accepted f fed settled (o ∷ os) same =
      let (low, high, st, found, at) = (subst (IsPending K b f.log _) same fed.waiting).each.0 in
      absurd (settled o.lsn st low high found)

  -- After any such course, a poll that finds the bucket as it stands succeeds, if no call of the
  -- database fails, the socket takes every message, the ids of the session's buckets are in range and
  -- the logs that are read are sound; and then the frames hold every op that the bucket has accepted.
  pub Feeds-complete :
      (accepted : List BucketOp) (f : Feed K) (log_at : BucketId → BucketOpLog K) (io : Faults)
      → Feeds K env b start accepted f
      → ((c : BucketId) → IsSound K (log_at c))
      → log_at b ≡ f.log
      → All Fits (keys f.session.authorized_buckets)
      → ((c : Call) → io c ≡ none)
      → ((events : List Event) (m : ServerMessage) → env.send events m ≡ ok tt)
      → (s : Session) × ((poll_deltas env K log_at io f.session f.events).0 ≡ ok s)
        × (ops_under a.rule_id (poll_deltas env K log_at io f.session f.events).1
            ≡ for_wire a.rule_id accepted)
  Feeds-complete accepted f log_at io h sounds at fits none_fails takes_all =
      let (s, done) =
        poll_deltas-Succeeds K env log_at io none_fails takes_all sounds f.session f.events fits in
      let fed = Feeds-IsFed accepted _ (polls io log_at s h at done) in
      let settled =
        (poll_deltas-once K env log_at io io f.session s f.events [] sounds fits done).0 b (
          subst (λ m. Has b (keys m)) (sym (Feeds-IsFed accepted f h).buckets)
            (get-Has-keys start.session.authorized_buckets b a named.0)) in
      (
        s,
        done,
        none_left accepted _ fed
            (λ l st low high found.
              settled l st low high (subst (λ log. stored_at K log b l ≡ some st) (sym at) found))
            fed.pending refl,
      )
