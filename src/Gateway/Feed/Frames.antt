-- ===== src/Gateway/Feed/Frames.antt =====
-- crates/pes-gateway/src/connection.rs: what the frames of a bucket hold.
use prometheus_entity_sync.Base.{
  text_eq, List, [], ◌∷◌, ◌++◌, ◌==◌, ==_refl, false, ◌≡◌, refl, sym, ap, ◌∙◌,
}
use mathlib.Core.List.{append_assoc, append-nil}
use prometheus_entity_sync.Core.{BucketId, BucketOp, PgLsn}
use prometheus_entity_sync.Protocol.{delta}
use prometheus_entity_sync.Gateway.Effects.{Event, sent}
use prometheus_entity_sync.Gateway.Deltas.{for_wire}
use prometheus_entity_sync.Gateway.Feed.{ops_of, ops_under}

pub ops_under-append :
    (wire : BucketId) (xs ys : List Event)
    → ops_under wire (xs ++ ys) ≡ ops_under wire xs ++ ops_under wire ys
unfolding ops_under
ops_under-append wire [] ys = refl
ops_under-append wire (ev ∷ xs) ys =
    ap (λ l. ops_of wire ev ++ l) (ops_under-append wire xs ys)
    ∙ sym (append_assoc (ops_of wire ev) (ops_under wire xs) (ops_under wire ys))

-- One more event.
pub ops_under-snoc :
    (wire : BucketId) (events : List Event) (ev : Event) (os : List BucketOp)
    → ops_of wire ev ≡ os
    → ops_under wire (events ++ ev ∷ []) ≡ ops_under wire events ++ os
unfolding ops_under
ops_under-snoc wire events ev os same =
    ops_under-append wire events (ev ∷ [])
    ∙ ap (λ l. ops_under wire events ++ l) (append-nil (ops_of wire ev) ∙ same)

pub ops_of-own :
    (wire : BucketId) (os : List BucketOp) (top : PgLsn)
    → ops_of wire (sent (delta wire os top)) ≡ os
unfolding ops_of
ops_of-own wire os top = rw (==_refl wire) refl

pub ops_of-other :
    (wire b : BucketId) (os : List BucketOp) (top : PgLsn)
    → (b == wire) ≡ false
    → ops_of wire (sent (delta b os top)) ≡ []
unfolding ops_of
ops_of-other wire b os top other = rw other refl

pub for_wire-append :
    (wire : BucketId) (xs ys : List BucketOp)
    → for_wire wire (xs ++ ys) ≡ for_wire wire xs ++ for_wire wire ys
for_wire-append wire [] ys = refl
for_wire-append wire (x ∷ xs) ys =
    ap (λ l. (record x { bucket_id = wire }) ∷ l) (for_wire-append wire xs ys)
