-- ===== src/Gateway/Run/History.antt =====
-- crates/pes-gateway/src/connection.rs: events that are judged by what happened before them.
use prometheus_entity_sync.Base.{
  AllAt, EmitsAt, EmitsAt-append, All, Result, ok, err, List, [], ◌∷◌, ◌++◌, ◌≡◌, refl, sym,
}
use mathlib.Core.Path.{subst}
use mathlib.Core.List.{append_assoc, append-nil}
use prometheus_entity_sync.Core.{SyncError}
use prometheus_entity_sync.Gateway.Effects.{Event, Conn, continue_conn}
use prometheus_entity_sync.Gateway.Writes.Emits.{Emits}

module _ (P : List Event → Event → Type 0) where
  All-AllAt :
      (Q : Event → Type 0) (events before new : List Event)
      → ((rest : List Event) (ev : Event) → Q ev → P (events ++ rest) ev)
      → All Q new
      → AllAt P (events ++ before) new
  All-AllAt Q events before [] f h = tt
  All-AllAt Q events before (ev ∷ new) f h = (
    f before ev h.0,
    subst (λ l. AllAt P l new) (sym (append_assoc events before (ev ∷ [])))
        (All-AllAt Q events (before ++ ev ∷ []) new f h.1),
  )

  -- From what is said of each event alone, given what it means after any that follow `events`.
  pub Emits-EmitsAt :
      (Q : Event → Type 0) (events after : List Event)
      → ((rest : List Event) (ev : Event) → Q ev → P (events ++ rest) ev)
      → Emits Q events after
      → EmitsAt P events after
  Emits-EmitsAt Q events after f (new, same, h) =
      (new, same, subst (λ l. AllAt P l new) (append-nil events) (All-AllAt Q events [] new f h))

  pub EmitsAt-continue :
      {A B : Type 0} (events : List Event) (x : Result SyncError A × List Event) (f : A → Conn B)
      → EmitsAt P events x.1
      → ((a : A) → x.0 ≡ ok a → EmitsAt P x.1 (f a x.1).1)
      → EmitsAt P events (continue_conn x f).1
  EmitsAt-continue events (ok a, mid) f h k = EmitsAt-append P events mid _ h (k a refl)
  EmitsAt-continue events (err e, mid) f h k = h
