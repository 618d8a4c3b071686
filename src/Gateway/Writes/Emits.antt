-- ===== src/Gateway/Writes/Emits.antt =====
-- crates/pes-gateway/src/connection.rs: the events that an action of a connection adds.
use prometheus_entity_sync.Base.{
  Text, All, All-append, Result, ok, err, map_err, List, [], ◌∷◌, ◌++◌, ◌≡◌, refl, ap, ◌∙◌,
}
use mathlib.Core.List.{append_assoc}
use prometheus_entity_sync.Core.{SyncError}
use prometheus_entity_sync.Gateway.Effects.{Event, Conn, continue_conn}

-- `after` goes on from `events` with what satisfies P.
abbrev pub Emits : (Event → Type 0) → List Event → List Event → Type 0
Emits P events after = (new : List Event) × (after ≡ events ++ new) × All P new

module _ (P : Event → Type 0) where
  pub Emits-one : (events : List Event) (ev : Event) → P ev → Emits P events (events ++ ev ∷ [])
  Emits-one events ev h = (ev ∷ [], refl, (h, tt))

  pub Emits-append :
      (events mid after : List Event)
      → Emits P events mid
      → Emits P mid after
      → Emits P events after
  Emits-append events mid after (n1, e1, h1) (n2, e2, h2) =
      (n1 ++ n2, e2 ∙ ap (λ l. l ++ n2) e1 ∙ append_assoc events n1 n2, All-append P n1 n2 h1 h2)

  pub Emits-continue :
      {A B : Type 0} (r : Result SyncError A) (ev : Event) (events : List Event) (f : A → Conn B)
      → P ev
      → ((a : A) → r ≡ ok a → Emits P (events ++ ev ∷ []) (f a (events ++ ev ∷ [])).1)
      → Emits P events (continue_conn (r, events ++ ev ∷ []) f).1
  Emits-continue (ok a) ev events f h k =
      Emits-append events (events ++ ev ∷ []) _ (Emits-one events ev h) (k a refl)
  Emits-continue (err e) ev events f h k = Emits-one events ev h

pub map_err-ok :
    {A : Type 0} (f : Text → SyncError) (r : Result Text A) (a : A) → map_err f r ≡ ok a → r ≡ ok a
map_err-ok f (ok b) a h = cc
map_err-ok f (err e) a h = cc
