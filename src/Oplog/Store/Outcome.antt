-- ===== src/Oplog/Store/Outcome.antt =====
-- A chain of calls that may each fail comes to its end or stops at an error.
use prometheus_entity_sync.Base.{
  Result, ok, err, map_err, ◌>>=◌, ◌>>◌, Option, none, some, ◌≡◌, refl, ◌⊎◌, inl, inr, ap,
}
use prometheus_entity_sync.Oplog.Store.{OpLogError, attempt}

abbrev pub Outcome {ℓ κ} : {E : Type ℓ} {A : Type κ} → Result E A → A → Type (ℓ ⊔ κ)
Outcome {E} r a = ((e : E) × (r ≡ err e)) ⊎ (r ≡ ok a)

module _ {ℓ} {A : Type ℓ} where
  pub attempt-Outcome :
      (o : Option OpLogError) (r : Result OpLogError A) (a : A)
      → Outcome r a
      → Outcome (attempt o >> r) a
  attempt-Outcome none r a h = h
  attempt-Outcome (some e) r a h = inl (e, refl)

  pub bind-Outcome {κ} :
      {B : Type κ} (r : Result OpLogError A) (a : A) (f : A → Result OpLogError B) (b : B)
      → Outcome r a
      → Outcome (f a) b
      → Outcome (r >>= f) b
  bind-Outcome (ok x) a f b (inl (e, p)) k = cc
  bind-Outcome (err x) a f b (inl (e, p)) k = inl (x, refl)
  bind-Outcome r a f b (inr p) k = rw p k

  pub map_err-Outcome {κ} :
      {F : Type κ} (f : OpLogError → F) (r : Result OpLogError A) (a : A)
      → Outcome r a
      → Outcome (map_err f r) a
  map_err-Outcome f r a (inl (e, p)) = inl (f e, ap (map_err f) p)
  map_err-Outcome f r a (inr p) = inr (ap (map_err f) p)
