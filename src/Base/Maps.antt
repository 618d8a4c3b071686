-- ===== src/Base/Maps.antt =====
-- `HashMap`, `DashMap`: association lists. The order of the entries stands for the iteration order,
-- which Rust leaves open, so a theorem about all lists is one about every order.
use mathlib.Core.Path.{◌≡◌, refl}
use mathlib.Core.Bool.{Bool, true, false}
use mathlib.Core.List.{List, [], ◌∷◌, map}
use mathlib.Core.Option.{Option, none, some}
use native.Mathlib.Omega.{arith}
use mathlib.Core.Logic.{inl, inr}
use prometheus_entity_sync.Base.Lists.{Has}
use prometheus_entity_sync.Base.Tests.{Bool-cases, Eq, ◌==◌, ==_iff, ==_refl, if◌then◌else◌}

abbrev pub Map {ℓ κ} : Type ℓ → Type κ → Type (ℓ ⊔ κ)
Map K V = List (K × V)

module _ {ℓ κ} {K : Type ℓ} {V : Type κ} ⦃e : Eq K⦄ where
  unfoldable pub get : Map K V → K → Option V
  get [] k = none
  get ((j, v) ∷ m) k = if j == k then some v else get m k

  unfoldable pub insert : Map K V → K → V → Map K V
  insert [] k v = (k, v) ∷ []
  insert ((j, w) ∷ m) k v = if j == k then (k, v) ∷ m else (j, w) ∷ insert m k v

  unfoldable pub contains_key : Map K V → K → Bool
  contains_key [] k = false
  contains_key ((j, v) ∷ m) k = if j == k then true else contains_key m k

  pub get-insert :
      (m : Map K V) (k : K) (v : V) (j : K)
      → get (insert m k v) j ≡ (if k == j then some v else get m j)
  unfolding get insert
  get-insert [] k v j = refl
  get-insert ((i, w) ∷ m) k v j =
      ground (arith, ==_iff i k, ==_iff i j, ==_iff k j, get-insert m k v j)

  pub get-insert_self : (m : Map K V) (k : K) (v : V) → get (insert m k v) k ≡ some v
  get-insert_self m k v = rw (get-insert m k v k, ==_refl k)

  pub contains_key-get :
      (m : Map K V) (k : K) → contains_key m k ≡ true → (v : V) × (get m k ≡ some v)
  unfolding get contains_key
  contains_key-get [] k h = cc
  contains_key-get ((j, v) ∷ m) k h = elim (Bool-cases (j == k)) [
    | inl p ↦ (v, rw p)
    | inr q ↦ let r = contains_key-get m k (rw q at h) in (r.0, rw q r.1)
  ]

  abbrev pub keys : Map K V → List K
  keys m = map (λ e. e.0) m

  abbrev pub values : Map K V → List V
  values m = map (λ e. e.1) m

  pub get-contains_key : (m : Map K V) (k : K) (v : V) → get m k ≡ some v → contains_key m k ≡ true
  unfolding get contains_key
  get-contains_key [] k v h = cc
  get-contains_key ((j, w) ∷ m) k v h = ground (arith, get-contains_key m k v)

module _ {ℓ} {K : Type ℓ} ⦃e : Eq K⦄ {V : Type 0} where
  pub Has-value : (m : Map K V) (k : K) (v : V) → get m k ≡ some v → Has v (values m)
  unfolding get
  Has-value [] k v h = cc
  Has-value ((j, w) ∷ m) k v h = elim (Bool-cases (j == k)) [
    | inl p ↦ inl (ground (arith, p, h))
    | inr q ↦ inr (Has-value m k v (rw q at h))
  ]

module _ {K : Type 0} ⦃e : Eq K⦄ {V : Type 0} where
  pub Has-entry : (m : Map K V) (k : K) (v : V) → get m k ≡ some v → Has (k, v) m
  unfolding get
  Has-entry [] k v h = cc
  Has-entry ((j, w) ∷ m) k v h = elim (Bool-cases (j == k)) [
    | inl p ↦ let same : w ≡ v = ground (arith, p, h) in inl (λ i. ((==_iff j k).0 p i, same i))
    | inr q ↦ inr (Has-entry m k v (rw q at h))
  ]

  pub get-Has-keys : (m : Map K V) (k : K) (v : V) → get m k ≡ some v → Has k (keys m)
  unfolding get
  get-Has-keys [] k v h = cc
  get-Has-keys ((j, w) ∷ m) k v h = elim (Bool-cases (j == k)) [
    | inl p ↦ inl ((==_iff j k).0 p)
    | inr q ↦ inr (get-Has-keys m k v (rw q at h))
  ]
