-- ===== src/Base/Lists.antt =====
-- Lists measured by native numbers, under the library's names, and predicates over them.
use Prim.Native.Nat.{ℕ, zero, suc, ◌+◌, ◌-◌}
use mathlib.Core.Path.{◌≡◌, refl}
use mathlib.Core.Bool.{Bool, true, ◌&&◌}
use mathlib.Core.List.{List, [], ◌∷◌, ◌++◌, append_assoc, append-nil}
use native.Mathlib.Omega.{arith}
use mathlib.Core.Path.{◌∙◌, ap, sym, subst}
use mathlib.Core.Logic.{◌⊎◌, inl, inr}
use prometheus_entity_sync.Base.Tests.{if◌then◌else◌, Bool-cases}

module _ {ℓ} {A : Type ℓ} where
  abbrev pub length : List A → ℕ
  length [] = 0
  length (x ∷ xs) = suc (length xs)

  abbrev pub take : ℕ → List A → List A
  take zero xs = []
  take (suc n) [] = []
  take (suc n) (x ∷ xs) = x ∷ take n xs

  abbrev pub drop : ℕ → List A → List A
  drop zero xs = xs
  drop (suc n) [] = []
  drop (suc n) (x ∷ xs) = drop n xs

  -- `iter().all(p)`
  abbrev pub all_test : (A → Bool) → List A → Bool
  all_test p [] = true
  all_test p (x ∷ xs) = p x && all_test p xs

  -- `filter`/`retain` by a test
  abbrev pub keep_if : (A → Bool) → List A → List A
  keep_if p [] = []
  keep_if p (x ∷ xs) = if p x then x ∷ keep_if p xs else keep_if p xs

  pub length-append : (xs ys : List A) → length (xs ++ ys) ≡ length xs + length ys
  length-append [] ys = omega arith
  length-append (x ∷ xs) ys = omega (arith, length-append xs ys)

  pub drop-length : (xs ys : List A) → drop (length xs) (xs ++ ys) ≡ ys
  drop-length [] ys = refl
  drop-length (x ∷ xs) ys = drop-length xs ys

  pub take-append-drop : (n : ℕ) (xs : List A) → take n xs ++ drop n xs ≡ xs
  take-append-drop zero xs = refl
  take-append-drop (suc n) [] = refl
  take-append-drop (suc n) (x ∷ xs) = rw (take-append-drop n xs)

  pub length-drop : (n : ℕ) (xs : List A) → length (drop n xs) ≡ length xs - n
  length-drop zero xs = omega arith
  length-drop (suc n) [] = omega arith
  length-drop (suc n) (x ∷ xs) = omega (arith, length-drop n xs)

  -- P at each element.
  abbrev pub All {κ} : (A → Type κ) → List A → Type κ
  All P [] = Unit
  All P (x ∷ xs) = P x × All P xs

  pub All-append {κ} :
      (Q : A → Type κ) (front back : List A) → All Q front → All Q back → All Q (front ++ back)
  All-append Q [] back here there = there
  All-append Q (x ∷ front) back (first, here) there = (first, All-append Q front back here there)

  pub All-map_weaken {κ μ} :
      (P : A → Type κ) (Q : A → Type μ)
      → ((a : A) → P a → Q a)
      → (xs : List A) → All P xs
      → All Q xs
  All-map_weaken P Q f [] h = tt
  All-map_weaken P Q f (x ∷ xs) h = (f x h.0, All-map_weaken P Q f xs h.1)

-- `contains`, with the place of the element.
module _ {A : Type 0} where
  abbrev pub Has : A → List A → Type 0
  Has x [] = ⊥
  Has x (y ∷ ys) = (y ≡ x) ⊎ Has x ys

module _ {ℓ} {A : Type ℓ} where
  pub All-keep_if {κ} :
      (P : A → Type κ) (p : A → Bool) (xs : List A) → All P xs → All P (keep_if p xs)
  All-keep_if P p [] h = tt
  All-keep_if P p (x ∷ xs) h = elim (Bool-cases (p x)) [
    | inl keep ↦ rw keep (h.0, All-keep_if P p xs h.1)
    | inr drops ↦ rw drops (All-keep_if P p xs h.1)
  ]

  -- What passes the test satisfies it.
  pub keep_if-All : (p : A → Bool) (xs : List A) → All (λ x. p x ≡ true) (keep_if p xs)
  keep_if-All p [] = tt
  keep_if-All p (x ∷ xs) = elim (Bool-cases (p x)) [
    | inl keep ↦ rw keep (keep, keep_if-All p xs)
    | inr drops ↦ rw drops (keep_if-All p xs)
  ]

module _ {A : Type 0} where
  pub Has-keep_if :
      (p : A → Bool) (x : A) (xs : List A) → Has x xs → p x ≡ true → Has x (keep_if p xs)
  Has-keep_if p x [] h k = absurd h
  Has-keep_if p x (y ∷ ys) (inl e) k = rw (ap p e ∙ k) (inl e)
  Has-keep_if p x (y ∷ ys) (inr h) k = elim (Bool-cases (p y)) [
    | inl keep ↦ rw keep (inr (Has-keep_if p x ys h k))
    | inr drops ↦ rw drops (Has-keep_if p x ys h k)
  ]

  pub All-Has {κ} : (P : A → Type κ) (x : A) (xs : List A) → All P xs → Has x xs → P x
  All-Has P x [] h m = absurd m
  All-Has P x (y ∷ ys) h (inl e) = subst P e h.0
  All-Has P x (y ∷ ys) h (inr m) = All-Has P x ys h.1 m

  Has-weaken-All : (y : A) (xs zs : List A) → All (λ x. Has x zs) xs → All (λ x. Has x (y ∷ zs)) xs
  Has-weaken-All y [] zs h = tt
  Has-weaken-All y (x ∷ xs) zs h = (inr h.0, Has-weaken-All y xs zs h.1)

  pub each-Has : (xs : List A) → All (λ x. Has x xs) xs
  each-Has [] = tt
  each-Has (x ∷ xs) = (inl refl, Has-weaken-All x xs xs (each-Has xs))

  -- Each element of `new` satisfies P after those that stand before it.
  abbrev pub AllAt : (List A → A → Type 0) → List A → List A → Type 0
  AllAt P before [] = Unit
  AllAt P before (x ∷ new) = P before x × AllAt P (before ++ x ∷ []) new

  pub AllAt-append :
      (P : List A → A → Type 0) (before n1 n2 : List A)
      → AllAt P before n1
      → AllAt P (before ++ n1) n2
      → AllAt P before (n1 ++ n2)
  AllAt-append P before [] n2 h k = subst (λ l. AllAt P l n2) (append-nil before) k
  AllAt-append P before (x ∷ n1) n2 h k = (
    h.0,
    AllAt-append P (before ++ x ∷ []) n1 n2 h.1
        (subst (λ l. AllAt P l n2) (sym (append_assoc before (x ∷ []) n1)) k),
  )

  -- `after` goes on from `before` with elements that satisfy P, each after those before it.
  abbrev pub EmitsAt : (List A → A → Type 0) → List A → List A → Type 0
  EmitsAt P before after = (new : List A) × (after ≡ before ++ new) × AllAt P before new

  pub EmitsAt-none : (P : List A → A → Type 0) (before : List A) → EmitsAt P before before
  EmitsAt-none P before = ([], sym (append-nil before), tt)

  pub EmitsAt-one :
      (P : List A → A → Type 0) (before : List A) (x : A)
      → P before x
      → EmitsAt P before (before ++ x ∷ [])
  EmitsAt-one P before x h = (x ∷ [], refl, (h, tt))

  pub EmitsAt-append :
      (P : List A → A → Type 0) (before mid after : List A)
      → EmitsAt P before mid
      → EmitsAt P mid after
      → EmitsAt P before after
  EmitsAt-append P before mid after (n1, e1, h1) (n2, e2, h2) = (
    n1 ++ n2,
    e2 ∙ ap (λ l. l ++ n2) e1 ∙ append_assoc before n1 n2,
    AllAt-append P before n1 n2 h1 (subst (λ l. AllAt P l n2) e1 h2),
  )

  pub Has-snoc : (x : A) (xs : List A) → Has x (xs ++ x ∷ [])
  Has-snoc x [] = inl refl
  Has-snoc x (y ∷ xs) = inr (Has-snoc x xs)

  pub Has-prefix : (x y : A) (xs : List A) → Has x xs → Has x (xs ++ y ∷ [])
  Has-prefix x y [] h = absurd h
  Has-prefix x y (z ∷ xs) (inl e) = inl e
  Has-prefix x y (z ∷ xs) (inr h) = inr (Has-prefix x y xs h)
