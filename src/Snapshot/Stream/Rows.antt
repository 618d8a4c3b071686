-- ===== src/Snapshot/Stream/Rows.antt =====
-- crates/pes-snapshot/src/stream.rs: lists of rows and the ids that they have.
use prometheus_entity_sync.Base.{
  Text, text_eq, some, List, [], ◌∷◌, ◌++◌, ℕ, suc, ◌+◌, ◌≤◌, length, All, Has, false, Bool-cases,
  ◌==◌, ==_iff, if◌then◌else◌, ◌≡◌, refl, sym, ◌∙◌, ◌⊎◌, inl, inr, arith,
}
use prometheus_entity_sync.Core.Values.{Json}
use prometheus_entity_sync.Snapshot.Stream.{id_of}

-- A row with the id.
abbrev pub HasId : Text → List Json → Type 0
HasId i rows = (row : Json) × Has row rows × (id_of row ≡ some i)

-- Without its first occurrence.
pub without : Text → List Text → List Text
without i [] = []
without i (j ∷ ids) = if i == j then ids else j ∷ without i ids

pub Has-without :
    (i j : Text) (ids : List Text) → (i == j) ≡ false → Has j ids → Has j (without i ids)
unfolding without
Has-without i j [] other h = absurd h
Has-without i j (c ∷ ids) other h = elim (Bool-cases (i == c)) [
  | inl here ↦ elim h [
    | inl e ↦ cc ((==_iff i j).1 ((==_iff i c).0 here ∙ e), other)
    | inr k ↦ rw here k
  ]
  | inr there ↦ elim h [
    | inl e ↦ rw there (inl e)
    | inr k ↦ rw there (inr (Has-without i j ids other k))
  ]
]

pub length-without :
    (i : Text) (ids : List Text) → Has i ids → length (without i ids) + 1 ≡ length ids
unfolding without
length-without i [] h = absurd h
length-without i (c ∷ ids) h = elim (Bool-cases (i == c)) [
  | inl here ↦ rw here (omega arith)
  | inr there ↦ elim h [
    | inl e ↦ cc ((==_iff i c).1 (sym e), there)
    | inr k ↦ rw there (omega (arith, length-without i ids k))
  ]
]

pub Has-end : (front : List Json) (row : Json) → Has row (front ++ row ∷ [])
Has-end [] row = inl refl
Has-end (r ∷ front) row = inr (Has-end front row)

pub HasId-append :
    (i : Text) (front back : List Json) → HasId i (front ++ back) → HasId i front ⊎ HasId i back
HasId-append i [] back h = inr h
HasId-append i (r ∷ front) back (row, inl e, named) = inl (row, inl e, named)
HasId-append i (r ∷ front) back (row, inr has, named) =
    elim (HasId-append i front back (row, has, named)) [
      | inl (x, k, same) ↦ inl (x, inr k, same)
      | inr k ↦ inr k
    ]

pub HasId-front : (i : Text) (front back : List Json) → HasId i front → HasId i (front ++ back)
HasId-front i [] back (row, has, named) = absurd has
HasId-front i (r ∷ front) back (row, inl e, named) = (row, inl e, named)
HasId-front i (r ∷ front) back (row, inr has, named) =
    let (x, k, same) = HasId-front i front back (row, has, named) in (x, inr k, same)

pub HasId-back : (i : Text) (front back : List Json) → HasId i back → HasId i (front ++ back)
HasId-back i [] back h = h
HasId-back i (r ∷ front) back h = let (x, k, same) = HasId-back i front back h in (x, inr k, same)

pub All-front : (P : Json → Type 0) (xs ys : List Json) → All P (xs ++ ys) → All P xs
All-front P [] ys h = tt
All-front P (x ∷ xs) ys h = (h.0, All-front P xs ys h.1)

pub longer :
    (front : List Json) (row : Json) (back : List Json) (fuel : ℕ)
    → fuel ≤ length back
    → suc fuel ≤ length ((front ++ row ∷ []) ++ back)
longer [] row back fuel h = omega (arith, h)
longer (r ∷ front) row back fuel h = omega (arith, longer front row back fuel h)
