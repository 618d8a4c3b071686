-- ===== src/Snapshot/Stream/Lists.antt =====
-- crates/pes-snapshot/src/stream.rs: the rows of a page as a list.
use prometheus_entity_sync.Base.{
  ok, some, List, [], ◌∷◌, ◌++◌, map, ℕ, zero, suc, ◌<◌, ◌≤◌, length, take, All, ◌≡◌, refl, ap,
  arith,
}
use prometheus_entity_sync.Core.Values.{Json}
use prometheus_entity_sync.Snapshot.Stream.{last_row, all_read}

pub all_read-map : (rows : List Json) → all_read (map (λ row. ok row) rows) ≡ ok rows
all_read-map [] = refl
all_read-map (row ∷ rows) = rw (all_read-map rows) refl

pub take_short : (n : ℕ) (rows : List Json) → length (take n rows) < n → take n rows ≡ rows
take_short zero rows h = absurd (omega arith)
take_short (suc n) [] h = refl
take_short (suc n) (r ∷ rows) h = ap (λ x. r ∷ x) (take_short n rows (omega (arith, h)))

pub length-take-le : (n : ℕ) (rows : List Json) → length (take n rows) ≤ n
length-take-le zero rows = omega arith
length-take-le (suc n) [] = omega arith
length-take-le (suc n) (r ∷ rows) = omega (arith, length-take-le n rows)

pub length-take-le-length : (n : ℕ) (rows : List Json) → length (take n rows) ≤ length rows
length-take-le-length zero rows = omega arith
length-take-le-length (suc n) [] = omega arith
length-take-le-length (suc n) (r ∷ rows) = omega (arith, length-take-le-length n rows)

-- A list with elements has a last one.
pub last_of :
    (rows : List Json)
    → 0 < length rows
    → (front : List Json) × (row : Json) × (rows ≡ front ++ row ∷ []) × (last_row rows ≡ some row)
unfolding last_row
last_of [] h = absurd (omega arith)
last_of (r ∷ []) h = ([], r, refl, refl)
last_of (r ∷ s ∷ rows) h =
    let (front, row, e, l) = last_of (s ∷ rows) (omega arith) in
    (r ∷ front, row, ap (λ x. r ∷ x) e, l)

pub All-middle :
    (P : Json → Type 0) (front back : List Json) (row : Json) → All P (front ++ row ∷ back) → P row
All-middle P [] back row h = h.0
All-middle P (r ∷ front) back row h = All-middle P front back row h.1
