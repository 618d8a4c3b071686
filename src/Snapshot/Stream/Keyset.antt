-- ===== src/Snapshot/Stream/Keyset.antt =====
-- crates/pes-snapshot/src/stream.rs: rows in the order of their ids, and the ids that they have.
use prometheus_entity_sync.Base.{
  Text, text_eq, Option, none, some, List, [], ◌∷◌, ◌++◌, ℕ, zero, suc, ◌≤◌, length, take, keep_if,
  All, All-Has, All-append, Has, Bool, true, false, Bool-cases, Option-cases, ◌==◌, ==_iff, ◌≡◌,
  refl, sym, inl, inr, arith,
}
use mathlib.Core.Path.{subst}
use prometheus_entity_sync.Core.Values.{Json}
use prometheus_entity_sync.Snapshot.Stream.{id_of}
use prometheus_entity_sync.Snapshot.Stream.Pages.{follows, after_cursor, IsOrdered}
use prometheus_entity_sync.Snapshot.Stream.Rows.{
  HasId, Has-end, without, Has-without, length-without, All-front,
}

module _ (before : Text → Text → Bool)
    (asym : (a b : Text) → before a b ≡ true → before b a ≡ false)
    (trans : (a b c : Text) → before a b ≡ true → before b c ≡ true → before a c ≡ true) where
  abbrev pub Later : Text → Json → Type 0
  Later i row = follows before i (id_of row) ≡ true

  unlike : (i j : Text) → before i j ≡ true → (i == j) ≡ false
  unlike i j h = elim (Bool-cases (i == j)) [
    | inl same ↦
        let e : i ≡ j = (==_iff i j).0 same in
        let k : before i i ≡ true = subst (λ x. before i x ≡ true) (sym e) h in cc (k, asym i i k)
    | inr other ↦ other
  ]

  pub Later-id : (i j : Text) (row : Json) → Later i row → id_of row ≡ some j → before i j ≡ true
  Later-id i j row h e = subst (λ o. follows before i o ≡ true) e h

  -- Rows in order have different ids: there are no more of them than ids.
  pub ordered_bounded :
      (rows : List Json) (ids : List Text)
      → IsOrdered before rows
      → ((i : Text) → HasId i rows → Has i ids)
      → length rows ≤ length ids
  ordered_bounded [] ids h f = omega arith
  ordered_bounded (row ∷ rows) ids ((i, named, later), ordered) f =
      let has : Has i ids = f i (row, inl refl, named) in
      let ih = ordered_bounded rows (without i ids) ordered (λ j (r, member, same).
        Has-without i j ids
          (unlike i j (Later-id i j r (All-Has (Later i) r rows later member) same))
          (f j (r, inr member, same))) in
      omega (arith, ih, length-without i ids has)

  keep-Later :
      (p : Json → Bool) (i : Text) (rows : List Json)
      → All (Later i) rows
      → All (Later i) (keep_if p rows)
  keep-Later p i [] h = tt
  keep-Later p i (r ∷ rows) h = elim (Bool-cases (p r)) [
    | inl keep ↦ rw keep (h.0, keep-Later p i rows h.1)
    | inr drops ↦ rw drops (keep-Later p i rows h.1)
  ]

  keep-IsOrdered :
      (p : Json → Bool) (rows : List Json)
      → IsOrdered before rows
      → IsOrdered before (keep_if p rows)
  keep-IsOrdered p [] h = tt
  keep-IsOrdered p (r ∷ rows) ((i, e, later), ordered) = elim (Bool-cases (p r)) [
    | inl keep ↦ rw keep ((i, e, keep-Later p i rows later), keep-IsOrdered p rows ordered)
    | inr drops ↦ rw drops (keep-IsOrdered p rows ordered)
  ]

  pub after_cursor-IsOrdered :
      (c : Option Text) (rows : List Json)
      → IsOrdered before rows
      → IsOrdered before (after_cursor before c rows)
  after_cursor-IsOrdered none rows h = h
  after_cursor-IsOrdered (some c) rows h = keep-IsOrdered _ rows h

  -- What the rows are that a scan from the cursor may give.
  abbrev pub Beyond : Option Text → Json → Type 0
  Beyond none row = Unit
  Beyond (some c) row = Later c row

  pub All-take : (P : Json → Type 0) (n : ℕ) (rows : List Json) → All P rows → All P (take n rows)
  All-take P zero rows h = tt
  All-take P (suc n) [] h = tt
  All-take P (suc n) (r ∷ rows) h = (h.0, All-take P n rows h.1)

  pub take-IsOrdered :
      (n : ℕ) (rows : List Json) → IsOrdered before rows → IsOrdered before (take n rows)
  take-IsOrdered zero rows h = tt
  take-IsOrdered (suc n) [] h = tt
  take-IsOrdered (suc n) (r ∷ rows) ((i, e, later), ordered) =
      ((i, e, All-take (Later i) n rows later), take-IsOrdered n rows ordered)

  pub Later-All :
      (i j : Text) (rows : List Json) → before i j ≡ true → All (Later j) rows → All (Later i) rows
  Later-All i j [] h k = tt
  Later-All i j (r ∷ rows) h k = elim (Option-cases (id_of r)) [
    | inl missing ↦ cc (rw missing at k.0)
    | inr (m, named) ↦
        let first : Later i r = rw named (trans i j m h (Later-id j m r k.0 named)) in
        (first, Later-All i j rows h k.1)
  ]

  -- Rows in order up to one with the id `j`, and rows in order beyond it.
  pub IsOrdered-append :
      (front : List Json) (row : Json) (j : Text) (back : List Json)
      → IsOrdered before (front ++ row ∷ [])
      → id_of row ≡ some j
      → IsOrdered before back
      → All (Later j) back
      → IsOrdered before ((front ++ row ∷ []) ++ back)
  IsOrdered-append [] row j back h named ordered later = ((j, named, later), ordered)
  IsOrdered-append (r ∷ front) row j back ((i, e, rest), h) named ordered later =
      let last : before i j ≡ true =
        Later-id i j row (All-Has (Later i) row (front ++ row ∷ []) rest (Has-end front row))
          named in
      (
        (i, e, All-append (Later i) (front ++ row ∷ []) back rest (Later-All i j back last later)),
        IsOrdered-append front row j back h named ordered later,
      )

  -- In order, the rows behind a row come after its id.
  pub drop-Later :
      (front : List Json) (row : Json) (j : Text) (back : List Json)
      → IsOrdered before ((front ++ row ∷ []) ++ back)
      → id_of row ≡ some j
      → All (Later j) back
  drop-Later [] row j back ((i, e, later), ordered) named =
      let same : i ≡ j = cc (e, named) in subst (λ x. All (Later x) back) same later
  drop-Later (r ∷ front) row j back (first, ordered) named =
      drop-Later front row j back ordered named

  pub front-IsOrdered : (xs ys : List Json) → IsOrdered before (xs ++ ys) → IsOrdered before xs
  front-IsOrdered [] ys h = tt
  front-IsOrdered (x ∷ xs) ys ((i, e, later), h) =
      ((i, e, All-front _ xs ys later), front-IsOrdered xs ys h)
