-- ===== src/Snapshot/Stream/Pages.antt =====
-- crates/pes-snapshot/src/stream.rs: the pages of one query, on a table that does not change.
use prometheus_entity_sync.Base.{
  Text, ok, Option, none, some, List, [], ◌∷◌, ◌++◌, map, ℕ, zero, suc, ◌+◌, ◌<◌, ◌≤◌, ltb, ltb→lt,
  ltb→le, length, length-drop, take, drop, take-append-drop, keep_if, All, Bool, true, false,
  Bool-cases, ◌≡◌, refl, sym, ap, ◌∙◌, inl, inr, arith,
}
use mathlib.Core.List.{append_assoc, append-nil}
use mathlib.Core.Path.{subst}
use prometheus_entity_sync.Core.{BucketAssignment}
use prometheus_entity_sync.Core.Values.{Json}
use prometheus_entity_sync.Snapshot.Stream.{
  SnapshotBatch, IdCast, as_sql, Postgres, page_query, and_then, id_of, next_cursor, finished, Run,
  detect_id_cast, fetch_page, batch_of, with_page, page_loop, stream_query,
}
use prometheus_entity_sync.Snapshot.Stream.Lists.{
  all_read-map, take_short, length-take-le, length-take-le-length, last_of, All-middle,
}

-- `sq.id > cursor`, for the order of the database.
abbrev pub follows : (Text → Text → Bool) → Text → Option Text → Bool
follows before c none = false
follows before c (some i) = before c i

-- The rows of a table that a page for the cursor is taken from.
abbrev pub after_cursor : (Text → Text → Bool) → Option Text → List Json → List Json
after_cursor before none rows = rows
after_cursor before (some c) rows = keep_if (λ row. follows before c (id_of row)) rows

-- In the order of the ids, and no id twice.
abbrev pub IsOrdered : (Text → Text → Bool) → List Json → Type 0
IsOrdered before [] = Unit
IsOrdered before (row ∷ rows) =
    ((i : Text) × (id_of row ≡ some i) × All (λ r. follows before i (id_of r) ≡ true) rows)
    × IsOrdered before rows

-- Postgres answers a page query for `table`, as the keyset condition, the order and the limit say.
abbrev pub Answers : (Text → Text → Bool) → Postgres → ℕ → Text → IdCast → (ℕ → List Json) → Type 0
Answers before pg n query id_cast table =
    (k : ℕ) (cursor : Option Text)
    → pg.fetch_all k (page_query query (as_sql id_cast)) cursor n
      ≡ ok (map (λ row. ok row) (take n (after_cursor before cursor (table k))))

abbrev pub rows_of : List SnapshotBatch → List Json
rows_of [] = []
rows_of (b ∷ bs) = b.rows ++ rows_of bs

-- Full pages numbered from `offset`, and a last one that is not full and says so.
abbrev pub IsPaged : ℕ → ℕ → List SnapshotBatch → Type 0
IsPaged n offset [] = ⊥
IsPaged n offset (b ∷ []) = (b.offset ≡ offset) × (b.is_last ≡ true) × (length b.rows < n)
IsPaged n offset (b ∷ c ∷ bs) =
    (b.offset ≡ offset)
    × (b.is_last ≡ false)
    × (length b.rows ≡ n)
    × IsPaged n (offset + 1) (c ∷ bs)

pub IsPaged-cons :
    (n offset : ℕ) (b : SnapshotBatch) (bs : List SnapshotBatch)
    → b.offset ≡ offset
    → b.is_last ≡ false
    → length b.rows ≡ n
    → IsPaged n (offset + 1) bs
    → IsPaged n offset (b ∷ bs)
IsPaged-cons n offset b [] e l full h = absurd h
IsPaged-cons n offset b (c ∷ bs) e l full h = (e, l, full, h)

module _ (before : Text → Text → Bool)
    (asym : (a b : Text) → before a b ≡ true → before b a ≡ false) where
  irrefl : (a : Text) → before a a ≡ false
  irrefl a = elim (Bool-cases (before a a)) [ inl h ↦ asym a a h | inr h ↦ h ]

  keep-All :
      (c : Text) (rows : List Json)
      → All (λ r. follows before c (id_of r) ≡ true) rows
      → after_cursor before (some c) rows ≡ rows
  keep-All c [] h = refl
  keep-All c (r ∷ rows) h = rw h.0 (ap (λ x. r ∷ x) (keep-All c rows h.1))

  -- After the id of a row come exactly the rows behind it.
  after-row :
      (front back : List Json) (row : Json) (i : Text)
      → IsOrdered before (front ++ row ∷ back)
      → id_of row ≡ some i
      → after_cursor before (some i) (front ++ row ∷ back) ≡ back
  after-row [] back row i ((j, e, later), ordered) h =
      let same : j ≡ i = cc (e, h) in
      rw (h, irrefl i)
        (keep-All i back
          (subst (λ x. All (λ r. follows before x (id_of r) ≡ true) back) same later))
  after-row (r ∷ front) back row i ((j, e, later), ordered) h =
      let first : before j i ≡ true =
        subst (λ o. follows before j o ≡ true) h
          (All-middle (λ r. follows before j (id_of r) ≡ true) front back row later) in
      rw (e, asym j i first) (after-row front back row i ordered h)

  pub ordered-id :
      (front back : List Json) (row : Json)
      → IsOrdered before (front ++ row ∷ back)
      → (i : Text) × (id_of row ≡ some i)
  ordered-id [] back row ((i, e, later), ordered) = (i, e)
  ordered-id (r ∷ front) back row (first, ordered) = ordered-id front back row ordered

  -- What a run gives that reads `rest` from page `offset` on.
  abbrev pub Delivers : ℕ → ℕ → List Json → Run → Type 0
  Delivers n offset rest r =
      (r.outcome ≡ finished) × (rows_of r.batches ≡ rest) × IsPaged n offset r.batches

  module _ (pg : Postgres) (n : ℕ) (pos : 0 < n) (query : Text) (id_cast : IdCast)
      (rows : List Json) (ordered : IsOrdered before rows)
      (answers : Answers before pg n query id_cast (λ k. rows)) (a : BucketAssignment)
      (table_name : Text) where
    fetched :
        (k : ℕ) (cursor : Option Text)
        → fetch_page pg n k query cursor id_cast ≡ ok (take n (after_cursor before cursor rows))
    unfolding fetch_page
    fetched k cursor =
        rw (answers k cursor) (all_read-map (take n (after_cursor before cursor rows)))

    last-Delivers :
        (page rest : List Json) (k offset : ℕ) (next : Option Text → Run)
        → ltb (length page) n ≡ true
        → page ≡ rest
        → Delivers n offset rest (with_page pg n a table_name k next offset (ok page))
    last-Delivers page rest k offset next short same =
        rw short (refl, append-nil page ∙ same, (refl, refl, ltb→lt (length page) n short))

    full-Delivers :
        (page back : List Json) (k offset : ℕ) (next : Option Text → Run) (i : Text)
        → ltb (length page) n ≡ false
        → length page ≤ n
        → next_cursor page ≡ some i
        → Delivers n (offset + 1) back (next (some i))
        → Delivers n offset (page ++ back) (with_page pg n a table_name k next offset (ok page))
    full-Delivers page back k offset next i full small cursor (ends, all_rows, paged) =
        rw (full, cursor)
          (
            ends,
            ap (λ x. page ++ x) all_rows,
            IsPaged-cons n offset
                (record (batch_of pg n a table_name page offset) { is_last = false })
                (next (some i)).batches refl refl
                (omega (arith, ltb→le (length page) n full, small)) paged,
          )

    page_loop-Delivers :
        (fuel k offset : ℕ) (cursor : Option Text) (done rest : List Json)
        → length rest < fuel
        → rows ≡ done ++ rest
        → after_cursor before cursor rows ≡ rest
        → Delivers n offset rest (page_loop pg n fuel a table_name query id_cast k cursor offset)
    unfolding page_loop
    page_loop-Delivers zero k offset cursor done rest lt e c = absurd (omega arith)
    page_loop-Delivers (suc fuel) k offset cursor done rest lt e c =
        let next = λ (x : Option Text).
          page_loop pg n fuel a table_name query id_cast (k + 1) x (offset + 1) in
        let page = take n rest in
        let got : fetch_page pg n k query cursor id_cast ≡ ok page =
          fetched k cursor ∙ ap (λ x. ok (take n x)) c in
        subst (λ r. Delivers n offset rest (with_page pg n a table_name (k + 1) next offset r))
          (sym got)
          (elim (Bool-cases (ltb (length page) n)) [
            | inl short ↦
                last-Delivers page rest (k + 1) offset next short
                  (take_short n rest (ltb→lt (length page) n short))
            | inr full ↦
                let (front, row, split, last) =
                  last_of page (omega (arith, ltb→le (length page) n full, pos)) in
                let back = drop n rest in
                let whole : rows ≡ (done ++ front) ++ row ∷ back =
                  e
                  ∙ ap (λ x. done ++ x)
                      (sym (take-append-drop n rest)
                        ∙ ap (λ x. x ++ back) split
                        ∙ append_assoc front (row ∷ []) back)
                  ∙ sym (append_assoc done front (row ∷ back)) in
                let sorted : IsOrdered before ((done ++ front) ++ row ∷ back) =
                  subst (IsOrdered before) whole ordered in
                let (i, named) = ordered-id (done ++ front) back row sorted in
                let rest' : after_cursor before (some i) rows ≡ back =
                  ap (λ x. after_cursor before (some i) x) whole
                  ∙ after-row (done ++ front) back row i sorted named in
                let ih =
                  page_loop-Delivers fuel (k + 1) (offset + 1) (some i)
                    ((done ++ front) ++ row ∷ []) back
                    (omega (
                      arith,
                      length-drop n rest,
                      lt,
                      pos,
                      ltb→le (length page) n full,
                      length-take-le-length n rest,
                    ))
                    (whole ∙ sym (append_assoc (done ++ front) (row ∷ []) back)) rest' in
                subst
                  (λ x.
                    Delivers n offset x (with_page pg n a table_name (k + 1) next offset (ok page)))
                  (take-append-drop n rest)
                  (full-Delivers page back (k + 1) offset next i full (length-take-le n rest)
                    (ap (λ o. and_then o id_of) last ∙ named) ih)
          ])

    -- Over a table that does not change, in the order of its ids, which are distinct, and with a
    -- Postgres that answers the page queries as their text says, the stream of a query comes to its
    -- end for every positive batch size, on more fuel than there are rows; it yields every row once,
    -- in order, in full pages numbered from 0 and a last one that is not full and is marked so.
    pub stream_query-Delivers :
        (fuel k : ℕ)
        → length rows < fuel
        → detect_id_cast pg n k query ≡ ok id_cast
        → Delivers n 0 rows (stream_query pg n fuel a table_name query k)
    unfolding stream_query
    stream_query-Delivers fuel k lt detected =
        rw detected (page_loop-Delivers fuel (k + 1) 0 none [] rows lt refl refl)
