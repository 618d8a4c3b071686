-- ===== src/Snapshot/Stream/Changing.antt =====
-- crates/pes-snapshot/src/stream.rs: the pages of one query, on a table that changes between the statements.
use prometheus_entity_sync.Base.{
  Text, ok, Option, none, some, List, [], ◌∷◌, ◌++◌, ℕ, zero, suc, ◌+◌, ◌<◌, ◌≤◌, ltb, ltb→lt,
  ltb→le, length, take, drop, take-append-drop, All, All-Has, Has, Bool, true, false, Bool-cases,
  ◌≡◌, sym, ap, ◌∙◌, inl, inr, arith,
}
use mathlib.Core.Path.{subst}
use prometheus_entity_sync.Core.{BucketAssignment}
use prometheus_entity_sync.Core.Values.{Json}
use prometheus_entity_sync.Snapshot.Stream.{
  IdCast, Postgres, and_then, id_of, next_cursor, finished, Run, detect_id_cast, batch_of,
  with_page, page_loop, stream_query,
}
use prometheus_entity_sync.Snapshot.Stream.Pages.{IsOrdered, Answers, rows_of, ordered-id}
use prometheus_entity_sync.Snapshot.Stream.Lists.{take_short, last_of}
use prometheus_entity_sync.Snapshot.Stream.Keyset.{
  ordered_bounded, after_cursor-IsOrdered, take-IsOrdered,
}
use prometheus_entity_sync.Snapshot.Stream.Rows.{HasId}
use prometheus_entity_sync.Snapshot.Stream.Turns.{
  IsKeyset, IsFrom, read_at, fetched, last-IsKeyset, full-IsKeyset,
}

module _ (before : Text → Text → Bool)
    (asym : (a b : Text) → before a b ≡ true → before b a ≡ false)
    (trans : (a b c : Text) → before a b ≡ true → before b c ≡ true → before a c ≡ true)
    (table : ℕ → List Json) (ordered : (k : ℕ) → IsOrdered before (table k)) where
  module _ (pg : Postgres) (n : ℕ) (pos : 0 < n) (query : Text) (id_cast : IdCast)
      (answers : Answers before pg n query id_cast table) (a : BucketAssignment)
      (table_name : Text) where
    page_loop-IsKeyset :
        (fuel k offset : ℕ) (cursor : Option Text)
        → IsKeyset before asym trans table ordered cursor k fuel
            (page_loop pg n fuel a table_name query id_cast k cursor offset)
    unfolding page_loop
    page_loop-IsKeyset zero k offset cursor = record {
      in_order = tt;
      beyond = tt;
      from_table = tt;
      ends = inr (omega arith);
      later = omega arith;
      complete = λ e. cc;
    }
    page_loop-IsKeyset (suc fuel) k offset cursor =
        let next = λ (x : Option Text).
          page_loop pg n fuel a table_name query id_cast (k + 1) x (offset + 1) in
        let rows =
          read_at before asym trans table ordered pg n pos query id_cast answers a table_name cursor
            k in
        let page = take n rows in
        subst
          (λ r.
            IsKeyset before asym trans table ordered cursor k (suc fuel)
              (with_page pg n a table_name (k + 1) next offset r))
          (sym (
            fetched before asym trans table ordered pg n pos query id_cast answers a table_name k
              cursor))
          (elim (Bool-cases (ltb (length page) n)) [
            | inl short ↦
                last-IsKeyset before asym trans table ordered pg n pos query id_cast answers a
                  table_name cursor k fuel offset page next
                  (take_short n rows (ltb→lt (length page) n short)) short
            | inr full ↦
                let (front, row, split, last) =
                  last_of page (omega (arith, ltb→le (length page) n full, pos)) in
                let whole : (front ++ row ∷ []) ++ drop n rows ≡ rows =
                  ap (λ x. x ++ drop n rows) (sym split) ∙ take-append-drop n rows in
                let (j, named) = ordered-id before asym front [] row (
                  subst (IsOrdered before) split (
                    take-IsOrdered before asym trans n rows
                      (after_cursor-IsOrdered before asym trans cursor (table k) (ordered k)))) in
                let cursor' : next_cursor page ≡ some j = ap (λ o. and_then o id_of) last ∙ named in
                rw (full, cursor')
                  (full-IsKeyset before asym trans table ordered pg n pos query id_cast answers a
                    table_name cursor k fuel offset front (drop n rows) row j
                    (page_loop pg n fuel a table_name query id_cast (k + 1) (some j) (offset + 1))
                    whole named (page_loop-IsKeyset fuel (k + 1) (offset + 1) (some j))
                    (record (batch_of pg n a table_name page offset) { is_last = false }) split)
          ])

    -- What a stream of a query gives whose first page is statement `k`: rows of the table at some
    -- statement, in order, no id twice; and every id that was there at each of its statements.
    abbrev pub IsSnapshot : ℕ → Run → Type 0
    IsSnapshot k r =
        (r.outcome ≡ finished)
        × IsOrdered before (rows_of r.batches)
        × All (IsFrom before asym trans table ordered) (rows_of r.batches)
        × ((i : Text)
            → ((m : ℕ) → k ≤ m → m < r.statements → HasId i (table m))
            → HasId i (rows_of r.batches))

    -- Over a table that changes between the statements, in the order of its ids, which are distinct at
    -- each of them, and with a Postgres that answers the page queries as their text says, the
    -- stream of a query comes to its end, on more fuel than there are ids in the course of the stream. It yields rows
    -- that stood in the table at some statement, in order, no id twice; and an id that stood there
    -- at each of its page statements is not missed, whatever is inserted, changed or deleted around it.
    pub stream_query-IsSnapshot :
        (ids : List Text) (fuel k : ℕ)
        → ((i : Text) (m : ℕ) → HasId i (table m) → Has i ids)
        → length ids < fuel
        → detect_id_cast pg n k query ≡ ok id_cast
        → IsSnapshot (k + 1) (stream_query pg n fuel a table_name query k)
    unfolding stream_query
    stream_query-IsSnapshot ids fuel k all_ids lt detected =
        let run = page_loop pg n fuel a table_name query id_cast (k + 1) none 0 in
        let keyset : IsKeyset before asym trans table ordered none (k + 1) fuel run =
          page_loop-IsKeyset fuel (k + 1) 0 none in
        let few : length (rows_of run.batches) ≤ length ids =
          ordered_bounded before asym trans (rows_of run.batches) ids keyset.in_order
            (λ i (row, has, named).
              let (m, there) =
                All-Has (IsFrom before asym trans table ordered) row (rows_of run.batches)
                  keyset.from_table has in
              all_ids i m (row, there, named)) in
        let ends : run.outcome ≡ finished = elim keyset.ends [
          | inl e ↦ e
          | inr more ↦ absurd (omega (arith, few, more, lt))
        ] in
        rw detected
          (ends, keyset.in_order, keyset.from_table, λ i kept. keyset.complete ends i tt kept)
