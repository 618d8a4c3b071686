-- ===== src/Snapshot/Stream/Whole.antt =====
-- crates/pes-snapshot/src/stream.rs: the whole stream, over all assignments and their queries.
use prometheus_entity_sync.Base.{
  Text, Result, ok, err, Option, none, List, [], ◌∷◌, ◌++◌, ℕ, zero, suc, ◌+◌, ◌<◌, ltb, length,
  All, Bool, true, false, Bool-cases, ◌≡◌, refl, ◌∙◌, inl, inr,
}
use prometheus_entity_sync.Core.{BucketAssignment, SyncError}
use prometheus_entity_sync.Core.Values.{Json}
use prometheus_entity_sync.Snapshot.Checksum.{checksum_rows}
use prometheus_entity_sync.Snapshot.Stream.{
  SnapshotBatch, IdCast, Postgres, finished, Run, then_run, detect_id_cast, fetch_page, with_page,
  page_loop, with_cast, stream_query, stream_queries, stream,
}
use prometheus_entity_sync.Snapshot.Stream.Pages.{
  IsOrdered, Answers, rows_of, IsPaged, stream_query-Delivers,
}

module _ (pg : Postgres) (n : ℕ) where
  -- A batch names its bucket and its query, and bears the checksum of its rows.
  abbrev pub IsLabelled : BucketAssignment → Text → SnapshotBatch → Type 0
  IsLabelled a table_name b =
      (b.bucket_id ≡ a.bucket_id)
      × (b.table_name ≡ table_name)
      × (b.batch_checksum ≡ checksum_rows pg.display_json pg.xxh3 b.rows)

  with_page-IsLabelled :
      (a : BucketAssignment) (table_name : Text) (k offset : ℕ) (next : Option Text → Run)
      (r : Result SyncError (List Json))
      → ((c : Option Text) → All (IsLabelled a table_name) (next c).batches)
      → All (IsLabelled a table_name) (with_page pg n a table_name k next offset r).batches
  with_page-IsLabelled a table_name k offset next (err e) h = tt
  with_page-IsLabelled a table_name k offset next (ok rows) h =
      elim (Bool-cases (ltb (length rows) n)) [
        | inl short ↦ rw short ((refl, refl, refl), tt)
        | inr full ↦ rw full ((refl, refl, refl), h _)
      ]

  page_loop-IsLabelled :
      (fuel : ℕ) (a : BucketAssignment) (table_name query : Text) (id_cast : IdCast) (k : ℕ)
      (cursor : Option Text) (offset : ℕ)
      → All
          (IsLabelled a table_name)
          (page_loop pg n fuel a table_name query id_cast k cursor offset).batches
  unfolding page_loop
  page_loop-IsLabelled zero a table_name query id_cast k cursor offset = tt
  page_loop-IsLabelled (suc fuel) a table_name query id_cast k cursor offset =
      with_page-IsLabelled a table_name (k + 1) offset
        (λ c. page_loop pg n fuel a table_name query id_cast (k + 1) c (offset + 1))
        (fetch_page pg n k query cursor id_cast)
        (λ c. page_loop-IsLabelled fuel a table_name query id_cast (k + 1) c (offset + 1))

  with_cast-IsLabelled :
      (fuel : ℕ) (a : BucketAssignment) (table_name query : Text) (k : ℕ)
      (r : Result SyncError IdCast)
      → All (IsLabelled a table_name) (with_cast pg n fuel a table_name query k r).batches
  with_cast-IsLabelled fuel a table_name query k (err e) = tt
  with_cast-IsLabelled fuel a table_name query k (ok id_cast) =
      page_loop-IsLabelled fuel a table_name query id_cast k none 0

  stream_query-IsLabelled :
      (fuel : ℕ) (a : BucketAssignment) (table_name query : Text) (k : ℕ)
      → All (IsLabelled a table_name) (stream_query pg n fuel a table_name query k).batches
  unfolding stream_query
  stream_query-IsLabelled fuel a table_name query k =
      with_cast-IsLabelled fuel a table_name query (k + 1) (detect_id_cast pg n k query)

  module _ (before : Text → Text → Bool)
      (asym : (a b : Text) → before a b ≡ true → before b a ≡ false) (table : Text → List Json)
      (cast : Text → IdCast) (fuel : ℕ) where
    -- What the database holds for a query, and how it answers.
    abbrev pub IsServed : Text × Text → Type 0
    IsServed q =
        IsOrdered before (table q.1)
        × Answers before pg n q.1 (cast q.1) (λ k. table q.1)
        × ((k : ℕ) → detect_id_cast pg n k q.1 ≡ ok (cast q.1))
        × (length (table q.1) < fuel)

    -- One after another for each query: its rows in pages, labelled.
    abbrev pub IsQueries : BucketAssignment → List (Text × Text) → List SnapshotBatch → Type 0
    IsQueries a [] bs = bs ≡ []
    IsQueries a (q ∷ queries) bs =
        (front : List SnapshotBatch) × (back : List SnapshotBatch) × (bs ≡ front ++ back)
        × (rows_of front ≡ table q.1)
        × IsPaged n 0 front
        × All (IsLabelled a q.0) front
        × IsQueries a queries back

    abbrev pub IsStream : List BucketAssignment → List SnapshotBatch → Type 0
    IsStream [] bs = bs ≡ []
    IsStream (a ∷ as') bs =
        (front : List SnapshotBatch) × (back : List SnapshotBatch) × (bs ≡ front ++ back)
        × IsQueries a a.data_queries front
        × IsStream as' back

    then_run-finished :
        (r : Run) (next : ℕ → Run)
        → r.outcome ≡ finished
        → ((then_run r r.outcome next).outcome ≡ (next r.statements).outcome)
          × ((then_run r r.outcome next).batches ≡ r.batches ++ (next r.statements).batches)
    then_run-finished r next h = rw h (refl, refl)

    stream_queries-finished :
        (pos : 0 < n) (a : BucketAssignment) (queries : List (Text × Text)) (k : ℕ)
        → All IsServed queries
        → ((stream_queries pg n fuel a queries k).outcome ≡ finished)
          × IsQueries a queries (stream_queries pg n fuel a queries k).batches
    unfolding stream_queries
    stream_queries-finished pos a [] k h = (refl, refl)
    stream_queries-finished pos a ((table_name, query) ∷ queries) k h =
        let (ordered, answers, detected, lt) = h.0 in
        let r = stream_query pg n fuel a table_name query k in
        let (ends, all_rows, paged) =
          stream_query-Delivers before asym pg n pos query (cast query) (table query) ordered
            answers a table_name fuel k lt (detected k) in
        let (later, listed) = stream_queries-finished pos a queries r.statements h.1 in
        let (same_end, split) = then_run-finished r (stream_queries pg n fuel a queries) ends in
        (
          same_end ∙ later,
          (
            r.batches,
            (stream_queries pg n fuel a queries r.statements).batches,
            split,
            all_rows,
            paged,
            stream_query-IsLabelled fuel a table_name query k,
            listed,
          ),
        )

    -- Over tables that do not change, whose rows stand in the order of their ids, which are distinct,
    -- and with a Postgres that answers each statement for the queries of the assignments as its text
    -- says, the stream comes to its end for every positive batch size, on more fuel than any table has
    -- rows. For each assignment and each of its queries, in order, it yields every row once, in
    -- order, in full pages numbered from 0 and a last one that is not full and is marked so; every
    -- page names its bucket and its query and bears the checksum of its rows.
    pub stream-IsStream :
        (pos : 0 < n) (assignments : List BucketAssignment) (k : ℕ)
        → All (λ a. All IsServed a.data_queries) assignments
        → ((stream pg n fuel assignments k).outcome ≡ finished)
          × IsStream assignments (stream pg n fuel assignments k).batches
    unfolding stream
    stream-IsStream pos [] k h = (refl, refl)
    stream-IsStream pos (a ∷ as') k h =
        let r = stream_queries pg n fuel a a.data_queries k in
        let (ends, listed) = stream_queries-finished pos a a.data_queries k h.0 in
        let (later, others) = stream-IsStream pos as' r.statements h.1 in
        let (same_end, split) = then_run-finished r (stream pg n fuel as') ends in
        (
          same_end ∙ later,
          (r.batches, (stream pg n fuel as' r.statements).batches, split, listed, others),
        )
