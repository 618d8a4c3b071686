-- ===== src/Snapshot/Stream/Stuck.antt =====
-- crates/pes-snapshot/src/stream.rs: a full page whose last row has no id to go on from.
use prometheus_entity_sync.Base.{
  Text, ok, Option, none, List, map, ℕ, zero, suc, ◌+◌, ltb, length, All, false, ◌≡◌, refl, sym, ap,
}
use mathlib.Core.Path.{subst}
use prometheus_entity_sync.Core.{BucketAssignment}
use prometheus_entity_sync.Core.Values.{Json}
use prometheus_entity_sync.Snapshot.Stream.{
  SnapshotBatch, IdCast, as_sql, Postgres, page_query, next_cursor, out_of_fuel, Run,
  detect_id_cast, fetch_page, with_page, page_loop, stream_query,
}
use prometheus_entity_sync.Snapshot.Stream.Lists.{all_read-map}

-- It is still not at its end after `fuel` pages, and each of them was this one.
abbrev pub IsStuck : ℕ → List Json → Run → Type 0
IsStuck fuel page r =
    (r.outcome ≡ out_of_fuel)
    × (length r.batches ≡ fuel)
    × All (λ (b : SnapshotBatch). b.rows ≡ page) r.batches

module _ (pg : Postgres) (n : ℕ) (query : Text) (id_cast : IdCast) (page : List Json)
    (first_page : (k : ℕ)
      → pg.fetch_all k (page_query query (as_sql id_cast)) none n ≡ ok (map (λ row. ok row) page))
    (full : ltb (length page) n ≡ false) (no_cursor : next_cursor page ≡ none)
    (a : BucketAssignment) (table_name : Text) where
  page_loop-IsStuck :
      (fuel k offset : ℕ)
      → IsStuck fuel page (page_loop pg n fuel a table_name query id_cast k none offset)
  unfolding page_loop fetch_page
  page_loop-IsStuck zero k offset = (refl, refl, tt)
  page_loop-IsStuck (suc fuel) k offset =
      let (ends, many, same) = page_loop-IsStuck fuel (k + 1) (offset + 1) in
      let got : fetch_page pg n k query none id_cast ≡ ok page =
        rw (first_page k) (all_read-map page) in
      let next = λ (x : Option Text).
        page_loop pg n fuel a table_name query id_cast (k + 1) x (offset + 1) in
      subst (λ r. IsStuck (suc fuel) page (with_page pg n a table_name (k + 1) next offset r))
        (sym got) (rw (full, no_cursor) (ends, ap suc many, (refl, same)))

  -- If Postgres gives the same first page each time, it is full, and its last row has no id that is a
  -- text or a number, then the stream of the query never ends: however many pages it has fetched,
  -- each was that first page again.
  pub stream_query-IsStuck :
      (fuel k : ℕ)
      → detect_id_cast pg n k query ≡ ok id_cast
      → IsStuck fuel page (stream_query pg n fuel a table_name query k)
  unfolding stream_query
  stream_query-IsStuck fuel k detected = rw detected (page_loop-IsStuck fuel (k + 1) 0)
