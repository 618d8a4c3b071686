-- ===== src/Snapshot/Tests.antt =====
-- A table of three rows, in pages of two.
use prometheus_entity_sync.Base.{
  ltb, Has, ap, ◌∙◌, Text, codes, text_lt, text_lt_irrefl, text_lt_trans, inl, inr, Bool-cases,
  text_eq, Result, ok, Option, none, some, Option-cases, List, [], ◌∷◌, map, take, All, ℕ, arith,
  ◌≡◌, refl, Bool, true, false,
}
use prometheus_entity_sync.Core.{BucketAssignment}
use prometheus_entity_sync.Core.Values.{Json, string, object, array, nil, field, end}
use prometheus_entity_sync.Snapshot.Stream.{
  IdCast, text_cast, as_sql, Postgres, page_query, detect_id_cast, stream, stream_query, id_of,
  finished,
}
use prometheus_entity_sync.Snapshot.Stream.Pages.{IsOrdered, after_cursor}
use prometheus_entity_sync.Snapshot.Stream.Rows.{HasId}
use prometheus_entity_sync.Snapshot.Stream.Changing.{IsSnapshot, stream_query-IsSnapshot}
use prometheus_entity_sync.Snapshot.Stream.Stuck.{IsStuck, stream_query-IsStuck}
use prometheus_entity_sync.Snapshot.Stream.Whole.{IsStream, stream-IsStream}

abbrev row : Text → Json
row id = object (field (codes "id") (string id) end)

abbrev rows : List Json
rows = row (codes "a") ∷ row (codes "b") ∷ row (codes "c") ∷ []

abbrev todos : BucketAssignment
todos = record {
  bucket_id = codes "todos:1";
  rule_id = codes "todos";
  parameters = [];
  data_queries = (codes "todos", codes "SELECT * FROM todos") ∷ [];
}

-- Postgres reads the condition from the cursor and the limit.
abbrev pg : Postgres
pg = record {
  fetch_type = λ k sql. ok (some (ok (codes "text")));
  fetch_all =
      λ k sql cursor limit. ok (map (λ r. ok r) (take limit (after_cursor text_lt cursor rows)));
  display_json = λ j. [];
  xxh3 = λ input. 0;
}

text_lt_asym : (a b : Text) → text_lt a b ≡ true → text_lt b a ≡ false
text_lt_asym a b h = elim (Bool-cases (text_lt b a)) [
  | inl back ↦ cc (text_lt_irrefl a, text_lt_trans a b a h back)
  | inr no_more ↦ no_more
]

rows-IsOrdered : IsOrdered text_lt rows
unfolding prometheus_entity_sync.Snapshot.Checksum.get_field prometheus_entity_sync.Base.text_beq
    prometheus_entity_sync.Snapshot.Stream.row_id_as_string text_lt
rows-IsOrdered = (
  (codes "a", refl, (refl, (refl, tt))),
  ((codes "b", refl, (refl, tt)), ((codes "c", refl, tt), tt)),
)

stream-IsStream_example :
    ((stream pg 2 4 (todos ∷ []) 0).outcome ≡ finished)
    × IsStream pg 2 text_lt text_lt_asym
        (λ q. rows)
        (λ q. text_cast)
        4
        (todos ∷ [])
        (stream pg 2 4 (todos ∷ []) 0).batches
unfolding prometheus_entity_sync.Snapshot.Checksum.get_field prometheus_entity_sync.Base.text_beq
    prometheus_entity_sync.Snapshot.Stream.row_id_as_string text_lt detect_id_cast
stream-IsStream_example =
    stream-IsStream pg 2 text_lt text_lt_asym (λ q. rows) (λ q. text_cast) 4 (omega arith)
      (todos ∷ []) 0 (((rows-IsOrdered, (λ k cursor. refl), (λ k. refl), omega arith), tt), tt)

-- Between the pages `b` is deleted and `d` inserted.
abbrev table_of : Bool → List Json
table_of true = rows
table_of false = row (codes "a") ∷ row (codes "c") ∷ row (codes "d") ∷ []

abbrev table : ℕ → List Json
table k = table_of (ltb k 2)

table_of-IsOrdered : (b : Bool) → IsOrdered text_lt (table_of b)
unfolding prometheus_entity_sync.Snapshot.Checksum.get_field prometheus_entity_sync.Base.text_beq
    prometheus_entity_sync.Snapshot.Stream.row_id_as_string text_lt
table_of-IsOrdered true = rows-IsOrdered
table_of-IsOrdered false = (
  (codes "a", refl, (refl, (refl, tt))),
  ((codes "c", refl, (refl, tt)), ((codes "d", refl, tt), tt)),
)

abbrev ids : List Text
ids = codes "a" ∷ codes "b" ∷ codes "c" ∷ codes "d" ∷ []

id_of-row : (i j : Text) (r : Json) → row i ≡ r → id_of r ≡ some j → i ≡ j
unfolding prometheus_entity_sync.Snapshot.Checksum.get_field prometheus_entity_sync.Base.text_beq
    prometheus_entity_sync.Snapshot.Stream.row_id_as_string
id_of-row i j r e named = let same : some i ≡ some j = ap id_of e ∙ named in cc

ids-Has : (b : Bool) (i : Text) → HasId i (table_of b) → Has i ids
ids-Has true i (r, inl e, named) = inl (id_of-row _ i r e named)
ids-Has true i (r, inr (inl e), named) = inr (inl (id_of-row _ i r e named))
ids-Has true i (r, inr (inr (inl e)), named) = inr (inr (inl (id_of-row _ i r e named)))
ids-Has true i (r, inr (inr (inr h)), named) = absurd h
ids-Has false i (r, inl e, named) = inl (id_of-row _ i r e named)
ids-Has false i (r, inr (inl e), named) = inr (inr (inl (id_of-row _ i r e named)))
ids-Has false i (r, inr (inr (inl e)), named) = inr (inr (inr (inl (id_of-row _ i r e named))))
ids-Has false i (r, inr (inr (inr h)), named) = absurd h

abbrev changing : Postgres
changing = record pg {
  fetch_all = λ k sql cursor limit.
      ok (map (λ r. ok r) (take limit (after_cursor text_lt cursor (table k))));
}

stream_query-IsSnapshot_example :
    IsSnapshot text_lt text_lt_asym text_lt_trans table
      (λ k. table_of-IsOrdered (ltb k 2))
      changing
      2
      (omega arith)
      (codes "SELECT * FROM todos")
      text_cast
      (λ k cursor. refl)
      todos
      (codes "todos")
      1
      (stream_query changing 2 5 todos (codes "todos") (codes "SELECT * FROM todos") 0)
unfolding detect_id_cast prometheus_entity_sync.Base.text_beq
stream_query-IsSnapshot_example =
    stream_query-IsSnapshot text_lt text_lt_asym text_lt_trans table
      (λ k. table_of-IsOrdered (ltb k 2)) changing 2 (omega arith) (codes "SELECT * FROM todos")
      text_cast (λ k cursor. refl) todos (codes "todos") ids 5 0 (λ i m h. ids-Has (ltb m 2) i h)
      (omega arith) refl

-- A page of one row whose id is an array.
abbrev odd_page : List Json
odd_page = object (field (codes "id") (array nil) end) ∷ []

stream_query-IsStuck_example : IsStuck 7 odd_page (
    stream_query
      (record pg { fetch_all = λ k sql cursor limit. ok (map (λ r. ok r) odd_page) })
      1
      7
      todos
      (codes "todos")
      (codes "SELECT * FROM todos")
      0)
unfolding detect_id_cast prometheus_entity_sync.Base.text_beq
    prometheus_entity_sync.Snapshot.Checksum.get_field
    prometheus_entity_sync.Snapshot.Stream.row_id_as_string
    prometheus_entity_sync.Snapshot.Stream.last_row
stream_query-IsStuck_example =
    stream_query-IsStuck
      (record pg { fetch_all = λ k sql cursor limit. ok (map (λ r. ok r) odd_page) }) 1
      (codes "SELECT * FROM todos") text_cast odd_page (λ k. refl) refl refl todos (codes "todos") 7
      0 refl
