-- ===== src/Snapshot/Stream/Turns.antt =====
-- crates/pes-snapshot/src/stream.rs: one turn of the loop, on a table that changes between the
-- statements.
use prometheus_entity_sync.Base.{
  arith, Text, ok, Option, none, some, List, [], ◌∷◌, ◌++◌, ℕ, suc, ◌+◌, ◌<◌, ◌≤◌, ltb, length,
  take, All, All-Has, All-append, All-map_weaken, each-Has, All-keep_if, keep_if-All, Has,
  Has-keep_if, Bool, true, false, ◌≡◌, refl, sym, ap, ◌∙◌, ◌⊎◌, inl, inr,
}
use mathlib.Core.List.{append-nil}
use mathlib.Core.Path.{subst}
use prometheus_entity_sync.Core.{BucketAssignment}
use prometheus_entity_sync.Core.Values.{Json}
use prometheus_entity_sync.Snapshot.Stream.{
  SnapshotBatch, IdCast, Postgres, id_of, finished, Run, fetch_page, with_page,
}
use prometheus_entity_sync.Snapshot.Stream.Pages.{
  follows, after_cursor, IsOrdered, Answers, rows_of,
}
use prometheus_entity_sync.Snapshot.Stream.Lists.{all_read-map}
use prometheus_entity_sync.Snapshot.Stream.Keyset.{
  front-IsOrdered, Later, Beyond, Later-id, Later-All, after_cursor-IsOrdered, IsOrdered-append,
  drop-Later,
}
use prometheus_entity_sync.Snapshot.Stream.Rows.{
  HasId, Has-end, HasId-append, HasId-front, HasId-back, All-front, longer,
}

module _ (before : Text → Text → Bool)
    (asym : (a b : Text) → before a b ≡ true → before b a ≡ false)
    (trans : (a b c : Text) → before a b ≡ true → before b c ≡ true → before a c ≡ true)
    (table : ℕ → List Json) (ordered : (k : ℕ) → IsOrdered before (table k)) where
  -- After the cursor, for an id.
  abbrev pub IdBeyond : Option Text → Text → Type 0
  IdBeyond none i = Unit
  IdBeyond (some c) i = before c i ≡ true

  abbrev pub IsFrom : Json → Type 0
  IsFrom row = (k : ℕ) × Has row (table k)

  -- What a run gives from a cursor on, with some fuel: it ends, or each turn had a full page.
  pub record IsKeyset (cursor : Option Text) (k fuel : ℕ) (r : Run) : Type 0 where
    pub in_order : IsOrdered before (rows_of r.batches)
    pub beyond : All (Beyond before asym trans cursor) (rows_of r.batches)
    pub from_table : All IsFrom (rows_of r.batches)
    pub ends : (r.outcome ≡ finished) ⊎ (fuel ≤ length (rows_of r.batches))
    pub later : k ≤ r.statements
    pub complete :
        r.outcome ≡ finished
        → (i : Text) → IdBeyond cursor i
        → ((m : ℕ) → k ≤ m → m < r.statements → HasId i (table m))
        → HasId i (rows_of r.batches)

  HasId-after :
      (c : Option Text) (i : Text) (rows : List Json)
      → IdBeyond c i
      → HasId i rows
      → HasId i (after_cursor before c rows)
  HasId-after none i rows h k = k
  HasId-after (some c) i rows h (row, has, named) =
      (row, Has-keep_if _ row rows has (rw named h), named)

  after-Beyond :
      (c : Option Text) (rows : List Json)
      → All (Beyond before asym trans c) (after_cursor before c rows)
  after-Beyond none [] = tt
  after-Beyond none (r ∷ rows) = (tt, after-Beyond none rows)
  after-Beyond (some c) rows = keep_if-All (λ row. follows before c (id_of row)) rows

  IsFrom-here : (k : ℕ) → All IsFrom (table k)
  IsFrom-here k =
      All-map_weaken (λ row. Has row (table k)) IsFrom (λ row has. (k, has)) (table k)
        (each-Has (table k))

  after-IsFrom : (k : ℕ) (c : Option Text) → All IsFrom (after_cursor before c (table k))
  after-IsFrom k none = IsFrom-here k
  after-IsFrom k (some c) = All-keep_if IsFrom _ (table k) (IsFrom-here k)

  cursor-Beyond :
      (c : Option Text) (row : Json) (j : Text)
      → Beyond before asym trans c row
      → id_of row ≡ some j
      → IdBeyond c j
  cursor-Beyond none row j h named = tt
  cursor-Beyond (some c) row j h named = Later-id before asym trans c j row h named

  Later-Beyond :
      (c : Option Text) (j : Text) (rows : List Json)
      → IdBeyond c j
      → All (Later before asym trans j) rows
      → All (Beyond before asym trans c) rows
  Later-Beyond none j rows h later = All-map_weaken _ (λ row. Unit) (λ row k. tt) rows later
  Later-Beyond (some c) j rows h later = Later-All before asym trans c j rows h later

  module _ (pg : Postgres) (n : ℕ) (pos : 0 < n) (query : Text) (id_cast : IdCast)
      (answers : Answers before pg n query id_cast table) (a : BucketAssignment)
      (table_name : Text) where
    abbrev pub read_at : Option Text → ℕ → List Json
    read_at cursor k = after_cursor before cursor (table k)

    pub fetched :
        (k : ℕ) (cursor : Option Text)
        → fetch_page pg n k query cursor id_cast ≡ ok (take n (read_at cursor k))
    unfolding fetch_page
    fetched k cursor = rw (answers k cursor) (all_read-map (take n (read_at cursor k)))

    pub last-IsKeyset :
        (cursor : Option Text) (k fuel offset : ℕ) (page : List Json) (next : Option Text → Run)
        → page ≡ read_at cursor k
        → ltb (length page) n ≡ true
        → IsKeyset cursor k (suc fuel) (with_page pg n a table_name (k + 1) next offset (ok page))
    last-IsKeyset cursor k fuel offset page next same short =
        let all : page ++ [] ≡ read_at cursor k = append-nil page ∙ same in
        rw short (record {
          in_order =
              subst (IsOrdered before) (sym all)
                (after_cursor-IsOrdered before asym trans cursor (table k) (ordered k));
          beyond = subst (All _) (sym all) (after-Beyond cursor (table k));
          from_table = subst (All _) (sym all) (after-IsFrom k cursor);
          ends = inl refl;
          later = omega arith;
          complete = λ e i h kept.
              subst (HasId i) (sym all)
                (HasId-after cursor i (table k) h (kept k (omega arith) (omega arith)));
        })

    pub full-IsKeyset :
        (cursor : Option Text) (k fuel offset : ℕ) (front back : List Json) (row : Json) (j : Text)
        (r : Run)
        → (front ++ row ∷ []) ++ back ≡ read_at cursor k
        → id_of row ≡ some j
        → IsKeyset (some j) (k + 1) fuel r
        → (b : SnapshotBatch) → b.rows ≡ front ++ row ∷ []
        → IsKeyset cursor k (suc fuel) (record r { batches = b ∷ r.batches })
    full-IsKeyset cursor k fuel offset front back row j r split named ih b same =
        let page = front ++ row ∷ [] in
        let sorted : IsOrdered before (page ++ back) =
          subst (IsOrdered before) (sym split)
            (after_cursor-IsOrdered before asym trans cursor (table k) (ordered k)) in
        let beyond : All (Beyond before asym trans cursor) page =
          All-front _ page back (subst (All _) (sym split) (after-Beyond cursor (table k))) in
        let cursor_j : IdBeyond cursor j =
          cursor-Beyond cursor row j (All-Has _ row page beyond (Has-end front row)) named in
        let rows' = rows_of r.batches in
        let whole : page ++ rows' ≡ b.rows ++ rows' = ap (λ x. x ++ rows') (sym same) in
        record {
          in_order = subst (IsOrdered before) whole (
              IsOrdered-append before asym trans front row j rows'
                (front-IsOrdered before asym trans page back sorted) named ih.in_order ih.beyond);
          beyond =
              subst (All _) whole
                (All-append _ page rows' beyond (Later-Beyond cursor j rows' cursor_j ih.beyond));
          from_table = subst (All _) whole (
              All-append _ page rows'
                (All-front _ page back (subst (All _) (sym split) (after-IsFrom k cursor)))
                ih.from_table);
          ends = elim ih.ends [
            | inl e ↦ inl e
            | inr more ↦
                inr (subst (λ l. suc fuel ≤ length l) whole (longer front row rows' fuel more))
          ];
          later = omega arith;
          complete = λ e i h kept.
              subst (HasId i) whole
                (elim (HasId-append i page back (
                  subst (HasId i) (sym split) (
                    HasId-after cursor i (table k) h
                      (kept k (omega arith) (omega (arith, ih.later)))))) [
                        | inl here ↦ HasId-front i page rows' here
                        | inr (x, has, at) ↦
                            let after_j : before j i ≡ true =
                              Later-id before asym trans j i x
                                (All-Has (Later before asym trans j) x back
                                  (drop-Later before asym trans front row j back sorted named) has)
                                at in
                            HasId-back i page rows'
                              (ih.complete e i after_j (λ m low. kept m (omega (arith, low))))
                      ]);
        }
