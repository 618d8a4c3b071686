-- ===== src/Oplog/Redb/Sample.antt =====
-- A backend that meets the laws: sorted lists as tables, and a codec of bare deletions.
use prometheus_entity_sync.Base.{
  Text, text_eq, text_lt, text_lt_trans, text_lt_total, get, All-map_weaken, keep_if, Result, ok,
  err, if◌then◌else◌, ◌==◌, ==_iff, ◌≡◌, refl, inl, inr, ℕ, none, some, Bool, true, false, not,
  List, [], ◌∷◌, arith, Bool-cases,
}
use mathlib.Core.Path.{subst}
use prometheus_entity_sync.Core.{Op, upsert, delete, crdt_patch}
use prometheus_entity_sync.Oplog.Redb.{
  OrderedTable, StoredOp, Codec, Backend, IsAscending, Above, keep_if-IsAscending, in_range,
}

before_of : (j k : Text) → (j == k) ≡ false → text_lt k j ≡ false → text_lt j k ≡ true
before_of j k other behind = elim (Bool-cases (text_lt j k)) [
  | inl h ↦ h
  | inr h ↦ cc ((==_iff j k).1 (text_lt_total j k h behind), other)
]

module _ {V : Type 0} where
  pub get-nil : (k : Text) → get {V = V} [] k ≡ none
  unfolding get
  get-nil k = refl

  unfoldable pub put_sorted : List (Text × V) → Text → V → List (Text × V)
  put_sorted [] k v = (k, v) ∷ []
  put_sorted ((j, w) ∷ es) k v =
      if text_lt k j
      then (k, v) ∷ (j, w) ∷ es
      else if j == k
      then (k, v) ∷ es
      else (j, w) ∷ put_sorted es k v

  pub get-put_sorted :
      (es : List (Text × V)) (k : Text) (v : V) (j : Text)
      → get (put_sorted es k v) j ≡ (if k == j then some v else get es j)
  unfolding put_sorted get
  get-put_sorted [] k v j = refl
  get-put_sorted ((i, w) ∷ es) k v j =
      ground (arith, ==_iff i k, ==_iff i j, ==_iff k j, get-put_sorted es k v j)

  Above-put_sorted :
      (i : Text) (es : List (Text × V)) (k : Text) (v : V)
      → text_lt i k ≡ true
      → Above i es
      → Above i (put_sorted es k v)
  unfolding put_sorted
  Above-put_sorted i [] k v h a = (h, tt)
  Above-put_sorted i ((j, w) ∷ es) k v h a = ground (arith, h, a, Above-put_sorted i es k v h a.1)

  pub put_sorted-IsAscending :
      (es : List (Text × V)) (k : Text) (v : V) → IsAscending es → IsAscending (put_sorted es k v)
  unfolding put_sorted
  put_sorted-IsAscending [] k v h = (tt, tt)
  put_sorted-IsAscending ((j, w) ∷ es) k v h = elim (Bool-cases (text_lt k j)) [
    | inl before ↦
        rw before ((before, All-map_weaken _ _ (λ e g. text_lt_trans k j e.0 before g) es h.0), h)
    | inr behind ↦ elim (Bool-cases (j == k)) [
      | inl same ↦ rw (behind, same) (subst (λ x. Above x es) ((==_iff j k).0 same) h.0, h.1)
      | inr other ↦
          rw (behind, other)
            (
              Above-put_sorted j es k v (before_of j k other behind) h.0,
              put_sorted-IsAscending es k v h.1,
            )
    ]
  ]

  unfoldable pub without : Text → Text × V → Bool
  without k e = not (e.0 == k)

  pub get-without :
      (es : List (Text × V)) (k j : Text)
      → get (keep_if (without k) es) j ≡ (if k == j then none else get es j)
  unfolding get without
  get-without [] k j = ground arith
  get-without ((i, w) ∷ es) k j =
      ground (arith, ==_iff i k, ==_iff i j, ==_iff k j, get-without es k j)

-- A sorted list with the proof that it is sorted.
abbrev SortedList : Type 0 → Type 0
SortedList V = (es : List (Text × V)) × IsAscending es

unfoldable pub sorted_lists : (V : Type 0) → OrderedTable V
unfolding put_sorted without
sorted_lists V = record {
  Table = SortedList V;
  empty = ([], tt);
  get_value = λ t k. get t.0 k;
  insert = λ t k v. (put_sorted t.0 k v, put_sorted-IsAscending t.0 k v t.1);
  remove = λ t k. (keep_if (without k) t.0, keep_if-IsAscending (without k) t.0 t.1);
  iter = λ t. t.0;
  range = λ t lo hi. keep_if (in_range lo hi) t.0;
  get_value-empty = get-nil;
  get_value-insert = λ t k v j. get-put_sorted t.0 k v j;
  get_value-remove = λ t k j. get-without t.0 k j;
  iter-IsAscending = λ t. t.1;
  get-iter = λ t k. refl;
  range-eq-keep_if = λ t lo hi. refl;
}

-- Only a deletion with empty names is written: its LSN, its time and its bucket.
unfoldable pub encode : ℕ → ℕ → Text → Text → Text → Op → Result Text Text
encode lsn time bucket [] [] delete = ok (lsn ∷ time ∷ bucket)
encode _ _ _ _ _ _ = err []

unfoldable pub decode : Text → Result Text StoredOp
decode (lsn ∷ time ∷ bucket) = ok (record {
  op = record { lsn = lsn; bucket_id = bucket; entity_type = []; entity_id = []; op = delete };
  appended_at_unix_secs = time;
})
decode _ = err []

pub decode-encode :
    (lsn time : ℕ) (bucket entity_type entity_id : Text) (op : Op) (p : Text)
    → encode lsn time bucket entity_type entity_id op ≡ ok p
    → decode p
      ≡ ok (record {
        op = record {
          lsn = lsn;
          bucket_id = bucket;
          entity_type = entity_type;
          entity_id = entity_id;
          op = op;
        };
        appended_at_unix_secs = time;
      })
unfolding encode decode
decode-encode lsn time bucket [] [] delete p h = ground (arith, h)
decode-encode lsn time bucket [] [] (upsert v) p h = cc
decode-encode lsn time bucket [] [] (crdt_patch v) p h = cc
decode-encode lsn time bucket [] (x ∷ xs) op p h = cc
decode-encode lsn time bucket (x ∷ xs) es op p h = cc

unfoldable pub deletions : Codec
unfolding encode decode
deletions = record {
  to_vec = λ s.
      encode s.op.lsn s.appended_at_unix_secs s.op.bucket_id s.op.entity_type s.op.entity_id
        s.op.op;
  from_slice = decode;
  from_slice-to_vec = λ s p h.
      decode-encode s.op.lsn s.appended_at_unix_secs s.op.bucket_id s.op.entity_type s.op.entity_id
        s.op.op p h;
}

unfoldable pub sample : Backend
unfolding sorted_lists deletions
sample = record { ops = sorted_lists Text; checksums = sorted_lists ℕ; codec = deletions }
