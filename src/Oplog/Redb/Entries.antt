-- ===== src/Oplog/Redb/Entries.antt =====
-- Lists of entries in strictly ascending order of their keys.
use prometheus_entity_sync.Base.{
  Text, text_lt, text_lt_irrefl, text_eq, get, All, All-keep_if, keep_if, ◌==◌, ==_iff, ==_refl,
  Bool-cases, ◌≡◌, refl, inl, inr, Bool, true, none, some, List, [], ◌∷◌, Bool,
}

module _ {V : Type 0} where
  abbrev pub Above : Text → List (Text × V) → Type 0
  Above k = All (λ e. text_lt k e.0 ≡ true)

  abbrev pub IsAscending : List (Text × V) → Type 0
  IsAscending [] = Unit
  IsAscending ((k, v) ∷ es) = Above k es × IsAscending es

  pub get-Above : (k : Text) (es : List (Text × V)) → Above k es → get es k ≡ none
  unfolding get
  get-Above k [] h = refl
  get-Above k ((j, v) ∷ es) h = elim (Bool-cases (j == k)) [
    | inl same ↦ cc ((==_iff j k).0 same, h.0, text_lt_irrefl k)
    | inr other ↦ rw other (get-Above k es h.1)
  ]

  behind :
      (k : Text) (v : V) (es fs : List (Text × V))
      → Above k fs
      → All (λ e. get es e.0 ≡ some e.1) fs
      → All (λ e. get ((k, v) ∷ es) e.0 ≡ some e.1) fs
  unfolding get
  behind k v es [] a h = tt
  behind k v es ((j, w) ∷ fs) a h = (
    elim (Bool-cases (k == j)) [
      | inl same ↦ cc ((==_iff k j).0 same, a.0, text_lt_irrefl k)
      | inr other ↦ rw other h.0
    ],
    behind k v es fs a.1 h.1,
  )

  -- Every entry of an ascending list is the one that a lookup finds.
  pub get-IsAscending :
      (es : List (Text × V)) → IsAscending es → All (λ e. get es e.0 ≡ some e.1) es
  unfolding get
  get-IsAscending [] h = tt
  get-IsAscending ((k, v) ∷ es) h = (rw (==_refl k), behind k v es es h.0 (get-IsAscending es h.1))

  pub keep_if-IsAscending :
      (p : Text × V → Bool) (es : List (Text × V)) → IsAscending es → IsAscending (keep_if p es)
  keep_if-IsAscending p [] h = tt
  keep_if-IsAscending p ((k, v) ∷ es) h = elim (Bool-cases (p (k, v))) [
    | inl keeps ↦
        rw keeps (All-keep_if (λ e. text_lt k e.0 ≡ true) p es h.0, keep_if-IsAscending p es h.1)
    | inr drops ↦ rw drops (keep_if-IsAscending p es h.1)
  ]
