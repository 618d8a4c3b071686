-- ===== src/Oplog/Redb.antt =====
-- What the op log relies on of `redb` and `rmp_serde`: an ordered table of byte keys, as its
-- documentation describes it, and a codec of stored ops that reads back what it wrote.
mod Entries
pub mod Sample
pub use Entries.*
use prometheus_entity_sync.Base.{
  Text, Map, get, keep_if, Result, ok, err, text_lt, if◌then◌else◌, ◌==◌, ◌≡◌, ℕ, Option, none,
  some, Bool, not, ◌&&◌, List, text_eq,
}
use prometheus_entity_sync.Core.{BucketOp}

-- `lo..hi`, the upper bound excluded.
abbrev pub in_range {ℓ} : {V : Type ℓ} → Text → Text → Text × V → Bool
in_range lo hi e = not (text_lt e.0 lo) && text_lt e.0 hi

-- `iter` goes through the entries in ascending order of the keys.
pub record OrderedTable (V : Type 0) : Type 1 where
  pub Table : Type 0
  pub empty : Table
  pub get_value : Table → Text → Option V
  pub insert : Table → Text → V → Table
  pub remove : Table → Text → Table
  pub iter : Table → List (Text × V)
  pub range : Table → Text → Text → List (Text × V)
  pub get_value-empty : (k : Text) → get_value empty k ≡ none
  pub get_value-insert :
      (t : Table) (k : Text) (v : V) (j : Text)
      → get_value (insert t k v) j ≡ (if k == j then some v else get_value t j)
  pub get_value-remove :
      (t : Table) (k j : Text) → get_value (remove t k) j ≡ (if k == j then none else get_value t j)
  pub iter-IsAscending : (t : Table) → IsAscending (iter t)
  pub get-iter : (t : Table) (k : Text) → get (iter t) k ≡ get_value t k
  pub range-eq-keep_if :
      (t : Table) (lo hi : Text) → range t lo hi ≡ keep_if (in_range lo hi) (iter t)

-- store.rs, `StoredOp`: an op with the wall-clock second of its append.
pub record StoredOp : Type 0 where
  pub op : BucketOp
  pub appended_at_unix_secs : ℕ

pub record Codec : Type 0 where
  pub to_vec : StoredOp → Result Text Text
  pub from_slice : Text → Result Text StoredOp
  pub from_slice-to_vec : (s : StoredOp) (p : Text) → to_vec s ≡ ok p → from_slice p ≡ ok s

pub record Backend : Type 1 where
  pub ops : OrderedTable Text
  pub checksums : OrderedTable ℕ
  pub codec : Codec
