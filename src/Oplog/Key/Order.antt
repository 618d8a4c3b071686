-- ===== src/Oplog/Key/Order.antt =====
-- What the order of the composite keys gives a range scan: within a bucket the keys go by LSN, and
-- between the two bounds of a bucket lie keys of that bucket only.
use Prim.Native.Nat.{ℕ, ◌+◌, ◌-◌, ◌%◌, ◌≤◌}
use mathlib.Core.List.{append_assoc}
use prometheus_entity_sync.Base.{
  Text, text_lt, text_lt-append, length, length-append, drop, drop-length, ltb, ◌≡◌, refl, ap, ◌∙◌,
  sym, arith, some, true, false, [], ◌∷◌, ◌++◌,
}
use prometheus_entity_sync.Core.{u64_max}
use prometheus_entity_sync.Oplog.Key.{
  make_key, make_range_start, make_bucket_range_end, lsn_from_key, max_bucket_id_len,
}
use prometheus_entity_sync.Oplog.Key.Bytes.{
  to_be_bytes, from_be_bytes, length-to_be_bytes, from_be_bytes-to_be_bytes, text_lt-to_be_bytes,
}

-- The part of a key before the LSN.
abbrev pub prefix : Text → Text
prefix bucket_id = to_be_bytes 2 (length bucket_id % 65536) ++ bucket_id

make_key-prefix : (b : Text) (l : ℕ) → make_key b l ≡ prefix b ++ to_be_bytes 8 l
unfolding make_key
make_key-prefix b l = rw append_assoc

-- The LSN that a key was made with is read back, for every bucket id and every `u64`.
pub lsn_from_key-make_key : (b : Text) (l : ℕ) → l ≤ u64_max → lsn_from_key (make_key b l) ≡ some l
unfolding lsn_from_key
lsn_from_key-make_key b l h =
    let p = prefix b in
    let bytes = to_be_bytes 8 l in
    let len : length (make_key b l) ≡ length p + 8 =
      ap length (make_key-prefix b l)
      ∙ length-append p bytes
      ∙ ap (λ (t : ℕ). length p + t) (length-to_be_bytes 8 l) in
    let tail : drop (length p) (make_key b l) ≡ bytes =
      ap (drop (length p)) (make_key-prefix b l) ∙ drop-length p bytes in
    let start : length p + 8 - 8 ≡ length p = omega arith in
    let long : ltb (length p + 8) 8 ≡ false = ground arith in
    rw (len, long, start, tail) (ap some (from_be_bytes-to_be_bytes 8 l (omega arith)))

-- Keys of one bucket are ordered by LSN, as numbers in the range of `u64`.
pub text_lt-make_key :
    (b : Text) (l m : ℕ)
    → l ≤ u64_max
    → m ≤ u64_max
    → text_lt (make_key b l) (make_key b m) ≡ ltb l m
text_lt-make_key b l m hl hm =
    rw (make_key-prefix b l, make_key-prefix b m, text_lt-append (prefix b))
      (text_lt-to_be_bytes 8 l m (omega arith) (omega arith))

-- A text between two extensions of `p` extends `p`.
between :
    (p x y k : Text)
    → text_lt k (p ++ x) ≡ false
    → text_lt k (p ++ y) ≡ true
    → (z : Text) × (k ≡ p ++ z)
unfolding text_lt
between [] x y k h g = (k, refl)
between (a ∷ p) x y [] h g = cc
between (a ∷ p) x y (c ∷ k) h g =
    let same : c ≡ a = ground arith in
    let rest = between p x y k (ground arith) (ground arith) in (rest.0, λ i. same i ∷ rest.1 i)

-- Texts of one length before any rests are equal if the whole is.
append_cancel : (p q x y : Text) → length p ≡ length q → p ++ x ≡ q ++ y → (p ≡ q) × (x ≡ y)
append_cancel [] [] x y l e = (refl, e)
append_cancel [] (b ∷ q) x y l e = absurd (omega arith)
append_cancel (a ∷ p) [] x y l e = absurd (omega arith)
append_cancel (a ∷ p) (b ∷ q) x y l e =
    let ih = append_cancel p q x y (omega arith) (cc) in
    let head : a ≡ b = cc in (λ i. head i ∷ ih.0 i, ih.1)

-- The length bytes make the ids prefix free.
prefix_unique :
    (b c x z : Text)
    → length b ≤ max_bucket_id_len
    → length c ≤ max_bucket_id_len
    → prefix c ++ x ≡ prefix b ++ z
    → c ≡ b
prefix_unique b c x z hb hc e =
    let hdr = λ (t : Text). to_be_bytes 2 (length t % 65536) in
    let wide = λ (t : Text). length-to_be_bytes 2 (length t % 65536) in
    let parts =
      append_cancel (hdr c) (hdr b) (c ++ x) (b ++ z) (wide c ∙ sym (wide b))
        (sym (append_assoc (hdr c) c x) ∙ e ∙ append_assoc (hdr b) b z) in
    let back = λ (t : Text). from_be_bytes-to_be_bytes 2 (length t % 65536) (omega arith) in
    let lens : length c % 65536 ≡ length b % 65536 =
      sym (back c) ∙ ap from_be_bytes parts.0 ∙ back b in
    (append_cancel c b x z (omega arith) parts.1).0

-- A key between the bounds of a bucket's scan was made for that bucket, whatever bucket ids share a
-- prefix, as long as the ids fit the two bytes of their length.
pub bucket_of_key :
    (b c : Text) (l m : ℕ)
    → length b ≤ max_bucket_id_len
    → length c ≤ max_bucket_id_len
    → text_lt (make_key c m) (make_range_start b l) ≡ false
    → text_lt (make_key c m) (make_bucket_range_end b) ≡ true
    → c ≡ b
unfolding make_range_start make_bucket_range_end
bucket_of_key b c l m hb hc lo hi =
    let p = prefix b in
    let fits =
      between p (to_be_bytes 8 l) (to_be_bytes 8 u64_max) (make_key c m)
        (rw (← make_key-prefix b l) lo) (rw (← make_key-prefix b u64_max) hi) in
    prefix_unique b c (to_be_bytes 8 m) fits.0 hb hc (sym (make_key-prefix c m) ∙ fits.1)

-- One key is made from one bucket id and one LSN, as long as the ids fit the two bytes of their
-- length and the LSNs are in the range of `u64`.
pub make_key-injective :
    (b c : Text) (l m : ℕ)
    → length b ≤ max_bucket_id_len
    → length c ≤ max_bucket_id_len
    → l ≤ u64_max
    → m ≤ u64_max
    → make_key b l ≡ make_key c m
    → (b ≡ c) × (l ≡ m)
make_key-injective b c l m hb hc hl hm e = (
  prefix_unique c b (to_be_bytes 8 l) (to_be_bytes 8 m) hc hb
      (sym (make_key-prefix b l) ∙ e ∙ make_key-prefix c m),
  cc (lsn_from_key-make_key b l hl, ap lsn_from_key e, lsn_from_key-make_key c m hm),
)
