-- ===== src/Oplog/Key/Bytes.antt =====
-- `to_be_bytes` and `from_be_bytes` of the unsigned integers, at every width.
use Prim.Native.Nat.{ℕ, zero, suc, ◌+◌, ◌*◌, ◌/◌, ◌%◌, ◌^◌, ◌<◌}
use native.Mathlib.Nat.{pow-suc, div-add-mod, mod-lt, mod-eq_of_lt, div-lt_iff_lt-mul}
use mathlib.Core.Path.{◌≡◌, refl, ap, ◌∙◌}
use mathlib.Core.List.{[], ◌∷◌}
use native.Mathlib.Omega.{arith}
use prometheus_entity_sync.Base.{Text, length, ltb, text_lt}

unfoldable pub to_be_bytes : ℕ → ℕ → Text
to_be_bytes zero n = []
to_be_bytes (suc k) n = n / 256 ^ k % 256 ∷ to_be_bytes k (n % 256 ^ k)

from_be : ℕ → Text → ℕ
from_be acc [] = acc
from_be acc (b ∷ bs) = from_be (acc * 256 + b) bs

unfoldable pub from_be_bytes : Text → ℕ
unfolding from_be
from_be_bytes = from_be 0

pub length-to_be_bytes : (k n : ℕ) → length (to_be_bytes k n) ≡ k
unfolding to_be_bytes
length-to_be_bytes zero n = refl
length-to_be_bytes (suc k) n = ap suc (length-to_be_bytes k (n % 256 ^ k))

pow_pos : (k : ℕ) → 0 < 256 ^ k
pow_pos zero = omega arith
pow_pos (suc k) = rw pow-suc (omega (arith, pow_pos k))

head_lt : (p n : ℕ) → 0 < p → n < 256 * p → n / p < 256
head_lt p n h k = (div-lt_iff_lt-mul h).1 (omega arith)

combine : (acc p q r n : ℕ) → p * q + r ≡ n → (acc * 256 + q) * p + r ≡ acc * (256 * p) + n
combine acc p q r n h = omega arith

from_be-to_be : (k acc n : ℕ) → n < 256 ^ k → from_be acc (to_be_bytes k n) ≡ acc * 256 ^ k + n
unfolding from_be to_be_bytes
from_be-to_be zero acc n h = omega arith
from_be-to_be (suc k) acc n h =
    let p = 256 ^ k in
    let below : n < 256 * p = omega (arith, pow-suc 256 k) in
    let head : n / p % 256 ≡ n / p = mod-eq_of_lt (head_lt p n (pow_pos k) below) in
    rw (from_be-to_be k (acc * 256 + n / p % 256) (n % p) (mod-lt n (pow_pos k))) (
      rw head (
        combine acc p (n / p) (n % p) n (div-add-mod n p)
        ∙ ap (λ (t : ℕ). acc * t + n) (omega (arith, pow-suc 256 k))))

-- Decoding what was encoded gives the number back, if it fits the width.
pub from_be_bytes-to_be_bytes : (k n : ℕ) → n < 256 ^ k → from_be_bytes (to_be_bytes k n) ≡ n
unfolding from_be_bytes
from_be_bytes-to_be_bytes k n h = omega (arith, from_be-to_be k 0 n h)

order_head : (p a b : ℕ) → 0 < p → a / p < b / p → a < b
order_head p a b h e = grind (arith, div-add-mod, mod-lt)

order_tail : (p a b : ℕ) → a / p ≡ b / p → ltb (a % p) (b % p) ≡ ltb a b
order_tail p a b e = ground (arith, div-add-mod a p, div-add-mod b p, ap (λ (t : ℕ). p * t) e)

-- At one width the order of the bytes is the order of the numbers.
pub text_lt-to_be_bytes :
    (k a b : ℕ) → a < 256 ^ k → b < 256 ^ k → text_lt (to_be_bytes k a) (to_be_bytes k b) ≡ ltb a b
unfolding to_be_bytes text_lt
text_lt-to_be_bytes zero a b ha hb = ground arith
text_lt-to_be_bytes (suc k) a b ha hb =
    let p = 256 ^ k in
    let pos = pow_pos k in
    let ha' : a / p % 256 ≡ a / p = mod-eq_of_lt (head_lt p a pos (omega (arith, pow-suc 256 k))) in
    let hb' : b / p % 256 ≡ b / p = mod-eq_of_lt (head_lt p b pos (omega (arith, pow-suc 256 k))) in
    let ih = text_lt-to_be_bytes k (a % p) (b % p) (mod-lt a pos) (mod-lt b pos) in
    rw (ha', hb', ih) (ground (arith, order_head p a b pos, order_head p b a pos, order_tail p a b))
