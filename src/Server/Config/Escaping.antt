-- ===== src/Server/Config/Escaping.antt =====
-- crates/pes-server/src/config.rs: `escape_toml_basic_string` against the grammar of TOML.
use prometheus_entity_sync.Base.{
  Text, Option, none, some, [], ◌∷◌, ◌++◌, ℕ, ◌+◌, ◌*◌, ◌/◌, ◌%◌, ◌≤◌, ◌<◌, ltb, ltb→lt, ltb→le,
  nat_beq, nat_beq_iff, ◌||◌, if◌then◌else◌, Bool, false, not, ◌&&◌, Bool-cases, ◌≡◌, ◌≢◌, refl,
  sym, inl, inr, arith,
}
use mathlib.Core.Path.{subst}
use prometheus_entity_sync.Server.Config.{
  past, hex_digit, unicode_escape, escape_char, escape_toml_basic_string,
}

-- The body of a basic string up to its closing quote, and what follows: a quote that no backslash
-- escapes closes the string.
pub until_quote : Bool → Text → Option (Text × Text)
until_quote escaped [] = none
until_quote escaped (c ∷ s) =
    let rest = until_quote (not escaped && nat_beq c b'\\') s in
    if not escaped && nat_beq c b'"' then some ([], s) else past c rest

-- The value of a hexadecimal digit.
pub data IsHex : ℕ → ℕ → Type 0 where
  decimal_digit : (n : ℕ) → n < 10 → IsHex (48 + n) n
  letter : (n : ℕ) → 10 ≤ n → n < 16 → IsHex (55 + n) n

-- TOML's `basic-char`s, one after another, with the value they stand for: as far as ASCII escapes go.
pub data Denotes : Text → Text → Type 0 where
  nothing : Denotes [] []
  plain :
      (c : ℕ) {s v : Text}
      → c ≢ b'"'
      → c ≢ b'\\'
      → 0x20 ≤ c
      → c ≢ 0x7f
      → Denotes s v
      → Denotes (c ∷ s) (c ∷ v)
  quote : {s v : Text} → Denotes s v → Denotes (b'\\' ∷ b'"' ∷ s) (b'"' ∷ v)
  backslash : {s v : Text} → Denotes s v → Denotes (b'\\' ∷ b'\\' ∷ s) (b'\\' ∷ v)
  newline : {s v : Text} → Denotes s v → Denotes (b'\\' ∷ b'n' ∷ s) (b'\n' ∷ v)
  return : {s v : Text} → Denotes s v → Denotes (b'\\' ∷ b'r' ∷ s) (b'\r' ∷ v)
  tab : {s v : Text} → Denotes s v → Denotes (b'\\' ∷ b't' ∷ s) (b'\t' ∷ v)
  unicode :
      (c d1 d2 d3 d4 n1 n2 n3 n4 : ℕ) {s v : Text}
      → IsHex d1 n1
      → IsHex d2 n2
      → IsHex d3 n3
      → IsHex d4 n4
      → c ≡ n1 * 4096 + n2 * 256 + n3 * 16 + n4
      → c < 128
      → Denotes s v
      → Denotes (b'\\' ∷ b'u' ∷ d1 ∷ d2 ∷ d3 ∷ d4 ∷ s) (c ∷ v)

hex_digit-IsHex : (n : ℕ) → n < 16 → IsHex (hex_digit n) n
unfolding hex_digit
hex_digit-IsHex n h = elim (Bool-cases (ltb n 10)) [
  | inl low ↦ rw low (decimal_digit n (ltb→lt n 10 low))
  | inr high ↦ rw high (letter n (ltb→le n 10 high) h)
]

IsHex-ne : {d n : ℕ} → IsHex d n → (d ≢ b'"') × (d ≢ b'\\')
IsHex-ne (decimal_digit n h) = (λ e. omega arith, λ e. omega arith)
IsHex-ne (letter n lo hi) = (λ e. omega arith, λ e. omega arith)

control-Denotes :
    (c : ℕ) {s v : Text} → c < 128 → Denotes s v → Denotes (unicode_escape c ++ s) (c ∷ v)
unfolding unicode_escape
control-Denotes c h d =
    unicode c _ _ _ _ (c / 4096) (c / 256 % 16) (c / 16 % 16) (c % 16)
      (hex_digit-IsHex (c / 4096) (omega arith)) (hex_digit-IsHex (c / 256 % 16) (omega arith))
      (hex_digit-IsHex (c / 16 % 16) (omega arith)) (hex_digit-IsHex (c % 16) (omega arith))
      (omega arith) h d

unequal : (c d : ℕ) → c ≢ d → nat_beq c d ≡ false
unequal c d h = ground (arith, nat_beq_iff c d, h)

different : (c d : ℕ) → nat_beq c d ≡ false → c ≢ d
different c d h e = cc ((nat_beq_iff c d).1 e, h)

rest-Denotes :
    (c : ℕ) {s v : Text}
    → nat_beq c b'\\' ≡ false
    → nat_beq c b'"' ≡ false
    → Denotes s v
    → Denotes ((if ltb c 0x20 || nat_beq c 0x7f then unicode_escape c else c ∷ []) ++ s) (c ∷ v)
rest-Denotes c {s} {v} n1 n2 d = elim (Bool-cases (ltb c 0x20 || nat_beq c 0x7f)) [
  | inl control ↦ rw control (control-Denotes c (ground arith) d)
  | inr visible ↦
      rw visible
        (plain c (different c b'"' n2) (different c b'\\' n1) (ground arith) (λ e. ground arith) d)
]

unquoted-Denotes :
    (c : ℕ) {s v : Text}
    → nat_beq c b'\\' ≡ false
    → nat_beq c b'"' ≡ false
    → Denotes s v
    → Denotes
        ((if nat_beq c b'\n'
            then b'\\' ∷ b'n' ∷ []
            else if nat_beq c b'\r'
            then b'\\' ∷ b'r' ∷ []
            else if nat_beq c b'\t'
            then b'\\' ∷ b't' ∷ []
            else if ltb c 0x20 || nat_beq c 0x7f
            then unicode_escape c
            else c ∷ [])
          ++ s)
        (c ∷ v)
unquoted-Denotes c {s} {v} n1 n2 d = elim (Bool-cases (nat_beq c b'\n')) [
  | inl e ↦ rw e (
      subst (λ x. Denotes (b'\\' ∷ b'n' ∷ s) (x ∷ v)) (sym ((nat_beq_iff c b'\n').0 e)) (newline d))
  | inr n3 ↦ elim (Bool-cases (nat_beq c b'\r')) [
    | inl e ↦
        rw (n3, e)
          (subst (λ x. Denotes (b'\\' ∷ b'r' ∷ s) (x ∷ v)) (sym ((nat_beq_iff c b'\r').0 e))
            (return d))
    | inr n4 ↦ elim (Bool-cases (nat_beq c b'\t')) [
      | inl e ↦
          rw (n3, n4, e)
            (subst (λ x. Denotes (b'\\' ∷ b't' ∷ s) (x ∷ v)) (sym ((nat_beq_iff c b'\t').0 e))
              (tab d))
      | inr n5 ↦ rw (n3, n4, n5) (rest-Denotes c n1 n2 d)
    ]
  ]
]

escape_char-Denotes : (c : ℕ) {s v : Text} → Denotes s v → Denotes (escape_char c ++ s) (c ∷ v)
unfolding escape_char
escape_char-Denotes c {s} {v} d = elim (Bool-cases (nat_beq c b'\\')) [
  | inl e ↦ rw e (
      subst (λ x. Denotes (b'\\' ∷ b'\\' ∷ s) (x ∷ v)) (sym ((nat_beq_iff c b'\\').0 e))
        (backslash d))
  | inr n1 ↦ elim (Bool-cases (nat_beq c b'"')) [
    | inl e ↦
        rw (n1, e)
          (subst (λ x. Denotes (b'\\' ∷ b'"' ∷ s) (x ∷ v)) (sym ((nat_beq_iff c b'"').0 e))
            (quote d))
    | inr n2 ↦ rw (n1, n2) (unquoted-Denotes c n1 n2 d)
  ]
]

escaped-Denotes : (value : Text) → Denotes (escape_toml_basic_string value) value
unfolding escape_toml_basic_string
escaped-Denotes [] = nothing
escaped-Denotes (c ∷ value) = escape_char-Denotes c (escaped-Denotes value)

-- A text that denotes a value is read as a whole.
until_quote-Denotes :
    {s v : Text} (rest : Text) → Denotes s v → until_quote false (s ++ b'"' ∷ rest) ≡ some (s, rest)
unfolding until_quote
until_quote-Denotes rest nothing = refl
until_quote-Denotes rest (plain c q b lo del d) =
    let nq = unequal c b'"' q in
    let nb = unequal c b'\\' b in rw (nq, nb, until_quote-Denotes rest d) refl
until_quote-Denotes rest (quote d) = rw (until_quote-Denotes rest d) refl
until_quote-Denotes rest (backslash d) = rw (until_quote-Denotes rest d) refl
until_quote-Denotes rest (newline d) = rw (until_quote-Denotes rest d) refl
until_quote-Denotes rest (return d) = rw (until_quote-Denotes rest d) refl
until_quote-Denotes rest (tab d) = rw (until_quote-Denotes rest d) refl
until_quote-Denotes rest (unicode c d1 d2 d3 d4 n1 n2 n3 n4 h1 h2 h3 h4 e lt d) =
    rw
      (
        unequal d1 b'"' (IsHex-ne h1).0,
        unequal d1 b'\\' (IsHex-ne h1).1,
        unequal d2 b'"' (IsHex-ne h2).0,
        unequal d2 b'\\' (IsHex-ne h2).1,
        unequal d3 b'"' (IsHex-ne h3).0,
        unequal d3 b'\\' (IsHex-ne h3).1,
        unequal d4 b'"' (IsHex-ne h4).0,
        unequal d4 b'\\' (IsHex-ne h4).1,
        until_quote-Denotes rest d,
      )
      refl

-- The value of an environment variable, once escaped, is a TOML basic string that denotes this very
-- value; set between double quotes it is closed by the second quote and by nothing before, whatever
-- the value is and whatever follows.
pub escape_toml_basic_string-Denotes :
    (value rest : Text)
    → Denotes (escape_toml_basic_string value) value
      × (until_quote false (escape_toml_basic_string value ++ b'"' ∷ rest)
          ≡ some (escape_toml_basic_string value, rest))
escape_toml_basic_string-Denotes value rest =
    let d = escaped-Denotes value in (d, until_quote-Denotes rest d)
