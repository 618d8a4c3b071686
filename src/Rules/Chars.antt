-- ===== src/Rules/Chars.antt =====
-- The character classes of the regular expressions in template.rs and validator.rs.
use prometheus_entity_sync.Base.{ℕ, Bool, ◌&&◌, ◌||◌, leb, nat_beq}

-- [0-9]
abbrev pub is_digit : ℕ → Bool
is_digit c = leb b'0' c && leb c b'9'

-- [a-z]
abbrev pub is_lower : ℕ → Bool
is_lower c = leb b'a' c && leb c b'z'

-- [A-Z]
abbrev pub is_upper : ℕ → Bool
is_upper c = leb b'A' c && leb c b'Z'

-- [A-Za-z0-9_]
unfoldable pub is_name_char : ℕ → Bool
is_name_char c = is_upper c || (is_lower c || (is_digit c || nat_beq c b'_'))

-- [a-zA-Z0-9_-]
unfoldable pub is_safe_char : ℕ → Bool
unfolding is_name_char
is_safe_char c = is_name_char c || nat_beq c b'-'
