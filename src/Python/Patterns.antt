-- ===== src/Python/Patterns.antt =====
-- The regular expressions of the code: each is one class of characters with bounds on the length,
-- under `re.fullmatch`.
use ea_trading_system.Prelude.{
  ℕ, String, Bool, ◌&&◌, ◌||◌, List, leb, ltb, nat_eq, all, any, length, codes,
}

abbrev pub between : ℕ → ℕ → ℕ → Bool
between lo hi c = leb lo c && leb c hi

-- [A-Z], [a-z], [0-9]
abbrev pub is_upper : ℕ → Bool
is_upper c = between b'A' b'Z' c

abbrev pub is_lower : ℕ → Bool
is_lower c = between b'a' b'z' c

abbrev pub is_digit : ℕ → Bool
is_digit c = between b'0' b'9' c

-- [A-Za-z0-9._-]
abbrev pub is_identifier : ℕ → Bool
is_identifier c =
    is_upper c || is_lower c || is_digit c || nat_eq c b'.' || nat_eq c b'_' || nat_eq c b'-'

-- [A-Za-z0-9._:-]
abbrev pub is_candidate : ℕ → Bool
is_candidate c = is_identifier c || nat_eq c b':'

-- [A-Z0-9._-]
abbrev pub is_symbol : ℕ → Bool
is_symbol c = is_upper c || is_digit c || nat_eq c b'.' || nat_eq c b'_' || nat_eq c b'-'

-- [A-Z0-9_]
abbrev pub is_reason_code : ℕ → Bool
is_reason_code c = is_upper c || is_digit c || nat_eq c b'_'

-- [0-9a-f]
abbrev pub is_hex : ℕ → Bool
is_hex c = is_digit c || between b'a' b'f' c

-- `len(text)`
abbrev pub len : String → ℕ
len s = length (codes s)

-- `re.fullmatch("[class]{lo,hi}", text)`
unfoldable pub full_match : (ℕ → Bool) → ℕ → ℕ → String → Bool
full_match cls lo hi s = between lo hi (len s) && all cls (codes s)

-- `any(ord(character) < 32 for character in text)`
unfoldable pub has_control : String → Bool
has_control s = any (λ c. ltb c 32) (codes s)

-- `text.endswith("Z")`
abbrev last_is : ℕ → List ℕ → Bool
last_is c List.[] = Bool.false
last_is c (List.◌∷◌ x List.[]) = nat_eq x c
last_is c (List.◌∷◌ x xs) = last_is c xs

unfoldable pub ends_with_z : String → Bool
ends_with_z s = last_is b'Z' (codes s)
