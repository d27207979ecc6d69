-- ===== src/Validation/Fields.antt =====
-- validation.py: the checks of one field (`_exact_fields`, `_string`, `_number`, `_integer`,
-- `_date_time`, `_canonical_uuid`) and the reading of a body.
use ea_trading_system.Prelude.{
  ℕ, ℤ, pos, String, ◌&◌, Bool, true, false, ◌&&◌, not, ◌==◌, Option, none, some, List, [], ◌∷◌,
  leb, nat_eq, leb_ℤ, one_of, length, if◌then◌else◌,
}
use ea_trading_system.Errors.{
  Exc, Result, ok, err, api, value_error, type_error, key_error, require, ◌>>=◌, ◌>>◌,
}
use ea_trading_system.Json.{
  Number, whole, Value, Fields, null, num, str, arr, obj, get, has_key, end, field, read_value,
}
use ea_trading_system.Python.{Python, Uuid, ends_with_z}

abbrev pub invalid : String → Exc
invalid message = api 400 "INVALID_REQUEST" message

-- `expected - value.keys()` and `value.keys() - expected` are both empty.
module _ {F : Type 0} where
  abbrev pub has_all : List String → Fields F → Bool
  has_all [] fs = true
  has_all (k ∷ ks) fs = has_key k fs && has_all ks fs

  abbrev pub only : List String → Fields F → Bool
  only ks end = true
  only ks (field k v rest) = one_of ks k && only ks rest

  abbrev pub same_keys : List String → Fields F → Bool
  same_keys ks fs = has_all ks fs && only ks fs

  -- `fields[key]`
  abbrev pub found : Option (Value F) → Result (Value F)
  found none = err key_error
  found (some v) = ok v

  unfoldable pub item : Fields F → String → Result (Value F)
  item fs k = found (get k fs)

  unfoldable pub exact_fields : Value F → List String → String → Result (Fields F)
  exact_fields (obj fs) expected path =
      if same_keys expected fs
      then ok fs
      else err (invalid (path & " fields do not match the contract"))
  exact_fields null expected path = err (invalid (path & " must be an object"))
  exact_fields _ expected path = err (invalid (path & " must be an object"))

  unfoldable pub string : Value F → String → Result String
  string (str s) path = ok s
  string null path = err (invalid (path & " must be a string"))
  string _ path = err (invalid (path & " must be a string"))

  -- `value == text`
  abbrev pub is_text : Value F → String → Bool
  is_text (str s) t = s == t
  is_text null t = false
  is_text _ t = false

  -- `value in {text, ...}`: the hash of a list or a dictionary raises TypeError.
  unfoldable pub is_member : Value F → List String → Result Bool
  is_member (str s) ts = ok (one_of ts s)
  is_member (arr xs) ts = err type_error
  is_member (obj fs) ts = err type_error
  is_member _ ts = ok false

  -- The text that a value is, once a test has shown that it is one.
  abbrev pub as_text : Value F → Result String
  as_text (str s) = ok s
  as_text null = err type_error
  as_text _ = err type_error

  abbrev integer_in : Value F → ℕ → ℕ → Result ℤ → Result ℤ
  integer_in (num (whole n)) lo hi otherwise =
      if leb_ℤ (pos lo) n && leb_ℤ n (pos hi) then ok n else otherwise
  integer_in null lo hi otherwise = otherwise
  integer_in _ lo hi otherwise = otherwise

  unfoldable pub integer : Value F → String → ℕ → ℕ → Result ℤ
  integer v path lo hi = integer_in v lo hi (err (invalid (path & " must be an integer in range")))

-- `minimum`, with `exclusive_minimum`
pub data Minimum : Type 0 where
  any_number : Minimum
  at_least above : ℕ → Minimum

abbrev parsed_time : Option ℤ → String → Result ℤ
parsed_time none path = err (invalid (path & " is not ISO-8601"))
parsed_time (some t) path = ok t

abbrev pub is_v4 : Uuid → Bool
is_v4 u = elim u.version [ none ↦ false | some n ↦ nat_eq n 4 ]

-- `lowered` is `text.lower()`.
abbrev pub canonical : Option Uuid → String → String → String → Result String
canonical none lowered text path = err (invalid (path & " is not a UUID"))
canonical (some u) lowered text path =
    if u.canonical == lowered && is_v4 u
    then ok text
    else err (invalid (path & " must be a canonical UUIDv4"))

-- `except (UnicodeDecodeError, json.JSONDecodeError, ValueError)`: any other exception goes on.
abbrev pub as_api_error : {A : Type 0} → Exc → Result A → Result A
as_api_error e (ok a) = ok a
as_api_error e (err value_error) = err e
as_api_error e (err other) = err other

abbrev decoded : Option String → Result String
decoded none = err value_error
decoded (some text) = ok text

module _ {F : Type 0} ⦃p : Python F⦄ where
  open p use {lit, is_finite, lt, le, to_float, decode, json_raw, uuid, lower, from_iso}

  abbrev pub below_minimum : F → Minimum → Bool
  below_minimum x any_number = false
  below_minimum x (at_least m) = lt x (lit m)
  below_minimum x (above m) = le x (lit m)

  abbrev pub above_maximum : F → Option ℕ → Bool
  above_maximum x none = false
  above_maximum x (some m) = lt (lit m) x

  unfoldable pub float_number : Number F → String → Minimum → Option ℕ → Result F
  float_number n path minimum maximum = do
    x ← to_float n
    require (is_finite x) (invalid (path & " must be finite"))
    require (not (below_minimum x minimum)) (invalid (path & " is below its minimum"))
    require (not (above_maximum x maximum)) (invalid (path & " exceeds its maximum"))
    ok x

  unfoldable pub number : Value F → String → Minimum → Option ℕ → Result F
  number (num n) path minimum maximum = float_number n path minimum maximum
  number null path minimum maximum = err (invalid (path & " must be a number"))
  number _ path minimum maximum = err (invalid (path & " must be a number"))

  unfoldable pub date_time : Value F → String → Result ℤ
  date_time v path = do
    text ← string v path
    require (ends_with_z text) (invalid (path & " must be UTC with Z suffix"))
    parsed_time (from_iso text) path

  unfoldable pub canonical_uuid : Value F → String → Result String
  canonical_uuid v path = do text ← string v path; canonical (uuid text) (lower text) text path

  unfoldable pub loads : List ℕ → Result (Value F)
  loads raw = do text ← decoded (decode raw); raw_value ← json_raw text; read_value raw_value

  -- The first lines of each parser: the limit on the size, and the strict reading.
  unfoldable pub read_body : List ℕ → ℕ → Exc → Exc → Result (Value F)
  unfolding loads
  read_body raw limit size_error json_error = do
    require (not (nat_eq (length raw) 0) && leb (length raw) limit) size_error
    as_api_error json_error (loads raw)
