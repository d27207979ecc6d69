-- ===== src/Tickdata/Times.antt =====
-- timeutil.py: UTC and server time, and their texts.
pub mod Clock
use ea_trading_system.Prelude.{
  ℕ, ℤ, pos, negsuc, ◌+ℤ◌, ◌-ℤ◌, ◌/◌, ◌%◌, ◌-◌, ◌*◌, suc, sub_ℕ, ◌||◌, eq_ℤ, String, ◌&◌, Bool,
  true, false, ◌&&◌, not, ◌==◌, Option, none, some, List, [], ◌∷◌, nat_eq, one_of, lookup,
  if◌then◌else◌,
}
use Prim.Native.Char.{code}
use ea_trading_system.Errors.{Result, ok, err, value_error, type_error, require, ◌>>=◌, ◌>>◌}
use ea_trading_system.Json.{Value, Fields, null, bool, num, str, get}
use ea_trading_system.Python.{Python}

-- What the code takes from `time`, `datetime` and `zoneinfo`: the texts of a second in UTC, a number
-- with three digits, `date.fromisoformat` as an ordinal, and New York's offset in seconds in an hour
-- that is counted from the epoch.
pub record Zones : Type 0 where
  -- "%Y-%m-%dT%H:%M:%S", "%Y.%m.%d" and "%H:%M:%S"
  pub iso_seconds : ℤ → String
  pub date_text : ℤ → String
  pub time_text : ℤ → String
  pub three_digits : ℕ → String
  pub date_of_iso : String → Option ℕ
  pub ny_offset_seconds : ℤ → ℤ

-- `divmod(a, d)` for a positive d
abbrev pub floor_div : ℤ → ℕ → ℤ
floor_div (pos n) d = pos (n / d)
floor_div (negsuc n) d = negsuc (n / d)

abbrev pub floor_mod : ℤ → ℕ → ℕ
floor_mod (pos n) d = n % d
floor_mod (negsuc n) d = d - 1 - n % d

abbrev pub ms_per_hour : ℕ
ms_per_hour = 3_600_000

abbrev pub ny_close_shift_ms : ℕ
ny_close_shift_ms = 25_200_000

-- `text.replace(".", "-").replace("/", "-")`
abbrev pub dashed : String → String
dashed String.[] = ""
dashed (String.◌∷◌ c s) =
    let rest = dashed s in
    if nat_eq (code c) b'.'
    then String.◌∷◌ "-" rest
    else if nat_eq (code c) b'/'
    then String.◌∷◌ "-" rest
    else String.◌∷◌ c rest

-- `a * k`
abbrev pub scaled : ℕ → ℤ → ℤ
scaled k (pos n) = pos (n * k)
scaled k (negsuc n) = sub_ℕ 0 (suc n * k)

-- `_ny_offset_cache.get(hour)`
abbrev pub cached : ℤ → List (ℤ × ℤ) → Option ℤ
cached h [] = none
cached h ((j, v) ∷ rest) = if eq_ℤ j h then some v else cached h rest

-- `ServerTimeRule`
pub record Rule (F : Type 0) : Type 0 where
  pub mode : String
  pub offset_hours : F

-- The second, the date and the time that were formatted last.
pub record Formatter : Type 0 where
  pub second : ℤ
  pub date : String
  pub time : String

abbrev pub new_formatter : Formatter
new_formatter = record { second = negsuc 0; date = ""; time = "" }

abbrev found : Option ℕ → Result ℕ
found none = err value_error
found (some d) = ok d

module _ (z : Zones) where
  unfoldable pub utc_ms_to_iso : ℤ → String
  utc_ms_to_iso timestamp_ms =
      z.iso_seconds (floor_div timestamp_ms 1_000)
      & ("." & (z.three_digits (floor_mod timestamp_ms 1_000) & "Z"))

  -- New York's offset in an hour, computed.
  abbrev pub ny_offset_ms : ℤ → ℤ
  ny_offset_ms hour = scaled 1_000 (z.ny_offset_seconds hour)

  abbrev pub looked_up : ℤ → List (ℤ × ℤ) → Option ℤ → ℤ × List (ℤ × ℤ)
  looked_up hour cache (some ms) = (ms, cache)
  looked_up hour cache none = (ny_offset_ms hour, (hour, ny_offset_ms hour) ∷ cache)

  -- `_ny_offset_ms_for_hour` with its cache
  unfoldable pub ny_offset_ms_for_hour : ℤ → List (ℤ × ℤ) → ℤ × List (ℤ × ℤ)
  ny_offset_ms_for_hour hour cache = looked_up hour cache (cached hour cache)

  unfoldable pub parse_date : {F : Type 0} → Python F → String → Result ℕ
  parse_date p value = found (z.date_of_iso (dashed (p.strip value)))

  abbrev refreshed : Bool → ℤ → Formatter → Formatter
  refreshed true second f = f
  refreshed false second f = record {
    second = second;
    date = z.date_text second;
    time = z.time_text second;
  }

  -- `WallClockFormatter.format`
  unfoldable pub format : ℤ → Formatter → (String × String) × Formatter
  format wall_ms f =
      let g = refreshed (eq_ℤ (floor_div wall_ms 1_000) f.second) (floor_div wall_ms 1_000) f in
      ((g.date, g.time & ("." & z.three_digits (floor_mod wall_ms 1_000))), g)

  module _ {F : Type 0} (p : Python F) where
    open p use {le, neg, lit, to_float, float, mul, truncate}

    -- `__post_init__`
    unfoldable pub new_rule : String → F → Result (Rule F)
    new_rule mode offset_hours = do
      require (one_of ("utc" ∷ "fixed" ∷ "ny_close" ∷ []) mode) value_error
      require
          (not (mode == "fixed") || (le (neg (lit 14)) offset_hours && le offset_hours (lit 14)))
          value_error
      ok (record { mode = mode; offset_hours = offset_hours })

    -- `str(value)`: only a text can be one of the modes.
    abbrev mode_of : Value F → String
    mode_of (str s) = s
    mode_of null = "None"
    mode_of _ = "other"

    abbrev parsed_float : Option F → Result F
    parsed_float none = err value_error
    parsed_float (some x) = ok x

    -- `float(value.get("offset_hours", 0.0))`
    abbrev hours_of : Option (Value F) → Result F
    hours_of none = ok (lit 0)
    hours_of (some (num n)) = to_float n
    hours_of (some (bool b)) = ok (if b then lit 1 else lit 0)
    hours_of (some (str s)) = parsed_float (float s)
    hours_of (some v) = err type_error

    abbrev rule_of : Option (Value F) → Fields F → Result (Rule F)
    rule_of none fs = err value_error
    rule_of (some mode) fs =
        hours_of (get "offset_hours" fs) >>= λ hours. new_rule (mode_of mode) hours

    unfoldable pub rule_from_config : Option (Fields F) → Result (Rule F)
    rule_from_config none = err value_error
    rule_from_config (some fs) = rule_of (get "mode" fs) fs

    unfoldable pub offset_ms_at : Rule F → ℤ → Result ℤ
    offset_ms_at rule timestamp_ms =
        if rule.mode == "utc"
        then ok (pos 0)
        else if rule.mode == "fixed"
        then truncate (mul rule.offset_hours (lit ms_per_hour))
        else ok (ny_offset_ms (floor_div timestamp_ms ms_per_hour) +ℤ pos ny_close_shift_ms)

    unfoldable pub utc_ms_to_server_wall_ms : Rule F → ℤ → Result ℤ
    utc_ms_to_server_wall_ms rule timestamp_ms =
        offset_ms_at rule timestamp_ms >>= λ o. ok (timestamp_ms +ℤ o)

    unfoldable pub server_wall_ms_to_utc_ms : Rule F → ℤ → Result ℤ
    server_wall_ms_to_utc_ms rule wall_ms = do
      o ← offset_ms_at rule wall_ms
      o' ← offset_ms_at rule (wall_ms -ℤ o)
      ok (wall_ms -ℤ o')
