-- ===== src/Telemetry/Fields.antt =====
-- event_validation.py: the checks of one field, which heartbeat_validation.py shares in part.
use ea_trading_system.Prelude.{
  ℕ, ℤ, String, ◌&◌, Bool, ◌&&◌, not, ◌==◌, Option, none, some, leb, if◌then◌else◌,
}
use ea_trading_system.Errors.{Exc, Result, ok, err, api, require, ◌>>=◌, ◌>>◌}
use ea_trading_system.Json.{Value, null, num, str}
use ea_trading_system.Python.{Python, Uuid, len, has_control, ends_with_z}
use ea_trading_system.Validation.Fields.{is_v4}

abbrev pub invalid_event : String → Exc
invalid_event message = api 400 "INVALID_EVENT" message

abbrev pub invalid_payload : String → Exc
invalid_payload message = api 400 "INVALID_EVENT_PAYLOAD" message

-- `lowered` is `value.lower()`.
abbrev canonical : Option Uuid → String → String → String → Result String
canonical none lowered value name = err (invalid_event (name & " must be UUIDv4"))
canonical (some u) lowered value name =
    if is_v4 u && u.canonical == lowered
    then ok value
    else err (invalid_event (name & " must be canonical UUIDv4"))

abbrev parsed : Option ℤ → String → String → Result String
parsed none value name = err (invalid_event (name & " must be UTC ISO-8601"))
parsed (some t) value name = ok value

-- `1 <= len(value) <= maximum` with no control character.
abbrev pub is_safe : ℕ → String → Bool
is_safe maximum s = leb 1 (len s) && leb (len s) maximum && not (has_control s)

module _ {F : Type 0} where
  unfoldable pub safe_string : Value F → String → ℕ → Result String
  safe_string (str s) name maximum =
      if is_safe maximum s then ok s else err (invalid_event (name & " is invalid"))
  safe_string null name maximum = err (invalid_event (name & " is invalid"))
  safe_string _ name maximum = err (invalid_event (name & " is invalid"))

module _ {F : Type 0} ⦃p : Python F⦄ where
  open p use {is_finite, to_float, uuid, lower, from_iso}

  unfoldable pub uuid4 : Value F → String → Result String
  uuid4 (str s) name = canonical (uuid s) (lower s) s name
  uuid4 null name = err (invalid_event (name & " must be a string"))
  uuid4 _ name = err (invalid_event (name & " must be a string"))

  -- The text of a UTC time.
  unfoldable pub utc : Value F → String → Result String
  utc (str s) name =
      if ends_with_z s
      then parsed (from_iso s) s name
      else err (invalid_event (name & " must be UTC ISO-8601"))
  utc null name = err (invalid_event (name & " must be UTC ISO-8601"))
  utc _ name = err (invalid_event (name & " must be UTC ISO-8601"))

  unfoldable pub finite_number : Value F → String → Result F
  finite_number (num n) name = do
    x ← to_float n
    require (is_finite x) (invalid_event (name & " must be finite"))
    ok x
  finite_number null name = err (invalid_event (name & " must be finite"))
  finite_number _ name = err (invalid_event (name & " must be finite"))
