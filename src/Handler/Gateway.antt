-- ===== src/Handler/Gateway.antt =====
-- What the three handlers share: the event of the HTTP gateway, the body, the answers, and the
-- environment variables.
use ea_trading_system.Prelude.{
  ℕ, ℤ, trunc_div, String, Bool, true, false, ◌&&◌, ◌==◌, Option, none, some, List, [], ◌∷◌,
  if◌then◌else◌,
}
use ea_trading_system.Errors.{
  Exc, Result, ok, err, api, api_error, value_error, conditional_write_failed, require, ◌>>◌,
}
use ea_trading_system.Json.{Fields, str, obj, dict}
use ea_trading_system.Python.{Python}
use ea_trading_system.Auth.Format.{Headers, last_value}

-- The parts of the event that are read.
pub record Event : Type 0 where
  pub method : Option String
  pub body : Option String
  pub is_base64_encoded : Bool
  pub headers : Headers

pub record Response : Type 0 where
  pub status_code : ℕ
  pub headers : List (String × String)
  pub body : String

-- `body or ""`
abbrev pub or_empty : Option String → String
or_empty none = ""
or_empty (some s) = s

abbrev pub or_default : Option String → String → String
or_default none d = d
or_default (some s) d = s

abbrev is_post : Option String → Bool
is_post none = false
is_post (some m) = m == "POST"

-- The request is a POST.
abbrev pub check_method : Event → Result (Unit {0})
check_method event =
    require (is_post event.method) (api 405 "METHOD_NOT_ALLOWED" "only POST is allowed")

-- `headers.get("idempotency-key") != id`
abbrev pub is_key : Option String → String → Bool
is_key none id = false
is_key (some key) id = key == id

abbrev decoded : Option (List ℕ) → String → Result (List ℕ)
decoded none message = err (api 400 "INVALID_BODY_ENCODING" message)
decoded (some raw) message = ok raw

module _ {F : Type 0} (p : Python F) where
  open p use {b64decode, encode, lower, json_dumps, from_iso, float, lt, is_finite, lit}

  unfoldable pub read_raw_body : Event → String → Result (List ℕ)
  read_raw_body event message =
      if event.is_base64_encoded
      then decoded (b64decode (or_empty event.body)) message
      else ok (encode (or_empty event.body))

  -- `{str(k).lower(): str(v) for k, v in headers.items()}`
  abbrev pub lowered : Headers → Headers
  lowered [] = []
  lowered ((k, v) ∷ rest) = (lower k, v) ∷ lowered rest

  abbrev pub check_key : Event → String → String → Result (Unit {0})
  check_key event id message =
      require (is_key (last_value "idempotency-key" (lowered event.headers)) id)
        (api 400 "IDEMPOTENCY_KEY_MISMATCH" message)

  abbrev seconds_of : Option ℤ → Result ℤ
  seconds_of none = err value_error
  seconds_of (some microseconds) = ok (trunc_div microseconds 1_000_000)

  -- `int(datetime.fromisoformat(...).timestamp())`
  abbrev pub body_seconds : String → Result ℤ
  body_seconds timestamp = seconds_of (from_iso timestamp)

  -- `_response`
  unfoldable pub response : ℕ → Fields F → Response
  response status body = record {
    status_code = status;
    headers = ("content-type", "application/json") ∷ ("cache-control", "no-store") ∷ [];
    body = json_dumps (obj body);
  }

  abbrev pub error_body : String → String → Fields F
  error_body code message =
      dict (("error", obj (dict (("code", str code) ∷ ("message", str message) ∷ []))) ∷ [])

  -- `except ApiError` and `except Exception`
  abbrev pub failure : String → Exc → Response
  failure message (api_error e) = response e.status_code (error_body e.code e.message)
  failure message conditional_write_failed = response 500 (error_body "INTERNAL_ERROR" message)
  failure message other = response 500 (error_body "INTERNAL_ERROR" message)

  abbrev positive : Option F → Result F
  positive none = err value_error
  positive (some x) = require (is_finite x && lt (lit 0) x) value_error >> ok x

  abbrev parsed : Option F → Result F
  parsed none = err value_error
  parsed (some x) = ok x

  -- `float(os.environ.get(name, default))`; `environ` holds the variables that are set.
  abbrev pub float_setting : (String → Option String) → String → String → Result F
  float_setting environ name default = parsed (float (or_default (environ name) default))

  -- `_positive_env_seconds`
  abbrev pub positive_env_seconds : (String → Option String) → String → String → Result F
  positive_env_seconds environ name default = positive (float (or_default (environ name) default))

  -- `_strict_bool`
  abbrev pub strict_bool : (String → Option String) → String → String → Result Bool
  strict_bool environ name default =
      let value = lower (or_default (environ name) default) in
      if value == "true" then ok true else if value == "false" then ok false else err value_error
