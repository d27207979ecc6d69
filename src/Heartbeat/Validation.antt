-- ===== src/Heartbeat/Validation.antt =====
-- heartbeat_validation.py: `parse_and_validate_heartbeat`.
use ea_trading_system.Prelude.{ℕ, ℤ, pos, String, ◌&◌, Bool, ◌&&◌, List, [], ◌∷◌, leb_ℤ}
use ea_trading_system.Errors.{Exc, Result, ok, err, api, api_error, require, ◌>>=◌, ◌>>◌}
use ea_trading_system.Json.{whole, Value, Fields, null, bool, num, str}
use ea_trading_system.Python.{Python, full_match, is_identifier}
use ea_trading_system.Validation.Fields.{item, is_text, read_body}
use ea_trading_system.Telemetry.Fields.{uuid4, utc}
use ea_trading_system.Telemetry.Event.{dictionary}

abbrev pub max_heartbeat_bytes : ℕ
max_heartbeat_bytes = 2_048

abbrev pub min_interval_seconds : ℕ
min_interval_seconds = 30

abbrev pub max_interval_seconds : ℕ
max_interval_seconds = 900

abbrev pub root_fields : List String
root_fields =
    "schema_version" ∷ "heartbeat_id" ∷ "ea_id" ∷ "timestamp" ∷ "symbol" ∷ "interval_seconds"
    ∷ "terminal_connected" ∷ "trade_mutations_enabled" ∷ "kill_switch_active" ∷ []

pub record Heartbeat : Type 0 where
  pub heartbeat_id : String
  pub ea_id : String
  pub timestamp : String
  pub symbol : String
  pub interval_seconds : ℤ
  pub terminal_connected : Bool
  pub trade_mutations_enabled : Bool
  pub kill_switch_active : Bool

abbrev pub invalid : String → Exc
invalid message = api 400 "INVALID_HEARTBEAT" message

-- `except ApiError as exc: raise ApiError(400, "INVALID_HEARTBEAT", exc.message)`
abbrev pub renamed : {A : Type 0} → Result A → Result A
renamed (ok a) = ok a
renamed (err (api_error e)) = err (invalid e.message)
renamed (err other) = err other

module _ {F : Type 0} where
  -- `isinstance(value, str)` and a pattern
  abbrev matched : Value F → String → (String → Bool) → Result String
  matched (str s) key test = require (test s) (invalid (key & " is invalid")) >>= λ u. ok s
  matched null key test = err (invalid (key & " is invalid"))
  matched _ key test = err (invalid (key & " is invalid"))

  unfoldable pub text_matching : Fields F → String → (String → Bool) → Result String
  text_matching fs key test = do v ← item fs key; matched v key test

  unfoldable pub interval : Value F → Result ℤ
  interval (num (whole n)) = do
    require (leb_ℤ (pos min_interval_seconds) n && leb_ℤ n (pos max_interval_seconds))
        (invalid "interval_seconds is invalid")
    ok n
  interval null = err (invalid "interval_seconds is invalid")
  interval _ = err (invalid "interval_seconds is invalid")

  unfoldable pub boolean : Value F → String → Result Bool
  boolean (bool b) name = ok b
  boolean null name = err (invalid (name & " must be boolean"))
  boolean _ name = err (invalid (name & " must be boolean"))

module _ {F : Type 0} ⦃p : Python F⦄ where
  -- The `try` block: the identifier and then the time.
  unfoldable pub identity : Fields F → Result (String × String)
  identity fs = do
    id ← item fs "heartbeat_id"
    heartbeat_id ← uuid4 id "heartbeat_id"
    time ← item fs "timestamp"
    timestamp ← utc time "timestamp"
    ok (heartbeat_id, timestamp)

  unfoldable pub heartbeat_of : Fields F → Result Heartbeat
  heartbeat_of fs = do
    version ← item fs "schema_version"
    require (is_text version "1.0")
        (api 400 "UNSUPPORTED_HEARTBEAT_SCHEMA" "schema_version must be 1.0")
    (heartbeat_id, timestamp) ← renamed (identity fs)
    ea_id ← text_matching fs "ea_id" (full_match is_identifier 1 64)
    symbol ← text_matching fs "symbol" (full_match is_identifier 1 32)
    seconds ← item fs "interval_seconds"
    interval_seconds ← interval seconds
    connected ← item fs "terminal_connected"
    terminal_connected ← boolean connected "terminal_connected"
    enabled ← item fs "trade_mutations_enabled"
    trade_mutations_enabled ← boolean enabled "trade_mutations_enabled"
    active ← item fs "kill_switch_active"
    kill_switch_active ← boolean active "kill_switch_active"
    ok (record {
      heartbeat_id = heartbeat_id;
      ea_id = ea_id;
      timestamp = timestamp;
      symbol = symbol;
      interval_seconds = interval_seconds;
      terminal_connected = terminal_connected;
      trade_mutations_enabled = trade_mutations_enabled;
      kill_switch_active = kill_switch_active;
    })

module _ {F : Type 0} (p : Python F) where
  unfoldable pub parse_and_validate_heartbeat : List ℕ → Result Heartbeat
  parse_and_validate_heartbeat raw_body = do
    value ←
        read_body {F = F} ⦃p = p⦄ raw_body max_heartbeat_bytes
          (invalid "heartbeat body is empty or too large")
          (api 400 "INVALID_HEARTBEAT_JSON" "heartbeat must be strict UTF-8 JSON")
    fs ← dictionary value root_fields (invalid "heartbeat fields do not match the contract")
    heartbeat_of ⦃p = p⦄ fs
