-- ===== src/Telemetry/Event.antt =====
-- event_validation.py: `parse_and_validate_event`.
use ea_trading_system.Prelude.{
  ℕ, pos, String, ◌&◌, Bool, ◌&&◌, ◌||◌, ◌==◌, Option, none, some, List, [], ◌∷◌, leb_ℤ, one_of,
  lookup, if◌then◌else◌,
}
use ea_trading_system.Errors.{Exc, Result, ok, err, api, type_error, require, ◌>>=◌, ◌>>◌}
use ea_trading_system.Json.{whole, Value, Fields, null, num, str, arr, obj, end, field}
use ea_trading_system.Python.{Python, full_match, is_identifier, is_candidate, is_symbol, is_digit}
use ea_trading_system.Validation.Fields.{item, is_text, same_keys, read_body}
use ea_trading_system.Telemetry.Fields.{
  invalid_event, invalid_payload, safe_string, uuid4, utc, finite_number,
}

abbrev pub max_event_bytes : ℕ
max_event_bytes = 16_384

abbrev pub root_fields : List String
root_fields =
    "schema_version" ∷ "event_id" ∷ "trade_candidate_id" ∷ "request_id" ∷ "ea_id" ∷ "timestamp"
    ∷ "event_type" ∷ "symbol" ∷ "payload" ∷ []

-- `PAYLOAD_FIELDS`
abbrev pub payload_fields : List (String × List String)
payload_fields =
    (
      "CANDIDATE",
      "direction" ∷ "pattern" ∷ "entry_price" ∷ "stop_loss" ∷ "take_profit" ∷ "risk_reward_ratio"
          ∷ "reason_code" ∷ "reason" ∷ [],
    )
    ∷ (
      "EXTERNAL_DECISION",
      "decision" ∷ "reason_code" ∷ "ml_status" ∷ "ml_win_probability" ∷ "ml_expected_return"
          ∷ "ml_model_version" ∷ "llm_status" ∷ "llm_provider" ∷ "llm_model" ∷ "llm_prompt_version"
          ∷ "llm_confidence" ∷ "llm_reason" ∷ [],
    )
    ∷ (
      "RISK_DECISION",
      "status" ∷ "reason_code" ∷ "reason" ∷ "volume" ∷ "risk_budget" ∷ "estimated_stop_loss"
          ∷ "required_margin" ∷ "daily_loss_rate" ∷ "drawdown_rate" ∷ [],
    )
    ∷ (
      "ORDER_SUBMISSION",
      "status" ∷ "reason_code" ∷ "reason" ∷ "order_ticket" ∷ "deal_ticket" ∷ "broker_retcode"
          ∷ "requested_price" ∷ "confirmed_price" ∷ "requested_volume" ∷ "confirmed_volume"
          ∷ "slippage_points" ∷ [],
    )
    ∷ (
      "DEAL",
      "deal_ticket" ∷ "order_ticket" ∷ "position_ticket" ∷ "entry" ∷ "price" ∷ "volume" ∷ "pnl"
          ∷ [],
    )
    ∷ (
      "POSITION_SNAPSHOT",
      "position_ticket" ∷ "direction" ∷ "volume" ∷ "open_price" ∷ "current_price" ∷ "stop_loss"
          ∷ "take_profit" ∷ "unrealized_pnl" ∷ [],
    )
    ∷ (
      "TRADE_CLOSED",
      "position_ticket" ∷ "direction" ∷ "open_time" ∷ "close_time" ∷ "volume" ∷ "open_price"
          ∷ "close_price" ∷ "close_reason" ∷ "pnl" ∷ "commission" ∷ "swap" ∷ [],
    )
    ∷ (
      "ACCOUNT_SNAPSHOT",
      "balance" ∷ "equity" ∷ "margin" ∷ "free_margin" ∷ "margin_level" ∷ "open_positions" ∷ [],
    )
    ∷ ("SYSTEM_ERROR", "component" ∷ "reason_code" ∷ "reason" ∷ [])
    ∷ []

abbrev pub safe_text_fields : List String
safe_text_fields =
    "status" ∷ "reason_code" ∷ "entry" ∷ "direction" ∷ "component" ∷ "pattern" ∷ "decision"
    ∷ "ml_status" ∷ "ml_model_version" ∷ "llm_status" ∷ "llm_provider" ∷ "llm_model"
    ∷ "llm_prompt_version" ∷ "close_reason" ∷ []

abbrev pub ticket_fields : List String
ticket_fields = "order_ticket" ∷ "deal_ticket" ∷ "position_ticket" ∷ []

abbrev pub time_fields : List String
time_fields = "open_time" ∷ "close_time" ∷ []

-- The validated event.
pub record Event (F : Type 0) : Type 0 where
  pub event_id : String
  pub trade_candidate_id : String
  pub request_id : String
  pub ea_id : String
  pub timestamp : String
  pub event_type : String
  pub symbol : String
  pub payload : Fields F

-- `event_type not in PAYLOAD_FIELDS`: a list or a dictionary has no hash.
abbrev known_type : Option (List String) → String → Result (String × List String)
known_type none s = err (api 400 "INVALID_EVENT_TYPE" "event_type is invalid")
known_type (some names) s = ok (s, names)

abbrev done : {A : Type 0} → Result A → Result (Unit {0})
done m = m >>= λ a. ok tt

module _ {F : Type 0} where
  unfoldable pub payload_names : Value F → Result (String × List String)
  payload_names (str s) = known_type (lookup s payload_fields) s
  payload_names (arr xs) = err type_error
  payload_names (obj fs) = err type_error
  payload_names _ = err (api 400 "INVALID_EVENT_TYPE" "event_type is invalid")

  -- `isinstance(value, dict) and set(value) == names`
  abbrev pub dictionary : Value F → List String → Exc → Result (Fields F)
  dictionary (obj fs) names e = if same_keys names fs then ok fs else err e
  dictionary null names e = err e
  dictionary _ names e = err e

  unfoldable pub check_safe_text : Value F → String → Result (Unit {0})
  check_safe_text v name = do
    text ← safe_string v ("payload." & name) 64
    require (full_match is_candidate 1 64 text)
        (invalid_payload ("payload." & name & " is invalid"))

  unfoldable pub check_ticket : Value F → String → Result (Unit {0})
  check_ticket (str s) name =
      require (full_match is_digit 1 20 s) (invalid_payload ("payload." & name & " is invalid"))
  check_ticket null name = err (invalid_payload ("payload." & name & " is invalid"))
  check_ticket _ name = err (invalid_payload ("payload." & name & " is invalid"))

  unfoldable pub check_open_positions : Value F → Result (Unit {0})
  check_open_positions (num (whole n)) =
      require (leb_ℤ (pos 0) n && leb_ℤ n (pos 1_000))
        (invalid_payload "payload.open_positions is invalid")
  check_open_positions null = err (invalid_payload "payload.open_positions is invalid")
  check_open_positions _ = err (invalid_payload "payload.open_positions is invalid")

module _ {F : Type 0} ⦃p : Python F⦄ where
  unfoldable pub check_field : String → Value F → Result (Unit {0})
  check_field name v =
      if name == "reason" || name == "llm_reason"
      then done (safe_string v ("payload." & name) 512)
      else if one_of safe_text_fields name
      then check_safe_text v name
      else if one_of ticket_fields name
      then check_ticket v name
      else if one_of time_fields name
      then done (utc v ("payload." & name))
      else if name == "open_positions"
      then check_open_positions v
      else done (finite_number v ("payload." & name))

  unfoldable pub check_payload : Fields F → Result (Unit {0})
  check_payload end = ok tt
  check_payload (field name v rest) = do check_field name v; check_payload rest

  -- `safe_string`, and then a pattern.
  unfoldable pub text_matching : Fields F → String → ℕ → (String → Bool) → Result String
  text_matching fs key maximum test = do
    v ← item fs key
    text ← safe_string v key maximum
    require (test text) (invalid_event (key & " is invalid"))
    ok text

  -- A request id may be empty.
  unfoldable pub optional_uuid : Value F → String → Result String
  optional_uuid (str s) name = if s == "" then ok s else uuid4 {F = F} (str s) name
  optional_uuid null name = uuid4 {F = F} null name
  optional_uuid v name = uuid4 v name

  unfoldable pub event_of : Fields F → Result (Event F)
  event_of event = do
    version ← item event "schema_version"
    require (is_text version "1.0")
        (api 400 "UNSUPPORTED_EVENT_SCHEMA" "schema_version must be 1.0")
    id ← item event "event_id"
    event_id ← uuid4 id "event_id"
    candidate ← text_matching event "trade_candidate_id" 128 (full_match is_candidate 1 128)
    request ← item event "request_id"
    request_id ← optional_uuid request "request_id"
    ea_id ← text_matching event "ea_id" 64 (full_match is_identifier 1 64)
    time ← item event "timestamp"
    timestamp ← utc time "timestamp"
    symbol ← text_matching event "symbol" 32 (full_match is_symbol 1 32)
    type_value ← item event "event_type"
    (event_type, names) ← payload_names type_value
    payload_value ← item event "payload"
    payload ←
        dictionary payload_value names (invalid_payload "payload fields do not match event_type")
    check_payload payload
    ok (record {
      event_id = event_id;
      trade_candidate_id = candidate;
      request_id = request_id;
      ea_id = ea_id;
      timestamp = timestamp;
      event_type = event_type;
      symbol = symbol;
      payload = payload;
    })

  unfoldable pub parse_and_validate_event : List ℕ → Result (Event F)
  parse_and_validate_event raw_body = do
    value ←
        read_body raw_body max_event_bytes (invalid_event "event body is empty or too large")
          (api 400 "INVALID_EVENT_JSON" "event must be strict UTF-8 JSON")
    event ← dictionary value root_fields (invalid_event "event fields do not match the contract")
    event_of event
