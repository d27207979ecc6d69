-- ===== src/Validation/Request.antt =====
-- validation.py: `parse_and_validate_request`.
use ea_trading_system.Prelude.{
  ℕ, ℤ, String, ◌&◌, Bool, ◌&&◌, not, ◌==◌, Option, none, some, List, [], ◌∷◌, leb, if◌then◌else◌,
}
use ea_trading_system.Errors.{Result, ok, err, api, type_error, require, ◌>>=◌, ◌>>◌}
use ea_trading_system.Json.{Number, Value, Fields, null, num}
use ea_trading_system.Python.{
  Python, full_match, has_control, len, is_identifier, is_candidate, is_symbol, is_reason_code,
}
use ea_trading_system.Validation.Fields.{
  invalid, item, exact_fields, string, is_text, is_member, as_text, integer, Minimum, any_number,
  at_least, above, number, date_time, canonical_uuid, read_body,
}

abbrev pub max_body_bytes : ℕ
max_body_bytes = 16_384

abbrev pub timeframes : List String
timeframes = "M15" ∷ "M30" ∷ "H1" ∷ "H4" ∷ "D1" ∷ []

abbrev pub directions : List String
directions = "BUY" ∷ "SELL" ∷ []

abbrev pub root_fields : List String
root_fields =
    "schema_version" ∷ "request_id" ∷ "trade_candidate_id" ∷ "ea_id" ∷ "timestamp" ∷ "symbol"
    ∷ "timeframe" ∷ "direction" ∷ "strategy" ∷ "market_features" ∷ "trade_proposal" ∷ []

abbrev pub strategy_fields : List String
strategy_fields = "pattern" ∷ "reason_code" ∷ "reason" ∷ []

abbrev pub feature_fields : List String
feature_fields =
    "feature_schema_version" ∷ "observed_at" ∷ "current_price" ∷ "spread_points" ∷ "rsi" ∷ "atr"
    ∷ "ema50" ∷ "ema200" ∷ "ema_distance_ratio" ∷ "recent_return" ∷ "volatility" ∷ "hour"
    ∷ "day_of_week" ∷ []

abbrev pub proposal_fields : List String
proposal_fields = "entry_price" ∷ "stop_loss" ∷ "take_profit" ∷ "risk_reward_ratio" ∷ []

-- The validated dictionary, whose keys are fixed: `request["strategy"]["pattern"]` is
-- `r.strategy.pattern`. A number keeps the type, `int` or `float`, that it was read with.
pub record Strategy : Type 0 where
  pub pattern : String
  pub reason_code : String
  pub reason : String

pub record Features (F : Type 0) : Type 0 where
  pub observed_at : String
  pub current_price : Number F
  pub atr : Number F
  pub ema50 : Number F
  pub ema200 : Number F
  pub spread_points : Number F
  pub rsi : Number F
  pub ema_distance_ratio : Number F
  pub recent_return : Number F
  pub volatility : Number F
  pub hour : ℤ
  pub day_of_week : ℤ

pub record Proposal (F : Type 0) : Type 0 where
  pub entry_price : Number F
  pub stop_loss : Number F
  pub take_profit : Number F
  pub risk_reward_ratio : Number F

pub record Header : Type 0 where
  pub request_id : String
  pub trade_candidate_id : String
  pub ea_id : String
  pub timestamp : String
  pub symbol : String
  pub timeframe : String
  pub direction : String

pub record Request (F : Type 0) : Type 0 where
  pub header : Header
  pub open header use *
  pub strategy : Strategy
  pub market_features : Features F
  pub trade_proposal : Proposal F

-- `1 <= len(reason) <= 512` with no control character.
abbrev pub good_reason : String → Bool
good_reason s = leb 1 (len s) && leb (len s) 512 && not (has_control s)

module _ {F : Type 0} where
  -- The number that a value is, once `_number` has accepted it.
  abbrev pub as_number : Value F → Result (Number F)
  as_number (num n) = ok n
  as_number null = err type_error
  as_number _ = err type_error

  -- `text` of the named field, if it is a text that matches.
  unfoldable pub matching : Fields F → String → String → (String → Bool) → String → Result String
  matching fs key path test message = do
    v ← item fs key
    text ← string v path
    require (test text) (invalid message)
    ok text

  -- `if root[key] not in words: raise`
  unfoldable pub chosen : Fields F → String → List String → String → Result String
  chosen fs key words message = do
    v ← item fs key
    known ← is_member v words
    require known (invalid message)
    as_text v

  unfoldable pub check_strategy : Fields F → Result Strategy
  check_strategy root = do
    v ← item root "strategy"
    strategy ← exact_fields v strategy_fields "strategy"
    pattern ← chosen strategy "pattern" ("BREAKOUT" ∷ "PULLBACK" ∷ []) "strategy.pattern is invalid"
    code ←
        matching strategy "reason_code" "strategy.reason_code" (full_match is_reason_code 1 64)
          "strategy.reason_code is invalid"
    reason ← matching strategy "reason" "strategy.reason" good_reason "strategy.reason is invalid"
    ok (record { pattern = pattern; reason_code = code; reason = reason })

module _ {F : Type 0} ⦃p : Python F⦄ where
  unfoldable pub checked : Fields F → String → String → Minimum → Option ℕ → Result (Number F)
  checked fs key prefix minimum maximum = do
    v ← item fs key
    x ← number v (prefix & key) minimum maximum
    as_number v

  abbrev feature : Fields F → String → Minimum → Option ℕ → Result (Number F)
  feature fs key minimum maximum = checked fs key "market_features." minimum maximum

  abbrev small_integer : Fields F → String → ℕ → Result ℤ
  small_integer fs key maximum = do v ← item fs key; integer v ("market_features." & key) 0 maximum

  -- The fields in the order of the checks.
  unfoldable pub check_prices : Fields F → Result (Number F × Number F × Number F × Number F)
  check_prices fs = do
    current_price ← feature fs "current_price" (above 0) none
    atr ← feature fs "atr" (above 0) none
    ema50 ← feature fs "ema50" (above 0) none
    ema200 ← feature fs "ema200" (above 0) none
    ok (current_price, atr, ema50, ema200)

  unfoldable pub check_measures :
      Fields F → Result (Number F × Number F × Number F × Number F × Number F)
  check_measures fs = do
    spread_points ← feature fs "spread_points" (at_least 0) none
    rsi ← feature fs "rsi" (at_least 0) (some 100)
    ema_distance_ratio ← feature fs "ema_distance_ratio" any_number none
    recent_return ← feature fs "recent_return" any_number none
    volatility ← feature fs "volatility" (at_least 0) none
    ok (spread_points, rsi, ema_distance_ratio, recent_return, volatility)

  unfoldable pub check_calendar : Fields F → Result (ℤ × ℤ)
  check_calendar fs = do
    hour ← small_integer fs "hour" 23
    day_of_week ← small_integer fs "day_of_week" 6
    ok (hour, day_of_week)

  -- The text of a field that `_date_time` accepts.
  unfoldable pub utc_text : Fields F → String → String → Result String
  utc_text fs key path = do v ← item fs key; instant ← date_time v path; as_text v

  unfoldable pub uuid_text : Fields F → String → Result String
  uuid_text fs key = do v ← item fs key; canonical_uuid v key

  unfoldable pub features_of : Fields F → Result (Features F)
  features_of features = do
    version ← item features "feature_schema_version"
    require (is_text version "1.0")
        (api 400 "UNSUPPORTED_FEATURE_SCHEMA" "feature_schema_version must be 1.0")
    observed_at ← utc_text features "observed_at" "market_features.observed_at"
    (current_price, atr, ema50, ema200) ← check_prices features
    (spread_points, rsi, ema_distance_ratio, recent_return, volatility) ← check_measures features
    (hour, day_of_week) ← check_calendar features
    ok (record {
      observed_at = observed_at;
      current_price = current_price;
      atr = atr;
      ema50 = ema50;
      ema200 = ema200;
      spread_points = spread_points;
      rsi = rsi;
      ema_distance_ratio = ema_distance_ratio;
      recent_return = recent_return;
      volatility = volatility;
      hour = hour;
      day_of_week = day_of_week;
    })

  unfoldable pub check_features : Fields F → Result (Features F)
  check_features root = do
    v ← item root "market_features"
    features ← exact_fields v feature_fields "market_features"
    features_of features

  -- The stop lies below and the target above the entry of a BUY, and the other way round for a SELL.
  unfoldable pub geometry_valid : String → Number F → Number F → Number F → Bool
  geometry_valid direction entry stop take =
      if direction == "BUY"
      then p.less stop entry && p.less entry take
      else p.less take entry && p.less entry stop

  -- The source walks a set of names: the order of the four checks is not fixed there.
  unfoldable pub proposal_of : Fields F → String → Result (Proposal F)
  proposal_of proposal direction = do
    entry ← checked proposal "entry_price" "trade_proposal." (above 0) none
    stop ← checked proposal "stop_loss" "trade_proposal." (above 0) none
    take ← checked proposal "take_profit" "trade_proposal." (above 0) none
    ratio ← checked proposal "risk_reward_ratio" "trade_proposal." (above 0) none
    require (geometry_valid direction entry stop take)
        (api 400 "INVALID_TRADE_GEOMETRY" "SL/entry/TP ordering is invalid")
    ok (record {
      entry_price = entry;
      stop_loss = stop;
      take_profit = take;
      risk_reward_ratio = ratio;
    })

  unfoldable pub check_proposal : Fields F → String → Result (Proposal F)
  check_proposal root direction = do
    v ← item root "trade_proposal"
    proposal ← exact_fields v proposal_fields "trade_proposal"
    proposal_of proposal direction

  unfoldable pub check_header : Fields F → Result Header
  check_header root = do
    version ← item root "schema_version"
    require (is_text version "1.0") (api 400 "UNSUPPORTED_SCHEMA" "schema_version must be 1.0")
    request_id ← uuid_text root "request_id"
    candidate ←
        matching root "trade_candidate_id" "trade_candidate_id" (full_match is_candidate 1 128)
          "trade_candidate_id is invalid"
    ea_id ← matching root "ea_id" "ea_id" (full_match is_identifier 1 64) "ea_id is invalid"
    timestamp ← utc_text root "timestamp" "timestamp"
    symbol ← matching root "symbol" "symbol" (full_match is_symbol 1 32) "symbol is invalid"
    timeframe ← chosen root "timeframe" timeframes "timeframe or direction is invalid"
    direction ← chosen root "direction" directions "timeframe or direction is invalid"
    ok (record {
      request_id = request_id;
      trade_candidate_id = candidate;
      ea_id = ea_id;
      timestamp = timestamp;
      symbol = symbol;
      timeframe = timeframe;
      direction = direction;
    })

  unfoldable pub request_of : Fields F → Result (Request F)
  request_of root = do
    header ← check_header root
    strategy ← check_strategy root
    features ← check_features root
    proposal ← check_proposal root header.direction
    ok (record {
      header = header;
      strategy = strategy;
      market_features = features;
      trade_proposal = proposal;
    })

  unfoldable pub check_request : Value F → Result (Request F)
  check_request value = do root ← exact_fields value root_fields "request"; request_of root

  unfoldable pub parse_and_validate_request : List ℕ → Result (Request F)
  parse_and_validate_request raw_body = do
    value ←
        read_body raw_body max_body_bytes (invalid "body is empty or too large")
          (api 400 "INVALID_JSON" "body must be strict UTF-8 JSON")
    check_request value
