-- ===== src/Tests/World.antt =====
-- A small concrete environment: floats are natural numbers, and the functions of Python's libraries
-- are simple ones.
use ea_trading_system.Prelude.{
  ℕ, pos, negsuc, ◌+◌, ◌-◌, ◌*◌, String, true, some, ltb, leb, nat_eq, codes, ◌==◌, List, [], ◌∷◌,
  if◌then◌else◌,
}
use ea_trading_system.Errors.{ok}
use ea_trading_system.Json.{Number, whole, floating, Raw, Value, null, RawPairs, pair}
use ea_trading_system.Python.{Python}
use ea_trading_system.Validation.Request.{Request}

abbrev pub value_of : Number ℕ → ℕ
value_of (whole (pos n)) = n
value_of (whole (negsuc n)) = 0
value_of (floating x) = x

abbrev pub signature : String
signature = "0123456789abcdef0123456789abcdef0123456789abcdef0123456789abcdef"

abbrev total : List ℕ → ℕ
total [] = 0
total (x ∷ xs) = x + total xs

-- `json.loads` answers `loaded`; in `python` the reader answers `raw` for every text.
abbrev pub python_with : String → (ℕ → ℕ → ℕ) → (String → Raw ℕ) → Value ℕ → Python ℕ
python_with digest quotient reader loaded = record {
  lit = λ n. n;
  is_finite = λ x. true;
  lt = ltb;
  le = leb;
  add = λ a b. a + b;
  sub = λ a b. a - b;
  mul = λ a b. a * b;
  div = quotient;
  truncate = λ x. ok (pos x);
  eq = nat_eq;
  fabs = λ a. a;
  neg = λ a. 0;
  exp = λ a. ok 1;
  sin = λ a. 0;
  cos = λ a. 1;
  pi = 3;
  sum = total;
  show_float = λ a. "1";
  plain_decimal = λ s. s;
  float = λ s. some (if s == "4.0" then 4 else 1);
  to_float = λ n. ok (value_of n);
  less = λ a b. ltb (value_of a) (value_of b);
  decode = λ raw_body. some "{}";
  encode = codes;
  b64decode = λ s. some (codes s);
  json_raw = λ s. ok (reader s);
  json_loads = λ s. ok loaded;
  json_dumps = λ v. "{}";
  show_value = λ v. "None";
  sha256 = λ bytes. digest;
  hmac_sha256 = λ key bytes. signature;
  uuid = λ s. some (record { canonical = s; version = some 4 });
  int = λ s. some (pos 1_000);
  show_int = λ n. "1000";
  lower = λ s. s;
  strip = λ s. s;
  from_iso = λ s. some (pos 1_000_000_000);
  iso = λ t. "1970-01-01T00:16:40Z";
}

abbrev pub python : Raw ℕ → Value ℕ → Python ℕ
python raw loaded = python_with "body-hash" (λ a b. a) (λ s. raw) loaded

abbrev pub request_id : String
request_id = "7f3f2a0e-8c57-4c1e-9a43-0d6a1f5b2c11"

abbrev pub number : ℕ → Raw ℕ
number n = Raw.num (whole (pos n))

abbrev raw_strategy : Raw ℕ
raw_strategy = Raw.obj (
    pair "pattern" (Raw.str "BREAKOUT") (
      pair "reason_code" (Raw.str "RANGE_BREAK")
        (pair "reason" (Raw.str "range break") RawPairs.end)))

abbrev raw_features : Raw ℕ
raw_features = Raw.obj (
    pair "feature_schema_version" (Raw.str "1.0") (
      pair "observed_at" (Raw.str "1970-01-01T00:16:40Z") (
        pair "current_price" (number 150) (
          pair "spread_points" (number 2) (
            pair "rsi" (number 55) (
              pair "atr" (number 3) (
                pair "ema50" (number 149) (
                  pair "ema200" (number 148) (
                    pair "ema_distance_ratio" (number 1) (
                      pair "recent_return" (number 1) (
                        pair "volatility" (number 1) (
                          pair "hour" (number 9)
                            (pair "day_of_week" (number 3) RawPairs.end)))))))))))))

abbrev raw_proposal : Raw ℕ
raw_proposal = Raw.obj (
    pair "entry_price" (number 150) (
      pair "stop_loss" (number 147)
        (pair "take_profit" (number 156) (pair "risk_reward_ratio" (number 2) RawPairs.end))))

-- A trade candidate as it is sent, and as it is validated.
abbrev pub raw_request : Raw ℕ
raw_request = Raw.obj (
    pair "schema_version" (Raw.str "1.0") (
      pair "request_id" (Raw.str request_id) (
        pair "trade_candidate_id" (Raw.str "cand-1") (
          pair "ea_id" (Raw.str "ea-1") (
            pair "timestamp" (Raw.str "1970-01-01T00:16:40Z") (
              pair "symbol" (Raw.str "USDJPY") (
                pair "timeframe" (Raw.str "H1") (
                  pair "direction" (Raw.str "BUY") (
                    pair "strategy" raw_strategy (
                      pair "market_features" raw_features
                        (pair "trade_proposal" raw_proposal RawPairs.end)))))))))))

abbrev pub p : Python ℕ
p = python raw_request null

abbrev n : ℕ → Number ℕ
n x = whole (pos x)

abbrev pub request : Request ℕ
request = record {
  header = record {
    request_id = request_id;
    trade_candidate_id = "cand-1";
    ea_id = "ea-1";
    timestamp = "1970-01-01T00:16:40Z";
    symbol = "USDJPY";
    timeframe = "H1";
    direction = "BUY";
  };
  strategy = record { pattern = "BREAKOUT"; reason_code = "RANGE_BREAK"; reason = "range break" };
  market_features = record {
    observed_at = "1970-01-01T00:16:40Z";
    current_price = n 150;
    spread_points = n 2;
    rsi = n 55;
    atr = n 3;
    ema50 = n 149;
    ema200 = n 148;
    ema_distance_ratio = n 1;
    recent_return = n 1;
    volatility = n 1;
    hour = pos 9;
    day_of_week = pos 3;
  };
  trade_proposal = record {
    entry_price = n 150;
    stop_loss = n 147;
    take_profit = n 156;
    risk_reward_ratio = n 2;
  };
}
