-- ===== src/Handler/Trade.antt =====
-- handler.py: `lambda_handler` for trade decisions. Logs and metrics are left out; what the log
-- reads of the result, and may miss in it, is not.
use ea_trading_system.Prelude.{ℕ, ℤ, eq_ℤ, String, Option, none, some, List, if◌then◌else◌}
use ea_trading_system.Errors
use ea_trading_system.Errors.{Exc, Result, ok, err, api, key_error, type_error, other_error}
use ea_trading_system.Act.{Act, pure, lift, require, ◌>>=◌, ◌>>◌}
use ea_trading_system.Json.{Value, Fields, str, obj, get}
use ea_trading_system.Python.{Python}
use ea_trading_system.Validation.Request.{Request, parse_and_validate_request}
use ea_trading_system.Auth.{SecretProvider, ReplayStore, AuthContext, verify_request}
use ea_trading_system.Service.Providers.{
  DecisionRepository, MlProvider, LlmProvider, Settings, new_service,
}
use ea_trading_system.Service.Decide.{decide}
use ea_trading_system.Handler.Gateway.{
  Event, Response, check_method, check_key, read_raw_body, body_seconds, response, failure,
  float_setting, positive_env_seconds, strict_bool,
}

module _ {F : Type 0} where
  -- `result[key]`
  abbrev value_at : Option (Value F) → Result (Value F)
  value_at none = err key_error
  value_at (some v) = ok v

  -- `result[key]["status"]`
  abbrev status_at : Option (Value F) → Result (Value F)
  status_at none = err key_error
  status_at (some (obj fs)) = value_at (get "status" fs)
  status_at (some v) = err type_error

  -- `value.title()`, which only a text has
  abbrev title_of : Value F → Result (Unit {0})
  title_of (str s) = ok tt
  title_of v = err other_error

  -- What the log and the metrics read of a result.
  unfoldable pub summary : Fields F → Result (Unit {0})
  summary result = Errors.◌>>=◌ (value_at (get "decision" result)) λ decision.
      Errors.◌>>=◌ (value_at (get "reason_code" result)) λ reason.
        Errors.◌>>=◌ (title_of decision) λ title.
          Errors.◌>>=◌ (status_at (get "ml" result))
            λ ml. Errors.◌>>=◌ (status_at (get "llm" result)) λ llm. ok tt

-- A process: its environment variables, clocks and clients. `max_skew` and `ttl` are the two settings
-- that are read by `int`, which are not negative.
pub record Process (F W : Type 0) : Type 0 where
  pub environ : String → Option String
  pub max_skew : Result ℕ
  pub ttl : Result ℕ
  -- `int(time.time())`, and `datetime.now(timezone.utc)` in microseconds
  pub clock : Act W ℤ
  pub now : Act W ℤ
  -- `time.perf_counter()`
  pub perf_counter : W → F × W
  -- `context.get_remaining_time_in_millis`, if there is one
  pub remaining_ms : Option (Act W F)
  -- `_dependencies`, `_ml_dependency` and `_llm_dependency`: they make clients and may raise
  pub dependencies : Act W (Unit {0})
  pub repository : DecisionRepository F W
  pub nonces : ReplayStore W
  pub secrets : SecretProvider W
  pub ml_dependency : Act W (MlProvider F W)
  pub llm_dependency : Act W (LlmProvider F W)

abbrev pub mismatch : Exc
mismatch = api 400 "SIGNED_TIMESTAMP_MISMATCH" "body timestamp must equal X-EA-Timestamp"

module _ {F W : Type 0} (p : Python F) (process : Process F W) where
  open p use {sub, add, div, lt, lit}
  open process use {environ, perf_counter}

  abbrev tick : Act W F
  tick w = let (t, w') = perf_counter w in (ok t, w')

  abbrev shorter : F → Option (Act W F) → Act W F
  shorter seconds none = pure seconds
  shorter seconds (some remaining_ms) = do
    ms ← remaining_ms
    let rest = div ms (lit 1_000)
    pure (if lt rest seconds then rest else seconds)

  -- `_remaining_seconds_function`, once its deadline is set
  unfoldable pub remaining_seconds : F → Act W F
  remaining_seconds deadline = do t ← tick; shorter (sub deadline t) process.remaining_ms

  -- `_llm_min_remaining_seconds`
  abbrev llm_min_remaining_seconds : Result F
  llm_min_remaining_seconds =
      Errors.◌>>=◌ (positive_env_seconds p environ "LLM_TIMEOUT_SECONDS" "3.0") λ timeout.
        Errors.◌>>=◌ (positive_env_seconds p environ "LLM_DEADLINE_RESERVE_SECONDS" "0.5")
          λ reserve. ok (add timeout reserve)

  -- The settings of the service, in the order that they are read, and its constructor.
  unfoldable pub settings : F → Result (Settings F W)
  settings started = Errors.◌>>=◌ (float_setting p environ "ML_MIN_WIN_PROBABILITY" "0.60") λ win.
      Errors.◌>>=◌ (float_setting p environ "ML_MIN_EXPECTED_RETURN" "0.0") λ gain.
        Errors.◌>>=◌ process.ttl λ ttl.
          Errors.◌>>=◌ (strict_bool p environ "LLM_SHADOW_MODE" "false") λ shadow.
            Errors.◌>>=◌ (positive_env_seconds p environ "DECISION_DEADLINE_SECONDS" "4.0")
              λ seconds. Errors.◌>>=◌ llm_min_remaining_seconds λ least.
                new_service ⦃p = p⦄ (record {
                  min_win_probability = win;
                  min_expected_return = gain;
                  response_ttl_seconds = ttl;
                  llm_shadow_mode = shadow;
                  remaining_seconds = some (remaining_seconds (add started seconds));
                  llm_min_remaining_seconds = least;
                })

  unfoldable pub authenticated : Event → List ℕ → Request F → Act W AuthContext
  authenticated event raw_body request = do
    process.dependencies
    skew ← lift process.max_skew
    auth ←
        verify_request p process.clock process.secrets process.nonces event.headers raw_body none
          skew "/v1/trade-decisions"
    seconds ← lift (body_seconds p request.timestamp)
    require (eq_ℤ seconds auth.timestamp) mismatch
    pure auth

  unfoldable pub decided : F → Request F → AuthContext → Act W (Fields F)
  decided started request auth = do
    ml ← process.ml_dependency
    llm ← process.llm_dependency
    s ← lift (settings started)
    result ← decide ⦃p = p⦄ process.now process.repository ml llm s request auth.body_hash none
    lift (summary result)
    pure result

  -- The `try` block.
  unfoldable pub answered : F → Event → Act W (Fields F)
  answered started event = do
    lift (check_method event)
    raw_body ← lift (read_raw_body p event "request body encoding is invalid")
    request ← lift (parse_and_validate_request ⦃p = p⦄ raw_body)
    lift (check_key p event request.request_id "Idempotency-Key must equal request_id")
    auth ← authenticated event raw_body request
    decided started request auth

  unfoldable pub respond : Result (Fields F) → Response
  respond (ok result) = response p 200 result
  respond (err e) = failure p "request failed safely" e

  -- A call has a response whatever happens.
  unfoldable pub lambda_handler : Event → W → Response × W
  lambda_handler event w =
      let (started, w₁) = perf_counter w in
      let (result, w₂) = answered started event w₁ in (respond result, w₂)
