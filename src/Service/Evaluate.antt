-- ===== src/Service/Evaluate.antt =====
-- service.py: the two filters of `DecisionService.decide`, with their `try` blocks.
use ea_trading_system.Prelude.{
  ℕ, ℤ, String, Bool, true, false, ◌&&◌, Option, none, some, [], ◌∷◌, leb_ℤ, one_of, if◌then◌else◌,
}
use ea_trading_system.Errors.{value_error, timeout_error}
use ea_trading_system.Act.{Act, pure, raise, catch, require, ◌>>=◌, ◌>>◌}
use ea_trading_system.Json.{Fields, floating, num, str, dict}
use ea_trading_system.Python.{Python, full_match, is_identifier, ends_with_z}
use ea_trading_system.Validation.Request.{Request, good_reason}
use ea_trading_system.Service.Providers.{
  MlPrediction, MlProvider, LlmDecision, LlmProvider, Settings, is_rate,
}

-- The dictionary `ml`: its status is PASSED or REJECTED, or ERROR.
pub data MlReport (F : Type 0) : Type 0 where
  scored : Bool → MlPrediction F → MlReport F
  ml_error : String → MlReport F

-- A decision that has passed every check.
pub record LlmAnswer (F : Type 0) : Type 0 where
  pub decision : String
  pub confidence : F
  pub reason : String
  pub provider : String
  pub model : String
  pub prompt_version : String
  pub request_time : String
  pub response_time : String

-- Who was asked, and when, if the call failed.
pub record LlmFailure : Type 0 where
  pub provider : String
  pub model : String
  pub prompt_version : String
  pub request_time : String
  pub response_time : String

-- The dictionary `llm`: its status is NOT_CALLED, the decision, or ERROR.
pub data LlmReport (F : Type 0) : Type 0 where
  not_called : LlmReport F
  answered : LlmAnswer F → LlmReport F
  llm_error : LlmFailure → LlmReport F

-- [A-Za-z0-9._-]{1,64}
abbrev pub is_version : String → Bool
is_version s = full_match is_identifier 1 64 s

abbrev safe_version : Option String → String
safe_version none = "invalid-model"
safe_version (some s) = if is_version s then s else "invalid-model"

-- `safe_identity(value, maximum, "unavailable")`
abbrev safe_identity : Option String → ℕ → String
safe_identity none maximum = "unavailable"
safe_identity (some s) maximum = if full_match is_identifier 1 maximum s then s else "unavailable"

-- A text that passes the test; anything else raises.
abbrev pub text_with : {W : Type 0} → (String → Bool) → Option String → Act W String
text_with test none = raise value_error
text_with test (some s) = do require (test s) value_error; pure s

module _ {F : Type 0} where
  unfoldable pub ml_fields : MlReport F → Fields F
  ml_fields (scored passed prediction) = dict (
      ("status", str (if passed then "PASSED" else "REJECTED"))
      ∷ ("win_probability", num (floating prediction.win_probability))
      ∷ ("expected_return", num (floating prediction.expected_return))
      ∷ ("model_version", str prediction.model_version)
      ∷ [])
  ml_fields (ml_error version) =
      dict (("status", str "ERROR") ∷ ("model_version", str version) ∷ [])

module _ {F W : Type 0} ⦃p : Python F⦄ (now : Act W ℤ) (ml : MlProvider F W) (llm : LlmProvider F W)
    (s : Settings F W) where
  open p use {is_finite, le, from_iso, iso}

  abbrev pub is_prediction : MlPrediction F → Bool
  is_prediction q =
      is_finite q.win_probability
      && is_rate q.win_probability
      && is_finite q.expected_return
      && is_version q.model_version

  abbrev pub meets_thresholds : MlPrediction F → Bool
  meets_thresholds q =
      le s.min_win_probability q.win_probability && le s.min_expected_return q.expected_return

  unfoldable pub score : Request F → Act W (MlReport F)
  score request = do
    prediction ← ml.predict request
    require (is_prediction prediction) value_error
    pure (scored (meets_thresholds prediction) prediction)

  -- The body of the first `except Exception`.
  unfoldable pub ml_failed : Act W (MlReport F)
  ml_failed = do
    version ← catch ml.model_version (λ e. pure (some "unavailable"))
    pure (ml_error (safe_version version))

  unfoldable pub evaluate_ml : Request F → Act W (MlReport F)
  evaluate_ml request = catch (score request) (λ e. ml_failed)

  -- No call is made if the time that remains does not suffice.
  unfoldable pub check_time : Option (Act W F) → Act W (Unit {0})
  check_time none = pure tt
  check_time (some remaining_seconds) = do
    remaining ← remaining_seconds
    require (le s.llm_min_remaining_seconds remaining) timeout_error

  -- `datetime.fromisoformat` of both times, which end in Z and stand in order.
  abbrev in_order : Option ℤ → Option ℤ → Bool
  in_order (some a) (some b) = leb_ℤ a b
  in_order none b = false
  in_order _ b = false

  unfoldable pub check_answer : LlmDecision F → Act W (LlmAnswer F)
  check_answer d = do
    require (one_of ("ALLOW" ∷ "VETO" ∷ []) d.decision) value_error
    require (is_finite d.confidence && is_rate d.confidence) value_error
    provider ← text_with (full_match is_identifier 1 32) d.provider
    model ← text_with (full_match is_identifier 1 64) d.model
    prompt_version ← text_with (full_match is_identifier 1 32) d.prompt_version
    reason ← text_with good_reason d.reason
    request_time ← text_with ends_with_z d.request_time
    response_time ← text_with ends_with_z d.response_time
    require (in_order (from_iso request_time) (from_iso response_time)) value_error
    pure (record {
      decision = d.decision;
      confidence = d.confidence;
      reason = reason;
      provider = provider;
      model = model;
      prompt_version = prompt_version;
      request_time = request_time;
      response_time = response_time;
    })

  unfoldable pub consult : Request F → MlReport F → Act W (LlmReport F)
  consult request report = do
    check_time s.remaining_seconds
    d ← llm.decide request (ml_fields report)
    answer ← check_answer d
    pure (answered answer)

  abbrev identity : Act W (Option String × Option String × Option String)
  identity = do
    provider ← llm.provider_name
    model ← llm.model_name
    prompt_version ← llm.prompt_version
    pure (provider, model, prompt_version)

  abbrev pub identity_or_unavailable : Act W (Option String × Option String × Option String)
  identity_or_unavailable =
      catch identity (λ e. pure (some "unavailable", some "unavailable", some "unavailable"))

  -- The body of the second `except Exception`.
  unfoldable pub llm_failed : String → Act W (LlmReport F)
  llm_failed started = do
    (provider, model, prompt_version) ← identity_or_unavailable
    finished ← now
    pure (
        llm_error (record {
          provider = safe_identity provider 32;
          model = safe_identity model 64;
          prompt_version = safe_identity prompt_version 32;
          request_time = started;
          response_time = iso finished;
        }))

  unfoldable pub evaluate_llm : Request F → MlReport F → Act W (LlmReport F)
  evaluate_llm request report = do
    started ← now
    catch (consult request report) (λ e. llm_failed (iso started))

  -- `if ml["status"] == "PASSED"`
  unfoldable pub after_ml : Request F → MlReport F → Act W (LlmReport F)
  after_ml request (scored true prediction) = evaluate_llm request (scored true prediction)
  after_ml request (scored false prediction) = pure not_called
  after_ml request (ml_error version) = pure not_called

  unfoldable pub evaluate : Request F → Act W (MlReport F × LlmReport F)
  evaluate request = do
    ml_report ← evaluate_ml request
    llm_report ← after_ml request ml_report
    pure (ml_report, llm_report)
