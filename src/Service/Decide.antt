-- ===== src/Service/Decide.antt =====
-- service.py: `DecisionService.decide`.
use ea_trading_system.Prelude.{
  ℤ, pos, ◌+ℤ◌, ◌*◌, trunc_div, String, Bool, true, false, ◌&&◌, not, ◌==◌, Option, none, some,
  List, [], ◌∷◌, ◌++◌, if◌then◌else◌,
}
use ea_trading_system.Errors.{Exc, Result, ok, err, api, conditional_write_failed}
use ea_trading_system.Act.{Act, pure, raise, lift, catch, ◌>>=◌, ◌>>◌}
use ea_trading_system.Json.{Value, Fields, bool, floating, num, str, obj, dict}
use ea_trading_system.Python.{Python}
use ea_trading_system.Validation.Request.{Request}
use ea_trading_system.Service.Providers.{
  Saved, DecisionRepository, MlProvider, LlmProvider, Settings,
}
use ea_trading_system.Service.Evaluate.{
  MlReport, scored, ml_error, ml_fields, LlmAnswer, LlmReport, not_called, answered, llm_error,
  evaluate,
}

pub record Verdict : Type 0 where
  pub decision : String
  pub reason_code : String

abbrev veto : String → Verdict
veto reason = record { decision = "VETO"; reason_code = reason }

module _ {F : Type 0} where
  -- `shadow` is `llm_shadow_mode`: a veto is recorded and not applied.
  abbrev pub answer_verdict : Bool → LlmAnswer F → Verdict
  answer_verdict shadow a =
      if shadow && (a.decision == "VETO")
      then record { decision = "ALLOW"; reason_code = "LLM_SHADOW_VETO_RECORDED" }
      else record {
        decision = a.decision;
        reason_code = if a.decision == "ALLOW" then "APPROVED" else "LLM_VETO";
      }

  unfoldable pub verdict : Bool → MlReport F → LlmReport F → Verdict
  verdict shadow (ml_error version) llm = veto "ML_INFERENCE_ERROR"
  verdict shadow (scored false q) llm = veto "ML_THRESHOLD_NOT_MET"
  verdict shadow (scored true q) not_called = veto "ML_PASSED"
  verdict shadow (scored true q) (answered a) = answer_verdict shadow a
  verdict shadow (scored true q) (llm_error f) = veto "LLM_INFERENCE_ERROR"

  unfoldable pub llm_fields : LlmReport F → Fields F
  llm_fields not_called = dict (("status", str "NOT_CALLED") ∷ [])
  llm_fields (answered a) = dict (
      ("status", str a.decision)
      ∷ ("provider", str a.provider)
      ∷ ("model", str a.model)
      ∷ ("prompt_version", str a.prompt_version)
      ∷ ("confidence", num (floating a.confidence))
      ∷ ("reason", str a.reason)
      ∷ [])
  llm_fields (llm_error f) = dict (("status", str "ERROR") ∷ [])

  abbrev candidate_audit : Request F → List (String × Value F)
  candidate_audit r =
      ("trade_candidate_id", str r.trade_candidate_id)
      ∷ ("ea_id", str r.ea_id)
      ∷ ("symbol", str r.symbol)
      ∷ ("timeframe", str r.timeframe)
      ∷ ("direction", str r.direction)
      ∷ ("strategy_pattern", str r.strategy.pattern)
      ∷ ("strategy_reason_code", str r.strategy.reason_code)
      ∷ ("strategy_reason", str r.strategy.reason)
      ∷ []

  abbrev ml_audit : MlReport F → List (String × Value F)
  ml_audit (scored passed q) =
      ("ml_status", str (if passed then "PASSED" else "REJECTED"))
      ∷ ("ml_model_version", str q.model_version)
      ∷ ("ml_win_probability", num (floating q.win_probability))
      ∷ ("ml_expected_return", num (floating q.expected_return))
      ∷ []
  ml_audit (ml_error version) = ("ml_status", str "ERROR") ∷ ("ml_model_version", str version) ∷ []

  abbrev llm_audit : Bool → LlmReport F → List (String × Value F)
  llm_audit shadow not_called = []
  llm_audit shadow (answered a) =
      ("llm_provider", str a.provider)
      ∷ ("llm_model", str a.model)
      ∷ ("llm_prompt_version", str a.prompt_version)
      ∷ ("llm_request_time", str a.request_time)
      ∷ ("llm_response_time", str a.response_time)
      ∷ ("llm_decision", str a.decision)
      ∷ ("llm_confidence", num (floating a.confidence))
      ∷ ("llm_reason", str a.reason)
      ∷ ("llm_shadow_mode", bool shadow)
      ∷ ("llm_applied", bool (not shadow))
      ∷ []
  llm_audit shadow (llm_error f) =
      ("llm_provider", str f.provider)
      ∷ ("llm_model", str f.model)
      ∷ ("llm_prompt_version", str f.prompt_version)
      ∷ ("llm_request_time", str f.request_time)
      ∷ ("llm_response_time", str f.response_time)
      ∷ ("llm_decision", str "ERROR")
      ∷ []

  unfoldable pub audit_of : Bool → Request F → MlReport F → LlmReport F → Fields F
  audit_of shadow r ml llm = dict (candidate_audit r ++ (ml_audit ml ++ llm_audit shadow llm))

  unfoldable pub response_of :
      String → Verdict → MlReport F → LlmReport F → String → String → Fields F
  unfolding ml_fields llm_fields
  response_of request_id v ml llm created_at expires_at = dict (
      ("schema_version", str "1.0")
      ∷ ("request_id", str request_id)
      ∷ ("decision", str v.decision)
      ∷ ("reason_code", str v.reason_code)
      ∷ ("ml", obj (ml_fields ml))
      ∷ ("llm", obj (llm_fields llm))
      ∷ ("created_at", str created_at)
      ∷ ("expires_at", str expires_at)
      ∷ [])

abbrev pub conflict : String → Exc
conflict message = api 409 "IDEMPOTENCY_CONFLICT" message

-- A stored decision answers a request with the same body only.
abbrev pub stored_answer : {F : Type 0} → String → String → Saved F → Result (Fields F)
stored_answer message body_hash existing =
    if existing.body_hash == body_hash then ok existing.response else err (conflict message)

module _ {F W : Type 0} ⦃p : Python F⦄ (now : Act W ℤ) (repository : DecisionRepository F W)
    (ml : MlProvider F W) (llm : LlmProvider F W) (s : Settings F W) where
  open p use {iso}

  -- `now or datetime.now(timezone.utc)`
  abbrev pub moment : Option ℤ → Act W ℤ
  moment none = now
  moment (some t) = pure t

  abbrev pub reread : String → Option (Saved F) → Act W (Fields F)
  reread body_hash none = raise (conflict "concurrent request conflict")
  reread body_hash (some e) = lift (stored_answer "concurrent request conflict" body_hash e)

  -- `except ConditionalWriteFailed`: another call has stored a decision in the meantime.
  unfoldable pub after_save : String → String → Exc → Act W (Fields F)
  after_save request_id body_hash conditional_write_failed = do
    existing ← repository.get_decision request_id
    reread body_hash existing
  after_save request_id body_hash other = raise other

  -- The response is returned once it is stored.
  abbrev pub write_new : String → String → Fields F → ℤ → Fields F → Act W (Fields F)
  write_new request_id body_hash response ttl audit = do
    repository.save_decision request_id body_hash response ttl audit
    pure response

  unfoldable pub save_new : String → String → Fields F → ℤ → Fields F → Act W (Fields F)
  save_new request_id body_hash response ttl audit =
      catch (write_new request_id body_hash response ttl audit) (after_save request_id body_hash)

  -- Times are in microseconds; the record is kept for a day after the response expires.
  unfoldable pub decide_new : Request F → String → Option ℤ → Act W (Fields F)
  decide_new request body_hash given = do
    created ← moment given
    let expires = created +ℤ pos (s.response_ttl_seconds * 1_000_000)
    (ml_report, llm_report) ← evaluate now ml llm s request
    let response =
        response_of request.request_id (verdict s.llm_shadow_mode ml_report llm_report) ml_report
          llm_report (iso created) (iso expires)
    save_new request.request_id body_hash response (trunc_div expires 1_000_000 +ℤ pos 86_400)
        (audit_of s.llm_shadow_mode request ml_report llm_report)

  abbrev pub answer_or_decide : Request F → String → Option ℤ → Option (Saved F) → Act W (Fields F)
  answer_or_decide request body_hash given none = decide_new request body_hash given
  answer_or_decide request body_hash given (some e) =
      lift (stored_answer "request_id was used with a different body" body_hash e)

  unfoldable pub decide : Request F → String → Option ℤ → Act W (Fields F)
  decide request body_hash given = do
    existing ← repository.get_decision request.request_id
    answer_or_decide request body_hash given existing
