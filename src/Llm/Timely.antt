-- ===== src/Llm/Timely.antt =====
-- llm.py, `OpenAiResponsesProvider.decide`: what an answer that is returned has passed.
use ea_trading_system.Prelude.{
  ℕ, List, String, ◌≡◌, ◌⊎◌, refl, ap, ◌∙◌, true, false, not, some, arith,
}
use ea_trading_system.Errors.{ok, value_error, timeout_error, ok_path}
use ea_trading_system.Act.{after, after_lift, after_require}
use ea_trading_system.Json.{Fields}
use ea_trading_system.Python.{Python}
use ea_trading_system.Validation.Request.{Request, good_reason}
use ea_trading_system.Service.Providers.{LlmDecision, is_rate}
use ea_trading_system.Llm.Reading.{extract_output_text, parse_llm_decision}
use ea_trading_system.Llm.Contract.{parse_llm_decision_lem}
use ea_trading_system.Llm.Prompt.{market_context}
use ea_trading_system.Llm.OpenAi.{
  OpenAi, Outside, endpoint, headers_for, valid_key, ask, decision_of,
}

module _ {F W : Type 0} (p : Python F) (outside : Outside F W) (provider : OpenAi F) where
  open outside use {get_api_key, monotonic}

  -- The answer came within the time limit of the whole call, the key had a valid length, and the
  -- verdict, the confidence and the reason are in their ranges.
  pub record IsTimely (d : LlmDecision F) (w w' : W) : Type 0 where
    pub key : String
    pub w₁ : W
    pub has_key : get_api_key w ≡ (ok key, w₁)
    pub valid : valid_key key ≡ true
    pub started : F
    pub finished : F
    pub before : W
    pub between : W
    pub start_time : monotonic before ≡ (ok started, between)
    pub body : List ℕ
    pub raw : List ℕ
    pub sent_at : W
    pub sent :
        outside.post endpoint (headers_for key) body provider.timeout_seconds between
        ≡ (ok raw, sent_at)
    pub response_time : String
    pub after_post : W
    pub received : outside.iso_now sent_at ≡ (ok response_time, after_post)
    pub end_time : monotonic after_post ≡ (ok finished, w')
    pub within : p.lt provider.timeout_seconds (p.sub finished started) ≡ false
    pub verdict : (d.decision ≡ "ALLOW") ⊎ (d.decision ≡ "VETO")
    pub confidence : (p.is_finite d.confidence ≡ true) × (is_rate ⦃p = p⦄ d.confidence ≡ true)
    pub text : String
    pub has_reason : d.reason ≡ some text
    pub reason : good_reason text ≡ true

  -- An answer that the provider returns was asked for with a key of a valid length, between two readings
  -- of the clock that are no further apart than the time limit, and its verdict, confidence and reason are in their ranges.
  pub ask-IsTimely :
      (request : Request F) (ml : Fields F) (w : W) (d : LlmDecision F) (w' : W)
      → ask p outside provider request ml w ≡ (ok d, w')
      → IsTimely d w w'
  unfolding ask
  ask-IsTimely request ml w d w' h = after get_api_key _ w d w' h λ key w₁ e₁ h₁.
      after_require (valid_key key) value_error _ w₁ d w' h₁ λ valid h₂.
        after_lift (market_context p request ml) _ w₁ d w' h₂ λ context e₂ h₃.
          after outside.iso_now _ w₁ d w' h₃ λ request_time w₂ e₃ h₄.
            after monotonic _ w₂ d w' h₄ λ started w₃ e₄ h₅.
              after (outside.post _ _ _ _) _ w₃ d w' h₅ λ raw w₄ e₅ h₆.
                after outside.iso_now _ w₄ d w' h₆ λ response_time w₅ e₆ h₇.
                  after monotonic _ w₅ d w' h₇ λ finished w₆ e₇ h₈.
                    after_require (not (p.lt provider.timeout_seconds (p.sub finished started)))
                      timeout_error _ w₆ d w' h₈
                      λ within h₉.
                        after_lift (extract_output_text p raw) _ w₆ d w' h₉ λ text e₈ h₁₀.
                          after_lift (parse_llm_decision ⦃p = p⦄ text) _ w₆ d w' h₁₀
                            λ parsed e₉ h₁₁.
                              let answer : decision_of p outside provider parsed request_time
                                    response_time
                                  ≡ d =
                                ok_path (ap (λ a. a.0) h₁₁) in
                              let (verdict, confidence, reason) =
                                parse_llm_decision_lem ⦃p = p⦄ text parsed.0 parsed.1 parsed.2 e₉ in
                              rw (← answer) (record {
                                key = key;
                                w₁ = w₁;
                                has_key = e₁;
                                valid = valid;
                                started = started;
                                finished = finished;
                                before = w₂;
                                between = w₃;
                                start_time = e₄;
                                body = _;
                                raw = raw;
                                sent_at = w₄;
                                sent = e₅;
                                response_time = response_time;
                                after_post = w₅;
                                received = e₆;
                                end_time = e₇ ∙ ap (λ v. (ok finished, v)) (ap (λ a. a.1) h₁₁);
                                within = ground (arith, within);
                                verdict = verdict;
                                confidence = confidence;
                                text = parsed.2;
                                has_reason = refl;
                                reason = reason;
                              })
