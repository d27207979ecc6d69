-- ===== src/Service/Approval.antt =====
-- When a decision is ALLOW, and what happens when a provider fails.
use mathlib.Core.Path.{subst}
use ea_trading_system.Prelude.{
  ℤ, String, Bool, true, false, ◌==◌, ◌≡◌, ◌≢◌, ◌⊎◌, refl, ◌∙◌, arith, eq_iff,
}
use ea_trading_system.Errors.{ok, value_error}
use ea_trading_system.Act.{Act, after, after_require, after_catch}
use ea_trading_system.Python.{Python}
use ea_trading_system.Validation.Request.{Request}
use ea_trading_system.Service.Providers.{
  MlPrediction, MlProvider, LlmDecision, LlmProvider, Settings,
}
use ea_trading_system.Service.Evaluate.{
  MlReport, scored, ml_error, LlmAnswer, LlmReport, not_called, answered, llm_error, ml_fields,
  is_prediction, meets_thresholds, score, ml_failed, evaluate_ml, check_time, check_answer, consult,
  llm_failed, identity_or_unavailable, evaluate_llm, after_ml, evaluate,
}
use ea_trading_system.Service.Decide.{verdict}

text_ne : (s t : String) → (s == t) ≡ false → s ≢ t
text_ne s t h e = ground (arith, eq_iff s t)

module _ {F : Type 0} where
  -- The model's answer lets the trade through: it allows it, or its veto is only recorded.
  abbrev pub Permits : Bool → LlmAnswer F → Type 0
  Permits shadow a = (a.decision ≡ "ALLOW") ⊎ ((shadow ≡ true) × (a.decision ≡ "VETO"))

  verdict-Permits :
      (shadow : Bool) (q : MlPrediction F) (a : LlmAnswer F)
      → (verdict shadow (scored true q) (answered a)).decision ≡ "ALLOW"
      → Permits shadow a
  unfolding verdict
  verdict-Permits shadow q a h = ground (arith, eq_iff a.decision "VETO")

  -- An ALLOW needs a prediction that passed and an answer that lets it through.
  allow_parts :
      (shadow : Bool) (ml : MlReport F) (llm : LlmReport F)
      → (verdict shadow ml llm).decision ≡ "ALLOW"
      → (q : MlPrediction F) × (a : LlmAnswer F) × (ml ≡ scored true q)
        × (llm ≡ answered a)
        × Permits shadow a
  unfolding verdict
  allow_parts shadow (scored true q) (answered a) h =
      (q, a, refl, refl, verdict-Permits shadow q a h)
  allow_parts shadow (scored true q) not_called h = absurd (text_ne "VETO" "ALLOW" refl h)
  allow_parts shadow (scored true q) (llm_error f) h = absurd (text_ne "VETO" "ALLOW" refl h)
  allow_parts shadow (scored false q) llm h = absurd (text_ne "VETO" "ALLOW" refl h)
  allow_parts shadow (ml_error v) llm h = absurd (text_ne "VETO" "ALLOW" refl h)

module _ {F W : Type 0} ⦃p : Python F⦄ (now : Act W ℤ) (ml : MlProvider F W) (llm : LlmProvider F W)
    (s : Settings F W) where
  -- A passed score is a prediction of the provider, well formed and at both thresholds.
  pub record IsPassed (request : Request F) (q : MlPrediction F) (w w' : W) : Type 0 where
    pub predicted : ml.predict request w ≡ (ok q, w')
    pub formed : is_prediction now ml llm s q ≡ true
    pub meets : meets_thresholds now ml llm s q ≡ true

  evaluate_ml-IsPassed :
      (request : Request F) (q : MlPrediction F) (w w' : W)
      → evaluate_ml now ml llm s request w ≡ (ok (scored true q), w')
      → IsPassed request q w w'
  unfolding evaluate_ml score ml_failed
  evaluate_ml-IsPassed request q w w' h =
      after_catch (score now ml llm s request) _ w (scored true q) w' h
        (λ done. after (ml.predict request) _ w (scored true q) w' done λ q₁ w₁ e₁ h₁.
          after_require (is_prediction now ml llm s q₁) value_error _ w₁ (scored true q) w' h₁
            λ e₂ h₂. record {
              predicted = ground arith;
              formed = ground arith;
              meets = ground arith;
            })
        (λ e w₁ raised h₁. absurd (ground arith))

  -- An answer of the model that passed every check, asked with a prediction that passed and with
  -- enough time left.
  pub record IsAnswered (request : Request F) (report : MlReport F) (a : LlmAnswer F) (w w' : W)
      : Type 0 where
    pub w₁ : W
    pub in_time : check_time now ml llm s s.remaining_seconds w ≡ (ok tt, w₁)
    pub w₂ : W
    pub decision : LlmDecision F
    pub asked : llm.decide request (ml_fields report) w₁ ≡ (ok decision, w₂)
    pub checked : check_answer now ml llm s decision w₂ ≡ (ok a, w')

  consult-IsAnswered :
      (request : Request F) (report : MlReport F) (a : LlmAnswer F) (w w' : W)
      → consult now ml llm s request report w ≡ (ok (answered a), w')
      → IsAnswered request report a w w'
  unfolding consult
  consult-IsAnswered request report a w w' h =
      after (check_time now ml llm s s.remaining_seconds) _ w (answered a) w' h λ u w₁ e₁ h₁.
        after (llm.decide request (ml_fields report)) _ w₁ (answered a) w' h₁ λ d w₂ e₂ h₂.
          after (check_answer now ml llm s d) _ w₂ (answered a) w' h₂ λ b w₃ e₃ h₃. record {
            w₁ = w₁;
            in_time = e₁;
            w₂ = w₂;
            decision = d;
            asked = e₂;
            checked = ground arith;
          }

  llm_failed_lem :
      (started : String) (a : LlmAnswer F) (w w' : W)
      → llm_failed now ml llm s started w ≢ (ok (answered a), w')
  unfolding llm_failed
  llm_failed_lem started a w w' h =
      after (identity_or_unavailable now ml llm s) _ w (answered a) w' h
        λ ids w₁ e₁ h₁. after now _ w₁ (answered a) w' h₁ λ t w₂ e₂ h₂. ground arith

  evaluate_llm-IsAnswered :
      {P : Type 0} (request : Request F) (report : MlReport F) (a : LlmAnswer F) (w w' : W)
      → evaluate_llm now ml llm s request report w ≡ (ok (answered a), w')
      → ((started : ℤ) (w₁ : W) → now w ≡ (ok started, w₁) → IsAnswered request report a w₁ w' → P)
      → P
  unfolding evaluate_llm
  evaluate_llm-IsAnswered request report a w w' h k =
      after now _ w (answered a) w' h λ started w₁ e₁ h₁.
        after_catch (consult now ml llm s request report) _ w₁ (answered a) w' h₁
          (λ done. k started w₁ e₁ (consult-IsAnswered request report a w₁ w' done))
          (λ e w₂ raised h₂. absurd (llm_failed_lem (p.iso started) a w₂ w' h₂))

  -- The evidence behind an ALLOW that is not merely a stored answer.
  pub record IsApproved (request : Request F) (w w' : W) : Type 0 where
    pub prediction : MlPrediction F
    pub w₁ : W
    pub passed : IsPassed request prediction w w₁
    pub started : ℤ
    pub w₂ : W
    pub timed : now w₁ ≡ (ok started, w₂)
    pub answer : LlmAnswer F
    pub answered_by : IsAnswered request (scored true prediction) answer w₂ w'
    pub permits : Permits s.llm_shadow_mode answer

  pub allow-IsApproved :
      (request : Request F) (m : MlReport F) (l : LlmReport F) (w w' : W)
      → evaluate now ml llm s request w ≡ (ok (m, l), w')
      → (verdict s.llm_shadow_mode m l).decision ≡ "ALLOW"
      → IsApproved request w w'
  unfolding evaluate after_ml
  allow-IsApproved request m l w w' h allowed =
      let (q, a, is_m, is_l, permits) = allow_parts s.llm_shadow_mode m l allowed in
      after (evaluate_ml now ml llm s request) _ w (m, l) w' h
        λ m₁ w₁ e₁ h₁.
          after (after_ml now ml llm s request m₁) _ w₁ (m, l) w' h₁
            λ l₁ w₂ e₂ h₂.
              let m₁_is : m₁ ≡ scored true q = ground arith in
              let at_end : (ok l₁, w₂) ≡ (ok (answered a), w') = ground arith in
              evaluate_llm-IsAnswered request (scored true q) a w₁ w'
                (subst (λ x. after_ml now ml llm s request x w₁ ≡ (ok (answered a), w')) m₁_is
                  (e₂ ∙ at_end))
                λ started w₃ timed answer. record {
                  prediction = q;
                  w₁ = w₁;
                  passed =
                      evaluate_ml-IsPassed request q w w₁
                        (subst (λ x. evaluate_ml now ml llm s request w ≡ (ok x, w₁)) m₁_is e₁);
                  started = started;
                  w₂ = w₃;
                  timed = timed;
                  answer = a;
                  answered_by = answer;
                  permits = permits;
                }
