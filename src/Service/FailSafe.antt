-- ===== src/Service/FailSafe.antt =====
-- Failures of the providers: they end in VETO, never in an exception.
use ea_trading_system.Prelude.{ℤ, String, true, false, ◌≡◌, ◌≢◌, refl, ap, arith}
use ea_trading_system.Errors.{Exc, Result, ok, err}
use ea_trading_system.Act.{Act, pure, catch, caught, continue, ◌>>=◌}
use ea_trading_system.Python.{Python}
use ea_trading_system.Validation.Request.{Request}
use ea_trading_system.Service.Providers.{MlPrediction, MlProvider, LlmProvider, Settings}
use ea_trading_system.Service.Evaluate.{
  MlReport, scored, ml_error, LlmReport, not_called, score, ml_failed, evaluate_ml, consult,
  identity_or_unavailable, llm_failed, evaluate_llm, after_ml, evaluate,
}
use ea_trading_system.Service.Decide.{verdict}

abbrev Good : {W A : Type 0} → Result A × W → Type 0
Good {W} {A} r = (a : A) × (w : W) × (r ≡ (ok a, w))

abbrev pub Total : {W A : Type 0} → Act W A → Type 0
Total {W} {A} m = (w : W) → (a : A) × (w' : W) × (m w ≡ (ok a, w'))

module _ {W A B : Type 0} where
  bind-Good :
      (r : Result A × W) (f : A → Act W B)
      → Good r
      → ((a : A) → Total (f a))
      → Good (continue r.0 f r.1)
  bind-Good (ok a, w) f g t = t a w
  bind-Good (err e, w) f (a, w', h) t = absurd (ground arith)

  Total-bind : (m : Act W A) (f : A → Act W B) → Total m → ((a : A) → Total (f a)) → Total (m >>= f)
  Total-bind m f g t w = bind-Good (m w) f (g w) t

module _ {W A : Type 0} where
  Total-pure : (a : A) → Total {W = W} (pure a)
  Total-pure a w = (a, w, refl)

  caught-Good :
      (r : Result A × W) (f : Exc → Act W A) → ((e : Exc) → Total (f e)) → Good (caught r.0 f r.1)
  caught-Good (ok a, w) f t = (a, w, refl)
  caught-Good (err e, w) f t = t e w

  Total-catch : (m : Act W A) (f : Exc → Act W A) → ((e : Exc) → Total (f e)) → Total (catch m f)
  Total-catch m f t w = caught-Good (m w) f t

-- What `evaluate` does after the first filter.
abbrev rest :
    {F W : Type 0} ⦃p : Python F⦄
    → Act W ℤ
    → MlProvider F W
    → LlmProvider F W
    → Settings F W
    → Request F
    → MlReport F
    → Act W (MlReport F × LlmReport F)
rest now ml llm s q m = after_ml now ml llm s q m >>= λ l. pure (m, l)

module _ {F W : Type 0} ⦃p : Python F⦄ (now : Act W ℤ) (ml : MlProvider F W) (llm : LlmProvider F W)
    (s : Settings F W) where
  ml_failed-Total : Total (ml_failed now ml llm s)
  unfolding ml_failed
  ml_failed-Total =
      Total-bind _ _ (Total-catch ml.model_version _ (λ e. Total-pure _)) (λ v. Total-pure _)

  evaluate_ml-Total : (q : Request F) → Total (evaluate_ml now ml llm s q)
  unfolding evaluate_ml
  evaluate_ml-Total q = Total-catch (score now ml llm s q) _ (λ e. ml_failed-Total)

  -- If the machine-learning filter does not pass, because the provider raised, its prediction was
  -- malformed or a threshold was not met, then no language model is asked: with any provider and any
  -- clock in its place the outcome is the same, and it is VETO.
  pub rejected_without_llm :
      (q : Request F) (m : MlReport F) (w w₁ : W)
      → evaluate_ml now ml llm s q w ≡ (ok m, w₁)
      → ((x : MlPrediction F) → m ≢ scored true x)
      → (now₂ : Act W ℤ) (llm₂ : LlmProvider F W)
      → (evaluate now₂ ml llm₂ s q w ≡ (ok (m, not_called), w₁))
        × ((l : LlmReport F) → (verdict s.llm_shadow_mode m l).decision ≡ "VETO")
  unfolding evaluate evaluate_ml after_ml verdict score ml_failed
  rejected_without_llm q (scored true x) w w₁ h rejected now₂ llm₂ = absurd (rejected x refl)
  rejected_without_llm q (scored false x) w w₁ h rejected now₂ llm₂ =
      (ap (λ r. continue r.0 (rest now₂ ml llm₂ s q) r.1) h, λ l. refl)
  rejected_without_llm q (ml_error v) w w₁ h rejected now₂ llm₂ =
      (ap (λ r. continue r.0 (rest now₂ ml llm₂ s q) r.1) h, λ l. refl)

  module _ (clock : Total now) where
    llm_failed-Total : (started : String) → Total (llm_failed now ml llm s started)
    unfolding llm_failed
    llm_failed-Total started =
        Total-bind (identity_or_unavailable now ml llm s) _ (Total-catch _ _ (λ e. Total-pure _))
          (λ ids. Total-bind now _ clock (λ t. Total-pure _))

    evaluate_llm-Total : (q : Request F) (m : MlReport F) → Total (evaluate_llm now ml llm s q m)
    unfolding evaluate_llm
    evaluate_llm-Total q m =
        Total-bind now _ clock
          (λ t. Total-catch (consult now ml llm s q m) _ (λ e. llm_failed-Total (p.iso t)))

    after_ml-Total : (q : Request F) (m : MlReport F) → Total (after_ml now ml llm s q m)
    unfolding after_ml
    after_ml-Total q (scored true x) = evaluate_llm-Total q (scored true x)
    after_ml-Total q (scored false x) = Total-pure not_called
    after_ml-Total q (ml_error v) = Total-pure not_called

    -- While the clock works, the filters return a report for every request, whatever the two providers
    -- raise: in the prediction, in the model's call, or when they are asked for their names.
    pub evaluate-Total :
        (q : Request F) (w : W)
        → (r : MlReport F × LlmReport F) × (w' : W) × (evaluate now ml llm s q w ≡ (ok r, w'))
    unfolding evaluate
    evaluate-Total q =
        Total-bind (evaluate_ml now ml llm s q) _ (evaluate_ml-Total q)
          (λ m. Total-bind (after_ml now ml llm s q m) _ (after_ml-Total q m) (λ l. Total-pure _))
