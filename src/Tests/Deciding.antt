-- ===== src/Tests/Deciding.antt =====
-- Decisions on one request: a repository that lists what was saved, and providers that answer.
use ea_trading_system.Prelude.{
  ℕ, ℤ, pos, ◌+ℤ◌, String, ◌≡◌, ◌⊎◌, refl, sym, ap, ◌∙◌, true, false, Option, none, some, List, [],
  ◌∷◌, lookup, eq_iff, arith,
}
use ea_trading_system.Errors.{ok, timeout_error}
use ea_trading_system.Act.{Act, pure, raise}
use ea_trading_system.Json.{Fields}
use ea_trading_system.Python.{full_match, has_control, ends_with_z}
use ea_trading_system.Service.Providers.{
  Saved, DecisionRepository, MlPrediction, MlProvider, LlmProvider, Settings,
}
use ea_trading_system.Service.Evaluate.{
  MlReport, scored, ml_error, LlmReport, LlmAnswer, not_called, answered, ml_fields, score,
  ml_failed, evaluate_ml, check_time, check_answer, consult, llm_failed, evaluate_llm, after_ml,
  evaluate,
}
use ea_trading_system.Service.Decide.{
  verdict, llm_fields, audit_of, response_of, after_save, save_new, decide_new, decide,
}
use ea_trading_system.Service.Approval.{IsApproved}
use ea_trading_system.Service.Idempotence.{RepositoryLaws, decide-Stores, decide_idempotent}
use ea_trading_system.Service.FailSafe.{evaluate-Total, rejected_without_llm}
use ea_trading_system.Service.Release.{IsStored, decide_allow}
use ea_trading_system.Tests.World.{p, request, request_id}

abbrev pub World : Type 0
World = List (String × Saved ℕ)

abbrev pub repository : DecisionRepository ℕ World
repository = record {
  get_decision = λ id w. (ok (lookup id w), w);
  save_decision = λ id body_hash response ttl audit w.
      (ok tt, (id, record { body_hash = body_hash; response = response }) ∷ w);
}

abbrev pub now : Act World ℤ
now = pure (pos 1_000_000_000)

abbrev pub prediction : MlPrediction ℕ
prediction = record { win_probability = 1; expected_return = 2; model_version = "model-1" }

abbrev pub ml : MlProvider ℕ World
ml = record { predict = λ q. pure prediction; model_version = pure (some "model-1") }

abbrev time : String
time = "1970-01-01T00:16:40Z"

abbrev pub llm : LlmProvider ℕ World
llm = record {
  provider_name = pure (some "openai");
  model_name = pure (some "gpt");
  prompt_version = pure (some "v1");
  decide = λ q fs. pure (record {
    decision = "ALLOW";
    confidence = 1;
    reason = some "consistent";
    provider = some "openai";
    model = some "gpt";
    prompt_version = some "v1";
    request_time = some time;
    response_time = some time;
  });
}

-- Both providers fail, even when they are asked for their names.
abbrev failing_ml : MlProvider ℕ World
failing_ml = record { predict = λ q. raise timeout_error; model_version = raise timeout_error }

abbrev failing_llm : LlmProvider ℕ World
failing_llm = record {
  provider_name = raise timeout_error;
  model_name = raise timeout_error;
  prompt_version = raise timeout_error;
  decide = λ q fs. raise timeout_error;
}

abbrev pub settings : Settings ℕ World
settings = record {
  min_win_probability = 1;
  min_expected_return = 1;
  response_ttl_seconds = 30;
  llm_shadow_mode = false;
  remaining_seconds = some (pure 4);
  llm_min_remaining_seconds = 3;
}

abbrev answer : LlmAnswer ℕ
answer = record {
  decision = "ALLOW";
  confidence = 1;
  reason = "consistent";
  provider = "openai";
  model = "gpt";
  prompt_version = "v1";
  request_time = time;
  response_time = time;
}

evaluate-Total_example :
    (r : MlReport ℕ × LlmReport ℕ) × (w' : World) × (evaluate ⦃p = p⦄ now failing_ml failing_llm
        settings request []
      ≡ (ok r, w'))
evaluate-Total_example =
    evaluate-Total ⦃p = p⦄ now failing_ml failing_llm settings (λ w. (pos 1_000_000_000, w, refl))
      request []

abbrev refused : MlReport ℕ
refused = ml_error "unavailable"

ml_refused : evaluate_ml ⦃p = p⦄ now failing_ml llm settings request [] ≡ (ok refused, [])
unfolding evaluate_ml ml_failed score full_match
ml_refused = refl

rejected_without_llm_example :
    (evaluate ⦃p = p⦄ now failing_ml failing_llm settings request []
      ≡ (ok (refused, not_called), []))
    × ((l : LlmReport ℕ) → (verdict false refused l).decision ≡ "VETO")
rejected_without_llm_example =
    rejected_without_llm ⦃p = p⦄ now failing_ml llm settings request refused [] [] ml_refused
      (λ x h. ground arith) now failing_llm

abbrev pub response : Fields ℕ
response =
    response_of request_id (record { decision = "ALLOW"; reason_code = "APPROVED" })
      (scored true prediction) (answered answer) time time

abbrev pub saved : World
saved = (request_id, record { body_hash = "body-hash"; response = response }) ∷ []

first_decision :
    decide ⦃p = p⦄ now repository ml llm settings request "body-hash" none [] ≡ (ok response, saved)
unfolding decide decide_new save_new after_save response_of audit_of llm_fields verdict evaluate
    after_ml evaluate_llm llm_failed consult check_answer check_time evaluate_ml ml_failed score
    ml_fields full_match has_control ends_with_z ◌+ℤ◌
first_decision = refl

-- The same request again, when both providers fail.
second_decision :
    decide ⦃p = p⦄ now repository failing_ml failing_llm settings request "body-hash" none saved
    ≡ (ok response, saved)
unfolding decide
second_decision = refl

decide_allow_example :
    IsStored ⦃p = p⦄ now repository ml llm settings request_id response
    ⊎ ((v : World) × (v' : World) × IsApproved ⦃p = p⦄ now ml llm settings request v v')
unfolding response_of
decide_allow_example =
    decide_allow ⦃p = p⦄ now repository ml llm settings request "body-hash" none [] saved response
      first_decision refl

abbrev view : World → String → Option (Saved ℕ)
view w id = lookup id w

read_lem :
    (id : String) (w w' : World) (o : Option (Saved ℕ))
    → repository.get_decision id w ≡ (ok o, w')
    → (o ≡ view w id) × (view w' id ≡ view w id)
read_lem id w w' o h =
    let got : lookup id w ≡ o = ground arith in
    let same : w ≡ w' = ap (λ x. x.1) h in (sym got, ap (λ v. view v id) (sym same))

write_lem :
    (id body_hash : String) (r audit : Fields ℕ) (ttl : ℤ) (w w' : World)
    → repository.save_decision id body_hash r ttl audit w ≡ (ok tt, w')
    → view w' id ≡ some (record { body_hash = body_hash; response = r })
write_lem id body_hash r audit ttl w w' h =
    let same : ((id, record { body_hash = body_hash; response = r }) ∷ w) ≡ w' = ap (λ x. x.1) h in
    ap (λ v. view v id) (sym same) ∙ ground (arith, eq_iff id id)

laws : RepositoryLaws repository view
laws = record { get_reads = read_lem; save_writes = write_lem }

decide-Stores_example :
    view saved request_id ≡ some (record { body_hash = "body-hash"; response = response })
decide-Stores_example =
    decide-Stores ⦃p = p⦄ repository laws now ml llm settings request "body-hash" none [] saved
      response first_decision

abbrev body_hash : String
body_hash = "body-hash"

decide_idempotent_example :
    (body_hash ≡ body_hash)
    × (response ≡ response)
    × (lookup request_id saved ≡ lookup request_id saved)
decide_idempotent_example =
    decide_idempotent ⦃p = p⦄ repository laws now now ml failing_ml llm failing_llm settings
      settings request request "body-hash" "body-hash" none none [] saved saved saved response
      response first_decision second_decision refl refl
