-- ===== src/Tests/Serving.antt =====
-- The entry point for trade decisions, and the cache of secrets.
use ea_trading_system.Prelude.{
  ℕ, pos, ◌+ℤ◌, ◌-ℤ◌, String, ◌≡◌, ◌⊎◌, refl, true, false, none, some, [], ◌∷◌,
}
use ea_trading_system.Errors.{ok}
use ea_trading_system.Act.{Act, pure}
use ea_trading_system.Json.{reject_duplicates, read_value, read_items, read_pairs}
use ea_trading_system.Python.{full_match, has_control, ends_with_z}
use ea_trading_system.Validation.Fields.{
  item, exact_fields, string, is_member, integer, float_number, number, date_time, canonical_uuid,
  loads, read_body,
}
use ea_trading_system.Validation.Request.{
  matching, chosen, check_strategy, checked, check_prices, check_measures, check_calendar, utc_text,
  uuid_text, features_of, check_features, geometry_valid, proposal_of, check_proposal, check_header,
  request_of, check_request, parse_and_validate_request,
}
use ea_trading_system.Auth.{verify_request}
use ea_trading_system.Auth.Format.{normalized, read_credentials, check_format}
use ea_trading_system.Service.Providers.{new_service}
use ea_trading_system.Service.Evaluate.{
  ml_fields, score, ml_failed, evaluate_ml, check_time, check_answer, consult, llm_failed,
  evaluate_llm, after_ml, evaluate,
}
use ea_trading_system.Service.Decide.{
  verdict, llm_fields, audit_of, response_of, after_save, save_new, decide_new, decide,
}
use ea_trading_system.Service.Approval.{IsApproved}
use ea_trading_system.Service.Release.{IsStored}
use ea_trading_system.Handler.Gateway.{Event, read_raw_body}
use ea_trading_system.Handler.Trade.{
  Process, summary, remaining_seconds, settings, authenticated, decided, answered,
}
use ea_trading_system.Handler.Answers.{IsAnswered, answered-IsAnswered, answered_allow}
use ea_trading_system.Handler.Secrets.{SecretCache, get_secure_parameter, valid_shared_secret}
use ea_trading_system.Handler.ValidSecrets.{OutcomeIn, get_secure_parameter-Outcome}
use ea_trading_system.Tests.World.{p, signature}
use ea_trading_system.Tests.Signing.{headers}
use ea_trading_system.Tests.Deciding.{World, repository, ml, llm, response, saved}

abbrev process : Process ℕ World
process = record {
  environ = λ name. none;
  max_skew = ok 60;
  ttl = ok 30;
  clock = pure (pos 1_010);
  now = pure (pos 1_000_000_000);
  perf_counter = λ w. (0, w);
  remaining_ms = none;
  dependencies = pure tt;
  repository = repository;
  nonces = record { claim_nonce = λ k n t. pure tt };
  secrets = record { get_secret = λ k. pure "a shared secret" };
  ml_dependency = pure ml;
  llm_dependency = pure llm;
}

abbrev event : Event
event = record {
  method = some "POST";
  body = some "{}";
  is_base64_encoded = false;
  headers = headers;
}

served : answered p process 0 event [] ≡ (ok response, saved)
unfolding parse_and_validate_request check_request request_of check_header check_proposal
    proposal_of geometry_valid check_features features_of uuid_text utc_text check_calendar
    check_measures check_prices checked check_strategy chosen matching read_body loads
    canonical_uuid date_time number float_number integer is_member string exact_fields item
    read_value read_items read_pairs reject_duplicates full_match has_control ends_with_z decide
    decide_new save_new after_save response_of audit_of llm_fields verdict evaluate after_ml
    evaluate_llm llm_failed consult check_answer check_time evaluate_ml ml_failed score ml_fields
    ◌+ℤ◌ ◌-ℤ◌ verify_request read_credentials check_format normalized new_service read_raw_body
    summary remaining_seconds settings authenticated decided answered
served = refl

answered-IsAnswered_example : IsAnswered p process 0 event response
answered-IsAnswered_example = answered-IsAnswered p process 0 event [] saved response served

answered_allow_example :
    (a : IsAnswered p process 0 event response) × (IsStored ⦃p = p⦄ process.now process.repository
        a.decided.ml a.decided.llm a.decided.s a.request.request_id response
      ⊎ ((v : World) × (v' : World) × IsApproved ⦃p = p⦄ process.now a.decided.ml a.decided.llm
            a.decided.s a.request v v'))
unfolding response_of
answered_allow_example = answered_allow p process 0 event [] saved response served refl

-- The world is the time; a secret has 64 characters.
abbrev clock : ℕ → ℕ × ℕ
clock t = (t, t)

abbrev get_parameter : String → Act ℕ String
get_parameter name = pure signature

abbrev cache : SecretCache ℕ
cache = record { ttl_seconds = 300; entries = ("key-1", (signature, 1_300)) ∷ [] }

abbrev Valid : String → String × ℕ → Type 0
Valid name e = valid_shared_secret e.0 ≡ true

-- The entry expires at 1,300, so a read at that time fetches the secret again.
get_secure_parameter-Outcome_example :
    (let r =
        get_secure_parameter p clock get_parameter "key-1" valid_shared_secret
          (some cache, 1_300) in
      OutcomeIn p clock get_parameter Valid "key-1" valid_shared_secret
        (some cache)
        1_300
        r.0
        r.1.0)
get_secure_parameter-Outcome_example =
    get_secure_parameter-Outcome p clock get_parameter Valid "key-1" valid_shared_secret
      (λ v x h. h) (some cache) 1_300 (refl, tt)
