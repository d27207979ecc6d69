-- ===== src/Handler/Clients.antt =====
-- handler.py: `_ml_dependency` and `_llm_dependency`, which choose the providers by the environment,
-- and `UnavailableMlProvider` of ml.py. The provider that is kept in a global variable is the one that
-- the same environment gives again; the model that it has loaded is part of the world.
use ea_trading_system.Prelude.{
  ℕ, String, ◌==◌, ◌≡◌, ap, Bool, true, false, not, ◌||◌, Option, none, some, List, if◌then◌else◌,
}
use ea_trading_system.Errors.{Result, ok, err, value_error, key_error, type_error, runtime_error}
use ea_trading_system.Act.{Act, pure, raise, lift, after, ◌>>=◌}
use ea_trading_system.Json.{Value, null, str}
use ea_trading_system.Python.{Python}
use ea_trading_system.Validation.Request.{Request}
use ea_trading_system.Service.Providers.{MlPrediction, MlProvider, LlmProvider}
use ea_trading_system.Ml.Model.{Model, Predicted, predict}
use ea_trading_system.Ml.Artifact.{load, predict_cached, cached_version}
use ea_trading_system.Ml.Trusted.{IsTrusted, IsTrustedModel, load-IsTrusted}
use ea_trading_system.Llm.OpenAi.{Outside, new_openai, openai, unavailable}

abbrev pub unavailable_ml : {F W : Type 0} → MlProvider F W
unavailable_ml = record {
  predict = λ request. raise runtime_error;
  model_version = pure (some "not-configured");
}

-- os.environ[name], and os.environ.get(name, default)
abbrev required : Option String → Result String
required none = err key_error
required (some s) = ok s

abbrev get_or : Option String → String → String
get_or none default = default
get_or (some s) default = s

module _ {F W : Type 0} (p : Python F) (environ : String → Option String)
    (s3 : (bucket key : String) → ℕ → Act W (List ℕ)) where
  abbrev pub Loaded : Type 0
  Loaded = Option (Model F) × W

  abbrev text_of : Value F → Option String
  text_of (str s) = some s
  text_of null = none
  text_of _ = none

  -- A version that is not a text is refused by `re.fullmatch` in service.py, with TypeError.
  abbrev prediction_of : Predicted F → Option String → Result (MlPrediction F)
  prediction_of q none = err type_error
  prediction_of q (some version) = ok (record {
    win_probability = q.win_probability;
    expected_return = q.expected_return;
    model_version = version;
  })

  -- `S3MlProvider` as the service sees it.
  abbrev pub s3_provider : (bucket key expected_sha256 : String) → MlProvider F Loaded
  s3_provider bucket key expected_sha256 = record {
    predict = λ request. predict_cached p (s3 bucket key) expected_sha256 request >>= λ q.
        lift (prediction_of q (text_of q.model_version));
    model_version = λ c. (ok (text_of (cached_version p (s3 bucket key) c)), c);
  }

  abbrev ml_with : Bool → String → Result (MlProvider F Loaded)
  ml_with true checksum = ok unavailable_ml
  ml_with false checksum =
      bucket_and_key (required (environ "ARTIFACT_BUCKET")) (required (environ "ML_MODEL_KEY"))
    where
      bucket_and_key : Result String → Result String → Result (MlProvider F Loaded)
      bucket_and_key (ok bucket) (ok key) = ok (s3_provider bucket key (p.lower checksum))
      bucket_and_key (err e) key = err e
      bucket_and_key (ok bucket) (err e) = err e

  unfoldable pub ml_dependency : Act Loaded (MlProvider F Loaded)
  ml_dependency =
      let checksum = get_or (environ "ML_MODEL_SHA256") "" in
      lift (ml_with (checksum == "") checksum)

  -- A prediction that the provider gives is that of a model with the configured hash.
  pub s3_provider-IsTrusted :
      (bucket key expected_sha256 : String) (request : Request F) (kept : Option (Model F)) (w : W)
      (q : MlPrediction F) (c' : Loaded)
      → IsTrusted p (s3 bucket key) expected_sha256 kept
      → (s3_provider bucket key expected_sha256).predict request (kept, w) ≡ (ok q, c')
      → (m : Model F) × (a : Predicted F) × IsTrustedModel p (s3 bucket key) expected_sha256 m
        × (predict p m request ≡ ok a)
  unfolding predict_cached
  s3_provider-IsTrusted bucket key expected_sha256 request kept w q c' trusted h =
      after (predict_cached p (s3 bucket key) expected_sha256 request) _ (kept, w) q c' h
        λ a c₁ e₁ h₁.
          after (load p (s3 bucket key) expected_sha256) _ (kept, w) a c₁ e₁
            λ m c₂ e₂ h₂.
              let new = load-IsTrusted p (s3 bucket key) expected_sha256 kept w m c₂ trusted e₂ in
              (m, a, new.0, ap (λ r. r.0) h₂)

module _ {F V : Type 0} (p : Python F) (environ : String → Option String)
    (outside_of : (environment : String) → Outside F V) where
  abbrev parsed : Option F → Result F
  parsed none = err value_error
  parsed (some x) = ok x

  abbrev float_of : String → Result F
  float_of text = parsed (p.float text)

  abbrev temperature_of : String → Result (Option F)
  temperature_of text = if text == "" then ok none else some_float (float_of text)
    where
      some_float : Result F → Result (Option F)
      some_float (ok x) = ok (some x)
      some_float (err e) = err e

  -- The OpenAI provider for a model, if it is asked for and named.
  abbrev llm_with : Bool → String → Act V (LlmProvider F V)
  llm_with true model = pure unavailable
  llm_with false model = do
    environment ← lift (required (environ "ENVIRONMENT"))
    timeout ← lift (float_of (get_or (environ "LLM_TIMEOUT_SECONDS") "3.0"))
    temperature ← lift (temperature_of (get_or (environ "LLM_TEMPERATURE") "0"))
    provider ← lift (
        new_openai p model (get_or (environ "LLM_PROMPT_VERSION") "trade-filter-v1") timeout
          temperature)
    pure (openai p (outside_of environment) provider)

  unfoldable pub llm_dependency : Act V (LlmProvider F V)
  llm_dependency =
      llm_with
        (not (p.lower (get_or (environ "LLM_PROVIDER") "") == "openai")
          || get_or (environ "LLM_MODEL") "" == "")
        (get_or (environ "LLM_MODEL") "")
