-- ===== src/Llm/OpenAi.antt =====
-- llm.py: `OpenAiResponsesProvider` and `UnavailableLlmProvider`.
use ea_trading_system.Prelude.{
  ℕ, String, ◌&◌, Bool, true, ◌&&◌, not, leb, Option, none, some, List, [], ◌∷◌,
}
use ea_trading_system.Errors
use ea_trading_system.Errors.{Result, ok, value_error, timeout_error, runtime_error}
use ea_trading_system.Act.{Act, pure, raise, lift, require, ◌>>=◌, ◌>>◌}
use ea_trading_system.Json.{Fields, obj}
use ea_trading_system.Python.{Python, len, full_match, is_identifier}
use ea_trading_system.Validation.Request.{Request}
use ea_trading_system.Service.Providers.{LlmDecision, LlmProvider}
use ea_trading_system.Llm.Reading.{extract_output_text, parse_llm_decision}
use ea_trading_system.Llm.Prompt.{market_context, body_of}

abbrev pub endpoint : String
endpoint = "https://api.openai.com/v1/responses"

-- What `__init__` keeps, its key provider and its transport aside.
pub record OpenAi (F : Type 0) : Type 0 where
  pub model : String
  pub prompt_version : String
  pub timeout_seconds : F
  pub temperature : Option F

-- The key provider, the transport (address, headers, body, timeout), `_iso_now` and `time.monotonic`
pub record Outside (F W : Type 0) : Type 0 where
  pub get_api_key : Act W String
  pub post : String → List (String × String) → List ℕ → F → Act W (List ℕ)
  pub iso_now : Act W String
  pub monotonic : Act W F

-- `UnavailableLlmProvider`
abbrev pub unavailable : {F W : Type 0} → LlmProvider F W
unavailable = record {
  provider_name = pure (some "unavailable");
  model_name = pure (some "not-configured");
  prompt_version = pure (some "not-configured");
  decide = λ request ml. raise runtime_error;
}

abbrev pub valid_key : String → Bool
valid_key key = leb 20 (len key) && leb (len key) 512

abbrev pub headers_for : String → List (String × String)
headers_for api_key =
    ("Authorization", "Bearer " & api_key)
    ∷ ("Content-Type", "application/json")
    ∷ ("User-Agent", "ea-trading-system/1.0")
    ∷ []

module _ {F : Type 0} (p : Python F) where
  open p use {lit, le, lt, sub, div, is_finite, encode, json_dumps}

  -- `temperature is not None and (...)` is the refusal.
  abbrev pub valid_temperature : Option F → Bool
  valid_temperature none = true
  valid_temperature (some t) = is_finite t && (le (lit 0) t && le t (lit 2))

  -- 0.1 is the quotient of 1 by 10.
  abbrev pub valid_timeout : F → Bool
  valid_timeout x = le (div (lit 1) (lit 10)) x && le x (lit 4)

  -- `__init__`
  unfoldable pub new_openai : (model prompt_version : String) → F → Option F → Result (OpenAi F)
  new_openai model prompt_version timeout_seconds temperature =
      Errors.◌>>◌ (Errors.require (full_match is_identifier 1 64 model) value_error) (
        Errors.◌>>◌ (Errors.require (full_match is_identifier 1 32 prompt_version) value_error) (
          Errors.◌>>◌ (Errors.require (valid_timeout timeout_seconds) value_error) (
            Errors.◌>>◌ (Errors.require (valid_temperature temperature) value_error) (
              ok (record {
                model = model;
                prompt_version = prompt_version;
                timeout_seconds = timeout_seconds;
                temperature = temperature;
              })))))

  module _ {W : Type 0} (outside : Outside F W) (provider : OpenAi F) where
    abbrev pub decision_of :
        String × F × String → (request_time response_time : String) → LlmDecision F
    decision_of (decision, confidence, reason) request_time response_time = record {
      decision = decision;
      confidence = confidence;
      reason = some reason;
      provider = some "openai";
      model = some provider.model;
      prompt_version = some provider.prompt_version;
      request_time = some request_time;
      response_time = some response_time;
    }

    unfoldable pub ask : Request F → Fields F → Act W (LlmDecision F)
    ask request ml = do
      api_key ← outside.get_api_key
      require (valid_key api_key) value_error
      context ← lift (market_context p request ml)
      request_time ← outside.iso_now
      started ← outside.monotonic
      raw ←
          outside.post endpoint (headers_for api_key)
            (encode (
              json_dumps
                (obj (body_of provider.model (json_dumps (obj context)) provider.temperature))))
            provider.timeout_seconds
      response_time ← outside.iso_now
      finished ← outside.monotonic
      require (not (lt provider.timeout_seconds (sub finished started))) timeout_error
      text ← lift (extract_output_text p raw)
      parsed ← lift (parse_llm_decision ⦃p = p⦄ text)
      pure (decision_of parsed request_time response_time)

    -- The properties of the class.
    abbrev pub openai : LlmProvider F W
    openai = record {
      provider_name = pure (some "openai");
      model_name = pure (some provider.model);
      prompt_version = pure (some provider.prompt_version);
      decide = ask;
    }
