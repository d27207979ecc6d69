-- ===== src/Tests/Predicting.antt =====
-- A model artifact, and an answer of the language model's provider.
use ea_trading_system.Prelude.{
  ℕ, ◌+◌, pos, String, ◌≡◌, inl, refl, true, some, List, [], ◌∷◌, ◌==◌, ltb, if◌then◌else◌, arith,
}
use ea_trading_system.Errors.{ok}
use ea_trading_system.Act.{Act}
use ea_trading_system.Json.{
  Raw, RawItems, RawPairs, pair, Value, Fields, Items, field, null, whole, reject_duplicates,
  read_value, read_items, read_pairs,
}
use ea_trading_system.Python.{Python, full_match, has_control}
use ea_trading_system.Validation.Fields.{item, is_member}
use ea_trading_system.Service.Providers.{LlmDecision}
use ea_trading_system.Ml.Features.{quotient}
use ea_trading_system.Ml.Model.{
  Model, finite_value, finite_values, vector, check_scope, new_model, sigmoid,
}
use ea_trading_system.Ml.Checked.{FloatLaws, IsModel, new_model-IsModel, sigmoid-bounds}
use ea_trading_system.Llm.Reading.{
  exact, read_reason, content_texts, output_texts, text_of_response, read_confidence, read_decision,
  parts_of, parse_llm_decision, extract_output_text,
}
use ea_trading_system.Llm.Prompt.{market_context}
use ea_trading_system.Llm.OpenAi.{OpenAi, Outside, ask}
use ea_trading_system.Llm.Timely.{IsTimely, ask-IsTimely}
use ea_trading_system.Tests.World.{python_with, signature, request}

abbrev one : Raw ℕ
one = Raw.num (whole (pos 1))

abbrev ones_from : List String → RawItems ℕ
ones_from [] = RawItems.nil
ones_from (t ∷ ts) = RawItems.cons one (ones_from ts)

abbrev texts_from : List String → RawItems ℕ
texts_from [] = RawItems.nil
texts_from (t ∷ ts) = RawItems.cons (Raw.str t) (texts_from ts)

abbrev names : List String
names =
    "direction" ∷ "rsi" ∷ "atr_ratio" ∷ "ema_distance_ratio" ∷ "directional_ema_distance"
    ∷ "recent_return" ∷ "volatility" ∷ "spread_points" ∷ "hour_sin" ∷ "hour_cos" ∷ "day_sin"
    ∷ "day_cos" ∷ "risk_reward_ratio" ∷ "stop_distance_ratio" ∷ "take_distance_ratio" ∷ []

abbrev raw_pairs : List (String × Raw ℕ) → RawPairs ℕ
raw_pairs [] = RawPairs.end
raw_pairs ((k, v) ∷ rest) = pair k v (raw_pairs rest)

abbrev raw_model : Raw ℕ
raw_model = Raw.obj (
    raw_pairs (
      ("schema_version", Raw.str "1.0")
      ∷ ("feature_schema_version", Raw.str "1.0")
      ∷ ("model_version", Raw.str "model-1")
      ∷ ("model_type", Raw.str "linear_logistic_ridge_v1")
      ∷ ("symbol", Raw.str "USDJPY")
      ∷ ("timeframe", Raw.str "H1")
      ∷ ("feature_names", Raw.arr (texts_from names))
      ∷ ("mean", Raw.arr (ones_from names))
      ∷ ("scale", Raw.arr (ones_from names))
      ∷ ("win_coefficients", Raw.arr (ones_from names))
      ∷ ("win_intercept", one)
      ∷ ("calibration_coefficient", one)
      ∷ ("calibration_intercept", one)
      ∷ ("return_coefficients", Raw.arr (ones_from names))
      ∷ ("return_intercept", one)
      ∷ []))

abbrev raw_response : Raw ℕ
raw_response = Raw.obj (
    raw_pairs (
      ("status", Raw.str "completed")
      ∷ (
        "output",
        Raw.arr (
            RawItems.cons
              (Raw.obj (
                raw_pairs (
                  ("type", Raw.str "message")
                  ∷ (
                    "content",
                    Raw.arr (
                        RawItems.cons
                          (Raw.obj (
                            raw_pairs
                              (("type", Raw.str "output_text") ∷ ("text", Raw.str "answer") ∷ [])))
                          RawItems.nil),
                  )
                  ∷ [])))
              RawItems.nil),
      )
      ∷ []))

abbrev raw_answer : Raw ℕ
raw_answer = Raw.obj (
    raw_pairs
      (("decision", Raw.str "VETO") ∷ ("confidence", one) ∷ ("reason", Raw.str "wide spread") ∷ []))

abbrev cut : ℕ → ℕ → ℕ
cut a b = if ltb a 1 then 0 else 1

-- Bytes have the hash `signature`; a quotient is cut at 1.
abbrev models : Python ℕ
models = python_with signature cut (λ s. raw_model) null

abbrev answers : Python ℕ
answers = python_with signature cut (λ s. if s == "answer" then raw_answer else raw_response) null

abbrev ones : List String → List ℕ
ones [] = []
ones (t ∷ ts) = 1 ∷ ones ts

abbrev model : Model ℕ
model = record {
  model_version = Value.str "model-1";
  symbol = "USDJPY";
  timeframe = "H1";
  mean = ones names;
  scale = ones names;
  win_coefficients = ones names;
  return_coefficients = ones names;
  win_intercept = 1;
  calibration_coefficient = 1;
  calibration_intercept = 1;
  return_intercept = 1;
}

abbrev get_object : ℕ → Act ℕ (List ℕ)
get_object limit w = (ok (123 ∷ 125 ∷ []), w + 1)

abbrev items_of : List String → Items ℕ
items_of [] = Items.nil
items_of (t ∷ ts) = Items.cons (Value.num (whole (pos 1))) (items_of ts)

abbrev text_items : List String → Items ℕ
text_items [] = Items.nil
text_items (t ∷ ts) = Items.cons (Value.str t) (text_items ts)

abbrev fields_of : List (String × Value ℕ) → Fields ℕ
fields_of [] = Fields.end
fields_of ((k, v) ∷ rest) = field k v (fields_of rest)

abbrev number : Value ℕ
number = Value.num (whole (pos 1))

abbrev artifact : Fields ℕ
artifact = fields_of (
    ("schema_version", Value.str "1.0")
    ∷ ("feature_schema_version", Value.str "1.0")
    ∷ ("model_version", Value.str "model-1")
    ∷ ("model_type", Value.str "linear_logistic_ridge_v1")
    ∷ ("symbol", Value.str "USDJPY")
    ∷ ("timeframe", Value.str "H1")
    ∷ ("feature_names", Value.arr (text_items names))
    ∷ ("mean", Value.arr (items_of names))
    ∷ ("scale", Value.arr (items_of names))
    ∷ ("win_coefficients", Value.arr (items_of names))
    ∷ ("win_intercept", number)
    ∷ ("calibration_coefficient", number)
    ∷ ("calibration_intercept", number)
    ∷ ("return_coefficients", Value.arr (items_of names))
    ∷ ("return_intercept", number)
    ∷ [])

artifact_accepted : new_model models artifact ≡ ok model
unfolding new_model check_scope vector finite_values finite_value item full_match
artifact_accepted = refl

new_model-IsModel_example : IsModel models model
new_model-IsModel_example = new_model-IsModel models artifact model artifact_accepted

float_laws : FloatLaws models
float_laws = record {
  neg_le = λ x h. refl;
  exp_small = λ x h. (1, refl, refl, refl);
  add_one = λ e low high. (ground arith, ground arith, ground arith, refl);
  one_positive = refl;
  div_bounds = λ a b low high nonzero finite. (ground arith, ground arith);
}

sigmoid-bounds_example :
    (y : ℕ) × (sigmoid models 2 ≡ ok y) × (models.le 0 y ≡ true) × (models.le y 1 ≡ true)
sigmoid-bounds_example = sigmoid-bounds models float_laws 2 (inl refl)

-- Each reading of the clock takes a second.
abbrev outside : Outside ℕ ℕ
outside = record {
  get_api_key = λ w. (ok "sk-0123456789abcdefghij", w);
  post = λ url headers body timeout w. (ok (123 ∷ 125 ∷ []), w);
  iso_now = λ w. (ok "1970-01-01T00:16:40Z", w);
  monotonic = λ w. (ok w, w + 1);
}

abbrev provider : OpenAi ℕ
provider = record {
  model = "model";
  prompt_version = "trade-filter-v1";
  timeout_seconds = 3;
  temperature = some 0;
}

abbrev ml_report : Fields ℕ
ml_report = fields_of (
    ("win_probability", number)
    ∷ ("expected_return", number)
    ∷ ("model_version", Value.str "model-1")
    ∷ [])

abbrev vetoed : LlmDecision ℕ
vetoed = record {
  decision = "VETO";
  confidence = 1;
  reason = some "wide spread";
  provider = some "openai";
  model = some "model";
  prompt_version = some "trade-filter-v1";
  request_time = some "1970-01-01T00:16:40Z";
  response_time = some "1970-01-01T00:16:40Z";
}

asked : ask answers outside provider request ml_report 0 ≡ (ok vetoed, 2)
unfolding ask market_context quotient item extract_output_text text_of_response output_texts
    content_texts parse_llm_decision exact parts_of read_decision read_confidence read_reason
    is_member has_control read_value read_items read_pairs reject_duplicates
asked = refl

ask-IsTimely_example : IsTimely answers outside provider vetoed 0 2
ask-IsTimely_example = ask-IsTimely answers outside provider request ml_report 0 vetoed 2 asked
