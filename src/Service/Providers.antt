-- ===== src/Service/Providers.antt =====
-- service.py: the constructor of `DecisionService`, and the protocols that it is given
-- (`DecisionRepository` there, `MlInferenceProvider` in ml.py, `LlmDecisionProvider` in llm.py).
use ea_trading_system.Prelude.{ℕ, ℤ, String, Bool, ◌&&◌, not, Option}
use ea_trading_system.Errors.{Result, ok, value_error, require, ◌>>◌}
use ea_trading_system.Act.{Act}
use ea_trading_system.Json.{Fields}
use ea_trading_system.Python.{Python}
use ea_trading_system.Validation.Request.{Request}

-- What `get_decision` returns: {"body_hash": ..., "response": ...}
pub record Saved (F : Type 0) : Type 0 where
  pub body_hash : String
  pub response : Fields F

pub record DecisionRepository (F W : Type 0) : Type 0 where
  pub get_decision : String → Act W (Option (Saved F))
  -- request id, hash of the body, response, time to live, audit
  pub save_decision : String → String → Fields F → ℤ → Fields F → Act W (Unit {0})

pub record MlPrediction (F : Type 0) : Type 0 where
  pub win_probability : F
  pub expected_return : F
  pub model_version : String

-- A property that may hold anything is `none` where its value is not a text.
pub record MlProvider (F W : Type 0) : Type 0 where
  pub predict : Request F → Act W (MlPrediction F)
  pub model_version : Act W (Option String)

-- `none` where the value is not a text.
pub record LlmDecision (F : Type 0) : Type 0 where
  pub decision : String
  pub confidence : F
  pub reason : Option String
  pub provider : Option String
  pub model : Option String
  pub prompt_version : Option String
  pub request_time : Option String
  pub response_time : Option String

pub record LlmProvider (F W : Type 0) : Type 0 where
  pub provider_name : Act W (Option String)
  pub model_name : Act W (Option String)
  pub prompt_version : Act W (Option String)
  pub decide : Request F → Fields F → Act W (LlmDecision F)

pub record Settings (F W : Type 0) : Type 0 where
  pub min_win_probability : F
  pub min_expected_return : F
  pub response_ttl_seconds : ℕ
  pub llm_shadow_mode : Bool
  pub remaining_seconds : Option (Act W F)
  pub llm_min_remaining_seconds : F

module _ {F : Type 0} ⦃p : Python F⦄ where
  open p use {lit, is_finite, le, lt}

  -- `0.0 <= x <= 1.0`
  abbrev pub is_rate : F → Bool
  is_rate x = le (lit 0) x && le x (lit 1)

  -- `__init__`: the thresholds are checked, the rest is kept as it is given.
  unfoldable pub new_service : {W : Type 0} → Settings F W → Result (Settings F W)
  new_service s = do
    require (is_rate s.min_win_probability && is_finite s.min_expected_return) value_error
    require (is_finite s.llm_min_remaining_seconds && not (lt s.llm_min_remaining_seconds (lit 0)))
        value_error
    ok s
