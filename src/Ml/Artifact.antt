-- ===== src/Ml/Artifact.antt =====
-- ml.py: `S3MlProvider`, which reads the model once and checks its hash.
use ea_trading_system.Prelude.{ℕ, ◌+◌, String, ◌==◌, Option, none, some, List}
use ea_trading_system.Errors.{ok, value_error}
use ea_trading_system.Act.{Act, pure, lift, require, ◌>>=◌, ◌>>◌}
use ea_trading_system.Python.{Python, full_match, is_hex}
use ea_trading_system.Json.{Value, str}
use ea_trading_system.Validation.Request.{Request}
use ea_trading_system.Ml.Model.{Model, Predicted, from_bytes, predict, max_model_bytes}

-- `get_object` reads at most so many bytes of the object, and the cached model is beside the world.
module _ {F W : Type 0} (p : Python F) (get_object : ℕ → Act W (List ℕ)) where
  abbrev pub Cached : Type 0
  Cached = Option (Model F) × W

  abbrev pub fetch : Act Cached (List ℕ)
  fetch (m, w) = let (r, w') = get_object (max_model_bytes + 1) w in (r, (m, w'))

  abbrev pub keep : Model F → Act Cached (Model F)
  keep model (m, w) = (ok model, (some model, w))

  unfoldable pub load_new : String → Act Cached (Model F)
  load_new expected_sha256 = do
    require (full_match is_hex 64 64 expected_sha256) value_error
    raw ← fetch
    require (p.sha256 raw == expected_sha256) value_error
    model ← lift (from_bytes p raw)
    keep model

  abbrev pub or_load : String → Option (Model F) → Act Cached (Model F)
  or_load expected_sha256 (some model) = pure model
  or_load expected_sha256 none = load_new expected_sha256

  unfoldable pub load : String → Act Cached (Model F)
  load expected_sha256 (m, w) = or_load expected_sha256 m (m, w)

  unfoldable pub predict_cached : String → Request F → Act Cached (Predicted F)
  predict_cached expected_sha256 request =
      load expected_sha256 >>= λ model. lift (predict p model request)

  abbrev version_of : Option (Model F) → Value F
  version_of none = str "not-loaded"
  version_of (some model) = model.model_version

  unfoldable pub cached_version : Cached → Value F
  cached_version (m, w) = version_of m
