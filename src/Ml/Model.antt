-- ===== src/Ml/Model.antt =====
-- ml.py: the checks of a model artifact, and its prediction.
use ea_trading_system.Prelude.{
  ℕ, String, Bool, true, false, ◌==◌, ◌&&◌, not, any, length, nat_eq, leb, Option, none, some, List,
  [], ◌∷◌, if◌then◌else◌,
}
use ea_trading_system.Errors.{Result, ok, err, value_error, type_error, require, ◌>>=◌, ◌>>◌}
use ea_trading_system.Json.{
  whole, floating, Value, Items, Fields, null, bool, num, str, arr, obj, nil, cons, keys,
  read_value,
}
use ea_trading_system.Python.{Python, full_match, is_identifier}
use ea_trading_system.Validation.Fields.{same_keys, item, is_text}
use ea_trading_system.Validation.Request.{Request}
use ea_trading_system.Ml.Features.{feature_names, feature_vector, quotient}

abbrev pub model_fields : List String
model_fields =
    "schema_version" ∷ "feature_schema_version" ∷ "model_version" ∷ "model_type" ∷ "symbol"
    ∷ "timeframe" ∷ "feature_names" ∷ "mean" ∷ "scale" ∷ "win_coefficients" ∷ "win_intercept"
    ∷ "calibration_coefficient" ∷ "calibration_intercept" ∷ "return_coefficients"
    ∷ "return_intercept" ∷ []

abbrev pub max_model_bytes : ℕ
max_model_bytes = 65_536

-- `LinearJsonMlProvider`. The version is kept as it was read.
pub record Model (F : Type 0) : Type 0 where
  pub model_version : Value F
  pub symbol : String
  pub timeframe : String
  pub mean : List F
  pub scale : List F
  pub win_coefficients : List F
  pub return_coefficients : List F
  pub win_intercept : F
  pub calibration_coefficient : F
  pub calibration_intercept : F
  pub return_intercept : F

-- `MlPrediction`, with the version as it was read.
pub record Predicted (F : Type 0) : Type 0 where
  pub win_probability : F
  pub expected_return : F
  pub model_version : Value F

abbrev pub same_texts : List String → List String → Bool
same_texts [] [] = true
same_texts (a ∷ rest) (b ∷ bs) = (a == b) && same_texts rest bs
same_texts [] (b ∷ bs) = false
same_texts (a ∷ rest) [] = false

module _ {F : Type 0} where
  abbrev pub are_texts : Items F → List String → Bool
  are_texts nil [] = true
  are_texts (cons v vs) (t ∷ ts) = is_text v t && are_texts vs ts
  are_texts nil (t ∷ ts) = false
  are_texts (cons v vs) [] = false

  -- `tuple(value) == names`: a dictionary gives its keys, a text its characters, and another value
  -- raises TypeError.
  abbrev pub is_tuple : Value F → List String → Result Bool
  is_tuple (arr vs) names = ok (are_texts vs names)
  is_tuple (obj fs) names = ok (same_texts (keys fs) names)
  is_tuple (str s) names = ok false
  is_tuple null names = err type_error
  is_tuple (bool b) names = err type_error
  is_tuple (num n) names = err type_error

  abbrev pub text_or_raise : Value F → Result String
  text_or_raise (str s) = ok s
  text_or_raise null = err value_error
  text_or_raise _ = err value_error

module _ {F : Type 0} (p : Python F) where
  open p use {lit, le, lt, add, sub, mul, neg, exp, is_finite, to_float, sum, show_int, show_float}

  -- `str(value)`; that of a list or a dictionary has a bracket, which no version has.
  abbrev pub str_of : Value F → String
  str_of (str s) = s
  str_of null = "None"
  str_of (bool b) = if b then "True" else "False"
  str_of (num (whole n)) = show_int n
  str_of (num (floating x)) = show_float x
  str_of (arr vs) = "[]"
  str_of (obj fs) = "{}"

  unfoldable pub finite_value : Value F → Result F
  finite_value (num n) = do x ← to_float n; require (is_finite x) value_error; ok x
  finite_value null = err value_error
  finite_value _ = err value_error

  unfoldable pub finite_values : Items F → Result (List F)
  finite_values nil = ok []
  finite_values (cons v vs) = do x ← finite_value v; xs ← finite_values vs; ok (x ∷ xs)

  abbrev pub item_count : Items F → ℕ
  item_count nil = 0
  item_count (cons v vs) = ℕ.suc (item_count vs)

  -- `any(item <= 0 for item in result)`
  abbrev pub has_nonpositive : List F → Bool
  has_nonpositive xs = any (λ x. le x (lit 0)) xs

  unfoldable pub vector : Value F → Bool → Result (List F)
  vector (arr vs) positive = do
    require (nat_eq (item_count vs) (length feature_names)) value_error
    xs ← finite_values vs
    require (not (positive && has_nonpositive xs)) value_error
    ok xs
  vector null positive = err value_error
  vector _ positive = err value_error

  abbrev pub read_vector : Fields F → String → Bool → Result (List F)
  read_vector fs key positive = item fs key >>= λ v. vector v positive

  abbrev pub read_finite : Fields F → String → Result F
  read_finite fs key = item fs key >>= λ v. finite_value v

  -- The checks of `__init__` before the numbers: the version and the scope of the model.
  unfoldable pub check_scope : Fields F → Result (Value F × String × String)
  check_scope fs = do
    require (same_keys model_fields fs) value_error
    schema ← item fs "schema_version"
    features ← item fs "feature_schema_version"
    require (is_text schema "1.0" && is_text features "1.0") value_error
    model_type ← item fs "model_type"
    require (is_text model_type "linear_logistic_ridge_v1") value_error
    names ← item fs "feature_names"
    known ← is_tuple names feature_names
    require known value_error
    version ← item fs "model_version"
    require (full_match is_identifier 1 64 (str_of version)) value_error
    symbol ← item fs "symbol" >>= text_or_raise
    timeframe ← item fs "timeframe" >>= text_or_raise
    ok (version, symbol, timeframe)

  -- `__init__`
  unfoldable pub new_model : Fields F → Result (Model F)
  new_model fs = do
    (version, symbol, timeframe) ← check_scope fs
    mean ← read_vector fs "mean" false
    scale ← read_vector fs "scale" true
    win_coefficients ← read_vector fs "win_coefficients" false
    return_coefficients ← read_vector fs "return_coefficients" false
    win_intercept ← read_finite fs "win_intercept"
    calibration_coefficient ← read_finite fs "calibration_coefficient"
    calibration_intercept ← read_finite fs "calibration_intercept"
    return_intercept ← read_finite fs "return_intercept"
    ok (record {
      model_version = version;
      symbol = symbol;
      timeframe = timeframe;
      mean = mean;
      scale = scale;
      win_coefficients = win_coefficients;
      return_coefficients = return_coefficients;
      win_intercept = win_intercept;
      calibration_coefficient = calibration_coefficient;
      calibration_intercept = calibration_intercept;
      return_intercept = return_intercept;
    })

  abbrev of_object : Value F → Result (Model F)
  of_object (obj fs) = new_model fs
  of_object null = err value_error
  of_object _ = err value_error

  abbrev of_text : Option String → Result (Model F)
  of_text none = err value_error
  of_text (some text) = p.json_raw text >>= λ raw. read_value raw >>= λ v. of_object v

  unfoldable pub from_bytes : List ℕ → Result (Model F)
  from_bytes raw = do
    require (leb 1 (length raw) && leb (length raw) max_model_bytes) value_error
    of_text (p.decode raw)

  unfoldable pub sigmoid : F → Result F
  sigmoid value =
      if le (lit 0) value
      then (exp (neg value) >>= λ e. quotient p (lit 1) (add (lit 1) e))
      else (exp value >>= λ e. quotient p e (add (lit 1) e))

  unfoldable pub standardized : List F → List F → List F → Result (List F)
  standardized (x ∷ xs) (m ∷ ms) (s ∷ ss) = do
    z ← quotient p (sub x m) s
    zs ← standardized xs ms ss
    ok (z ∷ zs)
  standardized [] ms ss = ok []
  standardized (x ∷ xs) [] ss = ok []
  standardized (x ∷ xs) (m ∷ ms) [] = ok []

  -- `c * x for c, x in zip(coefficients, values)`
  abbrev pub products : List F → List F → List F
  products (c ∷ cs) (x ∷ xs) = mul c x ∷ products cs xs
  products [] xs = []
  products (c ∷ cs) [] = []

  unfoldable pub predict : Model F → Request F → Result (Predicted F)
  predict model request = do
    require
        ((request.header.symbol == model.symbol) && (request.header.timeframe == model.timeframe))
        value_error
    raw ← feature_vector p request
    z ← standardized raw model.mean model.scale
    probability ← sigmoid (
        add model.calibration_intercept (
          mul model.calibration_coefficient
            (add model.win_intercept (sum (products model.win_coefficients z)))))
    expected ← ok (add model.return_intercept (sum (products model.return_coefficients z)))
    require (is_finite probability && is_finite expected) value_error
    ok (record {
      win_probability = probability;
      expected_return = expected;
      model_version = model.model_version;
    })
