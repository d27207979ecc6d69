-- ===== src/Monitoring.antt =====
-- services/decision_api/src/decision_api/monitoring.py: `emit_emf`, as the payload that it prints, if
-- it prints one.
use ea_trading_system.Prelude.{
  ℤ, String, ◌==◌, Bool, true, false, ◌&&◌, ◌||◌, not, nat_eq, Option, none, some, List, [], ◌∷◌,
  one_of, map, All, ◌≡◌, refl, arith, if◌then◌else◌,
}
use Prim.Native.Char.{code}
use ea_trading_system.Errors.{Result, ok, err, ok_path, >>=-eq-ok, ◌>>=◌}
use ea_trading_system.Json.{
  Number, whole, floating, Value, Items, Fields, null, bool, num, str, arr, obj, nil, cons, end,
  field, has_key, dict,
}
use ea_trading_system.Python.{Python, full_match, is_identifier}

-- A metric: its name, its value and its unit.
abbrev pub Metric : Type 0 → Type 0
Metric F = String × Number F × String

abbrev pub allowed_units : List String
allowed_units = "Count" ∷ "Milliseconds" ∷ []

abbrev pub extra_dimension_names : List String
extra_dimension_names = "EaId" ∷ []

-- `name.replace("_", "")`
abbrev without_underscores : String → String
without_underscores String.[] = ""
without_underscores (String.◌∷◌ c s) =
    let rest = without_underscores s in if nat_eq (code c) b'_' then rest else String.◌∷◌ c rest

abbrev get_or : Option String → String → String
get_or none default = default
get_or (some s) default = s

module _ {F : Type 0} (p : Python F) (is_alnum : String → Bool)
    (environ : String → Option String) where
  open p use {lt, lit, is_finite, to_float, lower}

  -- The dimensions, or `none` where one is not allowed.
  unfoldable pub dimension_values : List (String × Value F) → Option (List (String × String))
  dimension_values [] = some []
  dimension_values ((name, str v) ∷ rest) =
      let later = dimension_values rest in
      if one_of extra_dimension_names name && full_match is_identifier 1 64 v
      then with_first name v later
      else none
    where
      with_first :
          String → String → Option (List (String × String)) → Option (List (String × String))
      with_first name v none = none
      with_first name v (some ds) = some ((name, v) ∷ ds)
  dimension_values ((name, null) ∷ rest) = none
  dimension_values ((name, v) ∷ rest) = none

  abbrev pub is_enabled : Bool
  is_enabled =
      one_of ("1" ∷ "true" ∷ "yes" ∷ []) (lower (get_or (environ "METRICS_ENABLED") "true"))

  abbrev pub is_valid_metric : String → F → String → Bool
  is_valid_metric name numeric unit =
      is_alnum (without_underscores name)
      && one_of allowed_units unit
      && is_finite numeric
      && not (lt numeric (lit 0))

  -- The metrics that are kept; `float(value)` may raise.
  unfoldable pub valid_metrics : List (Metric F) → Result (List (Metric F))
  valid_metrics [] = ok []
  valid_metrics ((name, value, unit) ∷ rest) = do
    numeric ← to_float value
    later ← valid_metrics rest
    ok (if is_valid_metric name numeric unit then (name, value, unit) ∷ later else later)

  -- `payload[key] = value`
  abbrev pub set_field : String → Value F → Fields F → Fields F
  set_field k v end = field k v end
  set_field k v (field j w rest) =
      let later = set_field k v rest in if j == k then field j v rest else field j w later

  abbrev with_metrics : List (Metric F) → Fields F → Fields F
  with_metrics [] payload = payload
  with_metrics ((name, value, unit) ∷ rest) payload =
      with_metrics rest (set_field name (num value) payload)

  -- A text, a Boolean, or a number that is not an infinity or a NaN.
  abbrev is_plain : Value F → Bool
  is_plain (str s) = true
  is_plain (bool b) = true
  is_plain (num (whole n)) = true
  is_plain (num (floating x)) = is_finite x
  is_plain null = false
  is_plain _ = false

  unfoldable pub with_properties : List (String × Value F) → Fields F → Fields F
  with_properties [] payload = payload
  with_properties ((key, v) ∷ rest) payload = with_properties rest (
      if not (has_key key payload) && not (key == "_aws") && is_plain v
      then set_field key v payload
      else payload)

  abbrev definition_of : Metric F → Value F
  definition_of (name, value, unit) = obj (dict (("Name", str name) ∷ ("Unit", str unit) ∷ []))

  abbrev items_of : List (Value F) → Items F
  items_of [] = nil
  items_of (v ∷ vs) = cons v (items_of vs)

  abbrev name_of : String × String → Value F
  name_of (name, v) = str name

  abbrev entry_of : String × String → String × Value F
  entry_of (name, v) = (name, str v)

  unfoldable pub aws_of : ℤ → String → List (String × String) → List (Metric F) → Value F
  aws_of now_ms namespace dimensions metrics = obj (
      dict (
        ("Timestamp", num (whole now_ms))
        ∷ (
          "CloudWatchMetrics",
          arr (
              items_of (
                obj (
                  dict (
                    ("Namespace", str namespace)
                    ∷ (
                      "Dimensions",
                      arr (
                          items_of (
                            arr (
                              items_of (str "Environment" ∷ str "Service" ∷ map name_of dimensions))
                            ∷ [])),
                    )
                    ∷ ("Metrics", arr (items_of (map definition_of metrics)))
                    ∷ []))
                ∷ [])),
        )
        ∷ []))

  abbrev payload_of :
      (service environment namespace : String)
      → ℤ
      → List (String × Value F)
      → List (String × String)
      → Result (List (Metric F))
      → Option (Fields F)
  payload_of service environment namespace now_ms properties dimensions (err e) = none
  payload_of service environment namespace now_ms properties dimensions (ok []) = none
  payload_of service environment namespace now_ms properties dimensions (ok (m ∷ ms)) = some (
      set_field "_aws" (aws_of now_ms namespace dimensions (m ∷ ms)) (
        with_properties properties (
          with_metrics (m ∷ ms) (
            dict (
              ("Environment", str environment)
              ∷ ("Service", str service)
              ∷ map entry_of dimensions)))))

  abbrev with_dimensions :
      (service : String)
      → List (Metric F)
      → List (String × Value F)
      → ℤ
      → Option (List (String × String))
      → Option (Fields F)
  with_dimensions service metrics properties now_ms none = none
  with_dimensions service metrics properties now_ms (some dimensions) =
      let environment = get_or (environ "ENVIRONMENT") "unknown" in
      let namespace = get_or (environ "METRIC_NAMESPACE") "EaTradingSystem" in
      if is_enabled && not (service == "" || environment == "" || namespace == "")
      then payload_of service environment namespace now_ms properties dimensions
          (valid_metrics metrics)
      else none

  -- `time.time() * 1000` is a parameter; an exception prints nothing.
  unfoldable pub emit_emf :
      (service : String)
      → List (Metric F)
      → List (String × Value F)
      → (extra : List (String × Value F)) → ℤ
      → Option (Fields F)
  emit_emf service metrics properties extra now_ms =
      with_dimensions service metrics properties now_ms (dimension_values extra)

  -- A metric that is emitted has an allowed unit.
  abbrev pub HasUnit : Metric F → Type 0
  HasUnit (name, value, unit) = one_of allowed_units unit ≡ true

  pub valid_metrics-HasUnit : (ms ks : List (Metric F)) → valid_metrics ms ≡ ok ks → All HasUnit ks
  unfolding valid_metrics
  valid_metrics-HasUnit [] ks h = rw (← ok_path h) tt
  valid_metrics-HasUnit ((name, value, unit) ∷ rest) ks h =
      let (x, e, h₁) = >>=-eq-ok (to_float value) _ ks h in
      let (later, e₁, h₂) = >>=-eq-ok (valid_metrics rest) _ ks h₁ in
      let kept = valid_metrics-HasUnit rest later e₁ in
      rw (← ok_path h₂) (
        elim (is_valid_metric name x unit)
            as (λ b.
              is_valid_metric name x unit ≡ b
              → All HasUnit (if b then (name, value, unit) ∷ later else later)) [
                | true ↦ λ valid. (ground (arith, valid), kept)
                | false ↦ λ invalid. kept
              ]
          refl)
