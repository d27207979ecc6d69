-- ===== src/Validation/Shape.antt =====
-- validation.py: the keys and the versions of a body that is accepted.
use ea_trading_system.Prelude.{String, ◌≡◌, ap, ◌∙◌, true, some, List, arith, eq_iff}
use ea_trading_system.Errors.{Exc, Result, ok, require, ◌>>=◌, ◌>>◌, >>=-eq-ok}
use ea_trading_system.Json.{Value, Fields, str, obj, get}
use ea_trading_system.Python.{Python}
use ea_trading_system.Validation.Fields.{has_all, only, is_text, item, exact_fields}
use ea_trading_system.Validation.Request.{
  Request, check_strategy, check_header, check_request, check_features, features_of, check_proposal,
  request_of, root_fields, strategy_fields, feature_fields, proposal_fields,
}

module _ {F : Type 0} ⦃p : Python F⦄ where
  -- The value is a dictionary with exactly these keys.
  pub record HasExactly (names : List String) (v : Value F) : Type 0 where
    pub fields : Fields F
    pub is_fields : v ≡ obj fields
    pub has_each : has_all names fields ≡ true
    pub no_other : only names fields ≡ true

  -- The value of a key is a dictionary with exactly these keys.
  pub record HasPart (key : String) (names : List String) (fs : Fields F) : Type 0 where
    pub value : Value F
    pub found : get key fs ≡ some value
    pub part : HasExactly names value

  -- The keys and the versions of the body's value, at its root and in its three parts.
  pub record IsShaped (v : Value F) : Type 0 where
    pub root : HasExactly root_fields v
    pub schema_version : get "schema_version" root.fields ≡ some (str "1.0")
    pub strategy : HasPart "strategy" strategy_fields root.fields
    pub features : HasPart "market_features" feature_fields root.fields
    pub feature_schema_version :
        get "feature_schema_version" features.part.fields ≡ some (str "1.0")
    pub proposal : HasPart "trade_proposal" proposal_fields root.fields

  exact_fields-HasExactly :
      (v : Value F) (names : List String) (path : String) (fs : Fields F)
      → exact_fields v names path ≡ ok fs
      → (v ≡ obj fs) × (has_all names fs ≡ true) × (only names fs ≡ true)
  unfolding exact_fields
  exact_fields-HasExactly v names path fs h = ground arith

  item_lem : (fs : Fields F) (key : String) (v : Value F) → item fs key ≡ ok v → get key fs ≡ some v
  unfolding item
  item_lem fs key v h = ground arith

  is_text_lem : (v : Value F) (text : String) → is_text v text ≡ true → v ≡ str text
  is_text_lem (str s) text h = ap str ((eq_iff s text).0 h)
  is_text_lem v text h = absurd (ground arith)

  -- A version that is required to be 1.0 is read as that.
  version_lem :
      {A : Type 0} (fs : Fields F) (key : String) (e : Exc) (rest : Result A) (a : A)
      → (item fs key >>= λ v. require (is_text v "1.0") e >> rest) ≡ ok a
      → get key fs ≡ some (str "1.0")
  version_lem fs key e rest a h =
      let (v, is, h₁) = >>=-eq-ok (item fs key) (λ v. require (is_text v "1.0") e >> rest) a h in
      item_lem fs key v is ∙ ap some (is_text_lem v "1.0" (ground arith))

  part-HasPart :
      {A : Type 0} (fs : Fields F) (key : String) (names : List String) (path : String)
      (rest : Fields F → Result A) (a : A)
      → (item fs key >>= λ v. exact_fields v names path >>= rest) ≡ ok a
      → (h : HasPart key names fs) × (rest h.part.fields ≡ ok a)
  part-HasPart fs key names path rest a h =
      let (v, e, h₁) = >>=-eq-ok (item fs key) (λ v. exact_fields v names path >>= rest) a h in
      let (gs, e', h₂) = >>=-eq-ok (exact_fields v names path) rest a h₁ in
      let (is, each, only_these) = exact_fields-HasExactly v names path gs e' in
      (
        record {
          value = v;
          found = item_lem fs key v e;
          part = record { fields = gs; is_fields = is; has_each = each; no_other = only_these };
        },
        h₂,
      )

  pub check_request-IsShaped : (v : Value F) (r : Request F) → check_request v ≡ ok r → IsShaped v
  unfolding check_request request_of check_header check_strategy check_features features_of
      check_proposal
  check_request-IsShaped v r h =
      let (fs, e, h₀) = >>=-eq-ok (exact_fields v root_fields "request") _ r h in
      let (is, each, only_these) = exact_fields-HasExactly v root_fields "request" fs e in
      let (header, e₁, h₁) = >>=-eq-ok (check_header fs) _ r h₀ in
      let (strategy, e₂, h₂) = >>=-eq-ok (check_strategy fs) _ r h₁ in
      let (features, e₃, h₃) = >>=-eq-ok (check_features fs) _ r h₂ in
      let (proposal, e₄, h₄) = >>=-eq-ok (check_proposal fs header.direction) _ r h₃ in
      let (feature_part, read) =
        part-HasPart fs "market_features" feature_fields "market_features" features_of features
          e₃ in
      record {
        root = record { fields = fs; is_fields = is; has_each = each; no_other = only_these };
        schema_version = version_lem fs "schema_version" _ _ header e₁;
        strategy = (part-HasPart fs "strategy" strategy_fields "strategy" _ strategy e₂).0;
        features = feature_part;
        feature_schema_version =
            version_lem feature_part.part.fields "feature_schema_version" _ _ features read;
        proposal =
            (part-HasPart fs "trade_proposal" proposal_fields "trade_proposal" _ proposal e₄).0;
      }
