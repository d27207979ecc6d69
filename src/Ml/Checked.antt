-- ===== src/Ml/Checked.antt =====
-- ml.py: what the checks of a model ensure, and the range of the probability.
use ea_trading_system.Prelude.{
  suc, String, ◌&&◌, not, All, length, nat_eq, ◌≡◌, ◌⊎◌, inl, inr, refl, sym, ap, ◌∙◌, Bool-cases,
  Bool, true, false, List, arith,
}
use ea_trading_system.Errors.{Result, ok, value_error, require, >>=-eq-ok, require-eq-ok, ok_path}
use ea_trading_system.Json.{Value, Items, Fields, null, bool, num, str, arr, obj, nil, cons}
use ea_trading_system.Python.{Python}
use ea_trading_system.Validation.Fields.{item}
use ea_trading_system.Ml.Features.{feature_names, quotient}
use ea_trading_system.Ml.Model.{
  Model, finite_value, finite_values, item_count, has_nonpositive, vector, read_vector, read_finite,
  check_scope, new_model, sigmoid,
}

-- What `_sigmoid` relies on of the floats: the exponential of a number that is not positive is
-- between 0 and 1, -x is not positive for x that is not negative, and a quotient of a number by a
-- finite one that is at least as large and not 0 is between 0 and 1.
pub record FloatLaws {F : Type 0} (p : Python F) : Type 0 where
  pub neg_le : (x : F) → p.le (p.lit 0) x ≡ true → p.le (p.neg x) (p.lit 0) ≡ true
  pub exp_small :
      (x : F)
      → p.le x (p.lit 0) ≡ true
      → (e : F) × (p.exp x ≡ ok e) × (p.le (p.lit 0) e ≡ true) × (p.le e (p.lit 1) ≡ true)
  pub add_one :
      (e : F)
      → p.le (p.lit 0) e ≡ true
      → p.le e (p.lit 1) ≡ true
      → (p.le (p.lit 1) (p.add (p.lit 1) e) ≡ true)
        × (p.le e (p.add (p.lit 1) e) ≡ true)
        × (p.eq (p.add (p.lit 1) e) (p.lit 0) ≡ false)
        × (p.is_finite (p.add (p.lit 1) e) ≡ true)
  pub one_positive : p.le (p.lit 0) (p.lit 1) ≡ true
  pub div_bounds :
      (a b : F)
      → p.le (p.lit 0) a ≡ true
      → p.le a b ≡ true
      → p.eq b (p.lit 0) ≡ false
      → p.is_finite b ≡ true
      → (p.le (p.lit 0) (p.div a b) ≡ true) × (p.le (p.div a b) (p.lit 1) ≡ true)

module _ {F : Type 0} (p : Python F) where
  finite_value_lem : (v : Value F) (x : F) → finite_value p v ≡ ok x → p.is_finite x ≡ true
  unfolding finite_value
  finite_value_lem (num n) x h =
      let (y, e, h₁) = >>=-eq-ok (p.to_float n) _ x h in
      let (u, e₁, h₂) = >>=-eq-ok (require (p.is_finite y) value_error) _ x h₁ in
      ap p.is_finite (sym (ok_path h₂)) ∙ require-eq-ok (p.is_finite y) value_error u e₁
  finite_value_lem null x h = absurd (ground arith)
  finite_value_lem (bool b) x h = absurd (ground arith)
  finite_value_lem (str s) x h = absurd (ground arith)
  finite_value_lem (arr vs) x h = absurd (ground arith)
  finite_value_lem (obj fs) x h = absurd (ground arith)

  finite_values_lem :
      (vs : Items F) (xs : List F)
      → finite_values p vs ≡ ok xs
      → (length xs ≡ item_count p vs) × All (λ x. p.is_finite x ≡ true) xs
  unfolding finite_values
  finite_values_lem nil xs h = rw (← ok_path h) (refl, tt)
  finite_values_lem (cons v vs) xs h =
      let (x, e, h₁) = >>=-eq-ok (finite_value p v) _ xs h in
      let (rest, e₁, h₂) = >>=-eq-ok (finite_values p vs) _ xs h₁ in
      let (l, f) = finite_values_lem vs rest e₁ in
      rw (← ok_path h₂) (ap suc l, (finite_value_lem v x e, f))

  -- A weight for each feature, and each one finite.
  abbrev pub IsVector : List F → Type 0
  IsVector xs = (length xs ≡ length feature_names) × All (λ x. p.is_finite x ≡ true) xs

  vector-IsVector :
      (v : Value F) (positive : Bool) (xs : List F)
      → vector p v positive ≡ ok xs
      → IsVector xs × ((positive && has_nonpositive p xs) ≡ false)
  unfolding vector
  vector-IsVector (arr vs) positive xs h =
      let (u, e, h₁) =
        >>=-eq-ok (require (nat_eq (item_count p vs) (length feature_names)) value_error) _ xs h in
      let (ys, e₁, h₂) = >>=-eq-ok (finite_values p vs) _ xs h₁ in
      let (u', e₂, h₃) =
        >>=-eq-ok (require (not (positive && has_nonpositive p ys)) value_error) _ xs h₂ in
      let (l, f) = finite_values_lem vs ys e₁ in
      let counted : nat_eq (item_count p vs) 15 ≡ true = require-eq-ok _ value_error u e in
      let checked : not (positive && has_nonpositive p ys) ≡ true =
        require-eq-ok _ value_error u' e₂ in
      rw (← ok_path h₃) ((l ∙ ground (arith, counted), f), ground (arith, checked))
  vector-IsVector null positive xs h = absurd (ground arith)
  vector-IsVector (bool b) positive xs h = absurd (ground arith)
  vector-IsVector (str s) positive xs h = absurd (ground arith)
  vector-IsVector (num n) positive xs h = absurd (ground arith)
  vector-IsVector (obj fs) positive xs h = absurd (ground arith)

  -- Every number of a model is finite, each feature has its weights, and no scale is zero or negative.
  pub record IsModel (m : Model F) : Type 0 where
    pub mean : IsVector m.mean
    pub scale : IsVector m.scale
    pub positive : has_nonpositive p m.scale ≡ false
    pub win_coefficients : IsVector m.win_coefficients
    pub return_coefficients : IsVector m.return_coefficients
    pub win_intercept : p.is_finite m.win_intercept ≡ true
    pub calibration_coefficient : p.is_finite m.calibration_coefficient ≡ true
    pub calibration_intercept : p.is_finite m.calibration_intercept ≡ true
    pub return_intercept : p.is_finite m.return_intercept ≡ true

  read_vector-IsVector :
      (fs : Fields F) (key : String) (positive : Bool) (xs : List F)
      → read_vector p fs key positive ≡ ok xs
      → IsVector xs × ((positive && has_nonpositive p xs) ≡ false)
  read_vector-IsVector fs key positive xs h =
      let (v, e, h₁) = >>=-eq-ok (item fs key) _ xs h in vector-IsVector v positive xs h₁

  read_finite_lem :
      (fs : Fields F) (key : String) (x : F) → read_finite p fs key ≡ ok x → p.is_finite x ≡ true
  read_finite_lem fs key x h =
      let (v, e, h₁) = >>=-eq-ok (item fs key) _ x h in finite_value_lem v x h₁

  -- A model that is accepted has a finite weight for each feature, finite intercepts, and no scale that
  -- is zero or negative.
  pub new_model-IsModel : (fs : Fields F) (m : Model F) → new_model p fs ≡ ok m → IsModel m
  unfolding new_model
  new_model-IsModel fs m h =
      let (scope, e, h₁) = >>=-eq-ok (check_scope p fs) _ m h in
      let (mean, e₁, h₂) = >>=-eq-ok (read_vector p fs "mean" false) _ m h₁ in
      let (scale, e₂, h₃) = >>=-eq-ok (read_vector p fs "scale" true) _ m h₂ in
      let (win, e₃, h₄) = >>=-eq-ok (read_vector p fs "win_coefficients" false) _ m h₃ in
      let (gain, e₄, h₅) = >>=-eq-ok (read_vector p fs "return_coefficients" false) _ m h₄ in
      let (a, e₅, h₆) = >>=-eq-ok (read_finite p fs "win_intercept") _ m h₅ in
      let (b, e₆, h₇) = >>=-eq-ok (read_finite p fs "calibration_coefficient") _ m h₆ in
      let (c, e₇, h₈) = >>=-eq-ok (read_finite p fs "calibration_intercept") _ m h₇ in
      let (d, e₈, h₉) = >>=-eq-ok (read_finite p fs "return_intercept") _ m h₈ in
      rw (← ok_path h₉) (record {
        mean = (read_vector-IsVector fs "mean" false mean e₁).0;
        scale = (read_vector-IsVector fs "scale" true scale e₂).0;
        positive = (read_vector-IsVector fs "scale" true scale e₂).1;
        win_coefficients = (read_vector-IsVector fs "win_coefficients" false win e₃).0;
        return_coefficients = (read_vector-IsVector fs "return_coefficients" false gain e₄).0;
        win_intercept = read_finite_lem fs "win_intercept" a e₅;
        calibration_coefficient = read_finite_lem fs "calibration_coefficient" b e₆;
        calibration_intercept = read_finite_lem fs "calibration_intercept" c e₇;
        return_intercept = read_finite_lem fs "return_intercept" d e₈;
      })

  module _ (laws : FloatLaws p) where
    open p use {lit, le, lt, add, div, neg, exp, eq}

    abbrev pub IsProbability : Result F → Type 0
    IsProbability r = (y : F) × (r ≡ ok y) × (le (lit 0) y ≡ true) × (le y (lit 1) ≡ true)

    quotient-IsProbability :
        (a b : F)
        → le (lit 0) a ≡ true
        → le a b ≡ true
        → eq b (lit 0) ≡ false
        → p.is_finite b ≡ true
        → IsProbability (quotient p a b)
    unfolding quotient
    quotient-IsProbability a b low high nonzero finite =
        let (l, u) = laws.div_bounds a b low high nonzero finite in
        (div a b, ground (arith, nonzero), l, u)

    -- The probability is a number between 0 and 1, and nothing is raised, for every number.
    pub sigmoid-bounds :
        (x : F)
        → (le (lit 0) x ≡ true) ⊎ (le x (lit 0) ≡ true)
        → (y : F) × (sigmoid p x ≡ ok y) × (le (lit 0) y ≡ true) × (le y (lit 1) ≡ true)
    unfolding sigmoid
    sigmoid-bounds x ordered = elim (Bool-cases (le (lit 0) x)) [
      | inl above ↦
          let (e, run, low, high) = laws.exp_small (neg x) (laws.neg_le x above) in
          let (one, more, nonzero, finite) = laws.add_one e low high in
          let (y, done, l, u) =
            quotient-IsProbability (lit 1) (add (lit 1) e) laws.one_positive one nonzero finite in
          (y, rw (above, run) done, l, u)
      | inr below ↦
          let small : le x (lit 0) ≡ true = ground (arith, ordered, below) in
          let (e, run, low, high) = laws.exp_small x small in
          let (one, more, nonzero, finite) = laws.add_one e low high in
          let (y, done, l, u) = quotient-IsProbability e (add (lit 1) e) low more nonzero finite in
          (y, rw (below, run) done, l, u)
    ]
