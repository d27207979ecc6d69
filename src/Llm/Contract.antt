-- ===== src/Llm/Contract.antt =====
-- What a parsed answer of a language model satisfies.
use mathlib.Core.Path.{subst}
use ea_trading_system.Prelude.{String, ◌≡◌, ◌⊎◌, true, arith, eq_iff}
use ea_trading_system.Errors.{ok, value_error, require, >>=-eq-ok}
use ea_trading_system.Json.{Value, Fields, null, str}
use ea_trading_system.Python.{Python}
use ea_trading_system.Validation.Fields.{item, is_member}
use ea_trading_system.Validation.Request.{good_reason}
use ea_trading_system.Service.Providers.{is_rate}
use ea_trading_system.Llm.Reading.{
  exact, read_reason, read_confidence, read_decision, acceptable, read_text, parts_of,
  parse_llm_decision,
}

module _ {F : Type 0} ⦃p : Python F⦄ where
  read_reason_lem : (v : Value F) (s : String) → read_reason v ≡ ok s → good_reason s ≡ true
  unfolding read_reason
  read_reason_lem (str t) s h = ground arith
  read_reason_lem null s h = ground arith
  read_reason_lem v s h = ground arith

  read_confidence_lem :
      (v : Value F) (x : F) → read_confidence v ≡ ok x → (p.is_finite x ≡ true) × (is_rate x ≡ true)
  unfolding read_confidence
  read_confidence_lem v x h = ground arith

  read_decision_lem :
      (v : Value F) (s : String) → read_decision v ≡ ok s → (s ≡ "ALLOW") ⊎ (s ≡ "VETO")
  unfolding read_decision is_member
  read_decision_lem (str t) s h = ground (arith, eq_iff t "ALLOW", eq_iff t "VETO")
  read_decision_lem null s h = ground arith
  read_decision_lem v s h = ground arith

  parts_of_lem :
      (fs : Fields F) (d : String) (c : F) (r : String)
      → parts_of fs ≡ ok (d, c, r)
      → ((d ≡ "ALLOW") ⊎ (d ≡ "VETO"))
        × ((p.is_finite c ≡ true) × (is_rate c ≡ true))
        × (good_reason r ≡ true)
  unfolding parts_of
  parts_of_lem fs d c r h =
      let (dv, e₁, h₁) = >>=-eq-ok (item fs "decision") _ (d, c, r) h in
      let (cv, e₂, h₂) = >>=-eq-ok (item fs "confidence") _ (d, c, r) h₁ in
      let (rv, e₃, h₃) = >>=-eq-ok (item fs "reason") _ (d, c, r) h₂ in
      let (d', e₄, h₄) = >>=-eq-ok (read_decision dv) _ (d, c, r) h₃ in
      let (c', e₅, h₅) = >>=-eq-ok (read_confidence cv) _ (d, c, r) h₄ in
      let (r', e₆, h₆) = >>=-eq-ok (read_reason rv) _ (d, c, r) h₅ in
      let same : Path (String × F × String) (d', c', r') (d, c, r) = ground arith in
      subst
        (λ x.
          ((x.0 ≡ "ALLOW") ⊎ (x.0 ≡ "VETO"))
          × ((p.is_finite x.1 ≡ true) × (is_rate x.1 ≡ true))
          × (good_reason x.2 ≡ true))
        same (read_decision_lem dv d' e₄, read_confidence_lem cv c' e₅, read_reason_lem rv r' e₆)

  -- An answer of the language model that is accepted is ALLOW or VETO, its confidence is a finite rate
  -- in [0, 1], and its reason is not empty, not too long and free of control characters.
  pub parse_llm_decision_lem :
      (raw_text d : String) (c : F) (r : String)
      → parse_llm_decision raw_text ≡ ok (d, c, r)
      → ((d ≡ "ALLOW") ⊎ (d ≡ "VETO"))
        × ((p.is_finite c ≡ true) × (is_rate c ≡ true))
        × (good_reason r ≡ true)
  unfolding parse_llm_decision
  parse_llm_decision_lem raw_text d c r h =
      let (u, e₁, h₁) = >>=-eq-ok (require (acceptable p raw_text) value_error) _ (d, c, r) h in
      let (v, e₂, h₂) = >>=-eq-ok (read_text raw_text) _ (d, c, r) h₁ in
      let (fs, e₃, h₃) = >>=-eq-ok (exact v) parts_of (d, c, r) h₂ in parts_of_lem fs d c r h₃
