-- ===== src/Ml/Trusted.antt =====
-- ml.py, `S3MlProvider`: which model answers.
use ea_trading_system.Prelude.{
  ℕ, String, ◌==◌, ◌≡◌, refl, sym, ap, ◌∙◌, true, Option, none, some, List, eq_iff,
}
use ea_trading_system.Errors.{ok, value_error, ok_path}
use ea_trading_system.Act.{Act, after, after_lift, after_require}
use ea_trading_system.Python.{Python, full_match, is_hex}
use ea_trading_system.Ml.Model.{Model, from_bytes}
use ea_trading_system.Ml.Artifact.{Cached, fetch, load_new, load}

module _ {F W : Type 0} (p : Python F) (get_object : ℕ → Act W (List ℕ))
    (expected_sha256 : String) where
  -- The model was read from bytes that have the configured hash, which is one.
  pub record IsTrustedModel (m : Model F) : Type 0 where
    pub raw : List ℕ
    pub has_hash : p.sha256 raw ≡ expected_sha256
    pub is_hash : full_match is_hex 64 64 expected_sha256 ≡ true
    pub is_read : from_bytes p raw ≡ ok m

  -- What the provider keeps is nothing or a trusted model.
  abbrev pub IsTrusted : Option (Model F) → Type 0
  IsTrusted none = Unit
  IsTrusted (some m) = IsTrustedModel m

  load_new-IsTrusted :
      (c c' : Cached p get_object) (m : Model F)
      → load_new p get_object expected_sha256 c ≡ (ok m, c')
      → IsTrustedModel m × (c'.0 ≡ some m)
  unfolding load_new
  load_new-IsTrusted c c' m h =
      after_require (full_match is_hex 64 64 expected_sha256) value_error _ c m c' h λ is_hash h₁.
        after (fetch p get_object) _ c m c' h₁ λ raw c₁ e₁ h₂.
          after_require (p.sha256 raw == expected_sha256) value_error _ c₁ m c' h₂ λ same h₃.
            after_lift (from_bytes p raw) _ c₁ m c' h₃ λ model e₂ h₄.
              let answer : model ≡ m = ok_path (ap (λ a. a.0) h₄) in
              (
                record {
                  raw = raw;
                  has_hash = (eq_iff (p.sha256 raw) expected_sha256).0 same;
                  is_hash = is_hash;
                  is_read = e₂ ∙ ap ok answer;
                },
                ap (λ a. a.1.0) (sym h₄) ∙ ap some answer,
              )

  kept-IsTrusted :
      (m : Model F) (o : Option (Model F)) (w : W)
      → o ≡ some m
      → IsTrustedModel m
      → IsTrustedModel m × IsTrusted o × (load p get_object expected_sha256 (o, w) ≡ (ok m, (o, w)))
  unfolding load
  kept-IsTrusted m o w e trusted = rw e (trusted, trusted, refl)

  pub load-IsTrusted :
      (kept : Option (Model F)) (w : W) (m : Model F) (c' : Cached p get_object)
      → IsTrusted kept
      → load p get_object expected_sha256 (kept, w) ≡ (ok m, c')
      → IsTrustedModel m × IsTrusted c'.0 × (load p get_object expected_sha256 c' ≡ (ok m, c'))
  unfolding load
  load-IsTrusted (some k) w m c' trusted h =
      let answer : k ≡ m = ok_path (ap (λ a. a.0) h) in
      kept-IsTrusted m c'.0 c'.1 (ap (λ a. a.1.0) (sym h) ∙ ap some answer) (rw (← answer) trusted)
  load-IsTrusted none w m c' trusted h =
      let (new, same) = load_new-IsTrusted (none, w) c' m h in kept-IsTrusted m c'.0 c'.1 same new
