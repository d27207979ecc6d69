-- ===== src/Handler/Signed.antt =====
-- The signature and the signed time of a report that is answered.
use mathlib.Core.Path.{subst}
use ea_trading_system.Prelude.{ℕ, ℤ, eq_ℤ, String, ◌≡◌, ap, ◌∙◌, none, List}
use ea_trading_system.Errors.{ok, ok_path}
use ea_trading_system.Act.{after, after_lift, after_require}
use ea_trading_system.Python.{Python}
use ea_trading_system.Auth.{AuthContext, verify_request}
use ea_trading_system.Auth.Window.{IsVerified, verify_request-IsVerified}
use ea_trading_system.Repository.Table.{Table}
use ea_trading_system.Handler.Gateway.{Event as HttpEvent, body_seconds}
use ea_trading_system.Handler.Trade.{Process, mismatch}
use ea_trading_system.Handler.Answers.{eq_ℤ_lem}
use ea_trading_system.Handler.Reports.{signed_for}

module _ {F W : Type 0} (p : Python F) (process : Process F W) (table : Table F W) where
  -- A report was signed, over its body and for its path, and states the signed time.
  pub record IsSigned (path : String) (event : HttpEvent) (raw : List ℕ) (timestamp : String)
      (auth : AuthContext) : Type 0 where
    pub skew : ℕ
    pub limit : process.max_skew ≡ ok skew
    pub before : W
    pub after_claim : W
    pub verified :
        IsVerified p process.clock process.secrets process.nonces event.headers raw skew path before
          auth after_claim
    pub signed_time : body_seconds p timestamp ≡ ok auth.timestamp

  pub signed_for-IsSigned :
      (path : String) (event : HttpEvent) (raw : List ℕ) (timestamp : String) (w w' : W)
      (auth : AuthContext) (seconds : ℤ)
      → signed_for p process table path event raw timestamp w ≡ (ok (auth, seconds), w')
      → IsSigned path event raw timestamp auth × (seconds ≡ auth.timestamp)
  unfolding signed_for
  signed_for-IsSigned path event raw timestamp w w' auth seconds h =
      after process.dependencies _ w (auth, seconds) w' h
        λ u w₁ e₁ h₁.
          after_lift process.max_skew _ w₁ (auth, seconds) w' h₁
            λ skew e₂ h₂.
              after
                (verify_request p process.clock process.secrets process.nonces event.headers raw
                  none skew path)
                _ w₁ (auth, seconds) w' h₂
                λ c w₂ e₃ h₃.
                  after_lift (body_seconds p timestamp) _ w₂ (auth, seconds) w' h₃
                    λ t e₄ h₄.
                      after_require (eq_ℤ t c.timestamp) mismatch _ w₂ (auth, seconds) w' h₄
                        λ e₅ h₅.
                          let answer : Path (AuthContext × ℤ) (c, t) (auth, seconds) =
                            ok_path (ap (λ x. x.0) h₅) in
                          let signed : body_seconds p timestamp ≡ ok c.timestamp =
                            e₄ ∙ ap ok (eq_ℤ_lem t c.timestamp e₅) in
                          subst (λ a. IsSigned path event raw timestamp a.0 × (a.1 ≡ a.0.timestamp))
                            answer
                            (
                              record {
                                skew = skew;
                                limit = e₂;
                                before = w₁;
                                after_claim = w₂;
                                verified =
                                    verify_request-IsVerified p process.clock process.secrets
                                      process.nonces event.headers raw skew path w₁ c w₂ e₃;
                                signed_time = signed;
                              },
                              eq_ℤ_lem t c.timestamp e₅,
                            )
