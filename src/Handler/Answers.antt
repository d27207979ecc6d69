-- ===== src/Handler/Answers.antt =====
-- The trade decisions that the entry point lets out: each belongs to a request that was validated,
-- keyed, signed, in time and new.
use mathlib.Core.Path.{subst}
use ea_trading_system.Prelude.{
  ℕ, ℤ, pos, negsuc, eq_ℤ, String, eq_iff, ◌≡◌, ◌⊎◌, true, Option, none, some, List, ap, ◌∙◌, arith,
}
use ea_trading_system.Errors.{ok}
use ea_trading_system.Act.{after, after_lift, after_require}
use ea_trading_system.Json.{Fields, str, get}
use ea_trading_system.Python.{Python}
use ea_trading_system.Validation.Request.{Request, parse_and_validate_request}
use ea_trading_system.Auth.{AuthContext, verify_request}
use ea_trading_system.Auth.Format.{last_value}
use ea_trading_system.Auth.Window.{IsVerified, verify_request-IsVerified}
use ea_trading_system.Service.Providers.{MlProvider, LlmProvider, Settings}
use ea_trading_system.Service.Decide.{decide}
use ea_trading_system.Service.Approval.{IsApproved}
use ea_trading_system.Service.Release.{IsStored, decide_allow}
use ea_trading_system.Handler.Gateway.{
  Event, check_method, is_key, lowered, read_raw_body, body_seconds,
}
use ea_trading_system.Handler.Trade.{
  Process, settings, authenticated, decided, answered, summary, mismatch,
}

is_key_lem : (o : Option String) (id : String) → is_key o id ≡ true → o ≡ some id
is_key_lem none id h = absurd (ground arith)
is_key_lem (some k) id h = ap some (ground (arith, eq_iff k id))

pub eq_ℤ_lem : (a b : ℤ) → eq_ℤ a b ≡ true → a ≡ b
eq_ℤ_lem (pos m) (pos n) h = ground arith
eq_ℤ_lem (pos m) (negsuc n) h = absurd (ground arith)
eq_ℤ_lem (negsuc m) (pos n) h = absurd (ground arith)
eq_ℤ_lem (negsuc m) (negsuc n) h = ground arith

module _ {F W : Type 0} (p : Python F) (process : Process F W) where
  -- The authentication that the entry point asks for, with its two worlds.
  pub record IsAuthenticated (event : Event) (raw_body : List ℕ) (request : Request F)
      (auth : AuthContext) : Type 0 where
    pub skew : ℕ
    pub limit : process.max_skew ≡ ok skew
    pub w₁ : W
    pub w₂ : W
    pub verified :
        IsVerified p process.clock process.secrets process.nonces event.headers raw_body skew
          "/v1/trade-decisions" w₁ auth w₂
    pub signed_time : body_seconds p request.timestamp ≡ ok auth.timestamp

  authenticated-IsAuthenticated :
      (event : Event) (raw_body : List ℕ) (request : Request F) (w w' : W) (auth : AuthContext)
      → authenticated p process event raw_body request w ≡ (ok auth, w')
      → IsAuthenticated event raw_body request auth
  unfolding authenticated
  authenticated-IsAuthenticated event raw_body request w w' auth h =
      after process.dependencies _ w auth w' h λ u w₁ e₁ h₁.
        after_lift process.max_skew _ w₁ auth w' h₁ λ skew e₂ h₂.
          after
            (verify_request p process.clock process.secrets process.nonces event.headers raw_body
              none skew "/v1/trade-decisions")
            _ w₁ auth w' h₂
            λ c w₂ e₃ h₃.
              after_lift (body_seconds p request.timestamp) _ w₂ auth w' h₃ λ seconds e₄ h₄.
                after_require (eq_ℤ seconds c.timestamp) mismatch _ w₂ auth w' h₄ λ e₅ h₅.
                  let same : c ≡ auth = ground arith in
                  record {
                    skew = skew;
                    limit = e₂;
                    w₁ = w₁;
                    w₂ = w₂;
                    verified =
                        subst
                          (λ x.
                            IsVerified p process.clock process.secrets process.nonces event.headers
                              raw_body skew "/v1/trade-decisions" w₁ x w₂)
                          same
                          (verify_request-IsVerified p process.clock process.secrets process.nonces
                            event.headers raw_body skew "/v1/trade-decisions" w₁ c w₂ e₃);
                    signed_time =
                        e₄
                        ∙ ap ok (eq_ℤ_lem seconds c.timestamp e₅)
                        ∙ ap (λ x. ok x.timestamp) same;
                  }

  -- The decision service with the providers of the process and the settings that it ran with.
  pub record IsDecided (started : F) (request : Request F) (auth : AuthContext) (r : Fields F)
      : Type 0 where
    pub ml : MlProvider F W
    pub llm : LlmProvider F W
    pub s : Settings F W
    pub set : settings p process started ≡ ok s
    pub v₀ : W
    pub v₁ : W
    pub v : W
    pub made_ml : process.ml_dependency v₀ ≡ (ok ml, v₁)
    pub made_llm : process.llm_dependency v₁ ≡ (ok llm, v)
    pub v' : W
    pub result :
        decide ⦃p = p⦄ process.now process.repository ml llm s request auth.body_hash none v
        ≡ (ok r, v')

  decided-IsDecided :
      (started : F) (request : Request F) (auth : AuthContext) (w w' : W) (r : Fields F)
      → decided p process started request auth w ≡ (ok r, w')
      → IsDecided started request auth r
  unfolding decided
  decided-IsDecided started request auth w w' r h =
      after process.ml_dependency _ w r w' h λ ml w₁ e₁ h₁.
        after process.llm_dependency _ w₁ r w' h₁ λ llm w₂ e₂ h₂.
          after_lift (settings p process started) _ w₂ r w' h₂ λ s e₃ h₃.
            after
              (decide ⦃p = p⦄ process.now process.repository ml llm s request auth.body_hash none) _
              w₂ r w' h₃
              λ result w₃ e₄ h₄. after_lift (summary result) _ w₃ r w' h₄ λ u e₅ h₅.
                let same : result ≡ r = ground arith in
                record {
                  ml = ml;
                  llm = llm;
                  s = s;
                  set = e₃;
                  v₀ = w;
                  v₁ = w₁;
                  v = w₂;
                  made_ml = e₁;
                  made_llm = e₂;
                  v' = w₃;
                  result = e₄ ∙ ap (λ x. (ok x, w₃)) same;
                }

  pub record IsAnswered (started : F) (event : Event) (r : Fields F) : Type 0 where
    pub post : check_method event ≡ ok tt
    pub raw_body : List ℕ
    pub body : read_raw_body p event "request body encoding is invalid" ≡ ok raw_body
    pub request : Request F
    pub valid : parse_and_validate_request ⦃p = p⦄ raw_body ≡ ok request
    pub key : last_value "idempotency-key" (lowered p event.headers) ≡ some request.request_id
    pub auth : AuthContext
    pub authenticated : IsAuthenticated event raw_body request auth
    pub decided : IsDecided started request auth r

  -- An answer without an error belongs to a POST with a valid body, whose key is the id of the request,
  -- whose signature, time window and nonce were verified for this very body, and whose body states the
  -- signed time; and it is what the decision service returned for the hash of that body.
  pub answered-IsAnswered :
      (started : F) (event : Event) (w w' : W) (r : Fields F)
      → answered p process started event w ≡ (ok r, w')
      → IsAnswered started event r
  unfolding answered
  answered-IsAnswered started event w w' r h =
      after_lift (check_method event) _ w r w' h λ u post h₁.
        after_lift (read_raw_body p event "request body encoding is invalid") _ w r w' h₁
          λ raw body h₂.
            after_lift (parse_and_validate_request ⦃p = p⦄ raw) _ w r w' h₂ λ request valid h₃.
              after_require
                (is_key (last_value "idempotency-key" (lowered p event.headers)) request.request_id)
                _ _ w r w' h₃
                λ keyed h₄.
                  after (authenticated p process event raw request) _ w r w' h₄ λ auth w₂ e₅ h₅.
                    record {
                      post = post;
                      raw_body = raw;
                      body = body;
                      request = request;
                      valid = valid;
                      key = is_key_lem _ _ keyed;
                      auth = auth;
                      authenticated = authenticated-IsAuthenticated event raw request w w₂ auth e₅;
                      decided = decided-IsDecided started request auth w₂ w' r h₅;
                    }

  -- An answer ALLOW repeats a decision on record for the id of its request, or the score of the
  -- process's model met both thresholds and its language model answered ALLOW, or VETO in shadow mode.
  pub answered_allow :
      (started : F) (event : Event) (w w' : W) (r : Fields F)
      → answered p process started event w ≡ (ok r, w')
      → get "decision" r ≡ some (str "ALLOW")
      → (a : IsAnswered started event r) × (IsStored ⦃p = p⦄ process.now process.repository
            a.decided.ml a.decided.llm a.decided.s a.request.request_id r
          ⊎ ((v : W) × (v' : W) × IsApproved ⦃p = p⦄ process.now a.decided.ml a.decided.llm
                a.decided.s a.request v v'))
  answered_allow started event w w' r h allowed =
      let a = answered-IsAnswered started event w w' r h in
      (
        a,
        decide_allow ⦃p = p⦄ process.now process.repository a.decided.ml a.decided.llm a.decided.s
            a.request a.auth.body_hash none a.decided.v a.decided.v' r a.decided.result allowed,
      )
