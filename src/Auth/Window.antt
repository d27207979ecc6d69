-- ===== src/Auth/Window.antt =====
-- What a verified request shows: its signature, its time and its claimed nonce.
use ea_trading_system.Prelude.{
  ℕ, ℤ, pos, ◌+ℤ◌, ◌-ℤ◌, int_laws, abs, ◌*◌, ◌≤◌, ◌≤ℤ◌, String, ◌==◌, ◌≡◌, true, none, List, arith,
  leb, one_of, eq_iff,
}
use ea_trading_system.Errors.{ok}
use ea_trading_system.Act.{Act, catch, after, after_lift, after_require}
use ea_trading_system.Python.{Python}
use ea_trading_system.Auth.{
  SecretProvider, ReplayStore, AuthContext, paths, expired, bad_path, failed, to_failed,
  expected_signature, verify_request,
}
use ea_trading_system.Auth.Format.{Headers, Credentials, read_credentials, check_format}

module _ {F W : Type 0} (p : Python F) (clock : Act W ℤ) (secrets : SecretProvider W)
    (store : ReplayStore W) where
  -- The evidence that a request was verified: `now` is the time that the clock gave, `w₁` and `w₂`
  -- are the worlds before the secret is read and before the nonce is claimed.
  pub record IsVerified (headers : Headers) (raw_body : List ℕ) (skew : ℕ) (path : String) (w : W)
      (c : AuthContext) (w' : W) : Type 0 where
    pub credentials : Credentials
    pub read : read_credentials p headers ≡ ok credentials
    pub formed : check_format p credentials ≡ ok c.timestamp
    pub key : c.key_id ≡ credentials.key_id
    pub nonce : c.nonce ≡ credentials.nonce
    pub body : c.body_hash ≡ p.sha256 raw_body
    pub now : ℤ
    pub w₁ : W
    pub timed : clock w ≡ (ok now, w₁)
    pub fresh : abs (now -ℤ c.timestamp) ≤ skew
    pub known : one_of paths path ≡ true
    pub secret : String
    pub w₂ : W
    pub keyed : secrets.get_secret c.key_id w₁ ≡ (ok secret, w₂)
    pub signed :
        expected_signature p secret path c.timestamp c.nonce c.body_hash ≡ credentials.signature
    pub claimed : store.claim_nonce c.key_id c.nonce (now +ℤ pos (skew * 2)) w₂ ≡ (ok tt, w')

  -- A request that is accepted had all its headers, a well-formed key, nonce and signature, a signed
  -- time within the skew, the signature that its path, its body and the secret give, and a new nonce.
  pub verify_request-IsVerified :
      (headers : Headers) (raw_body : List ℕ) (skew : ℕ) (path : String) (w : W) (c : AuthContext)
      (w' : W)
      → verify_request p clock secrets store headers raw_body none skew path w ≡ (ok c, w')
      → IsVerified headers raw_body skew path w c w'
  unfolding verify_request
  verify_request-IsVerified headers raw_body skew path w c w' h =
      after_lift (read_credentials p headers) _ w c w' h λ cs e₁ h₁.
        after_lift (check_format p cs) _ w c w' h₁ λ t e₂ h₂.
          after clock _ w c w' h₂ λ now w₁ e₃ h₃.
            after_require (leb (abs (now -ℤ t)) skew) expired _ w₁ c w' h₃ λ e₄ h₄.
              after_require (one_of paths path) bad_path _ w₁ c w' h₄ λ e₅ h₅.
                after (catch (secrets.get_secret cs.key_id) to_failed) _ w₁ c w' h₅
                  λ secret w₂ e₆ h₆.
                    after_require
                      (expected_signature p secret path t cs.nonce (p.sha256 raw_body)
                        == cs.signature)
                      failed _ w₂ c w' h₆
                      λ e₇ h₇. record {
                        credentials = cs;
                        read = e₁;
                        formed = ground arith;
                        key = ground arith;
                        nonce = ground arith;
                        body = ground arith;
                        now = now;
                        w₁ = w₁;
                        timed = e₃;
                        fresh = ground arith;
                        known = e₅;
                        secret = secret;
                        w₂ = w₂;
                        keyed = ground arith;
                        signed = ground (
                          arith,
                          eq_iff (expected_signature p secret path t cs.nonce (p.sha256 raw_body))
                              cs.signature,
                        );
                        claimed = ground arith;
                      }

  -- The last thing an accepted request did was to claim its nonce until a time, and a request with the
  -- same signed time is accepted no later than that: no signed request outlives its nonce.
  pub nonce_outlives_request :
      (headers₁ headers₂ : Headers) (body₁ body₂ : List ℕ) (skew : ℕ) (path₁ path₂ : String)
      (w w' v v' u' : W) (c d : AuthContext) (now₂ : ℤ)
      → verify_request p clock secrets store headers₁ body₁ none skew path₁ w ≡ (ok c, w')
      → verify_request p clock secrets store headers₂ body₂ none skew path₂ v ≡ (ok d, v')
      → c.timestamp ≡ d.timestamp
      → clock v ≡ (ok now₂, u')
      → (expires : ℤ) × (before : W) × (store.claim_nonce c.key_id c.nonce expires before
          ≡ (ok tt, w'))
        × (now₂ ≤ℤ expires)
  nonce_outlives_request headers₁ headers₂ body₁ body₂ skew path₁ path₂ w w' v v' u' c d now₂ h k
        same e₂ =
      let a = verify_request-IsVerified headers₁ body₁ skew path₁ w c w' h in
      let b = verify_request-IsVerified headers₂ body₂ skew path₂ v d v' k in
      let a_fresh : abs (a.now -ℤ c.timestamp) ≤ skew = a.fresh in
      let b_fresh : abs (now₂ -ℤ c.timestamp) ≤ skew = ground (arith, b.timed, b.fresh) in
      let in_time : now₂ ≤ℤ (a.now +ℤ pos (skew * 2)) = omega (int_laws, a_fresh, b_fresh) in
      (a.now +ℤ pos (skew * 2), a.w₂, a.claimed, in_time)
