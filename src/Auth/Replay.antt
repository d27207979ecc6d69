-- ===== src/Auth/Replay.antt =====
-- A nonce that was claimed lets no second request through.
use mathlib.Core.Path.{subst, subst₂}
use ea_trading_system.Prelude.{ℕ, ℤ, String, ◌≡◌, ◌≢◌, none, List}
use ea_trading_system.Errors.{ok}
use ea_trading_system.Act.{Act}
use ea_trading_system.Python.{Python}
use ea_trading_system.Auth.{SecretProvider, ReplayStore, AuthContext, verify_request}
use ea_trading_system.Auth.Format.{Headers}
use ea_trading_system.Auth.Window.{IsVerified, verify_request-IsVerified}

-- What the store promises, and that reading the clock or a secret loses no record. `Claimed k n w`
-- says that the nonce `n` of the key `k` is on record in the world `w`.
pub record ReplayLaws {W : Type 0} (clock : Act W ℤ) (secrets : SecretProvider W)
    (store : ReplayStore W) (Claimed : String → String → W → Type 0) : Type 0 where
  pub claims :
      (k n : String) (t : ℤ) (w w' : W) → store.claim_nonce k n t w ≡ (ok tt, w') → Claimed k n w'
  pub refuses :
      (k n : String) (t : ℤ) (w w' : W) → Claimed k n w → store.claim_nonce k n t w ≢ (ok tt, w')
  pub clock_keeps : (k n : String) (w : W) → Claimed k n w → Claimed k n (clock w).1
  pub secrets_keep :
      (k n j : String) (w : W) → Claimed k n w → Claimed k n (secrets.get_secret j w).1

module _ {F W : Type 0} (p : Python F) (clock : Act W ℤ) (secrets : SecretProvider W)
    (store : ReplayStore W) {Claimed : String → String → W → Type 0}
    (laws : ReplayLaws clock secrets store Claimed) where
  claimed_at_claim :
      (headers : Headers) (body : List ℕ) (skew : ℕ) (path : String) (w : W) (c : AuthContext)
      (w' : W) (k n : String)
      → Claimed k n w
      → (v : IsVerified p clock secrets store headers body skew path w c w') → Claimed k n v.w₂
  claimed_at_claim headers body skew path w c w' k n h v =
      let at₁ : Claimed k n v.w₁ =
        subst (λ r. Claimed k n r.1) v.timed (laws.clock_keeps k n w h) in
      subst (λ r. Claimed k n r.1) v.keyed (laws.secrets_keep k n c.key_id v.w₁ at₁)

  -- Once a request is accepted, and as long as the record of its nonce is there, no request with the
  -- same key and nonce is accepted: not the same one again, and not one with another body, path or
  -- allowed skew.
  pub accepted_once :
      (headers₁ headers₂ : Headers) (body₁ body₂ : List ℕ) (skew₁ skew₂ : ℕ) (path₁ path₂ : String)
      (w w' v v' : W) (c d : AuthContext)
      → verify_request p clock secrets store headers₁ body₁ none skew₁ path₁ w ≡ (ok c, w')
      → (Claimed c.key_id c.nonce w' → Claimed c.key_id c.nonce v)
      → c.key_id ≡ d.key_id
      → c.nonce ≡ d.nonce
      → verify_request p clock secrets store headers₂ body₂ none skew₂ path₂ v ≢ (ok d, v')
  accepted_once headers₁ headers₂ body₁ body₂ skew₁ skew₂ path₁ path₂ w w' v v' c d h stays key
        nonce k =
      let a = verify_request-IsVerified p clock secrets store headers₁ body₁ skew₁ path₁ w c w' h in
      let b = verify_request-IsVerified p clock secrets store headers₂ body₂ skew₂ path₂ v d v' k in
      let held : Claimed d.key_id d.nonce v =
        subst₂ (λ x y. Claimed x y v) key nonce
          (stays (laws.claims c.key_id c.nonce _ a.w₂ w' a.claimed)) in
      laws.refuses d.key_id d.nonce _ b.w₂ v'
        (claimed_at_claim headers₂ body₂ skew₂ path₂ v d v' d.key_id d.nonce held b) b.claimed
