-- ===== src/Repository/Nonces.antt =====
-- The table keeps nonces the way that the authentication relies on.
use ea_trading_system.Prelude.{String, ℤ, ◌&◌, ◌≡◌, ◌≢◌, true, Option, none, some, [], ◌∷◌, arith}
use ea_trading_system.Errors.{Exc, ok, conditional_check}
use ea_trading_system.Act.{Act, after_catch}
use ea_trading_system.Python.{Python}
use ea_trading_system.Auth.{SecretProvider}
use ea_trading_system.Auth.Replay.{ReplayLaws}
use ea_trading_system.Repository.Table.{Item, Table, TableLaws, if_absent, holds}
use ea_trading_system.Repository.Dynamo.{to_write_failed, text, integer, claim_nonce, dynamo_nonces}

-- A failed write never returns.
pub to_write_failed-raises :
    {W A : Type 0} (e : Exc) (w w' : W) (a : A) → to_write_failed e w ≢ (ok a, w')
to_write_failed-raises conditional_check w w' a h = ground arith
to_write_failed-raises e w w' a h = ground arith

pub free-if_absent : {F : Type 0} (o : Option (Item F)) → holds if_absent o ≡ true → o ≡ none
free-if_absent none h = ground arith
free-if_absent (some i) h = absurd (ground arith)

module _ {F W : Type 0} (p : Python F) (table : Table F W)
    {view : W → String → String → Option (Item F)} (laws : TableLaws table view) where
  -- An item for the nonce is in the table.
  abbrev pub HasNonce : String → String → W → Type 0
  HasNonce k n w = view w ("AUTH#" & k) ("NONCE#" & n) ≢ none

  nonce_item : String → String → ℤ → Item F
  nonce_item k n t =
      ("pk", text ("AUTH#" & k)) ∷ ("sk", text ("NONCE#" & n)) ∷ ("ttl", integer t) ∷ []

  claim_nonce-claims :
      (k n : String) (t : ℤ) (w w' : W)
      → claim_nonce p table k n t w ≡ (ok tt, w')
      → (view w ("AUTH#" & k) ("NONCE#" & n) ≡ none) × HasNonce k n w'
  unfolding claim_nonce
  claim_nonce-claims k n t w w' h =
      after_catch (table.put_item ("AUTH#" & k) ("NONCE#" & n) _ if_absent) to_write_failed w tt w'
        h
        (λ done.
          let law = laws.put_writes ("AUTH#" & k) ("NONCE#" & n) _ if_absent w w' done in
          (free-if_absent _ law.0, λ q. ground arith))
        (λ e w₁ raised q. absurd (to_write_failed-raises e w₁ w' tt q))

  -- The table is a replay store of the kind that the authentication needs, as long as reading the
  -- clock and reading a secret take no nonce out of it.
  pub dynamo_nonces-ReplayLaws :
      (clock : Act W ℤ) (secrets : SecretProvider W)
      → ((k n : String) (w : W) → HasNonce k n w → HasNonce k n (clock w).1)
      → ((k n j : String) (w : W) → HasNonce k n w → HasNonce k n (secrets.get_secret j w).1)
      → ReplayLaws clock secrets (dynamo_nonces p table) HasNonce
  dynamo_nonces-ReplayLaws clock secrets clock_keeps secrets_keep = record {
    claims = λ k n t w w' h. (claim_nonce-claims k n t w w' h).1;
    refuses = λ k n t w w' there h. there ((claim_nonce-claims k n t w w' h).0);
    clock_keeps = clock_keeps;
    secrets_keep = secrets_keep;
  }
