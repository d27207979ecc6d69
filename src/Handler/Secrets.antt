-- ===== src/Handler/Secrets.antt =====
-- handler.py: the cache of secrets, and the reads of the parameter store through it.
use ea_trading_system.Prelude.{
  ℕ, String, ◌&◌, Bool, true, false, ◌&&◌, ◌==◌, Option, none, some, List, [], ◌∷◌, leb, lookup,
  if◌then◌else◌,
}
use ea_trading_system.Errors
use ea_trading_system.Errors.{Result, ok, value_error}
use ea_trading_system.Act.{Act, pure, raise, require, ◌>>=◌, ◌>>◌}
use ea_trading_system.Python.{Python, len}
use ea_trading_system.Auth.{SecretProvider}

abbrev pub max_secret_cache_ttl_seconds : ℕ
max_secret_cache_ttl_seconds = 3_600

-- `del entries[name]`, and `entries[name] = value`
abbrev pub delete : {A : Type 0} → String → List (String × A) → List (String × A)
delete name [] = []
delete name ((k, v) ∷ rest) = if k == name then delete name rest else (k, v) ∷ delete name rest

abbrev pub store : {A : Type 0} → String → A → List (String × A) → List (String × A)
store name v entries = (name, v) ∷ delete name entries

-- `TtlSecretCache`: each entry is a value and the time it expires at.
pub record SecretCache (F : Type 0) : Type 0 where
  pub ttl_seconds : F
  pub entries : List (String × (String × F))

-- `_validate_shared_secret` and `_validate_api_key`
abbrev pub valid_shared_secret : String → Bool
valid_shared_secret secret = leb 32 (len secret) && leb (len secret) 256

abbrev pub valid_api_key : String → Bool
valid_api_key key = leb 20 (len key) && leb (len key) 512

module _ {F : Type 0} (p : Python F) where
  open p use {lit, le, is_finite}

  -- `__init__`
  unfoldable pub new_cache : F → Result (SecretCache F)
  new_cache ttl =
      Errors.◌>>◌
        (Errors.require
          (is_finite ttl && (le (lit 0) ttl && le ttl (lit max_secret_cache_ttl_seconds)))
          value_error)
        (ok (record { ttl_seconds = ttl; entries = [] }))

-- A process keeps its cache beside the rest of the world.
module _ {F W : Type 0} (p : Python F) (clock : W → F × W)
    (get_parameter : String → Act W String) where
  abbrev pub outside : {A : Type 0} → Act W A → Act (SecretCache F × W) A
  outside m (cache, w) = let (r, w') = m w in (r, (cache, w'))

  abbrev pub unless_expired :
      Bool → String → String → SecretCache F → W → Result (Option String) × (SecretCache F × W)
  unless_expired true name value c w =
      (ok none, (record { ttl_seconds = c.ttl_seconds; entries = delete name c.entries }, w))
  unless_expired false name value c w = (ok (some value), (c, w))

  abbrev pub found : String → Option (String × F) → Act (SecretCache F × W) (Option String)
  found name none (c, w) = (ok none, (c, w))
  found name (some (value, expires)) (c, w) =
      let (now, w') = clock w in unless_expired (p.le expires now) name value c w'

  -- `get`: the clock is read only for an entry that is there, and an expired one is removed.
  abbrev pub cache_get : String → Act (SecretCache F × W) (Option String)
  cache_get name (c, w) = found name (lookup name c.entries) (c, w)

  abbrev pub keep :
      Bool → String → String → SecretCache F → W → Result (Unit {0}) × (SecretCache F × W)
  keep true name value c w =
      let (now, w') = clock w in
      (
        ok tt,
        (
          record {
            ttl_seconds = c.ttl_seconds;
            entries = store name (value, p.add now c.ttl_seconds) c.entries;
          },
          w',
        ),
      )
  keep false name value c w = (ok tt, (c, w))

  -- `put`: nothing is stored if the time to live is 0.
  abbrev pub cache_put : String → String → Act (SecretCache F × W) (Unit {0})
  cache_put name value (c, w) = keep (p.lt (p.lit 0) c.ttl_seconds) name value c w

  -- `validate(value)` raises, or the value is kept.
  abbrev pub accept_if : Bool → String → String → Act (SecretCache F × W) String
  accept_if true name value = cache_put name value >> pure value
  accept_if false name value = raise value_error

  abbrev pub fetch : String → (String → Bool) → Act (SecretCache F × W) String
  fetch name valid = do value ← outside (get_parameter name); accept_if (valid value) name value

  abbrev pub cached_or_fetched :
      String → (String → Bool) → Option String → Act (SecretCache F × W) String
  cached_or_fetched name valid (some value) = pure value
  cached_or_fetched name valid none = fetch name valid

  -- From the cache, or from the parameter store, validated and then kept.
  unfoldable pub cached_parameter : String → (String → Bool) → Act (SecretCache F × W) String
  cached_parameter name valid = do hit ← cache_get name; cached_or_fetched name valid hit

  -- Without a cache: from the parameter store, and validated.
  abbrev pub uncached_parameter : String → (String → Bool) → Act W String
  uncached_parameter name valid = do
    value ← get_parameter name
    require (valid value) value_error
    pure value

  -- `_get_secure_parameter`, with `cache` being `None` or a cache
  unfoldable pub get_secure_parameter :
      String → (String → Bool) → Act (Option (SecretCache F) × W) String
  get_secure_parameter name valid (none, w) =
      let (r, w') = uncached_parameter name valid w in (r, (none, w'))
  get_secure_parameter name valid (some c, w) =
      let (r, (c', w')) = cached_parameter name valid (c, w) in (r, (some c', w'))

  abbrev pub credential_name : String → String → String
  credential_name environment key_id =
      "/ea-trading-system/" & environment & "/credentials/" & key_id

  abbrev pub api_key_name : String → String
  api_key_name environment = "/ea-trading-system/" & environment & "/providers/openai/api-key"

  -- `SsmSecretProvider` and `SsmOpenAiApiKeyProvider`
  unfoldable pub ssm_secrets : String → SecretProvider (Option (SecretCache F) × W)
  ssm_secrets environment = record {
    get_secret =
        λ key_id. get_secure_parameter (credential_name environment key_id) valid_shared_secret;
  }

  unfoldable pub get_api_key : String → Act (Option (SecretCache F) × W) String
  get_api_key environment = get_secure_parameter (api_key_name environment) valid_api_key
