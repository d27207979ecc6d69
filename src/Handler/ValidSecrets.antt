-- ===== src/Handler/ValidSecrets.antt =====
-- What the cache of secrets keeps and gives out.
use mathlib.Core.Path.{subst₂}
use ea_trading_system.Prelude.{
  String, ◌==◌, eq_iff, ◌≡◌, refl, sym, ap, ◌∙◌, ◌⊎◌, inl, inr, Bool, true, false, Bool-cases,
  Option, none, some, List, [], ◌∷◌, All, lookup, arith, if◌then◌else◌,
}
use ea_trading_system.Errors.{Result, ok, err, value_error, ok_path}
use ea_trading_system.Act.{Act, pure, continue, after, after_require}
use ea_trading_system.Python.{Python}
use ea_trading_system.Handler.Secrets.{
  SecretCache, delete, keep, found, unless_expired, accept_if, fetch, cached_or_fetched,
  cached_parameter, uncached_parameter, get_secure_parameter,
}

module _ {A : Type 0} (P : String → A → Type 0) where
  abbrev pub Kept : List (String × A) → Type 0
  Kept es = All (λ e. P e.0 e.1) es

  either-Kept :
      (t : Bool) (xs ys : List (String × A)) → Kept xs → Kept ys → Kept (if t then xs else ys)
  either-Kept true xs ys a b = a
  either-Kept false xs ys a b = b

  lookup-Kept :
      (name : String) (a : A) (es : List (String × A))
      → Kept es
      → lookup name es ≡ some a
      → P name a
  lookup-Kept name a [] kept h = absurd (ground arith)
  lookup-Kept name a ((k, v) ∷ es) kept h = elim (Bool-cases (k == name)) [
    | inl here ↦
        let same : k ≡ name = ground (arith, eq_iff k name) in
        let value : v ≡ a = ground (arith) in subst₂ P same value kept.0
    | inr there ↦ lookup-Kept name a es kept.1 (ground arith)
  ]

  delete-Kept : (name : String) (es : List (String × A)) → Kept es → Kept (delete name es)
  delete-Kept name [] kept = tt
  delete-Kept name ((k, v) ∷ es) kept =
      either-Kept (k == name) (delete name es) ((k, v) ∷ delete name es)
        (delete-Kept name es kept.1) (kept.0, delete-Kept name es kept.1)

lookup-delete :
    {A : Type 0} (name : String) (es : List (String × A)) → lookup name (delete name es) ≡ none
lookup-delete name [] = refl
lookup-delete name ((k, v) ∷ es) = ground (arith, lookup-delete name es)

module _ {F W : Type 0} (p : Python F) (clock : W → F × W) (get_parameter : String → Act W String)
    (P : String → String × F → Type 0) where
  -- A secret is given out from an entry that has not expired, or it was just fetched and is valid.
  abbrev pub Fresh : String → (String → Bool) → SecretCache F → W → String → Type 0
  Fresh name valid c w value =
      ((expires : F) × (lookup name c.entries ≡ some (value, expires))
        × (p.le expires (clock w).0 ≡ false))
      ⊎ ((valid value ≡ true) × ((w₁ : W) × (w₂ : W) × (get_parameter name w₁ ≡ (ok value, w₂))))

  -- After a failure nothing is kept under the name.
  abbrev pub Outcome :
      String → (String → Bool) → SecretCache F → W → Result String → SecretCache F → Type 0
  Outcome name valid c w (ok value) c' = Kept P c'.entries × Fresh name valid c w value
  Outcome name valid c w (err e) c' = Kept P c'.entries × (lookup name c'.entries ≡ none)

  module _ (name : String) (valid : String → Bool)
      (holds : (v : String) (x : F) → valid v ≡ true → P name (v, x)) (c₀ : SecretCache F)
      (w₀ : W) where
    abbrev Good : Result String × (SecretCache F × W) → Type 0
    Good r = Outcome name valid c₀ w₀ r.0 r.1.0

    keep-Good :
        (t : Bool) (value : String) (c : SecretCache F) (w : W)
        → valid value ≡ true
        → Fresh name valid c₀ w₀ value
        → Kept P c.entries
        → Good (
            let r = keep p clock get_parameter t name value c w in
            continue r.0 (λ u. pure value) r.1)
    keep-Good true value c w is_valid fresh kept =
        ((holds value _ is_valid, delete-Kept P name c.entries kept), fresh)
    keep-Good false value c w is_valid fresh kept = (kept, fresh)

    accept_if-Good :
        (t : Bool) (value : String) (c : SecretCache F) (w w₁ : W)
        → valid value ≡ t
        → get_parameter name w₁ ≡ (ok value, w)
        → Kept P c.entries
        → lookup name c.entries ≡ none
        → Good (accept_if p clock get_parameter t name value (c, w))
    accept_if-Good true value c w w₁ q got kept absent =
        keep-Good (p.lt (p.lit 0) c.ttl_seconds) value c w q (inr (q, (w₁, w, got))) kept
    accept_if-Good false value c w w₁ q got kept absent = (kept, absent)

    fetched-Good :
        (r : Result String × W) (c : SecretCache F) (w₁ : W)
        → get_parameter name w₁ ≡ r
        → Kept P c.entries
        → lookup name c.entries ≡ none
        → Good (continue r.0 (λ v. accept_if p clock get_parameter (valid v) name v) (c, r.1))
    fetched-Good (ok value, w) c w₁ got kept absent =
        accept_if-Good (valid value) value c w w₁ refl got kept absent
    fetched-Good (err e, w) c w₁ got kept absent = (kept, absent)

    fetch-Good :
        (c : SecretCache F) (w : W)
        → Kept P c.entries
        → lookup name c.entries ≡ none
        → Good (fetch p clock get_parameter name valid (c, w))
    fetch-Good c w kept absent = fetched-Good (get_parameter name w) c w refl kept absent

    unless_expired-Good :
        (t : Bool) (value : String) (x : F) (w : W)
        → p.le x (clock w₀).0 ≡ t
        → lookup name c₀.entries ≡ some (value, x)
        → Kept P c₀.entries
        → Good (
            let r = unless_expired p clock get_parameter t name value c₀ w in
            continue r.0 (cached_or_fetched p clock get_parameter name valid) r.1)
    unless_expired-Good true value x w old there kept =
        fetch-Good _ w (delete-Kept P name c₀.entries kept) (lookup-delete name c₀.entries)
    unless_expired-Good false value x w old there kept = (kept, inl (x, there, old))

    found-Good :
        (o : Option (String × F))
        → lookup name c₀.entries ≡ o
        → Kept P c₀.entries
        → Good (
            let r = found p clock get_parameter name o (c₀, w₀) in
            continue r.0 (cached_or_fetched p clock get_parameter name valid) r.1)
    found-Good none there kept = fetch-Good c₀ w₀ kept there
    found-Good (some (value, x)) there kept =
        unless_expired-Good (p.le x (clock w₀).0) value x (clock w₀).1 refl there kept

    cached_parameter-Outcome :
        Kept P c₀.entries
        → (let r = cached_parameter p clock get_parameter name valid (c₀, w₀) in
            Outcome name valid c₀ w₀ r.0 r.1.0)
    unfolding cached_parameter
    cached_parameter-Outcome kept = found-Good (lookup name c₀.entries) refl kept

  -- The entries of the cache, if there is one
  abbrev pub KeptIn : Option (SecretCache F) → Type 0
  KeptIn none = Unit
  KeptIn (some c) = Kept P c.entries

  abbrev pub Fetched : String → (String → Bool) → Result String → Type 0
  Fetched name valid (ok value) =
      (valid value ≡ true) × ((w₁ : W) × (w₂ : W) × (get_parameter name w₁ ≡ (ok value, w₂)))
  Fetched name valid (err e) = Unit

  -- Without a cache a value is fetched, and there is none afterwards.
  abbrev pub OutcomeIn :
      String
      → (String → Bool)
      → Option (SecretCache F)
      → W
      → Result String
      → Option (SecretCache F)
      → Type 0
  OutcomeIn name valid none w r none = Fetched name valid r
  OutcomeIn name valid none w r (some c') = ⊥
  OutcomeIn name valid (some c) w r none = ⊥
  OutcomeIn name valid (some c) w r (some c') = Outcome name valid c w r c'

  uncached_parameter-Fetched :
      (name : String) (valid : String → Bool) (r : Result String) (w w' : W)
      → uncached_parameter p clock get_parameter name valid w ≡ (r, w')
      → Fetched name valid r
  uncached_parameter-Fetched name valid (err e) w w' h = tt
  uncached_parameter-Fetched name valid (ok value) w w' h =
      after (get_parameter name) _ w value w' h λ v w₁ e₁ h₁.
        after_require (valid v) value_error _ w₁ value w' h₁ λ is h₂.
          let same : v ≡ value = ok_path (ap (λ a. a.0) h₂) in
          (ap valid (sym same) ∙ is, (w, w₁, e₁ ∙ ap (λ x. (ok x, w₁)) same))

  -- Whatever a read of a secret does, the cache, if there is one, keeps only values that are valid for
  -- their names. A value that is returned comes from an entry that had not expired when the clock was
  -- read, or it was fetched and found valid; without a cache it was always fetched and found valid. A
  -- read that raises leaves nothing cached under the name.
  pub get_secure_parameter-Outcome :
      (name : String) (valid : String → Bool)
      → ((v : String) (x : F) → valid v ≡ true → P name (v, x))
      → (c₀ : Option (SecretCache F)) (w₀ : W) → KeptIn c₀
      → (let r = get_secure_parameter p clock get_parameter name valid (c₀, w₀) in
          OutcomeIn name valid c₀ w₀ r.0 r.1.0)
  unfolding get_secure_parameter
  get_secure_parameter-Outcome name valid holds none w₀ kept =
      uncached_parameter-Fetched name valid _ w₀ _ refl
  get_secure_parameter-Outcome name valid holds (some c₀) w₀ kept =
      cached_parameter-Outcome name valid holds c₀ w₀ kept
