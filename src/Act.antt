-- ===== src/Act.antt =====
-- Code that reads or changes the outside world (the table, the clock, the providers) and may raise.
-- What was done before an exception stays done, so the world comes back beside the error too.
use ea_trading_system.Prelude.{◌≡◌, refl, ap, Bool, true, false, arith}
use ea_trading_system.Errors.{Exc, Result, ok, err}
use ea_trading_system.Errors

abbrev pub Act : Type 0 → Type 0 → Type 0
Act W A = W → Result A × W

module _ {W A : Type 0} where
  abbrev pub pure : A → Act W A
  pure a w = (ok a, w)

  abbrev pub raise : Exc → Act W A
  raise e w = (err e, w)

  abbrev pub lift : Result A → Act W A
  lift r w = (r, w)

  abbrev pub caught : Result A → (Exc → Act W A) → Act W A
  caught (ok a) f w = (ok a, w)
  caught (err e) f w = f e w

  -- `try: m` with `except Exception as e: f(e)`
  abbrev pub catch : Act W A → (Exc → Act W A) → Act W A
  catch m f w = let (r, w') = m w in caught r f w'

module _ {W A B : Type 0} where
  abbrev pub continue : Result A → (A → Act W B) → Act W B
  continue (ok a) f w = f a w
  continue (err e) f w = (err e, w)

  infixl 5 ◌>>=◌ ◌>>◌
  abbrev pub ◌>>=◌ : Act W A → (A → Act W B) → Act W B
  ◌>>=◌ m f w = let (r, w') = m w in continue r f w'

  abbrev pub ◌>>◌ : Act W A → Act W B → Act W B
  m >> n = m >>= λ _. n

-- `if not test: raise e`
abbrev pub require : {W : Type 0} → Bool → Exc → Act W (Unit {0})
require t e = lift (Errors.require t e)

-- To use a sequence that returns: its first action returns, and the rest returns from there.
module _ {W A B P : Type 0} where
  after_result :
      (r : Result A × W) (f : A → Act W B) (b : B) (w' : W)
      → continue r.0 f r.1 ≡ (ok b, w')
      → ((a : A) (w₁ : W) → r ≡ (ok a, w₁) → f a w₁ ≡ (ok b, w') → P)
      → P
  after_result (ok a, w₁) f b w' h k = k a w₁ refl h
  after_result (err e, w₁) f b w' h k = absurd (ground arith)

  pub after :
      (m : Act W A) (f : A → Act W B) (w : W) (b : B) (w' : W)
      → (m >>= f) w ≡ (ok b, w')
      → ((a : A) (w₁ : W) → m w ≡ (ok a, w₁) → f a w₁ ≡ (ok b, w') → P)
      → P
  after m f w b w' h k = after_result (m w) f b w' h k

module _ {W B P : Type 0} where
  pub after_require :
      (test : Bool) (e : Exc) (m : Act W B) (w : W) (b : B) (w' : W)
      → (require test e >> m) w ≡ (ok b, w')
      → (test ≡ true → m w ≡ (ok b, w') → P)
      → P
  after_require true e m w b w' h k = k refl h
  after_require false e m w b w' h k = absurd (ground arith)

module _ {W A B P : Type 0} where
  pub after_lift :
      (r : Result A) (f : A → Act W B) (w : W) (b : B) (w' : W)
      → (lift r >>= f) w ≡ (ok b, w')
      → ((a : A) → r ≡ ok a → f a w ≡ (ok b, w') → P)
      → P
  after_lift (ok a) f w b w' h k = k a refl h
  after_lift (err e) f w b w' h k = absurd (ground arith)

module _ {W A P : Type 0} where
  caught_cases :
      (r : Result A × W) (f : Exc → Act W A) (a : A) (w' : W)
      → caught r.0 f r.1 ≡ (ok a, w')
      → (r ≡ (ok a, w') → P)
      → ((e : Exc) (w₁ : W) → r ≡ (err e, w₁) → f e w₁ ≡ (ok a, w') → P)
      → P
  caught_cases (ok a', w₁) f a w' h k j = k h
  caught_cases (err e, w₁) f a w' h k j = j e w₁ refl h

  -- A guarded action that returns: it returned itself, or it raised and its handler returned.
  pub after_catch :
      (m : Act W A) (f : Exc → Act W A) (w : W) (a : A) (w' : W)
      → catch m f w ≡ (ok a, w')
      → (m w ≡ (ok a, w') → P)
      → ((e : Exc) (w₁ : W) → m w ≡ (err e, w₁) → f e w₁ ≡ (ok a, w') → P)
      → P
  after_catch m f w a w' h k j = caught_cases (m w) f a w' h k j

module _ {W A B : Type 0} where
  raised_result :
      (r : Result A × W) (b : B) (e : Exc) (w' : W)
      → continue r.0 (λ a. pure b) r.1 ≡ (err e, w')
      → r ≡ (err e, w')
  raised_result (ok a, w₁) b e w' h = absurd (ground arith)
  raised_result (err x, w₁) b e w' h = ground arith

  -- An action that ends by returning a value raises what its first part raises.
  pub raised_by :
      (m : Act W A) (b : B) (w : W) (e : Exc) (w' : W)
      → (m >> pure b) w ≡ (err e, w')
      → m w ≡ (err e, w')
  raised_by m b w e w' h = raised_result (m w) b e w' h

-- To run a sequence whose first part is known to return.
module _ {W A B : Type 0} where
  pub then_run :
      (m : Act W A) (f : A → Act W B) (w : W) (a : A) (w₁ : W)
      → m w ≡ (ok a, w₁)
      → (m >>= f) w ≡ f a w₁
  then_run m f w a w₁ e = ap (λ r. continue r.0 f r.1) e

module _ {W A : Type 0} where
  pub catch_run :
      (m : Act W A) (f : Exc → Act W A) (w : W) (r : Result A) (w₁ : W)
      → m w ≡ (r, w₁)
      → catch m f w ≡ caught r f w₁
  catch_run m f w r w₁ e = ap (λ s. caught s.0 f s.1) e

  -- The action returns a value in this world.
  abbrev pub Returns : Act W A → W → Type 0
  Returns m w = (a : A) × ((w' : W) × (m w ≡ (ok a, w')))
