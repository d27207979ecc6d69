-- ===== src/Tickdata/Convert/Refused.antt =====
-- convert.py, `run_convert`: what a conversion that is returned relies on.
use ea_trading_system.Prelude.{
  String, ◌≡◌, sym, ap, ◌∙◌, ◌⊎◌, inl, inr, Bool, true, false, if◌then◌else◌, Option, none, some,
  List, [], ◌∷◌, one_of, eq_iff, arith,
}
use ea_trading_system.Errors.{ok, ok_path}
use ea_trading_system.Act.{Act, after, after_lift}
use ea_trading_system.Python.{Python}
use ea_trading_system.Tickdata.Chunks.{Chunk}
use ea_trading_system.Tickdata.Times.{Zones, Rule}
use ea_trading_system.Tickdata.Store.{Files, save_manifest}
use ea_trading_system.Tickdata.Download.{Store}
use ea_trading_system.Tickdata.Convert.{Validation, Conversion, Dataset, dataset_fingerprint}
use ea_trading_system.Tickdata.Convert.Lines.{convert_all}
use ea_trading_system.Tickdata.Convert.Counted.{ticks_of, convert_all-IsCounted}
use ea_trading_system.Tickdata.Convert.Run.{
  validated, remove_all, convert_anew, run_convert, reused, is_current,
}

-- The data set was validated as it is, with the status PASS or WARN.
abbrev pub IsValidated : Option Validation → String → Type 0
IsValidated none fingerprint = ⊥
IsValidated (some v) fingerprint =
    (one_of ("PASS" ∷ "WARN" ∷ []) v.status ≡ true) × (v.dataset_fingerprint ≡ fingerprint)

module _ {F W : Type 0} (p : Python F) (z : Zones) (files : Files W)
    (lines : String → Act W (List String)) (directory : String) (name_of : String → String) where
  validated-IsValidated :
      (v : Option Validation) (fingerprint : String) (u : Unit {0})
      → validated p z files lines directory name_of v fingerprint ≡ ok u
      → IsValidated v fingerprint
  validated-IsValidated none fingerprint u h = absurd (ground arith)
  validated-IsValidated (some v) fingerprint u h =
      ground (arith, eq_iff v.dataset_fingerprint fingerprint)

  convert_anew-IsCounted :
      (dumped : Dataset F → String) (old : Act W (List String)) (rule : Rule F) (s : Store F)
      (ks : List Chunk) (fingerprint : String) (ds : Dataset F) (w : W) (ds' : Dataset F)
      (made : Conversion F) (w' : W)
      → convert_anew p z files lines directory name_of dumped old rule s ks fingerprint ds w
        ≡ (ok (ds', made), w')
      → (made.tick_count ≡ ticks_of made.files)
        × (made.dataset_fingerprint ≡ fingerprint)
        × (ds'.convert ≡ some made)
  unfolding convert_anew
  convert_anew-IsCounted dumped old rule s ks fingerprint ds w ds' made w' h =
      after (files.mkdir directory) _ w (ds', made) w' h
        λ u w₁ e₁ h₁.
          after old _ w₁ (ds', made) w' h₁
            λ stale w₂ e₂ h₂.
              after (remove_all p z files lines directory name_of stale) _ w₂ (ds', made) w' h₂
                λ v w₃ e₃ h₃.
                  after (convert_all p z files lines directory name_of rule s ds.manifest ks) _ w₃
                    (ds', made) w' h₃
                    λ a w₄ e₄ h₄.
                      after files.now _ w₄ (ds', made) w' h₄
                        λ now w₅ e₅ h₅.
                          after (save_manifest files _ s.root s.manifest_path ds.manifest) _ w₅
                            (ds', made) w' h₅
                            λ m w₆ e₆ h₆.
                              let counted : a.0.total ≡ ticks_of a.1 =
                                convert_all-IsCounted p z files lines directory name_of rule s
                                  ds.manifest ks w₃ a.0 a.1 w₄ e₄ in
                              let answer = ok_path (ap (λ r. r.0) h₆) in
                              (
                                ap (λ r. r.1.tick_count) (sym answer)
                                    ∙ counted
                                    ∙ ap (λ r. ticks_of r.1.files) answer,
                                ap (λ r. r.1.dataset_fingerprint) (sym answer),
                                ap (λ r. r.0.convert) (sym answer) ∙ ap (λ r. some r.1) answer,
                              )

  reused_lem :
      (o : Option (Conversion F)) (ds : Dataset F) (w : W) (ds' : Dataset F) (made : Conversion F)
      (w' : W)
      → reused p z files lines directory name_of o ds w ≡ (ok (ds', made), w')
      → (o ≡ some made) × (ds' ≡ ds)
  reused_lem none ds w ds' made w' h = absurd (ground arith)
  reused_lem (some c) ds w ds' made w' h =
      let answer : Path (Dataset F × Conversion F) (ds, c) (ds', made) =
        ok_path (ap (λ r. r.0) h) in
      (ap (λ r. some r.1) answer, ap (λ r. r.0) (sym answer))

  -- The earlier conversion with nothing changed, or a new one that counts the ticks of its files.
  abbrev pub IsConversionOf : Dataset F → Dataset F → Conversion F → Type 0
  IsConversionOf ds ds' made =
      ((ds.convert ≡ some made) × (ds' ≡ ds))
      ⊎ ((made.tick_count ≡ ticks_of made.files)
          × (made.dataset_fingerprint ≡ dataset_fingerprint p ds.manifest)
          × (ds'.convert ≡ some made))

  -- A conversion is returned only for a data set that passed the validation and has not changed since:
  -- the earlier one with nothing changed, or a new one that counts the ticks of its files, states the
  -- data that it was made from, and is kept.
  pub run_convert-IsValidated :
      (dumped : Dataset F → String) (old : Act W (List String)) (rule : Rule F) (s : Store F)
      (force : Bool) (ks : List Chunk) (ds : Dataset F) (w : W) (ds' : Dataset F)
      (made : Conversion F) (w' : W)
      → run_convert p z files lines directory name_of dumped old rule s force ks ds w
        ≡ (ok (ds', made), w')
      → IsValidated ds.validation (dataset_fingerprint p ds.manifest) × IsConversionOf ds ds' made
  unfolding run_convert
  run_convert-IsValidated dumped old rule s force ks ds w ds' made w' h =
      after_lift
        (validated p z files lines directory name_of ds.validation
          (dataset_fingerprint p ds.manifest))
        _ w (ds', made) w' h
        λ u e₁ h₁.
          after
            (is_current p z files lines directory name_of force ds.convert
              (dataset_fingerprint p ds.manifest) rule)
            _ w (ds', made) w' h₁
            λ current w₁ e₂ h₂.
              (validated-IsValidated ds.validation _ u e₁, by_currency current w₁ h₂)
    where
      by_currency :
          (current : Bool) (w₁ : W)
          → (if current
                then reused p z files lines directory name_of ds.convert ds
                else convert_anew p z files lines directory name_of dumped old rule s ks
                    (dataset_fingerprint p ds.manifest)
                    ds)
              w₁
            ≡ (ok (ds', made), w')
          → IsConversionOf ds ds' made
      by_currency true w₁ h = inl (reused_lem ds.convert ds w₁ ds' made w' h)
      by_currency false w₁ h = inr (
          convert_anew-IsCounted dumped old rule s ks (dataset_fingerprint p ds.manifest) ds w₁ ds'
            made w' h)
