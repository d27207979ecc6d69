-- ===== src/Tickdata/Convert/Run.antt =====
-- convert.py: `run_convert`, with its refusals and the reuse of an earlier conversion.
use ea_trading_system.Prelude.{
  ℤ, String, ◌&◌, ◌==◌, Bool, true, false, ◌&&◌, Option, none, some, List, [], ◌∷◌, one_of,
  if◌then◌else◌,
}
use ea_trading_system.Errors.{Result, ok, err, runtime_error, other_error}
use ea_trading_system.Act.{Act, pure, raise, lift, ◌>>=◌, ◌>>◌}
use ea_trading_system.Python.{Python}
use ea_trading_system.Tickdata.Chunks.{Chunk}
use ea_trading_system.Tickdata.Times.{Zones, Rule, utc_ms_to_iso}
use ea_trading_system.Tickdata.Store.{Files, Manifest, save_manifest}
use ea_trading_system.Tickdata.Download.{Store}
use ea_trading_system.Tickdata.Convert.{
  conversion_version, status_complete, mt5_target, Validation, Closed, Conversion, Dataset,
  Converting, dataset_fingerprint, same_rule,
}
use ea_trading_system.Tickdata.Convert.Lines.{convert_all}

module _ {F W : Type 0} (p : Python F) (z : Zones) (files : Files W)
    (lines : String → Act W (List String)) (directory : String) (name_of : String → String) where
  abbrev pub all_exist : List Closed → Act W Bool
  all_exist [] = pure true
  all_exist (f ∷ fs) = files.exists (directory & ("/" & f.name)) >>= λ there.
      if there then all_exist fs else pure false

  abbrev pub files_exist : Bool → List Closed → Act W Bool
  files_exist false fs = pure false
  files_exist true fs = all_exist fs

  -- `_is_up_to_date`
  unfoldable pub is_up_to_date : Option (Conversion F) → String → Rule F → Act W Bool
  is_up_to_date none fingerprint rule = pure false
  is_up_to_date (some c) fingerprint rule =
      files_exist
        ((c.status == status_complete)
          && (c.dataset_fingerprint == fingerprint)
          && (c.conversion_version == conversion_version)
          && same_rule p c.server_time rule)
        c.files

  abbrev iso_of : Option ℤ → Option String
  iso_of none = none
  iso_of (some t) = some (utc_ms_to_iso z t)

  abbrev first_time : List Closed → Option String
  first_time [] = none
  first_time (f ∷ fs) = some f.first_server_time

  abbrev last_time : List Closed → Option String
  last_time [] = none
  last_time (f ∷ []) = some f.last_server_time
  last_time (f ∷ g ∷ fs) = last_time (g ∷ fs)

  abbrev pub conversion_of : Rule F → String → String → Converting → List Closed → Conversion F
  conversion_of rule now fingerprint c closed = record {
    status = status_complete;
    target = mt5_target;
    conversion_version = conversion_version;
    converted_at = now;
    server_time = rule;
    dataset_fingerprint = fingerprint;
    tick_count = c.total;
    first_server_time = first_time closed;
    last_server_time = last_time closed;
    first_utc = iso_of c.first_utc;
    last_utc = iso_of c.last_utc;
    files = closed;
  }

  abbrev pub remove_all : List String → Act W (Unit {0})
  remove_all [] = pure tt
  remove_all (f ∷ fs) = files.unlink f >> remove_all fs

  abbrev pub validated : Option Validation → String → Result (Unit {0})
  validated none fingerprint = err runtime_error
  validated (some v) fingerprint =
      if one_of ("PASS" ∷ "WARN" ∷ []) v.status && (v.dataset_fingerprint == fingerprint)
      then ok tt
      else err runtime_error

  -- The entries of the later stages are removed.
  abbrev pub with_conversion : Dataset F → Conversion F → Dataset F
  with_conversion ds c = record {
    manifest = ds.manifest;
    validation = ds.validation;
    convert = some c;
    import_result = none;
    mt5_verification = none;
    history_quality = none;
  }

  abbrev pub with_manifest : Dataset F → Manifest → Dataset F
  with_manifest ds m = record {
    manifest = m;
    validation = ds.validation;
    convert = ds.convert;
    import_result = ds.import_result;
    mt5_verification = ds.mt5_verification;
    history_quality = ds.history_quality;
  }

  -- What follows when the conversion is not up to date; `old` are the files of an earlier one.
  unfoldable pub convert_anew :
      (Dataset F → String)
      → Act W (List String)
      → Rule F
      → Store F
      → List Chunk
      → String
      → Dataset F
      → Act W (Dataset F × Conversion F)
  convert_anew dumped old rule s ks fingerprint ds = do
    files.mkdir directory
    stale ← old
    remove_all stale
    (c, closed) ← convert_all p z files lines directory name_of rule s ds.manifest ks
    now ← files.now
    m ←
        save_manifest files
          (λ m.
            dumped
              (with_manifest (with_conversion ds (conversion_of rule now fingerprint c closed)) m))
          s.root s.manifest_path ds.manifest
    pure (
      with_manifest (with_conversion ds (conversion_of rule now fingerprint c closed)) m,
      conversion_of rule now fingerprint c closed,
    )

  abbrev pub reused : Option (Conversion F) → Dataset F → Act W (Dataset F × Conversion F)
  reused none ds = raise other_error
  reused (some c) ds = pure (ds, c)

  abbrev pub is_current : Bool → Option (Conversion F) → String → Rule F → Act W Bool
  is_current true c fingerprint rule = pure false
  is_current false c fingerprint rule = is_up_to_date c fingerprint rule

  unfoldable pub run_convert :
      (Dataset F → String)
      → Act W (List String)
      → Rule F
      → Store F
      → Bool
      → List Chunk
      → Dataset F
      → Act W (Dataset F × Conversion F)
  run_convert dumped old rule s force ks ds = do
    lift (validated ds.validation (dataset_fingerprint p ds.manifest))
    current ← is_current force ds.convert (dataset_fingerprint p ds.manifest) rule
    if current
        then reused ds.convert ds
        else convert_anew dumped old rule s ks (dataset_fingerprint p ds.manifest) ds
