-- ===== src/Tickdata/Store.antt =====
-- store.py: the files of a data set and its manifest.
use ea_trading_system.Prelude.{
  ℕ, String, ◌&◌, Bool, true, false, ◌==◌, Option, none, some, List, [], ◌∷◌, if◌then◌else◌,
}
use ea_trading_system.Errors.{Exc, Result, ok, err, key_error, runtime_error}
use ea_trading_system.Act.{Act, pure, raise, ◌>>=◌, ◌>>◌}
use ea_trading_system.Tickdata.Normalize.{Counter}

-- What the code takes from `os` and `pathlib`. A path is a text, and bytes are numbers. `make_new`
-- is `os.open` with O_CREAT | O_EXCL, whose FileExistsError is a `false`; `unlink` is with
-- missing_ok. `now` is `utc_now_iso`.
pub record Files (W : Type 0) : Type 0 where
  pub mkdir : String → Act W (Unit {0})
  pub exists : String → Act W Bool
  pub size : String → Act W ℕ
  pub read_bytes : String → Act W (List ℕ)
  pub write_text : String → String → Act W (Unit {0})
  pub make_new : String → Act W Bool
  pub replace : (source target : String) → Act W (Unit {0})
  pub unlink : String → Act W (Unit {0})
  pub now : Act W String

-- entry["download"]: {"status": "complete" or "empty", ...}, with `empty` for its status
pub record Fetched : Type 0 where
  pub empty : Bool
  pub attempts : ℕ
  pub downloaded_at : String
  pub raw_file : String
  pub bytes : ℕ
  pub sha256 : String

-- The text of the last error is modelled by the exception, `none` if there was none.
pub data Download : Type 0 where
  pending : Download
  fetched : Fetched → Download
  failed : (attempts : ℕ) (error : Option Exc) → Download

-- What `normalize_file` counts, and the file that it wrote.
pub record Stats : Type 0 where
  pub file : String
  pub bytes : ℕ
  pub sha256 : String
  pub ticks_in : ℕ
  pub ticks_out : ℕ
  pub duplicates_removed : ℕ
  pub rejected : Counter

-- entry["normalize"], once it is not pending; an empty download has no file.
pub record Normalized : Type 0 where
  pub empty : Bool
  pub raw_sha256 : String
  pub normalizer_version : String
  pub normalized_at : String
  pub stats : Option Stats

pub record Entry : Type 0 where
  pub start : String
  pub end_time : String
  pub download : Download
  pub normalize : Option Normalized

pub record Manifest : Type 0 where
  pub chunks : List (String × Entry)
  pub normalized_format : Option String
  pub normalizer_version : Option String
  pub updated_at : Option String

-- manifest["chunks"][id] = entry, for an id that is there
abbrev pub set_entry : String → Entry → List (String × Entry) → List (String × Entry)
set_entry id e [] = []
set_entry id e ((j, d) ∷ rest) =
    let later = set_entry id e rest in if j == id then (j, e) ∷ rest else (j, d) ∷ later

abbrev pub with_entry : String → Entry → Manifest → Manifest
with_entry id e m = record {
  chunks = set_entry id e m.chunks;
  normalized_format = m.normalized_format;
  normalizer_version = m.normalizer_version;
  updated_at = m.updated_at;
}

abbrev pub stamped : String → Manifest → Manifest
stamped now m = record {
  chunks = m.chunks;
  normalized_format = m.normalized_format;
  normalizer_version = m.normalizer_version;
  updated_at = some now;
}

-- d[key], which raises KeyError
abbrev pub item {ℓ} : {A : Type ℓ} → Option A → Result A
item none = err key_error
item (some a) = ok a

module _ {W : Type 0} (files : Files W) where
  unfoldable pub atomic_write_text : (parent path text : String) → Act W (Unit {0})
  atomic_write_text parent path text = do
    files.mkdir parent
    files.write_text (path & ".part") text
    files.replace (path & ".part") path

  -- `save_manifest`; `dumped` is `json.dumps` of the manifest and a line break.
  unfoldable pub save_manifest :
      (Manifest → String) → (root path : String) → Manifest → Act W Manifest
  save_manifest dumped root path m = do
    now ← files.now
    atomic_write_text root path (dumped (stamped now m))
    pure (stamped now m)

  -- `finally`: the file is removed whatever the result is, and an error of that replaces it.
  abbrev finally : {A : Type 0} → Act W (Unit {0}) → Result A × W → Result A × W
  finally last r = (last >> λ w. (r.0, w)) r.1

  abbrev with_lock : {A : Type 0} → Bool → String → String → Act W A → Act W A
  with_lock false path pid body = raise runtime_error
  with_lock true path pid body =
      λ w. finally (files.unlink path) ((files.write_text path pid >> body) w)

  -- `locked`, around the code that runs under the lock.
  unfoldable pub locked : {A : Type 0} → (root path pid : String) → Act W A → Act W A
  locked root path pid body = do
    files.mkdir root
    fresh ← files.make_new path
    with_lock fresh path pid body
