-- ===== src/Tickdata/Download.antt =====
-- download.py: the download of the chunks of a data set, with its retries.
use ea_trading_system.Prelude.{
  ℕ, zero, suc, ◌+◌, ◌-◌, ◌^◌, ltb, nat_eq, String, ◌&◌, Bool, true, false, ◌&&◌, ◌||◌, all, Option,
  none, some, List, [], ◌∷◌, ◌++◌, lookup, if◌then◌else◌,
}
use ea_trading_system.Errors.{Exc, os_error, timeout_error, provider_error}
use ea_trading_system.Act.{Act, pure, raise, lift, catch, require, ◌>>=◌, ◌>>◌}
use ea_trading_system.Python.{Python}
use ea_trading_system.Tickdata.Chunks.{Chunk}
use ea_trading_system.Tickdata.Model.{Row}
use ea_trading_system.Tickdata.Times.{Zones, utc_ms_to_iso}
use ea_trading_system.Tickdata.Store.{
  Files, Download, pending, fetched, failed, Entry, Manifest, with_entry, item, save_manifest,
}

-- `TickProvider`
pub record Provider (F W : Type 0) : Type 0 where
  pub raw_suffix : String
  pub download_chunk : Chunk → String → Act W (Unit {0})
  pub iter_rows : String → Act W (List (Row F))

pub record StageResult : Type 0 where
  pub done : List String
  pub skipped : List String
  pub failed : List String

abbrev pub no_result : StageResult
no_result = record { done = []; skipped = []; failed = [] }

abbrev pub add_done : String → StageResult → StageResult
add_done id r = record { done = r.done ++ (id ∷ []); skipped = r.skipped; failed = r.failed }

abbrev pub add_skipped : String → StageResult → StageResult
add_skipped id r = record { done = r.done; skipped = r.skipped ++ (id ∷ []); failed = r.failed }

abbrev pub add_failed : String → StageResult → StageResult
add_failed id r = record { done = r.done; skipped = r.skipped; failed = r.failed ++ (id ∷ []) }

-- `RetryPolicy`
pub record RetryPolicy (F : Type 0) : Type 0 where
  pub max_attempts : ℕ
  pub initial_backoff_seconds : F
  pub max_backoff_seconds : F

-- `DatasetStore`: the paths that the code uses, and the text of a manifest.
pub record Store (F : Type 0) : Type 0 where
  pub root : String
  pub raw_dir : String
  pub normalized_dir : String
  pub manifest_path : String
  pub retry : RetryPolicy F
  pub dumped : Manifest → String

abbrev pub file_of : (chunk_id suffix : String) → String
file_of chunk_id suffix = chunk_id & suffix

abbrev pub raw_path : {F : Type 0} → Store F → (chunk_id suffix : String) → String
raw_path s chunk_id suffix = s.raw_dir & ("/" & file_of chunk_id suffix)

abbrev pub normalized_path : {F : Type 0} → Store F → (chunk_id : String) → String
normalized_path s chunk_id = s.normalized_dir & ("/" & (chunk_id & ".csv"))

-- `entries.setdefault(id, entry)`
abbrev setdefault : Option Entry → String → Entry → List (String × Entry) → List (String × Entry)
setdefault (some d) id e entries = entries
setdefault none id e entries = entries ++ ((id, e) ∷ [])

unfoldable pub ensure_chunk_entries :
    Zones → List (String × Entry) → List Chunk → List (String × Entry)
ensure_chunk_entries z entries [] = entries
ensure_chunk_entries z entries (k ∷ ks) =
    ensure_chunk_entries z
      (setdefault (lookup k.chunk_id entries) k.chunk_id
        (record {
          start = utc_ms_to_iso z k.start_ms;
          end_time = utc_ms_to_iso z k.end_ms;
          download = pending;
          normalize = none;
        })
        entries)
      ks

-- What follows the first line, and a line: `handle.readline()`
abbrev second_line : List ℕ → List ℕ
second_line [] = []
second_line (b ∷ bs) = if nat_eq b b'\n' then bs else second_line bs

abbrev first_line : List ℕ → List ℕ
first_line [] = []
first_line (b ∷ bs) = let rest = first_line bs in if nat_eq b b'\n' then [] else b ∷ rest

-- The bytes that `bytes.strip` removes.
abbrev is_space : ℕ → Bool
is_space b = nat_eq b 32 || (ltb 8 b && ltb b 14)

-- `handle.readline().strip() == b""` on the second line
abbrev pub has_no_rows : List ℕ → Bool
has_no_rows bytes = all is_space (first_line (second_line bytes))

module _ {F : Type 0} (p : Python F) where
  open p use {lt, mul, lit, sha256}

  unfoldable pub backoff_seconds : RetryPolicy F → ℕ → F
  backoff_seconds policy failed_attempts =
      let x = mul policy.initial_backoff_seconds (lit (2 ^ (failed_attempts - 1))) in
      if lt policy.max_backoff_seconds x then policy.max_backoff_seconds else x

  module _ {W : Type 0} (files : Files W) where
    abbrev pub empty_by_size : ℕ → String → Act W Bool
    empty_by_size zero path = pure true
    empty_by_size (suc n) path = files.read_bytes path >>= λ bytes. pure (has_no_rows bytes)

    unfoldable pub is_empty_raw : String → Act W Bool
    is_empty_raw path = files.size path >>= λ n. empty_by_size n path

    abbrev pub same_size : Bool → String → ℕ → Act W Bool
    same_size false path bytes = pure false
    same_size true path bytes = files.size path >>= λ n. pure (nat_eq n bytes)

    abbrev pub complete_file : Bool → String → ℕ → Act W Bool
    complete_file true path bytes = pure true
    complete_file false path bytes = files.exists path >>= λ there. same_size there path bytes

    unfoldable pub already_downloaded : Download → String → Act W Bool
    already_downloaded (fetched d) path = complete_file d.empty path d.bytes
    already_downloaded pending path = pure false
    already_downloaded (failed n e) path = pure false

    module _ (sleep : F → Act W (Unit {0})) (provider : Provider F W) (policy : RetryPolicy F) where
      -- The body of the `try`.
      unfoldable pub try_once : Chunk → (raw_file raw part : String) → ℕ → Act W Download
      try_once k raw_file raw part attempt = do
        provider.download_chunk k part
        there ← files.exists part
        require there (provider_error true)
        empty ← is_empty_raw part
        files.replace part raw
        now ← files.now
        n ← files.size raw
        content ← files.read_bytes raw
        pure (
            fetched (record {
              empty = empty;
              attempts = attempt;
              downloaded_at = now;
              raw_file = raw_file;
              bytes = n;
              sha256 = sha256 content;
            }))

      abbrev pub pause : ℕ → Act W (Unit {0})
      pause attempt =
          if ltb attempt policy.max_attempts
          then sleep (backoff_seconds policy attempt)
          else pure tt

      -- The `except` clauses; `next` are the attempts that follow. A timeout is an `OSError`.
      abbrev pub on_error : String → ℕ → (Exc → Act W Download) → Exc → Act W Download
      on_error part attempt next (provider_error false) =
          files.unlink part >> raise (provider_error false)
      on_error part attempt next (provider_error true) = pause attempt >> next (provider_error true)
      on_error part attempt next os_error = pause attempt >> next os_error
      on_error part attempt next timeout_error = pause attempt >> next timeout_error
      on_error part attempt next e = raise e

      -- The loop over the attempts that are left, from the given one on.
      unfoldable pub attempts_from :
          (left : ℕ) → Chunk → (raw_file raw part : String) → ℕ → Option Exc → Act W Download
      attempts_from zero k raw_file raw part attempt last_error =
          files.unlink part >> pure (failed policy.max_attempts last_error)
      attempts_from (suc left) k raw_file raw part attempt last_error =
          files.unlink part
          >> catch (try_once k raw_file raw part attempt) (
              on_error part attempt
                (λ e. attempts_from left k raw_file raw part (attempt + 1) (some e)))

      module _ (s : Store F) where
        abbrev pub recorded : Download → String → StageResult → StageResult
        recorded (fetched d) id r = add_done id r
        recorded pending id r = r
        recorded (failed n e) id r = add_failed id r

        abbrev pub entry_with : Entry → Download → Entry
        entry_with e d = record {
          start = e.start;
          end_time = e.end_time;
          download = d;
          normalize = none;
        }

        -- A chunk's turn, when it is known whether it is skipped.
        unfoldable pub fetch_chunk :
            Bool → Chunk → Entry → Manifest → StageResult → Act W (Manifest × StageResult)
        fetch_chunk true k e m r = pure (m, add_skipped k.chunk_id r)
        fetch_chunk false k e m r = do
          d ←
              attempts_from policy.max_attempts k (file_of k.chunk_id provider.raw_suffix)
                (raw_path s k.chunk_id provider.raw_suffix)
                (raw_path s k.chunk_id provider.raw_suffix & ".part") 1 none
          m' ←
              save_manifest files s.dumped s.root s.manifest_path
                (with_entry k.chunk_id (entry_with e d) m)
          pure (m', recorded d k.chunk_id r)

        -- `not force and _already_downloaded(entry, raw_path)`
        abbrev pub is_skipped : Bool → Chunk → Entry → Act W Bool
        is_skipped true k e = pure false
        is_skipped false k e =
            already_downloaded e.download (raw_path s k.chunk_id provider.raw_suffix)

        unfoldable pub download_chunks :
            Bool → List Chunk → Manifest → StageResult → Act W (Manifest × StageResult)
        download_chunks force [] m r = pure (m, r)
        download_chunks force (k ∷ ks) m r = do
          e ← lift (item (lookup k.chunk_id m.chunks))
          skip ← is_skipped force k e
          (m', r') ← fetch_chunk skip k e m r
          download_chunks force ks m' r'

        unfoldable pub run_download : Bool → List Chunk → Manifest → Act W (Manifest × StageResult)
        run_download force ks m = files.mkdir s.raw_dir >> download_chunks force ks m no_result
