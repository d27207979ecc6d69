-- ===== src/Tests/Downloading.antt =====
-- A download with a provider that fails at first, one that always fails, and a run.
use ea_trading_system.Prelude.{
  ℕ, zero, suc, ◌+◌, pos, String, ◌≡◌, refl, sym, ap, true, false, Option, none, some, [], ◌∷◌,
}
use ea_trading_system.Errors.{Exc, Result, ok, err, os_error, provider_error}
use ea_trading_system.Act.{Act, Returns}
use ea_trading_system.Tickdata.Chunks.{Chunk}
use ea_trading_system.Tickdata.Store.{
  Files, Fetched, Download, pending, fetched, Normalized, Entry, Manifest, save_manifest,
  atomic_write_text,
}
use ea_trading_system.Tickdata.Download.{
  Provider, RetryPolicy, Store, StageResult, no_result, attempts_from, try_once, is_empty_raw,
  backoff_seconds, already_downloaded, fetch_chunk, download_chunks, run_download,
}
use ea_trading_system.Tickdata.Attempts.{
  IsOutcome, IsRetryable, provider_failed, attempts_from-IsOutcome, attempts_from-Returns,
}
use ea_trading_system.Tickdata.Resume.{FilesLaws, attempts_from-already}
use ea_trading_system.Tickdata.Reported.{AreReported, run_download-AreReported}
use ea_trading_system.Tickdata.Stage.{
  normalizer_version, normalize_download, up_to_date, renew, normalize_chunk,
}
use ea_trading_system.Tickdata.Fresh.{IsRenewed, normalize_chunk-IsRenewed}
use ea_trading_system.Tests.World.{p}

-- The world counts the calls of the provider. Every file has a header and a row.
abbrev pub files : Files ℕ
files = record {
  mkdir = λ path w. (ok tt, w);
  exists = λ path w. (ok true, w);
  size = λ path w. (ok 2, w);
  read_bytes = λ path w. (ok (10 ∷ 65 ∷ []), w);
  write_text = λ path text w. (ok tt, w);
  make_new = λ path w. (ok true, w);
  replace = λ source target w. (ok tt, w);
  unlink = λ path w. (ok tt, w);
  now = λ w. (ok "1970-01-01T00:00:00Z", w);
}

files_laws : FilesLaws files
files_laws = record {
  size_reads = λ path w n w' h. sym (ap (λ a. a.1) h);
  bytes_read = λ path w content w' h. sym (ap (λ a. a.1) h);
  size_exists = λ path w n h. refl;
}

abbrev sleep : ℕ → Act ℕ (Unit {0})
sleep x w = (ok tt, w)

abbrev first_fails : ℕ → Result (Unit {0})
first_fails zero = err (provider_error true)
first_fails (suc n) = ok tt

abbrev flaky : Provider ℕ ℕ
flaky = record {
  raw_suffix = ".csv";
  download_chunk = λ k path w. (first_fails w, w + 1);
  iter_rows = λ path w. (ok [], w);
}

abbrev broken : Provider ℕ ℕ
broken = record {
  raw_suffix = ".csv";
  download_chunk = λ k path w. (err (provider_error true), w + 1);
  iter_rows = λ path w. (ok [], w);
}

abbrev policy : RetryPolicy ℕ
policy = record { max_attempts = 3; initial_backoff_seconds = 2; max_backoff_seconds = 60 }

abbrev pub chunk : Chunk
chunk = record {
  chunk_id = "day";
  start_ms = pos 0;
  end_ms = pos 86_400_000;
  first_date = 1;
  last_date = 1;
}

abbrev second_try : Fetched
second_try = record {
  empty = false;
  attempts = 2;
  downloaded_at = "1970-01-01T00:00:00Z";
  raw_file = "day.csv";
  bytes = 2;
  sha256 = "body-hash";
}

second_try_run :
    attempts_from p files sleep flaky policy 3 chunk "day.csv" "raw/day.csv" "raw/day.csv.part" 1
      none 0
    ≡ (ok (fetched second_try), 2)
unfolding attempts_from try_once is_empty_raw backoff_seconds
second_try_run = refl

attempts_from-IsOutcome_example : IsOutcome p files sleep flaky policy 1 3 (fetched second_try)
attempts_from-IsOutcome_example =
    attempts_from-IsOutcome p files sleep flaky policy chunk "day.csv" "raw/day.csv"
      "raw/day.csv.part" 0 (fetched second_try) 2 second_try_run

attempts_from-already_example :
    already_downloaded p files (fetched second_try) "raw/day.csv" 2 ≡ (ok true, 2)
attempts_from-already_example =
    attempts_from-already p files sleep flaky policy files_laws chunk "day.csv" "raw/day.csv"
      "raw/day.csv.part" 0 second_try 2 second_try_run

abbrev exc_of : {A : Type 0} → Result A → Exc
exc_of (ok a) = os_error
exc_of (err e) = e

broken_retries :
    (n : ℕ) (w : ℕ) (x : Exc) (w' : ℕ)
    → try_once p files sleep broken policy chunk "day.csv" "raw/day.csv" "raw/day.csv.part" n w
      ≡ (err x, w')
    → IsRetryable x
unfolding try_once
broken_retries n w x w' h = rw (← ap (λ a. exc_of a.0) h) provider_failed

attempts_from-Returns_example :
    Returns
      (attempts_from p files sleep broken policy 3 chunk "day.csv" "raw/day.csv" "raw/day.csv.part"
        1 none)
      0
attempts_from-Returns_example =
    attempts_from-Returns p files sleep broken policy "raw/day.csv.part" (λ w. (w, refl))
      (λ x w. (w, refl)) chunk "day.csv" "raw/day.csv" broken_retries 3 1 none 0

abbrev pub store : Store ℕ
store = record {
  root = "data";
  raw_dir = "raw";
  normalized_dir = "normalized";
  manifest_path = "data/dataset.json";
  retry = policy;
  dumped = λ m. "{}";
}

abbrev manifest_with :
    Download → Option Normalized → Option String → Option String → Option String → Manifest
manifest_with d n format version updated = record {
  chunks =
      ("day", record { start = "1970-01-01"; end_time = "1970-01-02"; download = d; normalize = n })
      ∷ [];
  normalized_format = format;
  normalizer_version = version;
  updated_at = updated;
}

abbrev reported : StageResult
reported = record { done = "day" ∷ []; skipped = []; failed = [] }

downloaded :
    run_download p files sleep flaky policy store false
      (chunk ∷ [])
      (manifest_with pending none none none none)
      0
    ≡ (
      ok (
        manifest_with (fetched second_try) none none none (some "1970-01-01T00:00:00Z"),
        reported,
      ),
      2,
    )
unfolding run_download download_chunks fetch_chunk attempts_from try_once is_empty_raw
    backoff_seconds already_downloaded save_manifest atomic_write_text
downloaded = refl

run_download-AreReported_example :
    AreReported p files sleep flaky policy store
      (chunk ∷ [])
      (manifest_with pending none none none none)
      no_result
      (manifest_with (fetched second_try) none none none (some "1970-01-01T00:00:00Z"))
      reported
run_download-AreReported_example =
    run_download-AreReported p files sleep flaky policy store false (chunk ∷ [])
      (manifest_with pending none none none none) 0
      (manifest_with (fetched second_try) none none none (some "1970-01-01T00:00:00Z")) reported 2
      downloaded

abbrev without_rows : Fetched
without_rows = record {
  empty = true;
  attempts = 1;
  downloaded_at = "1970-01-01T00:00:00Z";
  raw_file = "day.csv";
  bytes = 0;
  sha256 = "body-hash";
}

abbrev no_ticks : Normalized
no_ticks = record {
  empty = true;
  raw_sha256 = "body-hash";
  normalizer_version = normalizer_version;
  normalized_at = "1970-01-01T00:00:00Z";
  stats = none;
}

abbrev renewed : Manifest
renewed =
    manifest_with (fetched without_rows) (some no_ticks) none none (some "1970-01-01T00:00:00Z")

abbrev unrenewed : Entry
unrenewed = record {
  start = "1970-01-01";
  end_time = "1970-01-02";
  download = fetched without_rows;
  normalize = none;
}

normalized :
    normalize_chunk p files flaky store false chunk unrenewed
      (fetched without_rows)
      (manifest_with (fetched without_rows) none none none none)
      no_result
      0
    ≡ (ok (renewed, reported), 0)
unfolding normalize_chunk renew up_to_date normalize_download save_manifest atomic_write_text
normalized = refl

normalize_chunk-IsRenewed_example :
    IsRenewed p files flaky store chunk unrenewed without_rows
      (manifest_with (fetched without_rows) none none none none)
      renewed
normalize_chunk-IsRenewed_example =
    normalize_chunk-IsRenewed p files flaky store false chunk unrenewed without_rows
      (manifest_with (fetched without_rows) none none none none) no_result 0 renewed reported 0
      normalized
