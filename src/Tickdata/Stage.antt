-- ===== src/Tickdata/Stage.antt =====
-- normalize.py: `normalize_file` and `run_normalize`.
use ea_trading_system.Prelude.{
  ℕ, nat_eq, String, ◌&◌, ◌==◌, Bool, true, false, ◌&&◌, Option, none, some, List, [], ◌∷◌, lookup,
}
use ea_trading_system.Act.{Act, pure, lift, ◌>>=◌, ◌>>◌}
use ea_trading_system.Python.{Python}
use ea_trading_system.Tickdata.Chunks.{Chunk}
use ea_trading_system.Tickdata.Model.{Tick, normalized_header, format_normalized_row}
use ea_trading_system.Tickdata.Normalize.{Progress, normalize_rows, started}
use ea_trading_system.Tickdata.Store.{
  Files, Fetched, Download, pending, fetched, failed, Stats, Normalized, Entry, Manifest,
  with_entry, item, save_manifest,
}
use ea_trading_system.Tickdata.Download.{
  Provider, Store, StageResult, no_result, add_done, add_skipped, add_failed, raw_path,
  normalized_path,
}

abbrev pub normalizer_version : String
normalizer_version = "1"

abbrev pub normalized_format : String
normalized_format = "tickdata-csv-v1"

abbrev pub with_formats : Manifest → Manifest
with_formats m = record {
  chunks = m.chunks;
  normalized_format = some normalized_format;
  normalizer_version = some normalizer_version;
  updated_at = m.updated_at;
}

abbrev pub with_normalized : Normalized → Entry → Entry
with_normalized n e = record {
  start = e.start;
  end_time = e.end_time;
  download = e.download;
  normalize = some n;
}

module _ {F : Type 0} (p : Python F) where
  open p use {sha256}

  -- The lines of the file, for the ticks that were written.
  abbrev pub lines_of : List (Tick F) → String
  lines_of [] = ""
  lines_of (t ∷ ts) = format_normalized_row p t & ("\n" & lines_of ts)

  module _ {W : Type 0} (files : Files W) (provider : Provider F W) (s : Store F) where
    -- The rows are read and their lines are written before the file takes its name.
    unfoldable pub normalize_file : Chunk → (raw output : String) → Act W (Progress F)
    normalize_file k raw output = do
      files.mkdir s.normalized_dir
      files.write_text (output & ".part") (normalized_header & "\n")
      rows ← provider.iter_rows raw
      let stats : Progress F = normalize_rows p k rows started in
          files.write_text (output & ".part") (normalized_header & ("\n" & lines_of stats.written))
          >> files.replace (output & ".part") output
          >> pure stats

    abbrev pub stats_of : String → ℕ → String → Progress F → Stats
    stats_of file bytes digest a = record {
      file = file;
      bytes = bytes;
      sha256 = digest;
      ticks_in = a.ticks_in;
      ticks_out = a.ticks_out;
      duplicates_removed = a.duplicates;
      rejected = a.rejected;
    }

    -- The record of a chunk that is not up to date, for an empty download and for another.
    unfoldable pub normalize_download : Chunk → Fetched → Bool → Act W Normalized
    normalize_download k d true = do
      files.unlink (normalized_path s k.chunk_id)
      now ← files.now
      pure (record {
        empty = true;
        raw_sha256 = d.sha256;
        normalizer_version = normalizer_version;
        normalized_at = now;
        stats = none;
      })
    normalize_download k d false = do
      stats ←
          normalize_file k (raw_path s k.chunk_id provider.raw_suffix)
            (normalized_path s k.chunk_id)
      now ← files.now
      n ← files.size (normalized_path s k.chunk_id)
      content ← files.read_bytes (normalized_path s k.chunk_id)
      pure (record {
        empty = nat_eq stats.ticks_out 0;
        raw_sha256 = d.sha256;
        normalizer_version = normalizer_version;
        normalized_at = now;
        stats = some (stats_of (k.chunk_id & ".csv") n (sha256 content) stats);
      })

    abbrev pub file_is_there : Bool → String → Act W Bool
    file_is_there true path = pure true
    file_is_there false path = files.exists path

    abbrev pub matches : Bool → Normalized → String → Act W Bool
    matches false n path = pure false
    matches true n path = file_is_there n.empty path

    abbrev pub is_current : Fetched → Normalized → Bool
    is_current d n = (n.raw_sha256 == d.sha256) && (n.normalizer_version == normalizer_version)

    -- `up_to_date`
    unfoldable pub up_to_date : Bool → Fetched → Option Normalized → String → Act W Bool
    up_to_date true d n path = pure false
    up_to_date false d none path = pure false
    up_to_date false d (some n) path = matches (is_current d n) n path

    -- A chunk's turn, when it is known whether it is skipped.
    unfoldable pub renew :
        Bool → Chunk → Entry → Fetched → Manifest → StageResult → Act W (Manifest × StageResult)
    renew true k e d m r = pure (m, add_skipped k.chunk_id r)
    renew false k e d m r = do
      n ← normalize_download k d d.empty
      m' ←
          save_manifest files s.dumped s.root s.manifest_path
            (with_entry k.chunk_id (with_normalized n e) m)
      pure (m', add_done k.chunk_id r)

    unfoldable pub normalize_chunk :
        Bool → Chunk → Entry → Download → Manifest → StageResult → Act W (Manifest × StageResult)
    normalize_chunk force k e (fetched d) m r = do
      skip ← up_to_date force d e.normalize (normalized_path s k.chunk_id)
      renew skip k e d m r
    normalize_chunk force k e pending m r = pure (m, add_failed k.chunk_id r)
    normalize_chunk force k e (failed n x) m r = pure (m, add_failed k.chunk_id r)

    unfoldable pub normalize_chunks :
        Bool → List Chunk → Manifest → StageResult → Act W (Manifest × StageResult)
    normalize_chunks force [] m r = pure (m, r)
    normalize_chunks force (k ∷ ks) m r = do
      e ← lift (item (lookup k.chunk_id m.chunks))
      (m', r') ← normalize_chunk force k e e.download m r
      normalize_chunks force ks m' r'

    unfoldable pub run_normalize : Bool → List Chunk → Manifest → Act W (Manifest × StageResult)
    run_normalize force ks m = normalize_chunks force ks (with_formats m) no_result
