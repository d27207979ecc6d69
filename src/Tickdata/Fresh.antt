-- ===== src/Tickdata/Fresh.antt =====
-- normalize.py, the turn of a chunk: what it leaves in the manifest.
use ea_trading_system.Prelude.{
  String, ℕ, nat_eq, ◌&◌, ◌≡◌, ◌⊎◌, inl, inr, refl, sym, ap, ◌∙◌, eq_iff, Bool, true, false, Option,
  none, some, List, arith,
}
use ea_trading_system.Errors.{ok, ok_path}
use ea_trading_system.Act.{◌>>◌, after}
use ea_trading_system.Python.{Python}
use ea_trading_system.Tickdata.Chunks.{Chunk}
use ea_trading_system.Tickdata.Store.{
  Files, Fetched, Download, pending, fetched, failed, Normalized, Entry, Manifest, set_entry,
  with_entry, stamped, item, save_manifest, atomic_write_text,
}
use ea_trading_system.Tickdata.Model.{Row, normalized_header}
use ea_trading_system.Tickdata.Normalize.{started, normalize_rows}
use ea_trading_system.Tickdata.Download.{Provider, Store, StageResult, raw_path, normalized_path}
use ea_trading_system.Tickdata.Stage.{
  normalizer_version, with_normalized, normalize_download, is_current, up_to_date, renew,
  normalize_chunk, normalize_file, matches, stats_of, lines_of,
}

-- The ticks of an entry are those of its download, by this version of the code.
abbrev pub IsFreshOf : Download → Option Normalized → Type 0
IsFreshOf (fetched d) (some n) =
    (n.raw_sha256 ≡ d.sha256) × (n.normalizer_version ≡ normalizer_version)
IsFreshOf (fetched d) none = ⊥
IsFreshOf pending n = Unit
IsFreshOf (failed k x) n = Unit

pub item_lem : (o : Option Entry) (e : Entry) → item o ≡ ok e → o ≡ some e
item_lem none e h = absurd (ground arith)
item_lem (some d) e h = ap some (ok_path h)

module _ {F W : Type 0} (p : Python F) (files : Files W) (provider : Provider F W)
    (s : Store F) where
  pub save_manifest_lem :
      (m : Manifest) (w : W) (m' : Manifest) (w' : W)
      → save_manifest files s.dumped s.root s.manifest_path m w ≡ (ok m', w')
      → m'.chunks ≡ m.chunks
  unfolding save_manifest
  save_manifest_lem m w m' w' h = after files.now _ w m' w' h λ now w₁ e₁ h₁.
      after (atomic_write_text files s.root s.manifest_path (s.dumped (stamped now m))) _ w₁ m' w'
        h₁ λ u w₂ e₂ h₂. sym (ap (λ o. o.chunks) (ok_path (ap (λ a. a.0) h₂)))

  -- A chunk is skipped only when its ticks are fresh.
  up_to_date_lem :
      (force : Bool) (d : Fetched) (n : Option Normalized) (path : String) (w w' : W)
      → up_to_date p files provider s force d n path w ≡ (ok true, w')
      → IsFreshOf (fetched d) n
  unfolding up_to_date
  up_to_date_lem true d n path w w' h = absurd (ground arith)
  up_to_date_lem false d none path w w' h = absurd (ground arith)
  up_to_date_lem false d (some n) path w w' h = by_tests (is_current p files provider s d n) refl h
    where
      by_tests :
          (b : Bool)
          → is_current p files provider s d n ≡ b
          → matches p files provider s b n path w ≡ (ok true, w')
          → IsFreshOf (fetched d) (some n)
      by_tests false e h = absurd (ground arith)
      by_tests true e h =
          ground
            (arith, e, eq_iff n.raw_sha256 d.sha256, eq_iff n.normalizer_version normalizer_version)

  -- The ticks of a record are those of the rows that were read from the raw file of the chunk: their
  -- lines are the file that took the chunk's name, and their counts are the record's.
  pub record IsMadeFrom (k : Chunk) (n : Normalized) : Type 0 where
    pub rows : List (Row F)
    pub w₁ : W
    pub w₂ : W
    pub w₃ : W
    pub w₄ : W
    pub read : provider.iter_rows (raw_path s k.chunk_id provider.raw_suffix) w₁ ≡ (ok rows, w₂)
    pub wrote :
        files.write_text
          (normalized_path s k.chunk_id & ".part")
          (normalized_header & ("\n" & lines_of p (normalize_rows p k rows started).written))
          w₂
        ≡ (ok tt, w₃)
    pub moved :
        files.replace (normalized_path s k.chunk_id & ".part") (normalized_path s k.chunk_id) w₃
        ≡ (ok tt, w₄)
    pub bytes : ℕ
    pub digest : String
    pub counts :
        n.stats
        ≡ some (
            stats_of p files provider s
              (k.chunk_id & ".csv")
              bytes
              digest
              (normalize_rows p k rows started))
    pub no_ticks : n.empty ≡ nat_eq (normalize_rows p k rows started).ticks_out 0

  -- The record of an empty download has no ticks, and that of another has those of its raw file.
  abbrev pub IsRecordOf : Bool → Chunk → Normalized → Type 0
  IsRecordOf true k n = (n.empty ≡ true) × (n.stats ≡ none)
  IsRecordOf false k n = IsMadeFrom k n

  -- What a turn has done to the manifest: nothing, if the record names the hash of the download and this
  -- version of the code, and otherwise the chunk's entry has a new record, of the download's raw file.
  abbrev pub IsRenewed : Chunk → Entry → Fetched → Manifest → Manifest → Type 0
  IsRenewed k e d m m' =
      ((m' ≡ m) × IsFreshOf (fetched d) e.normalize)
      ⊎ ((n : Normalized) × (m'.chunks ≡ set_entry k.chunk_id (with_normalized n e) m.chunks)
          × IsFreshOf (fetched d) (some n)
          × IsRecordOf d.empty k n)

  normalize_download-IsRecordOf :
      (k : Chunk) (d : Fetched) (empty : Bool) (w : W) (n : Normalized) (w' : W)
      → normalize_download p files provider s k d empty w ≡ (ok n, w')
      → IsFreshOf (fetched d) (some n) × IsRecordOf empty k n
  unfolding normalize_download normalize_file
  normalize_download-IsRecordOf k d true w n w' h =
      after (files.unlink (normalized_path s k.chunk_id)) _ w n w' h λ u w₁ e₁ h₁.
        after files.now _ w₁ n w' h₁
          λ now w₂ e₂ h₂. rw (← ok_path (ap (λ a. a.0) h₂)) ((refl, refl), (refl, refl))
  normalize_download-IsRecordOf k d false w n w' h =
      after
        (normalize_file p files provider s k (raw_path s k.chunk_id provider.raw_suffix)
          (normalized_path s k.chunk_id))
        _ w n w' h
        λ stats w₁ e₁ h₁. after (files.mkdir s.normalized_dir) _ w stats w₁ e₁ λ u v₁ f₁ g₁.
          after (files.write_text _ _) _ v₁ stats w₁ g₁ λ u₁ v₂ f₂ g₂.
            after (provider.iter_rows _) _ v₂ stats w₁ g₂ λ rows v₃ f₃ g₃.
              after (files.write_text _ _ >> files.replace _ _) _ v₃ stats w₁ g₃ λ u₂ v₅ f₀ g₅.
                after (files.write_text _ _) _ v₃ u₂ v₅ f₀ λ u₃ v₄ f₄ f₅.
                  after files.now _ w₁ n w' h₁ λ now w₂ e₂ h₂.
                    after (files.size (normalized_path s k.chunk_id)) _ w₂ n w' h₂ λ bytes w₃ e₃ h₃.
                      after (files.read_bytes (normalized_path s k.chunk_id)) _ w₃ n w' h₃
                        λ content w₄ e₄ h₄.
                          let made : normalize_rows p k rows started ≡ stats =
                            ok_path (ap (λ a. a.0) g₅) in
                          rw (← ok_path (ap (λ a. a.0) h₄)) (
                            (refl, refl),
                            record {
                              rows = rows;
                              w₁ = v₂;
                              w₂ = v₃;
                              w₃ = v₄;
                              w₄ = v₅;
                              read = f₃;
                              wrote = f₄;
                              moved = f₅;
                              bytes = bytes;
                              digest = p.sha256 content;
                              counts =
                                  ap
                                    (λ o. some (
                                      stats_of p files provider s (k.chunk_id & ".csv") bytes
                                        (p.sha256 content) o))
                                    (sym made);
                              no_ticks = ap (λ o. nat_eq o.ticks_out 0) (sym made);
                            },
                          )

  renew-IsRenewed :
      (skip : Bool) (k : Chunk) (e : Entry) (d : Fetched) (m : Manifest) (r : StageResult) (w : W)
      (m' : Manifest) (r' : StageResult) (w' : W)
      → (skip ≡ true → IsFreshOf (fetched d) e.normalize)
      → renew p files provider s skip k e d m r w ≡ (ok (m', r'), w')
      → IsRenewed k e d m m'
  unfolding renew
  renew-IsRenewed true k e d m r w m' r' w' fresh h =
      inl (sym (ap (λ a. a.0) (ok_path (ap (λ a. a.0) h))), fresh refl)
  renew-IsRenewed false k e d m r w m' r' w' fresh h =
      after (normalize_download p files provider s k d d.empty) _ w (m', r') w' h
        λ n w₁ e₁ h₁.
          after
            (save_manifest files s.dumped s.root s.manifest_path
              (with_entry k.chunk_id (with_normalized n e) m))
            _ w₁ (m', r') w' h₁
            λ m₂ w₂ e₂ h₂.
              let same : m₂ ≡ m' = ap (λ a. a.0) (ok_path (ap (λ a. a.0) h₂)) in
              let made = normalize_download-IsRecordOf k d d.empty w n w₁ e₁ in
              inr
                (n, ap (λ o. o.chunks) (sym same) ∙ save_manifest_lem _ w₁ m₂ w₂ e₂, made.0, made.1)

  -- The turn of a downloaded chunk, when it returns, has left the manifest as it was, and then the record
  -- of its ticks names the hash of the recorded download and this version of the code; or it has entered a
  -- new record with both: of no ticks, if the download was empty, and otherwise of the ticks of the rows
  -- that were read from the raw file of the chunk, whose lines were written to the chunk's file.
  pub normalize_chunk-IsRenewed :
      (force : Bool) (k : Chunk) (e : Entry) (d : Fetched) (m : Manifest) (r : StageResult) (w : W)
      (m' : Manifest) (r' : StageResult) (w' : W)
      → normalize_chunk p files provider s force k e (fetched d) m r w ≡ (ok (m', r'), w')
      → IsRenewed k e d m m'
  unfolding normalize_chunk
  normalize_chunk-IsRenewed force k e d m r w m' r' w' h =
      after (up_to_date p files provider s force d e.normalize (normalized_path s k.chunk_id)) _ w
        (m', r') w' h
        λ skip w₁ e₁ h₁.
          renew-IsRenewed skip k e d m r w₁ m' r' w'
            (λ y.
              up_to_date_lem force d e.normalize (normalized_path s k.chunk_id) w w₁
                (e₁ ∙ ap (λ b. (ok b, w₁)) y))
            h₁
