-- ===== src/Tickdata/Reported.antt =====
-- download.py, a whole run: what it reports of each chunk.
use ea_trading_system.Prelude.{
  ◌&◌, ◌≡◌, ◌⊎◌, inl, inr, refl, sym, ap, ◌∙◌, Bool, true, false, Option, none, some, List, [], ◌∷◌,
  ◌++◌, lookup, arith,
}
use ea_trading_system.Errors.{Exc, ok, ok_path}
use ea_trading_system.Act.{Act, after, after_lift}
use ea_trading_system.Python.{Python}
use ea_trading_system.Tickdata.Chunks.{Chunk}
use ea_trading_system.Tickdata.Store.{
  Files, Fetched, Download, fetched, failed, Entry, Manifest, set_entry, with_entry, item,
  save_manifest,
}
use ea_trading_system.Tickdata.Download.{
  Provider, RetryPolicy, Store, StageResult, no_result, file_of, raw_path, already_downloaded,
  attempts_from, fetch_chunk, is_skipped, recorded, entry_with, download_chunks, run_download,
}
use ea_trading_system.Tickdata.Fresh.{item_lem, save_manifest_lem}
use ea_trading_system.Tickdata.Attempts.{attempts_from-IsOutcome}

module _ {F W : Type 0} (p : Python F) (files : Files W) (sleep : F → Act W (Unit {0}))
    (provider : Provider F W) (policy : RetryPolicy F) (s : Store F) where
  -- The chunk was skipped: its recorded download was complete.
  pub record WasSkipped (k : Chunk) (e : Entry) (m m' : Manifest) : Type 0 where
    pub w : W
    pub w' : W
    pub complete :
        already_downloaded p files e.download (raw_path s k.chunk_id provider.raw_suffix) w
        ≡ (ok true, w')
    pub unchanged : m' ≡ m

  -- The attempts for the chunk's file ended with this download, and it is in the chunk's entry.
  pub record WasAttempted (k : Chunk) (e : Entry) (d : Download) (m m' : Manifest) : Type 0 where
    pub w : W
    pub w' : W
    pub run :
        attempts_from p files sleep provider policy policy.max_attempts k
          (file_of k.chunk_id provider.raw_suffix)
          (raw_path s k.chunk_id provider.raw_suffix)
          (raw_path s k.chunk_id provider.raw_suffix & ".part")
          1
          none
          w
        ≡ (ok d, w')
    pub entered :
        m'.chunks
        ≡ set_entry k.chunk_id
            (record { start = e.start; end_time = e.end_time; download = d; normalize = none })
            m.chunks

  -- A chunk's turn: it is reported, under its id, as what it was.
  abbrev pub IsReported : Chunk → Manifest → StageResult → Manifest → StageResult → Type 0
  IsReported k m r m' r' =
      (e : Entry) × (lookup k.chunk_id m.chunks ≡ some e)
      × ((WasSkipped k e m m'
            × (r' ≡ record {
              done = r.done;
              skipped = r.skipped ++ (k.chunk_id ∷ []);
              failed = r.failed;
            }))
          ⊎ ((f : Fetched) × WasAttempted k e (fetched f) m m'
              × (r' ≡ record {
                done = r.done ++ (k.chunk_id ∷ []);
                skipped = r.skipped;
                failed = r.failed;
              }))
          ⊎ ((x : Option Exc) × WasAttempted k e (failed policy.max_attempts x) m m'
              × (r' ≡ record {
                done = r.done;
                skipped = r.skipped;
                failed = r.failed ++ (k.chunk_id ∷ []);
              })))

  abbrev pub AreReported : List Chunk → Manifest → StageResult → Manifest → StageResult → Type 0
  AreReported [] m r m' r' = (m' ≡ m) × (r' ≡ r)
  AreReported (k ∷ ks) m r m' r' =
      (m₁ : Manifest) × (r₁ : StageResult) × IsReported k m r m₁ r₁ × AreReported ks m₁ r₁ m' r'

  fetch_chunk-IsReported :
      (skip : Bool) (k : Chunk) (e : Entry) (m : Manifest) (r : StageResult) (w : W) (m' : Manifest)
      (r' : StageResult) (w' : W)
      → lookup k.chunk_id m.chunks ≡ some e
      → (skip ≡ true
          → (u : W) × (u' : W) × (already_downloaded p files e.download
                (raw_path s k.chunk_id provider.raw_suffix)
                u
              ≡ (ok true, u')))
      → fetch_chunk p files sleep provider policy s skip k e m r w ≡ (ok (m', r'), w')
      → IsReported k m r m' r'
  unfolding fetch_chunk
  fetch_chunk-IsReported true k e m r w m' r' w' there complete h =
      let answer = ok_path (ap (λ a. a.0) h) in
      let (u, u', is) = complete refl in
      (
        e,
        there,
        inl (
          record { w = u; w' = u'; complete = is; unchanged = sym (ap (λ a. a.0) answer) },
          sym (ap (λ a. a.1) answer),
        ),
      )
  fetch_chunk-IsReported false k e m r w m' r' w' there complete h =
      after
        (attempts_from p files sleep provider policy policy.max_attempts k
          (file_of k.chunk_id provider.raw_suffix) (raw_path s k.chunk_id provider.raw_suffix)
          (raw_path s k.chunk_id provider.raw_suffix & ".part") 1 none)
        _ w (m', r') w' h
        λ d w₁ e₁ h₁.
          after
            (save_manifest files s.dumped s.root s.manifest_path
              (with_entry k.chunk_id (entry_with p files sleep provider policy s e d) m))
            _ w₁ (m', r') w' h₁
            λ m₂ w₂ e₂ h₂.
              let answer = ok_path (ap (λ a. a.0) h₂) in
              let entered =
                ap (λ o. o.chunks) (sym (ap (λ a. a.0) answer))
                ∙ save_manifest_lem p files provider s _ w₁ m₂ w₂ e₂ in
              let report = sym (ap (λ a. a.1) answer) in
              elim (attempts_from-IsOutcome p files sleep provider policy k _ _ _ w d w₁ e₁) [
                | inl (f, is, low, high) ↦ (
                  e,
                  there,
                  inr (
                      inl (
                        f,
                        record {
                          w = w;
                          w' = w₁;
                          run = e₁ ∙ ap (λ o. (ok o, w₁)) is;
                          entered =
                              entered
                              ∙ ap
                                  (λ o.
                                    set_entry k.chunk_id
                                      (entry_with p files sleep provider policy s e o) m.chunks)
                                  is;
                        },
                        report
                            ∙ ap (λ o. recorded p files sleep provider policy s o k.chunk_id r) is,
                      )),
                )
                | inr (x, is) ↦ (
                  e,
                  there,
                  inr (
                      inr (
                        x,
                        record {
                          w = w;
                          w' = w₁;
                          run = e₁ ∙ ap (λ o. (ok o, w₁)) is;
                          entered =
                              entered
                              ∙ ap
                                  (λ o.
                                    set_entry k.chunk_id
                                      (entry_with p files sleep provider policy s e o) m.chunks)
                                  is;
                        },
                        report
                            ∙ ap (λ o. recorded p files sleep provider policy s o k.chunk_id r) is,
                      )),
                )
              ]

  is_skipped_lem :
      (force : Bool) (k : Chunk) (e : Entry) (skip : Bool) (w w' : W)
      → is_skipped p files sleep provider policy s force k e w ≡ (ok skip, w')
      → skip ≡ true
      → (u : W) × (u' : W) × (already_downloaded p files e.download
            (raw_path s k.chunk_id provider.raw_suffix)
            u
          ≡ (ok true, u'))
  is_skipped_lem true k e skip w w' h y = absurd (ground arith)
  is_skipped_lem false k e skip w w' h y = (w, w', h ∙ ap (λ b. (ok b, w')) y)

  download_chunks-AreReported :
      (force : Bool) (ks : List Chunk) (m : Manifest) (r : StageResult) (w : W) (m' : Manifest)
      (r' : StageResult) (w' : W)
      → download_chunks p files sleep provider policy s force ks m r w ≡ (ok (m', r'), w')
      → AreReported ks m r m' r'
  unfolding download_chunks
  download_chunks-AreReported force [] m r w m' r' w' h =
      let answer = ok_path (ap (λ a. a.0) h) in
      (sym (ap (λ a. a.0) answer), sym (ap (λ a. a.1) answer))
  download_chunks-AreReported force (k ∷ ks) m r w m' r' w' h =
      after_lift (item (lookup k.chunk_id m.chunks)) _ w (m', r') w' h
        λ e e₁ h₁.
          after (is_skipped p files sleep provider policy s force k e) _ w (m', r') w' h₁
            λ skip w₂ e₂ h₂.
              after (fetch_chunk p files sleep provider policy s skip k e m r) _ w₂ (m', r') w' h₂
                λ a w₃ e₃ h₃. (
                  a.0,
                  a.1,
                  fetch_chunk-IsReported skip k e m r w₂ a.0 a.1 w₃ (item_lem _ e e₁)
                      (is_skipped_lem force k e skip w w₂ e₂) e₃,
                  download_chunks-AreReported force ks a.0 a.1 w₃ m' r' w' h₃,
                )

  -- A run that returns reports each chunk once and in order, under its id: as skipped, if the download
  -- in its entry was complete; as done, if the attempts for its file ended with a download, or as failed,
  -- if they failed, and then its entry is the one with that outcome.
  pub run_download-AreReported :
      (force : Bool) (ks : List Chunk) (m : Manifest) (w : W) (m' : Manifest) (r : StageResult)
      (w' : W)
      → run_download p files sleep provider policy s force ks m w ≡ (ok (m', r), w')
      → AreReported ks m no_result m' r
  unfolding run_download
  run_download-AreReported force ks m w m' r w' h =
      after (files.mkdir s.raw_dir) _ w (m', r) w' h
        λ u w₁ e₁ h₁. download_chunks-AreReported force ks m no_result w₁ m' r w' h₁
