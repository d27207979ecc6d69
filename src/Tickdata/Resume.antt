-- ===== src/Tickdata/Resume.antt =====
-- download.py: a later run skips what is complete.
use ea_trading_system.Prelude.{
  ℕ, nat_eq, String, ◌≡◌, inl, inr, refl, sym, ap, ◌∙◌, Bool, true, false, none, List, arith,
}
use ea_trading_system.Errors.{ok}
use ea_trading_system.Act.{Act, pure, then_run}
use ea_trading_system.Python.{Python}
use ea_trading_system.Tickdata.Chunks.{Chunk}
use ea_trading_system.Tickdata.Store.{Files, Fetched, Download, pending, fetched, failed}
use ea_trading_system.Tickdata.Download.{
  Provider, RetryPolicy, already_downloaded, attempts_from, complete_file, same_size,
}
use ea_trading_system.Tickdata.Attempts.{attempts-IsFetch}

-- A read changes nothing, and a file that has a size exists.
pub record FilesLaws {W : Type 0} (files : Files W) : Type 0 where
  pub size_reads :
      (path : String) (w : W) (n : ℕ) (w' : W) → files.size path w ≡ (ok n, w') → w' ≡ w
  pub bytes_read :
      (path : String) (w : W) (content : List ℕ) (w' : W)
      → files.read_bytes path w ≡ (ok content, w')
      → w' ≡ w
  pub size_exists :
      (path : String) (w : W) (n : ℕ)
      → files.size path w ≡ (ok n, w)
      → files.exists path w ≡ (ok true, w)

module _ {F W : Type 0} (p : Python F) (files : Files W) (sleep : F → Act W (Unit {0}))
    (provider : Provider F W) (policy : RetryPolicy F) where
  -- A file with the size that the manifest has is complete.
  complete_run :
      (laws : FilesLaws files) (empty : Bool) (path : String) (n : ℕ) (w : W)
      → files.size path w ≡ (ok n, w)
      → complete_file p files empty path n w ≡ (ok true, w)
  complete_run laws true path n w e = refl
  complete_run laws false path n w e =
      then_run (files.exists path) (λ there. same_size p files there path n) w true w
        (laws.size_exists path w n e)
      ∙ then_run (files.size path) (λ m. pure (nat_eq m n)) w n w e
      ∙ ap (λ b. (ok b, w)) (ground arith)

  abbrev bytes_of : Download → ℕ
  bytes_of (fetched f) = f.bytes
  bytes_of pending = 0
  bytes_of (failed n e) = 0

  -- In the world that a completed download leaves, it is taken for complete, so that the next run skips
  -- it unless its file changes.
  pub attempts_from-already :
      (laws : FilesLaws files) (k : Chunk) (raw_file raw part : String) (w : W) (f : Fetched)
      (w' : W)
      → attempts_from p files sleep provider policy policy.max_attempts k raw_file raw part 1 none w
        ≡ (ok (fetched f), w')
      → already_downloaded p files (fetched f) raw w' ≡ (ok true, w')
  unfolding already_downloaded
  attempts_from-already laws k raw_file raw part w f w' h =
      elim (attempts-IsFetch p files sleep provider policy policy.max_attempts k raw_file raw part 1
        none w (fetched f) w' h) [
          | inr (e, broken) ↦ absurd (ground arith)
          | inl (m, fetch, low, high) ↦
              let unmoved : fetch.between ≡ fetch.before =
                laws.size_reads raw fetch.before fetch.answer.bytes fetch.between fetch.measured in
              let unread : w' ≡ fetch.between =
                laws.bytes_read raw fetch.between fetch.content w' fetch.is_read in
              let same : f.bytes ≡ fetch.answer.bytes = ap bytes_of fetch.is_answer in
              let measured : files.size raw w' ≡ (ok f.bytes, w') =
                ap (files.size raw) (unread ∙ unmoved)
                ∙ fetch.measured
                ∙ ap (λ n. (ok n, fetch.between)) (sym same)
                ∙ ap (λ v. (ok f.bytes, v)) (sym unread) in
              complete_run laws f.empty raw f.bytes w' measured
        ]
