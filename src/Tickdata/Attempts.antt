-- ===== src/Tickdata/Attempts.antt =====
-- The retries of download.py: how many there are, and that they end.
use ea_trading_system.Prelude.{
  ℕ, zero, suc, ◌+◌, ◌≤◌, ltb, String, ◌≡◌, ◌⊎◌, inl, inr, refl, sym, ap, ◌∙◌, List, if◌then◌else◌,
  true, false, Option, none, some, arith,
}
use ea_trading_system.Errors.{
  Exc, Result, ok, err, api_error, conditional_write_failed, conditional_check, value_error,
  timeout_error, runtime_error, overflow_error, type_error, key_error, other_error, os_error,
  provider_error, ok_path,
}
use ea_trading_system.Act.{
  Act, pure, catch, require, after, after_catch, then_run, catch_run, Returns,
}
use ea_trading_system.Python.{Python}
use ea_trading_system.Tickdata.Chunks.{Chunk}
use ea_trading_system.Tickdata.Store.{Files, Fetched, Download, fetched, failed}
use ea_trading_system.Tickdata.Download.{
  Provider, RetryPolicy, attempts_from, try_once, is_empty_raw, on_error, pause, backoff_seconds,
}

-- What an attempt may raise and be followed by another.
pub data IsRetryable : Exc → Type 0 where
  provider_failed : IsRetryable (provider_error true)
  os_failed : IsRetryable os_error
  timed_out : IsRetryable timeout_error

module _ {F W : Type 0} (p : Python F) (files : Files W) (sleep : F → Act W (Unit {0}))
    (provider : Provider F W) (policy : RetryPolicy F) where
  abbrev loop : ℕ → Chunk → (raw_file raw part : String) → ℕ → Option Exc → Act W Download
  loop = attempts_from p files sleep provider policy

  abbrev once : Chunk → (raw_file raw part : String) → ℕ → Act W Download
  once = try_once p files sleep provider policy

  -- A download of one of the attempts from `first` to the last, or a failure after all of them.
  abbrev pub IsOutcome : ℕ → ℕ → Download → Type 0
  IsOutcome first left d =
      ((f : Fetched) × (d ≡ fetched f) × (first ≤ f.attempts) × (suc f.attempts ≤ first + left))
      ⊎ ((e : Option Exc) × (d ≡ failed policy.max_attempts e))

  -- What a finished attempt has recorded of the file it left.
  pub record IsFetch (raw : String) (n : ℕ) (d : Download) (w' : W) : Type 0 where
    pub answer : Fetched
    pub is_answer : d ≡ fetched answer
    pub attempt : answer.attempts ≡ n
    pub before : W
    pub between : W
    pub measured : files.size raw before ≡ (ok answer.bytes, between)
    pub content : List ℕ
    pub is_read : files.read_bytes raw between ≡ (ok content, w')

  try_once-IsFetch :
      (k : Chunk) (raw_file raw part : String) (n : ℕ) (w : W) (d : Download) (w' : W)
      → once k raw_file raw part n w ≡ (ok d, w')
      → IsFetch raw n d w'
  unfolding try_once
  try_once-IsFetch k raw_file raw part n w d w' h =
      after (provider.download_chunk k part) _ w d w' h λ u w₁ e₁ h₁.
        after (files.exists part) _ w₁ d w' h₁ λ there w₂ e₂ h₂.
          after (require there (provider_error true)) _ w₂ d w' h₂ λ v w₃ e₃ h₃.
            after (is_empty_raw p files part) _ w₃ d w' h₃ λ empty w₄ e₄ h₄.
              after (files.replace part raw) _ w₄ d w' h₄ λ x w₅ e₅ h₅.
                after files.now _ w₅ d w' h₅ λ now w₆ e₆ h₆.
                  after (files.size raw) _ w₆ d w' h₆ λ bytes w₇ e₇ h₇.
                    after (files.read_bytes raw) _ w₇ d w' h₇ λ content w₈ e₈ h₈. record {
                      answer = _;
                      is_answer = sym (ok_path (ap (λ r. r.0) h₈));
                      attempt = refl;
                      before = w₆;
                      between = w₇;
                      measured = e₇;
                      content = content;
                      is_read = e₈ ∙ ap (λ w''. (ok content, w'')) (ap (λ r. r.1) h₈);
                    }

  -- Only a retryable error is followed by the rest of the loop.
  after_on_error :
      (part : String) (n : ℕ) (next : Exc → Act W Download) (x : Exc) (w : W) (d : Download)
      (w' : W)
      → on_error p files sleep provider policy part n next x w ≡ (ok d, w')
      → IsRetryable x × ((w₁ : W) × (next x w₁ ≡ (ok d, w')))
  after_on_error part n next (provider_error true) w d w' h =
      after (pause p files sleep provider policy n) _ w d w' h
        λ u w₁ e₁ h₁. (provider_failed, (w₁, h₁))
  after_on_error part n next os_error w d w' h =
      after (pause p files sleep provider policy n) _ w d w' h λ u w₁ e₁ h₁. (os_failed, (w₁, h₁))
  after_on_error part n next (provider_error false) w d w' h =
      after (files.unlink part) _ w d w' h λ u w₁ e₁ h₁. absurd (ground arith)
  after_on_error part n next (api_error x) w d w' h = absurd (ground arith)
  after_on_error part n next conditional_write_failed w d w' h = absurd (ground arith)
  after_on_error part n next conditional_check w d w' h = absurd (ground arith)
  after_on_error part n next value_error w d w' h = absurd (ground arith)
  after_on_error part n next timeout_error w d w' h =
      after (pause p files sleep provider policy n) _ w d w' h λ u w₁ e₁ h₁. (timed_out, (w₁, h₁))
  after_on_error part n next runtime_error w d w' h = absurd (ground arith)
  after_on_error part n next overflow_error w d w' h = absurd (ground arith)
  after_on_error part n next type_error w d w' h = absurd (ground arith)
  after_on_error part n next key_error w d w' h = absurd (ground arith)
  after_on_error part n next other_error w d w' h = absurd (ground arith)

  -- The attempts of the loop: each one is over, or retried.
  pub attempts-IsFetch :
      (left : ℕ) (k : Chunk) (raw_file raw part : String) (n : ℕ) (e : Option Exc) (w : W)
      (d : Download) (w' : W)
      → loop left k raw_file raw part n e w ≡ (ok d, w')
      → ((m : ℕ) × IsFetch raw m d w' × (n ≤ m) × (suc m ≤ n + left))
        ⊎ ((x : Option Exc) × (d ≡ failed policy.max_attempts x))
  unfolding attempts_from
  attempts-IsFetch zero k raw_file raw part n e w d w' h =
      after (files.unlink part) _ w d w' h λ u w₁ e₁ h₁. inr (e, sym (ok_path (ap (λ r. r.0) h₁)))
  attempts-IsFetch (suc left) k raw_file raw part n e w d w' h =
      after (files.unlink part) _ w d w' h λ u w₁ e₁ h₁.
        after_catch (once k raw_file raw part n) _ w₁ d w' h₁
          (λ done.
            inl (n, try_once-IsFetch k raw_file raw part n w₁ d w' done, omega arith, omega arith))
          λ x w₂ e₂ h₂.
            let (r, (w₃, h₃)) =
              after_on_error part n
                (λ e'.
                  attempts_from p files sleep provider policy left k raw_file raw part (n + 1)
                    (some e'))
                x w₂ d w' h₂ in
            elim (attempts-IsFetch left k raw_file raw part (n + 1) (some x) w₃ d w' h₃) [
              | inl (m, fetch, low, high) ↦ inl (m, fetch, omega (arith, low), omega (arith, high))
              | inr over ↦ inr over
            ]

  -- Whatever the provider and the files do, a chunk's turn that returns leaves a download of one of
  -- the attempts, the first to the last, or a failure that counts them all.
  pub attempts_from-IsOutcome :
      (k : Chunk) (raw_file raw part : String) (w : W) (d : Download) (w' : W)
      → attempts_from p files sleep provider policy policy.max_attempts k raw_file raw part 1 none w
        ≡ (ok d, w')
      → IsOutcome 1 policy.max_attempts d
  attempts_from-IsOutcome k raw_file raw part w d w' h =
      elim (attempts-IsFetch policy.max_attempts k raw_file raw part 1 none w d w' h) [
        | inl (m, fetch, low, high) ↦
            let same : fetch.answer.attempts ≡ m = fetch.attempt in
            inl (fetch.answer, fetch.is_answer, omega (arith, low, same), omega (arith, high, same))
        | inr over ↦ inr over
      ]

  module _ (part : String) (removes : (w : W) → (w' : W) × (files.unlink part w ≡ (ok tt, w')))
      (sleeps : (x : F) (w : W) → (w' : W) × (sleep x w ≡ (ok tt, w'))) where
    pause-returns :
        (n : ℕ) (w : W) → (w' : W) × (pause p files sleep provider policy n w ≡ (ok tt, w'))
    pause-returns n w =
        elim (ltb n policy.max_attempts)
          as (λ b.
            (w' : W) × ((if b then sleep (backoff_seconds p policy n) else pure tt) w
              ≡ (ok tt, w'))) [ true ↦ sleeps (backoff_seconds p policy n) w | false ↦ (w, refl) ]

    -- A retryable error is followed by the pause and the rest.
    retry_run :
        (n : ℕ) (next : Exc → Act W Download) (x : Exc) (w : W)
        → IsRetryable x
        → (w' : W) × (on_error p files sleep provider policy part n next x w ≡ next x w')
    retry_run n next x w provider_failed =
        let (w', e) = pause-returns n w in
        (w', then_run (pause p files sleep provider policy n) (λ u. next x) w tt w' e)
    retry_run n next x w os_failed =
        let (w', e) = pause-returns n w in
        (w', then_run (pause p files sleep provider policy n) (λ u. next x) w tt w' e)
    retry_run n next x w timed_out =
        let (w', e) = pause-returns n w in
        (w', then_run (pause p files sleep provider policy n) (λ u. next x) w tt w' e)

    module _ (k : Chunk) (raw_file raw : String)
        (retries : (n : ℕ) (w : W) (x : Exc) (w' : W)
          → once k raw_file raw part n w ≡ (err x, w')
          → IsRetryable x) where
      guarded-Returns :
          (n : ℕ) (next : Exc → Act W Download) (w : W) (r : Result Download × W)
          → once k raw_file raw part n w ≡ r
          → ((x : Exc) (w' : W) → Returns (next x) w')
          → Returns
              (catch
                (once k raw_file raw part n)
                (on_error p files sleep provider policy part n next))
              w
      guarded-Returns n next w (ok d, w₁) e rest =
          (d, (w₁, catch_run (once k raw_file raw part n) _ w (ok d) w₁ e))
      guarded-Returns n next w (err x, w₁) e rest =
          let (w₂, again) = retry_run n next x w₁ (retries n w x w₁ e) in
          let (d, (w', returns)) = rest x w₂ in
          (d, (w', catch_run (once k raw_file raw part n) _ w (err x) w₁ e ∙ again ∙ returns))

      -- The loop returns, from every world, when the unfinished file can be removed, the pause returns,
      -- and what an attempt raises is retryable.
      pub attempts_from-Returns :
          (left n : ℕ) (e : Option Exc) (w : W)
          → Returns (attempts_from p files sleep provider policy left k raw_file raw part n e) w
      unfolding attempts_from
      attempts_from-Returns zero n e w =
          let (w₁, removed) = removes w in
          (failed policy.max_attempts e, (w₁, then_run (files.unlink part) _ w tt w₁ removed))
      attempts_from-Returns (suc left) n e w =
          let (w₁, removed) = removes w in
          let (d, (w', returns)) =
            guarded-Returns n
              (λ x.
                attempts_from p files sleep provider policy left k raw_file raw part (n + 1)
                  (some x))
              w₁ _ refl (λ x w₂. attempts_from-Returns left (n + 1) (some x) w₂) in
          (d, (w', then_run (files.unlink part) _ w tt w₁ removed ∙ returns))
