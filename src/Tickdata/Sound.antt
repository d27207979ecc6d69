-- ===== src/Tickdata/Sound.antt =====
-- validate.py: what the lines of a data set without errors are.
use ea_trading_system.Prelude.{
  ℕ, ◌≤ℤ◌, String, ◌≡◌, ◌≢◌, refl, sym, ap, ◌∙◌, Bool, true, false, Option, none, some, List, [],
  ◌∷◌, arith,
}
use ea_trading_system.Errors.{
  Result, ok, err, ok_path, >>=-eq-ok, api_error, conditional_write_failed, conditional_check,
  value_error, timeout_error, runtime_error, overflow_error, type_error, key_error, os_error,
  provider_error, other_error,
}
use ea_trading_system.Python.{Python}
use ea_trading_system.Tickdata.Chunks.{Chunk}
use ea_trading_system.Tickdata.Model.{Tick, find_invalid_reason, parse_normalized_row}
use ea_trading_system.Tickdata.Normalize.{Counter}
use ea_trading_system.Tickdata.Validate.{
  Policy, add_count, add_reason, add_unless, in_chunk, in_order, tick_errors, kept, Checking,
  tick_counts, after_tick, with_error, check_parsed, check_line, check_lines, status_of,
}

-- No code is counted.
abbrev pub is_clean : Counter → Bool
is_clean [] = true
is_clean (x ∷ xs) = false

add_count_lem : (code : String) (n : ℕ) (c : Counter) → is_clean (add_count code n c) ≡ false
unfolding add_count
add_count_lem code n [] = refl
add_count_lem code n ((k, m) ∷ rest) = ground arith

add_unless_lem :
    (b : Bool) (code : String) (c : Counter)
    → is_clean (add_unless b code c) ≡ true
    → (b ≡ true) × (is_clean c ≡ true)
add_unless_lem true code c h = (refl, h)
add_unless_lem false code c h = absurd (ground (arith, add_count_lem code 1 c))

add_reason_lem :
    (reason : Option String) (c : Counter)
    → is_clean (add_reason reason c) ≡ true
    → (reason ≡ none) × (is_clean c ≡ true)
add_reason_lem none c h = (refl, h)
add_reason_lem (some r) c h = absurd (ground (arith, add_count_lem r 1 c))

module _ {F : Type 0} (p : Python F) (policy : Policy F) where
  abbrev pub NotBefore : Option (Tick F) → Tick F → Type 0
  NotBefore none t = Unit
  NotBefore (some q) t = q.timestamp_ms ≤ℤ t.timestamp_ms

  -- Each line is a valid tick of the chunk, and none is before the one that precedes it.
  abbrev pub AreSound : Chunk → Option (Tick F) → List String → Type 0
  AreSound k previous [] = Unit
  AreSound k previous (l ∷ ls) =
      (t : Tick F) × (parse_normalized_row p l ≡ ok t)
      × (find_invalid_reason p t ≡ none)
      × (in_chunk k t ≡ true)
      × NotBefore previous t
      × AreSound k (some t) ls

  in_order_lem :
      (reason : Option String) (previous : Option (Tick F)) (t : Tick F)
      → reason ≡ none
      → in_order reason previous t ≡ true
      → NotBefore previous t
  in_order_lem (some r) previous t e h = absurd (ground arith)
  in_order_lem none none t e h = tt
  in_order_lem none (some q) t e h = ground (arith, h)

  tick_errors_lem :
      (k : Chunk) (t : Tick F) (reason : Option String) (previous : Option (Tick F)) (c : Counter)
      → is_clean (tick_errors k t reason previous c) ≡ true
      → (is_clean c ≡ true) × (reason ≡ none) × (in_chunk k t ≡ true) × NotBefore previous t
  unfolding tick_errors
  tick_errors_lem k t reason previous c h =
      let (ordered, h₁) =
        add_unless_lem (in_order reason previous t) "TIMESTAMP_NOT_MONOTONIC" _ h in
      let (within, h₂) = add_unless_lem (in_chunk k t) "TIMESTAMP_OUT_OF_RANGE" _ h₁ in
      let (valid, h₃) = add_reason_lem reason c h₂ in
      (h₃, valid, within, in_order_lem reason previous t valid ordered)

  -- What a line is that leaves no error.
  record IsSoundLine (k : Chunk) (l : String) (c c' : Checking F) : Type 0 where
    pub clean : is_clean c.errors ≡ true
    pub tick : Tick F
    pub parsed : parse_normalized_row p l ≡ ok tick
    pub valid : find_invalid_reason p tick ≡ none
    pub within : in_chunk k tick ≡ true
    pub not_before : NotBefore c.previous tick
    pub previous : c'.previous ≡ some tick

  parsed-IsSoundLine :
      (k : Chunk) (l : String) (r : Result (Tick F)) (c c' : Checking F)
      → parse_normalized_row p l ≡ r
      → check_parsed p policy k r c ≡ ok c'
      → is_clean c'.errors ≡ true
      → IsSoundLine k l c c'
  parsed-IsSoundLine k l (ok t) c c' e h clean =
      let (n, e₁, h₁) =
        >>=-eq-ok (tick_counts p policy t (find_invalid_reason p t) c.previous) _ c' h in
      let same : after_tick p policy k t c n ≡ c' = ok_path h₁ in
      let (before, valid, within, ordered) =
        tick_errors_lem k t (find_invalid_reason p t) c.previous c.errors
          (ap (λ d. is_clean d.errors) same ∙ clean) in
      record {
        clean = before;
        tick = t;
        parsed = e;
        valid = valid;
        within = within;
        not_before = ordered;
        previous = ap (λ d. d.previous) (sym same) ∙ ap (λ o. kept o t c.previous) valid;
      }
  parsed-IsSoundLine k l (err value_error) c c' e h clean =
      let same : with_error p policy "NON_FINITE_VALUE" c ≡ c' = ok_path h in
      let dirty : is_clean (add_count "NON_FINITE_VALUE" 1 c.errors) ≡ true =
        ap (λ d. is_clean d.errors) same ∙ clean in
      absurd (ground (arith, dirty, add_count_lem "NON_FINITE_VALUE" 1 c.errors))
  parsed-IsSoundLine k l (err (api_error x)) c c' e h clean = absurd (ground arith)
  parsed-IsSoundLine k l (err conditional_write_failed) c c' e h clean = absurd (ground arith)
  parsed-IsSoundLine k l (err conditional_check) c c' e h clean = absurd (ground arith)
  parsed-IsSoundLine k l (err timeout_error) c c' e h clean = absurd (ground arith)
  parsed-IsSoundLine k l (err runtime_error) c c' e h clean = absurd (ground arith)
  parsed-IsSoundLine k l (err overflow_error) c c' e h clean = absurd (ground arith)
  parsed-IsSoundLine k l (err type_error) c c' e h clean = absurd (ground arith)
  parsed-IsSoundLine k l (err key_error) c c' e h clean = absurd (ground arith)
  parsed-IsSoundLine k l (err os_error) c c' e h clean = absurd (ground arith)
  parsed-IsSoundLine k l (err (provider_error b)) c c' e h clean = absurd (ground arith)
  parsed-IsSoundLine k l (err other_error) c c' e h clean = absurd (ground arith)

  check_line-IsSoundLine :
      (k : Chunk) (l : String) (c c' : Checking F)
      → check_line p policy k l c ≡ ok c'
      → is_clean c'.errors ≡ true
      → IsSoundLine k l c c'
  unfolding check_line
  check_line-IsSoundLine k l c c' h clean =
      parsed-IsSoundLine k l (parse_normalized_row p l) c c' refl h clean

  check_lines_lem :
      (k : Chunk) (ls : List String) (c c' : Checking F)
      → check_lines p policy k ls c ≡ ok c'
      → is_clean c'.errors ≡ true
      → (is_clean c.errors ≡ true) × AreSound k c.previous ls
  unfolding check_lines
  check_lines_lem k [] c c' h clean = (ap (λ d. is_clean d.errors) (ok_path h) ∙ clean, tt)
  check_lines_lem k (l ∷ ls) c c' h clean =
      let (d, e, h₁) = >>=-eq-ok (check_line p policy k l c) _ c' h in
      let (clean', rest) = check_lines_lem k ls d c' h₁ clean in
      let s = check_line-IsSoundLine k l c d e clean' in
      (s.clean, (s.tick, s.parsed, s.valid, s.within, s.not_before, rw (← s.previous) rest))

  -- If the status is not FAIL after the lines of a chunk, every line is a valid tick of the chunk, and
  -- none is before the one that precedes it.
  pub check_lines-AreSound :
      (k : Chunk) (ls : List String) (c c' : Checking F) (warnings : Counter)
      → check_lines p policy k ls c ≡ ok c'
      → status_of c'.errors warnings ≢ "FAIL"
      → AreSound k c.previous ls
  unfolding status_of
  check_lines-AreSound k ls c c' warnings h passed =
      (check_lines_lem k ls c c' h (by_errors c'.errors refl)).1
    where
      by_errors : (errors : Counter) → c'.errors ≡ errors → is_clean c'.errors ≡ true
      by_errors [] e = ap is_clean e
      by_errors (x ∷ xs) e = absurd (passed (ap (λ errors. status_of errors warnings) e))
