-- ===== src/Tickdata/Normalized.antt =====
-- What the normalizing loop writes, and that it accounts for every row.
use mathlib.Core.List.{append-nil, append_assoc}
use ea_trading_system.Prelude.{
  ℕ, ◌+◌, ◌≤ℤ◌, ltb_ℤ, String, ◌≡◌, refl, sym, ◌∙◌, Bool, true, false, Option, none, some, List, [],
  ◌∷◌, ◌++◌, length, length-append, arith, if◌then◌else◌, All,
}
use ea_trading_system.Python.{Python}
use ea_trading_system.Tickdata.Chunks.{Chunk}
use ea_trading_system.Tickdata.Model.{Tick, Row, parsed, rejected_row, find_invalid_reason}
use ea_trading_system.Tickdata.Normalize.{
  Counter, increment, Progress, started, counted, reject, duplicate, write, same_as, reason_for,
  keep_tick, normalize_row, normalize_rows,
}

abbrev pub total : Counter → ℕ
total [] = 0
total ((k, n) ∷ rest) = n + total rest

total-increment : (key : String) (c : Counter) → total (increment key c) ≡ total c + 1
unfolding increment
total-increment key [] = refl
total-increment key ((k, n) ∷ rest) = ground (arith, total-increment key rest)

module _ {F : Type 0} (p : Python F) where
  -- The rows are those that were written, repeated or rejected, and the counters say how many.
  abbrev pub IsAccounted : Progress F → Type 0
  IsAccounted s =
      (s.ticks_in ≡ s.ticks_out + s.duplicates + total s.rejected)
      × (s.ticks_out ≡ length s.written)

  keep_tick-IsAccounted :
      (t : Tick F) (reason : Option String) (s : Progress F)
      → IsAccounted s
      → IsAccounted (keep_tick p t reason (counted s))
  keep_tick-IsAccounted t (some reason) s h = ground (arith, total-increment reason s.rejected)
  keep_tick-IsAccounted t none s h =
      elim (same_as p s.previous t)
        as (λ b. IsAccounted (if b then duplicate (counted s) else write t (counted s))) [
          | true ↦ ground arith
          | false ↦ ground (arith, length-append s.written (t ∷ []))
        ]

  normalize_row-IsAccounted :
      (chunk : Chunk) (row : Row F) (s : Progress F)
      → IsAccounted s
      → IsAccounted (normalize_row p chunk row s)
  unfolding normalize_row
  normalize_row-IsAccounted chunk (rejected_row line reason) s h =
      ground (arith, total-increment reason s.rejected)
  normalize_row-IsAccounted chunk (parsed t) s h =
      keep_tick-IsAccounted t (reason_for p chunk t) s h

  normalize_rows-IsAccounted :
      (chunk : Chunk) (rows : List (Row F)) (s : Progress F)
      → IsAccounted s
      → IsAccounted (normalize_rows p chunk rows s)
  unfolding normalize_rows
  normalize_rows-IsAccounted chunk [] s h = h
  normalize_rows-IsAccounted chunk (row ∷ rows) s h =
      normalize_rows-IsAccounted chunk rows (normalize_row p chunk row s)
        (normalize_row-IsAccounted chunk row s h)

  keep_tick-ticks_in :
      (t : Tick F) (reason : Option String) (s : Progress F)
      → (keep_tick p t reason s).ticks_in ≡ s.ticks_in
  keep_tick-ticks_in t (some reason) s = refl
  keep_tick-ticks_in t none s =
      elim (same_as p s.previous t)
        as (λ b. (if b then duplicate s else write t s).ticks_in ≡ s.ticks_in) [
          | true ↦ refl
          | false ↦ refl
        ]

  normalize_row-ticks_in :
      (chunk : Chunk) (row : Row F) (s : Progress F)
      → (normalize_row p chunk row s).ticks_in ≡ s.ticks_in + 1
  unfolding normalize_row
  normalize_row-ticks_in chunk (rejected_row line reason) s = refl
  normalize_row-ticks_in chunk (parsed t) s =
      keep_tick-ticks_in t (reason_for p chunk t) (counted s)

  normalize_rows-counts :
      (chunk : Chunk) (rows : List (Row F)) (s : Progress F)
      → (normalize_rows p chunk rows s).ticks_in ≡ s.ticks_in + length rows
  unfolding normalize_rows
  normalize_rows-counts chunk [] s = omega arith
  normalize_rows-counts chunk (row ∷ rows) s = omega (
    arith,
    normalize_rows-counts chunk rows (normalize_row p chunk row s),
    normalize_row-ticks_in chunk row s,
  )

  -- Every row of a file is written, dropped as a repetition, or counted under the reason of its
  -- rejection, and the counters add up to the number of rows.
  pub normalize_rows-accounts :
      (chunk : Chunk) (rows : List (Row F))
      → (let s = normalize_rows p chunk rows started in
          (length rows ≡ length s.written + s.duplicates + total s.rejected)
          × (s.ticks_in ≡ length rows)
          × (s.ticks_out ≡ length s.written))
  normalize_rows-accounts chunk rows =
      let (sums, out) = normalize_rows-IsAccounted chunk rows started (refl, refl) in
      let counts = normalize_rows-counts chunk rows started in
      (omega arith, omega (arith, counts), out)

  -- The ticks that have no reason against them, in order.
  abbrev with_tick : Option String → Tick F → List (Tick F) → List (Tick F)
  with_tick (some reason) t ts = ts
  with_tick none t ts = t ∷ ts

  abbrev pub good_ticks : Chunk → List (Row F) → List (Tick F)
  good_ticks chunk [] = []
  good_ticks chunk (rejected_row line reason ∷ rows) = good_ticks chunk rows
  good_ticks chunk (parsed t ∷ rows) = with_tick (reason_for p chunk t) t (good_ticks chunk rows)

  -- A list without the ticks that repeat the one kept before.
  abbrev pub distinct : Option (Tick F) → List (Tick F) → List (Tick F)
  distinct previous [] = []
  distinct previous (t ∷ ts) =
      let same = distinct previous ts in
      let other = distinct (some t) ts in if same_as p previous t then same else t ∷ other

  module _ (chunk : Chunk) (t : Tick F) (rows : List (Row F)) (s : Progress F)
      (rest : (r : Progress F)
        → (normalize_rows p chunk rows r).written
          ≡ r.written ++ distinct r.previous (good_ticks chunk rows)) where
    written_by_sameness :
        (b : Bool)
        → (normalize_rows p chunk rows
            (if b then duplicate (counted s) else write t (counted s))).written
          ≡ s.written
            ++ (if b
                then distinct s.previous (good_ticks chunk rows)
                else t ∷ distinct (some t) (good_ticks chunk rows))
    written_by_sameness true = rest (duplicate (counted s))
    written_by_sameness false =
        rest (write t (counted s))
        ∙ append_assoc s.written (t ∷ []) (distinct (some t) (good_ticks chunk rows))

    written_by_reason :
        (reason : Option String)
        → (normalize_rows p chunk rows (keep_tick p t reason (counted s))).written
          ≡ s.written ++ distinct s.previous (with_tick reason t (good_ticks chunk rows))
    written_by_reason (some reason) = rest (reject reason (counted s))
    written_by_reason none = written_by_sameness (same_as p s.previous t)

  normalize_rows-written :
      (chunk : Chunk) (rows : List (Row F)) (s : Progress F)
      → (normalize_rows p chunk rows s).written
        ≡ s.written ++ distinct s.previous (good_ticks chunk rows)
  unfolding normalize_rows normalize_row
  normalize_rows-written chunk [] s = sym (append-nil s.written)
  normalize_rows-written chunk (rejected_row line reason ∷ rows) s =
      normalize_rows-written chunk rows (reject reason (counted s))
  normalize_rows-written chunk (parsed t ∷ rows) s =
      written_by_reason chunk t rows s (λ r. normalize_rows-written chunk rows r)
        (reason_for p chunk t)

  -- The lines of a normalized file are the ticks that are valid and inside the chunk, in the order of
  -- the rows, without those that repeat the tick written before them.
  pub normalize_rows-eq-distinct :
      (chunk : Chunk) (rows : List (Row F))
      → (normalize_rows p chunk rows started).written ≡ distinct none (good_ticks chunk rows)
  normalize_rows-eq-distinct chunk rows = normalize_rows-written chunk rows started

  -- No tick of the list repeats the one before it.
  abbrev pub AreDistinct : Option (Tick F) → List (Tick F) → Type 0
  AreDistinct previous [] = Unit
  AreDistinct previous (t ∷ ts) = (same_as p previous t ≡ false) × AreDistinct (some t) ts

  AreDistinct-either :
      (previous : Option (Tick F)) (t : Tick F) (ts : List (Tick F)) (b : Bool)
      → same_as p previous t ≡ b
      → AreDistinct previous (distinct previous ts)
      → AreDistinct (some t) (distinct (some t) ts)
      → AreDistinct previous (if b then distinct previous ts else t ∷ distinct (some t) ts)
  AreDistinct-either previous t ts true e same other = same
  AreDistinct-either previous t ts false e same other = (e, other)

  distinct-AreDistinct :
      (previous : Option (Tick F)) (ts : List (Tick F))
      → AreDistinct previous (distinct previous ts)
  distinct-AreDistinct previous [] = tt
  distinct-AreDistinct previous (t ∷ ts) =
      AreDistinct-either previous t ts (same_as p previous t) refl
        (distinct-AreDistinct previous ts) (distinct-AreDistinct (some t) ts)

  -- The tick is valid, and its time lies in the chunk.
  pub record IsGood (chunk : Chunk) (t : Tick F) : Type 0 where
    pub valid : find_invalid_reason p t ≡ none
    pub from_start : chunk.start_ms ≤ℤ t.timestamp_ms
    pub before_end : ltb_ℤ t.timestamp_ms chunk.end_ms ≡ true

  reason_for-IsGood : (chunk : Chunk) (t : Tick F) → reason_for p chunk t ≡ none → IsGood chunk t
  unfolding reason_for
  reason_for-IsGood chunk t h = ground arith

  with_tick-IsGood :
      (chunk : Chunk) (t : Tick F) (ts : List (Tick F)) (reason : Option String)
      → reason_for p chunk t ≡ reason
      → All (IsGood chunk) ts
      → All (IsGood chunk) (with_tick reason t ts)
  with_tick-IsGood chunk t ts (some reason) e h = h
  with_tick-IsGood chunk t ts none e h = (reason_for-IsGood chunk t e, h)

  good_ticks-IsGood :
      (chunk : Chunk) (rows : List (Row F)) → All (IsGood chunk) (good_ticks chunk rows)
  good_ticks-IsGood chunk [] = tt
  good_ticks-IsGood chunk (rejected_row line reason ∷ rows) = good_ticks-IsGood chunk rows
  good_ticks-IsGood chunk (parsed t ∷ rows) =
      with_tick-IsGood chunk t (good_ticks chunk rows) (reason_for p chunk t) refl
        (good_ticks-IsGood chunk rows)

  All-either :
      (P : Tick F → Type 0) (b : Bool) (xs ys : List (Tick F))
      → All P xs
      → All P ys
      → All P (if b then xs else ys)
  All-either P true xs ys hx hy = hx
  All-either P false xs ys hx hy = hy

  distinct-All :
      (P : Tick F → Type 0) (previous : Option (Tick F)) (ts : List (Tick F))
      → All P ts
      → All P (distinct previous ts)
  distinct-All P previous [] h = tt
  distinct-All P previous (t ∷ ts) h =
      All-either P (same_as p previous t) (distinct previous ts) (t ∷ distinct (some t) ts)
        (distinct-All P previous ts h.1) (h.0, distinct-All P (some t) ts h.1)

  -- Every line of a normalized file is a valid tick, whose time lies from the start of the chunk up to
  -- its end, which is left out, and which does not repeat the line before it.
  pub normalize_rows-clean :
      (chunk : Chunk) (rows : List (Row F))
      → (let ts = (normalize_rows p chunk rows started).written in
          All (IsGood chunk) ts × AreDistinct none ts)
  normalize_rows-clean chunk rows = rw (normalize_rows-eq-distinct chunk rows) (
    distinct-All (IsGood chunk) none (good_ticks chunk rows) (good_ticks-IsGood chunk rows),
    distinct-AreDistinct none (good_ticks chunk rows),
  )
