-- ===== src/Tickdata/Plan.antt =====
-- The chunks of a plan follow each other without a gap, and hold every day once.
use ea_trading_system.Prelude.{
  ℕ, zero, suc, ◌+◌, ◌-◌, ◌≤◌, ◌<◌, String, ◌≡◌, refl, ap, Bool, true, false, ◌&&◌, Bool-cases,
  ◌==◌, some, inl, inr, List, [], ◌∷◌, leb, one_of, arith, if◌then◌else◌,
}
use ea_trading_system.Errors.{Result, ok, ◌>>=◌}
use ea_trading_system.Tickdata.Chunks.{
  Calendar, Chunk, chunk_units, min, next_month_start, last_of, next_chunk, plan_from, plan_chunks,
}

-- `last_month` is the first day of the last month that `date` can name: from any day before it, the
-- start of the next month is a later date.
pub record CalendarLaws (c : Calendar) (last_month : ℕ) : Type 0 where
  pub has_end : last_month ≤ c.last_ordinal
  pub next_month : (d : ℕ) → d < last_month → (n : ℕ) × (next_month_start c d ≡ ok n) × (d < n)

module _ (c : Calendar) where
  -- The chunks cover the dates from the cursor to the end, in order, and each starts at the
  -- millisecond at which the one before ends.
  abbrev pub Covers : ℕ → ℕ → List Chunk → Type 0
  Covers cursor to_date [] = cursor ≡ to_date + 1
  Covers cursor to_date (k ∷ ks) =
      (k.first_date ≡ cursor)
      × (cursor ≤ k.last_date)
      × (k.last_date ≤ to_date)
      × (k.start_ms ≡ c.utc_date_to_ms cursor)
      × (k.end_ms ≡ c.utc_date_to_ms (k.last_date + 1))
      × Covers (k.last_date + 1) to_date ks

  abbrev pub holds_day : Chunk → ℕ → Bool
  holds_day k d = leb k.first_date d && leb d k.last_date

  abbrev pub chunks_of_day : List Chunk → ℕ → ℕ
  chunks_of_day [] d = 0
  chunks_of_day (k ∷ ks) d = (if holds_day k d then 1 else 0) + chunks_of_day ks d

  no_chunk_before :
      (cursor to_date d : ℕ) (ks : List Chunk)
      → Covers cursor to_date ks
      → d < cursor
      → chunks_of_day ks d ≡ 0
  no_chunk_before cursor to_date d [] h less = refl
  no_chunk_before cursor to_date d (k ∷ ks) (h₁, h₂, h₃, h₄, h₅, h₆) less =
      ground (arith, no_chunk_before (k.last_date + 1) to_date d ks h₆)

  -- Every day of the range lies in one chunk of the plan, and in no other.
  pub one_chunk_each_day :
      (cursor to_date d : ℕ) (ks : List Chunk)
      → Covers cursor to_date ks
      → cursor ≤ d
      → d ≤ to_date
      → chunks_of_day ks d ≡ 1
  one_chunk_each_day cursor to_date d [] h lo hi = absurd (omega arith)
  one_chunk_each_day cursor to_date d (k ∷ ks) (h₁, h₂, h₃, h₄, h₅, h₆) lo hi = ground (
    arith,
    no_chunk_before (k.last_date + 1) to_date d ks h₆,
    one_chunk_each_day (k.last_date + 1) to_date d ks h₆,
  )

  module _ {last_month : ℕ} (laws : CalendarLaws c last_month) where
    last_of_range :
        (day : Bool) (cursor to_date : ℕ)
        → cursor ≤ to_date
        → to_date < last_month
        → (last : ℕ) × (id : String) × (last_of c day cursor to_date ≡ ok (last, id))
          × (cursor ≤ last)
          × (last ≤ to_date)
    unfolding last_of
    last_of_range true cursor to_date h l =
        (cursor, c.day_id cursor, refl, omega arith, omega arith)
    last_of_range false cursor to_date h l =
        let (n, e, later) = laws.next_month cursor (omega arith) in
        (
          min (n - 1) to_date,
          c.month_id cursor,
          ap (λ r. r >>= month_end) e,
          ground arith,
          ground arith,
        )
      where
        month_end : ℕ → Result (ℕ × String)
        month_end start = ok (min (start - 1) to_date, c.month_id cursor)

    next_chunk_range :
        (day : Bool) (cursor to_date : ℕ)
        → cursor ≤ to_date
        → to_date < last_month
        → (k : Chunk) × (next_chunk c day cursor to_date ≡ ok (k, k.last_date + 1))
          × (k.first_date ≡ cursor)
          × (cursor ≤ k.last_date)
          × (k.last_date ≤ to_date)
          × (k.start_ms ≡ c.utc_date_to_ms cursor)
          × (k.end_ms ≡ c.utc_date_to_ms (k.last_date + 1))
    unfolding next_chunk
    next_chunk_range day cursor to_date h l =
        let (last, id, e, lo, hi) = last_of_range day cursor to_date h l in
        (
          record {
            chunk_id = id;
            start_ms = c.utc_date_to_ms cursor;
            end_ms = c.utc_date_to_ms (last + 1);
            first_date = cursor;
            last_date = last;
          },
          ground (arith, laws.has_end),
          refl,
          lo,
          hi,
          refl,
          refl,
        )

    -- As many rounds as there are days suffice.
    plan_from-Covers :
        (rounds : ℕ) (day : Bool) (cursor to_date : ℕ)
        → cursor ≤ to_date + 1
        → to_date + 1 ≤ cursor + rounds
        → to_date < last_month
        → (ks : List Chunk) × (plan_from c rounds day cursor to_date ≡ some (ok ks))
          × Covers cursor to_date ks
    unfolding plan_from
    plan_from-Covers zero day cursor to_date h enough l = ([], ground arith, omega arith)
    plan_from-Covers (suc rounds) day cursor to_date h enough l =
        elim (Bool-cases (leb cursor to_date)) [
          | inr past ↦ ([], ground arith, ground arith)
          | inl within ↦
              let (k, e, e₁, lo, hi, e₂, e₃) =
                next_chunk_range day cursor to_date (ground arith) l in
              let (ks, planned, covers) =
                plan_from-Covers rounds day (k.last_date + 1) to_date (omega arith) (omega arith)
                  l in
              (k ∷ ks, ground arith, (e₁, lo, hi, e₂, e₃, covers))
        ]

    -- A plan for a range of days and one of the two units comes to an end and covers the range.
    pub plan_chunks-Covers :
        (from_date to_date : ℕ) (unit : String)
        → one_of chunk_units unit ≡ true
        → from_date ≤ to_date
        → to_date < last_month
        → (ks : List Chunk) × (plan_chunks c from_date to_date unit ≡ some (ok ks))
          × Covers from_date to_date ks
    unfolding plan_chunks
    plan_chunks-Covers from_date to_date unit known h l =
        let (ks, planned, covers) =
          plan_from-Covers (to_date + 1 - from_date) (unit == "day") from_date to_date (omega arith)
            (omega arith) l in
        (ks, ground arith, covers)
