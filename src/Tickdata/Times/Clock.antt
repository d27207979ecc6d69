-- ===== src/Tickdata/Times/Clock.antt =====
-- The two caches give what would be computed without them.
use ea_trading_system.Prelude.{
  ℕ, ℤ, pos, eq_ℤ, String, ◌&◌, ◌≡◌, ◌⊎◌, inl, inr, refl, sym, ap, ◌∙◌, Bool, true, false,
  Bool-cases, Option, none, some, List, [], ◌∷◌, All, eq_of_parts, arith,
}
use ea_trading_system.Tickdata.Times.{
  Zones, Formatter, new_formatter, floor_div, floor_mod, ny_offset_ms, cached, looked_up,
  ny_offset_ms_for_hour, refreshed, format,
}

pub eq_ℤ-path : (a b : ℤ) → eq_ℤ a b ≡ true → a ≡ b
eq_ℤ-path a b h = eq_of_parts a b (ground arith)

module _ (z : Zones) where
  -- Each entry of the cache has the offset of its hour.
  abbrev pub IsCache : List (ℤ × ℤ) → Type 0
  IsCache cache = All (λ e. e.1 ≡ ny_offset_ms z e.0) cache

  cached_lem :
      (hour ms : ℤ) (cache : List (ℤ × ℤ))
      → IsCache cache
      → cached hour cache ≡ some ms
      → ms ≡ ny_offset_ms z hour
  cached_lem hour ms [] h e = absurd (ground arith)
  cached_lem hour ms ((j, v) ∷ rest) h e = elim (Bool-cases (eq_ℤ j hour)) [
    | inl same ↦
        let found : v ≡ ms = ground arith in
        sym found ∙ h.0 ∙ ap (ny_offset_ms z) (eq_ℤ-path j hour same)
    | inr other ↦ cached_lem hour ms rest h.1 (ground arith)
  ]

  -- The cache of offsets stays right, and a cached offset is the one that is computed.
  pub ny_offset_ms_for_hour_lem :
      (hour : ℤ) (cache : List (ℤ × ℤ))
      → IsCache cache
      → (let r = ny_offset_ms_for_hour z hour cache in (r.0 ≡ ny_offset_ms z hour) × IsCache r.1)
  unfolding ny_offset_ms_for_hour
  ny_offset_ms_for_hour_lem hour cache h = by_entry (cached hour cache) refl
    where
      by_entry :
          (o : Option ℤ)
          → cached hour cache ≡ o
          → ((looked_up z hour cache o).0 ≡ ny_offset_ms z hour)
            × IsCache (looked_up z hour cache o).1
      by_entry (some ms) e = (cached_lem hour ms cache h e, h)
      by_entry none e = (refl, (refl, h))

  -- The formatter holds the texts of its second, or it is new.
  abbrev pub IsFormatter : Formatter → Type 0
  IsFormatter f =
      (f ≡ new_formatter) ⊎ ((f.date ≡ z.date_text f.second) × (f.time ≡ z.time_text f.second))

  abbrev pub texts : ℤ → String × String
  texts wall_ms = (
    z.date_text (floor_div wall_ms 1_000),
    z.time_text (floor_div wall_ms 1_000) & ("." & z.three_digits (floor_mod wall_ms 1_000)),
  )

  -- From the epoch on the formatter answers with the texts of the time, however it was used before.
  pub format_lem :
      (n : ℕ) (f : Formatter)
      → IsFormatter f
      → (let r = format z (pos n) f in (r.0 ≡ texts (pos n)) × IsFormatter r.1)
  unfolding format
  format_lem n f h = by_second (eq_ℤ (floor_div (pos n) 1_000) f.second) refl
    where
      answer : Formatter → String × String
      answer g = (g.date, g.time & ("." & z.three_digits (floor_mod (pos n) 1_000)))

      held : IsFormatter f → floor_div (pos n) 1_000 ≡ f.second → answer f ≡ texts (pos n)
      held (inl new) e = absurd (ground (arith, ap (λ g. g.second) new))
      held (inr (d, t)) e = cc

      by_second :
          (b : Bool)
          → eq_ℤ (floor_div (pos n) 1_000) f.second ≡ b
          → (answer (refreshed z b (floor_div (pos n) 1_000) f) ≡ texts (pos n))
            × IsFormatter (refreshed z b (floor_div (pos n) 1_000) f)
      by_second false e = (refl, inr (refl, refl))
      by_second true e = (held h (eq_ℤ-path _ _ e), h)
