-- ===== src/Tickdata/Convert/Counted.antt =====
-- convert.py, the loop: the ticks are counted, and the server time never goes back from line to line.
use ea_trading_system.Prelude.{
  ℕ, ℤ, ◌+◌, ◌≤ℤ◌, ltb_ℤ, length, ◌≡◌, refl, sym, ap, ◌∙◌, String, ◌==◌, Bool, true, false, not,
  Option, none, some, List, [], ◌∷◌, ◌++◌, lookup, arith,
}
use ea_trading_system.Errors.{ok, runtime_error, ok_path}
use ea_trading_system.Act.{Act, lift, after, after_lift, after_require, after_catch}
use ea_trading_system.Python.{Python}
use ea_trading_system.Tickdata.Chunks.{Chunk}
use ea_trading_system.Tickdata.Model.{Tick, parse_normalized_row}
use ea_trading_system.Tickdata.Times.{Zones, Rule, format, utc_ms_to_server_wall_ms}
use ea_trading_system.Tickdata.Store.{Files, Manifest, item}
use ea_trading_system.Tickdata.Download.{Store, normalized_path}
use ea_trading_system.Tickdata.Convert.{
  Closed, MonthFile, Converting, nothing_converted, month_key, mt5_line,
}
use ea_trading_system.Tickdata.Convert.Lines.{
  close, close_current, path_of, enter_month, written, convert_line, guarded, discard,
  convert_lines, lines_of_entry, convert_chunks, convert_all,
}

abbrev pub ticks_of : List Closed → ℕ
ticks_of [] = 0
ticks_of (f ∷ fs) = f.ticks + ticks_of fs

ticks_of-append : (fs gs : List Closed) → ticks_of (fs ++ gs) ≡ ticks_of fs + ticks_of gs
ticks_of-append [] gs = omega arith
ticks_of-append (f ∷ fs) gs = omega (arith, ticks_of-append fs gs)

abbrev pub open_ticks : Option MonthFile → ℕ
open_ticks none = 0
open_ticks (some f) = f.ticks

-- The total is the number of the ticks in the closed files and the open one.
abbrev pub IsCounted : Converting → Type 0
IsCounted c = c.total ≡ ticks_of c.files + open_ticks c.current

module _ {F W : Type 0} (p : Python F) (z : Zones) (files : Files W)
    (lines : String → Act W (List String)) (directory : String) (name_of : String → String) where
  close_lem :
      (f : MonthFile) (w : W) (d : Closed) (w' : W)
      → close p z files lines directory name_of f w ≡ (ok d, w')
      → d.ticks ≡ f.ticks
  unfolding close
  close_lem f w d w' h = after (files.write_text _ f.text) _ w d w' h λ u w₁ e₁ h₁.
      after (files.replace _ (path_of p z files lines directory name_of f)) _ w₁ d w' h₁
        λ v w₂ e₂ h₂.
          after (files.size (path_of p z files lines directory name_of f)) _ w₂ d w' h₂
            λ n w₃ e₃ h₃.
              after (files.read_bytes (path_of p z files lines directory name_of f)) _ w₃ d w' h₃
                λ content w₄ e₄ h₄. ap (λ o. o.ticks) (sym (ok_path (ap (λ a. a.0) h₄)))

  close_current_lem :
      (o : Option MonthFile) (w : W) (ds : List Closed) (w' : W)
      → close_current p z files lines directory name_of o w ≡ (ok ds, w')
      → ticks_of ds ≡ open_ticks o
  close_current_lem none w ds w' h = ap ticks_of (sym (ok_path (ap (λ a. a.0) h)))
  close_current_lem (some f) w ds w' h =
      after (close p z files lines directory name_of f) _ w ds w' h λ d w₁ e₁ h₁.
        let one : d.ticks ≡ f.ticks = close_lem f w d w₁ e₁ in
        ap ticks_of (sym (ok_path (ap (λ a. a.0) h₁))) ∙ omega (arith, one)

  enter_month_lem :
      (same : Bool) (key : String) (c : Converting) (w : W) (r : List Closed × Option MonthFile)
      (w' : W)
      → enter_month p z files lines directory name_of same key c w ≡ (ok r, w')
      → ticks_of r.0 + open_ticks r.1 ≡ ticks_of c.files + open_ticks c.current
  enter_month_lem true key c w r w' h =
      ap (λ a. ticks_of a.0 + open_ticks a.1) (sym (ok_path (ap (λ a. a.0) h)))
  enter_month_lem false key c w r w' h =
      after (close_current p z files lines directory name_of c.current) _ w r w' h λ ds w₁ e₁ h₁.
        let all : ticks_of ds ≡ open_ticks c.current = close_current_lem c.current w ds w₁ e₁ in
        ap (λ a. ticks_of a.0 + open_ticks a.1) (sym (ok_path (ap (λ a. a.0) h₁)))
        ∙ omega (arith, all, ticks_of-append c.files ds)

  -- Each line is a tick, whose server time is not before that of the line before it; the first time is
  -- compared with a given one, and the last one is given.
  abbrev pub AreOrdered : Rule F → ℤ → List String → ℤ → Type 0
  AreOrdered rule previous [] last = previous ≡ last
  AreOrdered rule previous (l ∷ ls) last =
      (t : Tick F) × (wall : ℤ) × (parse_normalized_row p l ≡ ok t)
      × (utc_ms_to_server_wall_ms z p rule t.timestamp_ms ≡ ok wall)
      × (previous ≤ℤ wall)
      × AreOrdered rule wall ls last

  -- What a number of lines does to the total.
  abbrev Advances : Converting → Converting → ℕ → Type 0
  Advances c c' n = (c'.total ≡ c.total + n) × (IsCounted c → IsCounted c')

  written_lem :
      (o : Option MonthFile) (date_text time_text line : String) (f : MonthFile)
      → written p z files lines directory name_of o date_text time_text line ≡ ok f
      → f.ticks ≡ open_ticks o + 1
  written_lem none date_text time_text line f h = absurd (ground arith)
  written_lem (some g) date_text time_text line f h = ap (λ o. o.ticks) (sym (ok_path h))

  convert_line-Advances :
      (rule : Rule F) (l : String) (c : Converting) (w : W) (c' : Converting) (w' : W)
      → convert_line p z files lines directory name_of rule l c w ≡ (ok c', w')
      → Advances c c' 1
        × ((t : Tick F) × (parse_normalized_row p l ≡ ok t)
            × (utc_ms_to_server_wall_ms z p rule t.timestamp_ms ≡ ok c'.previous_wall)
            × (c.previous_wall ≤ℤ c'.previous_wall))
  unfolding convert_line
  convert_line-Advances rule l c w c' w' h =
      after_lift (parse_normalized_row p l) _ w c' w' h λ t e₁ h₁.
        after_lift (utc_ms_to_server_wall_ms z p rule t.timestamp_ms) _ w c' w' h₁ λ wall e₂ h₂.
          after_require (not (ltb_ℤ wall c.previous_wall)) runtime_error _ w c' w' h₂ λ later h₃.
            after
              (enter_month p z files lines directory name_of
                (month_key (format z wall c.formatter).0.0 == c.current_month)
                (month_key (format z wall c.formatter).0.0) c)
              _ w c' w' h₃
              λ r w₁ e₄ h₄.
                after_lift
                  (written p z files lines directory name_of r.1 (format z wall c.formatter).0.0
                    (format z wall c.formatter).0.1
                    (mt5_line p (format z wall c.formatter).0.0 (format z wall c.formatter).0.1 t))
                  _ w₁ c' w' h₄
                  λ f e₅ h₅.
                    let more : f.ticks ≡ open_ticks r.1 + 1 = written_lem r.1 _ _ _ f e₅ in
                    let moved : ticks_of r.0 + open_ticks r.1
                        ≡ ticks_of c.files + open_ticks c.current =
                      enter_month_lem _ _ c w r w₁ e₄ in
                    rw (← ok_path (ap (λ a. a.0) h₅)) (
                      (refl, λ counted. omega (arith, more, moved, counted)),
                      (t, e₁, e₂, ground (arith, later)),
                    )

  guarded_lem :
      {A : Type 0} (c : Converting) (m : Act W A) (w : W) (a : A) (w' : W)
      → guarded p z files lines directory name_of c m w ≡ (ok a, w')
      → m w ≡ (ok a, w')
  guarded_lem c m w a w' h =
      after_catch m _ w a w' h (λ done. done)
        λ e w₁ e₁ h₁.
          after (discard p z files lines directory name_of c.current) _ w₁ a w' h₁
            λ u w₂ e₂ h₂. absurd (ground arith)

  -- The lines are the ticks that are added, in the order of their times.
  convert_lines-Advances :
      (rule : Rule F) (ls : List String) (c : Converting) (w : W) (c' : Converting) (w' : W)
      → convert_lines p z files lines directory name_of rule ls c w ≡ (ok c', w')
      → Advances c c' (length ls) × AreOrdered rule c.previous_wall ls c'.previous_wall
  unfolding convert_lines
  convert_lines-Advances rule [] c w c' w' h =
      rw (← ok_path (ap (λ a. a.0) h)) ((omega arith, λ counted. counted), refl)
  convert_lines-Advances rule (l ∷ ls) c w c' w' h =
      after
        (guarded p z files lines directory name_of c
          (convert_line p z files lines directory name_of rule l c))
        _ w c' w' h
        λ d w₁ e₁ h₁.
          let ((one, keeps), (t, parsed, timed, later)) =
            convert_line-Advances rule l c w d w₁
              (guarded_lem c (convert_line p z files lines directory name_of rule l c) w d w₁ e₁) in
          let ((rest, keeps'), ordered) = convert_lines-Advances rule ls d w₁ c' w' h₁ in
          (
            (omega (arith, one, rest), λ counted. keeps' (keeps counted)),
            (t, d.previous_wall, parsed, timed, later, ordered),
          )

  -- Each line that is converted is a tick more, the total stays the number of the ticks in the files,
  -- and the server time of no line is before that of the line before it, from the last time of the lines
  -- before to the time that the next lines are compared with.
  pub convert_lines-IsCounted :
      (rule : Rule F) (ls : List String) (c : Converting) (w : W) (c' : Converting) (w' : W)
      → IsCounted c
      → convert_lines p z files lines directory name_of rule ls c w ≡ (ok c', w')
      → (c'.total ≡ c.total + length ls)
        × IsCounted c'
        × AreOrdered rule c.previous_wall ls c'.previous_wall
  convert_lines-IsCounted rule ls c w c' w' counted h =
      let ((total, keeps), ordered) = convert_lines-Advances rule ls c w c' w' h in
      (total, keeps counted, ordered)

  convert_chunks-IsCounted :
      (rule : Rule F) (s : Store F) (m : Manifest) (ks : List Chunk) (c : Converting) (w : W)
      (c' : Converting) (w' : W)
      → IsCounted c
      → convert_chunks p z files lines directory name_of rule s m ks c w ≡ (ok c', w')
      → IsCounted c'
  unfolding convert_chunks
  convert_chunks-IsCounted rule s m [] c w c' w' counted h =
      rw (← ok_path (ap (λ a. a.0) h)) counted
  convert_chunks-IsCounted rule s m (k ∷ ks) c w c' w' counted h =
      after (guarded p z files lines directory name_of c (lift (item (lookup k.chunk_id m.chunks))))
        _ w c' w' h
        λ e w₁ e₁ h₁.
          after
            (guarded p z files lines directory name_of c (
              lines_of_entry p z files lines directory name_of e.normalize
                (normalized_path s k.chunk_id)))
            _ w₁ c' w' h₁
            λ ls w₂ e₂ h₂.
              after (convert_lines p z files lines directory name_of rule ls c) _ w₂ c' w' h₂
                λ d w₃ e₃ h₃.
                  let (total, still, ordered) =
                    convert_lines-IsCounted rule ls c w₂ d w₃ counted e₃ in
                  convert_chunks-IsCounted rule s m ks d w₃ c' w' still h₃

  -- The total of a conversion is the number of the ticks in its files.
  pub convert_all-IsCounted :
      (rule : Rule F) (s : Store F) (m : Manifest) (ks : List Chunk) (w : W) (c : Converting)
      (closed : List Closed) (w' : W)
      → convert_all p z files lines directory name_of rule s m ks w ≡ (ok (c, closed), w')
      → c.total ≡ ticks_of closed
  unfolding convert_all
  convert_all-IsCounted rule s m ks w c closed w' h =
      after (convert_chunks p z files lines directory name_of rule s m ks nothing_converted) _ w
        (c, closed) w' h
        λ d w₁ e₁ h₁.
          after
            (guarded p z files lines directory name_of d
              (close_current p z files lines directory name_of d.current))
            _ w₁ (c, closed) w' h₁
            λ last w₂ e₂ h₂.
              let counted : IsCounted d =
                convert_chunks-IsCounted rule s m ks nothing_converted w d w₁ refl e₁ in
              let all : ticks_of last ≡ open_ticks d.current =
                close_current_lem d.current w₁ last w₂ (
                  guarded_lem d (close_current p z files lines directory name_of d.current) w₁ last
                    w₂ e₂) in
              let answer : Path (Converting × List Closed) (d, d.files ++ last) (c, closed) =
                ok_path (ap (λ a. a.0) h₂) in
              ap (λ a. a.0.total) (sym answer)
              ∙ omega (arith, counted, all, ticks_of-append d.files last)
              ∙ ap (λ a. ticks_of a.1) answer
