-- ===== src/Logger.antt =====
-- The log file of src/logger.c, with `log_file` as an optional handle.
pub mod Runs
use m_quic.Prelude.{ℕ, ◌≡◌, refl, sym, ◌∙◌, ap, arith, ◌⊎◌, inl, inr, ℤ, pos, minus_one}
use m_quic.Prelude.{List, [], ◌∷◌, ◌++◌, Option, none, some, append_assoc, append-nil, Option-cases}

-- What the module calls of stdio and of the clock. `strftime` is `time`, `localtime` and `strftime`.
pub record Stdio (W : Type 0) : Type 0 where
  -- the name and the mode
  pub fopen : List ℕ → List ℕ → W → Option ℕ × W
  pub strftime : W → List ℕ × W
  pub fprintf : ℕ → List ℕ → W → W
  pub fflush : ℕ → W → W
  pub fclose : ℕ → W → W

pub record Logger (W : Type 0) : Type 0 where
  pub log_file : Option ℕ
  pub world : W

-- `"a"`
abbrev pub append_mode : List ℕ
append_mode = 97 ∷ []

-- `"[%s] "` with the time
abbrev pub stamp : List ℕ → List ℕ
stamp time_str = 91 ∷ (time_str ++ (93 ∷ 32 ∷ []))

module _ {W : Type 0} (io : Stdio W) where
  unfoldable pub log_init : List ℕ → Logger W → ℤ × Logger W
  log_init filename s =
      let (f, w) = io.fopen filename append_mode s.world in
      elim f [
        | none ↦ (minus_one, record { log_file = none; world = w })
        | some h ↦ (pos 0, record { log_file = some h; world = w })
      ]

  -- `text` is what `vfprintf` makes of the format and its arguments.
  unfoldable pub log_write : List ℕ → Logger W → Logger W
  log_write text s = elim s.log_file [
    | none ↦ s
    | some h ↦
        (let (time_str, w) = io.strftime s.world in
          let w1 = io.fprintf h (stamp time_str) w in
          let w2 = io.fprintf h text w1 in
          let w3 = io.fprintf h (10 ∷ []) w2 in record s { world = io.fflush h w3 })
  ]

  unfoldable pub log_close : Logger W → Logger W
  log_close s = elim s.log_file [
    | none ↦ s
    | some h ↦ record { log_file = none; world = io.fclose h s.world }
  ]

-- What is in the file of a handle, and in the file of a name: `fopen` in the mode `"a"` keeps it, and
-- only `fprintf` adds to it.
pub record Appends {W : Type 0} (io : Stdio W) (contents : ℕ → W → List ℕ)
    (file : List ℕ → W → List ℕ) : Type 0 where
  pub opens :
      (name : List ℕ) (h : ℕ) (w : W)
      → (io.fopen name append_mode w).0 ≡ some h
      → contents h (io.fopen name append_mode w).1 ≡ file name w
  pub ticks : (h : ℕ) (w : W) → contents h (io.strftime w).1 ≡ contents h w
  pub prints : (h : ℕ) (t : List ℕ) (w : W) → contents h (io.fprintf h t w) ≡ contents h w ++ t
  pub flushes : (h : ℕ) (w : W) → contents h (io.fflush h w) ≡ contents h w
  pub closes : (h : ℕ) (w : W) → contents h (io.fclose h w) ≡ contents h w

module _ {W : Type 0} (io : Stdio W) (contents : ℕ → W → List ℕ) (file : List ℕ → W → List ℕ)
    (appends : Appends io contents file) where
  -- Messages written one after the other.
  unfoldable pub write_all : List (List ℕ) → Logger W → Logger W
  write_all [] s = s
  write_all (text ∷ texts) s = write_all texts (log_write io text s)

  -- The lines that the messages make, each with the time at which it is written.
  unfoldable pub lines : List (List ℕ) → Logger W → List ℕ
  lines [] s = []
  lines (text ∷ texts) s =
      stamp (io.strftime s.world).0 ++ (text ++ (10 ∷ lines texts (log_write io text s)))

  -- One message adds a line with the time to the file that is open.
  line_written :
      (h : ℕ) (text : List ℕ) (w : W)
      → contents h (log_write io text (record { log_file = some h; world = w })).world
        ≡ contents h w ++ (stamp (io.strftime w).0 ++ (text ++ (10 ∷ [])))
  unfolding log_write
  line_written h text w =
      let (time_str, w0) = io.strftime w in
      let w1 = io.fprintf h (stamp time_str) w0 in
      let w2 = io.fprintf h text w1 in
      let w3 = io.fprintf h (10 ∷ []) w2 in
      simp (
        appends.flushes h w3,
        appends.prints h (10 ∷ []) w2,
        appends.prints h text w1,
        appends.prints h (stamp time_str) w0,
        appends.ticks h w,
        append_assoc,
      )

  abbrev opened : ℕ → W → Logger W
  opened h w = record { log_file = some h; world = w }

  handle_kept :
      (h : ℕ) (text : List ℕ) (w : W) → (w' : W) × (log_write io text (opened h w) ≡ opened h w')
  unfolding log_write
  handle_kept h text w = ((log_write io text (opened h w)).world, refl)

  lines_written :
      (h : ℕ) (texts : List (List ℕ)) (w : W)
      → (w' : W) × (write_all texts (opened h w) ≡ opened h w')
        × (contents h w' ≡ contents h w ++ lines texts (opened h w))
  unfolding write_all lines
  lines_written h [] w = (w, refl, sym (append-nil _))
  lines_written h (text ∷ texts) w =
      let (w1, kept) = handle_kept h text w in
      let (w', e, added) = lines_written h texts w1 in
      let first : contents h w1 ≡ contents h w ++ (stamp (io.strftime w).0 ++ (text ++ (10 ∷ []))) =
        ap (λ (s : Logger W). contents h s.world) (sym kept) ∙ line_written h text w in
      (w', rw kept e, rw kept (simp (added, first, append_assoc)))

  nothing_written :
      (texts : List (List ℕ)) (w : W)
      → write_all texts (record { log_file = none; world = w })
        ≡ record { log_file = none; world = w }
  unfolding write_all log_write
  nothing_written [] w = refl
  nothing_written (text ∷ texts) w = nothing_written texts w

  init_fails :
      (name : List ℕ) (s : Logger W)
      → (io.fopen name append_mode s.world).0 ≡ none
      → log_init io name s
        ≡ (minus_one, record { log_file = none; world = (io.fopen name append_mode s.world).1 })
  unfolding log_init
  init_fails name s e = ground (arith, e)

  init_opens :
      (name : List ℕ) (h : ℕ) (s : Logger W)
      → (io.fopen name append_mode s.world).0 ≡ some h
      → log_init io name s ≡ (pos 0, opened h (io.fopen name append_mode s.world).1)
  unfolding log_init
  init_opens name h s e = ground (arith, e)

  late_lost :
      (h : ℕ) (late : List ℕ) (w : W)
      → (contents h (log_close io (opened h w)).world ≡ contents h w)
        × (log_write io late (log_close io (opened h w)) ≡ log_close io (opened h w))
  unfolding log_close log_write
  late_lost h late w = (appends.closes h w, refl)

  -- A log that could be opened has every one of any number of messages written to it as a line with
  -- the time, in their order and after what the file held; `log_close` keeps the lines, and a message
  -- written after it changes nothing. When the file cannot be opened, `log_init` answers -1 and no
  -- message is written.
  pub log_session_lines :
      (name : List ℕ) (texts : List (List ℕ)) (late : List ℕ) (s : Logger W)
      → (((log_init io name s).0 ≡ minus_one)
          × (write_all texts (log_init io name s).1 ≡ (log_init io name s).1))
        ⊎ (((log_init io name s).0 ≡ pos 0)
            × (h : ℕ) × ((log_init io name s).1.log_file ≡ some h)
            × (contents h (log_close io (write_all texts (log_init io name s).1)).world
                ≡ file name s.world ++ lines texts (log_init io name s).1)
            × (log_write io late (log_close io (write_all texts (log_init io name s).1))
                ≡ log_close io (write_all texts (log_init io name s).1)))
  log_session_lines name texts late s =
      let w = (io.fopen name append_mode s.world).1 in
      elim (Option-cases (io.fopen name append_mode s.world).0) [
        | inl e ↦
            let bad = init_fails name s e in
            inl (ap (λ r. r.0) bad, rw bad (nothing_written texts w))
        | inr (h, e) ↦
            let init = init_opens name h s e in
            let (w', written, added) = lines_written h texts w in
            let (closed, silent) = late_lost h late w' in
            inr (
              ap (λ r. r.0) init,
              h,
              ap (λ r. r.1.log_file) init,
              rw (init, written)
                  (closed
                    ∙ (added
                        ∙ ap (λ z. z ++ lines texts (opened h w))
                            (appends.opens name h s.world e))),
              rw (init, written) silent,
            )
      ]
