-- ===== src/Logger/Runs.antt =====
-- Runs of the log file on one file that holds bytes. The clock counts the calls.
use m_quic.Prelude.{ℕ, ◌+◌, ◌≡◌, refl, ◌⊎◌, pos, minus_one}
use m_quic.Prelude.{List, [], ◌∷◌, ◌++◌, Option, some}
use m_quic.Logger.{Stdio, Logger, Appends, log_init, log_write, log_close}
use m_quic.Logger.{write_all, lines, log_session_lines}
use m_quic.Prelude.{◌==◌, if◌then◌else◌}

abbrev disk : Stdio (ℕ × List ℕ)
disk = record {
  fopen = λ (name mode : List ℕ) (w : ℕ × List ℕ).
      (some 3, (w.0, elim mode [ [] ↦ [] | c ∷ cs ↦ if c == 97 then w.1 else [] ]));
  strftime = λ (w : ℕ × List ℕ). (w.0 ∷ [], (w.0 + 1, w.1));
  fprintf = λ (h : ℕ) (t : List ℕ) (w : ℕ × List ℕ). (w.0, w.1 ++ t);
  fflush = λ (h : ℕ) (w : ℕ × List ℕ). w;
  fclose = λ (h : ℕ) (w : ℕ × List ℕ). w;
}

abbrev held : ℕ → ℕ × List ℕ → List ℕ
held h w = w.1

abbrev named : List ℕ → ℕ × List ℕ → List ℕ
named name w = w.1

disk-Appends : Appends disk held named
disk-Appends = record {
  opens = λ name h w e. refl;
  ticks = λ h w. refl;
  prints = λ h t w. refl;
  flushes = λ h w. refl;
  closes = λ h w. refl;
}

abbrev before_init : Logger (ℕ × List ℕ)
before_init = record { log_file = Option.none; world = (50, 7 ∷ []) }

abbrev two_texts : List (List ℕ)
two_texts = (65 ∷ []) ∷ (67 ∷ 68 ∷ []) ∷ []

log_session_lines_example :
    (((log_init disk [] before_init).0 ≡ minus_one)
      × (write_all disk held named disk-Appends two_texts (log_init disk [] before_init).1
          ≡ (log_init disk [] before_init).1))
    ⊎ (((log_init disk [] before_init).0 ≡ pos 0)
        × (h : ℕ) × ((log_init disk [] before_init).1.log_file ≡ some h)
        × (held h
              (log_close disk (
                write_all disk held named disk-Appends two_texts
                  (log_init disk [] before_init).1)).world
            ≡ 7 ∷ 91 ∷ 50 ∷ 93 ∷ 32 ∷ 65 ∷ 10 ∷ 91 ∷ 51 ∷ 93 ∷ 32 ∷ 67 ∷ 68 ∷ 10 ∷ [])
        × (log_write disk (66 ∷ []) (
              log_close disk
                (write_all disk held named disk-Appends two_texts (log_init disk [] before_init).1))
            ≡ log_close disk (
                write_all disk held named disk-Appends two_texts (log_init disk [] before_init).1)))
unfolding lines log_write log_init
log_session_lines_example =
    log_session_lines disk held named disk-Appends [] two_texts (66 ∷ []) before_init
