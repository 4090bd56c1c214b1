-- ===== src/Checks/Logs/Reading.antt =====
-- What a log check reads of a file, and what it finds there.
use scada_guard.Prelude.{
  ℕ, ◌+◌, ◌-◌, ◌≤◌, min, false, List, [], ◌∷◌, ◌++◌, ◌≡◌, refl, ◌∙◌, sym, ap, length, length-take,
  length-drop, take, drop, take-add, take-drop-take, arith, ltb,
}
use mathlib.Core.List.{append_assoc, append-nil}
use scada_guard.Model.{JsonLib, UtcLib}
use scada_guard.Checks.{TextLib}
use scada_guard.Checks.Logs.{
  LogPatternCheck, LogFile, Identity, log_file, identify, file_id_of, read_data, check_log,
}

-- The files of one log that only grows, up to `whole`: each is a start of it, no shorter than `low`.
abbrev pub IsGrowing : List ℕ → ℕ → List LogFile → Type 0
IsGrowing whole low [] = Unit {0}
IsGrowing whole low (f ∷ fs) =
    (low ≤ f.size)
    × (f.size ≤ length whole)
    × (f.content ≡ take f.size whole)
    × IsGrowing whole f.size fs

IsGrowing-low :
    (whole : List ℕ) (a b : ℕ) (fs : List LogFile)
    → a ≤ b
    → IsGrowing whole b fs
    → IsGrowing whole a fs
IsGrowing-low whole a b [] h g = g
IsGrowing-low whole a b (f ∷ fs) h g = (omega arith, g.1, g.2, g.3)

-- The check has seen this file before.
abbrev pub IsSame : Identity → LogPatternCheck → Type 0
IsSame i t = (file_id_of i ≡ t.file_id) × (i.volume_serial_number ≡ t.volume_serial)

-- One piece is read behind what was read before.
piece :
    (o n limit : ℕ) (whole : List ℕ)
    → o ≤ n
    → n ≤ length whole
    → let data' = take (min (n - o) limit) (drop o (take n whole)) in
      (take o whole ++ data' ≡ take (o + length data') whole) × (o + length data' ≤ n)
piece o n limit whole low fits =
    let k : ℕ = min (n - o) limit in
    let same : take k (drop o (take n whole)) ≡ take k (drop o whole) =
      take-drop-take o k n whole (omega arith) in
    let size : length (take k (drop o whole)) ≡ k =
      omega (arith, length-take k (drop o whole), length-drop o whole) in
    rw (same, size) (sym (take-add o k whole), omega arith)

pub identify-same :
    (i : Identity) (t : LogPatternCheck) → IsSame i t → (identify i t).offset ≡ t.offset
unfolding identify
identify-same i t (a, b) = ground arith

module _ {J : Type 0} (json : JsonLib J) (utc : UtcLib) (text_lib : TextLib) (clock : ℕ)
    (i : Identity) where
  abbrev after : LogFile → LogPatternCheck → LogPatternCheck
  after f t = (check_log json utc text_lib (log_file i f) clock t).1

  -- The checks of a log, one after the other, and the data that they read.
  pub check_all : List LogFile → LogPatternCheck → LogPatternCheck × List ℕ
  check_all [] t = (t, [])
  check_all (f ∷ fs) t =
      let (t', rest) = check_all fs (after f t) in (t', (read_data f (identify i t)).1 ++ rest)

  after-IsSame : (f : LogFile) (t : LogPatternCheck) → IsSame i (after f t)
  unfolding check_log identify read_data
  after-IsSame f t = (refl, refl)

  after-piece :
      (f : LogFile) (t : LogPatternCheck) (whole : List ℕ)
      → IsSame i t
      → t.offset ≤ f.size
      → f.size ≤ length whole
      → f.content ≡ take f.size whole
      → (take t.offset whole ++ (read_data f (identify i t)).1 ≡ take (after f t).offset whole)
        × ((after f t).offset ≤ f.size)
  unfolding check_log read_data
  after-piece f t whole same low fits start =
      let late : ltb f.size t.offset ≡ false = ground arith in
      rw (identify-same i t same, late, start)
        (piece t.offset f.size (identify i t).config.max_read_bytes whole low fits)

  -- Let a log that only grows be checked again and again by a check that knows its identity and
  -- stands within it, each time as far as the log reaches then. Whatever the read limit, and
  -- whether the checks are cancelled or not: what lies before the first position and what the
  -- checks read, one after the other, is the start of the log up to the last position. No byte is
  -- left out, none is read twice.
  pub check_all-take :
      (fs : List LogFile) (t : LogPatternCheck) (whole : List ℕ)
      → IsSame i t
      → IsGrowing whole t.offset fs
      → take t.offset whole ++ (check_all fs t).1 ≡ take (check_all fs t).0.offset whole
  unfolding check_all
  check_all-take [] t whole same grows = append-nil (take t.offset whole)
  check_all-take (f ∷ fs) t whole same (low, fits, start, grows) =
      let (reads, stays) = after-piece f t whole same low fits start in
      sym (
        append_assoc (take t.offset whole) (read_data f (identify i t)).1
          (check_all fs (after f t)).1)
      ∙ ap (λ xs. xs ++ (check_all fs (after f t)).1) reads
      ∙ check_all-take fs (after f t) whole (after-IsSame f t)
          (IsGrowing-low whole (after f t).offset f.size fs stays grows)
