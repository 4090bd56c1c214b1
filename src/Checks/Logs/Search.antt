-- ===== src/Checks/Logs/Search.antt =====
-- What a log check makes of the data that it has read.
use scada_guard.Prelude.{
  ℕ, suc, ◌-◌, ◌≤◌, min, max, String, Bool, true, false, Option, none, some, List, [], ◌∷◌, ◌≡◌,
  ◌≢◌, refl, ◌∙◌, ap, length, drop, length-take, length-drop, keep, All, find_if, arith, ltb,
  if◌then◌else◌, Option-cases, inl, inr,
}
use scada_guard.Model.{HealthStatus, CheckResult, JsonLib, UtcLib}
use scada_guard.Checks.{TextLib}
use scada_guard.Checks.Logs.{
  LogPatternCheck, LogCheckConfig, LogPatternGroup, LogFile, Identity, log_file, identify,
  read_data, check_log, search_groups, found_in, contains, rank, log_result, haystack_of, lower,
  blank_result,
}
use scada_guard.Checks.Logs.Reading.{IsSame, identify-same}

-- The highest of a rank and those of some groups.
pub worst_rank : ℕ → List LogPatternGroup → ℕ
worst_rank n [] = n
worst_rank n (g ∷ gs) = worst_rank (max n (rank g.severity)) gs

abbrev pub is_found : Option String → Bool
is_found none = false
is_found (some p) = true

module _ {J : Type 0} (json : JsonLib J) (utc : UtcLib) (text_lib : TextLib) where
  abbrev pub matching : LogCheckConfig → List ℕ → List LogPatternGroup → List LogPatternGroup
  matching c haystack gs = keep (λ g. is_found (found_in json utc text_lib c haystack g)) gs

  worse_rank :
      (a b : HealthStatus) → rank (if ltb (rank a) (rank b) then b else a) ≡ max (rank a) (rank b)
  worse_rank a b = ground arith

  -- Each group that has a pattern in the data counts as one match, however many of its patterns are
  -- there, and the severity is the highest of theirs and the one to begin with.
  pub search_groups-worst :
      (c : LogCheckConfig) (haystack : List ℕ) (gs : List LogPatternGroup) (worst : HealthStatus)
      → let (matches, severity) = search_groups json utc text_lib c haystack gs worst in
        (length matches ≡ length (matching c haystack gs))
        × (rank severity ≡ worst_rank (rank worst) (matching c haystack gs))
  unfolding search_groups worst_rank
  search_groups-worst c haystack [] worst = (refl, refl)
  search_groups-worst c haystack (g ∷ gs) worst =
      elim (Option-cases (found_in json utc text_lib c haystack g)) [
        | inl e ↦ rw (e, search_groups) (search_groups-worst c haystack gs worst)
        | inr (p, e) ↦
            let worse = if ltb (rank worst) (rank g.severity) then g.severity else worst in
            let (count, severity) = search_groups-worst c haystack gs worse in
            rw (e, search_groups)
              (
                ap (λ n. suc n) count,
                severity
                    ∙ ap (λ n. worst_rank n (matching c haystack gs)) (worse_rank worst g.severity),
              )
      ]

  -- A pattern that is the empty text would be found anywhere.
  abbrev pub IsNamed : LogPatternGroup → Type 0
  IsNamed g = All (λ p. text_lib.bytes_of p ≢ []) g.patterns

  contains-nil : (needle : List ℕ) → needle ≢ [] → contains needle [] ≡ false
  contains-nil [] h = absurd (h refl)
  contains-nil (n ∷ ns) h = refl

  lower_named : (bytes : List ℕ) → bytes ≢ [] → lower json utc text_lib bytes ≢ []
  unfolding lower
  lower_named [] h = absurd (h refl)
  lower_named (b ∷ bs) h = ground arith

  find_if-contains :
      (c : LogCheckConfig) (ps : List String)
      → All (λ p. text_lib.bytes_of p ≢ []) ps
      → find_if
          (λ p.
            contains
              (if c.case_sensitive
                then text_lib.bytes_of p
                else lower json utc text_lib (text_lib.bytes_of p))
              [])
          ps
        ≡ none
  find_if-contains c [] h = refl
  find_if-contains c (p ∷ ps) (named, rest) = ground (
    arith,
    contains-nil (text_lib.bytes_of p) named,
    contains-nil (lower json utc text_lib (text_lib.bytes_of p))
        (lower_named (text_lib.bytes_of p) named),
    find_if-contains c ps rest,
  )

  found_in-nil :
      (c : LogCheckConfig) (g : LogPatternGroup)
      → IsNamed g
      → found_in json utc text_lib c [] g ≡ none
  unfolding found_in
  found_in-nil c g h = find_if-contains c g.patterns h

  search_groups-nil :
      (c : LogCheckConfig) (gs : List LogPatternGroup) (worst : HealthStatus)
      → All IsNamed gs
      → search_groups json utc text_lib c [] gs worst ≡ ([], worst)
  unfolding search_groups
  search_groups-nil c [] worst h = refl
  search_groups-nil c (g ∷ gs) worst (named, rest) =
      rw (found_in-nil c g named, search_groups) (search_groups-nil c gs worst rest)

  haystack_of-nil : (c : LogCheckConfig) → haystack_of json utc text_lib c [] ≡ []
  haystack_of-nil c = ground arith

  -- A cancelled check has read its data, and the check after it finds nothing in them.
  abbrev pub cancelled : LogFile → LogFile
  cancelled f = record f { stop_requested = true }

  abbrev pub state_after : Identity → LogFile → ℕ → LogPatternCheck → LogPatternCheck
  state_after i f clock t = (check_log json utc text_lib (log_file i f) clock t).1

  read_data-end :
      (f : LogFile) (t : LogPatternCheck)
      → f.size ≡ length f.content
      → t.offset ≤ f.size
      → f.size - t.offset ≤ t.config.max_read_bytes
      → (read_data f t).0.offset ≡ f.size
  unfolding read_data
  read_data-end f t whole low fits =
      let late : ltb f.size t.offset ≡ false = ground arith in
      rw late (
        omega (
          arith,
          length-take (min (f.size - t.offset) t.config.max_read_bytes) (drop t.offset f.content),
          length-drop t.offset f.content,
        ))

  drop_all : (xs : List ℕ) → drop (length xs) xs ≡ []
  drop_all [] = refl
  drop_all (x ∷ xs) = drop_all xs

  read_data-nothing :
      (f : LogFile) (t : LogPatternCheck) → t.offset ≡ f.size → (read_data f t).1 ≡ []
  unfolding read_data
  read_data-nothing f t e =
      let late : ltb f.size t.offset ≡ false = ground arith in
      let none_left : min (f.size - t.offset) t.config.max_read_bytes ≡ 0 = omega arith in
      rw (late, none_left) refl

  log_result-nothing :
      (t : LogPatternCheck) (r : CheckResult J)
      → All IsNamed t.config.groups
      → (log_result json utc text_lib [] t r).status ≡ HealthStatus.ok
  unfolding log_result
  log_result-nothing t r named =
      rw
        (haystack_of-nil t.config, search_groups-nil t.config t.config.groups HealthStatus.ok named)
        refl

  check_log-status :
      (i : Identity) (f : LogFile) (clock : ℕ) (t : LogPatternCheck)
      → f.stop_requested ≡ false
      → (read_data f (identify i t)).1 ≡ []
      → All IsNamed t.config.groups
      → (check_log json utc text_lib (log_file i f) clock t).0.status ≡ HealthStatus.ok
  unfolding check_log identify read_data
  check_log-status i f clock t going nothing named =
      rw (going, nothing)
        (log_result-nothing (state_after i f clock t) (blank_result json utc text_lib t clock)
          named)

  identify-config : (i : Identity) (t : LogPatternCheck) → (identify i t).config ≡ t.config
  unfolding identify
  identify-config i t = refl

  state_after-IsSame :
      (i : Identity) (f : LogFile) (clock : ℕ) (t : LogPatternCheck)
      → IsSame i (state_after i f clock t)
  unfolding check_log identify read_data
  state_after-IsSame i f clock t = (refl, refl)

  state_after-end :
      (i : Identity) (f : LogFile) (clock : ℕ) (t : LogPatternCheck)
      → IsSame i t
      → f.size ≡ length f.content
      → t.offset ≤ f.size
      → f.size - t.offset ≤ t.config.max_read_bytes
      → (identify i (state_after i f clock t)).offset ≡ f.size
  unfolding check_log
  state_after-end i f clock t same whole low fits =
      let start : (identify i t).offset ≡ t.offset = identify-same i t same in
      identify-same i (state_after i f clock t) (state_after-IsSame i f clock t)
      ∙ read_data-end f (identify i t) whole (omega arith) (rw (start, identify-config i t) fits)

  -- Let a check of a known file be cancelled after it has read the rest of the file, which is
  -- within its read limit. Then the next check of the same file answers `ok`, whatever the data
  -- hold that the cancelled one read, if no pattern is the empty text.
  pub check_log-cancelled :
      (i : Identity) (f : LogFile) (clock later : ℕ) (t : LogPatternCheck)
      → IsSame i t
      → f.size ≡ length f.content
      → t.offset ≤ f.size
      → f.size - t.offset ≤ t.config.max_read_bytes
      → f.stop_requested ≡ false
      → All IsNamed t.config.groups
      → (check_log json utc text_lib
          (log_file i f)
          later
          (state_after i (cancelled f) clock t)).0.status
        ≡ HealthStatus.ok
  unfolding check_log identify read_data
  check_log-cancelled i f clock later t same whole low fits going named =
      check_log-status i f later (state_after i (cancelled f) clock t) going
        (read_data-nothing f (identify i (state_after i (cancelled f) clock t))
          (state_after-end i (cancelled f) clock t same whole low fits))
        named
