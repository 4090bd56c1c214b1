-- ===== src/Quality/Archive.antt =====
-- `compare_archive` of src/quality/data_quality.cpp: online samples against the archive.
use scada_guard.Prelude.{
  ℕ, ◌-◌, min, Bool, true, not, ◌&&◌, ◌||◌, Option, none, some, List, [], ◌∷◌, ◌++◌, ◌≡◌, ◌≢◌, refl,
  ◌∙◌, ap, sym, str_eq, ltb, all, arith, if◌then◌else◌, pos, sub_ℕ, ltb_ℤ,
}
use scada_guard.Model.{CheckResult, SignalSample, JsonLib}
use scada_guard.Quality.{SignalRule, find_rule, issue, nearly_equal, when, seconds_ℤ}
use scada_guard.Quality.Real.{RealLib}

-- `TimePoint::duration::max()`
abbrev pub max_duration : ℕ
max_duration = 9223372036854775807

module _ {R : Type 0} where
  -- The loop that looks for the archive sample nearest in time, and its distance in ticks.
  unfoldable pub distance : SignalSample R → SignalSample R → ℕ
  distance a c =
      if ltb c.source_timestamp a.source_timestamp
      then a.source_timestamp - c.source_timestamp
      else c.source_timestamp - a.source_timestamp

  unfoldable pub nearest :
      SignalSample R
      → List (SignalSample R)
      → Option (SignalSample R)
      → ℕ
      → Option (SignalSample R) × ℕ
  unfolding distance
  nearest c [] best best_distance = (best, best_distance)
  nearest c (a ∷ rest) best best_distance =
      let better = str_eq a.signal_id c.signal_id && ltb (distance a c) best_distance in
      nearest c rest (if better then some a else best)
        (if better then distance a c else best_distance)

  abbrev pub is_missing : SignalRule R → Option (SignalSample R) × ℕ → Bool
  is_missing r (none, d) = true
  is_missing r (some a, d) = ltb_ℤ (seconds_ℤ r.archive_match_window_seconds) (pos d)

module _ {J R : Type 0} (json : JsonLib J) (real : RealLib J R) where
  open json use {object, put}
  open real use {of_real}

  mismatch : SignalRule R → SignalSample R → Option (SignalSample R) → ℕ → List (CheckResult J)
  unfolding issue nearly_equal
  mismatch r c none now = []
  mismatch r c (some best) now =
      when
        (not (
          nearly_equal json real c.value best.value r.archive_absolute_tolerance
            r.archive_relative_tolerance))
        (issue json real c "archive_mismatch" "Online and archive values differ"
          (put (put object "online_value" (of_real c.value)) "archive_value" (of_real best.value))
          now)

  unfoldable pub compare_sample :
      List (SignalRule R) → SignalSample R → List (SignalSample R) → ℕ → List (CheckResult J)
  unfolding find_rule nearest mismatch issue
  compare_sample rules c archive now = elim (find_rule rules c.signal_id) [
    | none ↦ []
    | some r ↦
        if not r.enabled || ltb_ℤ (sub_ℕ now c.source_timestamp) (seconds_ℤ r.archive_delay_seconds)
        then []
        else if is_missing r (nearest c archive none max_duration)
        then issue json real c "archive_missing"
            "No archive sample exists in the configured match window" object now
          ∷ []
        else mismatch r c (nearest c archive none max_duration).0 now
  ]

  unfoldable pub compare_archive :
      List (SignalSample R) → List (SignalSample R) → List (SignalRule R) → ℕ → List (CheckResult J)
  unfolding compare_sample
  compare_archive [] archive rules now = []
  compare_archive (c ∷ cs) archive rules now =
      compare_sample rules c archive now ++ compare_archive cs archive rules now

module _ {R : Type 0} where
  -- The least distance of the archive samples of the signal, and of a bound.
  least : SignalSample R → ℕ → List (SignalSample R) → ℕ
  least c d [] = d
  least c d (a ∷ rest) =
      least c (if str_eq a.signal_id c.signal_id then min d (distance a c) else d) rest

  nearest-least :
      (c : SignalSample R) (archive : List (SignalSample R)) (best : Option (SignalSample R))
      (d : ℕ)
      → (nearest c archive best d).1 ≡ least c d archive
  unfolding nearest least
  nearest-least c [] best d = refl
  nearest-least c (a ∷ rest) best d =
      ground (arith, nearest-least c rest (some a) (distance a c), nearest-least c rest best d)

  nearest-some :
      (c b : SignalSample R) (archive : List (SignalSample R)) (d : ℕ)
      → (nearest c archive (some b) d).0 ≢ none
  unfolding nearest
  nearest-some c b [] d = ground arith
  nearest-some c b (a ∷ rest) d =
      ground (arith, nearest-some c a rest (distance a c), nearest-some c b rest d)

  -- Without a best sample no distance is below the bound.
  nearest-none :
      (c : SignalSample R) (archive : List (SignalSample R)) (best : Option (SignalSample R))
      (d : ℕ)
      → (nearest c archive best d).0 ≡ none
      → (nearest c archive best d).1 ≡ d
  unfolding nearest
  nearest-none c [] best d h = refl
  nearest-none c (a ∷ rest) best d h =
      ground (arith, nearest-some c a rest (distance a c), nearest-none c rest best d)

  -- No archive sample of the signal is in the window.
  abbrev pub outside : SignalRule R → SignalSample R → SignalSample R → Bool
  outside r c a =
      not (str_eq a.signal_id c.signal_id)
      || ltb_ℤ (seconds_ℤ r.archive_match_window_seconds) (pos (distance a c))

  least-outside :
      (r : SignalRule R) (c : SignalSample R) (d : ℕ) (archive : List (SignalSample R))
      → ltb_ℤ (seconds_ℤ r.archive_match_window_seconds) (pos (least c d archive))
        ≡ (ltb_ℤ (seconds_ℤ r.archive_match_window_seconds) (pos d) && all (outside r c) archive)
  unfolding least
  least-outside r c d [] = ground arith
  least-outside r c d (a ∷ rest) =
      ground (arith, least-outside r c d rest, least-outside r c (min d (distance a c)) rest)

  is_missing_lem :
      (r : SignalRule R) (best : Option (SignalSample R)) (bound d : ℕ)
      → (best ≡ none → d ≡ bound)
      → ltb_ℤ (seconds_ℤ r.archive_match_window_seconds) (pos bound) ≡ true
      → is_missing r (best, d) ≡ ltb_ℤ (seconds_ℤ r.archive_match_window_seconds) (pos d)
  is_missing_lem r none bound d e fits = rw (e refl) (sym fits)
  is_missing_lem r (some a) bound d e fits = refl

  -- A sample counts as missing from the archive exactly if no sample of its signal there is within the
  -- match window, given a window below the largest duration, as every number of seconds in an `int`
  -- is.
  pub is_missing-outside :
      (r : SignalRule R) (c : SignalSample R) (archive : List (SignalSample R))
      → ltb_ℤ (seconds_ℤ r.archive_match_window_seconds) (pos max_duration) ≡ true
      → is_missing r (nearest c archive none max_duration) ≡ all (outside r c) archive
  is_missing-outside r c archive fits =
      is_missing_lem r (nearest c archive none max_duration).0 max_duration
        (nearest c archive none max_duration).1 (nearest-none c archive none max_duration) fits
      ∙ ap (λ d. ltb_ℤ (seconds_ℤ r.archive_match_window_seconds) (pos d))
          (nearest-least c archive none max_duration)
      ∙ least-outside r c max_duration archive
      ∙ ap (λ b. b && all (outside r c) archive) fits
