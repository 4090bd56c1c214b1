-- ===== src/Quality.antt =====
-- include/scadaguard/data_quality.hpp and src/quality/data_quality.cpp: the analysis of signal
-- samples. `double` and its operations are an interface.
pub mod Real
pub mod Memory
pub mod Archive
use scada_guard.Prelude.{
  ℕ, ◌+◌, ◌-◌, ◌/◌, String, Bool, true, false, not, ◌&&◌, ◌||◌, Option, none, some, List, [], ◌∷◌,
  ◌++◌, Map, lookup, insert, any, find_if, map, str_eq, ltb, leb, if◌then◌else◌, ℤ, pos, sub_ℕ,
  ltb_ℤ, leb_ℤ, scale,
}
use Prim.Native.String.{◌++◌ as append_text}
use scada_guard.Model.{HealthStatus, CheckResult, SignalSample, JsonLib, epoch, ticks_per_second}
use Real.{RealLib}

-- `SignalRule` of include/scadaguard/config.hpp.
pub record SignalRule (R : Type 0) : Type 0 where
  pub signal_id : String
  pub enabled : Bool
  pub minimum : Option R
  pub maximum : Option R
  pub allowed_quality : List String
  pub invalid_sentinels : List R
  pub max_age_seconds : ℤ
  pub frozen_after_seconds : Option ℤ
  pub frozen_epsilon : R
  pub max_rate_per_second : Option R
  pub expected_period_seconds : Option ℤ
  pub missing_period_multiplier : R
  pub archive_delay_seconds : ℤ
  pub archive_match_window_seconds : ℤ
  pub archive_absolute_tolerance : R
  pub archive_relative_tolerance : R

pub record History (R : Type 0) : Type 0 where
  pub previous : SignalSample R
  pub stable_since : ℕ
  pub initialized : Bool

-- `std::chrono::seconds` as a number of clock ticks.
abbrev pub seconds_ℤ : ℤ → ℤ
seconds_ℤ n = scale n ticks_per_second

infixl 65 ◌<>◌
abbrev ◌<>◌ : String → String → String
◌<>◌ = append_text

abbrev pub when {ℓ} : {A : Type ℓ} → Bool → A → List A
when true a = a ∷ []
when false a = []

unfoldable pub find_rule : {R : Type 0} → List (SignalRule R) → String → Option (SignalRule R)
find_rule rules id = find_if (λ r. str_eq r.signal_id id) rules

module _ {J R : Type 0} (json : JsonLib J) (real : RealLib J R) where
  open json use {object, text, number, put}
  open real use {
    zero_real, sub, abs, mul, div, max_real, lt, le, eq, of_int, seconds_of, exceeds, of_real,
  }

  unfoldable pub issue : SignalSample R → String → String → J → ℕ → CheckResult J
  issue s type message details clock = record {
    check_id = "quality." <> s.signal_id <> "." <> type;
    component = "data-quality";
    status = HealthStatus.warning;
    message = message;
    observed_at = clock;
    details = put (put details "problem_type" (text type)) "signal_id" (text s.signal_id);
  }

  unfoldable pub nearly_equal : R → R → R → R → Bool
  nearly_equal a b abs_tol rel_tol =
      le (abs (sub a b)) (max_real abs_tol (mul rel_tol (max_real (abs a) (abs b))))

  abbrev pub blank_sample : SignalSample R
  blank_sample = record {
    signal_id = "";
    value = zero_real;
    source_timestamp = epoch;
    received_timestamp = epoch;
    quality = "";
  }

  abbrev pub blank_history : History R
  blank_history = record { previous = blank_sample; stable_since = epoch; initialized = false }

  abbrev below : R → Option R → Bool
  below v none = false
  below v (some m) = lt v m

  abbrev above : R → Option R → Bool
  above v none = false
  above v (some m) = lt m v

  -- The issues that need no history.
  unfoldable pub sample_issues : SignalRule R → SignalSample R → ℕ → ℕ → List (CheckResult J)
  unfolding issue
  sample_issues r s now clock =
      when (ltb_ℤ (seconds_ℤ r.max_age_seconds) (sub_ℕ now s.source_timestamp)) (
        issue s "stale" "Source value is stale"
          (put object "age_seconds" (number ((now - s.source_timestamp) / ticks_per_second))) clock)
      ++ (when (not (any (λ q. str_eq q s.quality) r.allowed_quality)) (
            issue s "bad_quality" "Signal quality is not allowed"
              (put object "quality" (text s.quality)) clock)
          ++ (when (below s.value r.minimum || above s.value r.maximum) (
                issue s "out_of_range" "Signal value is outside configured range"
                  (put object "value" (of_real s.value)) clock)
              ++ when (any (λ v. eq v s.value) r.invalid_sentinels) (
                  issue s "invalid_sentinel" "Signal contains a configured invalid sentinel"
                    (put object "value" (of_real s.value)) clock)))

  -- `delta > duration<double>(expected_period * multiplier)`
  is_gap : SignalRule R → ℤ → Bool
  is_gap r delta = elim r.expected_period_seconds [
    | none ↦ false
    | some period ↦ exceeds delta (mul (of_int period) r.missing_period_multiplier)
  ]

  rate_of : SignalSample R → SignalSample R → ℤ → R
  rate_of s previous delta = div (abs (sub s.value previous.value)) (seconds_of delta)

  is_fast : SignalRule R → SignalSample R → SignalSample R → ℤ → Bool
  unfolding rate_of
  is_fast r s previous delta = elim r.max_rate_per_second [
    | none ↦ false
    | some rate ↦ ltb_ℤ (pos 0) delta && lt rate (rate_of s previous delta)
  ]

  -- The start of the time for which the value has been stable.
  unfoldable pub stable_from : SignalRule R → SignalSample R → History R → ℕ
  stable_from r s h =
      if lt r.frozen_epsilon (abs (sub s.value h.previous.value))
      then s.source_timestamp
      else h.stable_since

  unfoldable pub is_frozen : SignalRule R → SignalSample R → ℕ → Bool
  is_frozen r s since = elim r.frozen_after_seconds [
    | none ↦ false
    | some after ↦ leb_ℤ (seconds_ℤ after) (sub_ℕ s.source_timestamp since)
  ]

  -- The issues against the sample before.
  unfoldable pub history_issues :
      SignalRule R → SignalSample R → History R → ℕ → List (CheckResult J)
  unfolding issue is_gap is_fast rate_of stable_from is_frozen
  history_issues r s h clock =
      let delta = sub_ℕ s.source_timestamp h.previous.source_timestamp in
      when (ltb_ℤ delta (pos 0))
        (issue s "non_monotonic_timestamp" "Source timestamp moved backwards" object clock)
      ++ (when (is_gap r delta) (
            issue s "missing_samples" "Gap between samples exceeds configured period"
              (put object "gap_seconds" (of_real (seconds_of delta))) clock)
          ++ (when (is_fast r s h.previous delta) (
                issue s "excessive_rate" "Rate of change exceeds configured maximum"
                  (put object "rate_per_second" (of_real (rate_of s h.previous delta))) clock)
              ++ when (is_frozen r s (stable_from r s h)) (
                  issue s "frozen" "Signal value has remained within epsilon too long"
                    (put object "epsilon" (of_real r.frozen_epsilon)) clock)))

  -- The history after a sample.
  unfoldable pub remember : SignalRule R → SignalSample R → History R → History R
  unfolding stable_from
  remember r s h =
      let h' : History R =
        if h.initialized
        then record h { stable_since = stable_from r s h }
        else record h { stable_since = s.source_timestamp; initialized = true } in
      if not h'.initialized || leb h.previous.source_timestamp s.source_timestamp
      then record h' { previous = s }
      else h'

  abbrev pub history_of : String → Map (History R) → History R
  history_of id m = elim (lookup id m) [ none ↦ blank_history | some h ↦ h ]

  -- One round of the loop over the samples.
  unfoldable pub analyze_sample :
      List (SignalRule R)
      → SignalSample R
      → ℕ
      → ℕ
      → Map (History R)
      → Map (History R) × List (CheckResult J)
  unfolding find_rule sample_issues history_issues remember
  analyze_sample rules s now clock m = elim (find_rule rules s.signal_id) [
    | none ↦ (m, [])
    | some r ↦
        let h = history_of s.signal_id m in
        if r.enabled
        then (
          insert s.signal_id (remember r s h) m,
          sample_issues r s now clock ++ (if h.initialized then history_issues r s h clock else []),
        )
        else (m, [])
  ]

  unfoldable pub analyze_samples :
      List (SignalSample R)
      → List (SignalRule R)
      → ℕ
      → ℕ
      → Map (History R)
      → Map (History R) × List (CheckResult J)
  analyze_samples [] rules now clock m = (m, [])
  analyze_samples (s ∷ ss) rules now clock m =
      let (m', found) = analyze_sample rules s now clock m in
      let (m'', rest) = analyze_samples ss rules now clock m' in (m'', found ++ rest)

  observed_at : ℕ → CheckResult J → CheckResult J
  observed_at now c = record c { observed_at = now }

  -- `clock` is what `Clock::now()` answers meanwhile; the last loop puts `now` in its place.
  unfoldable pub analyze :
      List (SignalSample R)
      → List (SignalRule R)
      → ℕ
      → ℕ
      → Map (History R)
      → Map (History R) × List (CheckResult J)
  unfolding observed_at
  analyze ss rules now clock m =
      let (m', found) = analyze_samples ss rules now clock m in (m', map (observed_at now) found)

  unfoldable pub reset : Map (History R) → Map (History R)
  reset m = []

  restore_samples : List (SignalSample R) → Map (History R) → Map (History R)
  restore_samples [] m = m
  restore_samples (s ∷ ss) m = restore_samples ss (
      insert s.signal_id
        (record { previous = s; stable_since = s.source_timestamp; initialized = true }) m)

  unfoldable pub restore_history : List (SignalSample R) → Map (History R) → Map (History R)
  unfolding restore_samples
  restore_history ss m = restore_samples ss []
