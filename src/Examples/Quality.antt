-- ===== src/Examples/Quality.antt =====
-- Runs of the data quality analysis.
use scada_guard.Prelude.{ℕ, ◌≡◌, refl, true, none, some, List, [], ◌∷◌, arith, all, map, pos}
use scada_guard.Model.{SignalSample, seconds}
use scada_guard.Quality.{SignalRule, History, is_frozen}
use scada_guard.Quality.Memory.{IsCalm, nil, cons, frozen_flags, frozen_flags-calm}
use scada_guard.Quality.Archive.{is_missing, nearest, max_duration, outside, is_missing-outside}
use scada_guard.Examples.Libs.{docs, whole}

abbrev sample : ℕ → ℕ → SignalSample ℕ
sample value at = record {
  signal_id = "pressure";
  value = value;
  source_timestamp = seconds at;
  received_timestamp = seconds at;
  quality = "good";
}

abbrev rule : SignalRule ℕ
rule = record {
  signal_id = "pressure";
  enabled = true;
  minimum = some 0;
  maximum = some 100;
  allowed_quality = "good" ∷ [];
  invalid_sentinels = [];
  max_age_seconds = pos 60;
  frozen_after_seconds = some (pos 5);
  frozen_epsilon = 1;
  max_rate_per_second = none;
  expected_period_seconds = some (pos 1);
  missing_period_multiplier = 2;
  archive_delay_seconds = pos 30;
  archive_match_window_seconds = pos 2;
  archive_absolute_tolerance = 0;
  archive_relative_tolerance = 0;
}

-- The second sample is late.
abbrev samples : List (SignalSample ℕ)
samples = sample 10 100 ∷ sample 11 99 ∷ sample 12 102 ∷ []

abbrev history : History ℕ
history = record { previous = sample 10 100; stable_since = seconds 100; initialized = true }

-- The value rises by one each time.
abbrev drift : List (SignalSample ℕ)
drift = sample 11 102 ∷ sample 12 104 ∷ sample 13 106 ∷ []

drift-IsCalm : IsCalm docs whole rule (sample 10 100) drift
drift-IsCalm = cons refl (omega arith) (cons refl (omega arith) (cons refl (omega arith) nil))

frozen_flags-calm_example :
    frozen_flags docs whole rule drift history
    ≡ map (λ s. is_frozen docs whole rule s (seconds 100)) drift
frozen_flags-calm_example =
    frozen_flags-calm docs whole rule (sample 10 100) drift history refl refl drift-IsCalm

is_missing-outside_example :
    is_missing rule (nearest (sample 10 100) samples none max_duration)
    ≡ all (outside rule (sample 10 100)) samples
is_missing-outside_example = is_missing-outside rule (sample 10 100) samples refl
