-- ===== src/Config/Validate.antt =====
-- The data sources, the signals, and the whole of `validate_config`.
use scada_guard.Prelude.{
  ℕ, ◌+◌, String, Bool, false, not, ◌&&◌, ◌||◌, Option, none, some, List, [], ◌∷◌, ◌++◌, length,
  str_eq, ◌==◌, if◌then◌else◌, pos, ltb_ℤ,
}
use scada_guard.Model.{JsonLib}
use scada_guard.Quality.{SignalRule, when}
use scada_guard.Quality.Real.{RealLib}
use scada_guard.Checks.{TextLib, ◌<>◌}
use scada_guard.Config.{
  AppConfig, DataSourceConfig, is_empty, positive_ℤ, entry, each_check, agent_errors,
  logging_errors, local_api_errors, central_errors, discovery_errors, process_errors,
  service_errors, tcp_errors, disk_errors, file_errors, log_errors,
}

module _ {J R : Type 0} (json : JsonLib J) (real : RealLib J R) (text_lib : TextLib) where
  open json use {value_text}
  open real use {zero_real, lt, le}

  -- Whether a CSV source lacks its path; `none` is an exception of the JSON library.
  lacks_path : DataSourceConfig J → Option Bool
  lacks_path d =
      if str_eq d.type "csv"
      then elim (value_text d.options "path" "") [ none ↦ none | some p ↦ some (is_empty p) ]
      else some false

  unfoldable pub type_errors : AppConfig J R → List String
  type_errors c =
      let current = c.current_data_source.type in
      let archive = c.archive_data_source.type in
      when
        (not (str_eq current "mock")
          && (not (str_eq current "csv") && not (str_eq current "opcua")))
        "data_sources.current.type must be mock, csv, or opcua"
      ++ when
          (not (str_eq archive "mock")
            && (not (str_eq archive "csv") && not (str_eq archive "sqlite")))
          "data_sources.archive.type must be mock, csv, or sqlite"

  unfoldable pub source_errors : AppConfig J R → Option (List String)
  unfolding lacks_path type_errors
  source_errors c = elim (lacks_path c.current_data_source) [
    | none ↦ none
    | some current ↦ elim (lacks_path c.archive_data_source) [
      | none ↦ none
      | some archive ↦ some (
          type_errors c
          ++ (when current "data_sources.current.path is required for csv"
              ++ when archive "data_sources.archive.path is required for csv"))
    ]
  ]

  positive_real : R → String → List String
  positive_real value path = when (le value zero_real) (path <> " must be greater than zero")

  abbrev is_reversed : Option R → Option R → Bool
  is_reversed (some low) (some high) = le high low
  is_reversed low high = false

  abbrev optional : {A : Type 0} → (A → String → List String) → Option A → String → List String
  optional f none path = []
  optional f (some v) path = f v path

  signal_errors : ℕ → SignalRule R → List String
  unfolding positive_ℤ positive_real
  signal_errors i r =
      let p = entry json real text_lib "signals" i in
      when (is_empty r.signal_id) (p <> ".signal_id must not be empty")
      ++ (when (is_reversed r.minimum r.maximum)
            (p <> ".maximum must be greater than " <> p <> ".minimum")
          ++ (positive_ℤ r.max_age_seconds (p <> ".max_age_seconds")
              ++ (optional positive_ℤ r.frozen_after_seconds (p <> ".frozen_after_seconds")
                  ++ (when (lt r.frozen_epsilon zero_real)
                        (p <> ".frozen_epsilon must be non-negative")
                      ++ (optional positive_real r.max_rate_per_second (p <> ".max_rate_per_second")
                          ++ (optional positive_ℤ r.expected_period_seconds
                                (p <> ".expected_period_seconds")
                              ++ (positive_real r.missing_period_multiplier
                                    (p <> ".missing_period_multiplier")
                                  ++ (when (ltb_ℤ r.archive_delay_seconds (pos 0))
                                        (p <> ".archive_delay_seconds must be non-negative")
                                      ++ (positive_ℤ r.archive_match_window_seconds
                                            (p <> ".archive_match_window_seconds")
                                          ++ (when
                                                (lt r.archive_absolute_tolerance zero_real
                                                  || lt r.archive_relative_tolerance zero_real)
                                                (p <> " archive tolerances must be non-negative")
                                              ++ when (length r.allowed_quality == 0) (
                                                  p
                                                  <> ".allowed_quality must not be empty")))))))))))

  unfoldable pub signals_errors : ℕ → List (SignalRule R) → List String
  unfolding signal_errors
  signals_errors i [] = []
  signals_errors i (r ∷ rest) = signal_errors i r ++ signals_errors (i + 1) rest

  unfoldable pub general_errors : AppConfig J R → List String
  unfolding agent_errors logging_errors local_api_errors discovery_errors
  general_errors c =
      agent_errors c.agent
      ++ (logging_errors c.logging
          ++ (local_api_errors c.local_api
              ++ (central_errors c.central_server ++ discovery_errors c.discovery)))

  -- The errors of the checks; the ids of all kinds share one set.
  unfoldable pub check_errors : AppConfig J R → List String
  unfolding process_errors service_errors tcp_errors disk_errors file_errors log_errors
  check_errors c =
      let (e1, ids1) =
        each_check json real text_lib "process_checks" (λ x. x.id)
          (process_errors json real text_lib) 0 c.process_checks [] in
      let (e2, ids2) =
        each_check json real text_lib "service_checks" (λ x. x.id)
          (service_errors json real text_lib) 0 c.service_checks ids1 in
      let (e3, ids3) =
        each_check json real text_lib "tcp_checks" (λ x. x.id) (tcp_errors json real text_lib) 0
          c.tcp_checks ids2 in
      let (e4, ids4) =
        each_check json real text_lib "disk_checks" (λ x. x.id) (disk_errors json real text_lib) 0
          c.disk_checks ids3 in
      let (e5, ids5) =
        each_check json real text_lib "file_activity_checks" (λ x. x.id)
          (file_errors json real text_lib) 0 c.file_activity_checks ids4 in
      let (e6, ids6) =
        each_check json real text_lib "log_checks" (λ x. x.id) (log_errors json real text_lib) 0
          c.log_checks ids5 in
      e1 ++ (e2 ++ (e3 ++ (e4 ++ (e5 ++ e6))))

  unfoldable pub validate_config : AppConfig J R → Option (List String)
  unfolding source_errors
  validate_config c = elim (source_errors c) [
    | none ↦ none
    | some sources ↦
        some (general_errors c ++ (check_errors c ++ (sources ++ signals_errors 0 c.signals)))
  ]
