-- ===== src/Central/Apply.antt =====
-- src/application/application.cpp: the running configuration with the desired one applied, and the
-- archive source of a configuration.
use scada_guard.Prelude.{
  String, true, false, not, ◌||◌, Option, none, some, List, [], ◌∷◌, any, find_if, map, length,
  str_eq, ◌==◌, if◌then◌else◌,
}
use scada_guard.Model.{JsonLib}
use scada_guard.Checks.{TextLib, ◌<>◌}
use scada_guard.Quality.{SignalRule}
use scada_guard.Quality.Real.{RealLib}
use scada_guard.Config.{AppConfig, DataSourceConfig}
use scada_guard.Config.Validate.{validate_config}
use scada_guard.DataSources.{SqliteArchiveOptions}
use scada_guard.Discovery.{PathLib}
use scada_guard.Discovery.Names.{has}
use scada_guard.Central.{
  Result, thrown, returned, ◌>>=◌, DocLib, DesiredAgentConfiguration, lib, present,
}

pub data ArchiveSource : Type 0 where
  mock : ArchiveSource
  csv : String → ArchiveSource
  sqlite : SqliteArchiveOptions → ArchiveSource

-- `errors.front()` of a list that is not empty.
abbrev pub no_errors : (String → String) → List String → Result (Unit {0})
no_errors reason [] = returned tt
no_errors reason (error ∷ errors) = thrown (reason error)

abbrev pub enable : {R : Type 0} → List String → SignalRule R → SignalRule R
enable monitored signal = record signal { enabled = has signal.signal_id monitored }

-- The rules that a configuration monitors; an empty list changes none.
unfoldable pub monitor : {R : Type 0} → List String → List (SignalRule R) → List (SignalRule R)
monitor monitored signals =
    let chosen = map (enable monitored) signals in if length monitored == 0 then signals else chosen

-- Every monitored signal has a rule.
unfoldable pub check_known : {R : Type 0} → List String → List (SignalRule R) → Result (Unit {0})
check_known monitored signals =
    elim (find_if (λ id. not (any (λ s. str_eq s.signal_id id) signals)) monitored) [
      | none ↦ returned tt
      | some id ↦ thrown ("central configuration references unknown signal: " <> id)
    ]

module _ {J R : Type 0} (paths : PathLib) (json : JsonLib J) (docs : DocLib J R) where
  open json use {at?, put, text, bool, is_null, null, value_text, value_number, get_text}
  open docs use {is_blank, items, get_real, value_bool, value_doc, library_error}

  abbrev library : {A : Type 0} → Option A → Result A
  library answer = lib paths json docs answer

  path_option : J → Result String
  path_option options = elim (at? options "path") [
    | none ↦ thrown library_error
    | some v ↦ library (get_text v)
  ]

  unfoldable pub make_archive_source : DataSourceConfig J → Result ArchiveSource
  unfolding path_option
  make_archive_source config =
      let from_csv = (do path ← path_option config.options; returned (csv path)) in
      let from_sqlite = (do
        enabled ← library (value_bool config.options "enabled" false)
        database_path ← library (value_text config.options "database_path" "")
        table ← library (value_text config.options "table" "")
        signal_id_column ← library (value_text config.options "signal_id_column" "")
        timestamp_column ← library (value_text config.options "timestamp_column" "")
        value_column ← library (value_text config.options "value_column" "")
        quality_column ← library (value_text config.options "quality_column" "")
        maximum_batch_size ← library (value_number config.options "maximum_batch_size" 5000)
        returned (
            sqlite (record {
              enabled = enabled;
              database_path = database_path;
              table = table;
              signal_id_column = signal_id_column;
              timestamp_column = timestamp_column;
              value_column = value_column;
              quality_column = quality_column;
              maximum_batch_size = maximum_batch_size;
            }))) in
      if str_eq config.type "mock"
      then returned mock
      else if str_eq config.type "csv"
      then from_csv
      else if str_eq config.type "sqlite"
      then from_sqlite
      else thrown ("data_sources.archive.type is unsupported: " <> config.type)

  -- `*desired.confirmed_archive`, which a mapping that passed its check has.
  abbrev pub archive_text : Option String → String
  archive_text none = ""
  archive_text (some path) = path

  abbrev pub mapped_to : J → J → AppConfig J R → AppConfig J R
  mapped_to options quality config = record config {
    archive_data_source = record {
      type = "sqlite";
      options = if is_null quality then put options "quality_column" (text "") else options;
    };
  }

  unfoldable pub apply_archive_mapping :
      DesiredAgentConfiguration J → AppConfig J R → Result (AppConfig J R)
  apply_archive_mapping desired config =
      let options =
        put (put desired.archive_mapping "enabled" (bool true)) "database_path"
          (text (archive_text desired.confirmed_archive)) in
      let mapped = (do
        quality ← library (value_doc options "quality_column" null)
        returned (mapped_to options quality config)) in
      if is_null desired.archive_mapping || is_blank desired.archive_mapping
      then returned config
      else mapped

  -- A bound that a threshold gives, or the old one.
  bound : J → String → Option R → Result (Option R)
  bound thresholds field old = elim (present paths json docs thresholds field) [
    | none ↦ returned old
    | some v ↦ do x ← library (get_real v); returned (some x)
  ]

  unfoldable pub with_thresholds : J → SignalRule R → Result (SignalRule R)
  unfolding bound
  with_thresholds thresholds signal = do
    minimum ← bound thresholds "minimum" signal.minimum
    maximum ← bound thresholds "maximum" signal.maximum
    rate ← bound thresholds "max_rate_per_second" signal.max_rate_per_second
    returned (record signal { minimum = minimum; maximum = maximum; max_rate_per_second = rate })

  -- The thresholds of one signal, on the first rule with its id.
  unfoldable pub set_thresholds :
      (String → String) → String → J → List (SignalRule R) → Result (List (SignalRule R))
  unfolding with_thresholds
  set_thresholds unknown id thresholds [] = thrown (unknown id)
  set_thresholds unknown id thresholds (signal ∷ signals) =
      let rest = set_thresholds unknown id thresholds signals in
      if str_eq signal.signal_id id
      then (do changed ← with_thresholds thresholds signal; returned (changed ∷ signals))
      else (do others ← rest; returned (signal ∷ others))

  unfoldable pub apply_thresholds :
      (String → String) → List (String × J) → List (SignalRule R) → Result (List (SignalRule R))
  unfolding set_thresholds
  apply_thresholds unknown [] signals = returned signals
  apply_thresholds unknown ((id, thresholds) ∷ rest) signals = do
    changed ← set_thresholds unknown id thresholds signals
    apply_thresholds unknown rest changed

  abbrev pub with_server : Option String → AppConfig J R → AppConfig J R
  with_server none config = config
  with_server (some url) config = record config {
    central_server = record config.central_server { base_url = url };
  }

  abbrev pub with_interval : DesiredAgentConfiguration J → AppConfig J R → AppConfig J R
  with_interval desired config = record config {
    agent = record config.agent { poll_interval_seconds = desired.monitoring_interval_seconds };
  }

  module _ (real : RealLib J R) (text_lib : TextLib) where
    -- The test of a candidate.
    unfoldable pub validated : (String → String) → AppConfig J R → Result (AppConfig J R)
    validated invalid candidate = do
      errors ← library (validate_config json real text_lib candidate)
      a ← no_errors invalid errors
      returned candidate

    -- The signals of a candidate.
    unfoldable pub with_signals :
        (List String → List (SignalRule R) → Result (Unit {0}))
        → (String → String)
        → DesiredAgentConfiguration J
        → List (SignalRule R)
        → Result (List (SignalRule R))
    with_signals known unknown desired signals = do
      a ← known desired.monitored_signals signals
      apply_thresholds unknown (items desired.thresholds)
          (monitor desired.monitored_signals signals)

    -- The candidate for a desired configuration. The two places that build one differ in the test of
    -- the monitored signals and in the texts of their exceptions.
    unfoldable pub candidate_of :
        (List String → List (SignalRule R) → Result (Unit {0}))
        → (String → String)
        → (String → String)
        → DesiredAgentConfiguration J
        → AppConfig J R
        → Result (AppConfig J R)
    candidate_of known unknown invalid desired config = do
      mapped ← apply_archive_mapping desired (with_interval desired config)
      signals ← with_signals known unknown desired mapped.signals
      validated invalid (record (with_server desired.server_url mapped) { signals = signals })
