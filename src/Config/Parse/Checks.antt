-- ===== src/Config/Parse/Checks.antt =====
-- The callbacks of `parse_array` in `parse_config`, and the data sources.
use scada_guard.Prelude.{String, true, false, Option, none, some, List, [], ◌∷◌, if◌then◌else◌, pos}
use scada_guard.Model.{JsonLib, health_status_from_string}
use scada_guard.Quality.{SignalRule}
use scada_guard.Checks.{TextLib, ProcessCheckConfig, ServiceCheckConfig, ◌<>◌}
use scada_guard.Checks.Probes.{TcpCheckConfig, DiskCheckConfig}
use scada_guard.Checks.Files.{FileActivityCheckConfig}
use scada_guard.Checks.Logs.{LogCheckConfig, LogPatternGroup}
use scada_guard.Config.{DataSourceConfig}
use scada_guard.Config.Parse.{ReadLib, required, optional, present, parse_items}
use scada_guard.Central.{Result, thrown, returned, ◌>>=◌, from_json}

module _ {J R : Type 0} (json : JsonLib J) (lib : ReadLib J R) (text_lib : TextLib) where
  open json use {object, at?}
  open lib use {
    is_array, elements, get_string, get_strings, get_int, get_size, get_port, get_flag, get_double,
    get_doubles, literal,
  }

  -- The two readers with the interfaces filled in.
  abbrev need : {A : Type 0} → (J → Result A) → J → String → String → Result A
  need get j key p = required json lib text_lib get j key p

  abbrev may : {A : Type 0} → (J → Result A) → J → String → A → String → Result A
  may get j key fallback p = optional json lib text_lib get j key fallback p

  abbrev if_present : {A : Type 0} → (J → Result A) → J → String → String → Result (Option A)
  if_present get j key p = present json lib text_lib get j key p

  unfoldable pub parse_process : J → String → Result ProcessCheckConfig
  parse_process j p = do
    id ← need get_string j "id" p
    name ← need get_string j "process_name" p
    is_required ← may get_flag j "required" true p
    returned (record { id = id; process_name = name; required = is_required })

  unfoldable pub parse_service : J → String → Result ServiceCheckConfig
  parse_service j p = do
    id ← need get_string j "id" p
    name ← need get_string j "service_name" p
    is_required ← may get_flag j "required" true p
    returned (record { id = id; service_name = name; required = is_required })

  unfoldable pub parse_tcp : J → String → Result TcpCheckConfig
  parse_tcp j p = do
    id ← need get_string j "id" p
    host ← need get_string j "host" p
    port ← need get_port j "port" p
    timeout ← may get_int j "timeout_ms" (pos 3000) p
    returned (record { id = id; host = host; port = port; timeout_ms = timeout })

  unfoldable pub parse_disk : J → String → Result (DiskCheckConfig R)
  parse_disk j p = do
    id ← need get_string j "id" p
    path ← need get_string j "path" p
    warning ← may get_double j "warning_free_percent" (literal 150 1) p
    critical ← may get_double j "critical_free_percent" (literal 70 1) p
    gigabytes ← may get_double j "critical_free_gb" (literal 50 1) p
    returned (record {
      id = id;
      path = path;
      warning_free_percent = warning;
      critical_free_percent = critical;
      critical_free_gb = gigabytes;
    })

  unfoldable pub parse_file : J → String → Result FileActivityCheckConfig
  parse_file j p = do
    id ← need get_string j "id" p
    path ← need get_string j "path" p
    warning ← may get_int j "warning_unchanged_seconds" (pos 300) p
    critical ← may get_int j "critical_unchanged_seconds" (pos 900) p
    fail ← may get_flag j "fail_on_shrink" true p
    returned (record {
      id = id;
      path = path;
      warning_unchanged_seconds = warning;
      critical_unchanged_seconds = critical;
      fail_on_shrink = fail;
    })

  unfoldable pub parse_group : J → String → Result LogPatternGroup
  parse_group g gp = do
    text ← need get_string g "severity" gp
    severity ← from_json (gp <> ".severity is invalid") (health_status_from_string text)
    name ← need get_string g "name" gp
    patterns ← need get_strings g "patterns" gp
    returned (record { name = name; severity = severity; patterns = patterns })

  unfoldable pub parse_groups : J → String → Result (List LogPatternGroup)
  unfolding parse_group
  parse_groups j p = elim (at? j "groups") [
    | none ↦ thrown (p <> ".groups must be an array")
    | some groups ↦
        if is_array groups
        then parse_items json lib text_lib parse_group (p <> ".groups") 0 (elements groups)
        else thrown (p <> ".groups must be an array")
  ]

  unfoldable pub parse_log : J → String → Result LogCheckConfig
  unfolding parse_groups
  parse_log j p = do
    id ← need get_string j "id" p
    path ← need get_string j "path" p
    sensitive ← may get_flag j "case_sensitive" false p
    bytes ← may get_size j "max_read_bytes" 1048576 p
    groups ← parse_groups j p
    returned (record {
      id = id;
      path = path;
      case_sensitive = sensitive;
      max_read_bytes = bytes;
      groups = groups;
    })

  -- One round of the loop over `current` and `archive`, for what `find("data_sources")` gives.
  unfoldable pub parse_source : Option J → String → Result (DataSourceConfig J)
  parse_source none name = returned (record { type = "mock"; options = object })
  parse_source (some sources) name = elim (at? sources name) [
    | none ↦ returned (record { type = "mock"; options = object })
    | some source ↦ (do
      type ← need get_string source "type" ("data_sources." <> name)
      returned (record { type = type; options = source }))
  ]

  unfoldable pub parse_signal : J → String → Result (SignalRule R)
  parse_signal j p = do
    signal_id ← need get_string j "signal_id" p
    enabled ← may get_flag j "enabled" true p
    minimum ← if_present get_double j "minimum" p
    maximum ← if_present get_double j "maximum" p
    quality ← may get_strings j "allowed_quality" ("Good" ∷ []) p
    sentinels ← may get_doubles j "invalid_sentinels" [] p
    age ← may get_int j "max_age_seconds" (pos 60) p
    frozen_after ← if_present get_int j "frozen_after_seconds" p
    epsilon ← may get_double j "frozen_epsilon" (literal 1 2) p
    rate ← if_present get_double j "max_rate_per_second" p
    period ← if_present get_int j "expected_period_seconds" p
    multiplier ← may get_double j "missing_period_multiplier" (literal 30 1) p
    delay ← may get_int j "archive_delay_seconds" (pos 30) p
    window ← may get_int j "archive_match_window_seconds" (pos 10) p
    absolute ← may get_double j "archive_absolute_tolerance" (literal 1 1) p
    relative ← may get_double j "archive_relative_tolerance" (literal 1 3) p
    returned (record {
      signal_id = signal_id;
      enabled = enabled;
      minimum = minimum;
      maximum = maximum;
      allowed_quality = quality;
      invalid_sentinels = sentinels;
      max_age_seconds = age;
      frozen_after_seconds = frozen_after;
      frozen_epsilon = epsilon;
      max_rate_per_second = rate;
      expected_period_seconds = period;
      missing_period_multiplier = multiplier;
      archive_delay_seconds = delay;
      archive_match_window_seconds = window;
      archive_absolute_tolerance = absolute;
      archive_relative_tolerance = relative;
    })
