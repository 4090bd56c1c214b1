-- ===== src/Config.antt =====
-- include/scadaguard/config.hpp and `validate_config` of src/configuration/config.cpp.
pub mod Validate
pub mod Ids
pub mod Accepted
pub mod Hash
pub mod Parse
use scada_guard.Prelude.{
  ℕ, suc, ◌+◌, String, Bool, true, false, not, ◌&&◌, ◌||◌, Option, none, some, List, [], ◌∷◌, ◌++◌,
  any, length, map, str_eq, starts_with, ltb, leb, ◌==◌, if◌then◌else◌, ℤ, pos, negsuc, ltb_ℤ,
  leb_ℤ,
}
use scada_guard.Model.{JsonLib, UtcLib}
use scada_guard.Quality.{SignalRule, when}
use scada_guard.Quality.Real.{RealLib}
use scada_guard.Checks.{TextLib, ProcessCheckConfig, ServiceCheckConfig, ◌<>◌}
use scada_guard.Checks.Probes.{TcpCheckConfig, DiskCheckConfig}
use scada_guard.Checks.Files.{FileActivityCheckConfig}
use scada_guard.Checks.Logs.{LogCheckConfig, LogPatternGroup}
use scada_guard.Reporter.{CentralServerConfig}
use scada_guard.State.{AgentConfig, ConfigurationStatus}

pub record LoggingConfig : Type 0 where
  pub directory : String
  pub level : String
  pub format : String
  pub max_file_size_mb : ℕ
  pub max_files : ℕ

pub record LocalApiConfig : Type 0 where
  pub enabled : Bool
  pub bind_address : String
  pub port : ℕ

pub record DiscoveryConfig : Type 0 where
  pub enabled : Bool
  pub scheduled_interval_hours : ℤ
  pub keywords : List String
  pub additional_roots : List String
  pub relative_log_directories : List String
  pub maximum_directories : ℕ
  pub maximum_files : ℕ
  pub maximum_depth : ℕ
  pub maximum_duration_seconds : ℤ
  pub maximum_inspected_bytes : ℕ
  pub confirmed_archive : Option String
  pub confirmed_logs : List String

pub record DataSourceConfig (J : Type 0) : Type 0 where
  pub type : String
  pub options : J

pub record AppConfig (J R : Type 0) : Type 0 where
  pub agent : AgentConfig
  pub logging : LoggingConfig
  pub local_api : LocalApiConfig
  pub central_server : CentralServerConfig
  pub discovery : DiscoveryConfig
  pub state_database : String
  pub process_checks : List ProcessCheckConfig
  pub service_checks : List ServiceCheckConfig
  pub tcp_checks : List TcpCheckConfig
  pub disk_checks : List (DiskCheckConfig R)
  pub file_activity_checks : List FileActivityCheckConfig
  pub log_checks : List LogCheckConfig
  pub current_data_source : DataSourceConfig J
  pub archive_data_source : DataSourceConfig J
  pub signals : List (SignalRule R)
  pub status : ConfigurationStatus

abbrev pub is_empty : String → Bool
is_empty s = str_eq s ""

-- `positive` for `int` and for `size_t`.
positive_ℤ : ℤ → String → List String
positive_ℤ value path = when (leb_ℤ value (pos 0)) (path <> " must be greater than zero")

positive : ℕ → String → List String
positive value path = when (value == 0) (path <> " must be greater than zero")

agent_errors : AgentConfig → List String
unfolding positive_ℤ positive
agent_errors a =
    when (is_empty a.agent_id) "agent.agent_id must not be empty"
    ++ (when (is_empty a.site_id) "agent.site_id must not be empty"
        ++ (when (is_empty a.host_id) "agent.host_id must not be empty"
            ++ (positive_ℤ a.poll_interval_seconds "agent.poll_interval_seconds"
                ++ (positive_ℤ a.check_timeout_seconds "agent.check_timeout_seconds"
                    ++ positive a.scheduler_worker_count "agent.scheduler_worker_count"))))

levels : List String
levels = "trace" ∷ "debug" ∷ "info" ∷ "warn" ∷ "error" ∷ "critical" ∷ "off" ∷ []

logging_errors : LoggingConfig → List String
unfolding positive levels
logging_errors l =
    when (is_empty l.directory) "logging.directory must not be empty"
    ++ (when (not (any (λ v. str_eq v l.level) levels)) "logging.level is invalid"
        ++ (when (not (str_eq l.format "text") && not (str_eq l.format "json"))
              "logging.format must be text or json"
            ++ (positive l.max_file_size_mb "logging.max_file_size_mb"
                ++ positive l.max_files "logging.max_files")))

local_api_errors : LocalApiConfig → List String
unfolding positive
local_api_errors a =
    when (not (str_eq a.bind_address "127.0.0.1")) "local_api.bind_address must be 127.0.0.1"
    ++ positive a.port "local_api.port"

unfoldable pub central_errors : CentralServerConfig → List String
unfolding positive_ℤ positive
central_errors c =
    when (c.enabled && is_empty c.base_url) "central_server.base_url is required when enabled"
    ++ (when (c.enabled && (c.production && not (starts_with c.base_url "https://")))
          "central_server.base_url must use HTTPS in production"
        ++ (positive_ℤ c.heartbeat_interval_seconds "central_server.heartbeat_interval_seconds"
            ++ (positive_ℤ c.request_timeout_seconds "central_server.request_timeout_seconds"
                ++ positive c.max_queue_size "central_server.max_queue_size")))

discovery_errors : DiscoveryConfig → List String
unfolding positive_ℤ positive
discovery_errors d =
    positive_ℤ d.scheduled_interval_hours "discovery.scheduled_interval_hours"
    ++ (positive d.maximum_directories "discovery.maximum_directories"
        ++ (positive d.maximum_files "discovery.maximum_files"
            ++ (positive_ℤ d.maximum_duration_seconds "discovery.maximum_duration_seconds"
                ++ (positive d.maximum_inspected_bytes "discovery.maximum_inspected_bytes"
                    ++ (when (ltb 32 d.maximum_depth) "discovery.maximum_depth must not exceed 32"
                        ++ when (length d.keywords == 0) "discovery.keywords must not be empty")))))

-- The lambda `id`, with the set of the ids so far.
unfoldable pub check_id : String → String → List String → List String × List String
check_id v p ids =
    if is_empty v
    then ((p <> ".id must not be empty") ∷ [], ids)
    else if any (str_eq v) ids
    then ((p <> ".id must be unique") ∷ [], ids)
    else ([], v ∷ ids)

module _ {J R : Type 0} (json : JsonLib J) (real : RealLib J R) (text_lib : TextLib) where
  open json use {value_text}
  open real use {zero_real, lt, le, of_int}
  open text_lib use {decimal}

  abbrev entry : String → ℕ → String
  entry name i = name <> "[" <> decimal i <> "]"

  -- The loop over the checks of one kind, from the `i`th on: the id, then the other fields.
  unfoldable pub each_check :
      {A : Type 0}
      → String
      → (A → String)
      → (String → A → List String)
      → ℕ
      → List A
      → List String
      → List String × List String
  unfolding check_id
  each_check name id_of errors_of i [] ids = ([], ids)
  each_check name id_of errors_of i (a ∷ rest) ids =
      let (first, ids') = check_id (id_of a) (entry name i) ids in
      let (others, ids'') = each_check name id_of errors_of (i + 1) rest ids' in
      (first ++ (errors_of (entry name i) a ++ others), ids'')

  process_errors : String → ProcessCheckConfig → List String
  process_errors p c = when (is_empty c.process_name) (p <> ".process_name must not be empty")

  service_errors : String → ServiceCheckConfig → List String
  service_errors p c = when (is_empty c.service_name) (p <> ".service_name must not be empty")

  tcp_errors : String → TcpCheckConfig → List String
  unfolding positive positive_ℤ
  tcp_errors p c =
      when (is_empty c.host) (p <> ".host must not be empty")
      ++ (positive c.port (p <> ".port") ++ positive_ℤ c.timeout_ms (p <> ".timeout_ms"))

  disk_errors : String → DiskCheckConfig R → List String
  disk_errors p d =
      when (is_empty d.path) (p <> ".path must not be empty")
      ++ (when
            (lt d.critical_free_percent zero_real
              || (lt (of_int (pos 100)) d.warning_free_percent
                  || le d.warning_free_percent d.critical_free_percent))
            (p
              <> " thresholds must satisfy 0 <= critical_free_percent < warning_free_percent <= 100")
          ++ when (lt d.critical_free_gb zero_real) (p <> ".critical_free_gb must be non-negative"))

  file_errors : String → FileActivityCheckConfig → List String
  unfolding positive_ℤ
  file_errors p c =
      when (is_empty c.path) (p <> ".path must not be empty")
      ++ (positive_ℤ c.warning_unchanged_seconds (p <> ".warning_unchanged_seconds")
          ++ (positive_ℤ c.critical_unchanged_seconds (p <> ".critical_unchanged_seconds")
              ++ when (ltb_ℤ c.critical_unchanged_seconds c.warning_unchanged_seconds)
                  (p <> " unchanged thresholds must be ordered")))

  group_errors : String → ℕ → List LogPatternGroup → List String
  group_errors p g [] = []
  group_errors p g (x ∷ rest) =
      when (length x.patterns == 0) (p <> ".groups[" <> decimal g <> "].patterns must not be empty")
      ++ group_errors p (g + 1) rest

  log_errors : String → LogCheckConfig → List String
  unfolding positive group_errors
  log_errors p c =
      when (is_empty c.path) (p <> ".path must not be empty")
      ++ (positive c.max_read_bytes (p <> ".max_read_bytes")
          ++ (when (length c.groups == 0) (p <> ".groups must not be empty")
              ++ group_errors p 0 c.groups))
