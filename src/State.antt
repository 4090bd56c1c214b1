-- ===== src/State.antt =====
-- `AgentState` of include/scadaguard/http_server.hpp and src/http/http_server.cpp: what the local API
-- tells of the agent. Names of the host and of the build are values of the state.
pub mod Labels
pub mod Health
pub mod Metrics
use scada_guard.Prelude.{
  ℕ, ◌+◌, String, Bool, true, false, not, ◌&&◌, Option, none, some, List, [], ◌∷◌, ◌++◌, length,
  keep, map, ltb, ◌==◌, if◌then◌else◌, ℤ, sub_ℕ,
}
use scada_guard.Model.{
  HealthStatus, CheckResult, Incident, SignalSample, JsonLib, UtcLib, to_string,
}
use scada_guard.Model.Json.{result_to_json, incident_to_json}
use scada_guard.Checks.Files.{whole_seconds}

pub record AgentConfig : Type 0 where
  pub agent_id : String
  pub site_id : String
  pub host_id : String
  pub poll_interval_seconds : ℤ
  pub check_timeout_seconds : ℤ
  pub scheduler_worker_count : ℕ
  pub runtime_mode : String

pub record ConfigurationStatus : Type 0 where
  pub loaded : Bool
  pub path : String
  pub hash : String
  pub warnings : List String
  pub enabled_data_sources : List String
  pub unconfigured_subsystems : List String
  pub loaded_at : ℕ

-- The constants of the build.
pub record BuildInfo : Type 0 where
  pub agent_version : String
  pub protocol_version : ℕ
  pub build_type : String
  pub build_architecture : String

pub record AgentState (J R : Type 0) : Type 0 where
  pub agent : AgentConfig
  pub configuration : ConfigurationStatus
  pub boot_id : String
  pub hostname : String
  pub windows_version : String
  pub started : ℕ
  pub checks : List (CheckResult J)
  pub incidents : List (Incident J)
  pub signals : List (SignalSample R)
  pub queue_size : ℕ
  pub oldest_queued_at : Option ℕ
  pub discovery : J

unfoldable pub status_rank : HealthStatus → ℕ
status_rank HealthStatus.ok = 0
status_rank HealthStatus.warning = 1
status_rank HealthStatus.critical = 2
status_rank HealthStatus.unknown = 3

-- The loop over the checks.
unfoldable pub worst_status : {J : Type 0} → HealthStatus → List (CheckResult J) → HealthStatus
unfolding status_rank
worst_status status [] = status
worst_status status (check ∷ checks) =
    worst_status
      (if ltb (status_rank status) (status_rank check.status) then check.status else status) checks

abbrev pub is_ok : HealthStatus → Bool
is_ok HealthStatus.ok = true
is_ok _ = false

module _ {J R : Type 0} where
  unfoldable pub update :
      List (CheckResult J)
      → List (Incident J)
      → List (SignalSample R)
      → ℕ
      → Option ℕ
      → AgentState J R
      → AgentState J R
  update checks incidents signals queue_size oldest s = record s {
    checks = checks;
    incidents = incidents;
    signals = signals;
    queue_size = queue_size;
    oldest_queued_at = oldest;
  }

  unfoldable pub update_discovery : J → AgentState J R → AgentState J R
  update_discovery report s = record s { discovery = report }

  unfoldable pub health_status : AgentState J R → HealthStatus
  unfolding worst_status
  health_status s =
      let first = if length s.checks == 0 then HealthStatus.unknown else HealthStatus.ok in
      let status = worst_status first s.checks in
      if not (length s.configuration.unconfigured_subsystems == 0) && is_ok status
      then HealthStatus.unknown
      else status

  unfoldable pub active_count : AgentState J R → ℕ
  active_count s = length (keep (λ i. i.active) s.incidents)

module _ {J R : Type 0} (json : JsonLib J) (utc : UtcLib) (number_ℤ : ℤ → J) where
  open json use {object, null, text, number, bool, array, put}
  open utc use {format_utc}

  unfoldable pub health : BuildInfo → ℕ → AgentState J R → J
  unfolding health_status active_count whole_seconds
  health build now s =
      put
        (put
          (put
            (put
              (put
                (put
                  (put
                    (put
                      (put
                        (put
                          (put
                            (put
                              (put
                                (put
                                  (put
                                    (put
                                      (put (put object "agent_id" (text s.agent.agent_id)) "site_id"
                                        (text s.agent.site_id))
                                      "host_id" (text s.agent.host_id))
                                    "status" (text (to_string (health_status s))))
                                  "started_at" (text (format_utc s.started)))
                                "observed_at" (text (format_utc now)))
                              "active_incidents" (number (active_count s)))
                            "agent_version" (text build.agent_version))
                          "protocol_version" (number build.protocol_version))
                        "boot_id" (text s.boot_id))
                      "runtime_mode" (text s.agent.runtime_mode))
                    "hostname" (text s.hostname))
                  "windows_version" (text s.windows_version))
                "uptime_seconds" (number_ℤ (whole_seconds (sub_ℕ now s.started))))
              "build_type" (text build.build_type))
            "architecture" (text build.build_architecture))
          "configuration_hash" (text s.configuration.hash))
        "queue_size" (number s.queue_size)

  unfoldable pub checks_json : AgentState J R → J
  checks_json s = array (map (result_to_json json utc) s.checks)

  unfoldable pub incidents_json : AgentState J R → J
  incidents_json s = array (map (incident_to_json json utc) s.incidents)

  unfoldable pub configuration_status : AgentState J R → J
  configuration_status s =
      put
        (put
          (put
            (put
              (put
                (put
                  (put (put object "loaded" (bool s.configuration.loaded)) "path"
                    (text s.configuration.path))
                  "hash" (text s.configuration.hash))
                "warning_count" (number (length s.configuration.warnings)))
              "warnings" (array (map text s.configuration.warnings)))
            "enabled_data_sources" (array (map text s.configuration.enabled_data_sources)))
          "unconfigured_subsystems" (array (map text s.configuration.unconfigured_subsystems)))
        "last_successful_load_at" (text (format_utc s.configuration.loaded_at))

  unfoldable pub queue_status : ℕ → AgentState J R → J
  unfolding whole_seconds
  queue_status now s =
      let result = put object "pending_messages" (number s.queue_size) in
      elim s.oldest_queued_at [
        | none ↦ put result "oldest_message_at" null
        | some t ↦
            put (put result "oldest_message_at" (text (format_utc t))) "oldest_message_age_seconds"
              (number_ℤ (whole_seconds (sub_ℕ now t)))
      ]
