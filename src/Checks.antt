-- ===== src/Checks.antt =====
-- include/scadaguard/checks.hpp and src/checks/checks.cpp: what the checks make of the answers of
-- Windows. Each answer is an argument; the handles and sockets around the calls are not modelled.
pub mod Probes
pub mod Files
pub mod Verdicts
pub mod Logs
use Prim.Native.String.{◌++◌ as append_text}
use scada_guard.Prelude.{
  ℕ, ◌+◌, String, Bool, false, not, ◌&&◌, Option, none, some, List, [], ◌∷◌, ◌++◌, length, map, ltb,
  ◌==◌, if◌then◌else◌, ℤ, pos, negsuc,
}
use scada_guard.Model.{HealthStatus, CheckResult, JsonLib, UtcLib}

-- What the checks take from the C++ runtime and from Windows: `std::to_string`, `std::tolower` of a
-- byte, the bytes of a text, `_wcsicmp` against a name, and the text of an error code.
pub record TextLib : Type 0 where
  pub decimal : ℕ → String
  pub tolower : ℕ → ℕ
  pub bytes_of : String → List ℕ
  pub same_name : String → String → Bool
  pub error_text : ℕ → String

infixl 65 ◌<>◌
abbrev pub ◌<>◌ : String → String → String
◌<>◌ = append_text

pub record ProcessCheckConfig : Type 0 where
  pub id : String
  pub process_name : String
  pub required : Bool

pub record ServiceCheckConfig : Type 0 where
  pub id : String
  pub service_name : String
  pub required : Bool

pub record ProcessEntry : Type 0 where
  pub exe_file : String
  pub process_id : ℕ

-- The snapshot of the processes, or the code of the error.
pub data ProcessAnswer : Type 0 where
  no_snapshot : ℕ → ProcessAnswer
  snapshot : List ProcessEntry → ProcessAnswer

pub data ServiceError : Type 0 where
  does_not_exist access_denied other_error : ServiceError

pub data ServiceState : Type 0 where
  running stopped start_pending stop_pending paused other_state : ServiceState

-- Where the queries of a service end: the error code as a text's source and as a kind, or the state
-- and the process.
pub data ServiceAnswer : Type 0 where
  no_manager : ℕ → ServiceError → ServiceAnswer
  no_service : ℕ → ServiceError → ServiceAnswer
  no_status : ℕ → ServiceAnswer
  status_of : ServiceState → ℕ → ServiceAnswer

abbrev pub when_required : Bool → HealthStatus
when_required required = if required then HealthStatus.critical else HealthStatus.warning

module _ {J : Type 0} (json : JsonLib J) (utc : UtcLib) (text_lib : TextLib) where
  open json use {object, text, number, bool, array, put}
  open utc use {format_utc}
  open text_lib use {decimal, same_name, error_text}

  unfoldable pub base : String → String → ℕ → CheckResult J
  base id component clock = record {
    check_id = id;
    component = component;
    status = HealthStatus.unknown;
    message = "";
    observed_at = clock;
    details = object;
  }

  -- The loop over the snapshot; `stops i` is the stop token at entry `i`, and `none` a cancelled scan.
  unfoldable pub scan_processes :
      String → (ℕ → Bool) → ℕ → List ProcessEntry → List ℕ → Option (List ℕ)
  scan_processes name stops i [] pids = some pids
  scan_processes name stops i (e ∷ es) pids =
      let rest =
        scan_processes name stops (i + 1) es
          (if same_name e.exe_file name then pids ++ e.process_id ∷ [] else pids) in
      if stops i then none else rest

  process_result : ProcessCheckConfig → List ℕ → CheckResult J → CheckResult J
  process_result c pids r =
      let found = not (length pids == 0) in
      record r {
        status = if found then HealthStatus.ok else when_required c.required;
        message =
            if found then "Configured process is running" else "Configured process is not running";
        details =
            put
              (put
                (put (put (put object "process_name" (text c.process_name)) "found" (bool found))
                  "instance_count" (number (length pids)))
                "pids" (array (map number pids)))
              "checked_at" (text (format_utc r.observed_at));
      }

  unfoldable pub check_process : ProcessCheckConfig → ProcessAnswer → (ℕ → Bool) → ℕ → CheckResult J
  unfolding base scan_processes process_result
  check_process c (no_snapshot code) stops clock = record (base c.id "process" clock) {
    message = "Cannot enumerate processes: " <> error_text code;
  }
  check_process c (snapshot entries) stops clock =
      elim (scan_processes c.process_name stops 0 entries []) [
        | none ↦ record (base c.id "process" clock) { message = "Process check cancelled" }
        | some pids ↦ process_result c pids (base c.id "process" clock)
      ]

  state_name : ServiceState → String
  state_name running = "Running"
  state_name stopped = "Stopped"
  state_name start_pending = "StartPending"
  state_name stop_pending = "StopPending"
  state_name paused = "Paused"
  state_name other_state = "Unknown"

  state_status : Bool → ServiceState → HealthStatus
  state_status required running = HealthStatus.ok
  state_status required stopped = when_required required
  state_status required start_pending = HealthStatus.warning
  state_status required stop_pending = HealthStatus.warning
  state_status required paused = HealthStatus.warning
  state_status required other_state = HealthStatus.unknown

  unfoldable pub check_service : ServiceCheckConfig → ServiceAnswer → ℕ → CheckResult J
  unfolding base state_name state_status
  check_service c (no_manager code later) clock = record (base c.id "windows-service" clock) {
    message = "Cannot open Service Control Manager: " <> error_text code;
    details =
        put object "state"
          (text (elim later [ ServiceError.access_denied ↦ "AccessDenied" | _ ↦ "Unknown" ]));
  }
  check_service c (no_service code kind) clock = record (base c.id "windows-service" clock) {
    status = elim kind [
      | ServiceError.does_not_exist ↦ when_required c.required
      | _ ↦ HealthStatus.unknown
    ];
    message = elim kind [
      | ServiceError.does_not_exist ↦ "Configured service was not found"
      | _ ↦ "Cannot query configured service: " <> error_text code
    ];
    details = put object "state" (
        text (elim kind [
          | ServiceError.does_not_exist ↦ "NotFound"
          | ServiceError.access_denied ↦ "AccessDenied"
          | ServiceError.other_error ↦ "Unknown"
        ]));
  }
  check_service c (no_status code) clock = record (base c.id "windows-service" clock) {
    message = "Cannot query service status: " <> error_text code;
    details = put object "state" (text "Unknown");
  }
  check_service c (status_of state pid) clock = record (base c.id "windows-service" clock) {
    status = state_status c.required state;
    message = "Service state is " <> state_name state;
    details =
        put
          (put (put object "service_name" (text c.service_name)) "state" (text (state_name state)))
          "pid" (number pid);
  }
