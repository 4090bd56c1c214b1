-- ===== src/Examples/Agent.antt =====
-- Runs of the scheduler, the local API and the validation.
use scada_guard.Prelude.{ℕ, ◌≡◌, refl, true, false, none, some, [], ◌∷◌, pos, drop, length, map}
use scada_guard.Model.{HealthStatus, CheckResult, seconds}
use scada_guard.Reporter.{CentralServerConfig}
use scada_guard.State.{AgentConfig, ConfigurationStatus, AgentState}
use scada_guard.State.Metrics.{heading, metrics, read_checks, totals, as_read, read_checks-metrics}
use scada_guard.Config.{AppConfig, each_check, central_errors}
use scada_guard.Config.Validate.{
  validate_config, general_errors, check_errors, signals_errors, source_errors,
}
use scada_guard.Config.Ids.{AreNew, check_ids, validate_config-new}
use scada_guard.Scheduler.{
  Core, WorkItem, Reach, start, then_step, submits, pushes, submit, push_back, fresh,
}
use scada_guard.Scheduler.Single.{IsSingle, Reach-IsSingle}
use scada_guard.Examples.Libs.{Doc, docs, whole, texts, obj, field, txt}

abbrev pub agent : AgentConfig
agent = record {
  agent_id = "agent";
  site_id = "site";
  host_id = "host";
  poll_interval_seconds = pos 30;
  check_timeout_seconds = pos 10;
  scheduler_worker_count = 4;
  runtime_mode = "unknown";
}

abbrev status : ConfigurationStatus
status = record {
  loaded = true;
  path = "agent.json";
  hash = "fnv1a64-0";
  warnings = [];
  enabled_data_sources = "csv" ∷ [];
  unconfigured_subsystems = [];
  loaded_at = seconds 1;
}

abbrev pub result : HealthStatus → CheckResult Doc
result s = record {
  check_id = "disk-c";
  component = "disk";
  status = s;
  message = "Disk";
  observed_at = 25000000;
  details = obj;
}

abbrev pub state : AgentState Doc ℕ
state = record {
  agent = agent;
  configuration = status;
  boot_id = "boot";
  hostname = "pc";
  windows_version = "10.0.19045";
  started = seconds 1;
  checks = result HealthStatus.ok ∷ result HealthStatus.warning ∷ [];
  incidents = [];
  signals = [];
  queue_size = 0;
  oldest_queued_at = none;
  discovery = obj;
}

abbrev pub server : CentralServerConfig
server = record {
  enabled = true;
  production = true;
  base_url = "https://central";
  heartbeat_interval_seconds = pos 30;
  request_timeout_seconds = pos 10;
  max_queue_size = 100;
}

abbrev pub config : AppConfig Doc ℕ
config = record {
  agent = agent;
  logging = record {
    directory = "logs";
    level = "info";
    format = "json";
    max_file_size_mb = 20;
    max_files = 10;
  };
  local_api = record { enabled = true; bind_address = "127.0.0.1"; port = 9180 };
  central_server = server;
  discovery = record {
    enabled = true;
    scheduled_interval_hours = pos 6;
    keywords = "mplc" ∷ [];
    additional_roots = [];
    relative_log_directories = [];
    maximum_directories = 500;
    maximum_files = 10000;
    maximum_depth = 4;
    maximum_duration_seconds = pos 30;
    maximum_inspected_bytes = 65536;
    confirmed_archive = none;
    confirmed_logs = [];
  };
  state_database = "state.db";
  process_checks = record { id = "runtime"; process_name = "mplc.exe"; required = true } ∷ [];
  service_checks = record { id = "service"; service_name = "MasterSCADA"; required = true } ∷ [];
  tcp_checks = [];
  disk_checks = [];
  file_activity_checks = [];
  log_checks = [];
  current_data_source = record { type = "csv"; options = field obj "path" (txt "current.csv") };
  archive_data_source = record { type = "mock"; options = obj };
  signals = [];
  status = status;
}

pub config_accepted : validate_config docs whole texts config ≡ some []
unfolding validate_config general_errors check_errors signals_errors each_check central_errors
    source_errors
config_accepted = refl

validate_config-new_example : AreNew [] (check_ids docs whole texts config)
validate_config-new_example = validate_config-new docs whole texts config config_accepted

-- Two slots, and nothing scheduled.
abbrev core : Core Doc
core = record {
  worker_count = 2;
  slots = λ i. record { execution = none; scheduled = false };
  executions = λ i. fresh;
  next_execution = 0;
  submitted = [];
  queue = [];
  taken = [];
  running = [];
  completing = [];
  dropped = [];
  stopping = false;
}

abbrev item : WorkItem
item = record { slot = 1; execution = 0 }

abbrev pushed : Core Doc
pushed = push_back item [] (submit 1 core)

push_reached : Reach docs core pushed
unfolding submit push_back
push_reached =
    then_step (then_step start (submits core 1 refl)) (pushes (submit 1 core) item [] [] refl)

core-IsSingle : IsSingle core
core-IsSingle = (λ i. refl, tt, tt, tt, tt, tt, tt)

Reach-IsSingle_example : IsSingle pushed
Reach-IsSingle_example = Reach-IsSingle docs push_reached core-IsSingle

-- The execution has its result, and `run_once` gives up on it afterwards.
read_checks-metrics_example :
    read_checks 2 (drop (length heading) (metrics texts (seconds 9) state))
    ≡ (map (as_read texts) state.checks, totals texts (seconds 9) state)
read_checks-metrics_example = read_checks-metrics texts (seconds 9) state
