-- ===== src/Config/Parse/Whole.antt =====
-- `parse_config` as a whole.
use scada_guard.Prelude.{
  ℕ, String, Bool, true, false, not, List, [], ◌∷◌, ◌++◌, str_eq, if◌then◌else◌,
}
use scada_guard.Model.{JsonLib}
use scada_guard.Quality.Real.{RealLib}
use scada_guard.Checks.{TextLib, ◌<>◌}
use scada_guard.State.{ConfigurationStatus}
use scada_guard.Config.{AppConfig, DataSourceConfig}
use scada_guard.Config.Validate.{validate_config}
use scada_guard.Config.Hash.{configuration_hash}
use scada_guard.Config.Parse.{
  ReadLib, parse_agent, parse_logging, parse_local_api, parse_central_server, parse_discovery,
  parse_state_database, parse_array,
}
use scada_guard.Config.Parse.Checks.{
  parse_process, parse_service, parse_tcp, parse_disk, parse_file, parse_log, parse_source,
  parse_signal,
}
use scada_guard.Central.{Result, thrown, returned, ◌>>=◌, from_json, ensure}

-- Each error on a line of its own.
unfoldable pub error_lines : List String → String
error_lines [] = ""
error_lines (e ∷ errors) = e <> ("\n" <> error_lines errors)

unfoldable pub accept_errors : List String → Result (Unit {0})
unfolding error_lines
accept_errors [] = returned tt
accept_errors (e ∷ errors) = thrown (error_lines (e ∷ errors))

module _ {J R : Type 0} (json : JsonLib J) (real : RealLib J R) (lib : ReadLib J R)
    (text_lib : TextLib) where
  open json use {at?}

  abbrev unloaded : ConfigurationStatus
  unloaded = record {
    loaded = false;
    path = "";
    hash = "";
    warnings = [];
    enabled_data_sources = [];
    unconfigured_subsystems = [];
    loaded_at = 0;
  }

  -- The document without the validation.
  unfoldable pub read_config : J → Result (AppConfig J R)
  read_config root = do
    checked ← ensure (lib.is_object root) "configuration root must be an object"
    agent ← parse_agent json lib text_lib root
    logging ← parse_logging json lib text_lib (at? root "logging")
    local_api ← parse_local_api json lib text_lib (at? root "local_api")
    central_server ← parse_central_server json lib text_lib (at? root "central_server")
    discovery ← parse_discovery json lib text_lib (at? root "discovery")
    state_database ← parse_state_database json lib text_lib root
    processes ←
        parse_array json lib text_lib root "process_checks" (parse_process json lib text_lib)
    services ← parse_array json lib text_lib root "service_checks" (parse_service json lib text_lib)
    tcp ← parse_array json lib text_lib root "tcp_checks" (parse_tcp json lib text_lib)
    disks ← parse_array json lib text_lib root "disk_checks" (parse_disk json lib text_lib)
    files ← parse_array json lib text_lib root "file_activity_checks" (parse_file json lib text_lib)
    logs ← parse_array json lib text_lib root "log_checks" (parse_log json lib text_lib)
    current ← parse_source json lib text_lib (at? root "data_sources") "current"
    archive ← parse_source json lib text_lib (at? root "data_sources") "archive"
    signals ← parse_array json lib text_lib root "signals" (parse_signal json lib text_lib)
    returned (record {
      agent = agent;
      logging = logging;
      local_api = local_api;
      central_server = central_server;
      discovery = discovery;
      state_database = state_database;
      process_checks = processes;
      service_checks = services;
      tcp_checks = tcp;
      disk_checks = disks;
      file_activity_checks = files;
      log_checks = logs;
      current_data_source = current;
      archive_data_source = archive;
      signals = signals;
      status = unloaded;
    })

  -- Whether the archive counts as not configured.
  unfoldable pub lacks_archive : DataSourceConfig J → Result Bool
  lacks_archive archive =
      let disabled : Result Bool = (do
        enabled ← from_json lib.value_error (lib.value_flag archive.options "enabled" false)
        returned (not enabled)) in
      if str_eq archive.type "mock"
      then returned true
      else if str_eq archive.type "sqlite"
      then disabled
      else returned false

  unfoldable pub status_of : ℕ → J → AppConfig J R → Result ConfigurationStatus
  unfolding lacks_archive
  status_of now root c = do
    canonical ← lib.dump root
    missing ← lacks_archive c.archive_data_source
    returned (record {
      loaded = true;
      path = "";
      hash = configuration_hash canonical;
      warnings = [];
      enabled_data_sources =
          ("current:" <> c.current_data_source.type)
          ∷ ("archive:" <> c.archive_data_source.type)
          ∷ [];
      unconfigured_subsystems =
          (if str_eq c.current_data_source.type "mock" then "opcua" ∷ [] else [])
          ++ (if missing then "archive" ∷ [] else []);
      loaded_at = now;
    })

  unfoldable pub parse_config : ℕ → J → Result (AppConfig J R)
  unfolding accept_errors
  parse_config now root = do
    c ← read_config root
    errors ← from_json lib.value_error (validate_config json real text_lib c)
    accepted ← accept_errors errors
    status ← status_of now root c
    returned (record c { status = status })
