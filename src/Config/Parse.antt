-- ===== src/Config/Parse.antt =====
-- `parse_config` of src/configuration/config.cpp. An exception is its text.
pub mod Checks
pub mod Whole
pub mod Accepted
use scada_guard.Prelude.{
  ℕ, suc, ◌+◌, String, Bool, true, false, Option, none, some, List, [], ◌∷◌, if◌then◌else◌, ℤ, pos,
}
use scada_guard.Model.{JsonLib, HealthStatus}
use scada_guard.Checks.{TextLib, ◌<>◌}
use scada_guard.Reporter.{CentralServerConfig}
use scada_guard.State.{AgentConfig}
use scada_guard.Config.{LoggingConfig, LocalApiConfig, DiscoveryConfig, is_empty}
use scada_guard.Central.{Result, thrown, returned, ◌>>=◌, from_json, ensure}

-- `get<T>` for the types that a configuration has, with the text of the exception where it throws,
-- and the elements of an array. `literal m n` is the `double` of the literal with the digits `m`, `n`
-- of them after the point. The paths are those of the environment.
pub record ReadLib (J R : Type 0) : Type 0 where
  pub is_object : J → Bool
  pub is_array : J → Bool
  pub elements : J → List J
  pub get_string : J → Result String
  pub get_strings : J → Result (List String)
  pub get_int : J → Result ℤ
  pub get_size : J → Result ℕ
  pub get_port : J → Result ℕ
  pub get_flag : J → Result Bool
  pub get_double : J → Result R
  pub get_doubles : J → Result (List R)
  pub value_error : String
  pub value_flag : J → String → Bool → Option Bool
  pub dump : J → Result (List ℕ)
  pub literal : ℕ → ℕ → R
  pub log_directory : String
  pub default_state_database : String

-- The catch of the exceptions of the JSON library.
abbrev located : {A : Type 0} → String → String → Result A → Result A
located key path (thrown reason) = thrown (path <> "." <> key <> ": " <> reason)
located key path (returned a) = returned a

module _ {J R : Type 0} (json : JsonLib J) (lib : ReadLib J R) (text_lib : TextLib) where
  open json use {object, at?, value_text}
  open lib use {
    is_object, is_array, elements, get_string, get_strings, get_int, get_size, get_port, get_flag,
    value_error, log_directory,
  }

  unfoldable pub required : {A : Type 0} → (J → Result A) → J → String → String → Result A
  required get j key path = elim (at? j key) [
    | none ↦ thrown (path <> "." <> key <> " is required")
    | some v ↦ located key path (get v)
  ]

  unfoldable pub optional : {A : Type 0} → (J → Result A) → J → String → A → String → Result A
  optional get j key fallback path = elim (at? j key) [
    | none ↦ returned fallback
    | some v ↦ located key path (get v)
  ]

  -- `if (j.contains(key)) r.field = required(...)`
  abbrev pub present : {A : Type 0} → (J → Result A) → J → String → String → Result (Option A)
  present get j key path = elim (at? j key) [
    | none ↦ returned none
    | some v ↦ (do a ← located key path (get v); returned (some a))
  ]

  agent_of : J → Result AgentConfig
  unfolding required optional
  agent_of a = do
    agent_id ← required get_string a "agent_id" "agent"
    site_id ← required get_string a "site_id" "agent"
    host_id ← required get_string a "host_id" "agent"
    poll ← optional get_int a "poll_interval_seconds" (pos 30) "agent"
    timeout ← optional get_int a "check_timeout_seconds" (pos 10) "agent"
    workers ← optional get_size a "scheduler_worker_count" 4 "agent"
    returned (record {
      agent_id = agent_id;
      site_id = site_id;
      host_id = host_id;
      poll_interval_seconds = poll;
      check_timeout_seconds = timeout;
      scheduler_worker_count = workers;
      runtime_mode = "unknown";
    })

  unfoldable pub parse_agent : J → Result AgentConfig
  unfolding agent_of
  parse_agent root = elim (at? root "agent") [
    | none ↦ thrown "agent must be an object"
    | some a ↦ if is_object a then agent_of a else thrown "agent must be an object"
  ]

  unfoldable pub parse_logging : Option J → Result LoggingConfig
  unfolding optional
  parse_logging none = returned (record {
    directory = log_directory;
    level = "info";
    format = "text";
    max_file_size_mb = 20;
    max_files = 10;
  })
  parse_logging (some j) = do
    directory ← optional get_string j "directory" log_directory "logging"
    level ← optional get_string j "level" "info" "logging"
    format ← optional get_string j "format" "text" "logging"
    size ← optional get_size j "max_file_size_mb" 20 "logging"
    files ← optional get_size j "max_files" 10 "logging"
    returned (record {
      directory = directory;
      level = level;
      format = format;
      max_file_size_mb = size;
      max_files = files;
    })

  unfoldable pub parse_local_api : Option J → Result LocalApiConfig
  unfolding optional
  parse_local_api none =
      returned (record { enabled = true; bind_address = "127.0.0.1"; port = 9180 })
  parse_local_api (some j) = do
    enabled ← optional get_flag j "enabled" true "local_api"
    address ← optional get_string j "bind_address" "127.0.0.1" "local_api"
    port ← optional get_port j "port" 9180 "local_api"
    returned (record { enabled = enabled; bind_address = address; port = port })

  unfoldable pub parse_central_server : Option J → Result CentralServerConfig
  unfolding optional
  parse_central_server none = returned (record {
    enabled = false;
    production = true;
    base_url = "";
    heartbeat_interval_seconds = pos 30;
    request_timeout_seconds = pos 10;
    max_queue_size = 10000;
  })
  parse_central_server (some j) = do
    enabled ← optional get_flag j "enabled" false "central_server"
    production ← optional get_flag j "production" true "central_server"
    url ← optional get_string j "base_url" "" "central_server"
    heartbeat ← optional get_int j "heartbeat_interval_seconds" (pos 30) "central_server"
    timeout ← optional get_int j "request_timeout_seconds" (pos 10) "central_server"
    size ← optional get_size j "max_queue_size" 10000 "central_server"
    returned (record {
      enabled = enabled;
      production = production;
      base_url = url;
      heartbeat_interval_seconds = heartbeat;
      request_timeout_seconds = timeout;
      max_queue_size = size;
    })

  default_discovery : DiscoveryConfig
  default_discovery = record {
    enabled = true;
    scheduled_interval_hours = pos 6;
    keywords = "masterscada" ∷ "mpssoft" ∷ "мпс софт" ∷ "mplc" ∷ "masterscada4d" ∷ [];
    additional_roots = [];
    relative_log_directories = "logs" ∷ "log" ∷ "runtime\\logs" ∷ [];
    maximum_directories = 500;
    maximum_files = 10000;
    maximum_depth = 4;
    maximum_duration_seconds = pos 30;
    maximum_inspected_bytes = 65536;
    confirmed_archive = none;
    confirmed_logs = [];
  }

  confirmed : Option String → Option String
  confirmed none = none
  confirmed (some value) = if is_empty value then none else some value

  discovery_of : J → Result DiscoveryConfig
  unfolding optional confirmed default_discovery
  discovery_of j = do
    enabled ← optional get_flag j "enabled" true "discovery"
    hours ← optional get_int j "scheduled_interval_hours" (pos 6) "discovery"
    keywords ← optional get_strings j "keywords" default_discovery.keywords "discovery"
    roots ← optional get_strings j "additional_roots" [] "discovery"
    logs ←
        optional get_strings j "relative_log_directories" default_discovery.relative_log_directories
          "discovery"
    directories ← optional get_size j "maximum_directories" 500 "discovery"
    files ← optional get_size j "maximum_files" 10000 "discovery"
    depth ← optional get_size j "maximum_depth" 4 "discovery"
    duration ← optional get_int j "maximum_duration_seconds" (pos 30) "discovery"
    bytes ← optional get_size j "maximum_inspected_bytes" 65536 "discovery"
    archive ← present get_string j "confirmed_archive" "discovery"
    confirmed_logs ← optional get_strings j "confirmed_logs" [] "discovery"
    returned (record {
      enabled = enabled;
      scheduled_interval_hours = hours;
      keywords = keywords;
      additional_roots = roots;
      relative_log_directories = logs;
      maximum_directories = directories;
      maximum_files = files;
      maximum_depth = depth;
      maximum_duration_seconds = duration;
      maximum_inspected_bytes = bytes;
      confirmed_archive = confirmed archive;
      confirmed_logs = confirmed_logs;
    })

  unfoldable pub parse_discovery : Option J → Result DiscoveryConfig
  unfolding default_discovery discovery_of
  parse_discovery none = returned default_discovery
  parse_discovery (some j) =
      if is_object j then discovery_of j else thrown "discovery must be an object"

  unfoldable pub parse_state_database : J → Result String
  parse_state_database root =
      from_json value_error (value_text root "state_database" lib.default_state_database)

  -- The loop of `parse_array`, from the `i`th item on.
  unfoldable pub parse_items :
      {A : Type 0} → (J → String → Result A) → String → ℕ → List J → Result (List A)
  parse_items callback name i [] = returned []
  parse_items callback name i (item ∷ items) = do
    value ← callback item (name <> "[" <> text_lib.decimal i <> "]")
    values ← parse_items callback name (i + 1) items
    returned (value ∷ values)

  unfoldable pub parse_array : {A : Type 0} → J → String → (J → String → Result A) → Result (List A)
  unfolding parse_items
  parse_array root name callback = elim (at? root name) [
    | none ↦ returned []
    | some j ↦
        if is_array j
        then parse_items callback name 0 (elements j)
        else thrown (name <> " must be an array")
  ]
