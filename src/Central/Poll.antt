-- ===== src/Central/Poll.antt =====
-- `Application::Impl::poll_central_configuration`.
use scada_guard.Prelude.{
  ℕ, String, Bool, true, false, not, ◌&&◌, ◌||◌, Option, none, some, List, [], ◌∷◌, find_if, str_eq,
  leb, ◌==◌, if◌then◌else◌, sub_ℕ, ltb_ℤ, scale,
}
use scada_guard.Model.{JsonLib, UtcLib, epoch, ticks_per_second}
use scada_guard.Checks.{TextLib, ◌<>◌}
use scada_guard.Quality.Real.{RealLib}
use scada_guard.Storage.Tables.{Tables, save_working_central_configuration}
use scada_guard.Config.{AppConfig}
use scada_guard.Discovery.{PathLib}
use scada_guard.Central.{
  Result, thrown, returned, ◌>>=◌, ensure, DocLib, DesiredAgentConfiguration,
  validate_desired_agent_configuration,
}
use scada_guard.Central.Apply.{ArchiveSource, make_archive_source, candidate_of, check_known}

-- The part of the state of the application that the polling of the configuration changes.
-- `reporter_url` is the address with which the reporter was made.
pub record App (J R : Type 0) : Type 0 where
  pub config : AppConfig J R
  pub tables : Tables J
  pub archive : ArchiveSource
  pub reporter_url : String
  pub last_configuration_poll : ℕ
  pub applied_configuration_version : ℕ
  pub last_rescan_request : String

-- What a poll meets: the clock, the answer of `fetch_configuration`, `is_regular_file`, and the
-- exceptions of `save_working_central_configuration` and `perform_discovery`, if there are any.
pub record PollWorld (J : Type 0) : Type 0 where
  pub now : ℕ
  pub response : Option J
  pub is_regular_file : String → Bool
  pub save_failure : Option String
  pub discovery_failure : Option String

-- What a poll leaves: the state, the statuses that it sends, and whether it ran a discovery.
pub record Polled (J R : Type 0) : Type 0 where
  pub app : App J R
  pub statuses : List J
  pub discovered : Bool

abbrev pub text_or_empty : Option String → String
text_or_empty none = ""
text_or_empty (some s) = s

module _ {J R : Type 0} (paths : PathLib) (json : JsonLib J) (docs : DocLib J R) (utc : UtcLib)
    (real : RealLib J R) (text_lib : TextLib) where
  open json use {object, text, number, put, value_number}

  unfoldable pub status_document : ℕ → String → String → J
  status_document version status message =
      put (put (put object "config_version" (number version)) "status" (text status)) "message"
        (text message)

  -- The tests of the files that the desired configuration names.
  unfoldable pub check_files : (String → Bool) → DesiredAgentConfiguration J → Result (Unit {0})
  check_files is_regular_file desired = do
    a ←
        ensure
          (elim desired.confirmed_archive as (λ o. Bool) [
            | none ↦ true
            | some path ↦ is_regular_file path
          ])
          "confirmed archive does not exist or is not a file"
    elim (find_if (λ path. not (is_regular_file path)) desired.confirmed_logs) [
      | none ↦ returned tt
      | some path ↦ thrown ("confirmed log does not exist or is not a file: " <> path)
    ]

  abbrev pub candidate_for : DesiredAgentConfiguration J → AppConfig J R → Result (AppConfig J R)
  candidate_for desired config =
      candidate_of paths json docs real text_lib check_known
        (λ id. "threshold references unknown signal: " <> id)
        (λ error. "central configuration is invalid: " <> error) desired config

  -- A response up to the candidate that is accepted: what the `try` block does before it changes
  -- the state.
  unfoldable pub accept :
      (String → Bool) → J → AppConfig J R → Result (DesiredAgentConfiguration J × AppConfig J R)
  unfolding check_files
  accept is_regular_file response config = do
    desired ← validate_desired_agent_configuration paths json docs response
    a ← check_files is_regular_file desired
    candidate ← candidate_for desired config
    returned (desired, candidate)

  -- The fields of the configuration that are moved under the lock.
  unfoldable pub move_config : DesiredAgentConfiguration J → AppConfig J R → App J R → App J R
  move_config desired candidate app = record app {
    config = record app.config {
      agent = record app.config.agent {
        poll_interval_seconds = candidate.agent.poll_interval_seconds;
      };
      signals = candidate.signals;
      central_server = record app.config.central_server {
        base_url = candidate.central_server.base_url;
      };
      archive_data_source = candidate.archive_data_source;
      discovery = record app.config.discovery {
        confirmed_archive = desired.confirmed_archive;
        confirmed_logs = desired.confirmed_logs;
      };
    };
  }

  -- The rest of the section, when the saving returns.
  unfoldable pub save_desired : DesiredAgentConfiguration J → App J R → App J R
  save_desired desired app = record app {
    tables = save_working_central_configuration json utc desired.raw app.tables;
    applied_configuration_version = desired.version;
    last_rescan_request = text_or_empty desired.rescan_requested_at;
  }

  -- The section under the lock, for the exception of the saving, if there is one; with it, the fields
  -- are moved and nothing else is done.
  unfoldable pub commit :
      Option String
      → DesiredAgentConfiguration J
      → AppConfig J R
      → App J R
      → App J R × Option String
  unfolding move_config save_desired
  commit none desired candidate app =
      (save_desired desired (move_config desired candidate app), none)
  commit (some reason) desired candidate app = (move_config desired candidate app, some reason)

  abbrev applied_status : ℕ → J
  applied_status version =
      status_document version "applied"
        "validated and activated for ScadaGuard read-only monitoring"

  -- The end of the `try` block: an exception of the discovery sends a second status.
  unfoldable pub discover : Bool → Option String → ℕ → App J R → Polled J R
  discover false failure requested app = record {
    app = app;
    statuses = applied_status app.applied_configuration_version ∷ [];
    discovered = false;
  }
  discover true none requested app = record {
    app = app;
    statuses = applied_status app.applied_configuration_version ∷ [];
    discovered = true;
  }
  discover true (some reason) requested app = record {
    app = app;
    statuses =
        applied_status app.applied_configuration_version
        ∷ status_document requested "rejected" reason
        ∷ [];
    discovered = true;
  }

  -- The new archive source and the new reporter, which the change of the server asks for.
  abbrev pub renewed : Bool → ArchiveSource → App J R → App J R
  renewed server_changed archive app = record app {
    archive = archive;
    reporter_url = if server_changed then app.config.central_server.base_url else app.reporter_url;
  }

  -- The handler of an exception.
  abbrev pub rejected : ℕ → String → App J R → Polled J R
  rejected requested reason app = record {
    app = app;
    statuses = status_document requested "rejected" reason ∷ [];
    discovered = false;
  }

  -- What follows the section under the lock, once there is an answer for the new archive source.
  -- `server_changed` and `wanted` are the tests before it.
  unfoldable pub activate :
      Bool → Bool → Option String → ℕ → App J R → Result ArchiveSource → Polled J R
  unfolding discover
  activate server_changed wanted failure requested app (thrown reason) =
      rejected requested reason app
  activate server_changed wanted failure requested app (returned archive) =
      discover wanted failure requested (renewed server_changed archive app)

  -- What follows the section under the lock.
  unfoldable pub after_commit :
      Bool → Bool → Option String → ℕ → App J R × Option String → Polled J R
  unfolding activate
  after_commit server_changed wanted failure requested (app, some reason) =
      rejected requested reason app
  after_commit server_changed wanted failure requested (app, none) =
      activate server_changed wanted failure requested app
        (make_archive_source paths json docs app.config.archive_data_source)

  abbrev pub is_present : Option String → Bool
  is_present none = false
  is_present (some path) = true

  -- The rest of the `try` block, for the outcome of its first part, and the handler.
  unfoldable pub handle :
      PollWorld J → ℕ → App J R → Result (DesiredAgentConfiguration J × AppConfig J R) → Polled J R
  unfolding after_commit
  handle world requested app (thrown reason) = rejected requested reason app
  handle world requested app (returned (desired, candidate)) =
      let rescan_requested =
        not (str_eq (text_or_empty desired.rescan_requested_at) app.last_rescan_request) in
      let server_changed =
        not (str_eq candidate.central_server.base_url app.config.central_server.base_url) in
      after_commit server_changed (is_present desired.confirmed_archive || rescan_requested)
        world.discovery_failure requested (commit world.save_failure desired candidate app)

  abbrev pub quiet : App J R → Polled J R
  quiet app = record { app = app; statuses = []; discovered = false }

  -- What follows the fetch, for the version of the response; `none` is an exception that leaves
  -- the function.
  unfoldable pub take_version : PollWorld J → J → App J R → Option ℕ → Option (Polled J R)
  unfolding handle
  take_version world response app none = none
  take_version world response app (some requested) =
      if requested == 0
      then some (quiet app)
      else if leb requested app.applied_configuration_version
      then some (quiet app)
      else some (handle world requested app (accept world.is_regular_file response app.config))

  unfoldable pub take_response : PollWorld J → Option J → App J R → Option (Polled J R)
  unfolding take_version
  take_response world none app = some (quiet app)
  take_response world (some response) app =
      take_version world response app (value_number response "config_version" 0)

  -- The poll is not yet due.
  unfoldable pub waits : ℕ → App J R → Bool
  waits now app =
      not app.config.central_server.enabled
      || (not (app.last_configuration_poll == epoch)
          && ltb_ℤ (sub_ℕ now app.last_configuration_poll)
              (scale app.config.central_server.heartbeat_interval_seconds ticks_per_second))

  unfoldable pub poll_central_configuration : PollWorld J → App J R → Option (Polled J R)
  unfolding waits take_response
  poll_central_configuration world app =
      if waits world.now app
      then some (quiet app)
      else take_response world world.response (record app { last_configuration_poll = world.now })
