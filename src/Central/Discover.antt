-- ===== src/Central/Discover.antt =====
-- `Application::Impl::perform_discovery`, and what a confirmed archive means for it.
use scada_guard.Prelude.{
  ℕ, String, false, Option, none, some, List, str_eq, ◌≡◌, refl, ap, if◌then◌else◌, pos_part,
}
use scada_guard.Model.{JsonLib, UtcLib, seconds}
use scada_guard.Checks.{TextLib}
use scada_guard.Quality.Real.{RealLib}
use scada_guard.Storage.Tables.{Tables, save_discovery_report}
use scada_guard.Config.{AppConfig, DiscoveryConfig}
use scada_guard.Discovery.{
  PathLib, DiscoveryHints, DiscoverySelection, DiscoveryReport, DiscoveryEnvironment,
}
use scada_guard.Discovery.Names.{is_empty}
use scada_guard.Discovery.Walk.{Clockwork}
use scada_guard.Discovery.Select.{SortLib, scan}
use scada_guard.Discovery.Select.Outcome.{Outcome, wanted}
use scada_guard.Discovery.Scan.{scan-Outcome}
use scada_guard.Central.{Result, thrown, returned, ◌>>=◌, DocLib, DesiredAgentConfiguration, lib}
use scada_guard.Central.Poll.{App, move_config, save_desired, commit}

unfoldable pub make_discovery_hints : DiscoveryConfig → DiscoveryHints
make_discovery_hints config = record {
  keywords = config.keywords;
  additional_roots = config.additional_roots;
  relative_log_directories = config.relative_log_directories;
  limits = record {
    maximum_directories = config.maximum_directories;
    maximum_files = config.maximum_files;
    maximum_depth = config.maximum_depth;
    maximum_duration = seconds (pos_part config.maximum_duration_seconds);
    maximum_inspected_bytes = config.maximum_inspected_bytes;
  };
}

module _ {J R : Type 0} (paths : PathLib) (json : JsonLib J) (docs : DocLib J R) where
  open json use {value_text}
  open docs use {value_bool}

  -- The archive of the local configuration, if it is enabled.
  configured_archive_of : AppConfig J R → Result (Option String)
  configured_archive_of config =
      let options = config.archive_data_source.options in
      let read : Result (Option String) = (do
        enabled ← lib paths json docs (value_bool options "enabled" false)
        path ←
            if enabled
            then lib paths json docs (value_text options "database_path" "")
            else returned ""
        returned (if is_empty path then none else some path)) in
      if str_eq config.archive_data_source.type "sqlite" then read else returned none

  selection_from : Option String → List String → Result (Option String) → Result DiscoverySelection
  selection_from (some path) logs configured =
      returned
        (record { confirmed_archive = some path; configured_archive = none; confirmed_logs = logs })
  selection_from none logs (thrown reason) = thrown reason
  selection_from none logs (returned configured) =
      returned (record {
        confirmed_archive = none;
        configured_archive = configured;
        confirmed_logs = logs;
      })

  unfoldable pub selection_of : AppConfig J R → Result DiscoverySelection
  unfolding configured_archive_of selection_from
  selection_of config =
      selection_from config.discovery.confirmed_archive config.discovery.confirmed_logs
        (configured_archive_of config)

  selection_of-confirmed :
      (config : AppConfig J R) (path : String)
      → config.discovery.confirmed_archive ≡ some path
      → selection_of config
        ≡ returned (record {
          confirmed_archive = some path;
          configured_archive = none;
          confirmed_logs = config.discovery.confirmed_logs;
        })
  unfolding selection_of selection_from
  selection_of-confirmed config path e =
      ap
        (λ archive.
          selection_from archive config.discovery.confirmed_logs (configured_archive_of config))
        e

  module _ (utc : UtcLib) (real : RealLib J R) (text_lib : TextLib) where
    -- A discovery of an agent that has one, from the selection up to the report that is saved; the
    -- status of the local API and the message to the server are not followed. The hints are those of
    -- the configuration with which the agent was started, and `report_json` is the JSON form of a report.
    unfoldable pub perform_discovery :
        (DiscoveryReport J → J)
        → DiscoveryHints
        → DiscoveryEnvironment J
        → SortLib J
        → Clockwork
        → String
        → ℕ
        → ℕ
        → App J R
        → Result (Option (DiscoveryReport J × Tables J))
    perform_discovery report_json hints environment sorts clockwork scan_id now fuel app = do
      selection ← selection_of app.config
      returned
          (elim (scan paths json text_lib hints environment selection sorts clockwork scan_id now
              fuel)
            as (λ o. Option (DiscoveryReport J × Tables J)) [
              | none ↦ none
              | some report ↦ some (
                report,
                save_discovery_report json utc
                    (json.put (report_json report) "agent_id" (json.text app.config.agent.agent_id))
                    app.tables,
              )
            ])

    -- The chosen archive of a report.
    abbrev IfFound : Option String → Result (Option (DiscoveryReport J × Tables J)) → Type 0
    IfFound path (thrown reason) = Unit {0}
    IfFound path (returned none) = Unit {0}
    IfFound path (returned (some (report, tables))) = Outcome paths path report.archive_candidates

    module _ (report_json : DiscoveryReport J → J) (hints : DiscoveryHints)
        (environment : DiscoveryEnvironment J) (sorts : SortLib J) (clockwork : Clockwork)
        (scan_id : String) (now fuel : ℕ) where
      scan-IfFound :
          (selection : DiscoverySelection) (tables : DiscoveryReport J → Tables J)
          (o : Option (DiscoveryReport J))
          → scan paths json text_lib hints environment selection sorts clockwork scan_id now fuel
            ≡ o
          → IfFound (wanted selection) (
              returned (elim o as (λ o'. Option (DiscoveryReport J × Tables J)) [
                | none ↦ none
                | some report ↦ some (report, tables report)
              ]))
      scan-IfFound selection tables none e = tt
      scan-IfFound selection tables (some report) e =
          scan-Outcome paths json text_lib hints environment selection clockwork scan_id now sorts
            fuel report e

      perform-IfFound :
          (app : App J R) (path : String)
          → app.config.discovery.confirmed_archive ≡ some path
          → IfFound
              (some path)
              (perform_discovery report_json hints environment sorts clockwork scan_id now fuel app)
      unfolding perform_discovery
      perform-IfFound app path e =
          rw (selection_of-confirmed app.config path e, ◌>>=◌)
            (scan-IfFound
              (record {
                confirmed_archive = some path;
                configured_archive = none;
                confirmed_logs = app.config.discovery.confirmed_logs;
              })
              (λ report.
                save_discovery_report json utc
                  (json.put (report_json report) "agent_id" (json.text app.config.agent.agent_id))
                  app.tables)
              _ refl)

      -- After a desired configuration that confirms an archive has taken effect, also if its saving
      -- threw, each discovery that gives a report selects that archive as the only one, and without
      -- need of a confirmation.
      pub perform_discovery-commit :
          (failure : Option String) (desired : DesiredAgentConfiguration J)
          (candidate : AppConfig J R) (app : App J R) (path : String) (report : DiscoveryReport J)
          (tables : Tables J)
          → desired.confirmed_archive ≡ some path
          → perform_discovery report_json hints environment sorts clockwork scan_id now fuel
              (commit paths json docs utc real text_lib failure desired candidate app).0
            ≡ returned (some (report, tables))
          → Outcome paths (some path) report.archive_candidates
      unfolding commit move_config save_desired
      perform_discovery-commit none desired candidate app path report tables e done = rw done at (
          perform-IfFound
            (save_desired paths json docs utc real text_lib desired
              (move_config paths json docs utc real text_lib desired candidate app))
            path e)
      perform_discovery-commit (some reason) desired candidate app path report tables e done =
          rw done at (
            perform-IfFound (move_config paths json docs utc real text_lib desired candidate app)
              path e)
