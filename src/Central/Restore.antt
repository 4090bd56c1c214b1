-- ===== src/Central/Restore.antt =====
-- The part of the constructor `Application::Impl::Impl` about a central configuration that an earlier
-- run saved.
use scada_guard.Prelude.{ℕ, String, Option, none, some, [], ◌∷◌, ◌++◌, ◌≡◌, refl}
use scada_guard.Model.{JsonLib}
use scada_guard.Checks.{TextLib}
use scada_guard.Quality.Real.{RealLib}
use scada_guard.Config.{AppConfig, DataSourceConfig}
use scada_guard.Discovery.{PathLib}
use scada_guard.Central.{
  Result, thrown, returned, ◌>>=◌, DocLib, DesiredAgentConfiguration,
  validate_desired_agent_configuration,
}
use scada_guard.Central.Apply.{ArchiveSource, make_archive_source, candidate_of}
use scada_guard.Central.Poll.{text_or_empty}

-- The members of the application that this part sets.
pub record Restored (J R : Type 0) : Type 0 where
  pub config : AppConfig J R
  pub applied_configuration_version : ℕ
  pub last_rescan_request : String

module _ {J R : Type 0} (paths : PathLib) (json : JsonLib J) (docs : DocLib J R)
    (real : RealLib J R) (text_lib : TextLib)
    (moved : DataSourceConfig J → DataSourceConfig J) where
  -- The `try` block up to the assignments.
  unfoldable pub read_working :
      J → AppConfig J R → Result (DesiredAgentConfiguration J × AppConfig J R)
  read_working working config = do
    desired ← validate_desired_agent_configuration paths json docs working
    candidate ←
        candidate_of paths json docs real text_lib (λ ids signals. returned tt)
          (λ id. "persisted threshold references unknown signal") (λ error. error) desired config
    returned (desired, candidate)

  -- The assignments and the handler. `moved d` is what a move from `d` leaves behind: the data source
  -- is moved from a candidate that has been moved from.
  unfoldable pub assign :
      AppConfig J R → Result (DesiredAgentConfiguration J × AppConfig J R) → Restored J R
  assign config (thrown reason) = record {
    config = record config {
      status = record config.status {
        warnings =
            config.status.warnings
            ++ "persisted central configuration is invalid; local configuration retained" ∷ [];
      };
    };
    applied_configuration_version = 0;
    last_rescan_request = "";
  }
  assign config (returned (desired, candidate)) = record {
    config = record candidate {
      discovery = record candidate.discovery {
        confirmed_archive = desired.confirmed_archive;
        confirmed_logs = desired.confirmed_logs;
      };
      archive_data_source = moved candidate.archive_data_source;
    };
    applied_configuration_version = desired.version;
    last_rescan_request = text_or_empty desired.rescan_requested_at;
  }

  unfoldable pub restore : AppConfig J R → Option J → Restored J R
  unfolding read_working assign
  restore config none = record {
    config = config;
    applied_configuration_version = 0;
    last_rescan_request = "";
  }
  restore config (some working) = assign config (read_working working config)

  -- The archive source is made from the local configuration first, and again after the restoring.
  unfoldable pub start_archive : AppConfig J R → Option J → Result (Restored J R × ArchiveSource)
  unfolding restore
  start_archive config working = do
    first ← make_archive_source paths json docs config.archive_data_source
    archive ←
        make_archive_source paths json docs (restore config working).config.archive_data_source
    returned (restore config working, archive)

  unsupported :
      (d : DataSourceConfig J)
      → d.type ≡ ""
      → make_archive_source paths json docs d ≡ thrown "data_sources.archive.type is unsupported: "
  unfolding make_archive_source
  unsupported d e = rw e refl

  assign-moved :
      (config : AppConfig J R) (r : Result (DesiredAgentConfiguration J × AppConfig J R))
      (desired : DesiredAgentConfiguration J) (candidate : AppConfig J R)
      → ((d : DataSourceConfig J) → (moved d).type ≡ "")
      → r ≡ returned (desired, candidate)
      → (assign config r).config.archive_data_source.type ≡ ""
  unfolding assign
  assign-moved config r desired candidate empty e = rw e (empty candidate.archive_data_source)

  -- If a move leaves the type of a data source empty, then no agent starts with a saved central
  -- configuration that is valid: the constructor throws.
  pub start_archive-moved :
      (config : AppConfig J R) (working : J) (desired : DesiredAgentConfiguration J)
      (candidate : AppConfig J R) (first : ArchiveSource)
      → ((d : DataSourceConfig J) → (moved d).type ≡ "")
      → make_archive_source paths json docs config.archive_data_source ≡ returned first
      → read_working working config ≡ returned (desired, candidate)
      → start_archive config (some working) ≡ thrown "data_sources.archive.type is unsupported: "
  unfolding start_archive restore
  start_archive-moved config working desired candidate first empty made read =
      let fails =
        unsupported (restore config (some working)).config.archive_data_source
          (assign-moved config (read_working working config) desired candidate empty read) in
      rw (made, ◌>>=◌) (rw (fails, ◌>>=◌) refl)
