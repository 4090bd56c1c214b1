-- ===== src/Examples/Central.antt =====
-- Runs of the polling of the central configuration and of the data sources.
use scada_guard.Prelude.{
  arith, ℕ, ◌≤◌, String, Bool, true, false, none, some, List, [], ◌∷◌, ◌≡◌, refl, sym, ap, ◌∙◌,
  keep, map, pos, take, lookup, insert,
}
use scada_guard.Model.{SignalSample}
use scada_guard.Checks.{◌<>◌}
use scada_guard.Storage.Tables.{Tables, save_working_central_configuration, save_discovery_report}
use scada_guard.Config.{AppConfig, DataSourceConfig}
use scada_guard.Config.Validate.{validate_config, general_errors, check_errors, signals_errors}
use scada_guard.Config.{each_check, central_errors}
use scada_guard.Central.{
  validate_desired_agent_configuration, Result, thrown, returned, DocLib, DesiredAgentConfiguration,
}
use scada_guard.Central.Apply.{
  mock, make_archive_source, candidate_of, apply_archive_mapping, with_signals, apply_thresholds,
  validated, monitor, check_known,
}
use scada_guard.Central.Poll.{
  App, PollWorld, Polled, accept, commit, move_config, save_desired, status_document,
  poll_central_configuration,
}
use scada_guard.Central.Polls.{polls, polls-valid}
use scada_guard.Central.Restore.{start_archive, read_working, start_archive-moved}
use scada_guard.DataSources.{ArchiveRow, read_rows, latest}
use scada_guard.DataSources.Budget.{AreRead, bytes_of, read_rows_budget}
use scada_guard.DataSources.Latest.{IsLatest, latest-IsLatest}
use scada_guard.Examples.Libs.{
  Doc, docs, whole, texts, clock_texts, tally_length, tally_length-tally, obj, nil, field, txt, num,
}
use scada_guard.Examples.Agent.{config, config_accepted}
use scada_guard.Discovery.Select.Outcome.{Outcome}
use scada_guard.Central.Discover.{perform_discovery, selection_of, perform_discovery-commit}
use scada_guard.Storage.Migrations.{
  Database, migrate, migrate_2_to_3, take_over, legacy_row, is_unsent,
}
use scada_guard.Storage.Migrations.Events.{migrate_2_to_3-rows}
use scada_guard.Storage.Migrations.Rounds.{IsDone, migrate_ends}
use scada_guard.Examples.Discovery.{plain_paths, hints, environment, sorts, clockwork, ended}

abbrev is_object : Doc → Bool
is_object obj = true
is_object (field j k v) = true
is_object d = false

abbrev members : Doc → List (String × Doc)
members (field j k v) = (k, v) ∷ members j
members d = []

abbrev digest : String
digest = "0123456789abcdef0123456789abcdef0123456789abcdef0123456789abcdef"

abbrev more_docs : DocLib Doc ℕ
more_docs = record {
  library_error = "json";
  is_object = is_object;
  is_text = λ d. true;
  is_number = λ d. true;
  is_blank = λ d. false;
  items = members;
  get_texts = λ d. some [];
  get_real = λ d. some 0;
  value_int = λ j k d. some d;
  value_bool = λ j k d. some d;
  value_texts = λ j k d. some d;
  value_doc = λ j k d. some d;
  digest_of = λ d. some digest;
}

abbrev response : Doc
response =
    field (field (field obj "config_version" (num 2)) "config_hash" (txt ("sha256-" <> digest)))
      "configuration" obj

abbrev desired : DesiredAgentConfiguration Doc
desired = record {
  version = 2;
  hash = "sha256-" <> digest;
  confirmed_archive = none;
  archive_mapping = nil;
  confirmed_logs = [];
  monitored_signals = [];
  thresholds = obj;
  monitoring_interval_seconds = pos 30;
  server_url = none;
  rescan_requested_at = none;
  raw = response;
}

-- What a move leaves: no type.
abbrev moved : DataSourceConfig Doc → DataSourceConfig Doc
moved d = record { type = ""; options = nil }

abbrev read : Result (DesiredAgentConfiguration Doc × AppConfig Doc ℕ)
read = read_working plain_paths docs more_docs whole texts moved response config

read_lem : read ≡ returned (desired, config)
unfolding read_working validate_desired_agent_configuration candidate_of apply_archive_mapping
    with_signals apply_thresholds validated validate_config general_errors central_errors
    check_errors each_check signals_errors monitor
read_lem = refl

mock_lem : make_archive_source plain_paths docs more_docs config.archive_data_source ≡ returned mock
unfolding make_archive_source
mock_lem = refl

start_archive-moved_example :
    start_archive plain_paths docs more_docs whole texts moved config (some response)
    ≡ thrown "data_sources.archive.type is unsupported: "
start_archive-moved_example =
    start_archive-moved plain_paths docs more_docs whole texts moved config response desired config
      mock (λ d. refl) mock_lem read_lem

abbrev tables : Tables Doc
tables = record {
  check_state = [];
  incident_rows = [];
  log_state = [];
  file_state = [];
  agent_state = [];
  discovery_state = [];
}

abbrev app : App Doc ℕ
app = record {
  config = config;
  tables = tables;
  archive = mock;
  reporter_url = "https://central";
  last_configuration_poll = 0;
  applied_configuration_version = 1;
  last_rescan_request = "";
}

abbrev world : PollWorld Doc
world = record {
  now = 5;
  response = some response;
  is_regular_file = λ p. true;
  save_failure = none;
  discovery_failure = none;
}

abbrev app_after : App Doc ℕ
app_after = record app {
  tables = save_working_central_configuration docs clock_texts response tables;
  last_configuration_poll = 5;
  applied_configuration_version = 2;
}

abbrev polled : Polled Doc ℕ
polled = record {
  app = app_after;
  statuses =
      status_document plain_paths docs more_docs clock_texts whole texts 2 "applied"
        "validated and activated for ScadaGuard read-only monitoring"
      ∷ [];
  discovered = false;
}

polled_lem :
    poll_central_configuration plain_paths docs more_docs clock_texts whole texts world app
    ≡ some polled
unfolding poll_central_configuration accept check_known commit move_config save_desired
    make_archive_source validate_desired_agent_configuration candidate_of apply_archive_mapping
    with_signals apply_thresholds validated validate_config general_errors central_errors
    check_errors each_check signals_errors monitor
polled_lem = refl

polls_lem :
    polls plain_paths docs more_docs clock_texts whole texts (world ∷ []) app ≡ some app_after
unfolding polls
polls_lem = rw (polled_lem, polls) refl

polls-valid_example : (validate_config docs whole texts config ≡ some []) × (1 ≤ 2)
polls-valid_example =
    polls-valid plain_paths docs more_docs clock_texts whole texts (world ∷ []) app app_after
      polls_lem config_accepted

abbrev sample : String → ℕ → SignalSample ℕ
sample id time = record {
  signal_id = id;
  value = time;
  source_timestamp = time;
  received_timestamp = time;
  quality = "Good";
}

latest-IsLatest_example :
    IsLatest "a"
      (sample "a" 1 ∷ sample "b" 5 ∷ sample "a" 3 ∷ sample "a" 2 ∷ [])
      (some (sample "a" 3))
unfolding lookup insert latest
latest-IsLatest_example =
    latest-IsLatest "a" (sample "a" 1 ∷ sample "b" 5 ∷ sample "a" 3 ∷ sample "a" 2 ∷ [])

abbrev row : ℕ → ArchiveRow ℕ
row size = record { signal_id = "a"; value = 1; timestamp = ""; quality = "Good"; bytes = size }

abbrev read_sample : SignalSample ℕ
read_sample = record {
  signal_id = "a";
  value = 1;
  source_timestamp = 0;
  received_timestamp = 7;
  quality = "Good";
}

-- The second row does not fit.
rows_lem :
    read_rows clock_texts (λ i. false) (λ i. 7) 0 100 (row 60 ∷ row 60 ∷ [])
    ≡ some (read_sample ∷ [])
unfolding read_rows
rows_lem = refl

read_rows_budget_example :
    AreRead clock_texts (λ i. 7) 0 (row 60 ∷ row 60 ∷ []) (read_sample ∷ [])
    × (bytes_of (take 1 (row 60 ∷ row 60 ∷ [])) ≤ 100)
read_rows_budget_example =
    read_rows_budget clock_texts (λ i. 7) (λ i. false) 0 100 (row 60 ∷ row 60 ∷ [])
      (read_sample ∷ []) rows_lem

abbrev confirming : DesiredAgentConfiguration Doc
confirming = record desired { confirmed_archive = some "d:\\mps\\data.db" }

abbrev committed : App Doc ℕ
committed = (commit plain_paths docs more_docs clock_texts whole texts none confirming config app).0

abbrev performed_tables : Tables Doc
performed_tables =
    save_discovery_report docs clock_texts (field obj "agent_id" (txt "agent")) committed.tables

performed_lem :
    perform_discovery plain_paths docs more_docs clock_texts whole texts
      (λ r. obj)
      hints
      environment
      sorts
      clockwork
      "scan"
      1
      ended.0
      committed
    ≡ returned (some (ended.1, performed_tables))
unfolding perform_discovery selection_of commit move_config save_desired
performed_lem = rw (ended.2 ended.0 (omega arith)) refl

perform_discovery-commit_example :
    Outcome plain_paths (some "d:\\mps\\data.db") ended.1.archive_candidates
perform_discovery-commit_example =
    perform_discovery-commit plain_paths docs more_docs clock_texts whole texts (λ r. obj) hints
      environment sorts clockwork "scan" 1 ended.0 none confirming config app "d:\\mps\\data.db"
      ended.1 performed_tables refl performed_lem

-- A file of the first version.
abbrev old_database : Database Doc
old_database = record {
  version = pos 1;
  tables = "schema_version" ∷ [];
  event_queue =
      record { id = 1; json = obj; created_at = ""; sent_at = some "" }
      ∷ record { id = 2; json = obj; created_at = ""; sent_at = none }
      ∷ [];
  outbound_queue = [];
}

migrate_ends_example : IsDone texts (migrate texts old_database)
migrate_ends_example = migrate_ends texts old_database

-- The same file with version 2, and after its migration.
abbrev second_database : Database Doc
second_database = record old_database { version = pos 2 }

abbrev third_database : Database Doc
third_database = record {
  version = pos 3;
  tables = "schema_version" ∷ "outbound_queue" ∷ [];
  event_queue = old_database.event_queue;
  outbound_queue =
      legacy_row texts (record { id = 2; json = obj; created_at = ""; sent_at = none }) ∷ [];
}

migrated_lem : migrate_2_to_3 texts second_database ≡ some third_database
unfolding migrate_2_to_3 take_over
migrated_lem = refl

migrate_2_to_3-rows_example :
    (third_database.event_queue ≡ second_database.event_queue)
    × (third_database.outbound_queue
        ≡ map (legacy_row texts) (keep (is_unsent texts) second_database.event_queue))
migrate_2_to_3-rows_example =
    migrate_2_to_3-rows texts
      (λ m n e. sym (tally_length-tally m) ∙ (ap tally_length e ∙ tally_length-tally n))
      second_database third_database (refl, (refl, tt)) migrated_lem
