-- ===== src/Lib.antt =====
-- ScadaGuard agent: the watchdog that runs beside a SCADA station (src/, include/scadaguard/).
--
-- The agent runs checks on a schedule. Each result goes to the incident manager, which turns bad
-- results into incidents and answers events; incidents, results and the positions of the checks are
-- kept in a SQLite file; messages to the central server go out at once, or into an outbound queue in
-- the same file that is flushed later. Signal samples pass the data quality analyzer, whose findings
-- are results as well.
--
-- Files:
--   Prelude     shared names, Boolean tests, lists, association lists, integers.
--   Model       include/scadaguard/model.hpp, src/model.cpp: statuses, results, incidents, their JSON forms (Model/Json), the
--               identifiers (Model/Uuid). JsonLib stands for nlohmann::json and UtcLib for std::format and
--               std::chrono::parse, each with the documented laws that the proofs use.
--   Incidents   src/incidents/incident_manager.cpp: process is key_for, then react on the entry of the key,
--               whose branches are open_incident, update_incident and on_recovery; Incidents/Restore is the
--               constructor from stored incidents and what the manager lists. Incidents/Runs and
--               Incidents/Timing state what whole sequences of results do.
--   Storage     src/storage/local_storage.cpp: Storage/Queue is the table outbound_queue as the list of
--               its rows, Storage/Tables and Storage/Signals the other tables as maps, Storage/Migrations the
--               migrations of the schema. One function is one method; a transaction is one function. The
--               mutex of the class makes the calls sequential.
--   Reporter    src/reporting/central_reporter.cpp: send_or_queue and flush, with the answers of the server, the
--               stop token, the clocks and what throws (dump, the storage) as arguments.
--   Quality     src/quality/data_quality.cpp: analyze and compare_archive. RealLib stands for double.
--   Checks      src/checks/checks.cpp: what each check makes of the answers of Windows and of the file system:
--               processes and services in Checks, ports and disks in Checks/Probes, files in Checks/Files,
--               logs in Checks/Logs. TextLib stands for the texts of the C++ runtime and of Windows.
--   Scheduler   src/checks/scheduler.cpp: each section under a lock is a function on the slots, the queue and the
--               workers' items; Step lets the threads take these sections in any order.
--   State       src/http/http_server.cpp: AgentState, what the local API tells of the agent.
--   Config      src/configuration/config.cpp: parse_config is Config/Parse (the sections), Config/Parse/Checks (the
--               items of the arrays) and Config/Parse/Whole; validate_config, which collects the errors of a
--               configuration, is Config and Config/Validate; configuration_hash is Config/Hash. ReadLib stands
--               for the conversions of nlohmann::json, each with the text of its exception.
--   Discovery   src/discovery/: the records of include/scadaguard/discovery.hpp in Discovery, the tests on names and
--               paths in Discovery/Names; MasterScadaDiscovery::scan is Discovery/Roots (where the search
--               starts), Discovery/Walk (the loop over the directories) and Discovery/Select (the archive
--               that is selected, the status), which Discovery/Select composes. Discovery/Schema is
--               src/discovery/archive_schema_analyzer.cpp. PathLib stands for std::filesystem::path,
--               DiscoveryEnvironment for the answers of Windows, Clockwork for the clock and the stop token.
--   DataSources src/collectors/data_sources.cpp: the mock and CSV sources, and the SQLite source but for its
--               query.
--   Central     src/configuration/central_configuration.cpp in Central, and what src/application/application.cpp
--               does with it: the candidate in Central/Apply, poll_central_configuration in Central/Poll, the
--               constructor with a saved configuration in Central/Restore, perform_discovery up to the saved report
--               in Central/Discover. An exception is the thrown text
--               of a Result. DocLib stands for more of nlohmann::json and for SHA-256.
--   Cycle       Application::Impl::cycle of src/application/application.cpp from the results of the checks on: the
--               loop that records the results in Cycle, the signals, the messages and the whole in Cycle/Report.
--   Examples    instances of the interfaces and concrete runs.
--
-- Exceptions are none, beside the state that they leave, or the thrown text of a Result. Times are ticks
-- of 100 ns since the epoch; a time_point before the epoch does not occur. Two loops need fuel, one for
-- each round: that over the directories in Discovery/Walk, for which Discovery/Scan proves that each scan
-- has fuel that is enough, and that of the migrations, for which Storage/Migrations/Rounds proves that
-- three rounds are enough; all other loops go over lists. The scores of the discovery are sums of small
-- numbers and are not bounded by the width of int.
--
-- Not modelled: the wrappers of sqlite3, httplib and the Windows API, the threads of the application, the
-- Windows discovery, the service host, and the central server in Python, which are calls of libraries or
-- other programs; load_config, which reads a file; the command line; the JSON form of the discovery
-- report; of the scheduler, the waiting on clocks and futures. The calls of the discovery environment are
-- taken not to throw, but for the listing of a directory.
--
-- The exceptions of nlohmann::json::dump and of SQLite are arguments for the messages and the flush of the
-- reporter, enqueue_event, save_check, save_incident, the savings of the samples in a cycle and the saving
-- of the central configuration. They are taken not to occur elsewhere: in the queries, the migrations, the
-- saving of the states of the checks and of the discovery report.
pub mod Prelude
pub mod Model
pub mod Incidents
pub mod Storage
pub mod Reporter
pub mod Quality
pub mod Checks
pub mod State
pub mod Config
pub mod Scheduler
pub mod Discovery
pub mod DataSources
pub mod Central
pub mod Cycle
mod Examples
