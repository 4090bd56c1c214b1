-- ===== src/Examples/Cycle.antt =====
-- Runs of the cycle.
use scada_guard.Prelude.{
  ℕ, arith, eq_iff, insert, refl, true, false, none, some, [], ◌∷◌, lookup, ◌==◌, if◌then◌else◌,
}
use scada_guard.Model.{HealthStatus, seconds}
use scada_guard.Incidents.{
  IncidentManager, default_policy, source_for, source_of_component, process, key_for, react, write,
}
use scada_guard.Storage.Tables.{Tables}
use scada_guard.Storage.Queue.{empty}
use scada_guard.Reporter.{send}
use scada_guard.Cycle.{Sending}
use scada_guard.Cycle.Agree.{Agrees}
use scada_guard.Cycle.Report.{
  Agent, CycleWorld, report, cycle, read_data, data_source_error, items_from,
}
use scada_guard.Cycle.Report.Kept.{IsSettled, cycle-Agrees, cycle-IsSettled}
use scada_guard.Central.{thrown, returned}
use scada_guard.Cycle.Report.Delivered.{report-IsHeld}
use scada_guard.Cycle.Report.Messages.{IsHeld}
use scada_guard.Examples.Libs.{Doc, docs, whole, clock_texts, number_docs, number_of, obj}
use scada_guard.Examples.Agent.{agent, state, server, result}

abbrev no_tables : Tables Doc
no_tables = record {
  check_state = [];
  incident_rows = [];
  log_state = [];
  file_state = [];
  agent_state = [];
  discovery_state = [];
}

abbrev manager : IncidentManager Doc
manager = record { site_id = "site"; host_id = "host"; policy = default_policy; tracked = [] }

abbrev unreachable : Sending
unreachable = record {
  attempt = λ i. record {
    stop_requested = false;
    token = some "token";
    dump_throws = false;
    response = none;
    storage_fails = false;
  };
  uuid = λ i. if i == 0 then "checks" else "events";
  queue_uuid = λ i. "";
  now = λ i. seconds 5;
  number_fails = λ i. false;
  rounds = λ i. record {
    stopped = true;
    attempt = record {
      stop_requested = true;
      token = none;
      dump_throws = false;
      response = none;
      storage_fails = false;
    };
    now = 0;
  };
  steady = 0;
  flush_now = 0;
}

abbrev running : Agent Doc ℕ
running = record {
  config = agent;
  central_server = server;
  rules = [];
  boot_id = "boot";
  incidents = manager;
  tables = no_tables;
  signals = record { signal_history = []; history = [] };
  reporter = record { config = server; queue = empty; retry_attempt = 0; next_retry = 0 };
  state = state;
  last_heartbeat = seconds 4;
}

report-IsHeld_example :
    IsHeld "events"
      (report docs clock_texts whole number_docs unreachable false obj
        (result HealthStatus.critical ∷ [])
        (obj ∷ [])
        []
        running).0
unfolding send empty
report-IsHeld_example =
    report-IsHeld docs clock_texts whole number_docs unreachable obj
      (result HealthStatus.critical ∷ []) (obj ∷ []) [] running refl refl (λ e. ground arith) refl
      refl refl refl refl refl

-- A critical result, and a data source that cannot be read.
abbrev world : CycleWorld Doc ℕ
world = record {
  sources = record {
    current = thrown "no such file";
    archive = λ from. returned [];
    history_failure = λ i. none;
    analyzed_at = seconds 5;
    observed_at = seconds 5;
    compared_at = seconds 5;
    failed_at = seconds 6;
  };
  uuid = λ i. if i == 0 then "first" else "second";
  saved_at = seconds 7;
  check_fails = λ i. false;
  incident_fails = λ i. false;
  reporting_now = seconds 8;
  heartbeat_at = seconds 8;
  answered_at = seconds 9;
  sending = unreachable;
  build = record {
    agent_version = "1";
    protocol_version = 1;
    build_type = "Release";
    build_architecture = "x64";
  };
}

cycle-Agrees_example :
    let after =
      (cycle docs clock_texts whole number_docs number_of world
        (result HealthStatus.critical ∷ [])
        running).0 in
    Agrees docs clock_texts after.incidents after.tables
unfolding source_for source_of_component lookup process key_for react write insert read_data
    data_source_error items_from
cycle-Agrees_example =
    cycle-Agrees docs clock_texts whole number_docs number_of world
      (result HealthStatus.critical ∷ []) running (λ key. tt)
      (λ key other id a b e. absurd (ground arith)) (λ key. tt)
      ((λ key a e. ground arith), ((λ key a e. ground (arith, eq_iff "first" "second")), tt))
      (("agent", refl), (("agent", refl), tt)) (refl, (refl, tt))

-- The first incident cannot be saved.
abbrev lossy : CycleWorld Doc ℕ
lossy = record world { incident_fails = λ i. true }

cycle-IsSettled_example : IsSettled docs clock_texts whole number_docs (
    cycle docs clock_texts whole number_docs number_of lossy
      (result HealthStatus.critical ∷ [])
      running)
unfolding source_for source_of_component lookup process key_for react write insert read_data
    data_source_error items_from
cycle-IsSettled_example =
    cycle-IsSettled docs clock_texts whole number_docs number_of lossy
      (result HealthStatus.critical ∷ []) running (λ key. tt)
      (λ key other id a b e. absurd (ground arith)) (λ key. tt)
      ((λ key a e. ground arith), ((λ key a e. ground (arith, eq_iff "first" "second")), tt))
