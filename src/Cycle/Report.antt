-- ===== src/Cycle/Report.antt =====
-- The rest of the cycle: the reading of the signals, the messages to the central server, and the
-- whole.
pub mod Messages
pub mod Delivered
pub mod Kept
use scada_guard.Prelude.{
  ℕ, suc, ◌+◌, ◌*◌, String, Bool, true, false, not, Option, none, some, List, [], ◌∷◌, ◌++◌, map,
  Map, length, ◌==◌, if◌then◌else◌, ℤ, sub_ℕ,
}
use scada_guard.Model.{
  HealthStatus, CheckResult, Incident, SignalSample, JsonLib, UtcLib, ticks_per_second,
}
use scada_guard.Model.Json.{result_to_json, incident_to_json}
use scada_guard.Incidents.{IncidentManager}
use scada_guard.Incidents.Restore.{incidents}
use scada_guard.Storage.Tables.{Tables}
use scada_guard.Storage.Signals.{RealJson, save_signal_history, sample_to_json}
use scada_guard.Storage.Queue.{pending_event_count, oldest_pending_event_at}
use scada_guard.Quality.{SignalRule, History, analyze}
use scada_guard.Quality.Archive.{compare_archive}
use scada_guard.Quality.Real.{RealLib}
use scada_guard.State.{AgentConfig, AgentState, BuildInfo, update, health}
use scada_guard.Reporter.{
  Reporter, Attempt, CentralServerConfig, send_check_results, send_incidents, send_signal_samples,
  send_heartbeat,
}
use scada_guard.Central.{Result, thrown, returned}
use scada_guard.Cycle.{
  Signals, DataWorld, DataRead, Item, Recorded, Sending, record_results, send_message, items_of,
  heartbeat_is_due,
}

-- The state of a cycle. The outbound queue is that of the reporter.
pub record Agent (J R : Type 0) : Type 0 where
  pub config : AgentConfig
  pub central_server : CentralServerConfig
  pub rules : List (SignalRule R)
  pub boot_id : String
  pub incidents : IncidentManager J
  pub tables : Tables J
  pub signals : Signals J R
  pub reporter : Reporter J
  pub state : AgentState J R
  pub last_heartbeat : ℕ

-- What a cycle meets after the checks ran.
pub record CycleWorld (J R : Type 0) : Type 0 where
  pub sources : DataWorld R
  pub uuid : ℕ → String
  pub saved_at : ℕ
  pub check_fails : ℕ → Bool
  pub incident_fails : ℕ → Bool
  pub reporting_now : ℕ
  pub heartbeat_at : ℕ
  pub answered_at : ℕ
  pub sending : Sending
  pub build : BuildInfo

-- A call that does not happen after an exception.
abbrev pub and_then :
    {J : Type 0}
    → Reporter J × Option Bool
    → (Reporter J → Reporter J × Option Bool)
    → Reporter J × Option Bool
and_then (r, none) call = (r, none)
and_then (r, some sent) call = call r

abbrev pub send_if :
    {J : Type 0}
    → Bool
    → (Reporter J → Reporter J × Option Bool)
    → Reporter J
    → Reporter J × Option Bool
send_if condition call r = let answer = call r in if condition then answer else (r, some false)

module _ {J R : Type 0} (json : JsonLib J) (utc : UtcLib) (real : RealLib J R)
    (numbers : RealJson J R) where
  open json use {object, text, put, array}

  -- The loop over the samples, up to the first saving that throws.
  save_samples : (ℕ → Option String) → ℕ → List (SignalSample R) → Map J → Map J × Option String
  save_samples failure i [] table = (table, none)
  save_samples failure i (s ∷ ss) table = elim (failure i) [
    | none ↦ save_samples failure (suc i) ss (save_signal_history json utc numbers s table)
    | some reason ↦ (table, some reason)
  ]

  unfoldable pub data_source_error : String → ℕ → CheckResult J
  data_source_error reason now = record {
    check_id = "data-source";
    component = "data-source";
    status = HealthStatus.unknown;
    message = reason;
    observed_at = now;
    details = put object "problem_type" (text "data_source_error");
  }

  -- The comparison with the archive, from a minute before the first sample on.
  compare_online :
      List (SignalRule R) → DataWorld R → List (SignalSample R) → Result (List (CheckResult J))
  compare_online rules world [] = returned []
  compare_online rules world (first ∷ rest) =
      elim (world.archive (sub_ℕ first.source_timestamp (60 * ticks_per_second))) [
        | thrown reason ↦ thrown reason
        | returned archived ↦
            returned (compare_archive json real (first ∷ rest) archived rules world.compared_at)
      ]

  -- The `try` block and its handler.
  unfoldable pub read_data : List (SignalRule R) → DataWorld R → Signals J R → DataRead J R
  unfolding save_samples data_source_error compare_online
  read_data rules world signals = elim world.current [
    | thrown reason ↦ record {
      signals = signals;
      online = [];
      results = data_source_error reason world.failed_at ∷ [];
    }
    | returned online ↦
        let (table, failure) = save_samples world.history_failure 0 online signals.signal_history in
        let (history, found) =
          analyze json real online rules world.analyzed_at world.observed_at signals.history in
        elim failure [
          | some reason ↦ record {
            signals = record signals { signal_history = table };
            online = online;
            results = data_source_error reason world.failed_at ∷ [];
          }
          | none ↦ record {
            signals = record { signal_history = table; history = history };
            online = online;
            results =
                found ++ elim (compare_online rules world online) as (λ o. List (CheckResult J)) [
                  | thrown reason ↦ data_source_error reason world.failed_at ∷ []
                  | returned compared ↦ compared
                ];
          }
        ]
  ]

  -- The results with what each of them meets.
  unfoldable pub items_from : CycleWorld J R → ℕ → List (CheckResult J) → List (Item J)
  items_from world i [] = []
  items_from world i (r ∷ rs) =
      record {
        result = r;
        uuid = world.uuid i;
        saved_at = world.saved_at;
        check_fails = world.check_fails i;
        incident_fails = world.incident_fails i;
      }
      ∷ items_from world (suc i) rs

  unfoldable pub send_incident_events :
      Sending → Agent J R → List J → Reporter J → Reporter J × Option Bool
  send_incident_events world agent events r =
      send_message json utc (send_incidents json) agent.config agent.boot_id world 1 "incidents"
        (items_of json utc events) r

  -- The messages of a cycle with an enabled server; the second answer is `none` after an exception.
  unfoldable pub report :
      Sending
      → Bool
      → J
      → List (CheckResult J)
      → List J
      → List (SignalSample R)
      → Agent J R
      → Reporter J × Option Bool
  unfolding send_incident_events
  report world beats health_document results events online agent =
      let items = items_of json utc in
      let send_kind = send_message json utc in
      let checks =
        send_kind (send_check_results json) agent.config agent.boot_id world 0 "check_results"
          (items (map (result_to_json json utc) results)) agent.reporter in
      let opened =
        and_then checks
          (send_if (not (length events == 0)) (send_incident_events world agent events)) in
      let samples = and_then opened (
        send_if (not (length online == 0)) (
          send_kind (send_signal_samples json) agent.config agent.boot_id world 2 "signal_samples"
            (items (map (sample_to_json json utc numbers) online)))) in
      and_then samples (
        send_if beats (
          send_kind
            (λ value attempt uuid now.
              send_heartbeat json value attempt uuid world.rounds world.steady world.flush_now)
            agent.config agent.boot_id world 3 "heartbeat" health_document))

  -- Where a cycle ends: by an exception while the results are recorded, without a server, by an
  -- exception of a message, or after all messages.
  unfoldable pub end_cycle :
      Bool
      → Bool
      → Option Bool
      → Agent J R
      → Agent J R
      → Agent J R
      → Agent J R
      → J
      → Agent J R × Option J
  end_cycle false enabled sent kept seen told late answer = (kept, none)
  end_cycle true false sent kept seen told late answer = (seen, some answer)
  end_cycle true true none kept seen told late answer = (told, none)
  end_cycle true true (some last) kept seen told late answer = (late, some answer)

  -- A cycle from the results of the checks on; `none` is an exception beside the state that it
  -- leaves.
  unfoldable pub cycle :
      (ℤ → J) → CycleWorld J R → List (CheckResult J) → Agent J R → Agent J R × Option J
  unfolding items_from
  cycle number_ℤ world results agent =
      let read = read_data agent.rules world.sources agent.signals in
      let all_results = results ++ read.results in
      let recorded =
        record_results json utc (items_from world 0 all_results) agent.incidents agent.tables [] in
      let all_incidents = incidents json utc recorded.incidents in
      let queue = agent.reporter.queue in
      let state =
        update all_results all_incidents read.online (pending_event_count queue)
          (oldest_pending_event_at queue) agent.state in
      let kept : Agent J R = record agent {
        incidents = recorded.incidents;
        tables = recorded.tables;
        signals = read.signals;
      } in
      let seen : Agent J R = record kept { state = state } in
      let document : ℕ → J = λ now. health json utc number_ℤ world.build now state in
      let beats =
        heartbeat_is_due agent.last_heartbeat world.reporting_now
          agent.central_server.heartbeat_interval_seconds in
      let answer =
        put
          (put (put object "health" (document world.answered_at)) "checks"
            (array (map (result_to_json json utc) all_results)))
          "incidents" (array (map (incident_to_json json utc) all_incidents)) in
      let (reporter, sent) =
        report world.sending beats (document world.heartbeat_at) all_results
          recorded.incident_events read.online seen in
      let told : Agent J R = record seen { reporter = reporter } in
      let late : Agent J R = record told {
        last_heartbeat = if beats then world.reporting_now else agent.last_heartbeat;
      } in
      end_cycle recorded.completed agent.central_server.enabled sent kept seen told late answer
