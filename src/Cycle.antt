-- ===== src/Cycle.antt =====
-- `Application::Impl::cycle` of src/application/application.cpp, from the results of the checks on:
-- the signals, the incidents, and what is reported.
pub mod Agree
pub mod Incidents
pub mod Whole
pub mod Report
use scada_guard.Prelude.{
  ℕ, ◌+◌, ◌*◌, String, Bool, true, false, not, ◌||◌, Option, none, some, List, [], ◌∷◌, ◌++◌, map,
  Map, length, ◌==◌, if◌then◌else◌, ℤ, sub_ℕ, leb_ℤ, scale,
}
use scada_guard.Model.{
  HealthStatus, CheckResult, Incident, SignalSample, JsonLib, UtcLib, epoch, ticks_per_second,
}
use scada_guard.Model.Json.{result_to_json, incident_to_json}
use scada_guard.Incidents.{IncidentManager, IncidentEvent, EventType, Observation, process}
use scada_guard.Storage.Tables.{Tables, save_check, save_incident}
use scada_guard.Storage.Signals.{RealJson, save_signal_history, sample_to_json}
use scada_guard.Storage.Queue.{next_sequence_number}
use scada_guard.Quality.{SignalRule, History, analyze}
use scada_guard.Quality.Archive.{compare_archive}
use scada_guard.Quality.Real.{RealLib}
use scada_guard.State.{AgentConfig}
use scada_guard.Reporter.{
  Reporter, Attempt, Round, send_check_results, send_incidents, send_signal_samples, send_heartbeat,
}
use scada_guard.Central.{Result, thrown, returned}

-- `last == TimePoint{} || now - last >= interval`, for an interval of hours or seconds.
abbrev is_due : ℕ → ℕ → ℤ → ℕ → Bool
is_due last now interval seconds_of_unit =
    last == epoch || leb_ℤ (scale interval (seconds_of_unit * ticks_per_second)) (sub_ℕ now last)

unfoldable pub discovery_is_due : ℕ → ℕ → ℤ → Bool
discovery_is_due last_discovery now hours = is_due last_discovery now hours 3600

unfoldable pub heartbeat_is_due : ℕ → ℕ → ℤ → Bool
heartbeat_is_due last_heartbeat now interval = is_due last_heartbeat now interval 1

abbrev event_text : EventType → String
event_text EventType.opened = "opened"
event_text EventType.reminder = "reminder"
event_text EventType.recovered = "recovered"

-- What the reading of the signals changes.
pub record Signals (J R : Type 0) : Type 0 where
  pub signal_history : Map J
  pub history : Map (History R)

-- The answers of the data sources, the exceptions of the savings of the samples, and the clock at its
-- calls.
pub record DataWorld (R : Type 0) : Type 0 where
  pub current : Result (List (SignalSample R))
  pub archive : ℤ → Result (List (SignalSample R))
  pub history_failure : ℕ → Option String
  pub analyzed_at : ℕ
  pub observed_at : ℕ
  pub compared_at : ℕ
  pub failed_at : ℕ

-- What the `try` block leaves: the results that it added and the samples.
pub record DataRead (J R : Type 0) : Type 0 where
  pub signals : Signals J R
  pub online : List (SignalSample R)
  pub results : List (CheckResult J)

-- A result of a cycle, with the identifier that the random device would give, the clock at the saving
-- of an incident, and whether the savings of the result and of an incident throw.
pub record Item (J : Type 0) : Type 0 where
  pub result : CheckResult J
  pub uuid : String
  pub saved_at : ℕ
  pub check_fails : Bool
  pub incident_fails : Bool

-- What the loop over the results leaves; `completed` is `false` after an exception.
pub record Recorded (J : Type 0) : Type 0 where
  pub incidents : IncidentManager J
  pub tables : Tables J
  pub incident_events : List J
  pub completed : Bool

-- What the reporting meets: the attempts, identifiers and clocks of its messages, by their number,
-- and whether the storage throws when it is to number them.
pub record Sending : Type 0 where
  pub attempt : ℕ → Attempt
  pub uuid : ℕ → String
  pub queue_uuid : ℕ → String
  pub now : ℕ → ℕ
  pub number_fails : ℕ → Bool
  pub rounds : ℕ → Round
  pub steady : ℕ
  pub flush_now : ℕ

module _ {J : Type 0} (json : JsonLib J) (utc : UtcLib) where
  open json use {object, text, number, put, array}
  open utc use {format_utc}

  -- `make_message`, with the identifier, the number and the time that it draws.
  unfoldable pub make_message : AgentConfig → String → String → ℕ → ℕ → String → J → J
  make_message agent boot_id uuid sequence now kind payload =
      put
        (put
          (put
            (put
              (put
                (put
                  (put
                    (put (put (put object "message_id" (text uuid)) "protocol_version" (number 1))
                      "message_kind" (text kind))
                    "agent_id" (text agent.agent_id))
                  "site_id" (text agent.site_id))
                "host_id" (text agent.host_id))
              "boot_id" (text boot_id))
            "sequence_number" (number sequence))
          "created_at" (text (format_utc now)))
        "payload" payload

  unfoldable pub items_of : List J → J
  items_of items = put object "items" (array items)

  -- An element of `incident_events`.
  unfoldable pub event_to_json : IncidentEvent J → J
  event_to_json e =
      put
        (put (put object "type" (text (event_text e.type))) "occurred_at"
          (text (format_utc e.occurred_at)))
        "incident" (incident_to_json json utc e.incident)

  -- The inner loop: the incidents of the events are saved. The second answer is `false` after an
  -- exception.
  unfoldable pub save_events : Bool → ℕ → List (IncidentEvent J) → Tables J → Tables J × Bool
  save_events fails now [] t = (t, true)
  save_events fails now (e ∷ es) t = elim (save_incident json utc fails e.incident now t) [
    | none ↦ (t, false)
    | some t' ↦ save_events fails now es t'
  ]

  abbrev pub observation : Item J → Observation J
  observation item = record {
    result = item.result;
    now = item.result.observed_at;
    uuid = item.uuid;
  }

  -- The loop over the results. The manager has processed a result when its incident is saved.
  unfoldable pub record_results : List (Item J) → IncidentManager J → Tables J → List J → Recorded J
  unfolding save_events event_to_json
  record_results [] m t documents = record {
    incidents = m;
    tables = t;
    incident_events = documents;
    completed = true;
  }
  record_results (item ∷ items) m t documents =
      let (m', events) = process json utc m (observation item) in
      let stopped : IncidentManager J → Tables J → Recorded J = λ manager tables. record {
        incidents = manager;
        tables = tables;
        incident_events = documents;
        completed = false;
      } in
      elim (save_check json utc item.check_fails item.result t) [
        | none ↦ stopped m t
        | some t' ↦ elim events [
          | none ↦ stopped m' t'
          | some es ↦
              let (t'', saved) = save_events item.incident_fails item.saved_at es t' in
              let rest = record_results items m' t'' (documents ++ map event_to_json es) in
              if saved then rest else stopped m' t''
        ]
      ]

  -- `reporter->send_…(make_message(…), stop)` for the `i`th message, which draws a number first.
  unfoldable pub send_message :
      (J → Attempt → String → ℕ → Reporter J → Reporter J × Option Bool)
      → AgentConfig
      → String
      → Sending
      → ℕ
      → String
      → J
      → Reporter J
      → Reporter J × Option Bool
  unfolding make_message
  send_message to agent boot_id world i kind payload r =
      let (queue, sequence) = next_sequence_number r.queue in
      let answer =
        to (make_message agent boot_id (world.uuid i) sequence (world.now i) kind payload)
          (world.attempt i) (world.queue_uuid i) (world.now i) (record r { queue = queue }) in
      if world.number_fails i then (r, none) else answer
