-- ===== src/Examples/Incidents.antt =====
-- Runs of the incident manager, the JSON forms and the identifiers.
use scada_guard.Prelude.{
  ℕ, ◌≡◌, ◌≢◌, refl, String, true, false, none, some, List, [], ◌∷◌, eq_iff, arith, lookup,
}
use scada_guard.Model.{CheckResult, Incident, HealthStatus, seconds}
use scada_guard.Model.Json.{
  incident_from_json, incident_to_json, as_stored, incident_from_json-incident_to_json,
}
use scada_guard.Incidents.Restore.{restore_entry}
use scada_guard.Incidents.{
  IncidentPolicy, IncidentManager, Observation, Tracked, default_policy, blank_incident, blank,
  source_for, react, next_count, EventType,
}
use scada_guard.Incidents.Runs.{run, run-follow, follow, active_at, IsKeyed}
use scada_guard.Incidents.Timing.{
  react_all, react_all-spacing, react_all_stale, react-restart, spacing, last_notified_of,
}
use scada_guard.Examples.Libs.{Doc, docs, clock_texts, obj}

abbrev result : HealthStatus → CheckResult Doc
result status = record {
  check_id = "disk-c";
  component = "disk";
  status = status;
  message = "Disk";
  observed_at = 25000000;
  details = obj;
}

abbrev seen : HealthStatus → ℕ → Observation Doc
seen status at = record { result = result status; now = seconds at; uuid = "u" }

abbrev slow : IncidentPolicy
slow = record { open_delay = 10; close_delay = 0; notification_cooldown = 300 }

abbrev manager : IncidentManager Doc
manager = record { site_id = "site"; host_id = "host"; policy = default_policy; tracked = [] }

abbrev incident : Incident Doc
incident = record (blank_incident docs clock_texts) {
  incident_id = "u";
  incident_key = "site|host|disk|disk-c|health";
  active = true;
  opened_at = 25000000;
  occurrence_count = 3;
}

incident_from_json-incident_to_json_example :
    incident_from_json docs clock_texts (incident_to_json docs clock_texts incident)
    ≡ some (as_stored incident)
incident_from_json-incident_to_json_example =
    incident_from_json-incident_to_json docs clock_texts incident

-- A problem, the same problem five minutes later, and a recovery.
abbrev day : List (Observation Doc)
day =
    seen HealthStatus.critical 1000
    ∷ seen HealthStatus.critical 1300
    ∷ seen HealthStatus.ok 1310
    ∷ []

key : String
key = "site|host|disk|disk-c|health"

agent_source :
    (status : HealthStatus) (at : ℕ)
    → source_for docs clock_texts (seen status at).result ≡ some "agent"
unfolding source_for
agent_source status at = refl

manager-IsKeyed : IsKeyed manager
unfolding lookup
manager-IsKeyed k = tt

run-follow_example :
    follow key (active_at key manager) (run docs clock_texts manager day).1
    ≡ some (active_at key (run docs clock_texts manager day).0)
run-follow_example = run-follow docs clock_texts manager day key manager-IsKeyed (
  ("agent", agent_source HealthStatus.critical 1000),
  (
    ("agent", agent_source HealthStatus.critical 1300),
    (("agent", agent_source HealthStatus.ok 1310), tt),
  ),
)

key_named : key ≢ ""
unfolding key
key_named = ground (arith, eq_iff "site|host|disk|disk-c|health" "")

react_all-spacing_example :
    spacing 300 0 (react_all docs clock_texts default_policy key day none).1
    ≡ some (last_notified_of (react_all docs clock_texts default_policy key day none).0)
react_all-spacing_example =
    react_all-spacing docs clock_texts default_policy key day none tt key_named

-- An incident that was closed.
abbrev closed : Tracked Doc
closed = record (blank docs clock_texts) {
  incident = record incident { active = false; closed_at = some (seconds 900) };
  last_problem = seconds 890;
  last_notified = seconds 800;
  occurrences = 2;
}

react_all_stale_example :
    (i : Incident Doc) × ((react_all docs clock_texts slow key
        (seen HealthStatus.warning 1000
          ∷ seen HealthStatus.ok 1001
          ∷ seen HealthStatus.warning 5000
          ∷ [])
        (some closed)).1
      ≡ record { type = EventType.opened; incident = i; occurred_at = seconds 5000 } ∷ [])
    × (i.opened_at ≡ seconds 1000)
react_all_stale_example =
    react_all_stale docs clock_texts slow key closed (seen HealthStatus.warning 1000)
      (seen HealthStatus.ok 1001) (seen HealthStatus.warning 5000) "agent" refl
      (ground (arith, eq_iff "site|host|disk|disk-c|health" "")) refl (omega arith) refl refl refl
      (omega arith) (omega arith) (agent_source HealthStatus.warning 5000)

abbrev open_entry : Tracked Doc
open_entry = record closed { incident = incident; first_problem = 25000000 }

react-restart_example :
    (u : Tracked Doc) × ((react docs clock_texts slow key
        (seen HealthStatus.warning 1000)
        (some open_entry)).0
      ≡ some u)
    × (u.occurrences ≡ next_count 2)
    × (u.last_problem ≡ seconds 1000)
    × ((restore_entry docs clock_texts u.incident).occurrences ≡ 3)
    × ((restore_entry docs clock_texts u.incident).last_problem
        ≡ (restore_entry docs clock_texts incident).last_problem)
react-restart_example =
    react-restart docs clock_texts slow key open_entry (seen HealthStatus.warning 1000) refl refl
