-- ===== src/Incidents.antt =====
-- include/scadaguard/incident_manager.hpp and src/incidents/incident_manager.cpp: what becomes of a
-- check result. The clock and the random device are arguments; an exception of the JSON library
-- comes back as `none` beside the state that it leaves.
pub mod Restore
pub mod Runs
pub mod Timing
use Prim.Native.String.{◌++◌ as append_text}
use scada_guard.Prelude.{
  ℕ, suc, ◌+◌, ◌%◌, ◌^◌, String, Bool, true, false, not, ◌&&◌, Option, none, some, List, [], ◌∷◌,
  ◌++◌, Map, lookup, insert, erase, values, keep, str_eq, leb, ◌==◌, if◌then◌else◌, map,
}
use scada_guard.Model.{HealthStatus, CheckResult, Incident, JsonLib, UtcLib, epoch, seconds}

-- Durations are in seconds.
pub record IncidentPolicy : Type 0 where
  pub open_delay : ℕ
  pub close_delay : ℕ
  pub notification_cooldown : ℕ

abbrev pub default_policy : IncidentPolicy
default_policy = record { open_delay = 0; close_delay = 0; notification_cooldown = 300 }

-- The texts "opened", "reminder" and "recovered" of the events.
pub data EventType : Type 0 where
  opened reminder recovered : EventType

pub record IncidentEvent (J : Type 0) : Type 0 where
  pub type : EventType
  pub incident : Incident J
  pub occurred_at : ℕ

pub record Tracked (J : Type 0) : Type 0 where
  pub incident : Incident J
  pub first_problem : ℕ
  pub last_problem : ℕ
  pub recovery_since : Option ℕ
  pub last_notified : ℕ
  pub occurrences : ℕ

pub record IncidentManager (J : Type 0) : Type 0 where
  pub site_id : String
  pub host_id : String
  pub policy : IncidentPolicy
  pub tracked : Map (Tracked J)

-- A result with the time of its processing and the identifier that the random device would give.
pub record Observation (J : Type 0) : Type 0 where
  pub result : CheckResult J
  pub now : ℕ
  pub uuid : String

abbrev pub is_problem : HealthStatus → Bool
is_problem HealthStatus.ok = false
is_problem _ = true

infixl 65 ◌<>◌
abbrev ◌<>◌ : String → String → String
◌<>◌ = append_text

-- `++t.occurrences` on a `uint64_t`
abbrev pub next_count : ℕ → ℕ
next_count n = (n + 1) % 2 ^ 64

-- The `source` of a result that names none.
unfoldable pub source_of_component : String → String
source_of_component component =
    if str_eq component "data-quality"
    then "data_quality"
    else if str_eq component "archive"
    then "archive"
    else if str_eq component "opcua"
    then "opcua"
    else if str_eq component "internal"
    then "system"
    else "agent"

module _ {J : Type 0} (json : JsonLib J) (utc : UtcLib) where
  open json use {object, text, number, put, at?, get_text, value_text}
  open utc use {format_utc}

  abbrev pub blank_incident : Incident J
  blank_incident = record {
    incident_id = "";
    incident_key = "";
    component = "";
    severity = HealthStatus.unknown;
    title = "";
    description = "";
    opened_at = epoch;
    closed_at = none;
    active = false;
    details = object;
    source = "agent";
    last_seen_at = epoch;
    occurrence_count = 1;
  }

  abbrev pub blank : Tracked J
  blank = record {
    incident = blank_incident;
    first_problem = epoch;
    last_problem = epoch;
    recovery_since = none;
    last_notified = epoch;
    occurrences = 0;
  }

  unfoldable pub key_for : IncidentManager J → CheckResult J → Option String
  key_for m r = elim (value_text r.details "problem_type" "health") [
    | none ↦ none
    | some problem ↦
        some (
          m.site_id <> "|" <> m.host_id <> "|" <> r.component <> "|" <> r.check_id <> "|"
          <> problem)
  ]

  unfoldable pub source_for : CheckResult J → Option String
  unfolding source_of_component
  source_for r = elim (at? r.details "source") [
    | none ↦ some (source_of_component r.component)
    | some v ↦ get_text v
  ]

  -- `details["last_detected_at"] = …; details["occurrences"] = …`
  detected : J → ℕ → ℕ → J
  detected d now n = put (put d "last_detected_at" (text (format_utc now))) "occurrences" (number n)

  -- What every problem does to its entry.
  observe : ℕ → Tracked J → Tracked J
  observe now t = record t {
    first_problem = if t.first_problem == epoch then now else t.first_problem;
    last_problem = now;
    recovery_since = none;
    occurrences = next_count t.occurrences;
  }

  open_incident : String → Observation J → Tracked J → Tracked J × Option (List (IncidentEvent J))
  unfolding detected
  open_incident key o t =
      let fresh : Incident J = record blank_incident {
        incident_id = o.uuid;
        incident_key = key;
        component = o.result.component;
        severity = o.result.status;
        title = o.result.message;
        description = o.result.message;
        opened_at = t.first_problem;
        closed_at = none;
        active = true;
        details = o.result.details;
      } in
      elim (source_for o.result) [
        | none ↦ (record t { incident = fresh }, none)
        | some source ↦
            let i : Incident J = record fresh {
              source = source;
              last_seen_at = o.now;
              occurrence_count = t.occurrences;
              details = detected o.result.details o.now t.occurrences;
            } in
            (
              record t { incident = i; last_notified = o.now },
              some (record { type = EventType.opened; incident = i; occurred_at = o.now } ∷ []),
            )
      ]

  update_incident : IncidentPolicy → Observation J → Tracked J → Tracked J × List (IncidentEvent J)
  unfolding detected
  update_incident p o t =
      let i : Incident J = record (t.incident) {
        severity = o.result.status;
        description = o.result.message;
        details = detected o.result.details o.now t.occurrences;
      } in
      if leb (t.last_notified + seconds p.notification_cooldown) o.now
      then (
        record t { incident = i; last_notified = o.now },
        record { type = EventType.reminder; incident = i; occurred_at = o.now } ∷ [],
      )
      else (record t { incident = i }, [])

  abbrev since : Option ℕ → ℕ → ℕ
  since none now = now
  since (some t) now = t

  on_recovery : IncidentPolicy → Observation J → Tracked J → Tracked J × List (IncidentEvent J)
  on_recovery p o t =
      let start = since t.recovery_since o.now in
      let waiting : Tracked J = record t { recovery_since = some start } in
      let i : Incident J = record (t.incident) {
        active = false;
        closed_at = some o.now;
        details = put t.incident.details "recovered_at" (text (format_utc o.now));
      } in
      if leb (start + seconds p.close_delay) o.now
      then (
        record waiting { incident = i; first_problem = epoch },
        record { type = EventType.recovered; incident = i; occurred_at = o.now } ∷ [],
      )
      else (waiting, [])

  -- The branches of `process` on the entry of its key; `none` is no entry.
  unfoldable pub react :
      IncidentPolicy
      → String
      → Observation J
      → Option (Tracked J)
      → Option (Tracked J) × Option (List (IncidentEvent J))
  unfolding observe open_incident update_incident on_recovery
  react p key o entry =
      let t : Tracked J = elim entry [ none ↦ blank | some t ↦ t ] in
      let seen = observe o.now t in
      if is_problem o.result.status
      then (if not seen.incident.active && leb (seen.first_problem + seconds p.open_delay) o.now
          then (let (t', es) = open_incident key o seen in (some t', es))
          else if seen.incident.active
          then (let (t', es) = update_incident p o seen in (some t', some es))
          else (some seen, some []))
      else if t.incident.active
      then (let (t', es) = on_recovery p o t in (some t', some es))
      else if str_eq t.incident.incident_key ""
      then (none, some [])
      else (some t, some [])

  -- `tracked_[key] = …` or `tracked_.erase(key)`.
  unfoldable pub write : String → Option (Tracked J) → Map (Tracked J) → Map (Tracked J)
  write key none m = erase key m
  write key (some t) m = insert key t m

  unfoldable pub process :
      IncidentManager J → Observation J → IncidentManager J × Option (List (IncidentEvent J))
  process m o = elim (key_for m o.result) [
    | none ↦ (m, none)
    | some key ↦
        let (entry, es) = react m.policy key o (lookup key m.tracked) in
        (record m { tracked = write key entry m.tracked }, es)
  ]
