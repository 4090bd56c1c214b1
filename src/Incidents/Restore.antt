-- ===== src/Incidents/Restore.antt =====
-- The constructor of the incident manager from stored incidents, and what it tells of its incidents.
use scada_guard.Prelude.{
  String, Bool, not, List, [], ◌∷◌, Map, insert, values, keep, map, str_eq, ◌==◌, if◌then◌else◌,
  none,
}
use scada_guard.Model.{Incident, JsonLib, UtcLib, epoch}
use scada_guard.Incidents.{IncidentPolicy, Tracked, IncidentManager}

module _ {J : Type 0} (json : JsonLib J) (utc : UtcLib) where
  -- The constructor from stored incidents.
  unfoldable pub restore_entry : Incident J → Tracked J
  restore_entry i =
      let last = if i.last_seen_at == epoch then i.opened_at else i.last_seen_at in
      record {
        incident = i;
        first_problem = if i.active then i.opened_at else epoch;
        last_problem = last;
        recovery_since = none;
        last_notified = last;
        occurrences = if i.active then i.occurrence_count else 0;
      }

  unfoldable pub restore : List (Incident J) → Map (Tracked J) → Map (Tracked J)
  unfolding restore_entry
  restore [] m = m
  restore (i ∷ is) m = restore is (insert i.incident_key (restore_entry i) m)

  pub incident_manager : String → String → IncidentPolicy → List (Incident J) → IncidentManager J
  unfolding restore
  incident_manager site host p stored = record {
    site_id = site;
    host_id = host;
    policy = p;
    tracked = restore stored [];
  }

  is_shown : Tracked J → Bool
  is_shown t = not (str_eq t.incident.incident_key "")

  incident_of : Tracked J → Incident J
  incident_of t = t.incident

  unfoldable pub incidents : IncidentManager J → List (Incident J)
  unfolding is_shown incident_of
  incidents m = map incident_of (keep is_shown (values m.tracked))

  is_active : Incident J → Bool
  is_active i = i.active

  unfoldable pub active_incidents : IncidentManager J → List (Incident J)
  unfolding incidents is_active
  active_incidents m = keep is_active (incidents m)
