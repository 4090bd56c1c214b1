-- ===== src/Incidents/Timing.antt =====
-- When an incident opens, reminds and closes, and what a restart keeps of it.
use scada_guard.Prelude.{
  ℕ, String, true, false, Option, none, some, List, [], ◌∷◌, ◌++◌, ◌≡◌, ◌≢◌, refl, ◌∙◌, ◌+◌, ◌≤◌,
  ◌<◌, ◌⊎◌, eq_iff, leb, arith,
}
use scada_guard.Model.{Incident, JsonLib, UtcLib, epoch, seconds}
use scada_guard.Incidents.Restore.{restore_entry}
use scada_guard.Incidents.{
  IncidentPolicy, IncidentEvent, Tracked, Observation, EventType, react, source_for, is_problem,
  next_count, blank, detected, observe, update_incident,
}

-- The time of the last event that tells somebody of a problem, counted on from `last`; `none` if a
-- reminder comes sooner than the cooldown after the one before it.
pub spacing : {J : Type 0} → ℕ → ℕ → List (IncidentEvent J) → Option ℕ
spacing cooldown last [] = some last
spacing cooldown last (e ∷ es) = elim e.type [
  | EventType.opened ↦ spacing cooldown e.occurred_at es
  | EventType.reminder ↦ elim (leb (last + seconds cooldown) e.occurred_at) [
    | true ↦ spacing cooldown e.occurred_at es
    | false ↦ none
  ]
  | EventType.recovered ↦ spacing cooldown last es
]

spacing-append :
    {J : Type 0} (c a b : ℕ) (es fs : List (IncidentEvent J))
    → spacing c a es ≡ some b
    → spacing c a (es ++ fs) ≡ spacing c b fs
unfolding spacing
spacing-append c a b [] fs h = ground arith
spacing-append c a b (e ∷ es) fs h =
    ground (arith, spacing-append c a b es fs, spacing-append c e.occurred_at b es fs)

abbrev pub last_notified_of : {J : Type 0} → Option (Tracked J) → ℕ
last_notified_of none = epoch
last_notified_of (some t) = t.last_notified

-- An entry that has had no incident yet has told nobody.
abbrev pub IsSilentEntry : {J : Type 0} → Option (Tracked J) → Type 0
IsSilentEntry none = Unit {0}
IsSilentEntry (some t) =
    (t.incident.incident_key ≢ "") ⊎ ((t.last_notified ≡ epoch) × (t.incident.active ≡ false))

abbrev emitted : {J : Type 0} → Option (List (IncidentEvent J)) → List (IncidentEvent J)
emitted none = []
emitted (some es) = es

module _ {J : Type 0} (json : JsonLib J) (utc : UtcLib) (p : IncidentPolicy) (key : String) where
  -- Any number of results for one key.
  pub react_all :
      List (Observation J) → Option (Tracked J) → Option (Tracked J) × List (IncidentEvent J)
  react_all [] entry = (entry, [])
  react_all (o ∷ os) entry =
      let (entry', es) = react json utc p key o entry in
      let (entry'', fs) = react_all os entry' in (entry'', emitted es ++ fs)

  react-IsSilentEntry :
      (o : Observation J) (entry : Option (Tracked J))
      → IsSilentEntry entry
      → key ≢ ""
      → IsSilentEntry (react json utc p key o entry).0
  unfolding react
  react-IsSilentEntry o none h k = ground arith
  react-IsSilentEntry o (some t) h k = ground arith

  react-spacing :
      (o : Observation J) (entry : Option (Tracked J))
      → IsSilentEntry entry
      → spacing p.notification_cooldown
          (last_notified_of entry)
          (emitted (react json utc p key o entry).1)
        ≡ some (last_notified_of (react json utc p key o entry).0)
  unfolding react spacing
  react-spacing o none h = ground arith
  react-spacing o (some t) h = ground (arith, eq_iff t.incident.incident_key "")

  -- Whatever the results for a key that is not empty and their times, from no entry or one that
  -- has held an incident or told nobody: each `reminder` comes at least the cooldown after the
  -- `opened` or `reminder` before it, also when the incident closed and opened in between.
  pub react_all-spacing :
      (os : List (Observation J)) (entry : Option (Tracked J))
      → IsSilentEntry entry
      → key ≢ ""
      → spacing p.notification_cooldown (last_notified_of entry) (react_all os entry).1
        ≡ some (last_notified_of (react_all os entry).0)
  unfolding react_all spacing
  react_all-spacing [] entry h k = refl
  react_all-spacing (o ∷ os) entry h k =
      spacing-append _ _ _ (emitted (react json utc p key o entry).1) _ (react-spacing o entry h)
      ∙ react_all-spacing os (react json utc p key o entry).0 (react-IsSilentEntry o entry h k) k

  -- The entry of a first problem that is not open yet.
  abbrev waiting : ℕ → Tracked J
  waiting now = record (blank json utc) { first_problem = now; last_problem = now; occurrences = 1 }

  react_quiet :
      (o : Observation J)
      → is_problem o.result.status ≡ true
      → epoch < p.open_delay
      → react json utc p key o none ≡ (some (waiting o.now), some [])
  unfolding react
  react_quiet o bad slow = ground arith

  react_again :
      (b : Observation J) (now : ℕ)
      → is_problem b.result.status ≡ false
      → react json utc p key b (some (waiting now)) ≡ (none, some [])
  unfolding react
  react_again b now good = rw (good, react)

  -- A problem that is seen once, and gone at the next result, neither opens an incident nor leaves an
  -- entry behind, if the open delay is not zero and there was no entry.
  pub react_transient :
      (a b : Observation J)
      → is_problem a.result.status ≡ true
      → is_problem b.result.status ≡ false
      → epoch < p.open_delay
      → react_all (a ∷ b ∷ []) none ≡ (none, [])
  unfolding react_all
  react_transient a b bad good slow = rw (react_quiet a bad slow, react_again b a.now good)

  -- A closed incident whose key had another problem at `now`.
  abbrev blip : Tracked J → ℕ → Tracked J
  blip t now = record t {
    first_problem = now;
    last_problem = now;
    recovery_since = none;
    occurrences = next_count t.occurrences;
  }

  react-blip :
      (t : Tracked J) (a : Observation J)
      → t.incident.active ≡ false
      → t.first_problem ≡ epoch
      → is_problem a.result.status ≡ true
      → epoch < p.open_delay
      → react json utc p key a (some t) ≡ (some (blip t a.now), some [])
  unfolding react
  react-blip t a closed reset bad slow = ground arith

  react_gone :
      (t : Tracked J) (b : Observation J)
      → t.incident.active ≡ false
      → t.incident.incident_key ≢ ""
      → is_problem b.result.status ≡ false
      → react json utc p key b (some t) ≡ (some t, some [])
  unfolding react
  react_gone t b closed keyed good = ground (arith, eq_iff t.incident.incident_key "")

  stale : Tracked J → Observation J → String → Incident J
  stale t c source = record (blank json utc).incident {
    incident_id = c.uuid;
    incident_key = key;
    component = c.result.component;
    severity = c.result.status;
    title = c.result.message;
    description = c.result.message;
    opened_at = t.first_problem;
    active = true;
    details = detected json utc c.result.details c.now (next_count t.occurrences);
    source = source;
    last_seen_at = c.now;
    occurrence_count = next_count t.occurrences;
  }

  react-stale :
      (t : Tracked J) (c : Observation J) (source : String)
      → t.incident.active ≡ false
      → epoch < t.first_problem
      → t.first_problem + seconds p.open_delay ≤ c.now
      → is_problem c.result.status ≡ true
      → source_for json utc c.result ≡ some source
      → (react json utc p key c (some t)).1
        ≡ some (
            record { type = EventType.opened; incident = stale t c source; occurred_at = c.now }
            ∷ [])
  unfolding react stale
  react-stale t c source closed seen due bad src = ground arith

  -- A closed incident remembers the start of a later problem that went away again. Let the open
  -- delay not be zero and the entry remember no problem. If the key has a problem at `a`, a good
  -- result at `b`, and at `c`, the open delay or more after `a`, a problem again whose source is
  -- a text, then the incident opens at once at `c`, dated back to `a`, however short both
  -- problems are.
  pub react_all_stale :
      (t : Tracked J) (a b c : Observation J) (source : String)
      → t.incident.active ≡ false
      → t.incident.incident_key ≢ ""
      → t.first_problem ≡ epoch
      → epoch < p.open_delay
      → is_problem a.result.status ≡ true
      → is_problem b.result.status ≡ false
      → is_problem c.result.status ≡ true
      → epoch < a.now
      → a.now + seconds p.open_delay ≤ c.now
      → source_for json utc c.result ≡ some source
      → (i : Incident J) × ((react_all (a ∷ b ∷ c ∷ []) (some t)).1
          ≡ record { type = EventType.opened; incident = i; occurred_at = c.now } ∷ [])
        × (i.opened_at ≡ a.now)
  unfolding react_all stale
  react_all_stale t a b c source closed keyed reset slow bad good again pos due src = (
    stale (blip t a.now) c source,
    rw (
      react-blip t a closed reset bad slow,
      react_gone (blip t a.now) b closed keyed good,
      react-stale (blip t a.now) c source closed pos due again src,
    ),
    refl,
  )

  -- A problem of an active incident is counted in its entry, and not in the incident: a restart
  -- from that incident goes on from the count and the time that it had before.
  pub react-restart :
      (t : Tracked J) (o : Observation J)
      → t.incident.active ≡ true
      → is_problem o.result.status ≡ true
      → (u : Tracked J) × ((react json utc p key o (some t)).0 ≡ some u)
        × (u.occurrences ≡ next_count t.occurrences)
        × (u.last_problem ≡ o.now)
        × ((restore_entry json utc u.incident).occurrences ≡ t.incident.occurrence_count)
        × ((restore_entry json utc u.incident).last_problem
            ≡ (restore_entry json utc t.incident).last_problem)
  unfolding react restore_entry
  react-restart t o active bad = (
    (update_incident json utc p o (observe json utc o.now t)).0,
    ground arith,
    ground arith,
    ground arith,
    ground arith,
    ground arith,
  )
