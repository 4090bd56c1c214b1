-- ===== src/Incidents/Runs.antt =====
-- Sequences of results, and the order in which the events of one key come.
use scada_guard.Prelude.{
  String, Bool, true, false, Option, none, some, List, [], ◌∷◌, ◌++◌, ◌≡◌, refl, ◌∙◌, ◌⊎◌, inl, inr,
  lookup, map_laws, str_eq, eq_iff, eq_refl, arith, if◌then◌else◌, All, Bool-cases, Option-cases,
}
use scada_guard.Model.{JsonLib, UtcLib}
use scada_guard.Incidents.{
  IncidentPolicy, IncidentManager, IncidentEvent, Tracked, Observation, EventType, react, write,
  process, key_for, source_for,
}

abbrev emitted : {J : Type 0} → Option (List (IncidentEvent J)) → List (IncidentEvent J)
emitted none = []
emitted (some es) = es

-- Whether an incident is active after an event, if the event may come there.
abbrev pub advance : EventType → Bool → Option Bool
advance EventType.opened false = some true
advance EventType.reminder true = some true
advance EventType.recovered true = some false
advance _ _ = none

-- The events of one key, from whether its incident is active to whether it is at the end; `none`
-- if one comes out of turn. Events of other keys are passed over.
pub follow : {J : Type 0} → String → Bool → List (IncidentEvent J) → Option Bool
follow key active [] = some active
follow key active (e ∷ es) = elim (str_eq e.incident.incident_key key) [
  | true ↦ elim (advance e.type active) [ none ↦ none | some after ↦ follow key after es ]
  | false ↦ follow key active es
]

follow-append :
    {J : Type 0} (key : String) (a b : Bool) (es fs : List (IncidentEvent J))
    → follow key a es ≡ some b
    → follow key a (es ++ fs) ≡ follow key b fs
unfolding follow
follow-append key a b [] fs h = ground arith
follow-append key a b (e ∷ es) fs h =
    ground (arith, follow-append key true b es fs, follow-append key false b es fs)

abbrev pub is_active_entry : {J : Type 0} → Option (Tracked J) → Bool
is_active_entry none = false
is_active_entry (some t) = t.incident.active

-- An entry holds an incident of its own key, or none yet.
abbrev pub IsKeyedEntry : {J : Type 0} → String → Option (Tracked J) → Type 0
IsKeyedEntry key none = Unit {0}
IsKeyedEntry key (some t) =
    (t.incident.incident_key ≡ key) ⊎ ((t.incident.incident_key ≡ "") × (t.incident.active ≡ false))

abbrev pub active_at : {J : Type 0} → String → IncidentManager J → Bool
active_at key m = is_active_entry (lookup key m.tracked)

abbrev pub IsKeyed : {J : Type 0} → IncidentManager J → Type 0
IsKeyed m = (key : String) → IsKeyedEntry key (lookup key m.tracked)

module _ {J : Type 0} (json : JsonLib J) (utc : UtcLib) where
  react-IsKeyedEntry :
      (p : IncidentPolicy) (key : String) (o : Observation J) (entry : Option (Tracked J))
      → IsKeyedEntry key entry
      → IsKeyedEntry key (react json utc p key o entry).0
  unfolding react
  react-IsKeyedEntry p key o none h = ground arith
  react-IsKeyedEntry p key o (some t) h = ground arith

  react-follow :
      (p : IncidentPolicy) (key : String) (o : Observation J) (entry : Option (Tracked J))
      (s : String)
      → source_for json utc o.result ≡ some s
      → IsKeyedEntry key entry
      → follow key (is_active_entry entry) (emitted (react json utc p key o entry).1)
        ≡ some (is_active_entry (react json utc p key o entry).0)
  unfolding react follow
  react-follow p key o none s e h = ground (arith, eq_refl key)
  react-follow p key o (some t) s e h =
      ground (arith, eq_refl key, eq_iff t.incident.incident_key key)

  -- Events of another key do not count for this one.
  react-follow_ne :
      (p : IncidentPolicy) (key k : String) (o : Observation J) (entry : Option (Tracked J))
      (a : Bool)
      → IsKeyedEntry key entry
      → str_eq key k ≡ false
      → follow k a (emitted (react json utc p key o entry).1) ≡ some a
  unfolding react follow
  react-follow_ne p key k o none a h ne = ground arith
  react-follow_ne p key k o (some t) a h ne = ground (arith, eq_iff t.incident.incident_key key)

  lookup-write :
      (key k : String) (entry : Option (Tracked J)) (m : List (String × Tracked J))
      → lookup k (write json utc key entry m) ≡ (if str_eq key k then entry else lookup k m)
  unfolding write
  lookup-write key k none m = simp map_laws
  lookup-write key k (some t) m = simp map_laws

  pub process-none :
      (m : IncidentManager J) (o : Observation J)
      → key_for json utc m o.result ≡ none
      → process json utc m o ≡ (m, none)
  unfolding process
  process-none m o e = rw (e, process)

  pub process-some :
      (m : IncidentManager J) (o : Observation J) (key : String)
      → key_for json utc m o.result ≡ some key
      → (process json utc m o).1 ≡ (react json utc m.policy key o (lookup key m.tracked)).1
  unfolding process
  process-some m o key e = rw (e, process)

  -- The entry of every key after a result is processed: the key of the result reacts, and every
  -- other keeps its entry.
  pub lookup-process :
      (m : IncidentManager J) (o : Observation J) (key k : String)
      → key_for json utc m o.result ≡ some key
      → lookup k (process json utc m o).0.tracked ≡ (
          if str_eq key k
          then (react json utc m.policy key o (lookup key m.tracked)).0
          else lookup k m.tracked)
  unfolding process
  lookup-process m o key k e = rw (e, process) (lookup-write key k _ m.tracked)

  pub run : IncidentManager J → List (Observation J) → IncidentManager J × List (IncidentEvent J)
  run m [] = (m, [])
  run m (o ∷ os) =
      let (m', es) = process json utc m o in let (m'', fs) = run m' os in (m'', emitted es ++ fs)

  pub process-IsKeyed :
      (m : IncidentManager J) (o : Observation J) → IsKeyed m → IsKeyed (process json utc m o).0
  process-IsKeyed m o h k = elim (Option-cases (key_for json utc m o.result)) [
    | inl e ↦ rw (process-none m o e) (h k)
    | inr (key, e) ↦ rw (lookup-process m o key k e) (elim (Bool-cases (str_eq key k)) [
      | inl same ↦ rw (same, ← (eq_iff key k).0 same) (react-IsKeyedEntry m.policy key o _ (h key))
      | inr other ↦ rw other (h k)
    ])
  ]

  process-follow :
      (m : IncidentManager J) (o : Observation J) (k s : String)
      → source_for json utc o.result ≡ some s
      → IsKeyed m
      → follow k (active_at k m) (emitted (process json utc m o).1)
        ≡ some (active_at k (process json utc m o).0)
  unfolding follow
  process-follow m o k s src h = elim (Option-cases (key_for json utc m o.result)) [
    | inl e ↦ rw (process-none m o e)
    | inr (key, e) ↦
        rw (lookup-process m o key k e, process-some m o key e)
          (elim (Bool-cases (str_eq key k)) [
            | inl same ↦
                rw (same, ← (eq_iff key k).0 same) (react-follow m.policy key o _ s src (h key))
            | inr other ↦ rw other (react-follow_ne m.policy key k o _ _ (h key) other)
          ])
  ]

  -- Start from a manager that keeps every incident under its own key, and let it process any results
  -- whose `source` detail, if there is one, is a text. Then for every key the events come in turn:
  -- `opened`, any number of `reminder`s, `recovered`, and so on, with `recovered` and `reminder` only
  -- while its incident is active, and `opened` only while it is not. At the end the last event tells
  -- whether the incident is active.
  pub run-follow :
      (m : IncidentManager J) (os : List (Observation J)) (k : String)
      → IsKeyed m
      → All (λ o. (s : String) × (source_for json utc o.result ≡ some s)) os
      → follow k (active_at k m) (run m os).1 ≡ some (active_at k (run m os).0)
  unfolding run follow
  run-follow m [] k h src = refl
  run-follow m (o ∷ os) k h src =
      follow-append k _ _ (emitted (process json utc m o).1) _
        (process-follow m o k src.0.0 src.0.1 h)
      ∙ run-follow (process json utc m o).0 os k (process-IsKeyed m o h) src.1
