-- ===== src/Cycle/Agree.antt =====
-- The incidents that the manager holds, and the rows that the storage has of them.
use scada_guard.Prelude.{
  ℕ, String, Bool, true, false, Option, none, some, List, [], ◌∷◌, ◌≡◌, ◌≢◌, refl, sym, ◌∙◌, ap,
  ◌⊎◌, inl, inr, lookup, str_eq, eq_iff, eq_refl, arith, if◌then◌else◌, Bool-cases, some_inj,
}
use scada_guard.Model.{Incident, JsonLib, UtcLib}
use scada_guard.Incidents.{
  IncidentManager, IncidentPolicy, Tracked, IncidentEvent, Observation, react, source_for,
}
use scada_guard.Incidents.Runs.{IsKeyedEntry}
use scada_guard.Storage.Tables.{Tables, IncidentRow, store_incident, save_incident, upsert_incident}
use scada_guard.Cycle.{save_events}

module _ {J : Type 0} where
  -- The identifier of the incident of an entry and whether it is active, if it was ever opened.
  abbrev pub shown : Option (Tracked J) → Option (String × Bool)
  shown none = none
  shown (some t) =
      if str_eq t.incident.incident_key ""
      then none
      else some (t.incident.incident_id, t.incident.active)

  abbrev pub shown_at : String → IncidentManager J → Option (String × Bool)
  shown_at key m = shown (lookup key m.tracked)

  -- Whether the row of an incident is marked as active.
  pub active_row : String → List (IncidentRow J) → Option Bool
  active_row id [] = none
  active_row id (row ∷ rows) =
      let rest = active_row id rows in if str_eq row.incident_id id then some row.active else rest

  module _ (json : JsonLib J) (utc : UtcLib) where
    active_row-upsert_incident :
        (id : String) (row : IncidentRow J) (rows : List (IncidentRow J))
        → active_row id (upsert_incident json utc row rows)
          ≡ (if str_eq row.incident_id id then some row.active else active_row id rows)
    unfolding upsert_incident active_row
    active_row-upsert_incident id row [] = refl
    active_row-upsert_incident id row (r ∷ rs) =
        let later = active_row-upsert_incident id row rs in
        ground (
          arith,
          later,
          eq_iff r.incident_id row.incident_id,
          eq_iff r.incident_id id,
          eq_iff row.incident_id id,
        )

    pub active_row-store_incident :
        (id : String) (i : Incident J) (now : ℕ) (t : Tables J)
        → active_row id (store_incident json utc i now t).incident_rows
          ≡ (if str_eq i.incident_id id then some i.active else active_row id t.incident_rows)
    unfolding store_incident
    active_row-store_incident id i now t = active_row-upsert_incident id _ t.incident_rows

    pub save_events_done :
        (now : ℕ) (es : List (IncidentEvent J)) (t : Tables J)
        → (save_events json utc false now es t).1 ≡ true
    unfolding save_events save_incident
    save_events_done now [] t = refl
    save_events_done now (e ∷ es) t =
        save_events_done now es (store_incident json utc e.incident now t)

    -- Either no incident was to be saved, or the first saving throws.
    pub save_events_lost :
        (fails : Bool) (now : ℕ) (es : List (IncidentEvent J)) (t : Tables J)
        → (save_events json utc fails now es t ≡ save_events json utc false now es t)
          ⊎ (save_events json utc fails now es t ≡ (t, false))
    unfolding save_events save_incident
    save_events_lost false now es t = inl refl
    save_events_lost true now [] t = inl refl
    save_events_lost true now (e ∷ es) t = inr refl

    -- What a result does to the entry of its key, by what it emits.
    abbrev pub Effect :
        String → Option (Tracked J) → Option (Tracked J) → List (IncidentEvent J) → Type 0
    Effect uuid old new [] = shown new ≡ shown old
    Effect uuid old new (e ∷ []) =
        (shown new ≡ some (e.incident.incident_id, e.incident.active))
        × ((e.incident.incident_id ≡ uuid) ⊎ (shown old ≡ some (e.incident.incident_id, true)))
    Effect uuid old new (e ∷ f ∷ es) = ⊥

    abbrev pub Effects :
        String → Option (Tracked J) → Option (Tracked J) × Option (List (IncidentEvent J)) → Type 0
    Effects uuid old (new, none) = Unit {0}
    Effects uuid old (new, some es) = Effect uuid old new es

    pub react-Effects :
        (p : IncidentPolicy) (key : String) (o : Observation J) (entry : Option (Tracked J))
        → str_eq key "" ≡ false
        → IsKeyedEntry key entry
        → Effects o.uuid entry (react json utc p key o entry)
    unfolding react
    react-Effects p key o none ne h = ground arith
    react-Effects p key o (some t) ne h =
        ground (arith, eq_iff t.incident.incident_key key, eq_iff t.incident.incident_key "")

    pub react-none :
        (p : IncidentPolicy) (key s : String) (o : Observation J) (entry : Option (Tracked J))
        → source_for json utc o.result ≡ some s
        → (react json utc p key o entry).1 ≢ none
    unfolding react
    react-none p key s o none e h = ground arith
    react-none p key s o (some t) e h = ground arith

    -- A row agrees with an entry that is shown.
    abbrev pub AgreesAt : Option (String × Bool) → Tables J → Type 0
    AgreesAt none t = Unit {0}
    AgreesAt (some (id, active)) t = active_row id t.incident_rows ≡ some active

    abbrev pub Agrees : IncidentManager J → Tables J → Type 0
    Agrees m t = (key : String) → AgreesAt (shown_at key m) t

    -- No two entries show the same identifier.
    abbrev pub AreDistinct : IncidentManager J → Type 0
    AreDistinct m =
        (key other id : String) (a b : Bool)
        → shown_at key m ≡ some (id, a)
        → shown_at other m ≡ some (id, b)
        → str_eq key other ≡ true

    abbrev pub IsNew : String → IncidentManager J → Type 0
    IsNew uuid m = (key : String) (a : Bool) → shown_at key m ≢ some (uuid, a)

    -- The entry of one key is replaced, and what was emitted for it is saved.
    module _ (m m' : IncidentManager J) (t : Tables J) (key uuid : String) (now : ℕ)
        (new : Option (Tracked J))
        (at : (k : String)
          → lookup k m'.tracked ≡ (if str_eq key k then new else lookup k m.tracked))
        (fresh : IsNew uuid m) (distinct : AreDistinct m) where
      -- What was emitted for one key does not carry the identifier of another.
      clash :
          (emitted id : String) (a : Bool) (k : String)
          → str_eq key k ≡ false
          → shown_at k m ≡ some (id, a)
          → (emitted ≡ uuid) ⊎ (shown_at key m ≡ some (emitted, true))
          → emitted ≡ id
          → ⊥
      clash emitted id a k other at_k (inl drawn) same = fresh k a (rw (← drawn, same) at_k)
      clash emitted id a k other at_k (inr old) same =
          let twice : str_eq key k ≡ true = distinct key k id true a (rw same at old) at_k in
          ground (arith, twice, other)

      untouched :
          (e : IncidentEvent J) (k : String)
          → str_eq key k ≡ false
          → (e.incident.incident_id ≡ uuid) ⊎ (shown_at key m ≡ some (e.incident.incident_id, true))
          → (seen : Option (String × Bool)) → shown_at k m ≡ seen
          → AgreesAt seen t
          → AgreesAt seen (store_incident json utc e.incident now t)
      untouched e k other origin none at_k h = tt
      untouched e k other origin (some (id, a)) at_k h =
          rw (active_row-store_incident id e.incident now t)
            (elim (Bool-cases (str_eq e.incident.incident_id id)) [
              | inl same ↦ absurd (
                  clash e.incident.incident_id id a k other at_k origin
                    ((eq_iff e.incident.incident_id id).0 same))
              | inr differs ↦ rw differs h
            ])

      pub save_events-AgreesAt :
          (es : List (IncidentEvent J)) (k : String)
          → Effect uuid (lookup key m.tracked) new es
          → Agrees m t
          → AgreesAt (shown_at k m') (save_events json utc false now es t).0
      unfolding save_events save_incident
      save_events-AgreesAt [] k effect h = rw (at k) (elim (Bool-cases (str_eq key k)) [
        | inl same ↦ rw (same, effect) (h key)
        | inr other ↦ rw other (h k)
      ])
      save_events-AgreesAt (e ∷ []) k (here, origin) h =
          rw (at k) (elim (Bool-cases (str_eq key k)) [
            | inl same ↦
                rw (same, here)
                  (rw
                    (
                      active_row-store_incident e.incident.incident_id e.incident now t,
                      eq_refl e.incident.incident_id,
                    )
                    refl)
            | inr other ↦ rw other (untouched e k other origin (shown_at k m) refl (h k))
          ])
      save_events-AgreesAt (e ∷ f ∷ es) k effect h = absurd effect

      origin_of :
          (es : List (IncidentEvent J)) (id : String) (a : Bool)
          → Effect uuid (lookup key m.tracked) new es
          → shown new ≡ some (id, a)
          → (id ≡ uuid) ⊎ ((b : Bool) × (shown_at key m ≡ some (id, b)))
      origin_of [] id a effect e = inr (a, sym effect ∙ e)
      origin_of (ev ∷ []) id a (here, origin) e =
          let same : ev.incident.incident_id ≡ id = ap (λ p. p.0) (some_inj (sym here ∙ e)) in
          elim origin [ inl drawn ↦ inl (sym same ∙ drawn) | inr old ↦ inr (true, rw same at old) ]
      origin_of (ev ∷ f ∷ es) id a effect e = absurd effect

      shown_here : (k : String) → str_eq key k ≡ true → shown_at k m' ≡ shown new
      shown_here k e = rw (at k, e) refl

      shown_there : (k : String) → str_eq key k ≡ false → shown_at k m' ≡ shown_at k m
      shown_there k e = rw (at k, e) refl

      apart :
          (es : List (IncidentEvent J)) (k id : String) (a b : Bool)
          → Effect uuid (lookup key m.tracked) new es
          → str_eq key k ≡ false
          → shown new ≡ some (id, a)
          → shown_at k m ≡ some (id, b)
          → ⊥
      apart es k id a b effect other e e' = elim (origin_of es id a effect e) [
        | inl drawn ↦ fresh k b (rw drawn at e')
        | inr (c, old) ↦
            let twice : str_eq key k ≡ true = distinct key k id c b old e' in
            ground (arith, twice, other)
      ]

      pub new-AreDistinct :
          (es : List (IncidentEvent J)) → Effect uuid (lookup key m.tracked) new es → AreDistinct m'
      new-AreDistinct es effect k k' id a b e e' = elim (Bool-cases (str_eq key k)) [
        | inl here ↦ elim (Bool-cases (str_eq key k')) [
          | inl here' ↦ ground (arith, eq_iff key k, eq_iff key k', eq_iff k k')
          | inr other' ↦ absurd (
              apart es k' id a b effect other' (sym (shown_here k here) ∙ e)
                (sym (shown_there k' other') ∙ e'))
        ]
        | inr other ↦ elim (Bool-cases (str_eq key k')) [
          | inl here' ↦ absurd (
              apart es k id b a effect other (sym (shown_here k' here') ∙ e')
                (sym (shown_there k other) ∙ e))
          | inr other' ↦
              distinct k k' id a b (sym (shown_there k other) ∙ e)
                (sym (shown_there k' other') ∙ e')
        ]
      ]
