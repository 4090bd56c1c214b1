-- ===== src/Cycle/Incidents.antt =====
-- The loop over the results keeps the manager of the incidents and their table in step.
use text.Mathlib.TextLemmas.{append-eq-nil_iff}
use scada_guard.Prelude.{
  String, Bool, true, false, refl, insert, Option, none, some, List, [], ◌∷◌, ◌++◌, ◌≡◌, ◌≢◌, ap,
  ◌∙◌, ◌⊎◌, inl, inr, lookup, str_eq, eq_iff, arith, Bool-cases, Option-cases, map, some_inj,
}
use scada_guard.Model.{CheckResult, JsonLib, UtcLib}
use scada_guard.Model.Json.{result_to_json}
use scada_guard.Checks.{◌<>◌}
use scada_guard.Incidents.{
  Tracked, Observation, IncidentManager, IncidentEvent, react, process, key_for, source_for,
}
use scada_guard.Incidents.Runs.{
  IsKeyed, lookup-process, process-IsKeyed, process-some, process-none,
}
use scada_guard.Storage.Tables.{Tables, save_check}
use scada_guard.Cycle.{Item, save_events, record_results, observation, event_to_json}
use scada_guard.Cycle.Agree.{
  Agrees, AreDistinct, IsNew, Effect, react-Effects, save_events-AgreesAt, save_events_done,
  save_events_lost, new-AreDistinct, shown_at, AgreesAt,
}

module _ {J : Type 0} (json : JsonLib J) (utc : UtcLib) where
  pub key_text :
      (m : IncidentManager J) (r : CheckResult J) (answer : Option String) (key : String)
      → (elim answer as (λ o. Option String) [
        | none ↦ none
        | some problem ↦ some (
            m.site_id <> "|" <> m.host_id <> "|" <> r.component <> "|" <> r.check_id <> "|"
            <> problem)
      ])
        ≡ some key
      → key ≢ ""
  key_text m r none key e empty = absurd (ground arith)
  key_text m r (some problem) key e empty =
      let before = m.site_id <> "|" <> m.host_id <> "|" <> r.component <> "|" <> r.check_id in
      let whole : before <> "|" <> problem ≡ "" = some_inj e ∙ empty in
      let front : before <> "|" ≡ "" = (append-eq-nil_iff.0 whole).0 in
      let bar : ◌≡◌ {A = String} "|" "" = (append-eq-nil_iff.0 front).1 in
      ground (arith, eq_iff "|" "")

  key_for-nonempty :
      (m : IncidentManager J) (r : CheckResult J) (key : String)
      → key_for json utc m r ≡ some key
      → str_eq key "" ≡ false
  unfolding key_for
  key_for-nonempty m r key e = elim (Bool-cases (str_eq key "")) [
    | inl same ↦ absurd (
        key_text m r (json.value_text r.details "problem_type" "health") key e
          ((eq_iff key "").0 same))
    | inr other ↦ other
  ]

  -- The identifiers that a run draws are not shown by any entry when they are drawn.
  abbrev pub AllNew : IncidentManager J → List (Item J) → Type 0
  AllNew m [] = Unit {0}
  AllNew m (item ∷ items) =
      IsNew json utc item.uuid m × AllNew (process json utc m (observation json utc item)).0 items

  abbrev pub HasSource : Item J → Type 0
  HasSource item = (s : String) × (source_for json utc item.result ≡ some s)

  abbrev pub Saves : Item J → Type 0
  Saves item = item.incident_fails ≡ false

  pub save_check-Agrees :
      (m : IncidentManager J) (t t' : Tables J) (fails : Bool) (r : CheckResult J)
      → save_check json utc fails r t ≡ some t'
      → Agrees json utc m t
      → Agrees json utc m t'
  unfolding save_check
  save_check-Agrees m t t' true r e h = absurd (ground arith)
  save_check-Agrees m t t' false r e h =
      let saved : Tables J = record t {
        check_state = insert r.check_id (result_to_json json utc r) t.check_state;
      } in
      let same : saved ≡ t' = some_inj e in
      rw⁻¹ same (λ key. keeps saved (shown_at key m) refl (h key))
    where
      keeps :
          (saved : Tables J) (seen : Option (String × Bool))
          → saved.incident_rows ≡ t.incident_rows
          → AgreesAt json utc seen t
          → AgreesAt json utc seen saved
      keeps saved none rows same = tt
      keeps saved (some (id, active)) rows same = rw rows same

  -- One result whose key reacts.
  module _ (m : IncidentManager J) (item : Item J) (key : String)
      (at : key_for json utc m item.result ≡ some key) (keyed : IsKeyed m)
      (distinct : AreDistinct json utc m) (fresh : IsNew json utc item.uuid m) where
    abbrev o : Observation J
    o = observation json utc item

    abbrev reaction : Option (Tracked J) × Option (List (IncidentEvent J))
    reaction = react json utc m.policy key o (lookup key m.tracked)

    abbrev after : IncidentManager J
    after = (process json utc m o).0

    reaction-Effect :
        (es : List (IncidentEvent J))
        → reaction.1 ≡ some es
        → Effect json utc item.uuid (lookup key m.tracked) reaction.0 es
    reaction-Effect es e = rw e at (
        react-Effects json utc m.policy key o (lookup key m.tracked)
          (key_for-nonempty m item.result key at) (keyed key))

    pub step-Agrees :
        (t : Tables J) (es : List (IncidentEvent J))
        → reaction.1 ≡ some es
        → Agrees json utc m t
        → Agrees json utc after (save_events json utc false item.saved_at es t).0
    step-Agrees t es e h k =
        save_events-AgreesAt json utc m after t key item.uuid item.saved_at reaction.0
          (λ k. lookup-process json utc m o key k at) fresh distinct es k (reaction-Effect es e) h

    pub step-AreDistinct :
        (t : Tables J) (es : List (IncidentEvent J))
        → reaction.1 ≡ some es
        → AreDistinct json utc after
    step-AreDistinct t es e =
        new-AreDistinct json utc m after t key item.uuid item.saved_at reaction.0
          (λ k. lookup-process json utc m o key k at) fresh distinct es (reaction-Effect es e)

  -- The other entries agree, of which the result changes nothing.
  others-AgreesAt :
      (m : IncidentManager J) (t : Tables J) (o : Observation J) (key : String)
      → key_for json utc m o.result ≡ some key
      → Agrees json utc m t
      → (k : String) → str_eq key k ≡ false
      → AgreesAt json utc (shown_at k (process json utc m o).0) t
  others-AgreesAt m t o key at h k other = rw (lookup-process json utc m o key k at, other) (h k)

  -- The manager agrees with the table, or the recording threw and they agree but for one key.
  abbrev pub Nearly : IncidentManager J → Tables J → Bool → Type 0
  Nearly m t completed =
      Agrees json utc m t
      ⊎ ((key : String) × (completed ≡ false)
          × ((k : String) → str_eq key k ≡ false → AgreesAt json utc (shown_at k m) t))

  pub record_results-Nearly :
      (items : List (Item J)) (m : IncidentManager J) (t : Tables J) (documents : List J)
      → IsKeyed m
      → AreDistinct json utc m
      → Agrees json utc m t
      → AllNew m items
      → Nearly
          (record_results json utc items m t documents).incidents
          (record_results json utc items m t documents).tables
          (record_results json utc items m t documents).completed
  unfolding record_results
  record_results-Nearly [] m t documents keyed distinct h new = inl h
  record_results-Nearly (item ∷ items) m t documents keyed distinct h (fresh, new) =
      let o = observation json utc item in
      elim (Option-cases (save_check json utc item.check_fails item.result t)) [
        | inl lost ↦ rw (lost, record_results) (inl h)
        | inr (t', checked) ↦
            let h' = save_check-Agrees m t t' item.check_fails item.result checked h in
            elim (Option-cases (key_for json utc m item.result)) [
              | inl unkeyed ↦
                  let same = process-none json utc m o unkeyed in
                  let stops : (process json utc m o).1 ≡ none = ap (λ p. p.1) same in
                  let kept : Agrees json utc (process json utc m o).0 t' = rw same h' in
                  rw (checked, stops, record_results) (inl kept)
              | inr (key, at) ↦
                  let rest = others-AgreesAt m t' o key at h' in
                  elim (Option-cases (react json utc m.policy key o (lookup key m.tracked)).1) [
                    | inl silent ↦
                        rw (checked, process-some json utc m o key at, silent, record_results)
                          (inr (key, refl, rest))
                    | inr (es, e) ↦
                        elim (save_events_lost json utc item.incident_fails item.saved_at es t') [
                          | inl same ↦
                              rw
                                (
                                  checked,
                                  process-some json utc m o key at,
                                  e,
                                  same,
                                  save_events_done json utc item.saved_at es t',
                                  record_results,
                                )
                                (record_results-Nearly items (process json utc m o).0
                                  (save_events json utc false item.saved_at es t').0
                                  (documents ++ map (event_to_json json utc) es)
                                  (process-IsKeyed json utc m o keyed)
                                  (step-AreDistinct m item key at keyed distinct fresh t' es e)
                                  (step-Agrees m item key at keyed distinct fresh t' es e h') new)
                          | inr lost ↦
                              rw
                                (checked, process-some json utc m o key at, e, lost, record_results)
                                (inr (key, refl, rest))
                        ]
                  ]
            ]
      ]
