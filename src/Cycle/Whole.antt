-- ===== src/Cycle/Whole.antt =====
-- The loop over the results when every incident is saved.
use scada_guard.Prelude.{
  false, none, List, [], ◌∷◌, ◌++◌, ◌≡◌, ap, inl, inr, lookup, All, Option-cases, map,
}
use scada_guard.Model.{JsonLib, UtcLib}
use scada_guard.Incidents.{IncidentManager, react, process, key_for}
use scada_guard.Incidents.Runs.{IsKeyed, process-IsKeyed, process-some, process-none}
use scada_guard.Storage.Tables.{Tables, save_check}
use scada_guard.Cycle.{Item, save_events, record_results, observation, event_to_json}
use scada_guard.Cycle.Agree.{Agrees, AreDistinct, react-none, save_events_done}
use scada_guard.Cycle.Incidents.{
  AllNew, HasSource, Saves, save_check-Agrees, step-Agrees, step-AreDistinct,
}

module _ {J : Type 0} (json : JsonLib J) (utc : UtcLib) where
  -- Start from a manager that keeps every incident under its own key, shows no identifier twice and
  -- agrees with the table of the incidents. Record any results of which the `source` detail, if there
  -- is one, is a text, with identifiers that no entry shows yet, and let no saving of an incident
  -- throw. Then the manager and the table agree again, also after an exception of `save_check` or
  -- `process`: for every incident that the manager lists, the table has a row with its identifier,
  -- which is marked as active exactly if the incident is.
  pub record_results-Agrees :
      (items : List (Item J)) (m : IncidentManager J) (t : Tables J) (documents : List J)
      → IsKeyed m
      → AreDistinct json utc m
      → Agrees json utc m t
      → AllNew json utc m items
      → All (HasSource json utc) items
      → All (Saves json utc) items
      → Agrees json utc
          (record_results json utc items m t documents).incidents
          (record_results json utc items m t documents).tables
  unfolding record_results
  record_results-Agrees [] m t documents keyed distinct h new sources saves = h
  record_results-Agrees (item ∷ items) m t documents keyed distinct h (fresh, new) (source, sources)
        (saves, others) =
      let o = observation json utc item in
      elim (Option-cases (save_check json utc item.check_fails item.result t)) [
        | inl lost ↦ rw (lost, record_results) h
        | inr (t', checked) ↦
            let h' = save_check-Agrees json utc m t t' item.check_fails item.result checked h in
            elim (Option-cases (key_for json utc m item.result)) [
              | inl unkeyed ↦
                  let same = process-none json utc m o unkeyed in
                  let stops : (process json utc m o).1 ≡ none = ap (λ p. p.1) same in
                  let kept : Agrees json utc (process json utc m o).0 t' = rw same h' in
                  rw (checked, stops, record_results) kept
              | inr (key, at) ↦
                  elim (Option-cases (react json utc m.policy key o (lookup key m.tracked)).1) [
                    | inl silent ↦
                        absurd (react-none json utc m.policy key source.0 o _ source.1 silent)
                    | inr (es, e) ↦
                        rw
                          (
                            checked,
                            process-some json utc m o key at,
                            e,
                            saves,
                            save_events_done json utc item.saved_at es t',
                            record_results,
                          )
                          (record_results-Agrees items (process json utc m o).0
                            (save_events json utc false item.saved_at es t').0
                            (documents ++ map (event_to_json json utc) es)
                            (process-IsKeyed json utc m o keyed)
                            (step-AreDistinct json utc m item key at keyed distinct fresh t' es e)
                            (step-Agrees json utc m item key at keyed distinct fresh t' es e h') new
                            sources others)
                  ]
            ]
      ]
