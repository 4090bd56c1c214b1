-- ===== src/Cycle/Report/Kept.antt =====
-- What a whole cycle keeps.
use scada_guard.Prelude.{
  String, str_eq, ◌≡◌, refl, ◌⊎◌, inl, inr, arith, Bool, true, false, Option, none, some, List, [],
  ◌++◌, All, ℤ,
}
use scada_guard.Model.{CheckResult, JsonLib, UtcLib}
use scada_guard.Quality.Real.{RealLib}
use scada_guard.Storage.Signals.{RealJson}
use scada_guard.Incidents.Runs.{IsKeyed}
use scada_guard.Cycle.{Item}
use scada_guard.Cycle.Agree.{Agrees, AgreesAt, AreDistinct, shown_at}
use scada_guard.Cycle.Incidents.{AllNew, HasSource, Saves, Nearly, record_results-Nearly}
use scada_guard.Cycle.Whole.{record_results-Agrees}
use scada_guard.Cycle.Report.{Agent, CycleWorld, read_data, items_from, cycle, end_cycle}

module _ {J R : Type 0} (json : JsonLib J) (utc : UtcLib) (real : RealLib J R)
    (numbers : RealJson J R) where
  -- The items that a cycle records: the results of the checks, then those of the signals.
  abbrev pub recorded_items : CycleWorld J R → List (CheckResult J) → Agent J R → List (Item J)
  recorded_items world results agent =
      items_from json utc real numbers world 0 (
        results
        ++ (read_data json utc real numbers agent.rules world.sources agent.signals).results)

  end_cycle-each :
      (P : Agent J R → Type 0) (completed enabled : Bool) (sent : Option Bool)
      (kept seen told late : Agent J R) (answer : J)
      → P kept
      → P seen
      → P told
      → P late
      → P (end_cycle json utc real numbers completed enabled sent kept seen told late answer).0
  unfolding end_cycle
  end_cycle-each P false enabled sent kept seen told late answer a b c d = a
  end_cycle-each P true false sent kept seen told late answer a b c d = b
  end_cycle-each P true true none kept seen told late answer a b c d = c
  end_cycle-each P true true (some last) kept seen told late answer a b c d = d

  -- Start from an agent whose manager keeps every incident under its own key, shows no identifier
  -- twice and agrees with the table of the incidents. Take a cycle in which no saving of an incident
  -- throws, the identifiers that are drawn are not shown by an entry when they are drawn, and a
  -- `source` detail of a result is a text. Then manager and table agree again after it, also if the
  -- saving of a result, the processing or a message throws: for every incident that the manager
  -- lists, the table has a row with its identifier, which is marked as active exactly if the incident
  -- is.
  pub cycle-Agrees :
      (number_ℤ : ℤ → J) (world : CycleWorld J R) (results : List (CheckResult J))
      (agent : Agent J R)
      → IsKeyed agent.incidents
      → AreDistinct json utc agent.incidents
      → Agrees json utc agent.incidents agent.tables
      → AllNew json utc agent.incidents (recorded_items world results agent)
      → All (HasSource json utc) (recorded_items world results agent)
      → All (Saves json utc) (recorded_items world results agent)
      → let after = (cycle json utc real numbers number_ℤ world results agent).0 in
        Agrees json utc after.incidents after.tables
  unfolding cycle
  cycle-Agrees number_ℤ world results agent keyed distinct h new sources saves =
      let settled =
        record_results-Agrees json utc (recorded_items world results agent) agent.incidents
          agent.tables [] keyed distinct h new sources saves in
      end_cycle-each (λ a. Agrees json utc a.incidents a.tables) _ _ _ _ _ _ _ _ settled settled
        settled settled

  -- The manager agrees with the table, or the cycle threw and they agree but for one key.
  abbrev pub IsSettled : Agent J R × Option J → Type 0
  IsSettled ended =
      Agrees json utc ended.0.incidents ended.0.tables
      ⊎ ((key : String) × (ended.1 ≡ none)
          × ((k : String)
              → str_eq key k ≡ false
              → AgreesAt json utc (shown_at k ended.0.incidents) ended.0.tables))

  abbrev IsNearly : Bool → Agent J R → Type 0
  IsNearly completed agent = Nearly json utc agent.incidents agent.tables completed

  completed-IsSettled :
      (agent : Agent J R) (answer : Option J) → IsNearly true agent → IsSettled (agent, answer)
  completed-IsSettled agent answer (inl h) = inl h
  completed-IsSettled agent answer (inr (key, stopped, h)) = absurd (ground arith)

  end_cycle-IsSettled :
      (completed enabled : Bool) (sent : Option Bool) (kept seen told late : Agent J R) (answer : J)
      → IsNearly completed kept
      → IsNearly completed seen
      → IsNearly completed told
      → IsNearly completed late
      → IsSettled
          (end_cycle json utc real numbers completed enabled sent kept seen told late answer)
  unfolding end_cycle
  end_cycle-IsSettled false enabled sent kept seen told late answer (inl h) b c d = inl h
  end_cycle-IsSettled false enabled sent kept seen told late answer (inr (key, stopped, h)) b c d =
      inr (key, refl, h)
  end_cycle-IsSettled true false sent kept seen told late answer a b c d =
      completed-IsSettled seen _ b
  end_cycle-IsSettled true true none kept seen told late answer a b c d =
      completed-IsSettled told _ c
  end_cycle-IsSettled true true (some last) kept seen told late answer a b c d =
      completed-IsSettled late _ d

  -- Start from an agent whose manager keeps every incident under its own key, shows no identifier
  -- twice and agrees with the table of the incidents, and take a cycle in which the identifiers that
  -- are drawn are not shown by an entry when they are drawn. Whatever the savings of samples, results and
  -- incidents, the processing and the messages throw, manager and table agree again after it, or the
  -- cycle ended by an exception and they agree for all keys but one.
  pub cycle-IsSettled :
      (number_ℤ : ℤ → J) (world : CycleWorld J R) (results : List (CheckResult J))
      (agent : Agent J R)
      → IsKeyed agent.incidents
      → AreDistinct json utc agent.incidents
      → Agrees json utc agent.incidents agent.tables
      → AllNew json utc agent.incidents (recorded_items world results agent)
      → IsSettled (cycle json utc real numbers number_ℤ world results agent)
  unfolding cycle
  cycle-IsSettled number_ℤ world results agent keyed distinct h new =
      let nearly =
        record_results-Nearly json utc (recorded_items world results agent) agent.incidents
          agent.tables [] keyed distinct h new in
      end_cycle-IsSettled _ _ _ _ _ _ _ _ nearly nearly nearly nearly
