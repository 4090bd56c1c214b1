-- ===== src/Scheduler.antt =====
-- include/scadaguard/scheduler.hpp and src/checks/scheduler.cpp: the slots, the queue and the workers.
-- Each section under one lock is one function, and `Step` lets the threads interleave them at will.
-- Slots and executions go by numbers; an execution's number is that of its making.
pub mod Items
pub mod Single
use scada_guard.Prelude.{
  ℕ, suc, ◌+◌, ◌<◌, String, Bool, true, false, not, ◌&&◌, ◌||◌, Option, none, some, List, [], ◌∷◌,
  ◌++◌, ◌≡◌, length, ◌==◌, if◌then◌else◌,
}
use scada_guard.Model.{HealthStatus, CheckResult, JsonLib}
use scada_guard.Checks.{TextLib, ◌<>◌}

pub record Execution (J : Type 0) : Type 0 where
  pub future : Option (CheckResult J)
  pub stop_requested : Bool
  pub timed_out : Bool

pub record CheckSlot : Type 0 where
  pub execution : Option ℕ
  pub scheduled : Bool

pub record WorkItem : Type 0 where
  pub slot : ℕ
  pub execution : ℕ

-- `submitted` has passed the lock of its slot and not yet that of the queue, `taken` is with a worker,
-- `running` has begun to execute, `completing` has set its promise and not yet released its slot, and
-- `dropped` came after the stop.
pub record Core (J : Type 0) : Type 0 where
  pub worker_count : ℕ
  pub slots : ℕ → CheckSlot
  pub executions : ℕ → Execution J
  pub next_execution : ℕ
  pub submitted : List WorkItem
  pub queue : List WorkItem
  pub taken : List WorkItem
  pub running : List WorkItem
  pub completing : List WorkItem
  pub dropped : List WorkItem
  pub stopping : Bool

-- What becomes of `execute`.
pub data Outcome (J : Type 0) : Type 0 where
  returned : CheckResult J → Outcome J
  threw : String → Outcome J
  threw_unknown : Outcome J

abbrev pub put_at : {A : Type 0} → ℕ → A → (ℕ → A) → ℕ → A
put_at i v f j = if j == i then v else f j

abbrev pub same_execution : Option ℕ → ℕ → Bool
same_execution none e = false
same_execution (some d) e = d == e

module _ {J : Type 0} where
  abbrev pub fresh : Execution J
  fresh = record { future = none; stop_requested = false; timed_out = false }

  -- `run_once` under the lock of a slot that is not scheduled.
  unfoldable pub submit : ℕ → Core J → Core J
  submit s c = record c {
    slots = put_at s (record { execution = some c.next_execution; scheduled = true }) c.slots;
    executions = put_at c.next_execution fresh c.executions;
    next_execution = c.next_execution + 1;
    submitted = record { slot = s; execution = c.next_execution } ∷ c.submitted;
  }

  -- `run_once` under the lock of the queue; `rest` are the other submitted items.
  unfoldable pub push_back : WorkItem → List WorkItem → Core J → Core J
  push_back w rest c =
      if c.stopping
      then record c { submitted = rest; dropped = w ∷ c.dropped }
      else record c { submitted = rest; queue = c.queue ++ w ∷ [] }

  -- A worker that takes the front of the queue.
  unfoldable pub pop_front : WorkItem → List WorkItem → Core J → Core J
  pop_front w rest c = record c { queue = rest; taken = w ∷ c.taken }

  -- `set_value`: a promise is completed only once.
  unfoldable pub set_value : CheckResult J → Execution J → Execution J
  set_value result e = elim e.future [ none ↦ record e { future = some result } | some r ↦ e ]

  -- A worker whose item has neither timed out nor been stopped begins to execute it.
  unfoldable pub begin_execution : WorkItem → List WorkItem → Core J → Core J
  begin_execution w rest c = record c { taken = rest; running = w ∷ c.running }

  abbrev pub is_cancelled : Execution J → Bool
  is_cancelled e = e.timed_out || e.stop_requested

  -- The promise of an item that was not begun, and of one that was executed.
  unfoldable pub complete_cancelled : WorkItem → List WorkItem → CheckResult J → Core J → Core J
  unfolding set_value
  complete_cancelled w rest result c = record c {
    executions = put_at w.execution (set_value result (c.executions w.execution)) c.executions;
    taken = rest;
    completing = w ∷ c.completing;
  }

  unfoldable pub complete : WorkItem → List WorkItem → CheckResult J → Core J → Core J
  unfolding set_value
  complete w rest result c = record c {
    executions = put_at w.execution (set_value result (c.executions w.execution)) c.executions;
    running = rest;
    completing = w ∷ c.completing;
  }

  -- The end of `finish_execution`, under the lock of the slot.
  unfoldable pub release : WorkItem → List WorkItem → Core J → Core J
  release w rest c =
      let slot = c.slots w.slot in
      record c {
        slots =
            if same_execution slot.execution w.execution
            then put_at w.slot (record slot { scheduled = false }) c.slots
            else c.slots;
        completing = rest;
      }

  -- `run_once` gives up on an execution.
  unfoldable pub time_out : ℕ → Core J → Core J
  time_out e c = record c {
    executions =
        put_at e (record (c.executions e) { timed_out = true; stop_requested = true }) c.executions;
  }

  -- The destructor: `stopping`, and later the stop of the execution of a slot.
  unfoldable pub begin_stop : Core J → Core J
  begin_stop c = record c { stopping = true }

  unfoldable pub request_stop : ℕ → Core J → Core J
  request_stop s c = elim (c.slots s).execution [
    | none ↦ c
    | some e ↦ record c {
      executions = put_at e (record (c.executions e) { stop_requested = true }) c.executions;
    }
  ]

module _ {J : Type 0} (json : JsonLib J) where
  open json use {object, text, number, put}

  unfoldable pub internal_error : String → String → ℕ → CheckResult J
  internal_error id message clock = record {
    check_id = id;
    component = "internal";
    status = HealthStatus.unknown;
    message = message;
    observed_at = clock;
    details = put object "problem_type" (text "internal_error");
  }

  -- The result of a worker for the check `id`, which took `duration` milliseconds.
  unfoldable pub worker_result : String → Outcome J → ℕ → ℕ → CheckResult J
  unfolding internal_error
  worker_result id outcome clock duration =
      let result : CheckResult J = elim outcome [
        | returned r ↦ r
        | threw what ↦ internal_error id ("Check failed: " <> what) clock
        | threw_unknown ↦ internal_error id "Check failed with an unknown exception" clock
      ] in
      record result { details = put result.details "duration_ms" (number duration) }

  -- What `run_once` answers for an execution once it waits no longer.
  unfoldable pub awaited_result : String → Execution J → Bool → ℕ → ℕ → CheckResult J
  awaited_result id e stopped clock duration = elim e.future [
    | some r ↦ r
    | none ↦ record {
      check_id = id;
      component = "internal";
      status = HealthStatus.unknown;
      message = if stopped then "Check cancelled during scheduler stop" else "Check timed out";
      observed_at = clock;
      details =
          put (put object "problem_type" (text (if stopped then "cancelled" else "timeout")))
            "duration_ms" (number duration);
    }
  ]

  -- One section under a lock, of any of the threads.
  pub data Step : Core J → Core J → Type 0 where
    submits : (c : Core J) (s : ℕ) → (c.slots s).scheduled ≡ false → Step c (submit s c)
    pushes :
        (c : Core J) (w : WorkItem) (xs ys : List WorkItem)
        → c.submitted ≡ xs ++ w ∷ ys
        → Step c (push_back w (xs ++ ys) c)
    pops :
        (c : Core J) (w : WorkItem) (ws : List WorkItem)
        → c.queue ≡ w ∷ ws
        → length c.taken + length c.running + length c.completing < c.worker_count
        → Step c (pop_front w ws c)
    cancels :
        (c : Core J) (w : WorkItem) (xs ys : List WorkItem) (id : String) (clock : ℕ)
        → c.taken ≡ xs ++ w ∷ ys
        → is_cancelled (c.executions w.execution) ≡ true
        → Step c (
            complete_cancelled w
              (xs ++ ys)
              (internal_error id "Check was cancelled before execution" clock)
              c)
    begins :
        (c : Core J) (w : WorkItem) (xs ys : List WorkItem)
        → c.taken ≡ xs ++ w ∷ ys
        → is_cancelled (c.executions w.execution) ≡ false
        → Step c (begin_execution w (xs ++ ys) c)
    completes :
        (c : Core J) (w : WorkItem) (xs ys : List WorkItem) (id : String) (outcome : Outcome J)
        (clock duration : ℕ)
        → c.running ≡ xs ++ w ∷ ys
        → Step c (complete w (xs ++ ys) (worker_result id outcome clock duration) c)
    releases :
        (c : Core J) (w : WorkItem) (xs ys : List WorkItem)
        → c.completing ≡ xs ++ w ∷ ys
        → Step c (release w (xs ++ ys) c)
    times_out : (c : Core J) (e : ℕ) → Step c (time_out e c)
    stops : (c : Core J) → Step c (begin_stop c)
    requests_stop : (c : Core J) (s : ℕ) → Step c (request_stop s c)

  -- Any interleaving.
  pub data Reach (c : Core J) : Core J → Type 0 where
    start : Reach c c
    then_step : {d e : Core J} → Reach c d → Step d e → Reach c e
