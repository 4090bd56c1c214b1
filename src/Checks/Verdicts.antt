-- ===== src/Checks/Verdicts.antt =====
-- When the checks of processes, services, ports and disks answer `ok`.
use scada_guard.Prelude.{
  ℕ, ◌+◌, String, Bool, true, false, not, ◌&&◌, ◌||◌, none, some, List, [], ◌∷◌, ◌++◌, ◌≡◌, refl,
  inl, inr, Bool-cases, length, length-append, any, arith, ◌==◌, if◌then◌else◌,
}
use scada_guard.Model.{HealthStatus, CheckResult, JsonLib, UtcLib}
use scada_guard.Checks.{
  TextLib, ProcessCheckConfig, ProcessEntry, snapshot, scan_processes, process_result,
  check_process, base, ServiceCheckConfig, ServiceAnswer, no_manager, no_service, no_status,
  status_of, check_service, ServiceState, when_required,
}

abbrev pub is_ok : HealthStatus → Bool
is_ok HealthStatus.ok = true
is_ok _ = false

abbrev pub is_running : ServiceAnswer → Bool
is_running (status_of ServiceState.running pid) = true
is_running _ = false

module _ {J : Type 0} (json : JsonLib J) (utc : UtcLib) (text_lib : TextLib) where
  -- Whether the loop meets a stop.
  pub is_stopped : (ℕ → Bool) → ℕ → List ProcessEntry → Bool
  is_stopped stops i [] = false
  is_stopped stops i (e ∷ es) = stops i || is_stopped stops (i + 1) es

  abbrev pub is_named : String → ProcessEntry → Bool
  is_named name e = text_lib.same_name e.exe_file name

  scan_processes-count :
      (name : String) (stops : ℕ → Bool) (i : ℕ) (es : List ProcessEntry) (pids : List ℕ)
      → is_stopped stops i es ≡ false
      → (found : List ℕ) × (scan_processes json utc text_lib name stops i es pids ≡ some found)
        × ((length found == 0) ≡ (length pids == 0 && not (any (is_named name) es)))
  unfolding scan_processes is_stopped
  scan_processes-count name stops i [] pids h = (pids, refl, ground arith)
  scan_processes-count name stops i (e ∷ es) pids h =
      let added = if is_named name e then pids ++ e.process_id ∷ [] else pids in
      let (found, same, count) = scan_processes-count name stops (i + 1) es added (ground arith) in
      (found, ground arith, ground (arith, length-append pids (e.process_id ∷ [])))

  scan_processes-stopped :
      (name : String) (stops : ℕ → Bool) (i : ℕ) (es : List ProcessEntry) (pids : List ℕ)
      → is_stopped stops i es ≡ true
      → scan_processes json utc text_lib name stops i es pids ≡ none
  unfolding scan_processes is_stopped
  scan_processes-stopped name stops i [] pids h = ground arith
  scan_processes-stopped name stops i (e ∷ es) pids h =
      let added = if is_named name e then pids ++ e.process_id ∷ [] else pids in
      let rest = scan_processes-stopped name stops (i + 1) es added in
      elim (Bool-cases (stops i)) [
        | inl now ↦ rw (now, scan_processes) refl
        | inr later ↦ rw (later, scan_processes) (rest (ground arith))
      ]

  process_result-status :
      (c : ProcessCheckConfig) (pids : List ℕ) (found : Bool) (r : CheckResult J)
      → (length pids == 0) ≡ not found
      → (process_result json utc text_lib c pids r).status
        ≡ (if found then HealthStatus.ok else when_required c.required)
  unfolding process_result
  process_result-status c pids found r e = ground arith

  -- A process check whose loop over the snapshot is stopped answers `unknown`. Else it answers `ok`
  -- exactly if some process has the configured name, and otherwise a warning, or for a required
  -- process that it is critical.
  pub check_process-status :
      (c : ProcessCheckConfig) (es : List ProcessEntry) (stops : ℕ → Bool) (clock : ℕ)
      → (check_process json utc text_lib c (snapshot es) stops clock).status ≡ (
          if is_stopped stops 0 es
          then HealthStatus.unknown
          else if any (is_named c.process_name) es
          then HealthStatus.ok
          else when_required c.required)
  unfolding check_process
  check_process-status c es stops clock = elim (Bool-cases (is_stopped stops 0 es)) [
    | inl stopped ↦
        rw (stopped, scan_processes-stopped c.process_name stops 0 es [] stopped, check_process)
          refl
    | inr going ↦
        let (found, same, count) = scan_processes-count c.process_name stops 0 es [] going in
        rw (going, same, check_process)
          (process_result-status c found (any (is_named c.process_name) es)
            (base json utc text_lib c.id "process" clock) count)
  ]

  -- A service check answers `ok` exactly if the service manager says that the service is running: no
  -- error and no other state does.
  pub check_service-ok :
      (c : ServiceCheckConfig) (a : ServiceAnswer) (clock : ℕ)
      → is_ok (check_service json utc text_lib c a clock).status ≡ is_running a
  unfolding check_service
  check_service-ok c (no_manager code kind) clock = ground arith
  check_service-ok c (no_service code kind) clock = ground arith
  check_service-ok c (no_status code) clock = ground arith
  check_service-ok c (status_of state pid) clock = ground arith
