-- ===== src/Cycle/Report/Delivered.antt =====
-- What becomes of the message with the incident events.
use scada_guard.Prelude.{
  Bool, false, not, Option, none, some, List, ◌≡◌, map, length, ◌==◌, ◌≢◌, arith, str_eq,
}
use scada_guard.Model.{CheckResult, SignalSample, JsonLib, UtcLib}
use scada_guard.Quality.Real.{RealLib}
use scada_guard.Model.Json.{result_to_json}
use scada_guard.Storage.Signals.{RealJson, sample_to_json}
use scada_guard.Storage.Queue.Unlimited.{has_id}
use scada_guard.Reporter.{Reporter, send, send_check_results, send_incidents, send_signal_samples}
use scada_guard.Cycle.{Sending, send_message, items_of}
use scada_guard.Cycle.Report.{Agent, report, send_incident_events, and_then, send_if}
use scada_guard.Cycle.Report.Messages.{
  Then, IsHeld, IsAbsent, and_then-After, and_then-keeps, send_if-After, send_message-IsAbsent,
  send_message-IsHeld, incidents-IsHeld,
}

module _ {J R : Type 0} (json : JsonLib J) (utc : UtcLib) (real : RealLib J R)
    (numbers : RealJson J R) where
  -- Take a cycle with incident events, in which no heartbeat is due, the message with the check
  -- results does not throw, and the one with the incident events is numbered, does not get through,
  -- and meets a storage that does not throw. Then this message is in the queue at the end of the
  -- reporting, among those that the trimming never touches, whatever becomes of the messages after
  -- it, an exception included. The identifier drawn for the message is not in the queue before, nor
  -- is it that of the check results.
  pub report-IsHeld :
      (world : Sending) (document : J) (results : List (CheckResult J)) (events : List J)
      (online : List (SignalSample R)) (agent : Agent J R)
      → (length events == 0) ≡ false
      → world.number_fails 0 ≡ false
      → send (world.attempt 0) ≢ none
      → (world.attempt 0).storage_fails ≡ false
      → world.number_fails 1 ≡ false
      → send (world.attempt 1) ≡ some false
      → (world.attempt 1).storage_fails ≡ false
      → has_id (world.uuid 1) agent.reporter.queue ≡ false
      → str_eq (world.uuid 0) (world.uuid 1) ≡ false
      → IsHeld
          (world.uuid 1)
          (report json utc real numbers world false document results events online agent).0
  unfolding report send_incident_events send_check_results send_incidents send_signal_samples
  report-IsHeld world document results events online agent some_events number answers stores number'
        failed stores' fresh other =
      let id = world.uuid 1 in
      let Held : Reporter J → Type 0 = IsHeld id in
      let opening : Reporter J → Reporter J × Option Bool =
        send_incident_events json utc real numbers world agent events in
      let samples : J = items_of json utc (map (sample_to_json json utc numbers) online) in
      let sampling : Reporter J → Reporter J × Option Bool =
        send_message json utc (send_signal_samples json) agent.config agent.boot_id world 2
          "signal_samples" samples in
      let open_now : (r : Reporter J) → IsAbsent id r → Held (opening r).0 =
        incidents-IsHeld json utc agent.config agent.boot_id world "/api/v1/agent/incidents/batch" 1
          (items_of json utc events) number' failed stores' in
      let sample_now : (r : Reporter J) → Held r → Held (sampling r).0 =
        send_message-IsHeld json utc agent.config agent.boot_id world id
          "/api/v1/agent/signal-samples/batch" "signal_samples" 2 samples in
      let checks =
        send_message json utc (send_check_results json) agent.config agent.boot_id world 0
          "check_results" (items_of json utc (map (result_to_json json utc) results))
          agent.reporter in
      let first : Then (IsAbsent id) checks =
        send_message-IsAbsent json utc agent.config agent.boot_id world id
          "/api/v1/agent/check-results/batch" "check_results" 0
          (items_of json utc (map (result_to_json json utc) results)) agent.reporter number answers
          stores other fresh in
      let opened = and_then checks (send_if (not (length events == 0)) opening) in
      let second : Held opened.0 =
        and_then-After (IsAbsent id) Held checks (send_if (not (length events == 0)) opening) first
          (λ r absent.
            send_if-After Held (not (length events == 0)) opening r (λ e. open_now r absent)
              (λ e. absurd (ground (arith, some_events, e)))) in
      let sampled = and_then opened (send_if (not (length online == 0)) sampling) in
      let third : Held sampled.0 =
        and_then-keeps Held opened (send_if (not (length online == 0)) sampling) second (λ r held.
          send_if-After Held (not (length online == 0)) sampling r (λ e. sample_now r held)
            (λ e. held)) in
      and_then-keeps Held sampled _ third (λ r held. held)
