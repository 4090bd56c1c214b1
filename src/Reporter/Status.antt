-- ===== src/Reporter/Status.antt =====
-- The status of the central configuration in the queue.
use scada_guard.Prelude.{ℕ, ◌+◌, String, false, none, some, ◌≡◌, length}
use scada_guard.Model.{JsonLib}
use scada_guard.Storage.Queue.Unlimited.{has_id, enqueue_event-unnamed}
use scada_guard.Reporter.{
  Reporter, Attempt, send, envelope, send_or_queue, send_configuration_status,
}

module _ {J : Type 0} (json : JsonLib J) where
  envelope-body : (path : String) (v : J) → json.at? (envelope json path v) "body" ≡ some v
  unfolding envelope
  envelope-body path v = simp (json.at?-put)

  -- A configuration status without kind, identifier and number that does not get through adds a
  -- row to the queue, also when the queue is at its configured limit or beyond it, if the
  -- identifier drawn for it is new and the
  -- storage does not throw.
  pub send_configuration_status-length :
      (v : J) (a : Attempt) (uuid : String) (now : ℕ) (r : Reporter J)
      → send a ≡ some false
      → a.storage_fails ≡ false
      → json.at? v "message_kind" ≡ none
      → json.at? v "message_id" ≡ none
      → json.at? v "sequence_number" ≡ none
      → has_id uuid r.queue ≡ false
      → length (send_configuration_status json v a uuid now r).0.queue.rows
        ≡ length r.queue.rows + 1
  unfolding send_configuration_status send_or_queue
  send_configuration_status-length v a uuid now r failed stores kind id number fresh =
      let path : String = "/api/v1/agent/config/status" in
      rw (failed, send_or_queue, stores)
        (enqueue_event-unnamed json (envelope json path v) v r.config.max_queue_size uuid now
          r.queue (envelope-body path v) kind id number fresh)
