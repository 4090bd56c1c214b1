-- ===== src/Reporter.antt =====
-- include/scadaguard/central_reporter.hpp and src/reporting/central_reporter.cpp: delivery to the
-- central server, with the outbound queue behind it. The stop token, the environment and the server
-- enter as the answers that each attempt gets.
pub mod Flush
pub mod Blocking
pub mod Status
use scada_guard.Prelude.{
  ℕ, zero, suc, ◌+◌, ◌^◌, min, String, Bool, true, false, not, ◌&&◌, Option, none, some, List, [],
  ◌∷◌, str_eq, starts_with, ltb, leb, if◌then◌else◌, ℤ,
}
use scada_guard.Model.{JsonLib, epoch, seconds}
use scada_guard.Storage.Queue.{
  Queue, QueueRow, enqueue_event, pending_events, mark_event_sent, mark_event_failed,
}

pub record CentralServerConfig : Type 0 where
  pub enabled : Bool
  pub production : Bool
  pub base_url : String
  pub heartbeat_interval_seconds : ℤ
  pub request_timeout_seconds : ℤ
  pub max_queue_size : ℕ

-- What one call of `send` meets: the stop token, SCADAGUARD_API_TOKEN, whether `body.dump()` throws,
-- and the status of the server's answer, if there is one. `storage_fails` says whether the call of the
-- storage that follows the attempt throws.
pub record Attempt : Type 0 where
  pub stop_requested : Bool
  pub token : Option String
  pub dump_throws : Bool
  pub response : Option ℕ
  pub storage_fails : Bool

-- The reporter with the storage that it refers to. Times of the steady clock are in ticks.
pub record Reporter (J : Type 0) : Type 0 where
  pub config : CentralServerConfig
  pub queue : Queue J
  pub retry_attempt : ℕ
  pub next_retry : ℕ

-- The constructor; `none` is the `invalid_argument` exception.
unfoldable pub http_central_reporter :
    {J : Type 0} → CentralServerConfig → Queue J → Option (Reporter J)
http_central_reporter c q =
    if c.production && not (starts_with c.base_url "https://")
    then none
    else some (record { config = c; queue = q; retry_attempt = 0; next_retry = epoch })

unfoldable pub is_success : Option ℕ → Bool
is_success none = false
is_success (some status) = leb 200 status && ltb status 300

-- `none` is an exception.
unfoldable pub send : Attempt → Option Bool
unfolding is_success
send a = if a.stop_requested then some false else elim a.token [
  | none ↦ some false
  | some _ ↦ if a.dump_throws then none else some (is_success a.response)
]

-- What one call of `get` meets, with the parsed body of the answer, if it parses.
pub record Fetch (J : Type 0) : Type 0 where
  pub attempt : Attempt
  pub body : Option J

unfoldable pub get : {J : Type 0} → Fetch J → Option J
unfolding is_success
get f = if f.attempt.stop_requested then none else elim f.attempt.token [
  | none ↦ none
  | some _ ↦ if is_success f.attempt.response then f.body else none
]

unfoldable pub fetch_configuration : {J : Type 0} → Fetch J → Option J
unfolding get
fetch_configuration f = get f

-- One round of the loop of `flush`: the stop token at its start, the attempt, and the system clock.
pub record Round : Type 0 where
  pub stopped : Bool
  pub attempt : Attempt
  pub now : ℕ

pub data Delivery : Type 0 where
  delivered failed threw : Delivery

module _ {J : Type 0} (json : JsonLib J) where
  open json use {object, text, put, at?, value_text}

  -- `{{"delivery_path", path}, {"body", value}}`
  unfoldable pub envelope : String → J → J
  envelope path value = put (put object "delivery_path" (text path)) "body" value

  -- The clock and the random device are arguments. The second answer is whether the message was
  -- sent; `none` is an exception.
  unfoldable pub send_or_queue :
      String → J → Attempt → String → ℕ → Reporter J → Reporter J × Option Bool
  unfolding envelope
  send_or_queue path value a uuid now r =
      let (q, stored) =
        enqueue_event json (envelope path value) r.config.max_queue_size uuid a.storage_fails now
          r.queue in
      elim (send a) [
        | none ↦ (r, none)
        | some true ↦ (r, some true)
        | some false ↦ (record r { queue = q }, if stored then some false else none)
      ]

  -- The condition in the loop of `flush`.
  unfoldable pub deliver : J → Attempt → Delivery
  deliver event a = elim (value_text event "delivery_path" "") [
    | none ↦ threw
    | some path ↦ if str_eq path "" then failed else elim (at? event "body") [
      | none ↦ failed
      | some _ ↦ elim (send a) [ none ↦ threw | some true ↦ delivered | some false ↦ failed ]
    ]
  ]

  -- `retry_attempt_ = min(retry_attempt_ + 1, 8)`
  unfoldable pub count_attempt : Reporter J → Reporter J
  count_attempt r = record r { retry_attempt = min (r.retry_attempt + 1) 8 }

  -- A failure whose row is marked: the row and the reporter wait.
  unfoldable pub back_off : ℕ → ℕ → QueueRow J → Reporter J → Reporter J
  unfolding count_attempt
  back_off steady now row r =
      let counted = count_attempt r in
      let delay = seconds (2 ^ counted.retry_attempt) in
      record counted {
        next_retry = steady + delay;
        queue = mark_event_failed row.id delay now r.queue;
      }

  unfoldable pub sent_one : QueueRow J → Reporter J → Reporter J
  sent_one row r = record r {
    queue = mark_event_sent row.id r.queue;
    retry_attempt = 0;
    next_retry = epoch;
  }

  -- The loop over the rows that were read, from round `i` on, with the count of what was sent. The
  -- second answer is `none` for an exception of the condition or of the marking of the row.
  unfoldable pub flush_rows :
      (ℕ → Round) → ℕ → ℕ → List (QueueRow J) → ℕ → Reporter J → Reporter J × Option ℕ
  unfolding count_attempt
  flush_rows rounds steady i [] sent r = (r, some sent)
  flush_rows rounds steady i (row ∷ rows) sent r = elim (rounds i).stopped [
    | true ↦ (r, some sent)
    | false ↦ elim (deliver row.payload (rounds i).attempt) [
      | threw ↦ (r, none)
      | failed ↦ elim (rounds i).attempt.storage_fails [
        | true ↦ (count_attempt r, none)
        | false ↦ (back_off steady (rounds i).now row r, some sent)
      ]
      | delivered ↦ elim (rounds i).attempt.storage_fails [
        | true ↦ (r, none)
        | false ↦ flush_rows rounds steady (i + 1) rows (sent + 1) (sent_one row r)
      ]
    ]
  ]

  unfoldable pub flush : (ℕ → Round) → ℕ → ℕ → Reporter J → Reporter J × Option ℕ
  flush rounds steady now r =
      if ltb steady r.next_retry
      then (r, some 0)
      else flush_rows rounds steady 0 (pending_events 100 now r.queue) 0 r

  -- A heartbeat that gets through flushes the queue; an exception of the flush leaves the call.
  unfoldable pub send_heartbeat :
      J → Attempt → String → (ℕ → Round) → ℕ → ℕ → Reporter J → Reporter J × Option Bool
  send_heartbeat value a uuid rounds steady now r =
      let (r', sent) = send_or_queue "/api/v1/agent/heartbeat" value a uuid now r in
      let (flushed, count) = flush rounds steady now r' in
      elim sent [
        | none ↦ (r', none)
        | some false ↦ (r', some false)
        | some true ↦ (flushed, elim count [ none ↦ none | some _ ↦ some true ])
      ]

  unfoldable pub send_check_results :
      J → Attempt → String → ℕ → Reporter J → Reporter J × Option Bool
  send_check_results = send_or_queue "/api/v1/agent/check-results/batch"

  unfoldable pub send_incidents : J → Attempt → String → ℕ → Reporter J → Reporter J × Option Bool
  send_incidents = send_or_queue "/api/v1/agent/incidents/batch"

  unfoldable pub send_signal_samples :
      J → Attempt → String → ℕ → Reporter J → Reporter J × Option Bool
  send_signal_samples = send_or_queue "/api/v1/agent/signal-samples/batch"

  unfoldable pub send_discovery : J → Attempt → String → ℕ → Reporter J → Reporter J × Option Bool
  send_discovery = send_or_queue "/api/v1/agent/discovery"

  unfoldable pub send_configuration_status :
      J → Attempt → String → ℕ → Reporter J → Reporter J × Option Bool
  send_configuration_status = send_or_queue "/api/v1/agent/config/status"
