-- ===== src/Cycle/Report/Messages.antt =====
-- What becomes of one message, and of the calls that follow an exception.
use scada_guard.Prelude.{
  ℕ, ◌+◌, String, Bool, true, false, Option, none, some, ◌≡◌, refl, ◌≢◌, if◌then◌else◌, str_eq,
  Bool-cases, inl, inr,
}
use scada_guard.Model.{JsonLib, UtcLib}
use scada_guard.Storage.Queue.{Event, store_event, enqueue_event, next_sequence_number}
use scada_guard.Storage.Queue.Unlimited.{has_id}
use scada_guard.Storage.Queue.Held.{
  is_held, is_held-store_event, has_id-store_event, stored_incidents, enqueue_event-named,
}
use scada_guard.State.{AgentConfig}
use scada_guard.Reporter.{Reporter, Attempt, send, envelope, send_or_queue}
use scada_guard.Cycle.{Sending, make_message, send_message}
use scada_guard.Cycle.Report.{and_then, send_if}

module _ {J : Type 0} where
  -- What holds of the reporter after a call that does not throw.
  abbrev pub Then : (Reporter J → Type 0) → Reporter J × Option Bool → Type 0
  Then P (r, none) = ⊥
  Then P (r, some sent) = P r

  -- What holds after one call that does not throw, and what a second call keeps or makes of it,
  -- also when it throws.
  pub and_then-After :
      (P Q : Reporter J → Type 0) (before : Reporter J × Option Bool)
      (call : Reporter J → Reporter J × Option Bool)
      → Then P before
      → ((r : Reporter J) → P r → Q (call r).0)
      → Q (and_then before call).0
  and_then-After P Q (r, none) call h next = absurd h
  and_then-After P Q (r, some sent) call h next = next r h

  pub and_then-keeps :
      (Q : Reporter J → Type 0) (before : Reporter J × Option Bool)
      (call : Reporter J → Reporter J × Option Bool)
      → Q before.0
      → ((r : Reporter J) → Q r → Q (call r).0)
      → Q (and_then before call).0
  and_then-keeps Q (r, none) call h next = h
  and_then-keeps Q (r, some sent) call h next = next r h

  pub send_if-After :
      (Q : Reporter J → Type 0) (condition : Bool) (call : Reporter J → Reporter J × Option Bool)
      (r : Reporter J)
      → (condition ≡ true → Q (call r).0)
      → (condition ≡ false → Q r)
      → Q (send_if condition call r).0
  send_if-After Q true call r taken skipped = taken refl
  send_if-After Q false call r taken skipped = skipped refl

  abbrev pub IsHeld : String → Reporter J → Type 0
  IsHeld id r = is_held id r.queue ≡ true

  abbrev pub IsAbsent : String → Reporter J → Type 0
  IsAbsent id r = has_id id r.queue ≡ false

module _ {J : Type 0} (json : JsonLib J) (utc : UtcLib) (agent : AgentConfig) (boot_id : String)
    (world : Sending) where
  -- The row that a message leaves if it does not get through.
  abbrev event_of : String → ℕ → String → J → Reporter J → Event J
  event_of path i kind payload r =
      let sequence = r.queue.sequence + 1 in
      record {
        payload = envelope json path (
            make_message json utc agent boot_id (world.uuid i) sequence (world.now i) kind payload);
        kind = kind;
        message_id = world.uuid i;
        sequence_number = sequence;
      }

  abbrev to_path : String → J → Attempt → String → ℕ → Reporter J → Reporter J × Option Bool
  to_path path = send_or_queue json path

  -- The queue after its number is drawn.
  abbrev numbered : Reporter J → Reporter J
  numbered r = record r { queue = (next_sequence_number r.queue).0 }

  -- The reporter with the message in its queue.
  abbrev queued : String → ℕ → String → J → Reporter J → Reporter J
  queued path i kind payload r = record r {
    queue =
        store_event (event_of path i kind payload r) r.config.max_queue_size (world.now i)
          (numbered r).queue;
  }

  enqueued :
      (path kind : String) (i : ℕ) (payload : J) (max_size : ℕ) (uuid : String) (fails : Bool)
      (r : Reporter J)
      → enqueue_event json
          (event_of path i kind payload r).payload
          max_size
          uuid
          fails
          (world.now i)
          (numbered r).queue
        ≡ (if fails then ((numbered r).queue, false) else (
          store_event (event_of path i kind payload r) max_size (world.now i) (numbered r).queue,
          true,
        ))
  unfolding make_message envelope next_sequence_number
  enqueued path kind i payload max_size uuid fails r =
      let body =
        make_message json utc agent boot_id (world.uuid i) (r.queue.sequence + 1) (world.now i) kind
          payload in
      enqueue_event-named json (event_of path i kind payload r).payload body kind (world.uuid i)
        (r.queue.sequence + 1) max_size uuid fails (world.now i) (next_sequence_number r.queue).0
        (simp (json.at?-put)) (simp (json.at?-put)) (simp (json.at?-put)) (simp (json.at?-put))

  abbrev sending : String → String → ℕ → J → Reporter J → Reporter J × Option Bool
  sending path kind i payload =
      send_message json utc (to_path path) agent boot_id world i kind payload

  -- The reporter after a message, by what becomes of it.
  abbrev outcome :
      String → String → ℕ → J → Reporter J → Option Bool → Bool → Reporter J × Option Bool
  outcome path kind i payload r none lost = (numbered r, none)
  outcome path kind i payload r (some true) lost = (numbered r, some true)
  outcome path kind i payload r (some false) true = (numbered r, none)
  outcome path kind i payload r (some false) false = (queued path i kind payload r, some false)

  send_message-outcome :
      (path kind : String) (i : ℕ) (payload : J) (r : Reporter J) (sent : Option Bool) (lost : Bool)
      → world.number_fails i ≡ false
      → send (world.attempt i) ≡ sent
      → (world.attempt i).storage_fails ≡ lost
      → sending path kind i payload r ≡ outcome path kind i payload r sent lost
  unfolding send_message send_or_queue next_sequence_number
  send_message-outcome path kind i payload r none lost number e f =
      rw (number, send_or_queue, e) refl
  send_message-outcome path kind i payload r (some true) lost number e f =
      rw (number, send_or_queue, e) refl
  send_message-outcome path kind i payload r (some false) true number e f =
      rw
        (
          number,
          send_or_queue,
          e,
          f,
          enqueued path kind i payload r.config.max_queue_size (world.queue_uuid i) true r,
        )
        refl
  send_message-outcome path kind i payload r (some false) false number e f =
      rw
        (
          number,
          send_or_queue,
          e,
          f,
          enqueued path kind i payload r.config.max_queue_size (world.queue_uuid i) false r,
        )
        refl

  outcome-IsAbsent :
      (id path kind : String) (i : ℕ) (payload : J) (r : Reporter J) (sent : Option Bool)
      → sent ≢ none
      → str_eq (world.uuid i) id ≡ false
      → IsAbsent id r
      → Then (IsAbsent id) (outcome path kind i payload r sent false)
  unfolding next_sequence_number
  outcome-IsAbsent id path kind i payload r none some_answer other h = some_answer refl
  outcome-IsAbsent id path kind i payload r (some true) some_answer other h = h
  outcome-IsAbsent id path kind i payload r (some false) some_answer other h =
      has_id-store_event id (event_of path i kind payload r) r.config.max_queue_size (world.now i)
        (next_sequence_number r.queue).0 h other

  pub send_message-IsAbsent :
      (id path kind : String) (i : ℕ) (payload : J) (r : Reporter J)
      → world.number_fails i ≡ false
      → send (world.attempt i) ≢ none
      → (world.attempt i).storage_fails ≡ false
      → str_eq (world.uuid i) id ≡ false
      → IsAbsent id r
      → Then (IsAbsent id) (sending path kind i payload r)
  send_message-IsAbsent id path kind i payload r number some_answer stores other h =
      rw (send_message-outcome path kind i payload r _ false number refl stores)
        (outcome-IsAbsent id path kind i payload r (send (world.attempt i)) some_answer other h)

  outcome-IsHeld :
      (id path kind : String) (i : ℕ) (payload : J) (r : Reporter J) (sent : Option Bool)
      (lost : Bool)
      → IsHeld id r
      → IsHeld id (outcome path kind i payload r sent lost).0
  unfolding next_sequence_number
  outcome-IsHeld id path kind i payload r none lost h = h
  outcome-IsHeld id path kind i payload r (some true) lost h = h
  outcome-IsHeld id path kind i payload r (some false) true h = h
  outcome-IsHeld id path kind i payload r (some false) false h =
      is_held-store_event id (event_of path i kind payload r) r.config.max_queue_size (world.now i)
        (next_sequence_number r.queue).0 h

  unnumbered :
      (path kind : String) (i : ℕ) (payload : J) (r : Reporter J)
      → world.number_fails i ≡ true
      → sending path kind i payload r ≡ (r, none)
  unfolding send_message
  unnumbered path kind i payload r fails = rw fails refl

  pub send_message-IsHeld :
      (id path kind : String) (i : ℕ) (payload : J) (r : Reporter J)
      → IsHeld id r
      → IsHeld id (sending path kind i payload r).0
  send_message-IsHeld id path kind i payload r h = elim (Bool-cases (world.number_fails i)) [
    | inl fails ↦ rw (unnumbered path kind i payload r fails) h
    | inr number ↦ rw (send_message-outcome path kind i payload r _ _ number refl refl) (
        outcome-IsHeld id path kind i payload r (send (world.attempt i))
          (world.attempt i).storage_fails h)
  ]

  pub incidents-IsHeld :
      (path : String) (i : ℕ) (payload : J)
      → world.number_fails i ≡ false
      → send (world.attempt i) ≡ some false
      → (world.attempt i).storage_fails ≡ false
      → (r : Reporter J) → IsAbsent (world.uuid i) r
      → IsHeld (world.uuid i) (sending path "incidents" i payload r).0
  unfolding next_sequence_number
  incidents-IsHeld path i payload number failed stores r h =
      rw (send_message-outcome path "incidents" i payload r (some false) false number failed stores)
        (stored_incidents (event_of path i "incidents" payload r) r.config.max_queue_size
          (world.now i) (next_sequence_number r.queue).0 refl h)
