-- ===== src/Storage/Queue.antt =====
-- The outbound queue: `enqueue_event`, `pending_events`, `mark_event_sent`, `mark_event_failed`,
-- `pending_event_count`, `oldest_pending_event_at` and `next_sequence_number` of
-- src/storage/local_storage.cpp. A table is the list of its rows in the order of `id`. Each
-- operation runs in one transaction under the mutex. The texts of times compare as the times that
-- they print, so a row holds the times, cut to whole seconds as `format_utc` prints them.
pub mod Bounds
pub mod Order
pub mod Delivery
pub mod Unlimited
pub mod Held
use scada_guard.Prelude.{
  ℕ, zero, suc, ◌+◌, ◌-◌, ◌≤◌, String, Bool, true, false, not, ◌&&◌, ◌||◌, Option, none, some, List,
  [], ◌∷◌, ◌++◌, keep, any, length, take, str_eq, ltb, leb, ◌==◌, if◌then◌else◌, map,
}
use scada_guard.Model.{JsonLib, floor_seconds}

infixl 5 ◌>>=◌
abbrev ◌>>=◌ {ℓ κ} : {A : Type ℓ} {B : Type κ} → Option A → (A → Option B) → Option B
none >>= f = none
some a >>= f = f a

-- A row of `outbound_queue`. `P` is the type of the JSON texts.
pub record QueueRow (P : Type 0) : Type 0 where
  pub id : ℕ
  pub message_id : String
  pub kind : String
  pub sequence_number : ℕ
  pub payload : P
  pub created_at : ℕ
  pub attempt_count : ℕ
  pub next_attempt_at : Option ℕ

-- `last_id` is the counter that AUTOINCREMENT keeps, `sequence` the row 'sequence_number' of
-- `agent_state`, which is 0 until it is first asked for.
pub record Queue (P : Type 0) : Type 0 where
  pub rows : List (QueueRow P)
  pub last_id : ℕ
  pub sequence : ℕ

-- What `enqueue_event` takes from the message of an event.
pub record Event (P : Type 0) : Type 0 where
  pub payload : P
  pub kind : String
  pub message_id : String
  pub sequence_number : ℕ

-- `kind NOT IN('incident','incidents')`
abbrev pub is_trimmed_kind : String → Bool
is_trimmed_kind kind = not (str_eq kind "incident") && not (str_eq kind "incidents")

-- The first `n` rows that pass the test are dropped.
unfoldable pub drop_first {ℓ} : {A : Type ℓ} → (A → Bool) → ℕ → List A → List A
drop_first p zero xs = xs
drop_first p (suc n) [] = []
drop_first p (suc n) (x ∷ xs) = elim (p x) [
  | true ↦ drop_first p n xs
  | false ↦ x ∷ drop_first p (suc n) xs
]

module _ {P : Type 0} where
  abbrev pub is_trimmed : QueueRow P → Bool
  is_trimmed row = is_trimmed_kind row.kind

  -- DELETE … ORDER BY id LIMIT MAX(0, COUNT(*) - max_size + 1)
  trim : ℕ → List (QueueRow P) → List (QueueRow P)
  unfolding drop_first
  trim max_size rows = drop_first is_trimmed (length (keep is_trimmed rows) + 1 - max_size) rows

  unfoldable pub empty : Queue P
  empty = record { rows = []; last_id = 0; sequence = 0 }

  unfoldable pub next_sequence_number : Queue P → Queue P × ℕ
  next_sequence_number q = (record q { sequence = q.sequence + 1 }, q.sequence + 1)

  -- INSERT OR IGNORE: the column `message_id` is UNIQUE. AUTOINCREMENT gives out the next id also
  -- when the row is ignored.
  insert_row : QueueRow P → Queue P → Queue P
  insert_row row q =
      if any (λ r. str_eq r.message_id row.message_id) q.rows
      then record q { last_id = row.id }
      else record q { rows = q.rows ++ row ∷ []; last_id = row.id }

  abbrev pub new_row : Event P → ℕ → Queue P → QueueRow P
  new_row event now q = record {
    id = q.last_id + 1;
    message_id = event.message_id;
    kind = event.kind;
    sequence_number = event.sequence_number;
    payload = event.payload;
    created_at = floor_seconds now;
    attempt_count = 0;
    next_attempt_at = none;
  }

  -- The rows that the trimming leaves.
  pub kept_rows : String → ℕ → List (QueueRow P) → List (QueueRow P)
  unfolding trim
  kept_rows kind max_size rows =
      if not (str_eq kind "incidents") && ltb 0 max_size then trim max_size rows else rows

  -- What the transaction of `enqueue_event` commits for a message that is read. The exceptions that
  -- roll it back are in `enqueue_event`.
  unfoldable pub store_event : Event P → ℕ → ℕ → Queue P → Queue P
  unfolding kept_rows insert_row next_sequence_number
  store_event event max_size now q =
      insert_row (new_row event now q)
        (record (next_sequence_number q).0 { rows = kept_rows event.kind max_size q.rows })

  -- `next_attempt_at IS NULL OR next_attempt_at <= ?`
  abbrev pub is_due : ℕ → QueueRow P → Bool
  is_due now row = elim row.next_attempt_at [ none ↦ true | some t ↦ leb t (floor_seconds now) ]

  unfoldable pub pending_events : ℕ → ℕ → Queue P → List (QueueRow P)
  pending_events limit now q = take limit (keep (is_due now) q.rows)

  unfoldable pub mark_event_sent : ℕ → Queue P → Queue P
  mark_event_sent id q = record q { rows = keep (λ r. not (r.id == id)) q.rows }

  fail_row : ℕ → ℕ → QueueRow P → QueueRow P
  fail_row id at row =
      if row.id == id
      then record row { attempt_count = row.attempt_count + 1; next_attempt_at = some at }
      else row

  -- `retry_delay` is a duration in ticks.
  unfoldable pub mark_event_failed : ℕ → ℕ → ℕ → Queue P → Queue P
  unfolding fail_row
  mark_event_failed id retry_delay now q = record q {
    rows = map (fail_row id (floor_seconds (now + retry_delay))) q.rows;
  }

  unfoldable pub pending_event_count : Queue P → ℕ
  pending_event_count q = length q.rows

  unfoldable pub oldest_pending_event_at : Queue P → Option ℕ
  oldest_pending_event_at q = elim q.rows [ [] ↦ none | r ∷ rs ↦ some r.created_at ]

module _ {J : Type 0} (json : JsonLib J) where
  open json use {at?, value_text, value_number}

  -- The event's `body`, or the event itself.
  pub message_of : J → J
  message_of event = elim (at? event "body") [ none ↦ event | some body ↦ body ]

  -- `uuid` is the identifier that the random device would give; `none` is an exception.
  read_event : J → String → ℕ → Option (Event J)
  unfolding message_of
  read_event event uuid sequence = do
    kind ← value_text (message_of event) "message_kind" "incidents"
    message_id ← value_text (message_of event) "message_id" uuid
    persisted ← value_number (message_of event) "sequence_number" sequence
    some (record {
      payload = event;
      kind = kind;
      message_id = message_id;
      sequence_number = persisted;
    })

  -- `fails` says whether one of the statements or `event.dump()` throws. Any exception rolls the
  -- transaction back: the queue is as it was, and the answer is `false`.
  unfoldable pub enqueue_event : J → ℕ → String → Bool → ℕ → Queue J → Queue J × Bool
  unfolding read_event
  enqueue_event event max_size uuid fails now q =
      elim (read_event event uuid (next_sequence_number q).1) [
        | none ↦ (q, false)
        | some e ↦ if fails then (q, false) else (store_event e max_size now q, true)
      ]

-- The calls that change the queue, with the clock and the message that they get; a call that throws
-- changes nothing.
pub data Call (P : Type 0) : Type 0 where
  stores : Event P → ℕ → ℕ → Call P
  numbers : Call P
  sends : ℕ → Call P
  fails : ℕ → ℕ → ℕ → Call P

module _ {P : Type 0} where
  pub call : Call P → Queue P → Queue P
  call (stores event max_size now) q = store_event event max_size now q
  call numbers q = (next_sequence_number q).0
  call (sends id) q = mark_event_sent id q
  call (fails id delay now) q = mark_event_failed id delay now q

  pub calls : List (Call P) → Queue P → Queue P
  calls [] q = q
  calls (c ∷ cs) q = calls cs (call c q)
