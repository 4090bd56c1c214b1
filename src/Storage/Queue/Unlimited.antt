-- ===== src/Storage/Queue/Unlimited.antt =====
-- Messages without a kind: `enqueue_event` files them as `incidents`.
use scada_guard.Prelude.{
  ℕ, ◌+◌, String, Bool, false, none, some, List, [], ◌∷◌, ◌++◌, ◌≡◌, refl, any, length,
  length-append, str_eq,
}
use scada_guard.Model.{JsonLib}
use scada_guard.Storage.Queue.{
  Queue, QueueRow, Event, enqueue_event, read_event, store_event, kept_rows, new_row,
  next_sequence_number, message_of,
}

abbrev pub has_id : {J : Type 0} → String → Queue J → Bool
has_id id q = any (λ r. str_eq r.message_id id) q.rows

module _ {J : Type 0} where
  kept_rows-incidents :
      (max_size : ℕ) (rows : List (QueueRow J)) → kept_rows "incidents" max_size rows ≡ rows
  unfolding kept_rows
  kept_rows-incidents max_size rows = refl

  store_event-incidents :
      (e : Event J) (max_size now : ℕ) (q : Queue J)
      → e.kind ≡ "incidents"
      → has_id e.message_id q ≡ false
      → (store_event e max_size now q).rows ≡ q.rows ++ new_row e now q ∷ []
  unfolding store_event
  store_event-incidents e max_size now q kind fresh =
      rw (kind, kept_rows-incidents max_size q.rows, fresh, store_event) refl

module _ {J : Type 0} (json : JsonLib J) where
  read_event-unnamed :
      (event : J) (uuid : String) (sequence : ℕ)
      → json.at? (message_of json event) "message_kind" ≡ none
      → json.at? (message_of json event) "message_id" ≡ none
      → json.at? (message_of json event) "sequence_number" ≡ none
      → read_event json event uuid sequence
        ≡ some (record {
          payload = event;
          kind = "incidents";
          message_id = uuid;
          sequence_number = sequence;
        })
  unfolding read_event
  read_event-unnamed event uuid sequence kind id number =
      rw
        (
          json.value_text-none (message_of json event) "message_kind" "incidents" kind,
          json.value_text-none (message_of json event) "message_id" uuid id,
          json.value_number-none (message_of json event) "sequence_number" sequence number,
        )
        refl

  pub message_of-body :
      (event body : J) → json.at? event "body" ≡ some body → message_of json event ≡ body
  unfolding message_of
  message_of-body event body e = rw (e, message_of) refl

  -- A body without kind, identifier and number adds a row, whatever the limit of the queue is and
  -- however many rows it has.
  pub enqueue_event-unnamed :
      (event body : J) (max_size : ℕ) (uuid : String) (now : ℕ) (q : Queue J)
      → json.at? event "body" ≡ some body
      → json.at? body "message_kind" ≡ none
      → json.at? body "message_id" ≡ none
      → json.at? body "sequence_number" ≡ none
      → has_id uuid q ≡ false
      → length (enqueue_event json event max_size uuid false now q).0.rows ≡ length q.rows + 1
  unfolding enqueue_event
  enqueue_event-unnamed event body max_size uuid now q at kind id number fresh =
      let m : message_of json event ≡ body = message_of-body event body at in
      rw
        (
          read_event-unnamed event uuid (next_sequence_number q).1 (rw m kind) (rw m id)
              (rw m number),
          enqueue_event,
          store_event-incidents
              (record {
                payload = event;
                kind = "incidents";
                message_id = uuid;
                sequence_number = (next_sequence_number q).1;
              })
              max_size now q refl fresh,
        )
        (length-append q.rows _)
