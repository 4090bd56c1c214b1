-- ===== src/Storage/Queue/Held.antt =====
-- Messages that the trimming of the queue does not touch.
use scada_guard.Prelude.{
  ℕ, zero, suc, ◌+◌, ◌-◌, String, Bool, true, false, ◌||◌, if◌then◌else◌, some, List, [], ◌∷◌, ◌++◌,
  ◌≡◌, refl, any, keep, length, arith, str_eq, eq_refl, Bool-cases, inl, inr,
}
use scada_guard.Model.{JsonLib}
use scada_guard.Storage.Queue.{
  Queue, QueueRow, Event, drop_first, is_trimmed, trim, kept_rows, new_row, store_event,
  enqueue_event, read_event, next_sequence_number, message_of,
}
use scada_guard.Storage.Queue.Unlimited.{has_id, message_of-body}
use scada_guard.Storage.Queue.Bounds.{lasting, added, lasting-store_event, rows-store_event}

any-append {ℓ} :
    {A : Type ℓ} (p : A → Bool) (xs ys : List A) → any p (xs ++ ys) ≡ (any p xs || any p ys)
any-append p [] ys = refl
any-append p (x ∷ xs) ys = ground (arith, any-append p xs ys)

any-drop_first {ℓ} :
    {A : Type ℓ} (p q : A → Bool) (n : ℕ) (xs : List A)
    → any p xs ≡ false
    → any p (drop_first q n xs) ≡ false
unfolding drop_first
any-drop_first p q zero xs h = h
any-drop_first p q (suc n) [] h = refl
any-drop_first p q (suc n) (x ∷ xs) h =
    ground (arith, any-drop_first p q n xs, any-drop_first p q (suc n) xs)

or_true : (b : Bool) → (b || true) ≡ true
or_true true = refl
or_true false = refl

module _ {P : Type 0} where
  -- A message that the trimming does not touch is in the queue.
  abbrev pub is_held : String → Queue P → Bool
  is_held id q = any (λ r. str_eq r.message_id id) (lasting q.rows)

  pub is_held-store_event :
      (id : String) (e : Event P) (max_size now : ℕ) (q : Queue P)
      → is_held id q ≡ true
      → is_held id (store_event e max_size now q) ≡ true
  is_held-store_event id e max_size now q h =
      rw
        (
          lasting-store_event e max_size now q,
          any-append (λ r. str_eq r.message_id id) (lasting q.rows),
          h,
        )
        refl

  has_id-kept :
      (id kind : String) (max_size : ℕ) (q : Queue P)
      → has_id id q ≡ false
      → any (λ r. str_eq r.message_id id) (kept_rows kind max_size q.rows) ≡ false
  unfolding kept_rows trim
  has_id-kept id kind max_size q h = ground (
    arith,
    any-drop_first (λ r. str_eq r.message_id id) is_trimmed
        (length (keep is_trimmed q.rows) + 1 - max_size) q.rows,
  )

  pub has_id-store_event :
      (id : String) (e : Event P) (max_size now : ℕ) (q : Queue P)
      → has_id id q ≡ false
      → str_eq e.message_id id ≡ false
      → has_id id (store_event e max_size now q) ≡ false
  has_id-store_event id e max_size now q h other =
      let p : QueueRow P → Bool = λ r. str_eq r.message_id id in
      rw
        (
          rows-store_event e max_size now q,
          any-append p (kept_rows e.kind max_size q.rows),
          has_id-kept id e.kind max_size q h,
        )
        (elim (Bool-cases
          (any (λ r. str_eq r.message_id e.message_id) (kept_rows e.kind max_size q.rows))) [
            | inl there ↦ rw there refl
            | inr new ↦ rw (new, other) refl
          ])

  pub stored_incidents :
      (e : Event P) (max_size now : ℕ) (q : Queue P)
      → e.kind ≡ "incidents"
      → has_id e.message_id q ≡ false
      → is_held e.message_id (store_event e max_size now q) ≡ true
  stored_incidents e max_size now q kind fresh =
      let p : QueueRow P → Bool = λ r. str_eq r.message_id e.message_id in
      let new = has_id-kept e.message_id e.kind max_size q fresh in
      let comes : lasting (added e now q (kept_rows e.kind max_size q.rows))
          ≡ new_row e now q ∷ [] =
        rw (new, kind) refl in
      rw
        (
          lasting-store_event e max_size now q,
          comes,
          any-append p (lasting q.rows),
          eq_refl e.message_id,
        )
        (or_true (any p (lasting q.rows)))

module _ {J : Type 0} (json : JsonLib J) where
  read_event-named :
      (event : J) (kind id uuid : String) (number sequence : ℕ)
      → json.at? (message_of json event) "message_kind" ≡ some (json.text kind)
      → json.at? (message_of json event) "message_id" ≡ some (json.text id)
      → json.at? (message_of json event) "sequence_number" ≡ some (json.number number)
      → read_event json event uuid sequence
        ≡ some (record { payload = event; kind = kind; message_id = id; sequence_number = number })
  unfolding read_event
  read_event-named event kind id uuid number sequence k i n =
      let body = message_of json event in
      rw
        (
          json.value_text-some body (json.text kind) "message_kind" "incidents" k,
          json.get_text-text kind,
          json.value_text-some body (json.text id) "message_id" uuid i,
          json.get_text-text id,
          json.value_number-some body (json.number number) "sequence_number" sequence n,
          json.get_number-number number,
        )
        refl

  -- A body with its own kind, identifier and number is stored under them, unless the storage throws.
  pub enqueue_event-named :
      (event body : J) (kind id : String) (number max_size : ℕ) (uuid : String) (fails : Bool)
      (now : ℕ) (q : Queue J)
      → json.at? event "body" ≡ some body
      → json.at? body "message_kind" ≡ some (json.text kind)
      → json.at? body "message_id" ≡ some (json.text id)
      → json.at? body "sequence_number" ≡ some (json.number number)
      → enqueue_event json event max_size uuid fails now q ≡ (
          if fails then (q, false) else (
            store_event
                (record { payload = event; kind = kind; message_id = id; sequence_number = number })
                max_size
                now
                q,
            true,
          ))
  unfolding enqueue_event
  enqueue_event-named event body kind id number max_size uuid fails now q at k i n =
      let m : message_of json event ≡ body = message_of-body json event body at in
      rw
        (
          read_event-named event kind id uuid number (next_sequence_number q).1 (rw m k) (rw m i)
              (rw m n),
          enqueue_event,
        )
        refl
