-- ===== src/Storage/Queue/Order.antt =====
-- The rows of the queue stay in the order in which they came, each message once.
use scada_guard.Prelude.{
  ℕ, zero, suc, ◌+◌, ◌-◌, ◌≤◌, ◌<◌, String, Bool, false, not, ◌&&◌, List, [], ◌∷◌, ◌++◌, ◌≡◌, refl,
  keep, any, length, str_eq, eq_iff, arith, Bool-cases, inl, inr, ◌==◌, map, ltb,
}
use scada_guard.Storage.Queue.{
  QueueRow, Queue, Event, Call, stores, numbers, sends, fails, drop_first, is_trimmed, kept_rows,
  new_row, store_event, next_sequence_number, mark_event_sent, mark_event_failed, fail_row, call,
  calls,
}

module _ {P : Type 0} where
  abbrev pub has_message : String → List (QueueRow P) → Bool
  has_message m rows = any (λ r. str_eq r.message_id m) rows

  -- The ids rise from above `low` to at most `high`, and no message is there twice.
  abbrev pub IsRising : ℕ → ℕ → List (QueueRow P) → Type 0
  IsRising low high [] = low ≤ high
  IsRising low high (r ∷ rs) =
      (low < r.id) × IsRising r.id high rs × (has_message r.message_id rs ≡ false)

  IsRising-mono :
      (low low' high : ℕ) (rows : List (QueueRow P))
      → low' ≤ low
      → IsRising low high rows
      → IsRising low' high rows
  IsRising-mono low low' high [] h r = omega arith
  IsRising-mono low low' high (x ∷ xs) h r = (omega arith, r.1, r.2)

  IsRising-weaken :
      (low high high' : ℕ) (rows : List (QueueRow P))
      → high ≤ high'
      → IsRising low high rows
      → IsRising low high' rows
  IsRising-weaken low high high' [] h r = omega arith
  IsRising-weaken low high high' (x ∷ xs) h (above, rest, fresh) =
      (above, IsRising-weaken x.id high high' xs h rest, fresh)

  has_message-keep :
      (p : QueueRow P → Bool) (m : String) (rows : List (QueueRow P))
      → has_message m rows ≡ false
      → has_message m (keep p rows) ≡ false
  has_message-keep p m [] h = refl
  has_message-keep p m (x ∷ xs) h = ground (arith, has_message-keep p m xs)

  IsRising-keep :
      (p : QueueRow P → Bool) (low high : ℕ) (rows : List (QueueRow P))
      → IsRising low high rows
      → IsRising low high (keep p rows)
  IsRising-keep p low high [] r = r
  IsRising-keep p low high (x ∷ xs) r = elim (Bool-cases (p x)) [
    | inl stays ↦
        rw stays (r.0, IsRising-keep p x.id high xs r.1, has_message-keep p x.message_id xs r.2)
    | inr goes ↦
        rw goes
          (IsRising-mono x.id low high (keep p xs) (omega arith) (IsRising-keep p x.id high xs r.1))
  ]

  has_message-drop_first :
      (p : QueueRow P → Bool) (n : ℕ) (m : String) (rows : List (QueueRow P))
      → has_message m rows ≡ false
      → has_message m (drop_first p n rows) ≡ false
  unfolding drop_first
  has_message-drop_first p zero m xs h = h
  has_message-drop_first p (suc n) m [] h = refl
  has_message-drop_first p (suc n) m (x ∷ xs) h =
      ground (arith, has_message-drop_first p n m xs, has_message-drop_first p (suc n) m xs)

  IsRising-drop_first :
      (p : QueueRow P → Bool) (n low high : ℕ) (rows : List (QueueRow P))
      → IsRising low high rows
      → IsRising low high (drop_first p n rows)
  unfolding drop_first
  IsRising-drop_first p zero low high xs r = r
  IsRising-drop_first p (suc n) low high [] r = r
  IsRising-drop_first p (suc n) low high (x ∷ xs) r = elim (Bool-cases (p x)) [
    | inl goes ↦
        rw (goes, drop_first)
          (IsRising-drop_first p n low high xs (IsRising-mono x.id low high xs (omega arith) r.1))
    | inr stays ↦
        rw (stays, drop_first)
          (
            r.0,
            IsRising-drop_first p (suc n) x.id high xs r.1,
            has_message-drop_first p (suc n) x.message_id xs r.2,
          )
  ]

  has_message-fail_row :
      (id at : ℕ) (m : String) (rows : List (QueueRow P))
      → has_message m (map (fail_row id at) rows) ≡ has_message m rows
  unfolding fail_row
  has_message-fail_row id at m [] = refl
  has_message-fail_row id at m (x ∷ xs) = ground (arith, has_message-fail_row id at m xs)

  fail_row_same :
      (id at : ℕ) (r : QueueRow P)
      → ((fail_row id at r).id ≡ r.id) × ((fail_row id at r).message_id ≡ r.message_id)
  unfolding fail_row
  fail_row_same id at r = (ground arith, ground arith)

  IsRising-fail_row :
      (id at low high : ℕ) (rows : List (QueueRow P))
      → IsRising low high rows
      → IsRising low high (map (fail_row id at) rows)
  IsRising-fail_row id at low high [] r = r
  IsRising-fail_row id at low high (x ∷ xs) r =
      rw
        (
          (fail_row_same id at x).0,
          (fail_row_same id at x).1,
          has_message-fail_row id at x.message_id xs,
        )
        (r.0, IsRising-fail_row id at x.id high xs r.1, r.2)

  has_message-snoc :
      (m : String) (row : QueueRow P) (rows : List (QueueRow P))
      → has_message m rows ≡ false
      → str_eq row.message_id m ≡ false
      → has_message m (rows ++ row ∷ []) ≡ false
  has_message-snoc m row [] h e = ground arith
  has_message-snoc m row (x ∷ xs) h e = ground (arith, has_message-snoc m row xs)

  IsRising-snoc :
      (row : QueueRow P) (low high : ℕ) (rows : List (QueueRow P))
      → IsRising low high rows
      → high < row.id
      → has_message row.message_id rows ≡ false
      → IsRising low row.id (rows ++ row ∷ [])
  IsRising-snoc row low high [] r h fresh = (omega arith, omega arith, refl)
  IsRising-snoc row low high (x ∷ xs) r h fresh = (
    r.0,
    IsRising-snoc row x.id high xs r.1 h (ground arith),
    has_message-snoc x.message_id row xs r.2
        (ground (arith, eq_iff row.message_id x.message_id, eq_iff x.message_id row.message_id)),
  )

  abbrev pub IsOrdered : Queue P → Type 0
  IsOrdered q = IsRising 0 q.last_id q.rows

  kept_rows-IsRising :
      (kind : String) (max_size high : ℕ) (rows : List (QueueRow P))
      → IsRising 0 high rows
      → IsRising 0 high (kept_rows kind max_size rows)
  unfolding kept_rows
  kept_rows-IsRising kind max_size high rows r =
      elim (Bool-cases (not (str_eq kind "incidents") && ltb 0 max_size)) [
        | inl trims ↦ rw trims (
            IsRising-drop_first is_trimmed (length (keep is_trimmed rows) + 1 - max_size) 0 high
              rows r)
        | inr whole ↦ rw whole r
      ]

  store_event-IsOrdered :
      (event : Event P) (max_size now : ℕ) (q : Queue P)
      → IsOrdered q
      → IsOrdered (store_event event max_size now q)
  unfolding store_event
  store_event-IsOrdered event max_size now q r =
      elim (Bool-cases (has_message event.message_id (kept_rows event.kind max_size q.rows))) [
        | inl there ↦
            rw (there, store_event)
              (IsRising-weaken 0 q.last_id (q.last_id + 1) (kept_rows event.kind max_size q.rows)
                (omega arith) (kept_rows-IsRising event.kind max_size q.last_id q.rows r))
        | inr fresh ↦
            rw (fresh, store_event)
              (IsRising-snoc (new_row event now q) 0 q.last_id
                (kept_rows event.kind max_size q.rows)
                (kept_rows-IsRising event.kind max_size q.last_id q.rows r) (omega arith) fresh)
      ]

  call-IsOrdered : (c : Call P) (q : Queue P) → IsOrdered q → IsOrdered (call c q)
  unfolding call next_sequence_number mark_event_sent mark_event_failed
  call-IsOrdered (stores event max_size now) q r = store_event-IsOrdered event max_size now q r
  call-IsOrdered numbers q r = r
  call-IsOrdered (sends id) q r = IsRising-keep (λ x. not (x.id == id)) 0 q.last_id q.rows r
  call-IsOrdered (fails id delay now) q r = IsRising-fail_row id _ 0 q.last_id q.rows r

  -- After any calls on a queue in order, the empty one for instance, the rows stand in the order of
  -- their ids, no id is above the last one given out, and no message is there twice.
  pub calls-IsOrdered : (cs : List (Call P)) (q : Queue P) → IsOrdered q → IsOrdered (calls cs q)
  unfolding calls
  calls-IsOrdered [] q r = r
  calls-IsOrdered (c ∷ cs) q r = calls-IsOrdered cs (call c q) (call-IsOrdered c q r)
