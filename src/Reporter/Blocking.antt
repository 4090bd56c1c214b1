-- ===== src/Reporter/Blocking.antt =====
-- How long the reporter waits after a failure, and what a message that cannot be sent does to those
-- behind it.
use scada_guard.Prelude.{
  ℕ, zero, suc, ◌+◌, ◌≤◌, ◌^◌, min, max, true, Option, none, some, ◌⊎◌, List, [], ◌∷◌, ◌≡◌, refl,
  arith, ltb, take, keep, Bool-cases, inl, inr,
}
use scada_guard.Model.{JsonLib, seconds}
use scada_guard.Storage.Queue.{Queue, QueueRow, pending_events, is_due}
use scada_guard.Storage.Queue.Delivery.{ids, ids-mark_event_failed}
use scada_guard.Reporter.{
  Reporter, Round, Attempt, failed, deliver, count_attempt, back_off, sent_one, flush_rows, flush,
}

pow_le : (n : ℕ) → 2 ^ min n 8 ≤ 256
pow_le zero = omega arith
pow_le (suc zero) = omega arith
pow_le (suc (suc zero)) = omega arith
pow_le (suc (suc (suc zero))) = omega arith
pow_le (suc (suc (suc (suc zero)))) = omega arith
pow_le (suc (suc (suc (suc (suc zero))))) = omega arith
pow_le (suc (suc (suc (suc (suc (suc zero)))))) = omega arith
pow_le (suc (suc (suc (suc (suc (suc (suc zero))))))) = omega arith
pow_le (suc (suc (suc (suc (suc (suc (suc (suc n)))))))) =
    let e : min (suc (suc (suc (suc (suc (suc (suc (suc n)))))))) 8 ≡ 8 = omega arith in
    rw e (omega arith)

module _ {J : Type 0} (json : JsonLib J) (rounds : ℕ → Round) (steady : ℕ) where
  -- The wait that a reporter may have before it, from the clock's `steady`.
  abbrev pub Waits : ℕ → Reporter J → Type 0
  Waits limit r = (r.retry_attempt ≤ 8) × (r.next_retry ≤ max limit (steady + seconds 256))

  back_off-Waits :
      (limit now : ℕ) (row : QueueRow J) (r : Reporter J)
      → Waits limit (back_off json steady now row r)
  unfolding back_off
  back_off-Waits limit now row r = (omega arith, omega (arith, pow_le (r.retry_attempt + 1)))

  sent_one-Waits :
      (limit : ℕ) (row : QueueRow J) (r : Reporter J) → Waits limit (sent_one json row r)
  unfolding sent_one
  sent_one-Waits limit row r = (omega arith, omega arith)

  flush_rows-Waits :
      (limit i sent : ℕ) (rows : List (QueueRow J)) (r : Reporter J)
      → Waits limit r
      → Waits limit (flush_rows json rounds steady i rows sent r).0
  unfolding flush_rows count_attempt
  flush_rows-Waits limit i sent [] r h = h
  flush_rows-Waits limit i sent (row ∷ rows) r h = ground (
    arith,
    back_off-Waits limit (rounds i).now row r,
    flush_rows-Waits limit (i + 1) (sent + 1) rows (sent_one json row r),
    sent_one-Waits limit row r,
  )

  -- A flush of a reporter whose count of attempts is at most 8 leaves such a one, which tries
  -- again at the latest 256 seconds after the flush, or when it was to try before.
  pub flush-Waits :
      (now : ℕ) (r : Reporter J)
      → r.retry_attempt ≤ 8
      → Waits r.next_retry (flush json rounds steady now r).0
  unfolding flush
  flush-Waits now r h =
      ground (
        arith,
        flush_rows-Waits r.next_retry 0 0 (pending_events 100 now r.queue) r (h, omega arith),
      )

  pending_head :
      (now : ℕ) (q : Queue J) (row : QueueRow J) (rows : List (QueueRow J))
      → q.rows ≡ row ∷ rows
      → is_due now row ≡ true
      → pending_events 100 now q ≡ row ∷ take 99 (keep (is_due now) rows)
  unfolding pending_events
  pending_head now q row rows e due = rw (e, due)

  deliver_unnamed :
      (payload : J) (a : Attempt)
      → json.value_text payload "delivery_path" "" ≡ some ""
      → deliver json payload a ≡ failed
  unfolding deliver
  deliver_unnamed payload a unnamed = rw (unnamed, deliver)

  -- The number that a flush answers is 0, unless the storage throws when the row is marked.
  abbrev pub IsNothing : Option ℕ → Type 0
  IsNothing count = (count ≡ some 0) ⊎ (((rounds 0).attempt.storage_fails ≡ true) × (count ≡ none))

  flush_rows_failing :
      (row : QueueRow J) (rows : List (QueueRow J)) (r : Reporter J)
      → deliver json row.payload (rounds 0).attempt ≡ failed
      → let (after, count) = flush_rows json rounds steady 0 (row ∷ rows) 0 r in
        IsNothing count × (ids after.queue.rows ≡ ids r.queue.rows)
  unfolding flush_rows back_off count_attempt
  flush_rows_failing row rows r fails = (
    elim (Bool-cases (rounds 0).stopped) [
      | inl stopped ↦ rw (flush_rows, stopped) (inl refl)
      | inr runs ↦ elim (Bool-cases (rounds 0).attempt.storage_fails) [
        | inl lost ↦ rw (flush_rows, runs, fails, lost) (inr (refl, refl))
        | inr stored ↦ rw (flush_rows, runs, fails, stored) (inl refl)
      ]
    ],
    ground (
      arith,
      ids-mark_event_failed row.id (seconds (2 ^ min (r.retry_attempt + 1) 8)) (rounds 0).now
          r.queue,
    ),
  )

  -- If the row at the head of the queue is due and its payload names no path, a flush sends no
  -- row at all, whatever the server would answer, and the queue keeps all its ids. The flush answers
  -- 0, unless the storage throws at the marking of that row.
  pub flush_blocked :
      (now : ℕ) (r : Reporter J) (row : QueueRow J) (rows : List (QueueRow J))
      → r.queue.rows ≡ row ∷ rows
      → is_due now row ≡ true
      → json.value_text row.payload "delivery_path" "" ≡ some ""
      → IsNothing (flush json rounds steady now r).1
        × (ids (flush json rounds steady now r).0.queue.rows ≡ ids r.queue.rows)
  unfolding flush
  flush_blocked now r row rows e due unnamed = elim (Bool-cases (ltb steady r.next_retry)) [
    | inl early ↦ rw (early, flush) (inl refl, refl)
    | inr late ↦
        rw (late, flush, pending_head now r.queue row rows e due)
          (flush_rows_failing row _ r (deliver_unnamed row.payload (rounds 0).attempt unnamed))
  ]
