-- ===== src/Reporter/Flush.antt =====
-- What `flush` takes out of the queue.
use native.Mathlib.Nat.{zero-add}
use scada_guard.Prelude.{
  ℕ, ◌+◌, ◌≤◌, Bool, none, some, ap, ◌||◌, if◌then◌else◌, true, false, not, List, [], ◌∷◌, ◌≡◌,
  refl, ◌∙◌, keep, length, arith, ◌==◌, ltb,
}
use scada_guard.Model.{JsonLib}
use scada_guard.Storage.Queue.{QueueRow, pending_events}
use scada_guard.Storage.Queue.Delivery.{ids, ids-mark_event_sent, ids-mark_event_failed}
use scada_guard.Reporter.{
  Reporter, Round, delivered, failed, threw, deliver, count_attempt, back_off, sent_one, flush_rows,
  flush,
}

module _ {J : Type 0} (json : JsonLib J) (rounds : ℕ → Round) where
  -- The rows that the server takes and the storage drops: those before the first that fails or
  -- throws, or before the stop.
  pub accepted : ℕ → List (QueueRow J) → List (QueueRow J)
  accepted i [] = []
  accepted i (row ∷ rows) = elim (rounds i).stopped [
    | true ↦ []
    | false ↦ elim (deliver json row.payload (rounds i).attempt) [
      | delivered ↦
          let later = accepted (i + 1) rows in
          if (rounds i).attempt.storage_fails then [] else row ∷ later
      | _ ↦ []
    ]
  ]

  -- Whether the row at which the flush ends makes it throw: the delivery throws, or the marking of the
  -- row does.
  pub throws : ℕ → List (QueueRow J) → Bool
  throws i [] = false
  throws i (row ∷ rows) = elim (rounds i).stopped [
    | true ↦ false
    | false ↦ elim (deliver json row.payload (rounds i).attempt) [
      | threw ↦ true
      | failed ↦ (rounds i).attempt.storage_fails
      | delivered ↦ (rounds i).attempt.storage_fails || throws (i + 1) rows
    ]
  ]

-- The ids without those of some rows.
pub without : {J : Type 0} → List (QueueRow J) → List ℕ → List ℕ
without [] is = is
without (r ∷ rs) is = without rs (keep (λ i. not (i == r.id)) is)

due_test : (a b : ℕ) → b ≤ a → ltb a b ≡ false
due_test a b h = ground arith

module _ {J : Type 0} (json : JsonLib J) (rounds : ℕ → Round) (steady : ℕ) where
  ids-back_off :
      (now : ℕ) (row : QueueRow J) (r : Reporter J)
      → ids (back_off json steady now row r).queue.rows ≡ ids r.queue.rows
  unfolding back_off
  ids-back_off now row r = ids-mark_event_failed row.id _ now r.queue

  ids-sent_one :
      (row : QueueRow J) (r : Reporter J)
      → ids (sent_one json row r).queue.rows ≡ keep (λ i. not (i == row.id)) (ids r.queue.rows)
  unfolding sent_one
  ids-sent_one row r = ids-mark_event_sent row.id r.queue

  flush_rows-ids :
      (i sent : ℕ) (rows : List (QueueRow J)) (r : Reporter J)
      → ids (flush_rows json rounds steady i rows sent r).0.queue.rows
        ≡ without (accepted json rounds i rows) (ids r.queue.rows)
  unfolding flush_rows accepted without count_attempt
  flush_rows-ids i sent [] r = refl
  flush_rows-ids i sent (row ∷ rows) r = ground (
    arith,
    ids-back_off (rounds i).now row r,
    ids-sent_one row r,
    flush_rows-ids (i + 1) (sent + 1) rows (sent_one json row r),
  )

  flush_rows-count :
      (i sent : ℕ) (rows : List (QueueRow J)) (r : Reporter J)
      → (flush_rows json rounds steady i rows sent r).1 ≡ (
          if throws json rounds i rows
          then none
          else some (sent + length (accepted json rounds i rows)))
  unfolding flush_rows accepted throws
  flush_rows-count i sent [] r = ap (λ n. some n) (omega arith)
  flush_rows-count i sent (row ∷ rows) r =
      ground (arith, flush_rows-count (i + 1) (sent + 1) rows (sent_one json row r))

  -- A flush that is not held back takes out of the queue exactly these of the first hundred rows
  -- that are due: those that the server accepted and the storage could drop, before the first row
  -- that fails or throws and before the stop. The ids of the other rows stay, in their order. It
  -- answers the number of these rows, except that it throws if the delivery of the row at which it
  -- ends throws, or the storage cannot mark that row.
  pub flush_lem :
      (now : ℕ) (r : Reporter J)
      → r.next_retry ≤ steady
      → let taken = accepted json rounds 0 (pending_events 100 now r.queue) in
        let (after, count) = flush json rounds steady now r in
        let throwing = throws json rounds 0 (pending_events 100 now r.queue) in
        (count ≡ (if throwing then none else some (length taken)))
        × (ids after.queue.rows ≡ without taken (ids r.queue.rows))
  unfolding flush
  flush_lem now r due =
      rw (due_test steady r.next_retry due, flush)
        (
          flush_rows-count 0 0 (pending_events 100 now r.queue) r
              ∙ ap
                  (λ n.
                    if throws json rounds 0 (pending_events 100 now r.queue) then none else some n)
                  (zero-add _),
          flush_rows-ids 0 0 (pending_events 100 now r.queue) r,
        )
