-- ===== src/Storage/Queue/Delivery.antt =====
-- Which rows are handed out for delivery, and which ids the marks leave.
use scada_guard.Prelude.{ℕ, not, List, [], ◌∷◌, ◌≡◌, refl, map, keep, arith, ◌==◌}
use scada_guard.Storage.Queue.{Queue, QueueRow, mark_event_sent, mark_event_failed, fail_row}

abbrev pub ids : {J : Type 0} → List (QueueRow J) → List ℕ
ids rows = map (λ r. r.id) rows

module _ {J : Type 0} where
  ids-keep :
      (id : ℕ) (rows : List (QueueRow J))
      → ids (keep (λ r. not (r.id == id)) rows) ≡ keep (λ i. not (i == id)) (ids rows)
  ids-keep id [] = refl
  ids-keep id (r ∷ rs) = ground (arith, ids-keep id rs)

  ids-fail_row : (id at : ℕ) (rows : List (QueueRow J)) → ids (map (fail_row id at) rows) ≡ ids rows
  unfolding fail_row
  ids-fail_row id at [] = refl
  ids-fail_row id at (r ∷ rs) = ground (arith, ids-fail_row id at rs)

  pub ids-mark_event_sent :
      (id : ℕ) (q : Queue J)
      → ids (mark_event_sent id q).rows ≡ keep (λ i. not (i == id)) (ids q.rows)
  unfolding mark_event_sent
  ids-mark_event_sent id q = ids-keep id q.rows

  pub ids-mark_event_failed :
      (id delay now : ℕ) (q : Queue J) → ids (mark_event_failed id delay now q).rows ≡ ids q.rows
  unfolding mark_event_failed
  ids-mark_event_failed id delay now q = ids-fail_row id _ q.rows
