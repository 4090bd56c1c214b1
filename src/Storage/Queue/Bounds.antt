-- ===== src/Storage/Queue/Bounds.antt =====
-- What `enqueue_event` drops and what it keeps.
use scada_guard.Prelude.{
  ℕ, zero, suc, ◌+◌, ◌-◌, ◌≤◌, ◌<◌, Bool, true, not, List, [], ◌∷◌, ◌++◌, ◌≡◌, refl, sym, ap, keep,
  keep-append, drop, length-drop, any, length, length-append, str_eq, arith, Bool-cases, inl, inr,
  if◌then◌else◌,
}
use mathlib.Core.List.{append-nil}
use scada_guard.Storage.Queue.{
  QueueRow, Queue, Event, drop_first, is_trimmed_kind, is_trimmed, kept_rows, new_row, store_event,
}

module _ {ℓ} {A : Type ℓ} (p : A → Bool) where
  -- The oldest rows that pass go, and the rest of them stay.
  keep-drop_first : (n : ℕ) (xs : List A) → keep p (drop_first p n xs) ≡ drop n (keep p xs)
  unfolding drop_first
  keep-drop_first zero xs = refl
  keep-drop_first (suc n) [] = refl
  keep-drop_first (suc n) (x ∷ xs) =
      ground (arith, keep-drop_first n xs, keep-drop_first (suc n) xs)

  keep-not-drop_first :
      (n : ℕ) (xs : List A) → keep (λ x. not (p x)) (drop_first p n xs) ≡ keep (λ x. not (p x)) xs
  unfolding drop_first
  keep-not-drop_first zero xs = refl
  keep-not-drop_first (suc n) [] = refl
  keep-not-drop_first (suc n) (x ∷ xs) =
      ground (arith, keep-not-drop_first n xs, keep-not-drop_first (suc n) xs)

-- Not an incident: the rows that `trim` may drop.
abbrev pub droppable : {P : Type 0} → List (QueueRow P) → List (QueueRow P)
droppable rows = keep is_trimmed rows

abbrev pub lasting : {P : Type 0} → List (QueueRow P) → List (QueueRow P)
lasting rows = keep (λ r. not (is_trimmed r)) rows

-- The row that the INSERT adds, unless the message is there already.
abbrev pub added : {P : Type 0} → Event P → ℕ → Queue P → List (QueueRow P) → List (QueueRow P)
added event now q kept =
    if any (λ r. str_eq r.message_id event.message_id) kept then [] else new_row event now q ∷ []

module _ {P : Type 0} (event : Event P) (max_size now : ℕ) (q : Queue P) where
  abbrev kept : List (QueueRow P)
  kept = kept_rows event.kind max_size q.rows

  -- After the trimming the new row comes last.
  pub rows-store_event : (store_event event max_size now q).rows ≡ kept ++ added event now q kept
  unfolding store_event
  rows-store_event = elim (Bool-cases (any (λ r. str_eq r.message_id event.message_id) kept)) [
    | inl there ↦ rw (there, store_event) (sym (append-nil kept))
    | inr fresh ↦ rw (fresh, store_event)
  ]

  length-added : length (droppable (added event now q kept)) ≤ 1
  length-added = ground arith

  lasting-kept : lasting kept ≡ lasting q.rows
  unfolding kept_rows
  lasting-kept =
      ground
        (arith, keep-not-drop_first is_trimmed (length (droppable q.rows) + 1 - max_size) q.rows)

  droppable-kept :
      is_trimmed_kind event.kind ≡ true
      → 0 < max_size
      → droppable kept ≡ drop (length (droppable q.rows) + 1 - max_size) (droppable q.rows)
  unfolding kept_rows
  droppable-kept plain pos =
      ground (arith, keep-drop_first is_trimmed (length (droppable q.rows) + 1 - max_size) q.rows)

  -- A message that is no incident leaves at most `max_size` rows that are none, however many there
  -- were, if the limit is not zero.
  pub store_event_bound :
      is_trimmed_kind event.kind ≡ true
      → 0 < max_size
      → length (droppable (store_event event max_size now q).rows) ≤ max_size
  store_event_bound plain pos =
      rw (rows-store_event, keep-append is_trimmed kept)
        (omega (
          arith,
          length-append (droppable kept) (droppable (added event now q kept)),
          length-added,
          ap length (droppable-kept plain pos),
          length-drop (length (droppable q.rows) + 1 - max_size) (droppable q.rows),
        ))

  -- The rows of incidents are never dropped nor reordered, whatever is stored: the new one, if it is
  -- an incident, comes behind them.
  pub lasting-store_event :
      lasting (store_event event max_size now q).rows
      ≡ lasting q.rows ++ lasting (added event now q kept)
  lasting-store_event =
      rw (rows-store_event, keep-append (λ r. not (is_trimmed r)) kept, lasting-kept)
