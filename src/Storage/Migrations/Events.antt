-- ===== src/Storage/Migrations/Events.antt =====
-- What the migration to version 3 does with the events of the old queue.
use mathlib.Core.List.{append-nil}
use text.Mathlib.TextLemmas.{append_cancel_left}
use scada_guard.Prelude.{
  ℕ, Bool, false, Option, none, some, List, [], ◌∷◌, ◌++◌, any, All, keep, map, str_eq, eq_iff,
  if_rule, ◌≡◌, refl, ap, sym, ◌∙◌, arith, ◌==◌, Bool-cases, inl, inr,
}
use scada_guard.Checks.{TextLib}
use scada_guard.Storage.Migrations.{
  EventRow, LegacyRow, Database, is_unsent, legacy_row, take_over, create_table, migrate_2_to_3,
  ◌>>=◌, with_version,
}

any-snoc {ℓ} :
    {A : Type ℓ} (p : A → Bool) (xs : List A) (y : A)
    → any p xs ≡ false
    → p y ≡ false
    → any p (xs ++ y ∷ []) ≡ false
any-snoc p [] y h e = ground arith
any-snoc p (x ∷ xs) y h e = ground (arith, any-snoc p xs y)

snoc-append {ℓ} :
    {A : Type ℓ} (xs : List A) (y : A) (ys : List A) → (xs ++ y ∷ []) ++ ys ≡ xs ++ y ∷ ys
snoc-append [] y ys = refl
snoc-append (x ∷ xs) y ys = ap (λ l. x ∷ l) (snoc-append xs y ys)

module _ {J : Type 0} where
  -- The primary key of the old queue.
  abbrev pub HasKey : List (EventRow J) → Type 0
  HasKey [] = Unit {0}
  HasKey (row ∷ rows) = (any (λ r. r.id == row.id) rows ≡ false) × HasKey rows

  module _ (text_lib : TextLib) where
    -- A queue has the message of an event.
    abbrev has_message : List (LegacyRow J) → EventRow J → Bool
    has_message queue row =
        any (λ old. str_eq old.message_id (legacy_row text_lib row).message_id) queue

    module _ (injective : (m n : ℕ) → text_lib.decimal m ≡ text_lib.decimal n → m ≡ n) where
      legacy_row-distinct :
          (r x : EventRow J)
          → (x.id == r.id) ≡ false
          → str_eq (legacy_row text_lib r).message_id (legacy_row text_lib x).message_id ≡ false
      unfolding legacy_row
      legacy_row-distinct r x e =
          let a = (legacy_row text_lib r).message_id in
          let b = (legacy_row text_lib x).message_id in
          elim (Bool-cases (str_eq a b)) [
            | inl same ↦
                let ids : r.id ≡ x.id = injective r.id x.id (
                  append_cancel_left "legacy-" (text_lib.decimal r.id) (text_lib.decimal x.id)
                    ((eq_iff a b).0 same)) in
                absurd (ground (arith))
            | inr other ↦ other
          ]

      fresh_after :
          (queue : List (LegacyRow J)) (r : EventRow J) (rows : List (EventRow J))
          → any (λ x. x.id == r.id) rows ≡ false
          → All (λ x. has_message queue x ≡ false) rows
          → All (λ x. has_message (queue ++ legacy_row text_lib r ∷ []) x ≡ false) rows
      fresh_after queue r [] key h = tt
      fresh_after queue r (x ∷ rows) key (h, hs) = (
        any-snoc (λ old. str_eq old.message_id (legacy_row text_lib x).message_id) queue
            (legacy_row text_lib r) h (legacy_row-distinct r x (ground (arith))),
        fresh_after queue r rows (ground (arith)) hs,
      )

      take_over-append :
          (rows : List (EventRow J)) (queue : List (LegacyRow J))
          → HasKey rows
          → All (λ x. has_message queue x ≡ false) rows
          → take_over text_lib rows queue
            ≡ queue ++ map (legacy_row text_lib) (keep (is_unsent text_lib) rows)
      unfolding take_over
      take_over-append [] queue key h = sym (append-nil queue)
      take_over-append (r ∷ rows) queue (key, keys) (h, hs) =
          elim (Bool-cases (is_unsent text_lib r)) [
            | inl unsent ↦
                rw (unsent, take_over, h)
                  (take_over-append rows (queue ++ legacy_row text_lib r ∷ []) keys
                      (fresh_after queue r rows key hs)
                    ∙ snoc-append queue (legacy_row text_lib r)
                        (map (legacy_row text_lib) (keep (is_unsent text_lib) rows)))
            | inr sent ↦ rw (sent, take_over) (take_over-append rows queue keys hs)
          ]

      fresh_nil : (rows : List (EventRow J)) → All (λ x. has_message [] x ≡ false) rows
      fresh_nil [] = tt
      fresh_nil (r ∷ rows) = (refl, fresh_nil rows)

      -- What a migration keeps of the events.
      abbrev Keeps : List (EventRow J) → Option (Database J) → Type 0
      Keeps events none = Unit {0}
      Keeps events (some db) =
          (db.event_queue ≡ events)
          × (db.outbound_queue ≡ map (legacy_row text_lib) (keep (is_unsent text_lib) events))

      migrate_2_to_3-Keeps :
          (db : Database J)
          → HasKey db.event_queue
          → Keeps db.event_queue (migrate_2_to_3 text_lib db)
      unfolding migrate_2_to_3 create_table
      migrate_2_to_3-Keeps db key =
          let next : Database J → Option (Database J) = λ a. some (
            with_version text_lib 3
              (record a { outbound_queue = take_over text_lib a.event_queue [] })) in
          if_rule (λ o. Keeps db.event_queue (o >>= next)) (any (str_eq "outbound_queue") db.tables)
            none (some (record db { tables = db.tables ++ "outbound_queue" ∷ [] })) (λ e. tt)
            (λ e. (refl, take_over-append db.event_queue [] key (fresh_nil db.event_queue)))

      -- The migration to version 3 keeps the old queue, and the rows of the new one are those of
      -- the events that were not sent, each with its identifier, number, payload and time, in their
      -- order, if the ids of the events are distinct and different numbers have different texts.
      pub migrate_2_to_3-rows :
          (db after : Database J)
          → HasKey db.event_queue
          → migrate_2_to_3 text_lib db ≡ some after
          → (after.event_queue ≡ db.event_queue)
            × (after.outbound_queue
                ≡ map (legacy_row text_lib) (keep (is_unsent text_lib) db.event_queue))
      migrate_2_to_3-rows db after key e = rw e at (migrate_2_to_3-Keeps db key)
