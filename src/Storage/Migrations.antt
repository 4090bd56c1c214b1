-- ===== src/Storage/Migrations.antt =====
-- The migrations of the schema in src/storage/local_storage.cpp: which tables a file has, the
-- version that it carries, and the old queue with what is taken over from it.
pub mod Events
pub mod Rounds
use scada_guard.Prelude.{
  ℕ, zero, suc, String, Bool, true, false, not, ◌&&◌, Option, none, some, List, [], ◌∷◌, ◌++◌, any,
  str_eq, map, keep, if◌then◌else◌, if_rule, ℤ, pos, negsuc, ltb_ℤ, leb_ℤ, ◌≡◌, ◌⊎◌, inl, inr, refl,
  arith, ◌∙◌, Option-cases, some_inj, ap,
}
use scada_guard.Checks.{TextLib, ◌<>◌}

pub record EventRow (J : Type 0) : Type 0 where
  pub id : ℕ
  pub json : J
  pub created_at : String
  pub sent_at : Option String

-- A row of the outbound queue that is taken over.
pub record LegacyRow (J : Type 0) : Type 0 where
  pub message_id : String
  pub kind : String
  pub sequence_number : ℕ
  pub payload : J
  pub created_at : String

pub record Database (J : Type 0) : Type 0 where
  pub version : ℤ
  pub tables : List String
  pub event_queue : List (EventRow J)
  pub outbound_queue : List (LegacyRow J)

-- Where the loop over the versions ends; `failed` is an exception.
pub data Migration (J : Type 0) : Type 0 where
  failed out_of_fuel : Migration J
  migrated : Database J → Migration J

infixl 5 ◌>>=◌
abbrev ◌>>=◌ {ℓ κ} : {A : Type ℓ} {B : Type κ} → Option A → (A → Option B) → Option B
none >>= f = none
some a >>= f = f a

-- `==` of the version with a case of the switch.
abbrev is_version : ℤ → ℕ → Bool
is_version v n = leb_ℤ v (pos n) && leb_ℤ (pos n) v

module _ {J : Type 0} (text_lib : TextLib) where
  abbrev pub with_version : ℕ → Database J → Database J
  with_version n db = record db { version = pos n }

  -- `CREATE TABLE`, which fails for a table that exists, and `CREATE TABLE IF NOT EXISTS`.
  unfoldable pub create_table : String → Database J → Option (Database J)
  create_table name db =
      if any (str_eq name) db.tables
      then none
      else some (record db { tables = db.tables ++ name ∷ [] })

  unfoldable pub create_if_missing : String → Database J → Database J
  create_if_missing name db =
      if any (str_eq name) db.tables then db else record db { tables = db.tables ++ name ∷ [] }

  unfoldable pub migrate_1_to_2 : Database J → Option (Database J)
  unfolding create_table
  migrate_1_to_2 db = do
    a ← create_table "agent_state" db
    b ← create_table "log_state" a
    c ← create_table "file_state" b
    d ← create_table "signal_history" c
    some (with_version 2 d)

  abbrev pub is_unsent : EventRow J → Bool
  is_unsent row = elim row.sent_at [ none ↦ true | some t ↦ false ]

  unfoldable pub legacy_row : EventRow J → LegacyRow J
  legacy_row row = record {
    message_id = "legacy-" <> text_lib.decimal row.id;
    kind = "incidents";
    sequence_number = row.id;
    payload = row.json;
    created_at = row.created_at;
  }

  -- `INSERT OR IGNORE` on the unique message identifiers, row by row from the old queue.
  unfoldable pub take_over : List (EventRow J) → List (LegacyRow J) → List (LegacyRow J)
  unfolding legacy_row
  take_over [] queue = queue
  take_over (row ∷ rows) queue =
      let after = take_over rows in
      let known = any (λ old. str_eq old.message_id (legacy_row row).message_id) queue in
      if not (is_unsent row)
      then after queue
      else if known
      then after queue
      else after (queue ++ legacy_row row ∷ [])

  -- The table is new, so that its rows are those taken over.
  unfoldable pub migrate_2_to_3 : Database J → Option (Database J)
  unfolding create_table take_over
  migrate_2_to_3 db = do
    a ← create_table "outbound_queue" db
    some (with_version 3 (record a { outbound_queue = take_over a.event_queue [] }))

  unfoldable pub migrate_3_to_4 : Database J → Option (Database J)
  unfolding create_table
  migrate_3_to_4 db = do a ← create_table "discovery_state" db; some (with_version 4 a)

  -- The switch of the loop.
  unfoldable pub migrate_once : Database J → Option (Database J)
  unfolding migrate_1_to_2 migrate_2_to_3 migrate_3_to_4
  migrate_once db =
      if is_version db.version 1
      then migrate_1_to_2 db
      else if is_version db.version 2
      then migrate_2_to_3 db
      else if is_version db.version 3
      then migrate_3_to_4 db
      else none

  -- The loop, on fuel for its rounds, and the test after it.
  unfoldable pub upgrade : ℕ → Database J → Migration J
  upgrade zero db =
      if ltb_ℤ db.version (pos 4)
      then out_of_fuel
      else if ltb_ℤ (pos 4) db.version
      then failed
      else migrated db
  upgrade (suc fuel) db =
      let next : Migration J = elim (migrate_once db) [
        | none ↦ failed
        | some db' ↦ upgrade fuel db'
      ] in
      if ltb_ℤ db.version (pos 4)
      then next
      else if ltb_ℤ (pos 4) db.version
      then failed
      else migrated db

  -- `migrate`; the version is that of the row in `schema_version`, which is 1 for a new file.
  unfoldable pub migrate : Database J → Migration J
  unfolding create_if_missing
  migrate db = upgrade 3 (
      create_if_missing "event_queue" (
        create_if_missing "incidents"
          (create_if_missing "check_state" (create_if_missing "schema_version" db))))
