-- ===== src/Storage/Tables.antt =====
-- The other tables of src/storage/local_storage.cpp: the states of checks, incidents, signals and the
-- agent. A table with a text key is a map. `json TEXT` columns hold the documents themselves: `parse`
-- reads what `dump` wrote. Of a load, `none` is an exception.
pub mod Restart
use scada_guard.Prelude.{
  ℕ, ◌+◌, ◌-◌, ◌%◌, ◌^◌, ◌<◌, ◌≡◌, String, Bool, true, false, not, Option, none, some, List, [],
  ◌∷◌, ◌++◌, Map, lookup, insert, values, keep, str_eq, ltb, leb, arith, if◌then◌else◌, ℤ, pos,
  negsuc,
}
use scada_guard.Model.{CheckResult, Incident, JsonLib, UtcLib, floor_seconds}
use scada_guard.Model.Json.{result_to_json, result_from_json, incident_to_json, incident_from_json}

pub record LogCheckState : Type 0 where
  pub check_id : String
  pub offset : ℕ
  pub file_id : ℕ
  pub volume_serial : ℕ
  pub updated_at : ℕ

pub record FileCheckState : Type 0 where
  pub check_id : String
  pub size : ℕ
  pub modified_at : ℕ
  pub last_change_at : ℕ

-- Rows of `log_state` and `file_state`, without their keys.
pub record LogRow : Type 0 where
  pub offset : ℤ
  pub file_id : ℤ
  pub volume_serial : ℤ
  pub updated_at : String

pub record FileRow : Type 0 where
  pub size : ℤ
  pub modified_at : String
  pub last_change_at : String

pub record IncidentRow (J : Type 0) : Type 0 where
  pub incident_id : String
  pub json : J
  pub active : Bool
  pub updated_at : ℕ

pub record Tables (J : Type 0) : Type 0 where
  pub check_state : Map J
  pub incident_rows : List (IncidentRow J)
  pub log_state : Map LogRow
  pub file_state : Map FileRow
  pub agent_state : Map J
  pub discovery_state : Map J

-- `static_cast<std::int64_t>` of a `uint64_t`, and back.
unfoldable pub to_int64 : ℕ → ℤ
to_int64 n = if ltb n (2 ^ 63) then pos n else negsuc (2 ^ 64 - n - 1)

unfoldable pub to_uint64 : ℤ → ℕ
to_uint64 (pos n) = n % 2 ^ 64
to_uint64 (negsuc n) = (2 ^ 64 - (n + 1) % 2 ^ 64) % 2 ^ 64

-- `static_cast<std::uint32_t>` of an `int64_t`.
unfoldable pub to_uint32 : ℤ → ℕ
unfolding to_uint64
to_uint32 z = to_uint64 z % 2 ^ 32

infixl 5 ◌>>=◌
abbrev ◌>>=◌ {ℓ κ} : {A : Type ℓ} {B : Type κ} → Option A → (A → Option B) → Option B
none >>= f = none
some a >>= f = f a

-- The rows that are read one after the other; an exception ends the load.
unfoldable pub read_all : {A B : Type 0} → (A → Option B) → List A → Option (List B)
read_all f [] = some []
read_all f (a ∷ as') = do b ← f a; bs ← read_all f as'; some (b ∷ bs)

module _ {J : Type 0} (json : JsonLib J) (utc : UtcLib) where
  open utc use {format_utc, parse_utc}

  -- `fails` says whether `dump()` or the statement throws; `none` is that exception, after which the
  -- tables are as they were.
  unfoldable pub save_check : Bool → CheckResult J → Tables J → Option (Tables J)
  save_check fails r t =
      if fails
      then none
      else some
          (record t { check_state = insert r.check_id (result_to_json json utc r) t.check_state })

  unfoldable pub load_checks : Tables J → Option (List (CheckResult J))
  unfolding read_all
  load_checks t = read_all (result_from_json json utc) (values t.check_state)

  -- INSERT … ON CONFLICT(incident_id) DO UPDATE: the row keeps its place.
  unfoldable pub upsert_incident : IncidentRow J → List (IncidentRow J) → List (IncidentRow J)
  upsert_incident row [] = row ∷ []
  upsert_incident row (r ∷ rs) =
      let rest = upsert_incident row rs in
      if str_eq r.incident_id row.incident_id then row ∷ rs else r ∷ rest

  unfoldable pub store_incident : Incident J → ℕ → Tables J → Tables J
  unfolding upsert_incident
  store_incident i now t = record t {
    incident_rows =
        upsert_incident
          (record {
            incident_id = i.incident_id;
            json = incident_to_json json utc i;
            active = i.active;
            updated_at = floor_seconds now;
          })
          t.incident_rows;
  }

  -- As for `save_check`.
  unfoldable pub save_incident : Bool → Incident J → ℕ → Tables J → Option (Tables J)
  unfolding store_incident
  save_incident fails i now t = if fails then none else some (store_incident i now t)

  -- ORDER BY updated_at; the order of equal times is SQLite's, and here that of the rows.
  place : IncidentRow J → List (IncidentRow J) → List (IncidentRow J)
  place row [] = row ∷ []
  place row (r ∷ rs) =
      let rest = place row rs in if ltb r.updated_at row.updated_at then r ∷ rest else row ∷ r ∷ rs

  by_updated_at : List (IncidentRow J) → List (IncidentRow J)
  unfolding place
  by_updated_at [] = []
  by_updated_at (r ∷ rs) = place r (by_updated_at rs)

  json_of : IncidentRow J → Option (Incident J)
  json_of r = incident_from_json json utc r.json

  unfoldable pub load_incidents : Tables J → Option (List (Incident J))
  unfolding by_updated_at read_all json_of
  load_incidents t = read_all json_of (by_updated_at t.incident_rows)

  abbrev pub log_row : LogCheckState → LogRow
  log_row s = record {
    offset = to_int64 s.offset;
    file_id = to_int64 s.file_id;
    volume_serial = to_int64 s.volume_serial;
    updated_at = format_utc s.updated_at;
  }

  unfoldable pub save_log_state : LogCheckState → Tables J → Tables J
  unfolding to_int64
  save_log_state s t = record t { log_state = insert s.check_id (log_row s) t.log_state }

  -- The outer `none` is an exception, the inner one that there is no row.
  unfoldable pub load_log_state : String → Tables J → Option (Option LogCheckState)
  unfolding to_uint64 to_uint32
  load_log_state id t = elim (lookup id t.log_state) [
    | none ↦ some none
    | some row ↦ elim (parse_utc row.updated_at) [
      | none ↦ none
      | some at ↦ some (
          some (record {
            check_id = id;
            offset = to_uint64 row.offset;
            file_id = to_uint64 row.file_id;
            volume_serial = to_uint32 row.volume_serial;
            updated_at = at;
          }))
    ]
  ]

  abbrev pub file_row : FileCheckState → FileRow
  file_row s = record {
    size = to_int64 s.size;
    modified_at = format_utc s.modified_at;
    last_change_at = format_utc s.last_change_at;
  }

  unfoldable pub save_file_state : FileCheckState → Tables J → Tables J
  unfolding to_int64
  save_file_state s t = record t { file_state = insert s.check_id (file_row s) t.file_state }

  unfoldable pub load_file_state : String → Tables J → Option (Option FileCheckState)
  unfolding to_uint64
  load_file_state id t = elim (lookup id t.file_state) [
    | none ↦ some none
    | some row ↦ elim (parse_utc row.modified_at) [
      | none ↦ none
      | some modified ↦ elim (parse_utc row.last_change_at) [
        | none ↦ none
        | some changed ↦ some (
            some (record {
              check_id = id;
              size = to_uint64 row.size;
              modified_at = modified;
              last_change_at = changed;
            }))
      ]
    ]
  ]

  unfoldable pub start_new_boot : String → Tables J → Tables J
  start_new_boot uuid t = record t { agent_state = insert "boot_id" (json.text uuid) t.agent_state }

  unfoldable pub save_discovery_report : J → Tables J → Tables J
  save_discovery_report report t = record t {
    discovery_state = insert "latest_report" report t.discovery_state;
  }

  unfoldable pub load_discovery_report : Tables J → Option J
  load_discovery_report t = lookup "latest_report" t.discovery_state

  unfoldable pub save_working_central_configuration : J → Tables J → Tables J
  save_working_central_configuration c t = record t {
    agent_state =
        insert "working_central_configuration" c
          (elim (lookup "working_central_configuration" t.agent_state) [
            | none ↦ t.agent_state
            | some old ↦ insert "previous_central_configuration" old t.agent_state
          ]);
  }

  unfoldable pub load_working_central_configuration : Tables J → Option J
  load_working_central_configuration t = lookup "working_central_configuration" t.agent_state

  unfoldable pub load_previous_central_configuration : Tables J → Option J
  load_previous_central_configuration t = lookup "previous_central_configuration" t.agent_state
