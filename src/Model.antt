-- ===== src/Model.antt =====
-- include/scadaguard/model.hpp and src/model.cpp: the shared data types, their text forms, and the
-- interfaces to what they take from outside (JSON documents, UTC text).
pub mod Json
pub mod Uuid
use scada_guard.Prelude.{
  ℕ, String, Bool, true, false, Option, none, some, ◌≡◌, List, str_eq, if◌then◌else◌, ◌/◌, ◌*◌,
}

pub data HealthStatus : Type 0 where
  unknown ok warning critical : HealthStatus

-- Times are `system_clock` ticks since the epoch; `TimePoint{}` is `epoch`.
abbrev pub epoch : ℕ
epoch = 0

-- `system_clock` of the Windows build counts units of 100 ns.
abbrev pub ticks_per_second : ℕ
ticks_per_second = 10000000

abbrev pub seconds : ℕ → ℕ
seconds n = n * ticks_per_second

-- `std::chrono::floor<std::chrono::seconds>`
abbrev pub floor_seconds : ℕ → ℕ
floor_seconds t = t / ticks_per_second * ticks_per_second

pub record CheckResult (J : Type 0) : Type 0 where
  pub check_id : String
  pub component : String
  pub status : HealthStatus
  pub message : String
  pub observed_at : ℕ
  pub details : J

-- `R` is the type of `double`.
pub record SignalSample (R : Type 0) : Type 0 where
  pub signal_id : String
  pub value : R
  pub source_timestamp : ℕ
  pub received_timestamp : ℕ
  pub quality : String

pub record Incident (J : Type 0) : Type 0 where
  pub incident_id : String
  pub incident_key : String
  pub component : String
  pub severity : HealthStatus
  pub title : String
  pub description : String
  pub opened_at : ℕ
  pub closed_at : Option ℕ
  pub active : Bool
  pub details : J
  pub source : String
  pub last_seen_at : ℕ
  pub occurrence_count : ℕ

unfoldable pub to_string : HealthStatus → String
to_string HealthStatus.unknown = "unknown"
to_string HealthStatus.ok = "ok"
to_string HealthStatus.warning = "warning"
to_string HealthStatus.critical = "critical"

-- `none` is the `invalid_argument` exception.
unfoldable pub health_status_from_string : String → Option HealthStatus
health_status_from_string value =
    if str_eq value "unknown"
    then some HealthStatus.unknown
    else if str_eq value "ok"
    then some HealthStatus.ok
    else if str_eq value "warning"
    then some HealthStatus.warning
    else if str_eq value "critical"
    then some HealthStatus.critical
    else none

-- `nlohmann::json` over a carrier `J`: the operations that the agent calls, and their documented
-- behaviour. `none` is an exception of the library.
pub record JsonLib (J : Type 0) : Type 0 where
  pub object : J
  pub null : J
  pub text : String → J
  pub number : ℕ → J
  pub bool : Bool → J
  pub array : List J → J
  -- `j[key] = v` on an object
  pub put : J → String → J → J
  -- `contains` and `at` on an object
  pub at? : J → String → Option J
  pub is_null : J → Bool
  pub get_text : J → Option String
  pub get_number : J → Option ℕ
  pub get_bool : J → Option Bool
  -- `j.value(key, fallback)` for a fallback that is a text or a number
  pub value_text : J → String → String → Option String
  pub value_number : J → String → ℕ → Option ℕ
  pub at?-object : (k : String) → at? object k ≡ none
  pub at?-put :
      (j v : J) (k i : String) → at? (put j k v) i ≡ (if str_eq k i then some v else at? j i)
  pub is_null-null : is_null null ≡ true
  pub is_null-text : (s : String) → is_null (text s) ≡ false
  pub get_text-text : (s : String) → get_text (text s) ≡ some s
  pub get_number-number : (n : ℕ) → get_number (number n) ≡ some n
  pub get_bool-bool : (b : Bool) → get_bool (bool b) ≡ some b
  pub value_text-none : (j : J) (k d : String) → at? j k ≡ none → value_text j k d ≡ some d
  pub value_text-some : (j v : J) (k d : String) → at? j k ≡ some v → value_text j k d ≡ get_text v
  pub value_number-none :
      (j : J) (k : String) (d : ℕ) → at? j k ≡ none → value_number j k d ≡ some d
  pub value_number-some :
      (j v : J) (k : String) (d : ℕ) → at? j k ≡ some v → value_number j k d ≡ get_number v

-- `format_utc` and `parse_utc` rest on `std::format` and `std::chrono::parse`, whose formats are
-- opaque here: what is used is that a printed time reads back as its whole second.
pub record UtcLib : Type 0 where
  pub format_utc : ℕ → String
  pub parse_utc : String → Option ℕ
  pub parse_utc-format_utc : (t : ℕ) → parse_utc (format_utc t) ≡ some (floor_seconds t)
