-- ===== src/Checks/Files.antt =====
-- The file activity check of src/checks/checks.cpp, with the state that it keeps in the storage.
pub mod Restart
use scada_guard.Prelude.{
  ℕ, ◌+◌, ◌-◌, ◌/◌, String, Bool, true, false, not, ◌&&◌, Option, none, some, ltb, leb, ◌==◌,
  if◌then◌else◌, ℤ, sub_ℕ, leb_ℤ, pos, negsuc, pos_part,
}
use scada_guard.Model.{HealthStatus, CheckResult, JsonLib, UtcLib, epoch, ticks_per_second}
use scada_guard.Storage.Tables.{FileCheckState}
use scada_guard.Checks.{TextLib, ◌<>◌, base}

pub record FileActivityCheckConfig : Type 0 where
  pub id : String
  pub path : String
  pub warning_unchanged_seconds : ℤ
  pub critical_unchanged_seconds : ℤ
  pub fail_on_shrink : Bool

pub record FileActivityCheck : Type 0 where
  pub config : FileActivityCheckConfig
  pub has_store : Bool
  pub previous_size : ℕ
  pub last_change : ℕ
  pub initialized : Bool

-- The size, the modification time on the system clock, and that clock.
pub record FileFacts : Type 0 where
  pub size : ℕ
  pub modified_system : ℕ
  pub now : ℕ

-- Where the queries of the file end.
pub data FileAnswer : Type 0 where
  cancelled absent unreadable : FileAnswer
  no_size no_time : String → FileAnswer
  facts : FileFacts → FileAnswer

-- The constructor; `stored` is what the storage answers, if there is one.
unfoldable pub file_activity_check :
    FileActivityCheckConfig → Bool → Option FileCheckState → FileActivityCheck
file_activity_check c has_store stored = elim stored [
  | none ↦ record {
    config = c;
    has_store = has_store;
    previous_size = 0;
    last_change = epoch;
    initialized = false;
  }
  | some s ↦ record {
    config = c;
    has_store = has_store;
    previous_size = s.size;
    last_change = s.last_change_at;
    initialized = true;
  }
]

-- The part of `execute` that changes the state; the flags are `changed` and `shrunk`.
unfoldable pub track : FileFacts → FileActivityCheck → FileActivityCheck × Bool × Bool
track f t =
    let changed = t.initialized && not (f.size == t.previous_size) in
    let shrunk = t.initialized && ltb f.size t.previous_size in
    (
      record t {
        initialized = true;
        previous_size = f.size;
        last_change = if not t.initialized then f.now else if changed then f.now else t.last_change;
      },
      changed,
      shrunk,
    )

-- `duration_cast<seconds>` of a difference, which cuts towards zero.
unfoldable pub whole_seconds : ℤ → ℤ
whole_seconds (pos n) = pos (n / ticks_per_second)
whole_seconds (negsuc n) = sub_ℕ 0 ((n + 1) / ticks_per_second)

unfoldable pub activity_status : FileActivityCheckConfig → Bool → ℤ → HealthStatus
activity_status c shrunk unchanged =
    if shrunk && c.fail_on_shrink
    then HealthStatus.critical
    else if leb_ℤ c.critical_unchanged_seconds unchanged
    then HealthStatus.critical
    else if leb_ℤ c.warning_unchanged_seconds unchanged
    then HealthStatus.warning
    else HealthStatus.ok

module _ {J : Type 0} (json : JsonLib J) (utc : UtcLib) (text_lib : TextLib) where
  open json use {object, text, number, bool, put}
  open utc use {format_utc}

  abbrev blank_result : FileActivityCheck → ℕ → CheckResult J
  blank_result t clock = base json utc text_lib t.config.id "file-activity" clock

  -- `number_ℤ` is the JSON document of a whole number.
  activity_result :
      (ℤ → J) → FileFacts → FileActivityCheck → Bool → Bool → CheckResult J → CheckResult J
  unfolding activity_status whole_seconds
  activity_result number_ℤ f t changed shrunk r =
      let unchanged = whole_seconds (sub_ℕ f.now t.last_change) in
      record r {
        status = activity_status t.config shrunk unchanged;
        message =
            if shrunk
            then "Monitored file shrank unexpectedly"
            else if changed
            then "Monitored file changed"
            else "Monitored file is readable";
        details =
            put
              (put
                (put
                  (put
                    (put
                      (put (put (put object "path" (text t.config.path)) "exists" (bool true))
                        "readable" (bool true))
                      "size_bytes" (number f.size))
                    "last_modified_at" (text (format_utc f.modified_system)))
                  "changed" (bool changed))
                "shrunk" (bool shrunk))
              "unchanged_seconds" (number_ℤ unchanged);
      }

  abbrev stored_state : FileFacts → FileActivityCheck → FileCheckState
  stored_state f t = record {
    check_id = t.config.id;
    size = f.size;
    modified_at = f.modified_system;
    last_change_at = t.last_change;
  }

  -- The result, the state after it, and what is saved.
  unfoldable pub check_file :
      (ℤ → J)
      → FileAnswer
      → ℕ
      → FileActivityCheck
      → CheckResult J × FileActivityCheck × Option FileCheckState
  unfolding base track activity_result
  check_file number_ℤ cancelled clock t =
      (record (blank_result t clock) { message = "File activity check cancelled" }, t, none)
  check_file number_ℤ absent clock t = (
    record (blank_result t clock) {
      status = HealthStatus.critical;
      message = "Monitored file does not exist";
      details = put (put object "path" (text t.config.path)) "exists" (bool false);
    },
    t,
    none,
  )
  check_file number_ℤ unreadable clock t = (
    record (blank_result t clock) {
      status = HealthStatus.critical;
      message = "Monitored file is not readable";
      details = put (put object "path" (text t.config.path)) "readable" (bool false);
    },
    t,
    none,
  )
  check_file number_ℤ (no_size reason) clock t =
      (record (blank_result t clock) { message = "Cannot read file size: " <> reason }, t, none)
  check_file number_ℤ (no_time reason) clock t = (
    record (blank_result t clock) { message = "Cannot read file modification time: " <> reason },
    t,
    none,
  )
  check_file number_ℤ (facts f) clock t =
      let (t', changed, shrunk) = track f t in
      (
        activity_result number_ℤ f t' changed shrunk (blank_result t clock),
        t',
        if t.has_store then some (stored_state f t') else none,
      )
