-- ===== src/Checks/Logs.antt =====
-- The log pattern check of src/checks/checks.cpp, with the position that it keeps in the storage.
pub mod Reading
pub mod Search
use scada_guard.Prelude.{
  ℕ, ◌+◌, ◌-◌, ◌*◌, ◌^◌, min, String, Bool, true, false, not, ◌&&◌, ◌||◌, Option, none, some, List,
  [], ◌∷◌, ltb, ◌==◌, if◌then◌else◌, length, take, drop, map, find_if,
}
use scada_guard.Model.{HealthStatus, CheckResult, JsonLib, UtcLib, to_string}
use scada_guard.Storage.Tables.{LogCheckState}
use scada_guard.Checks.{TextLib, ◌<>◌, base}

pub record LogPatternGroup : Type 0 where
  pub name : String
  pub severity : HealthStatus
  pub patterns : List String

pub record LogCheckConfig : Type 0 where
  pub id : String
  pub path : String
  pub case_sensitive : Bool
  pub max_read_bytes : ℕ
  pub groups : List LogPatternGroup

pub record LogPatternCheck : Type 0 where
  pub config : LogCheckConfig
  pub has_store : Bool
  pub offset : ℕ
  pub file_id : ℕ
  pub volume_serial : ℕ
  pub identity_initialized : Bool

-- `BY_HANDLE_FILE_INFORMATION`, as far as it is used.
pub record Identity : Type 0 where
  pub file_index_high : ℕ
  pub file_index_low : ℕ
  pub volume_serial_number : ℕ

-- The size that is asked for, the bytes of the file when it is read (none, if it cannot be opened
-- again), the clock, and the stop token after the reading.
pub record LogFile : Type 0 where
  pub size : ℕ
  pub content : List ℕ
  pub now : ℕ
  pub stop_requested : Bool

-- Where the queries of the file end.
pub data LogAnswer : Type 0 where
  absent : LogAnswer
  no_handle no_identity : ℕ → LogAnswer
  no_size : Identity → String → LogAnswer
  log_file : Identity → LogFile → LogAnswer

-- The constructor; `stored` is what the storage answers, if there is one.
unfoldable pub log_pattern_check : LogCheckConfig → Bool → Option LogCheckState → LogPatternCheck
log_pattern_check c has_store stored = elim stored [
  | none ↦ record {
    config = c;
    has_store = has_store;
    offset = 0;
    file_id = 0;
    volume_serial = 0;
    identity_initialized = false;
  }
  | some s ↦ record {
    config = c;
    has_store = has_store;
    offset = s.offset;
    file_id = s.file_id;
    volume_serial = s.volume_serial;
    identity_initialized = true;
  }
]

-- `(high << 32) | low` of 32-bit halves.
unfoldable pub file_id_of : Identity → ℕ
file_id_of i = i.file_index_high * 2 ^ 32 + i.file_index_low

-- A file with another identity is read from its start.
unfoldable pub identify : Identity → LogPatternCheck → LogPatternCheck
unfolding file_id_of
identify i t =
    let other =
      not (file_id_of i == t.file_id) || not (i.volume_serial_number == t.volume_serial) in
    record t {
      offset = if t.identity_initialized && other then 0 else t.offset;
      identity_initialized = true;
      file_id = file_id_of i;
      volume_serial = i.volume_serial_number;
    }

-- The new data and the position behind it.
unfoldable pub read_data : LogFile → LogPatternCheck → LogPatternCheck × List ℕ
read_data f t =
    let offset = if ltb f.size t.offset then 0 else t.offset in
    let data' = take (min (f.size - offset) t.config.max_read_bytes) (drop offset f.content) in
    (record t { offset = offset + length data' }, data')

-- `std::string::starts_with` and `std::string::find` on bytes.
abbrev begins : List ℕ → List ℕ → Bool
begins [] hay = true
begins (n ∷ ns) [] = false
begins (n ∷ ns) (h ∷ hs) = n == h && begins ns hs

abbrev pub contains : List ℕ → List ℕ → Bool
contains needle [] = begins needle []
contains needle (h ∷ hs) = begins needle (h ∷ hs) || contains needle hs

-- The order of the enumeration.
abbrev pub rank : HealthStatus → ℕ
rank HealthStatus.unknown = 0
rank HealthStatus.ok = 1
rank HealthStatus.warning = 2
rank HealthStatus.critical = 3

module _ {J : Type 0} (json : JsonLib J) (utc : UtcLib) (text_lib : TextLib) where
  open json use {object, text, number, array, put}
  open text_lib use {tolower, bytes_of, error_text}

  lower : List ℕ → List ℕ
  lower value = map tolower value

  -- The first pattern of a group that is found; the loop over the patterns ends there.
  unfoldable pub found_in : LogCheckConfig → List ℕ → LogPatternGroup → Option String
  unfolding lower
  found_in c haystack g =
      find_if (λ p. contains (if c.case_sensitive then bytes_of p else lower (bytes_of p)) haystack)
        g.patterns

  match_of : LogPatternGroup → String → J
  match_of g p =
      put (put (put object "group" (text g.name)) "pattern" (text p)) "severity"
        (text (to_string g.severity))

  -- The loop over the groups, with the worst severity so far.
  unfoldable pub search_groups :
      LogCheckConfig → List ℕ → List LogPatternGroup → HealthStatus → List J × HealthStatus
  unfolding match_of
  search_groups c haystack [] worst = ([], worst)
  search_groups c haystack (g ∷ gs) worst =
      let worse = if ltb (rank worst) (rank g.severity) then g.severity else worst in
      let after = search_groups c haystack gs in
      elim (found_in c haystack g) [
        | none ↦ after worst
        | some p ↦ (match_of g p ∷ (after worse).0, (after worse).1)
      ]

  abbrev blank_result : LogPatternCheck → ℕ → CheckResult J
  blank_result t clock = base json utc text_lib t.config.id "log" clock

  abbrev pub haystack_of : LogCheckConfig → List ℕ → List ℕ
  haystack_of c data' = if c.case_sensitive then data' else map tolower data'

  log_result : List ℕ → LogPatternCheck → CheckResult J → CheckResult J
  unfolding search_groups lower
  log_result data' t r =
      let (matches, worst) =
        search_groups t.config (haystack_of t.config data') t.config.groups HealthStatus.ok in
      record r {
        status = worst;
        message =
            if length matches == 0
            then "No configured log patterns found"
            else "Configured error patterns found in new log data";
        details =
            put
              (put
                (put (put object "path" (text t.config.path)) "bytes_read" (number (length data')))
                "next_offset" (number t.offset))
              "matches" (array matches);
      }

  abbrev stored_state : ℕ → LogPatternCheck → LogCheckState
  stored_state now t = record {
    check_id = t.config.id;
    offset = t.offset;
    file_id = t.file_id;
    volume_serial = t.volume_serial;
    updated_at = now;
  }

  -- The result, the state after it, and what is saved.
  unfoldable pub check_log :
      LogAnswer → ℕ → LogPatternCheck → CheckResult J × LogPatternCheck × Option LogCheckState
  unfolding base identify read_data log_result
  check_log absent clock t = (
    record (blank_result t clock) {
      status = HealthStatus.warning;
      message = "Log file does not exist";
      details = put object "path" (text t.config.path);
    },
    t,
    none,
  )
  check_log (no_handle code) clock t = (
    record (blank_result t clock) {
      message = "Cannot open log file without locking it: " <> error_text code;
    },
    t,
    none,
  )
  check_log (no_identity code) clock t = (
    record (blank_result t clock) {
      message = "Cannot inspect log file identity: " <> error_text code;
    },
    t,
    none,
  )
  check_log (no_size i reason) clock t = (
    record (blank_result t clock) { message = "Cannot inspect log file: " <> reason },
    identify i t,
    none,
  )
  check_log (log_file i f) clock t =
      let (t', data') = read_data f (identify i t) in
      (
        if f.stop_requested
            then record (blank_result t clock) { message = "Log check cancelled" }
            else log_result data' t' (blank_result t clock),
        t',
        if t.has_store then some (stored_state f.now t') else none,
      )
