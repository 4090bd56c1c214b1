-- ===== src/Discovery/Walk.antt =====
-- The loop of `MasterScadaDiscovery::scan` over the directories. Each round asks the stop token, the
-- steady clock and the file system; their answers are functions of the round.
pub mod Entries
pub mod Rules
pub mod Ends
pub mod Limits
pub mod Below
pub mod Confined
use scada_guard.Prelude.{
  ℕ, zero, suc, ◌+◌, ◌*◌, ◌/◌, max, String, Bool, true, false, not, ◌&&◌, ◌||◌, Option, none, some,
  List, [], ◌∷◌, ◌++◌, any, length, Map, lookup, leb, ltb, ◌==◌, if◌then◌else◌,
}
use scada_guard.Model.{JsonLib}
use scada_guard.Checks.{TextLib, ◌<>◌}
use scada_guard.Discovery.{
  DiscoveryConfidence, DiscoveryHints, DiscoverySelection, DiscoveryReport, DirectoryEntryRecord,
  SqliteInspection, ArchiveCandidate, DiscoveredLogSource, PathLib, Listing, unreadable, entries,
  DiscoveryEnvironment,
}
use scada_guard.Discovery.Names.{
  append_unique, has, Scored, scored, recently_changed, has_sqlite_header, confidence_from_score,
  path_key, same_path, timestamp_like, classify_database, looks_like_log, log_content_matches,
}
use scada_guard.Discovery.Roots.{RootCandidate, add_component}

-- The state of the loop.
pub record Search (J : Type 0) : Type 0 where
  pub report : DiscoveryReport J
  pub pending : List (String × ℕ)
  pub visited : List String
  pub discovered_files : List String

-- The answers of the stop token before a round and before an entry, and the time since the start
-- of the scan before and after the listing of a directory.
pub record Clockwork : Type 0 where
  pub stop_round : ℕ → Bool
  pub stop_entry : ℕ → ℕ → Bool
  pub elapsed_before : ℕ → ℕ
  pub elapsed_after : ℕ → ℕ

-- A round ends with `continue` or with `break`.
pub data Turn (J : Type 0) : Type 0 where
  next done : Search J → Turn J

abbrev pub warn : {J : Type 0} → String → Search J → Search J
warn warning s = record s {
  report = record s.report { warnings = s.report.warnings ++ warning ∷ [] };
}

abbrev pub warn_once : {J : Type 0} → String → Search J → Search J
warn_once warning s = record s {
  report = record s.report { warnings = append_unique s.report.warnings warning };
}

abbrev pub truncate : {J : Type 0} → Search J → Search J
truncate s = record s { report = record s.report { truncated = true } }

abbrev pub add_log : {J : Type 0} → DiscoveredLogSource → Search J → Search J
add_log log s = record s {
  report = record s.report { log_candidates = s.report.log_candidates ++ log ∷ [] };
}

abbrev pub add_archive : {J : Type 0} → ArchiveCandidate J → Search J → Search J
add_archive candidate s = record s {
  report = record s.report { archive_candidates = s.report.archive_candidates ++ candidate ∷ [] };
}

abbrev pub count_file : {J : Type 0} → Search J → Search J
count_file s = record s { report = record s.report { scanned_files = s.report.scanned_files + 1 } }

abbrev pub mark_file : {J : Type 0} → String → Search J → Search J
mark_file key s = record s { discovered_files = key ∷ s.discovered_files }

abbrev pub count_directory : {J : Type 0} → String → List (String × ℕ) → Search J → Search J
count_directory key rest s = record s {
  pending = rest;
  visited = key ∷ s.visited;
  report = record s.report { scanned_directories = s.report.scanned_directories + 1 };
}

abbrev pub skip : {J : Type 0} → List (String × ℕ) → Search J → Search J
skip rest s = record s { pending = rest }

abbrev matches_log : PathLib → Option String → Bool
matches_log paths sample = elim sample [
  | none ↦ false
  | some value ↦ log_content_matches paths value
]

abbrev pub is_sqlite : Option String → Bool
is_sqlite none = false
is_sqlite (some prefix) = has_sqlite_header prefix

module _ {J : Type 0} (paths : PathLib) (hints : DiscoveryHints) (selection : DiscoverySelection)
    (environment : DiscoveryEnvironment J) where
  open environment use {list_directory, read_prefix, read_tail, inspect_sqlite}

  unfoldable pub log_source : ℕ → ℕ → DirectoryEntryRecord → DiscoveredLogSource
  unfolding scored recently_changed confidence_from_score
  log_source n scanned_at entry =
      let chunk = max 1 (hints.limits.maximum_inspected_bytes / 2) in
      let sampled =
        matches_log paths (read_prefix n entry.path chunk)
        || matches_log paths (read_tail n entry.path chunk) in
      let (score, evidence) =
        scored (recently_changed entry.last_write_time scanned_at) 15 "file changed within 24 hours"
          (scored sampled 35 "bounded content sample contains MasterSCADA markers" (
            25,
            "log filename or extension" ∷ "inside a bounded MasterSCADA candidate tree" ∷ [],
          )) in
      record {
        path = entry.path;
        type = "text_log";
        last_write_time = entry.last_write_time;
        size = entry.size;
        confidence = confidence_from_score score;
        evidence = evidence;
        selected = any (λ path. same_path paths path entry.path) selection.confirmed_logs;
        score = score;
      }

  unfoldable pub archive_score : ℕ → DirectoryEntryRecord → SqliteInspection J → Scored
  unfolding scored recently_changed
  archive_score scanned_at entry inspection =
      scored (leb 10485760 entry.size) 10 "database size is consistent with accumulated data" (
        scored (recently_changed entry.last_write_time scanned_at) 15
          "database changed within 24 hours"
          (scored (inspection.wal_exists || inspection.shm_exists) 10 "WAL or SHM sidecar exists" (
            scored (any (timestamp_like paths) inspection.objects) 15
              "timestamp-like column metadata"
              (scored (not (length inspection.objects == 0)) 10 "contains tables or views" (
                scored inspection.read_only_opened 25 "opened with SQLITE_OPEN_READONLY"
                  (30, "SQLite magic header" ∷ []))))))

  unfoldable pub archive_candidate :
      ℕ → DirectoryEntryRecord → SqliteInspection J → ArchiveCandidate J
  unfolding archive_score confidence_from_score
  archive_candidate scanned_at entry inspection =
      let (score, evidence) = archive_score scanned_at entry inspection in
      record {
        path = entry.path;
        type = classify_database paths entry.path;
        last_write_time = entry.last_write_time;
        size = entry.size;
        sqlite_header_valid = true;
        read_only_opened = inspection.read_only_opened;
        wal_exists = inspection.wal_exists;
        shm_exists = inspection.shm_exists;
        objects = inspection.objects;
        schema_candidates = inspection.schema_candidates;
        confidence = confidence_from_score score;
        evidence = evidence;
        selected = false;
        needs_confirmation = true;
        score = score;
        failure = inspection.failure;
      }

  unfoldable pub note_log : ℕ → DirectoryEntryRecord → Search J → Search J
  unfolding log_source
  note_log n entry s =
      if looks_like_log paths entry.path hints
      then add_log (log_source n s.report.scanned_at entry) s
      else s

  unfoldable pub note_archive : ℕ → DirectoryEntryRecord → Search J → Search J
  note_archive n entry s =
      if is_sqlite (read_prefix n entry.path 16)
      then add_archive (archive_candidate s.report.scanned_at entry (inspect_sqlite n entry.path)) s
      else s

  -- A file below the limit.
  unfoldable pub note_file : ℕ → DirectoryEntryRecord → Search J → Search J
  note_file n entry s =
      let key = path_key paths entry.path in
      if has key s.discovered_files
      then count_file s
      else note_archive n entry (note_log n entry (mark_file key (count_file s)))

  unfoldable pub enter_directory : ℕ → DirectoryEntryRecord → Search J → Search J
  enter_directory depth entry s =
      if entry.is_reparse_point
      then warn_once ("reparse point skipped: " <> entry.path) s
      else if ltb depth hints.limits.maximum_depth
      then record s { pending = s.pending ++ (entry.path, depth + 1) ∷ [] }
      else s

  -- The loop over the entries of a directory; `stop i` is the stop token before entry `i`.
  unfoldable pub scan_entries :
      (ℕ → Bool) → ℕ → ℕ → ℕ → List DirectoryEntryRecord → Search J → Search J
  scan_entries stop n depth i [] s = s
  scan_entries stop n depth i (entry ∷ rest) s =
      let after = scan_entries stop n depth (i + 1) rest in
      if stop i
      then s
      else if entry.is_directory
      then after (enter_directory depth entry s)
      else if leb hints.limits.maximum_files s.report.scanned_files
      then warn_once "file limit reached" (truncate s)
      else after (note_file n entry s)

  module _ (json : JsonLib J) (text_lib : TextLib) (roots : Map RootCandidate)
      (clockwork : Clockwork) where
    open clockwork use {stop_round, stop_entry, elapsed_before, elapsed_after}

    abbrev pub add_runtime : String → RootCandidate → Search J → Search J
    add_runtime directory root s = record s {
      report =
          add_component paths json text_lib hints ("runtime:" <> path_key paths directory)
            "runtime_directory" directory
            (root.score + 10, root.evidence ++ "directory exists and is readable" ∷ []) json.object
            s.report;
    }

    unfoldable pub note_root :
        String → List DirectoryEntryRecord → Search J → Option RootCandidate → Search J
    note_root directory listed s none = s
    note_root directory listed s (some root) =
        if length listed == 0 then s else add_runtime directory root s

    unfoldable pub note_runtime : String → List DirectoryEntryRecord → Search J → Search J
    unfolding note_root
    note_runtime directory listed s =
        note_root directory listed s (lookup (path_key paths directory) roots)

    -- What a round makes of the listing of a new directory.
    unfoldable pub read_listing : ℕ → String → ℕ → Search J → Listing → Turn J
    read_listing n directory depth s (unreadable reason) =
        next (warn ("cannot inspect " <> directory <> ": " <> reason) s)
    read_listing n directory depth s (entries listed) =
        if leb hints.limits.maximum_duration (elapsed_after n)
        then done (warn_once "scan duration limit reached" (truncate s))
        else next (scan_entries (stop_entry n) n depth 0 listed (note_runtime directory listed s))

    unfoldable pub take_directory : ℕ → String → ℕ → List (String × ℕ) → Search J → Turn J
    take_directory n directory depth rest s =
        let key = path_key paths directory in
        if has key s.visited
        then next (skip rest s)
        else read_listing n directory depth (count_directory key rest s)
            (list_directory n directory)

    -- A round on a state and its queue.
    unfoldable pub turn_on : ℕ → Search J → List (String × ℕ) → Turn J
    turn_on n s [] = done s
    turn_on n s ((directory, depth) ∷ rest) =
        if stop_round n
        then done s
        else if leb hints.limits.maximum_duration (elapsed_before n)
        then done (warn "scan duration limit reached" (truncate s))
        else if leb hints.limits.maximum_directories s.report.scanned_directories
        then done (warn "directory limit reached" (truncate s))
        else take_directory n directory depth rest s

    abbrev pub turn : ℕ → Search J → Turn J
    turn n s = turn_on n s s.pending

    -- The loop from round `n`; `none` is a loop that needs more rounds than the fuel.
    unfoldable pub walk : ℕ → ℕ → Search J → Option (Search J)
    walk zero n s = none
    walk (suc fuel) n s = elim (turn n s) [ done end ↦ some end | next s' ↦ walk fuel (n + 1) s' ]
