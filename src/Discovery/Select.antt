-- ===== src/Discovery/Select.antt =====
-- The rest of `MasterScadaDiscovery::scan`, after the loop: the order of the candidates, the archive
-- that is selected, and the status of the report. `scan` composes the parts.
pub mod First
pub mod Counts
pub mod Outcome
use mathlib.Core.List.{Permᴰ}
use scada_guard.Prelude.{
  ℕ, ◌+◌, String, Bool, true, false, not, ◌&&◌, ◌||◌, Option, none, some, List, [], ◌∷◌, ◌++◌, any,
  length, keep, find_if, values, leb, ltb, ◌==◌, str_eq, if◌then◌else◌,
}
use scada_guard.Model.{JsonLib}
use scada_guard.Checks.{TextLib, ◌<>◌}
use scada_guard.Discovery.{
  DiscoveryConfidence, DiscoveryStatus, ArchiveCandidateType, DiscoveryHints, DiscoverySelection,
  DiscoveryReport, DiscoveredComponent, DiscoveredLogSource, ArchiveCandidate, PathLib,
  DiscoveryEnvironment,
}
use scada_guard.Discovery.Names.{same_path}
use scada_guard.Discovery.Roots.{Found, pending_roots, find_roots}
use scada_guard.Discovery.Walk.{Search, Clockwork, walk}

-- `std::ranges::sort` by falling score, whose order among equal scores is open.
pub record SortLib (J : Type 0) : Type 0 where
  pub sort_archives : List (ArchiveCandidate J) → List (ArchiveCandidate J)
  pub sort_logs : List DiscoveredLogSource → List DiscoveredLogSource
  pub archives-perm : (cs : List (ArchiveCandidate J)) → Permᴰ cs (sort_archives cs)

-- The first entry that passes a test, changed in its place.
abbrev pub change_first {ℓ} : {A : Type ℓ} → (A → Bool) → (A → A) → List A → List A
change_first p f [] = []
change_first p f (x ∷ xs) = let rest = change_first p f xs in if p x then f x ∷ xs else x ∷ rest

unfoldable pub is_high : DiscoveryConfidence → Bool
is_high DiscoveryConfidence.high = true
is_high _ = false

unfoldable pub is_error : DiscoveryStatus → Bool
is_error DiscoveryStatus.error = true
is_error _ = false

-- The statuses that the end of a scan leaves.
unfoldable pub is_settled : DiscoveryStatus → Bool
is_settled DiscoveryStatus.confirmed = true
is_settled DiscoveryStatus.configured = true
is_settled DiscoveryStatus.ambiguous = true
is_settled DiscoveryStatus.error = true
is_settled _ = false

-- `std::ranges::max_element` by score: the first greatest.
unfoldable pub best_component :
    {J : Type 0} → DiscoveredComponent J → List (DiscoveredComponent J) → DiscoveredComponent J
best_component best [] = best
best_component best (item ∷ rest) =
    best_component (if ltb best.score item.score then item else best) rest

unfoldable pub confidence_of : {J : Type 0} → List (DiscoveredComponent J) → DiscoveryConfidence
unfolding best_component
confidence_of [] = DiscoveryConfidence.unknown
confidence_of (item ∷ rest) = (best_component item rest).confidence

unfoldable pub detects : {J : Type 0} → DiscoveredComponent J → Bool
detects item =
    str_eq item.type "process"
    || (str_eq item.type "service"
        || ((str_eq item.type "installed_application" && leb 40 item.score)
            || (str_eq item.type "runtime_directory" && leb 40 item.score)))

abbrev pub reason_of : Bool → String
reason_of confirmed =
    if confirmed then "administrator confirmed configuration" else "explicit local configuration"

module _ {J : Type 0} (paths : PathLib) where
  -- The candidate for a selected path that was not found.
  unfoldable pub missing_candidate : String → Bool → ArchiveCandidate J
  missing_candidate path confirmed = record {
    path = path;
    type = ArchiveCandidateType.unknown_database;
    last_write_time = 0;
    size = 0;
    sqlite_header_valid = false;
    read_only_opened = false;
    wal_exists = false;
    shm_exists = false;
    objects = [];
    schema_candidates = [];
    confidence = if confirmed then DiscoveryConfidence.confirmed else DiscoveryConfidence.high;
    evidence = reason_of confirmed ∷ [];
    selected = true;
    needs_confirmation = false;
    score = 0;
    failure = "configured archive path disappeared or is not readable";
  }

  unfoldable pub choose : Bool → ArchiveCandidate J → ArchiveCandidate J
  choose confirmed item = record item {
    selected = true;
    needs_confirmation = false;
    confidence = if confirmed then DiscoveryConfidence.confirmed else item.confidence;
    evidence = item.evidence ++ reason_of confirmed ∷ [];
  }

  -- The lambda `select_archive`.
  unfoldable pub select_archive : String → Bool → DiscoveryReport J → DiscoveryReport J
  unfolding missing_candidate choose
  select_archive path confirmed report =
      elim (find_if (λ item. same_path paths item.path path) report.archive_candidates) [
        | none ↦ record report {
          archive_candidates = missing_candidate path confirmed ∷ report.archive_candidates;
          warnings = report.warnings ++ ("configured archive path disappeared: " <> path) ∷ [];
          status = DiscoveryStatus.error;
        }
        | some found ↦ record report {
          archive_candidates =
              change_first (λ item. same_path paths item.path path) (choose confirmed)
                report.archive_candidates;
        }
      ]

  unfoldable pub set_status : DiscoveryStatus → DiscoveryReport J → DiscoveryReport J
  unfolding is_error
  set_status status report =
      if is_error report.status then report else record report { status = status }

  unfoldable pub suggest : ArchiveCandidate J → ArchiveCandidate J
  suggest item = record item { selected = true; needs_confirmation = true }

  -- Without a selection: the one candidate of high confidence is proposed.
  unfoldable pub select_alone : DiscoveryReport J → DiscoveryReport J
  unfolding is_high suggest
  select_alone report =
      let high_count = length (keep (λ item. is_high item.confidence) report.archive_candidates) in
      if high_count == 1
      then record report {
        archive_candidates =
            change_first (λ item. is_high item.confidence) suggest report.archive_candidates;
      }
      else if ltb 1 high_count
      then record report {
        status = DiscoveryStatus.ambiguous;
        warnings =
            report.warnings
            ++ "multiple high-confidence archive candidates require confirmation" ∷ [];
      }
      else report

  -- The confirmed archive, else the configured one, else none.
  unfoldable pub select_from : Option String → Option String → DiscoveryReport J → DiscoveryReport J
  unfolding select_alone
  select_from (some path) configured_archive report =
      set_status DiscoveryStatus.confirmed (select_archive path true report)
  select_from none (some path) report =
      set_status DiscoveryStatus.configured (select_archive path false report)
  select_from none none report = select_alone report

  unfoldable pub select : DiscoverySelection → DiscoveryReport J → DiscoveryReport J
  unfolding select_from
  select selection report =
      select_from selection.confirmed_archive selection.configured_archive report

  unfoldable pub conclude : DiscoveryReport J → DiscoveryReport J
  unfolding is_settled detects confidence_of
  conclude report =
      let found = any detects report.components in
      record report {
        masterscada_detected = found;
        confidence = confidence_of report.components;
        status =
            if is_settled report.status
            then report.status
            else if found
            then DiscoveryStatus.detected
            else DiscoveryStatus.not_found;
      }

  unfoldable pub finish : SortLib J → DiscoverySelection → DiscoveryReport J → DiscoveryReport J
  unfolding select conclude
  finish sorts selection report = conclude (
      select selection (record report {
        archive_candidates = sorts.sort_archives report.archive_candidates;
        log_candidates = sorts.sort_logs report.log_candidates;
      }))

unfoldable pub blank_report : {J : Type 0} → String → ℕ → DiscoveryReport J
blank_report scan_id scanned_at = record {
  scan_id = scan_id;
  scanned_at = scanned_at;
  status = DiscoveryStatus.not_found;
  confidence = DiscoveryConfidence.unknown;
  masterscada_detected = false;
  version = "";
  components = [];
  archive_candidates = [];
  log_candidates = [];
  opcua_candidates = [];
  warnings = [];
  scanned_directories = 0;
  scanned_files = 0;
  truncated = false;
}

module _ {J : Type 0} (paths : PathLib) (json : JsonLib J) (text_lib : TextLib)
    (hints : DiscoveryHints) (environment : DiscoveryEnvironment J)
    (selection : DiscoverySelection) where
  -- What the loop over the directories starts with.
  unfoldable pub found_at : String → ℕ → Found J
  unfolding find_roots blank_report
  found_at scan_id scanned_at =
      find_roots paths json text_lib hints environment selection (blank_report scan_id scanned_at)

  unfoldable pub first_search : Found J → Search J
  first_search found =
      let (pending, warnings) = pending_roots paths (values found.roots) found.report.warnings in
      record {
        report = record found.report { warnings = warnings };
        pending = pending;
        visited = [];
        discovered_files = [];
      }

  -- The loop of a scan, on some fuel.
  unfoldable pub search : Clockwork → String → ℕ → ℕ → Option (Search J)
  search clockwork scan_id scanned_at fuel =
      let found = found_at scan_id scanned_at in
      walk paths hints selection environment json text_lib found.roots clockwork fuel 0
        (first_search found)

  unfoldable pub scan : SortLib J → Clockwork → String → ℕ → ℕ → Option (DiscoveryReport J)
  unfolding finish
  scan sorts clockwork scan_id scanned_at fuel = elim (search clockwork scan_id scanned_at fuel) [
    | none ↦ none
    | some s ↦ some (finish paths sorts selection s.report)
  ]
