-- ===== src/Examples/Discovery.antt =====
-- Runs of the search for an installation.
use Prim.Native.String.{String as Text}
use Prim.Native.Char.{nul}
use mathlib.Core.List.{Memᴰ}
use mathlib.Core.List.Permᴰ as Perm
use scada_guard.Prelude.{
  ℕ, ◌≤◌, String, Bool, true, false, Option, none, some, [], ◌∷◌, All, map, arith, ◌≡◌, refl,
  if◌then◌else◌, str_eq, values,
}
use scada_guard.Checks.{◌<>◌}
use scada_guard.Discovery.{
  DiscoveryHints, DiscoverySelection, DiscoveryReport, DirectoryEntryRecord, PathLib, entries,
  DiscoveryEnvironment, SqliteInspection, SqliteObjectMetadata,
}
use scada_guard.Discovery.Walk.{Search, Clockwork, walk}
use scada_guard.Discovery.Roots.{Found}
use scada_guard.Discovery.Walk.Ends.{walk_ends}
use scada_guard.Discovery.Names.{lower}
use scada_guard.Discovery.Walk.Below.{IsConfined}
use scada_guard.Discovery.Select.{SortLib, search, scan, found_at, first_search}
use scada_guard.Discovery.Select.Outcome.{Outcome}
use scada_guard.Discovery.Scan.{search-IsConfined, scan_ends, scan-limits, scan-Outcome}
use scada_guard.Discovery.Schema.{
  SampleLib, analyze, candidate_of, with_confidence, roles_of, best_column, role_score,
  confidence_of,
}
use scada_guard.Discovery.Schema.Roles.{IsCandidate, analyze-IsCandidate}
use scada_guard.Examples.Libs.{Doc, docs, texts}

-- Paths as they are; the name of a file is its path, and every path has the suffix of a log.
abbrev pub plain_paths : PathLib
plain_paths = record {
  to_lower = λ c. c;
  lexically_normal = λ p. p;
  filename = λ p. p;
  extension = λ p. if str_eq p "d:\\mps\\a.log" then ".log" else "";
  parent_path = λ p. "d:\\mps";
  root_path = λ p. "d:\\";
  is_absolute = λ p. true;
}

abbrev pub hints : DiscoveryHints
hints = record {
  keywords = "mps" ∷ [];
  additional_roots = [];
  relative_log_directories = "log" ∷ [];
  limits = record {
    maximum_directories = 5;
    maximum_files = 3;
    maximum_depth = 1;
    maximum_duration = 100;
    maximum_inspected_bytes = 64;
  };
}

abbrev entry : String → Bool → DirectoryEntryRecord
entry path is_directory = record {
  path = path;
  is_directory = is_directory;
  is_reparse_point = false;
  size = 100;
  last_write_time = 0;
}

abbrev inspection : SqliteInspection Doc
inspection = record {
  read_only_opened = true;
  wal_exists = false;
  shm_exists = false;
  objects = [];
  schema_candidates = [];
  failure = "";
}

-- A root with a directory, a log and a database. The directory lists the root again.
abbrev pub environment : DiscoveryEnvironment Doc
environment = record {
  processes = [];
  services = [];
  installed_applications = [];
  standard_roots = "d:\\mps" ∷ "c:\\windows" ∷ [];
  list_directory = λ n path.
      if str_eq path "d:\\mps"
      then entries (
          entry "d:\\mps\\sub" true
          ∷ entry "d:\\mps\\a.log" false
          ∷ entry "d:\\mps\\data.db" false
          ∷ [])
      else entries (entry "d:\\mps" true ∷ []);
  read_prefix = λ n path size.
      if str_eq path "d:\\mps\\data.db"
      then some ("SQLite format 3" <> Text.◌∷◌ nul Text.[])
      else some "mplc";
  read_tail = λ n path size. none;
  inspect_sqlite = λ n path. inspection;
}

abbrev pub selection : DiscoverySelection
selection = record {
  confirmed_archive = some "d:\\mps\\data.db";
  configured_archive = none;
  confirmed_logs = [];
}

abbrev pub sorts : SortLib Doc
sorts = record {
  sort_archives = λ cs. cs;
  sort_logs = λ ls. ls;
  archives-perm = λ cs. Perm.refl cs;
}

abbrev pub clockwork : Clockwork
clockwork = record {
  stop_round = λ n. false;
  stop_entry = λ n i. false;
  elapsed_before = λ n. n;
  elapsed_after = λ n. n;
}

scan_ends_example :
    (rounds : ℕ) × (report : DiscoveryReport Doc) × ((fuel : ℕ)
      → rounds ≤ fuel
      → scan plain_paths docs texts hints environment selection sorts clockwork "scan" 1 fuel
        ≡ some report)
scan_ends_example =
    scan_ends plain_paths docs texts hints environment selection clockwork "scan" 1 sorts

-- The report of the scan, with the fuel that gives it.
abbrev pub ended :
    (rounds : ℕ) × (report : DiscoveryReport Doc) × ((fuel : ℕ)
      → rounds ≤ fuel
      → scan plain_paths docs texts hints environment selection sorts clockwork "scan" 1 fuel
        ≡ some report)
ended = scan_ends plain_paths docs texts hints environment selection clockwork "scan" 1 sorts

scan-limits_example : (ended.1.scanned_directories ≤ 5) × (ended.1.scanned_files ≤ 3)
scan-limits_example =
    scan-limits plain_paths docs texts hints environment selection clockwork "scan" 1 sorts ended.0
      ended.1 (ended.2 ended.0 (omega arith))

scan-Outcome_example : Outcome plain_paths (some "d:\\mps\\data.db") ended.1.archive_candidates
scan-Outcome_example =
    scan-Outcome plain_paths docs texts hints environment selection clockwork "scan" 1 sorts ended.0
      ended.1 (ended.2 ended.0 (omega arith))

abbrev found : Found Doc
found = found_at plain_paths docs texts hints environment selection "scan" 1

abbrev walked :
    (rounds : ℕ) × (s : Search Doc) × ((fuel : ℕ)
      → rounds ≤ fuel
      → walk plain_paths hints selection environment docs texts found.roots clockwork fuel 0
          (first_search plain_paths docs texts hints environment selection found)
        ≡ some s)
walked =
    walk_ends plain_paths hints selection environment docs texts found.roots clockwork 0
      (first_search plain_paths docs texts hints environment selection found)

search-IsConfined_example : IsConfined plain_paths hints environment (values found.roots) walked.1
unfolding search
search-IsConfined_example =
    search-IsConfined plain_paths docs texts hints environment selection clockwork "scan" 1 walked.0
      walked.1 (walked.2 walked.0 (omega arith))

-- A table with an indexed time and a value.
abbrev table : SqliteObjectMetadata Doc
table = record {
  name = "samples";
  type = "table";
  columns = "stamp" ∷ "value" ∷ [];
  column_metadata =
      record { name = "stamp"; declared_type = "text"; not_null = true; primary_key = false }
      ∷ record { name = "value"; declared_type = "real"; not_null = true; primary_key = false }
      ∷ [];
  indexes = record { name = "by_stamp"; unique = false; columns = "stamp" ∷ [] } ∷ [];
  foreign_keys = [];
  bounded_row_count = some 2;
  row_count_limit_reached = false;
  recent_samples = [];
}

abbrev answers : SampleLib Doc
answers = record {
  is_object = λ d. true;
  is_number = λ d. false;
  is_boolean = λ d. false;
  dump = λ d. "";
}

abbrev inspected : SqliteInspection Doc
inspected = record inspection { objects = table ∷ [] }

analyze-IsCandidate_example :
    All
      (λ c.
        (object : SqliteObjectMetadata Doc) × Memᴰ object inspected.objects
        × IsCandidate plain_paths docs answers object c)
      (analyze plain_paths docs answers (λ cs. cs) inspected)
analyze-IsCandidate_example =
    analyze-IsCandidate plain_paths docs answers (λ cs. cs) inspected (λ cs. Perm.refl cs)

-- The analysis names the table and its two columns.
analyze_table :
    map {B = String × Option String × Option String}
      (λ c. (c.table, c.roles.timestamp, c.roles.value))
      (analyze plain_paths docs answers (λ cs. cs) inspected)
    ≡ ("samples", some "stamp", some "value") ∷ []
unfolding analyze candidate_of with_confidence roles_of best_column role_score lower confidence_of
analyze_table = refl
