-- ===== src/Discovery/Names.antt =====
-- The tests on names and paths at the top of src/discovery/discovery.cpp, and the scores.
use Prim.Native.String.{String as Text}
use Prim.Native.Char.{nul}
use text.Mathlib.Text.{find?}
use scada_guard.Prelude.{
  ℕ, ◌+◌, ◌-◌, String, Bool, true, false, not, ◌&&◌, ◌||◌, none, some, List, [], ◌∷◌, ◌++◌, any,
  str_eq, starts_with, leb, ◌==◌, if◌then◌else◌,
}
use scada_guard.Model.{epoch, seconds}
use scada_guard.Checks.{◌<>◌}
use scada_guard.Discovery.{
  DiscoveryConfidence, ArchiveCandidateType, DiscoveryHints, SqliteObjectMetadata, PathLib,
  DiscoveredComponent,
}

abbrev pub is_empty : String → Bool
is_empty s = str_eq s ""

abbrev pub contains : String → String → Bool
contains value fragment = elim (find? value fragment) [ none ↦ false | some _ ↦ true ]

abbrev pub contains_one : String → List String → Bool
contains_one value fragments = any (contains value) fragments

-- Set membership of `std::set<std::string>`.
abbrev pub has : String → List String → Bool
has key keys = any (str_eq key) keys

unfoldable pub append_unique : List String → String → List String
append_unique values value = if has value values then values else values ++ value ∷ []

-- A score with its evidence, raised when a test holds.
abbrev pub Scored : Type 0
Scored = ℕ × List String

unfoldable pub scored : Bool → ℕ → String → Scored → Scored
scored test points reason (score, evidence) =
    if test then (score + points, evidence ++ reason ∷ []) else (score, evidence)

unfoldable pub recently_changed : ℕ → ℕ → Bool
recently_changed value now =
    not (value == epoch) && leb value now && leb (now - value) (seconds 86400)

unfoldable pub has_sqlite_header : String → Bool
has_sqlite_header prefix = starts_with prefix ("SQLite format 3" <> Text.◌∷◌ nul Text.[])

unfoldable pub confidence_from_score : ℕ → DiscoveryConfidence
confidence_from_score score =
    if leb 75 score
    then DiscoveryConfidence.high
    else if leb 40 score
    then DiscoveryConfidence.medium
    else if leb 1 score
    then DiscoveryConfidence.low
    else DiscoveryConfidence.unknown

module _ (paths : PathLib) where
  open paths use {to_lower, lexically_normal, filename, extension, parent_path, root_path}

  unfoldable pub lower : String → String
  lower Text.[] = Text.[]
  lower (Text.◌∷◌ c s) = Text.◌∷◌ (to_lower c) (lower s)

  unfoldable pub contains_keyword : String → DiscoveryHints → Bool
  unfolding lower
  contains_keyword value hints =
      let candidate = lower value in
      any (λ keyword. contains candidate (lower keyword)) hints.keywords

  unfoldable pub path_key : String → String
  path_key value = lower (lexically_normal value)

  unfoldable pub same_path : String → String → Bool
  same_path left right = str_eq (path_key left) (path_key right)

  unfoldable pub restricted_root : String → Bool
  restricted_root value =
      let normalized = lower (lexically_normal value) in
      let root = lower (root_path value) in
      starts_with normalized "\\\\"
      || ((not (is_empty root) && str_eq normalized root)
          || (str_eq normalized "c:\\windows"
              || (starts_with normalized "c:\\windows\\"
                  || (str_eq normalized "c:\\users" || starts_with normalized "c:\\users\\"))))

  unfoldable pub timestamp_like : {J : Type 0} → SqliteObjectMetadata J → Bool
  unfolding lower
  timestamp_like object =
      any (λ column. contains_one (lower column) ("time" ∷ "date" ∷ "stamp" ∷ [])) object.columns

  unfoldable pub classify_database : String → ArchiveCandidateType
  unfolding lower
  classify_database path =
      let name = lower (filename path) in
      if contains_one name ("config" ∷ "setting" ∷ [])
      then ArchiveCandidateType.configuration_database
      else if contains_one name ("event" ∷ "journal" ∷ "alarm" ∷ [])
      then ArchiveCandidateType.events_archive_candidate
      else if contains_one name ("archive" ∷ "history" ∷ "trend" ∷ "data" ∷ [])
      then ArchiveCandidateType.data_archive_candidate
      else if contains_one name ("runtime" ∷ "rt" ∷ [])
      then ArchiveCandidateType.runtime_database
      else ArchiveCandidateType.unknown_database

  unfoldable pub looks_like_log : String → DiscoveryHints → Bool
  unfolding lower
  looks_like_log path hints =
      let suffix = lower (extension path) in
      let name = lower (filename path) in
      let parent = lower (filename (parent_path path)) in
      let configured_log_directory =
        any (λ relative. not (is_empty relative) && str_eq (lower (filename relative)) parent)
          hints.relative_log_directories in
      let inside_log_directory =
        contains parent "log" || (contains parent "journal" || configured_log_directory) in
      str_eq suffix ".log"
      || (contains name ".log."
          || (str_eq suffix ".trace" || (str_eq suffix ".txt" && inside_log_directory)))

  unfoldable pub log_content_matches : String → Bool
  unfolding lower
  log_content_matches value =
      contains_one (lower value)
        ("masterscada" ∷ "mplc" ∷ "guardant" ∷ "license" ∷ "loadandprepare" ∷ "mpssoft" ∷ [])

unfoldable pub component :
    {J : Type 0} → String → String → String → ℕ → List String → J → DiscoveredComponent J
unfolding confidence_from_score
component id type path score evidence details = record {
  id = id;
  type = type;
  path = path;
  confidence = confidence_from_score score;
  evidence = evidence;
  selected = false;
  score = score;
  details = details;
}
