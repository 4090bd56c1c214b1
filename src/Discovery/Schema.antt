-- ===== src/Discovery/Schema.antt =====
-- src/discovery/archive_schema_analyzer.cpp: which columns of a table look like an archive of
-- signals.
pub mod Best
pub mod Roles
use scada_guard.Prelude.{
  ℕ, ◌+◌, min, String, Bool, true, false, not, ◌&&◌, ◌||◌, Option, none, some, List, [], ◌∷◌, ◌++◌,
  any, length, leb, ltb, ◌==◌, str_eq, if◌then◌else◌,
}
use scada_guard.Model.{JsonLib}
use scada_guard.Discovery.{
  DiscoveryConfidence, SqliteObjectMetadata, SqliteInspection, ArchiveSchemaCandidate,
  ArchiveSchemaRoles, Column, PathLib,
}
use scada_guard.Discovery.Names.{contains_one, has, lower}

-- What the analyzer asks of a JSON document besides its members.
pub record SampleLib (J : Type 0) : Type 0 where
  pub is_object : J → Bool
  pub is_number : J → Bool
  pub is_boolean : J → Bool
  pub dump : J → String

-- The score, the distinct values and the count of the values so far.
pub record Sampled : Type 0 where
  pub score : ℕ
  pub distinct : List String
  pub populated : ℕ

abbrev pub points : Bool → ℕ → ℕ
points test n = if test then n else 0

abbrev pub is_present : {A : Type 0} → Option A → Bool
is_present none = false
is_present (some a) = true

unfoldable pub indexed_column : {J : Type 0} → SqliteObjectMetadata J → String → Bool
indexed_column object column = any (λ index. has column index.columns) object.indexes

unfoldable pub has_foreign_key : {J : Type 0} → SqliteObjectMetadata J → String → Bool
has_foreign_key object column = any (λ key. str_eq key.from_column column) object.foreign_keys

-- The confidence of the scores of three roles; `none` is the `continue`.
unfoldable pub confidence_of : ℕ → ℕ → Option DiscoveryConfidence
confidence_of complete_roles total_score =
    if complete_roles == 3 && leb 55 total_score
    then some DiscoveryConfidence.high
    else if leb 2 complete_roles && leb 30 total_score
    then some DiscoveryConfidence.medium
    else if leb 1 complete_roles
    then some DiscoveryConfidence.low
    else none

module _ {J : Type 0} (paths : PathLib) (json : JsonLib J) (samples : SampleLib J) where
  open json use {at?, is_null, get_text}
  open samples use {is_object, is_number, is_boolean, dump}

  unfoldable pub contains_any : String → List String → Bool
  contains_any value tokens = contains_one (lower paths value) tokens

  unfoldable pub numeric_type : String → Bool
  unfolding contains_any
  numeric_type type =
      contains_any type ("int" ∷ "real" ∷ "float" ∷ "double" ∷ "numeric" ∷ "decimal" ∷ [])

  unfoldable pub text_type : String → Bool
  unfolding contains_any
  text_type type = contains_any type ("char" ∷ "text" ∷ "clob" ∷ [])

  -- The value of a column in a sampled row, if there is one.
  sampled_value : J → String → Option J
  sampled_value row column =
      let value : Option J = elim (at? row column) [
        | none ↦ none
        | some v ↦ if is_null v then none else some v
      ] in
      if is_object row then value else none

  is_time_text : J → Bool
  unfolding contains_any
  is_time_text value = elim (get_text value) [
    | none ↦ false
    | some s ↦ contains_any s ("-" ∷ ":" ∷ "t" ∷ "z" ∷ [])
  ]

  value_points : String → J → ℕ
  unfolding is_time_text
  value_points role value =
      if str_eq role "timestamp"
      then if is_number value then 2 else points (is_time_text value) 3
      else if str_eq role "value"
      then points (is_number value || is_boolean value) 2
      else 0

  unfoldable pub sample_row : String → String → J → Sampled → Sampled
  unfolding sampled_value value_points
  sample_row column role row s = elim (sampled_value row column) [
    | none ↦ s
    | some value ↦ record {
      score = s.score + value_points role value;
      distinct = if has (dump value) s.distinct then s.distinct else dump value ∷ s.distinct;
      populated = s.populated + 1;
    }
  ]

  unfoldable pub sample_rows : String → String → List J → Sampled → Sampled
  unfolding sample_row
  sample_rows column role [] s = s
  sample_rows column role (row ∷ rows) s =
      sample_rows column role rows (sample_row column role row s)

  unfoldable pub sample_score : SqliteObjectMetadata J → String → String → ℕ
  unfolding sample_rows
  sample_score object column role =
      let s =
        sample_rows column role object.recent_samples
          (record { score = 0; distinct = []; populated = 0 }) in
      min
        (s.score
          + points (leb 2 s.populated) 2
          + points
              (str_eq role "signal_id"
                && (leb 2 s.populated && leb (length s.distinct) s.populated))
              1)
        10

  -- The points for the name, the type and the keys of a column.
  metadata_score : SqliteObjectMetadata J → Column → String → ℕ
  unfolding contains_any numeric_type text_type has_foreign_key
  metadata_score object column role =
      let name = column.name in
      let type = column.declared_type in
      if str_eq role "timestamp"
      then points
          (contains_any name ("timestamp" ∷ "datetime" ∷ "date_time" ∷ "time" ∷ "stamp" ∷ [])) 15
        + points (contains_any type ("date" ∷ "time" ∷ []) || numeric_type type) 4
      else if str_eq role "signal_id"
      then points
          (contains_any name ("signal" ∷ "item" ∷ "tag" ∷ "point" ∷ "parameter" ∷ "param" ∷ [])) 12
        + points (contains_any name ("id" ∷ "key" ∷ "guid" ∷ "uuid" ∷ [])) 7
        + points (text_type type || numeric_type type) 3
        + points (column.primary_key || has_foreign_key object name) 4
      else if str_eq role "value"
      then points (contains_any name ("value" ∷ "val" ∷ "reading" ∷ "measurement" ∷ "data" ∷ [])) 15
        + points (numeric_type type) 7
      else if str_eq role "quality"
      then points (contains_any name ("quality" ∷ "status" ∷ "state" ∷ "valid" ∷ [])) 15
        + points (numeric_type type || text_type type) 3
      else 0

  unfoldable pub role_score : SqliteObjectMetadata J → Column → String → ℕ
  unfolding sample_score metadata_score indexed_column
  role_score object column role =
      sample_score object column.name role
      + points (indexed_column object column.name) (if str_eq role "value" then 1 else 4)
      + metadata_score object column role

  -- The loop of `best_column` from the best column so far.
  unfoldable pub best_of :
      SqliteObjectMetadata J → String → List Column → Option String → ℕ → Option String × ℕ
  best_of object role [] result best_score = (result, best_score)
  best_of object role (column ∷ columns) result best_score =
      let score = role_score object column role in
      let after = best_of object role columns in
      if ltb best_score score then after (some column.name) score else after result best_score

  -- The column, and the best score.
  unfoldable pub best_column : SqliteObjectMetadata J → String → ℕ → Option String × ℕ
  unfolding best_of
  best_column object role threshold =
      let (result, best_score) = best_of object role object.column_metadata none 0 in
      (if ltb best_score threshold then none else result, best_score)

  evidence_if : Bool → String → List String
  evidence_if test reason = if test then reason ∷ [] else []

  evidence_of : SqliteObjectMetadata J → ArchiveSchemaRoles → List String
  unfolding evidence_if
  evidence_of object roles =
      evidence_if (is_present roles.timestamp)
        "timestamp candidate inferred from name, type, samples, and indexes"
      ++ (evidence_if (is_present roles.signal_id)
            "signal identifier candidate inferred from metadata relationships"
          ++ (evidence_if (is_present roles.value)
                "value candidate inferred from name, type, and bounded samples"
              ++ (evidence_if (not (length object.foreign_keys == 0))
                    "table has metadata relationships through foreign keys"
                  ++ evidence_if (is_present object.bounded_row_count) (
                      if object.row_count_limit_reached
                      then "row count exceeds bounded inspection limit"
                      else "row count obtained by bounded read-only inspection"))))

  -- The columns of a table for the four roles, with the scores of the first three together.
  unfoldable pub roles_of : SqliteObjectMetadata J → ArchiveSchemaRoles × ℕ
  roles_of object =
      let (timestamp, timestamp_score) = best_column object "timestamp" 10 in
      let (signal_id, signal_score) = best_column object "signal_id" 10 in
      let (value, value_score) = best_column object "value" 10 in
      let (quality, quality_score) = best_column object "quality" 12 in
      (
        record { timestamp = timestamp; signal_id = signal_id; value = value; quality = quality },
        timestamp_score + signal_score + value_score,
      )

  abbrev pub complete_roles : ArchiveSchemaRoles → ℕ
  complete_roles roles =
      points (is_present roles.timestamp) 1
      + points (is_present roles.signal_id) 1
      + points (is_present roles.value) 1

  unfoldable pub with_confidence :
      SqliteObjectMetadata J
      → ArchiveSchemaRoles
      → Option DiscoveryConfidence
      → Option ArchiveSchemaCandidate
  unfolding evidence_of
  with_confidence object roles none = none
  with_confidence object roles (some confidence) = some (record {
    table = object.name;
    confidence = confidence;
    roles = roles;
    evidence = evidence_of object roles;
    needs_confirmation = true;
    minimum_timestamp = none;
    maximum_timestamp = none;
  })

  -- One object of the loop of `analyze`.
  unfoldable pub candidate_of : SqliteObjectMetadata J → Option ArchiveSchemaCandidate
  candidate_of object =
      let (roles, total_score) = roles_of object in
      if not (str_eq object.type "table") || length object.column_metadata == 0
      then none
      else with_confidence object roles (confidence_of (complete_roles roles) total_score)

  unfoldable pub add_candidate :
      Option ArchiveSchemaCandidate → List ArchiveSchemaCandidate → List ArchiveSchemaCandidate
  add_candidate none candidates = candidates
  add_candidate (some candidate) candidates = candidate ∷ candidates

  unfoldable pub candidates_of : List (SqliteObjectMetadata J) → List ArchiveSchemaCandidate
  unfolding add_candidate
  candidates_of [] = []
  candidates_of (object ∷ objects) = add_candidate (candidate_of object) (candidates_of objects)

  -- `sort` is `std::ranges::sort` by falling confidence.
  unfoldable pub analyze :
      (List ArchiveSchemaCandidate → List ArchiveSchemaCandidate)
      → SqliteInspection J
      → List ArchiveSchemaCandidate
  unfolding candidates_of
  analyze sort inspection = sort (candidates_of inspection.objects)
