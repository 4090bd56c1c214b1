-- ===== src/DataSources.antt =====
-- src/collectors/data_sources.cpp: the mock and CSV sources, and of the SQLite source the checks
-- before it opens the database and the loop over the rows of the answer.
pub mod Latest
pub mod Budget
use Prim.Native.String.{String as Text}
use Prim.Native.Char.{Char, code}
use scada_guard.Prelude.{
  ℕ, String, Bool, true, false, not, ◌&&◌, ◌||◌, Option, none, some, List, [], all, str_eq, leb,
  ltb, ◌==◌, if◌then◌else◌, ◌+◌, ◌-◌, suc, ◌∷◌, starts_with, keep, Map, lookup, insert, values,
  length,
}
use scada_guard.Model.{SignalSample, UtcLib}

pub record SqliteArchiveOptions : Type 0 where
  pub enabled : Bool
  pub database_path : String
  pub table : String
  pub signal_id_column : String
  pub timestamp_column : String
  pub value_column : String
  pub quality_column : String
  pub maximum_batch_size : ℕ

abbrev between : ℕ → ℕ → ℕ → Bool
between low high c = leb low c && leb c high

-- The classes `[A-Za-z_]` and `[A-Za-z0-9_]`.
abbrev is_letter : Char → Bool
is_letter c = between 65 90 (code c) || (between 97 122 (code c) || code c == 95)

abbrev is_word : Char → Bool
is_word c = is_letter c || between 48 57 (code c)

abbrev all_words : Text → Bool
all_words Text.[] = true
all_words (Text.◌∷◌ c s) = is_word c && all_words s

-- `^[A-Za-z_][A-Za-z0-9_]*$`
unfoldable pub valid_identifier : String → Bool
valid_identifier Text.[] = false
valid_identifier (Text.◌∷◌ c s) = is_letter c && all_words s

-- Where `read_archive` throws before it opens the database.
unfoldable pub options_error : SqliteArchiveOptions → Option String
unfolding valid_identifier
options_error o =
    if not o.enabled
    then some "SQLite archive data source is disabled"
    else if not (
        all valid_identifier
          (o.table ∷ o.signal_id_column ∷ o.timestamp_column ∷ o.value_column ∷ []))
    then some "SQLite archive schema identifiers are missing or invalid"
    else if not (str_eq o.quality_column "") && not (valid_identifier o.quality_column)
    then some "SQLite archive quality identifier is invalid"
    else if o.maximum_batch_size == 0 || ltb 10000 o.maximum_batch_size
    then some "SQLite archive batch limit is outside the safe range"
    else none

-- `MockCurrentDataSource::read_current`
unfoldable pub mock_read_current :
    {R : Type 0} → Bool → List (SignalSample R) → List (SignalSample R)
mock_read_current stop_requested samples = if stop_requested then [] else samples

abbrev pub within : {R : Type 0} → ℕ → ℕ → SignalSample R → Bool
within from to s = leb from s.source_timestamp && leb s.source_timestamp to

-- `MockArchiveDataSource::read_archive`; `stops i` is the stop token at sample `i`.
unfoldable pub mock_read_archive :
    {R : Type 0} → (ℕ → Bool) → ℕ → ℕ → ℕ → List (SignalSample R) → List (SignalSample R)
mock_read_archive stops i from to [] = []
mock_read_archive stops i from to (s ∷ samples) =
    let rest = mock_read_archive stops (suc i) from to samples in
    if not (stops i) && within from to s then s ∷ rest else rest

-- The text before the first comma, and what follows the comma.
split_comma : Text → Text × Option Text
split_comma Text.[] = (Text.[], none)
split_comma (Text.◌∷◌ c s) =
    let (before, after) = split_comma s in
    if code c == 44 then (Text.[], some s) else (Text.◌∷◌ c before, after)

-- `std::getline(row, v, ',')` on what is left of the row; it fails at its end.
unfoldable pub next_field : Option String → Option (String × Option String)
unfolding split_comma
next_field none = none
next_field (some Text.[]) = none
next_field (some (Text.◌∷◌ c s)) = some (split_comma (Text.◌∷◌ c s))

infixl 5 ◌>>=◌
abbrev ◌>>=◌ {ℓ κ} : {A : Type ℓ} {B : Type κ} → Option A → (A → Option B) → Option B
none >>= f = none
some a >>= f = f a

module _ {R : Type 0} (utc : UtcLib) (stod : String → Option R) where
  -- A row of the file; `none` is an exception.
  unfoldable pub parse_row : String → Option (SignalSample R)
  unfolding next_field
  parse_row line = do
    f0 ← next_field (some line)
    f1 ← next_field f0.1
    f2 ← next_field f1.1
    f3 ← next_field f2.1
    f4 ← next_field f3.1
    value ← stod f1.0
    source_timestamp ← utc.parse_utc f2.0
    received_timestamp ← utc.parse_utc f3.0
    some (record {
      signal_id = f0.0;
      value = value;
      source_timestamp = source_timestamp;
      received_timestamp = received_timestamp;
      quality = f4.0;
    })

  -- The loop of `CsvReplayDataSource::read_all`; `first` is its flag.
  unfoldable pub read_lines : (ℕ → Bool) → ℕ → Bool → List String → Option (List (SignalSample R))
  unfolding parse_row
  read_lines stops i first [] = some []
  read_lines stops i first (line ∷ lines) =
      let rest = read_lines stops (suc i) false lines in
      let row = (do s ← parse_row line; others ← rest; some (s ∷ others)) in
      if stops i then some [] else if first && starts_with line "signal_id," then rest else row

abbrev pub newer : {R : Type 0} → SignalSample R → Option (SignalSample R) → Bool
newer s none = true
newer s (some old) = ltb old.source_timestamp s.source_timestamp

-- The loop of `CsvReplayDataSource::read_current`.
unfoldable pub latest :
    {R : Type 0} → List (SignalSample R) → Map (SignalSample R) → Map (SignalSample R)
latest [] found = found
latest (s ∷ samples) found =
    let after = latest samples in
    if newer s (lookup s.signal_id found) then after (insert s.signal_id s found) else after found

unfoldable pub csv_read_current : {R : Type 0} → List (SignalSample R) → List (SignalSample R)
unfolding latest
csv_read_current all = values (latest all [])

unfoldable pub csv_read_archive :
    {R : Type 0} → ℕ → ℕ → List (SignalSample R) → List (SignalSample R)
csv_read_archive from to all = keep (within from to) all

-- A row of the answer to the query: its texts, and the sizes that SQLite gives for them.
pub record ArchiveRow (R : Type 0) : Type 0 where
  pub signal_id : String
  pub value : R
  pub timestamp : String
  pub quality : String
  pub bytes : ℕ

-- A row after its timestamp is read, before the samples of the rows below.
unfoldable pub add_sample :
    {R : Type 0}
    → ArchiveRow R
    → ℕ
    → Option ℕ
    → Option (List (SignalSample R))
    → Option (List (SignalSample R))
add_sample row now none others = none
add_sample row now (some timestamp) none = none
add_sample row now (some timestamp) (some others) = some (
    record {
      signal_id = row.signal_id;
      value = row.value;
      source_timestamp = timestamp;
      received_timestamp = now;
      quality = row.quality;
    }
    ∷ others)

-- The loop of `SqliteArchiveDataSource::read_archive` over the rows; `now i` is the clock, and `none`
-- an exception of `parse_utc`.
unfoldable pub read_rows :
    {R : Type 0}
    → UtcLib
    → (ℕ → Bool)
    → (ℕ → ℕ)
    → ℕ
    → ℕ
    → List (ArchiveRow R)
    → Option (List (SignalSample R))
unfolding add_sample
read_rows utc stops now i remaining_bytes [] = some []
read_rows utc stops now i remaining_bytes (row ∷ rows) =
    let rest = read_rows utc stops now (suc i) (remaining_bytes - row.bytes) rows in
    let sample = add_sample row (now i) (utc.parse_utc row.timestamp) rest in
    if stops i then some [] else if ltb remaining_bytes row.bytes then some [] else sample
