-- ===== src/Storage/Signals.antt =====
-- The table signal_history of src/storage/local_storage.cpp, with the JSON form of a sample of
-- src/model.cpp. A table with a text key is a map.
use scada_guard.Prelude.{
  String, Option, none, some, List, ◌≡◌, refl, Map, lookup, insert, values, lookup-insert, str_eq,
  if◌then◌else◌, Bool-cases, inl, inr,
}
use scada_guard.Model.{SignalSample, JsonLib, UtcLib, floor_seconds}
use scada_guard.Model.Json.{text_at, time_at}
use scada_guard.Storage.Tables.{read_all}

infixl 5 ◌>>=◌
abbrev ◌>>=◌ {ℓ κ} : {A : Type ℓ} {B : Type κ} → Option A → (A → Option B) → Option B
none >>= f = none
some a >>= f = f a

-- The document of a `double`, and its reading. `R` holds the finite ones: the library writes the
-- others as null, which is then no number.
pub record RealJson (J R : Type 0) : Type 0 where
  pub of_real : R → J
  pub get_real : J → Option R
  pub get_real-of_real : (x : R) → get_real (of_real x) ≡ some x

module _ {J R : Type 0} (json : JsonLib J) (utc : UtcLib) (real : RealJson J R) where
  open json use {object, text, put, at?}
  open utc use {format_utc}
  open real use {of_real, get_real}

  unfoldable pub sample_to_json : SignalSample R → J
  sample_to_json v =
      put
        (put
          (put (put (put object "signal_id" (text v.signal_id)) "value" (of_real v.value))
            "source_timestamp" (text (format_utc v.source_timestamp)))
          "received_timestamp" (text (format_utc v.received_timestamp)))
        "quality" (text v.quality)

  unfoldable pub sample_from_json : J → Option (SignalSample R)
  sample_from_json j = do
    signal_id ← text_at json utc j "signal_id"
    v ← at? j "value"
    value ← get_real v
    source_timestamp ← time_at json utc j "source_timestamp"
    received_timestamp ← time_at json utc j "received_timestamp"
    quality ← text_at json utc j "quality"
    some (record {
      signal_id = signal_id;
      value = value;
      source_timestamp = source_timestamp;
      received_timestamp = received_timestamp;
      quality = quality;
    })

  unfoldable pub save_signal_history : SignalSample R → Map J → Map J
  unfolding sample_to_json
  save_signal_history s table = insert s.signal_id (sample_to_json s) table

  unfoldable pub load_signal_history : Map J → Option (List (SignalSample R))
  unfolding sample_from_json
  load_signal_history table = read_all sample_from_json (values table)

  abbrev pub as_stored : SignalSample R → SignalSample R
  as_stored s = record s {
    source_timestamp = floor_seconds s.source_timestamp;
    received_timestamp = floor_seconds s.received_timestamp;
  }

  abbrev pub row_of : String → Map J → Option (SignalSample R)
  row_of id table = elim (lookup id table) [ none ↦ none | some j ↦ sample_from_json j ]

  sample_from_json-sample_to_json :
      (s : SignalSample R) → sample_from_json (sample_to_json s) ≡ some (as_stored s)
  unfolding sample_from_json sample_to_json text_at time_at
  sample_from_json-sample_to_json s =
      simp (json.at?-put, json.get_text-text, utc.parse_utc-format_utc, real.get_real-of_real)

  -- The row of a signal holds the sample that was saved last, but that its times are cut to the whole
  -- second; the rows of other signals are as before.
  pub row_of-save_signal_history :
      (s : SignalSample R) (table : Map J) (id : String)
      → row_of id (save_signal_history s table)
        ≡ (if str_eq s.signal_id id then some (as_stored s) else row_of id table)
  unfolding save_signal_history
  row_of-save_signal_history s table id =
      rw (row_of, lookup-insert s.signal_id id (sample_to_json s) table)
        (elim (Bool-cases (str_eq s.signal_id id)) [
          | inl same ↦ rw same (sample_from_json-sample_to_json s)
          | inr other ↦ rw other refl
        ])
