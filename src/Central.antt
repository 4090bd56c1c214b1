-- ===== src/Central.antt =====
-- src/configuration/central_configuration.cpp: the check of a configuration that the central server
-- sends. Its use in src/application/application.cpp is in the children.
pub mod Apply
pub mod Results
pub mod Poll
pub mod Restore
pub mod Safety
pub mod Steps
pub mod Polls
pub mod Discover
use Prim.Native.String.{String as Text, len}
use Prim.Native.Char.{Char}
use scada_guard.Prelude.{
  ℕ, ◌+◌, String, Bool, true, false, not, ◌&&◌, ◌||◌, Option, none, some, List, [], ◌∷◌, all, any,
  find_if, str_eq, starts_with, leb, ltb, ◌==◌, if◌then◌else◌, ℤ, pos, ltb_ℤ,
}
use scada_guard.Model.{JsonLib}
use scada_guard.Checks.{◌<>◌}
use scada_guard.DataSources.{valid_identifier}
use scada_guard.Discovery.{PathLib}
use scada_guard.Discovery.Names.{has, is_empty, lower}

-- A result, or the text of an exception.
pub data Result {ℓ} (A : Type ℓ) : Type ℓ where
  thrown : String → Result A
  returned : A → Result A

infixl 5 ◌>>=◌
abbrev pub ◌>>=◌ {ℓ κ} : {A : Type ℓ} {B : Type κ} → Result A → (A → Result B) → Result B
thrown reason >>= f = thrown reason
returned a >>= f = f a

abbrev pub ensure : Bool → String → Result (Unit {0})
ensure test reason = if test then returned tt else thrown reason

-- What this file asks of documents besides `JsonLib`. `library_error` is the text of an exception of
-- the JSON library, `digest_of` the SHA-256 of a document in hexadecimal digits.
pub record DocLib (J R : Type 0) : Type 0 where
  pub library_error : String
  pub is_object : J → Bool
  pub is_text : J → Bool
  pub is_number : J → Bool
  pub is_blank : J → Bool
  pub items : J → List (String × J)
  pub get_texts : J → Option (List String)
  pub get_real : J → Option R
  pub value_int : J → String → ℤ → Option ℤ
  pub value_bool : J → String → Bool → Option Bool
  pub value_texts : J → String → List String → Option (List String)
  pub value_doc : J → String → J → Option J
  pub digest_of : J → Option String

pub record DesiredAgentConfiguration (J : Type 0) : Type 0 where
  pub version : ℕ
  pub hash : String
  pub confirmed_archive : Option String
  pub archive_mapping : J
  pub confirmed_logs : List String
  pub monitored_signals : List String
  pub thresholds : J
  pub monitoring_interval_seconds : ℤ
  pub server_url : Option String
  pub rescan_requested_at : Option String
  pub raw : J

abbrev pub from_json : {A : Type 0} → String → Option A → Result A
from_json error none = thrown error
from_json error (some a) = returned a

-- `std::ranges::find_if` on the members of an object, for an exception about the first one found.
abbrev refuse_first :
    {J : Type 0} → (String × J → Bool) → (String → String) → List (String × J) → Result (Unit {0})
refuse_first bad reason members = elim (find_if bad members) [
  | none ↦ returned tt
  | some (key, value) ↦ thrown (reason key)
]

unfoldable pub validate_local_path : PathLib → String → Result String
validate_local_path paths value =
    let normalized = paths.lexically_normal value in
    let lowered = lower paths normalized in
    if not (paths.is_absolute normalized)
      || (starts_with normalized "\\\\" || str_eq normalized (paths.root_path normalized))
    then thrown "central configuration path must be a bounded local path"
    else if str_eq lowered "c:\\windows"
        || (starts_with lowered "c:\\windows\\"
            || (str_eq lowered "c:\\users" || starts_with lowered "c:\\users\\"))
    then thrown "central configuration path targets a protected directory"
    else returned normalized

-- One `validate_local_path` for each path.
unfoldable pub validate_local_paths : PathLib → List String → Result (List String)
validate_local_paths paths [] = returned []
validate_local_paths paths (value ∷ values) = do
  path ← validate_local_path paths value
  others ← validate_local_paths paths values
  returned (path ∷ others)

abbrev pub allowed_fields : List String
allowed_fields =
    "confirmed_archive" ∷ "archive_mapping" ∷ "confirmed_logs" ∷ "monitored_signals" ∷ "thresholds"
    ∷ "monitoring_interval_seconds" ∷ "server_url" ∷ "rescan_requested_at" ∷ []

abbrev mapping_fields : List String
mapping_fields =
    "table" ∷ "timestamp_column" ∷ "signal_id_column" ∷ "value_column" ∷ "quality_column" ∷ []

abbrev threshold_fields : List String
threshold_fields = "minimum" ∷ "maximum" ∷ "max_rate_per_second" ∷ []

module _ {J R : Type 0} (paths : PathLib) (json : JsonLib J) (docs : DocLib J R) where
  open json use {object, null, at?, is_null, get_text, get_number}
  open docs use {
    library_error, is_object, is_text, is_number, items, get_texts, value_int, value_texts,
    value_doc, digest_of,
  }

  abbrev pub lib : {A : Type 0} → Option A → Result A
  lib answer = from_json library_error answer

  unfoldable pub desired_configuration_hash : J → Result String
  desired_configuration_hash configuration = do
    digest ← from_json "cannot calculate desired configuration SHA-256" (digest_of configuration)
    returned ("sha256-" <> digest)

  -- `contains(key) && !at(key).is_null()`
  abbrev pub present : J → String → Option J
  present j key = elim (at? j key) [ none ↦ none | some v ↦ if is_null v then none else some v ]

  archive_path : Option J → Result (Option String)
  archive_path none = returned none
  archive_path (some v) = do
    s ← lib (get_text v)
    path ← validate_local_path paths s
    returned (some path)

  log_paths : Option J → Result (List String)
  log_paths none = returned []
  log_paths (some v) = do values ← lib (get_texts v); validate_local_paths paths values

  check_identifier : J → String → Result (Unit {0})
  check_identifier mapping field = do
    s ← elim (at? mapping field) [
      | none ↦ thrown "archive_mapping contains an invalid identifier"
      | some v ↦ lib (get_text v)
    ]
    ensure (valid_identifier s) "archive_mapping contains an invalid identifier"

  check_quality : Option J → Result (Unit {0})
  check_quality none = returned tt
  check_quality (some v) = do
    s ← lib (get_text v)
    ensure (valid_identifier s) "archive_mapping quality column is invalid"

  -- The mapping, which is null without one.
  unfoldable pub archive_mapping_of : Option String → Option J → Result J
  unfolding check_identifier check_quality
  archive_mapping_of confirmed_archive none = returned null
  archive_mapping_of none (some mapping) =
      thrown "archive_mapping requires a confirmed read-only archive path"
  archive_mapping_of (some path) (some mapping) = do
    a ← ensure (is_object mapping) "archive_mapping requires a confirmed read-only archive path"
    b ←
        refuse_first
          (λ member.
            not (has member.0 mapping_fields) || (not (is_text member.1) && not (is_null member.1)))
          (λ key. "archive_mapping contains an unsupported field") (items mapping)
    c ← check_identifier mapping "table"
    d ← check_identifier mapping "timestamp_column"
    e ← check_identifier mapping "signal_id_column"
    f ← check_identifier mapping "value_column"
    g ← check_quality (present mapping "quality_column")
    returned mapping

  -- The loop over the thresholds of the signals.
  unfoldable pub check_thresholds : List (String × J) → Result (Unit {0})
  check_thresholds [] = returned tt
  check_thresholds ((signal_id, thresholds) ∷ rest) = do
    a ←
        ensure (not (is_empty signal_id) && is_object thresholds)
          "threshold entry must identify a signal and be an object"
    b ←
        refuse_first
          (λ member.
            not (has member.0 threshold_fields)
            || (not (is_number member.1) && not (is_null member.1)))
          (λ key. "threshold contains an unsupported field") (items thresholds)
    check_thresholds rest

  server_url_of : String → Result (Option String)
  server_url_of url =
      if is_empty url
      then returned none
      else if starts_with url "https://"
      then returned (some url)
      else thrown "central configuration server_url must use HTTPS"

  rescan_of : Option J → Result (Option String)
  rescan_of none = returned none
  rescan_of (some v) = do s ← lib (get_text v); returned (some s)

  -- The part about the payload, which leaves the version, the hash and the document open.
  unfoldable pub validate_payload : J → Result (DesiredAgentConfiguration J)
  unfolding archive_path log_paths archive_mapping_of check_thresholds server_url_of rescan_of
  validate_payload configuration = do
    a ←
        refuse_first (λ member. not (has member.0 allowed_fields))
          (λ key. "central configuration contains unsupported field: " <> key) (items configuration)
    confirmed_archive ← archive_path (present configuration "confirmed_archive")
    confirmed_logs ← log_paths (at? configuration "confirmed_logs")
    archive_mapping ← archive_mapping_of confirmed_archive (present configuration "archive_mapping")
    interval ← lib (value_int configuration "monitoring_interval_seconds" (pos 30))
    b ←
        ensure (not (ltb_ℤ interval (pos 5)) && not (ltb_ℤ (pos 3600) interval))
          "monitoring_interval_seconds is outside the safe range"
    monitored_signals ← lib (value_texts configuration "monitored_signals" [])
    thresholds ← lib (value_doc configuration "thresholds" object)
    c ← ensure (is_object thresholds) "thresholds must be an object"
    d ← check_thresholds (items thresholds)
    url ← lib (json.value_text configuration "server_url" "")
    server_url ← server_url_of url
    rescan_requested_at ← rescan_of (present configuration "rescan_requested_at")
    returned (record {
      version = 0;
      hash = "";
      confirmed_archive = confirmed_archive;
      archive_mapping = archive_mapping;
      confirmed_logs = confirmed_logs;
      monitored_signals = monitored_signals;
      thresholds = thresholds;
      monitoring_interval_seconds = interval;
      server_url = server_url;
      rescan_requested_at = rescan_requested_at;
      raw = null;
    })

  unfoldable pub number_at : J → String → Result ℕ
  number_at j key = elim (at? j key) [ none ↦ thrown library_error | some v ↦ lib (get_number v) ]

  text_at : J → String → Result String
  text_at j key = elim (at? j key) [ none ↦ thrown library_error | some v ↦ lib (get_text v) ]

  -- The hash and the payload that it fits.
  unfoldable pub signed_payload : J → ℕ → Result (String × J)
  unfolding text_at desired_configuration_hash
  signed_payload value version = do
    hash ← text_at value "config_hash"
    a ←
        ensure (not (version == 0) && (starts_with hash "sha256-" && len hash == 71))
          "desired agent configuration version or hash is invalid"
    configuration ← elim (at? value "configuration") [
      | none ↦ thrown library_error
      | some v ↦ returned v
    ]
    b ← ensure (is_object configuration) "desired agent configuration payload must be an object"
    digest ← desired_configuration_hash configuration
    c ← ensure (str_eq digest hash) "desired agent configuration hash does not match payload"
    returned (hash, configuration)

  abbrev pub complete :
      J → ℕ → String × J → DesiredAgentConfiguration J → DesiredAgentConfiguration J
  complete value version signed result = record result {
    version = version;
    hash = signed.0;
    raw = value;
  }

  unfoldable pub validate_desired_agent_configuration : J → Result (DesiredAgentConfiguration J)
  unfolding number_at signed_payload validate_payload
  validate_desired_agent_configuration value = do
    a ← ensure (is_object value) "desired agent configuration must be an object"
    version ← number_at value "config_version"
    signed ← signed_payload value version
    result ← validate_payload signed.1
    returned (complete value version signed result)
