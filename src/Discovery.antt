-- ===== src/Discovery.antt =====
-- include/scadaguard/discovery.hpp and src/discovery/: the search for an installation. This file has
-- the records; a path is its text.
pub mod Names
pub mod Roots
pub mod Walk
pub mod Select
pub mod Schema
pub mod Fresh
pub mod Scan
use Prim.Native.Char.{Char}
use scada_guard.Prelude.{ℕ, String, Bool, Option, List}

pub data DiscoveryConfidence : Type 0 where
  unknown low medium high confirmed : DiscoveryConfidence

pub data DiscoveryStatus : Type 0 where
  detected confirmed configured monitoring not_found ambiguous unsupported error : DiscoveryStatus

pub data ArchiveCandidateType : Type 0 where
  configuration_database runtime_database data_archive_candidate : ArchiveCandidateType
  events_archive_candidate unknown_database : ArchiveCandidateType

-- `maximum_duration` counts ticks.
pub record DiscoveryLimits : Type 0 where
  pub maximum_directories : ℕ
  pub maximum_files : ℕ
  pub maximum_depth : ℕ
  pub maximum_duration : ℕ
  pub maximum_inspected_bytes : ℕ

pub record DiscoveryHints : Type 0 where
  pub keywords : List String
  pub additional_roots : List String
  pub relative_log_directories : List String
  pub limits : DiscoveryLimits

pub record ProcessDiscoveryRecord : Type 0 where
  pub pid : ℕ
  pub parent_pid : ℕ
  pub name : String
  pub executable_path : String
  pub architecture : String
  pub version : String
  pub company : String
  pub product : String

pub record ServiceDiscoveryRecord : Type 0 where
  pub name : String
  pub display_name : String
  pub state : String
  pub start_type : String
  pub executable_path : String
  pub account : String
  pub pid : ℕ

pub record InstalledApplicationRecord : Type 0 where
  pub display_name : String
  pub display_version : String
  pub install_location : String
  pub uninstall_string : String
  pub publisher : String

pub record DirectoryEntryRecord : Type 0 where
  pub path : String
  pub is_directory : Bool
  pub is_reparse_point : Bool
  pub size : ℕ
  pub last_write_time : ℕ

pub record Column : Type 0 where
  pub name : String
  pub declared_type : String
  pub not_null : Bool
  pub primary_key : Bool

pub record Index : Type 0 where
  pub name : String
  pub unique : Bool
  pub columns : List String

pub record ForeignKey : Type 0 where
  pub from_column : String
  pub target_table : String
  pub target_column : String

pub record SqliteObjectMetadata (J : Type 0) : Type 0 where
  pub name : String
  pub type : String
  pub columns : List String
  pub column_metadata : List Column
  pub indexes : List Index
  pub foreign_keys : List ForeignKey
  pub bounded_row_count : Option ℕ
  pub row_count_limit_reached : Bool
  pub recent_samples : List J

pub record ArchiveSchemaRoles : Type 0 where
  pub timestamp : Option String
  pub signal_id : Option String
  pub value : Option String
  pub quality : Option String

pub record ArchiveSchemaCandidate : Type 0 where
  pub table : String
  pub confidence : DiscoveryConfidence
  pub roles : ArchiveSchemaRoles
  pub evidence : List String
  pub needs_confirmation : Bool
  pub minimum_timestamp : Option String
  pub maximum_timestamp : Option String

pub record SqliteInspection (J : Type 0) : Type 0 where
  pub read_only_opened : Bool
  pub wal_exists : Bool
  pub shm_exists : Bool
  pub objects : List (SqliteObjectMetadata J)
  pub schema_candidates : List ArchiveSchemaCandidate
  pub failure : String

pub record DiscoveredComponent (J : Type 0) : Type 0 where
  pub id : String
  pub type : String
  pub path : String
  pub confidence : DiscoveryConfidence
  pub evidence : List String
  pub selected : Bool
  pub score : ℕ
  pub details : J

pub record DiscoveredLogSource : Type 0 where
  pub path : String
  pub type : String
  pub last_write_time : ℕ
  pub size : ℕ
  pub confidence : DiscoveryConfidence
  pub evidence : List String
  pub selected : Bool
  pub score : ℕ

pub record ArchiveCandidate (J : Type 0) : Type 0 where
  pub path : String
  pub type : ArchiveCandidateType
  pub last_write_time : ℕ
  pub size : ℕ
  pub sqlite_header_valid : Bool
  pub read_only_opened : Bool
  pub wal_exists : Bool
  pub shm_exists : Bool
  pub objects : List (SqliteObjectMetadata J)
  pub schema_candidates : List ArchiveSchemaCandidate
  pub confidence : DiscoveryConfidence
  pub evidence : List String
  pub selected : Bool
  pub needs_confirmation : Bool
  pub score : ℕ
  pub failure : String

pub record DiscoverySelection : Type 0 where
  pub confirmed_archive : Option String
  pub configured_archive : Option String
  pub confirmed_logs : List String

pub record DiscoveryReport (J : Type 0) : Type 0 where
  pub scan_id : String
  pub scanned_at : ℕ
  pub status : DiscoveryStatus
  pub confidence : DiscoveryConfidence
  pub masterscada_detected : Bool
  pub version : String
  pub components : List (DiscoveredComponent J)
  pub archive_candidates : List (ArchiveCandidate J)
  pub log_candidates : List DiscoveredLogSource
  pub opcua_candidates : List String
  pub warnings : List String
  pub scanned_directories : ℕ
  pub scanned_files : ℕ
  pub truncated : Bool

-- `std::tolower` on a character, and the members of `std::filesystem::path`.
pub record PathLib : Type 0 where
  pub to_lower : Char → Char
  pub lexically_normal : String → String
  pub filename : String → String
  pub extension : String → String
  pub parent_path : String → String
  pub root_path : String → String
  pub is_absolute : String → Bool

-- What a listing of a directory gives: an exception or the entries.
pub data Listing : Type 0 where
  unreadable : String → Listing
  entries : List DirectoryEntryRecord → Listing

-- `IDiscoveryEnvironment`. The answers that may change during a scan carry the round of the loop.
pub record DiscoveryEnvironment (J : Type 0) : Type 0 where
  pub processes : List ProcessDiscoveryRecord
  pub services : List ServiceDiscoveryRecord
  pub installed_applications : List InstalledApplicationRecord
  pub standard_roots : List String
  pub list_directory : ℕ → String → Listing
  pub read_prefix : ℕ → String → ℕ → Option String
  pub read_tail : ℕ → String → ℕ → Option String
  pub inspect_sqlite : ℕ → String → SqliteInspection J
