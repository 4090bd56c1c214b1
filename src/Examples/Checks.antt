-- ===== src/Examples/Checks.antt =====
-- Runs of the checks.
use scada_guard.Prelude.{
  ℕ, ◌<◌, ◌^◌, ◌≡◌, refl, ◌++◌, Bool, true, false, some, List, [], ◌∷◌, take, pos, arith,
}
use scada_guard.Model.{HealthStatus, seconds, floor_seconds}
use scada_guard.Storage.Tables.{
  LogCheckState, FileCheckState, Tables, load_log_state, load_file_state,
}
use scada_guard.Checks.{ProcessCheckConfig, ProcessEntry, ServiceCheckConfig}
use scada_guard.Checks.Logs.{
  LogPatternCheck, LogCheckConfig, LogPatternGroup, LogFile, Identity, file_id_of, log_file,
  check_log, log_pattern_check,
}
use scada_guard.Checks.Logs.Reading.{IsSame, check_all, check_all-take}
use scada_guard.Checks.Logs.Search.{check_log-cancelled, cancelled, state_after}
use scada_guard.Checks.Files.{
  FileActivityCheck, FileActivityCheckConfig, FileFacts, facts, check_file, file_activity_check,
}
use scada_guard.Checks.Files.Restart.{
  check_file-restart, check_log-restart, save_file, save_log, file_after, log_after,
}
use scada_guard.Examples.Libs.{Doc, docs, clock_texts, texts, codes, number_of}

abbrev groups : List LogPatternGroup
groups =
    record { name = "alarm"; severity = HealthStatus.critical; patterns = "FAIL" ∷ "TRIP" ∷ [] }
    ∷ record { name = "note"; severity = HealthStatus.warning; patterns = "slow" ∷ [] }
    ∷ []

abbrev log_config : LogCheckConfig
log_config = record {
  id = "scada-log";
  path = "scada.log";
  case_sensitive = true;
  max_read_bytes = 6;
  groups = groups;
}

abbrev log_check : LogPatternCheck
log_check = record {
  config = log_config;
  has_store = true;
  offset = 2;
  file_id = 4294967303;
  volume_serial = 5;
  identity_initialized = true;
}

abbrev identity : Identity
identity = record { file_index_high = 1; file_index_low = 7; volume_serial_number = 5 }

abbrev whole : List ℕ
whole = codes "ok FAIL slow TRIP"

abbrev seen_up_to : ℕ → LogFile
seen_up_to n = record {
  size = n;
  content = take n whole;
  now = seconds 100;
  stop_requested = false;
}

log_check-IsSame : IsSame identity log_check
unfolding file_id_of
log_check-IsSame = (refl, refl)

abbrev read_twice : LogPatternCheck × List ℕ
read_twice =
    check_all docs clock_texts texts 0 identity (seen_up_to 5 ∷ seen_up_to 17 ∷ []) log_check

check_all-take_example : take 2 whole ++ read_twice.1 ≡ take read_twice.0.offset whole
check_all-take_example =
    check_all-take docs clock_texts texts 0 identity (seen_up_to 5 ∷ seen_up_to 17 ∷ []) log_check
      whole log_check-IsSame (omega arith, omega arith, refl, (omega arith, omega arith, refl, tt))

-- The file up to `FAIL`.
check_log-cancelled_example :
    (check_log docs clock_texts texts (log_file identity (seen_up_to 7)) 9 (
      state_after docs clock_texts texts identity
        (cancelled docs clock_texts texts (seen_up_to 7))
        8
        log_check)).0.status
    ≡ HealthStatus.ok
check_log-cancelled_example =
    check_log-cancelled docs clock_texts texts identity (seen_up_to 7) 8 9 log_check
      log_check-IsSame refl (omega arith) (omega arith) refl
      ((ground arith, (ground arith, tt)), ((ground arith, tt), tt))

abbrev tables : Tables Doc
tables = record {
  check_state = [];
  incident_rows = [];
  log_state = [];
  file_state = [];
  agent_state = [];
  discovery_state = [];
}

abbrev left : LogPatternCheck
left = log_after docs clock_texts texts number_of identity (seen_up_to 7) 8 log_check

left_small : (left.offset < 2 ^ 64) × (left.file_id < 2 ^ 64) × (left.volume_serial < 2 ^ 32)
unfolding check_log
left_small = (omega arith, omega arith, omega arith)

check_log-restart_example :
    (stored : LogCheckState) × (load_log_state docs clock_texts "scada-log" (
        save_log docs clock_texts texts number_of
          (check_log docs clock_texts texts (log_file identity (seen_up_to 7)) 8 log_check).2
          tables)
      ≡ some (some stored))
    × (log_pattern_check log_config true (some stored)
        ≡ log_after docs clock_texts texts number_of identity (seen_up_to 7) 8 log_check)
check_log-restart_example =
    check_log-restart docs clock_texts texts number_of identity (seen_up_to 7) 8 log_check tables
      refl left_small.0 left_small.1 left_small.2

abbrev file_config : FileActivityCheckConfig
file_config = record {
  id = "archive-file";
  path = "archive.db";
  warning_unchanged_seconds = pos 300;
  critical_unchanged_seconds = pos 900;
  fail_on_shrink = true;
}

abbrev file_check : FileActivityCheck
file_check = record {
  config = file_config;
  has_store = true;
  previous_size = 10;
  last_change = seconds 1000;
  initialized = true;
}

abbrev quiet : ℕ → FileFacts
quiet at = record { size = 10; modified_system = seconds 1000; now = seconds at }

check_file-restart_example :
    (stored : FileCheckState) × (load_file_state docs clock_texts "archive-file" (
        save_file docs clock_texts texts number_of
          (check_file docs clock_texts texts number_of (facts (quiet 2000)) 0 file_check).2
          tables)
      ≡ some (some stored))
    × (file_activity_check file_config true (some stored)
        ≡ record (file_after docs clock_texts texts number_of (quiet 2000) 0 file_check) {
          last_change =
              floor_seconds
                (file_after docs clock_texts texts number_of (quiet 2000) 0 file_check).last_change;
        })
check_file-restart_example =
    check_file-restart docs clock_texts texts number_of (quiet 2000) 0 file_check tables refl
      (omega arith)

abbrev processes : List ProcessEntry
processes =
    record { exe_file = "explorer.exe"; process_id = 4 }
    ∷ record { exe_file = "mplc.exe"; process_id = 8 }
    ∷ []

abbrev runtime : ProcessCheckConfig
runtime = record { id = "runtime"; process_name = "mplc.exe"; required = true }

abbrev never : ℕ → Bool
never i = false

abbrev service : ServiceCheckConfig
service = record { id = "service"; service_name = "MasterSCADA"; required = false }
