-- ===== src/Checks/Files/Restart.antt =====
-- What the checks with a state go on from: the state of a file check after checks that see no change,
-- and the states of file and log checks after a restart.
use scada_guard.Prelude.{
  ℕ, ◌^◌, ◌<◌, true, false, Option, none, some, List, [], ◌∷◌, ◌≡◌, refl, ◌∙◌, ap, All, arith, ℤ,
  sub_ℕ, eq_refl,
}
use scada_guard.Model.{JsonLib, UtcLib, floor_seconds}
use scada_guard.Storage.Tables.{
  FileCheckState, LogCheckState, Tables, save_file_state, load_file_state, save_log_state,
  load_log_state,
}
use scada_guard.Storage.Tables.Restart.{load_file_state-save, load_log_state-save}
use scada_guard.Checks.{TextLib}
use scada_guard.Checks.Files.{
  FileActivityCheck, FileFacts, facts, file_activity_check, check_file, track, activity_status,
  whole_seconds, stored_state, activity_result,
}
use scada_guard.Checks.Logs.{
  LogPatternCheck, LogFile, Identity, log_file, check_log, log_pattern_check, identify, read_data,
}

module _ {J : Type 0} (json : JsonLib J) (utc : UtcLib) (text_lib : TextLib)
    (number_ℤ : ℤ → J) where
  abbrev pub file_after : FileFacts → ℕ → FileActivityCheck → FileActivityCheck
  file_after f clock t = (check_file json utc text_lib number_ℤ (facts f) clock t).1

  pub check_files : List FileFacts → ℕ → FileActivityCheck → FileActivityCheck
  check_files [] clock t = t
  check_files (f ∷ fs) clock t = check_files fs clock (file_after f clock t)

  track-same :
      (f : FileFacts) (clock : ℕ) (t : FileActivityCheck)
      → t.initialized ≡ true
      → f.size ≡ t.previous_size
      → file_after f clock t ≡ t
  unfolding check_file track
  track-same f clock t on same = ground arith

  check_files-same :
      (fs : List FileFacts) (clock : ℕ) (t : FileActivityCheck)
      → t.initialized ≡ true
      → All (λ f. f.size ≡ t.previous_size) fs
      → check_files fs clock t ≡ t
  unfolding check_files
  check_files-same [] clock t on h = refl
  check_files-same (f ∷ fs) clock t on (same, rest) =
      ap (check_files fs clock) (track-same f clock t on same) ∙ check_files-same fs clock t on rest

  status_same :
      (f : FileFacts) (clock : ℕ) (t : FileActivityCheck)
      → t.initialized ≡ true
      → f.size ≡ t.previous_size
      → (check_file json utc text_lib number_ℤ (facts f) clock t).0.status
        ≡ activity_status t.config false (whole_seconds (sub_ℕ f.now t.last_change))
  unfolding check_file track activity_result
  status_same f clock t on same = ground arith

  -- As long as the size of a file that has been seen stays the same, however many checks come in
  -- between, the status of a check depends on the whole seconds since the last change alone.
  pub check_files-status :
      (fs : List FileFacts) (f : FileFacts) (clock : ℕ) (t : FileActivityCheck)
      → t.initialized ≡ true
      → All (λ g. g.size ≡ t.previous_size) fs
      → f.size ≡ t.previous_size
      → (check_file json utc text_lib number_ℤ (facts f) clock (check_files fs clock t)).0.status
        ≡ activity_status t.config false (whole_seconds (sub_ℕ f.now t.last_change))
  check_files-status fs f clock t on h same =
      rw (check_files-same fs clock t on h) (status_same f clock t on same)

  abbrev pub save_file : Option FileCheckState → Tables J → Tables J
  save_file none tables = tables
  save_file (some s) tables = save_file_state json utc s tables

  abbrev pub save_log : Option LogCheckState → Tables J → Tables J
  save_log none tables = tables
  save_log (some s) tables = save_log_state json utc s tables

  -- What a check with a storage saves of a file, whose size is a value of its type, is what a new
  -- check goes on from after a restart: the same state, but that the time of the last change is
  -- cut to the whole second.
  pub check_file-restart :
      (f : FileFacts) (clock : ℕ) (t : FileActivityCheck) (tables : Tables J)
      → t.has_store ≡ true
      → f.size < 2 ^ 64
      → (stored : FileCheckState) × (load_file_state json utc t.config.id
            (save_file (check_file json utc text_lib number_ℤ (facts f) clock t).2 tables)
          ≡ some (some stored))
        × (file_activity_check t.config true (some stored) ≡ record (file_after f clock t) {
          last_change = floor_seconds (file_after f clock t).last_change;
        })
  unfolding check_file file_activity_check track
  check_file-restart f clock t tables store fits =
      let s : FileCheckState = stored_state json utc text_lib f (track f t).0 in
      (
        record s {
          modified_at = floor_seconds s.modified_at;
          last_change_at = floor_seconds s.last_change_at;
        },
        rw store (
            load_file_state-save json utc s tables t.config.id fits
            ∙ rw (eq_refl t.config.id) refl),
        ground arith,
      )

  abbrev pub log_after : Identity → LogFile → ℕ → LogPatternCheck → LogPatternCheck
  log_after i f clock t = (check_log json utc text_lib (log_file i f) clock t).1

  -- The position that a log check with a storage saves, a value of its types, is the one that a new
  -- check goes on from after a restart.
  pub check_log-restart :
      (i : Identity) (f : LogFile) (clock : ℕ) (t : LogPatternCheck) (tables : Tables J)
      → t.has_store ≡ true
      → (log_after i f clock t).offset < 2 ^ 64
      → (log_after i f clock t).file_id < 2 ^ 64
      → (log_after i f clock t).volume_serial < 2 ^ 32
      → (stored : LogCheckState) × (load_log_state json utc t.config.id
            (save_log (check_log json utc text_lib (log_file i f) clock t).2 tables)
          ≡ some (some stored))
        × (log_pattern_check t.config true (some stored) ≡ log_after i f clock t)
  unfolding check_log log_pattern_check identify read_data
  check_log-restart i f clock t tables store a b c =
      let u : LogPatternCheck = log_after i f clock t in
      let s : LogCheckState = record {
        check_id = t.config.id;
        offset = u.offset;
        file_id = u.file_id;
        volume_serial = u.volume_serial;
        updated_at = f.now;
      } in
      (
        record s { updated_at = floor_seconds s.updated_at },
        rw store (
            load_log_state-save json utc s tables t.config.id a b c
            ∙ rw (eq_refl t.config.id) refl),
        ground arith,
      )
