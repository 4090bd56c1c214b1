-- ===== src/Storage/Tables/Restart.antt =====
-- What is read back from the tables after a restart.
use scada_guard.Prelude.{
  ℕ, ◌^◌, ◌<◌, ◌≡◌, String, some, lookup-insert, str_eq, eq_iff, arith, if◌then◌else◌,
}
use scada_guard.Model.{JsonLib, UtcLib, floor_seconds}
use scada_guard.Storage.Tables.{
  LogCheckState, FileCheckState, Tables, log_row, file_row, to_int64, to_uint64, to_uint32,
  save_log_state, load_log_state, save_file_state, load_file_state,
  save_working_central_configuration, load_working_central_configuration,
  load_previous_central_configuration,
}

to_uint64-to_int64 : (n : ℕ) → n < 2 ^ 64 → to_uint64 (to_int64 n) ≡ n
unfolding to_uint64 to_int64
to_uint64-to_int64 n h = ground arith

to_uint32-to_int64 : (n : ℕ) → n < 2 ^ 32 → to_uint32 (to_int64 n) ≡ n
unfolding to_uint32 to_int64
to_uint32-to_int64 n h = ground arith

module _ {J : Type 0} (json : JsonLib J) (utc : UtcLib) where
  -- The position of a log check, a value of its types, is read back as it was saved, but for the time,
  -- which is cut to the whole second; another check's state is as before.
  pub load_log_state-save :
      (s : LogCheckState) (t : Tables J) (id : String)
      → s.offset < 2 ^ 64
      → s.file_id < 2 ^ 64
      → s.volume_serial < 2 ^ 32
      → load_log_state json utc id (save_log_state json utc s t) ≡ (
          if str_eq s.check_id id
          then some (some (record s { updated_at = floor_seconds s.updated_at }))
          else load_log_state json utc id t)
  unfolding load_log_state save_log_state
  load_log_state-save s t id o f v = ground (
    arith,
    lookup-insert s.check_id id (log_row json utc s) t.log_state,
    eq_iff s.check_id id,
    utc.parse_utc-format_utc s.updated_at,
    to_uint64-to_int64 s.offset o,
    to_uint64-to_int64 s.file_id f,
    to_uint32-to_int64 s.volume_serial v,
  )

  -- A file check's state, whose size is a value of its type, is read back as it was saved, but
  -- for its times, which are cut to whole seconds; another check's state is as before.
  pub load_file_state-save :
      (s : FileCheckState) (t : Tables J) (id : String)
      → s.size < 2 ^ 64
      → load_file_state json utc id (save_file_state json utc s t) ≡ (
          if str_eq s.check_id id
          then some (
              some (record s {
                modified_at = floor_seconds s.modified_at;
                last_change_at = floor_seconds s.last_change_at;
              }))
          else load_file_state json utc id t)
  unfolding load_file_state save_file_state
  load_file_state-save s t id o = ground (
    arith,
    lookup-insert s.check_id id (file_row json utc s) t.file_state,
    eq_iff s.check_id id,
    utc.parse_utc-format_utc s.modified_at,
    utc.parse_utc-format_utc s.last_change_at,
    to_uint64-to_int64 s.size o,
  )

  -- Where there is a working configuration, a new one that is saved is read back, and the old one
  -- is kept as the previous one.
  pub load_configuration-save :
      (c old : J) (t : Tables J)
      → load_working_central_configuration json utc t ≡ some old
      → let t' = save_working_central_configuration json utc c t in
        (load_working_central_configuration json utc t' ≡ some c)
        × (load_previous_central_configuration json utc t' ≡ some old)
  unfolding load_working_central_configuration load_previous_central_configuration
      save_working_central_configuration
  load_configuration-save c old t e = (
    rw (lookup-insert "working_central_configuration" "working_central_configuration"),
    rw (e, lookup-insert "working_central_configuration" "previous_central_configuration")
        (rw (lookup-insert "previous_central_configuration" "previous_central_configuration")),
  )
