-- ===== src/Checks/Probes.antt =====
-- The TCP check and the disk check of src/checks/checks.cpp.
use scada_guard.Prelude.{
  ℕ, String, Bool, true, false, ◌&&◌, ◌||◌, ltb, ◌==◌, if◌then◌else◌, ℤ, pos, negsuc,
}
use scada_guard.Model.{HealthStatus, CheckResult, JsonLib, UtcLib}
use scada_guard.Quality.Real.{RealLib}
use scada_guard.Checks.{TextLib, ◌<>◌, base}

pub record TcpCheckConfig : Type 0 where
  pub id : String
  pub host : String
  pub port : ℕ
  pub timeout_ms : ℤ

pub record DiskCheckConfig (R : Type 0) : Type 0 where
  pub id : String
  pub path : String
  pub warning_free_percent : R
  pub critical_free_percent : R
  pub critical_free_gb : R

pub record Waited : Type 0 where
  pub selected : ℤ
  pub stop_requested : Bool
  pub writable : Bool
  pub socket_error : ℕ
  pub elapsed : ℕ

pub data TcpAnswer : Type 0 where
  no_winsock : TcpAnswer
  no_address : String → TcpAnswer
  no_socket : ℕ → TcpAnswer
  refused : ℕ → TcpAnswer
  waited : Waited → TcpAnswer

pub data DiskAnswer : Type 0 where
  no_space : ℕ → DiskAnswer
  space : ℕ → ℕ → DiskAnswer

module _ {J : Type 0} (json : JsonLib J) (utc : UtcLib) (text_lib : TextLib) where
  open json use {object, text, number, put}
  open text_lib use {decimal, error_text}

  is_positive : ℤ → Bool
  is_positive (pos n) = ltb 0 n
  is_positive (negsuc n) = false

  is_zero : ℤ → Bool
  is_zero (pos n) = n == 0
  is_zero (negsuc n) = false

  tcp_result : TcpCheckConfig → Waited → CheckResult J → CheckResult J
  unfolding is_positive is_zero
  tcp_result c w r =
      let connected = is_positive w.selected && (w.writable && w.socket_error == 0) in
      record r {
        status = if connected then HealthStatus.ok else HealthStatus.critical;
        message =
            if connected
            then "TCP connection succeeded"
            else if is_zero w.selected
            then "TCP connection timed out"
            else "TCP connection failed: " <> decimal w.socket_error;
        details =
            put (put (put object "host" (text c.host)) "port" (number c.port)) "connect_duration_ms"
              (number w.elapsed);
      }

  unfoldable pub check_tcp : TcpCheckConfig → TcpAnswer → ℕ → CheckResult J
  unfolding base tcp_result
  check_tcp c no_winsock clock = record (base json utc text_lib c.id "tcp" clock) {
    message = "Winsock initialization failed";
  }
  check_tcp c (no_address reason) clock = record (base json utc text_lib c.id "tcp" clock) {
    message = "Address resolution failed: " <> reason;
  }
  check_tcp c (no_socket code) clock = record (base json utc text_lib c.id "tcp" clock) {
    message = "Socket creation failed: " <> decimal code;
  }
  check_tcp c (refused code) clock = record (base json utc text_lib c.id "tcp" clock) {
    status = HealthStatus.critical;
    message = "TCP connection failed: " <> decimal code;
  }
  check_tcp c (waited w) clock =
      if w.stop_requested
      then record (base json utc text_lib c.id "tcp" clock) { message = "TCP check cancelled" }
      else tcp_result c w (base json utc text_lib c.id "tcp" clock)

  module _ {R : Type 0} (real : RealLib J R) where
    open real use {zero_real, sub, mul, div, lt, of_int, of_real}

    -- `total` and `free` are the sizes in bytes as `double`s.
    free_percent_of : ℕ → ℕ → R
    free_percent_of total free =
        if total == 0
        then zero_real
        else div (mul (of_int (pos 100)) (of_int (pos free))) (of_int (pos total))

    free_gb_of : ℕ → R
    free_gb_of free = div (of_int (pos free)) (of_int (pos 1073741824))

    disk_status : DiskCheckConfig R → R → R → HealthStatus
    disk_status c free_percent free_gb =
        if lt free_percent c.critical_free_percent || lt free_gb c.critical_free_gb
        then HealthStatus.critical
        else if lt free_percent c.warning_free_percent
        then HealthStatus.warning
        else HealthStatus.ok

    abbrev is_ok : HealthStatus → Bool
    is_ok HealthStatus.ok = true
    is_ok _ = false

    unfoldable pub check_disk : DiskCheckConfig R → DiskAnswer → ℕ → CheckResult J
    unfolding base free_percent_of free_gb_of disk_status
    check_disk c (no_space code) clock = record (base json utc text_lib c.id "disk" clock) {
      message = "Cannot query disk space: " <> error_text code;
      details = put object "path" (text c.path);
    }
    check_disk c (space total free) clock =
        let percent = free_percent_of total free in
        let status = disk_status c percent (free_gb_of free) in
        record (base json utc text_lib c.id "disk" clock) {
          status = status;
          message =
              if is_ok status
              then "Disk space is healthy"
              else "Disk free space is below configured threshold";
          details =
              put
                (put
                  (put (put (put object "path" (text c.path)) "total_bytes" (number total))
                    "free_bytes" (number free))
                  "free_percent" (of_real percent))
                "used_percent" (of_real (sub (of_int (pos 100)) percent));
        }
