-- ===== src/State/Metrics.antt =====
-- `AgentState::metrics` of src/http/http_server.cpp, as the bytes of its text, and `signals` and
-- `version`.
use Prim.Native.Char.{code}
use scada_guard.Prelude.{
  ℕ, zero, suc, ◌+◌, ◌-◌, String, Option, none, some, false, List, [], ◌∷◌, ◌++◌, ◌≡◌, refl, length,
  map, drop, arith, sub_ℕ, pos_part,
}
use scada_guard.Model.{CheckResult, JsonLib, UtcLib}
use scada_guard.Storage.Signals.{RealJson, sample_to_json}
use scada_guard.Checks.{TextLib, ◌<>◌}
use scada_guard.Checks.Files.{whole_seconds}
use scada_guard.State.{AgentState, BuildInfo, status_rank, active_count}
use scada_guard.State.Labels.{
  escape_prometheus_label, read_label, read_label-escape_prometheus_label,
}

-- The bytes of a text in ASCII.
abbrev ascii : String → List ℕ
ascii String.[] = []
ascii (String.◌∷◌ c s) = code c ∷ ascii s

abbrev pub heading : List ℕ
heading =
    ascii "# HELP scadaguard_check_status Check status: 0 ok, 1 warning, 2 critical, 3 unknown\n"
    ++ ascii "# TYPE scadaguard_check_status gauge\n"

module _ (text_lib : TextLib) where
  abbrev label : String → List ℕ
  label s = escape_prometheus_label (text_lib.bytes_of s)

  -- The line of a check, before what follows.
  unfoldable pub check_line : {J : Type 0} → CheckResult J → List ℕ → List ℕ
  check_line c rest =
      ascii "scadaguard_check_status{check_id=\""
      ++ (label c.check_id
          ++ (ascii "\",component=\""
              ++ (label c.component ++ (ascii "\"} " ++ (48 + status_rank c.status) ∷ 10 ∷ rest))))

  unfoldable pub check_lines : {J : Type 0} → List (CheckResult J) → List ℕ → List ℕ
  unfolding check_line
  check_lines [] rest = rest
  check_lines (c ∷ cs) rest = check_line c (check_lines cs rest)

  number_line : String → ℕ → List ℕ → List ℕ
  number_line before n rest = ascii before ++ (text_lib.bytes_of (text_lib.decimal n) ++ 10 ∷ rest)

  -- The age of the oldest message, not below 0.
  age_lines : ℕ → Option ℕ → List ℕ
  unfolding number_line
  age_lines now none = []
  age_lines now (some oldest) =
      number_line
        ("# TYPE scadaguard_outbound_queue_oldest_age_seconds gauge\n"
          <> "scadaguard_outbound_queue_oldest_age_seconds ")
        (pos_part (whole_seconds (sub_ℕ now oldest))) []

  -- What follows the checks.
  unfoldable pub totals : {J R : Type 0} → ℕ → AgentState J R → List ℕ
  unfolding number_line age_lines
  totals now s =
      number_line "# TYPE scadaguard_active_incidents gauge\nscadaguard_active_incidents "
        (active_count s)
        (number_line "# TYPE scadaguard_outbound_queue_size gauge\nscadaguard_outbound_queue_size "
          s.queue_size (age_lines now s.oldest_queued_at))

  unfoldable pub metrics : {J R : Type 0} → ℕ → AgentState J R → List ℕ
  metrics now s = heading ++ check_lines s.checks (totals now s)

module _ {J R : Type 0} (json : JsonLib J) (utc : UtcLib) (numbers : RealJson J R) where
  signals : AgentState J R → J
  signals s = json.array (map (sample_to_json json utc numbers) s.signals)

module _ {J : Type 0} (json : JsonLib J) where
  open json use {put, object, text, number}

  version : BuildInfo → J
  version build =
      put
        (put
          (put (put object "agent_version" (text build.agent_version)) "protocol_version"
            (number build.protocol_version))
          "build_type" (text build.build_type))
        "architecture" (text build.build_architecture)

drop-append : (xs ys : List ℕ) → drop (length xs) (xs ++ ys) ≡ ys
drop-append [] ys = refl
drop-append (x ∷ xs) ys = drop-append xs ys

-- A reader of `count` lines of checks, by the exposition format: the two labels and the value of
-- each, and what follows.
abbrev digit_of : List ℕ → ℕ
digit_of [] = 0
digit_of (c ∷ cs) = c - 48

pub read_checks : ℕ → List ℕ → List (List ℕ × List ℕ × ℕ) × List ℕ
read_checks zero bytes = ([], bytes)
read_checks (suc count) bytes =
    let (id, after) = read_label false (drop 34 bytes) in
    let (component, end) = read_label false (drop 12 after) in
    let (others, rest) = read_checks count (drop 4 end) in
    ((id, component, digit_of (drop 2 end)) ∷ others, rest)

module _ {J : Type 0} (text_lib : TextLib) where
  abbrev pub as_read : CheckResult J → List ℕ × List ℕ × ℕ
  as_read c = (text_lib.bytes_of c.check_id, text_lib.bytes_of c.component, status_rank c.status)

  read_checks-check_lines :
      (cs : List (CheckResult J)) (rest : List ℕ)
      → read_checks (length cs) (check_lines text_lib cs rest) ≡ (map as_read cs, rest)
  unfolding read_checks check_lines
  read_checks-check_lines [] rest = refl
  read_checks-check_lines (c ∷ cs) rest =
      let tail = (48 + status_rank c.status) ∷ 10 ∷ check_lines text_lib cs rest in
      let component =
        read_label-escape_prometheus_label (text_lib.bytes_of c.component) (125 ∷ 32 ∷ tail) in
      let id =
        read_label-escape_prometheus_label (text_lib.bytes_of c.check_id)
          (ascii ",component=\"" ++ (label text_lib c.component ++ 34 ∷ 125 ∷ 32 ∷ tail)) in
      let digit : 48 + status_rank c.status - 48 ≡ status_rank c.status = omega arith in
      rw (id, component, read_checks-check_lines cs rest, digit) refl

  -- Whatever bytes the labels have, a reader of the exposition format gets from the metrics, behind
  -- their heading, the id, the component and the number of the status of each check, in their order,
  -- and goes on with the totals.
  pub read_checks-metrics :
      {R : Type 0} (now : ℕ) (s : AgentState J R)
      → read_checks (length s.checks) (drop (length heading) (metrics text_lib now s))
        ≡ (map as_read s.checks, totals text_lib now s)
  unfolding metrics
  read_checks-metrics now s =
      rw (drop-append heading (check_lines text_lib s.checks (totals text_lib now s)))
        (read_checks-check_lines s.checks (totals text_lib now s))
