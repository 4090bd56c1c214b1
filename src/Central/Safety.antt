-- ===== src/Central/Safety.antt =====
-- What a poll of the central configuration keeps.
use scada_guard.Prelude.{
  String, true, Option, none, some, List, [], ◌≡◌, refl, ap, ◌∙◌, if_rule, ℤ, ◌||◌,
}
use scada_guard.Model.{JsonLib, UtcLib}
use scada_guard.Checks.{TextLib}
use scada_guard.Quality.{SignalRule}
use scada_guard.Quality.Real.{RealLib}
use scada_guard.Config.{AppConfig, DataSourceConfig}
use scada_guard.Config.Validate.{validate_config, general_errors, check_errors}
use scada_guard.Discovery.{PathLib}
use scada_guard.Central.{lib, Result, returned, ◌>>=◌, DocLib, DesiredAgentConfiguration}
use scada_guard.Central.Apply.{
  apply_archive_mapping, archive_text, mapped_to, with_signals, validated, candidate_of, no_errors,
  with_interval, with_server,
}
use scada_guard.Central.Poll.{App, move_config}
use scada_guard.Central.Results.{
  Gives, bind-Gives, returned-Gives, from_json-returned, no_errors-returned,
}

module _ {J R : Type 0} (paths : PathLib) (json : JsonLib J) (docs : DocLib J R) (utc : UtcLib)
    (real : RealLib J R) (text_lib : TextLib) where
  -- The fields in which a candidate differs.
  abbrev pub changed :
      ℤ → DataSourceConfig J → String → List (SignalRule R) → AppConfig J R → AppConfig J R
  changed interval source url signals config = record config {
    agent = record config.agent { poll_interval_seconds = interval };
    central_server = record config.central_server { base_url = url };
    archive_data_source = source;
    signals = signals;
  }

  abbrev pub IsChange : AppConfig J R → AppConfig J R → Type 0
  IsChange config candidate =
      (interval : ℤ) × (source : DataSourceConfig J) × (url : String) × (signals : List
        (SignalRule R))
      × (candidate ≡ changed interval source url signals config)

  -- A configuration but for its archive source.
  abbrev HasSource : AppConfig J R → AppConfig J R → Type 0
  HasSource config mapped =
      (source : DataSourceConfig J) × (mapped ≡ record config { archive_data_source = source })

  apply_archive_mapping-HasSource :
      (desired : DesiredAgentConfiguration J) (config : AppConfig J R)
      → Gives (HasSource config) (apply_archive_mapping paths json docs desired config)
  unfolding apply_archive_mapping
  apply_archive_mapping-HasSource desired config =
      let options =
        json.put (json.put desired.archive_mapping "enabled" (json.bool true)) "database_path"
          (json.text (archive_text paths json docs desired.confirmed_archive)) in
      let quality = lib paths json docs (docs.value_doc options "quality_column" json.null) in
      let build : J → Result (AppConfig J R) =
        λ q. returned (mapped_to paths json docs options q config) in
      if_rule (Gives (HasSource config))
        (json.is_null desired.archive_mapping || docs.is_blank desired.archive_mapping)
        (returned config) (quality >>= build) (λ e. (config.archive_data_source, refl))
        (λ e. bind-Gives (HasSource config) quality build (λ q e'.
          let mapped : HasSource config (mapped_to paths json docs options q config) = (_, refl) in
          mapped))

  -- A valid configuration that differs from another in these fields only.
  abbrev pub IsCandidate : AppConfig J R → AppConfig J R → Type 0
  IsCandidate config candidate =
      IsChange config candidate × (validate_config json real text_lib candidate ≡ some [])

  with_server-changed :
      (url : Option String) (desired : DesiredAgentConfiguration J) (config mapped : AppConfig J R)
      (signals : List (SignalRule R))
      → HasSource (with_interval paths json docs desired config) mapped
      → IsChange config (record (with_server paths json docs url mapped) { signals = signals })
  with_server-changed none desired config mapped signals (source, e) = (
    desired.monitoring_interval_seconds,
    source,
    config.central_server.base_url,
    signals,
    rw e refl,
  )
  with_server-changed (some url) desired config mapped signals (source, e) =
      (desired.monitoring_interval_seconds, source, url, signals, rw e refl)

  validated-Gives :
      (config : AppConfig J R) (invalid : String → String) (candidate : AppConfig J R)
      → IsChange config candidate
      → Gives (IsCandidate config) (validated paths json docs real text_lib invalid candidate)
  unfolding validated
  validated-Gives config invalid candidate change =
      let answer = validate_config json real text_lib candidate in
      let after : List String → Result (AppConfig J R) =
        λ errors. no_errors invalid errors >>= (λ a. returned candidate) in
      bind-Gives (IsCandidate config) (lib paths json docs answer) after (λ errors e.
        bind-Gives (IsCandidate config) (no_errors invalid errors) (λ a. returned candidate)
          (λ a e'. (
            change,
            from_json-returned docs.library_error answer errors e
                ∙ ap (λ es. some es) (no_errors-returned invalid errors a e'),
          )))

  pub candidate_of-IsCandidate :
      (known : List String → List (SignalRule R) → Result (Unit {0}))
      (unknown invalid : String → String) (desired : DesiredAgentConfiguration J)
      (config : AppConfig J R)
      → Gives
          (IsCandidate config)
          (candidate_of paths json docs real text_lib known unknown invalid desired config)
  unfolding candidate_of
  candidate_of-IsCandidate known unknown invalid desired config =
      let start = with_interval paths json docs desired config in
      let mapping = apply_archive_mapping paths json docs desired start in
      let finished : AppConfig J R → List (SignalRule R) → AppConfig J R = λ mapped signals.
        record (with_server paths json docs desired.server_url mapped) { signals = signals } in
      let signals_of : AppConfig J R → Result (List (SignalRule R)) =
        λ mapped. with_signals paths json docs real text_lib known unknown desired mapped.signals in
      let last : AppConfig J R → List (SignalRule R) → Result (AppConfig J R) = λ mapped signals.
        validated paths json docs real text_lib invalid (finished mapped signals) in
      bind-Gives (IsCandidate config) mapping (λ mapped. signals_of mapped >>= last mapped)
        (λ mapped e.
          bind-Gives (IsCandidate config) (signals_of mapped) (last mapped) (λ signals e'.
            validated-Gives config invalid (finished mapped signals) (
              with_server-changed desired.server_url desired config mapped signals (
                returned-Gives (HasSource start) mapping mapped
                  (apply_archive_mapping-HasSource desired start) e))))

  validate_config-discovery :
      (c : AppConfig J R) (archive : Option String) (logs : List String)
      → validate_config json real text_lib (record c {
        discovery = record c.discovery { confirmed_archive = archive; confirmed_logs = logs };
      })
        ≡ validate_config json real text_lib c
  unfolding validate_config general_errors check_errors
  validate_config-discovery c archive logs = refl

  -- What is moved under the lock is the candidate, but for the confirmed paths.
  move_config-config :
      (desired : DesiredAgentConfiguration J) (candidate : AppConfig J R) (app : App J R)
      → IsChange app.config candidate
      → (move_config paths json docs utc real text_lib desired candidate app).config
        ≡ record candidate {
          discovery = record candidate.discovery {
            confirmed_archive = desired.confirmed_archive;
            confirmed_logs = desired.confirmed_logs;
          };
        }
  unfolding move_config
  move_config-config desired candidate app (interval, source, url, signals, e) = rw e refl

  pub move_config-validate :
      (desired : DesiredAgentConfiguration J) (candidate : AppConfig J R) (app : App J R)
      → IsChange app.config candidate
      → validate_config json real text_lib candidate ≡ some []
      → validate_config json real text_lib
          (move_config paths json docs utc real text_lib desired candidate app).config
        ≡ some []
  move_config-validate desired candidate app change h =
      ap (validate_config json real text_lib) (move_config-config desired candidate app change)
      ∙ (validate_config-discovery candidate desired.confirmed_archive desired.confirmed_logs ∙ h)
