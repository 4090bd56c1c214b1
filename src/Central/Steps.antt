-- ===== src/Central/Steps.antt =====
-- What one poll does to the state.
use scada_guard.Prelude.{
  ℕ, ◌<◌, String, Bool, true, false, Option, none, some, [], ◌≡◌, ◌≢◌, refl, sym, ap, ◌∙◌, ◌⊎◌, inl,
  inr, arith, Option-cases, some_inj, lookup-insert,
}
use scada_guard.Model.{JsonLib, UtcLib}
use scada_guard.Checks.{TextLib}
use scada_guard.Quality.Real.{RealLib}
use scada_guard.Config.{AppConfig}
use scada_guard.Config.Validate.{validate_config}
use scada_guard.Storage.Tables.{
  Tables, load_working_central_configuration, save_working_central_configuration,
}
use scada_guard.Discovery.{PathLib}
use scada_guard.Central.{
  Result, thrown, returned, ◌>>=◌, ensure, DocLib, DesiredAgentConfiguration, number_at,
  signed_payload, validate_payload, complete, validate_desired_agent_configuration,
}
use scada_guard.Central.Apply.{ArchiveSource, make_archive_source}
use scada_guard.Central.Poll.{
  App, PollWorld, move_config, save_desired, commit, accept, check_files, candidate_for, discover,
  activate, after_commit, handle, renewed,
}
use scada_guard.Central.Results.{Gives, bind-Gives, returned-Gives, from_json-returned}
use scada_guard.Central.Safety.{IsCandidate, candidate_of-IsCandidate, move_config-validate}

some-none : {A : Type 0} {a : A} → some a ≢ none
some-none e = ground arith

module _ {J R : Type 0} (paths : PathLib) (json : JsonLib J) (docs : DocLib J R) (utc : UtcLib)
    (real : RealLib J R) (text_lib : TextLib) where
  -- A desired configuration of a document.
  abbrev pub IsOf : J → DesiredAgentConfiguration J → Type 0
  IsOf value desired =
      (desired.raw ≡ value)
      × (number_at paths json docs value "config_version" ≡ returned desired.version)

  validate-IsOf :
      (value : J) → Gives (IsOf value) (validate_desired_agent_configuration paths json docs value)
  unfolding validate_desired_agent_configuration
  validate-IsOf value =
      let finish : ℕ
          → String × J
          → DesiredAgentConfiguration J
          → Result (DesiredAgentConfiguration J) =
        λ version signed result. returned (complete paths json docs value version signed result) in
      let payload : ℕ → String × J → Result (DesiredAgentConfiguration J) =
        λ version signed. validate_payload paths json docs signed.1 >>= finish version signed in
      let signed_of : ℕ → Result (DesiredAgentConfiguration J) =
        λ version. signed_payload paths json docs value version >>= payload version in
      let number = number_at paths json docs value "config_version" in
      bind-Gives (IsOf value)
        (ensure (docs.is_object value) "desired agent configuration must be an object")
        (λ a. number >>= signed_of)
        (λ a e1. bind-Gives (IsOf value) number signed_of (λ version e2.
          bind-Gives (IsOf value) (signed_payload paths json docs value version) (payload version)
            (λ signed e3.
              bind-Gives (IsOf value) (validate_payload paths json docs signed.1)
                (finish version signed) (λ result e4. (refl, e2)))))

  -- What an accepted response is.
  abbrev pub IsAccepted : J → AppConfig J R → DesiredAgentConfiguration J × AppConfig J R → Type 0
  IsAccepted response config accepted =
      IsOf response accepted.0 × IsCandidate paths json docs utc real text_lib config accepted.1

  pub accept-IsAccepted :
      (is_regular_file : String → Bool) (response : J) (config : AppConfig J R)
      → Gives
          (IsAccepted response config)
          (accept paths json docs utc real text_lib is_regular_file response config)
  unfolding accept
  accept-IsAccepted is_regular_file response config =
      let P = IsAccepted response config in
      let read = validate_desired_agent_configuration paths json docs response in
      let candidate : DesiredAgentConfiguration J → Result (AppConfig J R) =
        λ desired. candidate_for paths json docs utc real text_lib desired config in
      let pair : DesiredAgentConfiguration J
          → Result (DesiredAgentConfiguration J × AppConfig J R) =
        λ desired. candidate desired >>= (λ c. returned (desired, c)) in
      let files : DesiredAgentConfiguration J → Result (Unit {0}) =
        λ desired. check_files paths json docs utc real text_lib is_regular_file desired in
      bind-Gives P read (λ desired. files desired >>= (λ a. pair desired))
        (λ desired e1.
          bind-Gives P (files desired) (λ a. pair desired)
            (λ a e2.
              bind-Gives P (candidate desired) (λ c. returned (desired, c))
                (λ c e3. (
                  returned-Gives (IsOf response) read desired (validate-IsOf response) e1,
                  returned-Gives (IsCandidate paths json docs utc real text_lib config)
                      (candidate desired) c
                      (candidate_of-IsCandidate paths json docs utc real text_lib _ _ _ desired
                        config)
                      e3,
                ))))

  number_at-value_number :
      (value : J) (key : String) (n : ℕ)
      → number_at paths json docs value key ≡ returned n
      → json.value_number value key 0 ≡ some n
  unfolding number_at
  number_at-value_number value key n e = elim (Option-cases (json.at? value key)) [
    | inl e' ↦ absurd (ground (arith))
    | inr (v, e') ↦
        json.value_number-some value v key 0 e'
        ∙ from_json-returned docs.library_error (json.get_number v) n (rw (e', number_at) at e)
  ]

  load_working-save_working :
      (c : J) (t : Tables J)
      → load_working_central_configuration json utc
          (save_working_central_configuration json utc c t)
        ≡ some c
  unfolding load_working_central_configuration save_working_central_configuration
  load_working-save_working c t = lookup-insert "working_central_configuration" _ c _

  -- The polling leaves these fields.
  abbrev pub Unchanged : App J R → App J R → Type 0
  Unchanged app app' =
      (app'.config ≡ app.config)
      × (app'.tables ≡ app.tables)
      × (app'.applied_configuration_version ≡ app.applied_configuration_version)
      × (app'.last_rescan_request ≡ app.last_rescan_request)

  -- The response has taken effect: its version is newer, it is saved, and the configuration is valid.
  abbrev pub Activated : App J R → J → App J R → Type 0
  Activated app response app' =
      (app.applied_configuration_version < app'.applied_configuration_version)
      × (json.value_number response "config_version" 0 ≡ some app'.applied_configuration_version)
      × (load_working_central_configuration json utc app'.tables ≡ some response)
      × (validate_config json real text_lib app'.config ≡ some [])

  -- The saving of a newer response threw `reason`: its configuration is in effect, and it is valid,
  -- but it is not saved, and the version is the old one.
  abbrev pub Unsaved : App J R → J → App J R → Type 0
  Unsaved app response app' =
      (requested : ℕ) × (json.value_number response "config_version" 0 ≡ some requested)
      × (app.applied_configuration_version < requested)
      × (validate_config json real text_lib app'.config ≡ some [])
      × (app'.tables ≡ app.tables)
      × (app'.applied_configuration_version ≡ app.applied_configuration_version)
      × (app'.last_rescan_request ≡ app.last_rescan_request)

  move_config-rest :
      (desired : DesiredAgentConfiguration J) (candidate : AppConfig J R) (app : App J R)
      → let moved = move_config paths json docs utc real text_lib desired candidate app in
        (moved.tables ≡ app.tables)
        × (moved.applied_configuration_version ≡ app.applied_configuration_version)
        × (moved.last_rescan_request ≡ app.last_rescan_request)
  unfolding move_config
  move_config-rest desired candidate app = (refl, refl, refl)

  discover-Unchanged :
      (wanted : Bool) (failure : Option String) (requested : ℕ) (app : App J R)
      → Unchanged app (discover paths json docs utc real text_lib wanted failure requested app).app
  unfolding discover
  discover-Unchanged false failure requested app = (refl, refl, refl, refl)
  discover-Unchanged true none requested app = (refl, refl, refl, refl)
  discover-Unchanged true (some reason) requested app = (refl, refl, refl, refl)

  activate-Unchanged :
      (server_changed wanted : Bool) (failure : Option String) (requested : ℕ) (app : App J R)
      (r : Result ArchiveSource)
      → Unchanged app
          (activate paths json docs utc real text_lib server_changed wanted failure requested app
            r).app
  unfolding activate
  activate-Unchanged server_changed wanted failure requested app (thrown reason) =
      (refl, refl, refl, refl)
  activate-Unchanged server_changed wanted failure requested app (returned archive) =
      discover-Unchanged wanted failure requested
        (renewed paths json docs utc real text_lib server_changed archive app)

  commit-Activated :
      (response : J) (desired : DesiredAgentConfiguration J) (candidate : AppConfig J R)
      (app : App J R)
      → IsAccepted response app.config (desired, candidate)
      → app.applied_configuration_version < desired.version
      → Activated app response (
          save_desired paths json docs utc real text_lib desired
            (move_config paths json docs utc real text_lib desired candidate app))
  unfolding save_desired
  commit-Activated response desired candidate app ((raw, number), (change, valid)) newer = (
    newer,
    number_at-value_number response "config_version" desired.version number,
    load_working-save_working desired.raw
          (move_config paths json docs utc real text_lib desired candidate app).tables
        ∙ ap (λ v. some v) raw,
    move_config-validate paths json docs utc real text_lib desired candidate app change valid,
  )

  abbrev pub Step : Option String → App J R → J → App J R → Type 0
  Step failure app response app' =
      Unchanged app app'
      ⊎ (((failure ≡ none) × Activated app response app')
          ⊎ ((failure ≢ none) × Unsaved app response app'))

  Activated-Unchanged :
      (app app' app'' : App J R) (response : J)
      → Activated app response app'
      → Unchanged app' app''
      → Activated app response app''
  Activated-Unchanged app app' app'' response h (config, tables, version, rescan) =
      (rw version h.0, rw version h.1, rw tables h.2, rw config h.3)

  -- The section under the lock and what follows it.
  after_commit-Step :
      (server_changed wanted : Bool) (failed failure : Option String) (requested : ℕ) (response : J)
      (desired : DesiredAgentConfiguration J) (candidate : AppConfig J R) (app : App J R)
      → IsAccepted response app.config (desired, candidate)
      → app.applied_configuration_version < desired.version
      → Step failed app response
          (after_commit paths json docs utc real text_lib server_changed wanted failure requested
            (commit paths json docs utc real text_lib failed desired candidate app)).app
  unfolding commit after_commit
  after_commit-Step server_changed wanted none failure requested response desired candidate app is
        newer =
      let moved = move_config paths json docs utc real text_lib desired candidate app in
      let committed = save_desired paths json docs utc real text_lib desired moved in
      let source = make_archive_source paths json docs committed.config.archive_data_source in
      let after =
        activate paths json docs utc real text_lib server_changed wanted failure requested committed
          source in
      inr (
        inl (
          refl,
          Activated-Unchanged app committed after.app response
              (commit-Activated response desired candidate app is newer)
              (activate-Unchanged server_changed wanted failure requested committed source),
        ))
  after_commit-Step server_changed wanted (some reason) failure requested response desired candidate
        app ((raw, number), (change, valid)) newer =
      let (tables, version, rescan) = move_config-rest desired candidate app in
      inr (
        inr (
          some-none,
          (
            desired.version,
            number_at-value_number response "config_version" desired.version number,
            newer,
            move_config-validate paths json docs utc real text_lib desired candidate app change
                valid,
            tables,
            version,
            rescan,
          ),
        ))

  pub handle-Step :
      (world : PollWorld J) (response : J) (requested : ℕ) (app : App J R)
      (r : Result (DesiredAgentConfiguration J × AppConfig J R))
      → Gives (IsAccepted response app.config) r
      → json.value_number response "config_version" 0 ≡ some requested
      → app.applied_configuration_version < requested
      → Step world.save_failure app response
          (handle paths json docs utc real text_lib world requested app r).app
  unfolding handle
  handle-Step world response requested app (thrown reason) is e newer = inl (refl, refl, refl, refl)
  handle-Step world response requested app (returned (desired, candidate)) is e newer =
      let same : desired.version ≡ requested =
        some_inj
          (sym (number_at-value_number response "config_version" desired.version is.0.1) ∙ e) in
      after_commit-Step _ _ world.save_failure world.discovery_failure requested response desired
        candidate app is (rw same newer)
