-- ===== src/Central/Polls.antt =====
-- Polls of the central configuration, one and many.
use scada_guard.Prelude.{
  ℕ, ◌≤◌, String, ◌≢◌, Option, none, some, List, [], ◌∷◌, ◌≡◌, refl, ap, ◌∙◌, some_inj, ◌⊎◌, inl,
  inr, arith, if_rule, if◌then◌else◌, leb, ◌==◌, Option-cases,
}
use scada_guard.Model.{JsonLib, UtcLib}
use scada_guard.Checks.{TextLib}
use scada_guard.Quality.Real.{RealLib}
use scada_guard.Config.Validate.{validate_config}
use scada_guard.Discovery.{PathLib}
use scada_guard.Central.{DocLib}
use scada_guard.Central.Poll.{
  App, PollWorld, Polled, accept, handle, take_version, take_response, poll_central_configuration,
  quiet, waits,
}
use scada_guard.Central.Steps.{Unchanged, Activated, Unsaved, handle-Step, accept-IsAccepted}

none-some : {A : Type 0} {a : A} → none ≡ some a → ⊥
none-some e = ground arith

module _ {J R : Type 0} (paths : PathLib) (json : JsonLib J) (docs : DocLib J R) (utc : UtcLib)
    (real : RealLib J R) (text_lib : TextLib) where
  -- What a poll does to the state, for the response that it fetched.
  abbrev pub Effect : Option String → App J R → Option J → App J R → Type 0
  Effect failure app fetched app' =
      Unchanged paths json docs utc real text_lib app app'
      ⊎ ((response : J) × (fetched ≡ some response)
          × (((failure ≡ none) × Activated paths json docs utc real text_lib app response app')
              ⊎ ((failure ≢ none) × Unsaved paths json docs utc real text_lib app response app')))

  abbrev IfPolled : Option String → App J R → Option J → Option (Polled J R) → Type 0
  IfPolled failure app fetched none = Unit {0}
  IfPolled failure app fetched (some polled) = Effect failure app fetched polled.app

  still : (app : App J R) → Unchanged paths json docs utc real text_lib app app
  still app = (refl, refl, refl, refl)

  take_version-IfPolled :
      (world : PollWorld J) (response : J) (app : App J R) (version : Option ℕ)
      → json.value_number response "config_version" 0 ≡ version
      → IfPolled world.save_failure app
          (some response)
          (take_version paths json docs utc real text_lib world response app version)
  unfolding take_version
  take_version-IfPolled world response app none e = tt
  take_version-IfPolled world response app (some requested) e =
      let nothing = some (quiet paths json docs utc real text_lib app) in
      let accepted =
        accept paths json docs utc real text_lib world.is_regular_file response app.config in
      let handled = some (handle paths json docs utc real text_lib world requested app accepted) in
      let old = leb requested app.applied_configuration_version in
      if_rule (IfPolled world.save_failure app (some response)) (requested == 0) nothing
        (if old then nothing else handled) (λ e1. inl (still app))
        (λ e1.
          if_rule (IfPolled world.save_failure app (some response)) old nothing handled
            (λ e2. inl (still app))
            (λ e2.
              elim (handle-Step paths json docs utc real text_lib world response requested app
                accepted
                (accept-IsAccepted paths json docs utc real text_lib world.is_regular_file response
                  app.config)
                e (ground (arith))) [
                  | inl same ↦ inl same
                  | inr changed ↦ inr (response, refl, changed)
                ]))

  take_response-IfPolled :
      (world : PollWorld J) (fetched : Option J) (app : App J R)
      → IfPolled world.save_failure app fetched
          (take_response paths json docs utc real text_lib world fetched app)
  unfolding take_response
  take_response-IfPolled world none app = inl (still app)
  take_response-IfPolled world (some response) app = take_version-IfPolled world response app _ refl

  poll-IfPolled :
      (world : PollWorld J) (app : App J R)
      → IfPolled world.save_failure app world.response
          (poll_central_configuration paths json docs utc real text_lib world app)
  unfolding poll_central_configuration
  poll-IfPolled world app =
      let begun : App J R = record app { last_configuration_poll = world.now } in
      if_rule (IfPolled world.save_failure app world.response)
        (waits paths json docs utc real text_lib world.now app)
        (some (quiet paths json docs utc real text_lib app))
        (take_response paths json docs utc real text_lib world world.response begun)
        (λ e. inl (still app)) (λ e. take_response-IfPolled world world.response begun)

  pub poll-Step :
      (world : PollWorld J) (app : App J R) (polled : Polled J R)
      → poll_central_configuration paths json docs utc real text_lib world app ≡ some polled
      → Effect world.save_failure app world.response polled.app
  poll-Step world app polled e = rw e at (poll-IfPolled world app)

  -- The state after several polls; `none` is an exception that leaves one of them.
  unfoldable pub polls : List (PollWorld J) → App J R → Option (App J R)
  polls [] app = some app
  polls (world ∷ worlds) app =
      elim (poll_central_configuration paths json docs utc real text_lib world app) [
        | none ↦ none
        | some polled ↦ polls worlds polled.app
      ]

  poll-valid :
      (world : PollWorld J) (app : App J R) (polled : Polled J R)
      → poll_central_configuration paths json docs utc real text_lib world app ≡ some polled
      → validate_config json real text_lib app.config ≡ some []
      → (validate_config json real text_lib polled.app.config ≡ some [])
        × (app.applied_configuration_version ≤ polled.app.applied_configuration_version)
  poll-valid world app polled e h = elim (poll-Step world app polled e) [
    | inl (config, tables, version, rescan) ↦
        (ap (validate_config json real text_lib) config ∙ h, omega (arith, version))
    | inr (response, fetched, done) ↦ elim done [
      | inl (saves, (newer, number, saved, valid)) ↦ (valid, omega (arith, newer))
      | inr (throws, (requested, number, newer, valid, tables, version, rescan)) ↦
          (valid, omega (arith, version))
    ]
  ]

  -- The configuration stays valid, and the version does not fall, whatever the server answers.
  pub polls-valid :
      (worlds : List (PollWorld J)) (app app' : App J R)
      → polls worlds app ≡ some app'
      → validate_config json real text_lib app.config ≡ some []
      → (validate_config json real text_lib app'.config ≡ some [])
        × (app.applied_configuration_version ≤ app'.applied_configuration_version)
  unfolding polls
  polls-valid [] app app' e h =
      let same : app ≡ app' = some_inj e in (rw same at h, rw same (omega arith))
  polls-valid (world ∷ worlds) app app' e h =
      elim (Option-cases (poll_central_configuration paths json docs utc real text_lib world app)) [
        | inl e' ↦ absurd (none-some (rw (e', polls) at e))
        | inr (polled, e') ↦
            let (valid, first) = poll-valid world app polled e' h in
            let (valid', rest) = polls-valid worlds polled.app app' (rw (e', polls) at e) valid in
            (valid', omega (arith, first, rest))
      ]
