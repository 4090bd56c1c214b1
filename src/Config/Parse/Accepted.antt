-- ===== src/Config/Parse/Accepted.antt =====
-- What an accepted document is.
use scada_guard.Prelude.{ℕ, String, true, some, List, [], ◌∷◌, ◌≡◌, refl, ap, ◌∙◌, arith}
use scada_guard.Model.{JsonLib}
use scada_guard.Quality.Real.{RealLib}
use scada_guard.Checks.{TextLib}
use scada_guard.State.{ConfigurationStatus}
use scada_guard.Config.{AppConfig}
use scada_guard.Config.Validate.{
  validate_config, source_errors, type_errors, general_errors, check_errors,
}
use scada_guard.Config.Hash.{configuration_hash}
use scada_guard.Config.Parse.{ReadLib}
use scada_guard.Config.Parse.Whole.{
  read_config, parse_config, status_of, accept_errors, lacks_archive,
}
use scada_guard.Central.{Result, returned, ◌>>=◌, from_json}
use scada_guard.Central.Results.{Gives, bind-Gives, returned-Gives, from_json-returned}

module _ {J R : Type 0} (json : JsonLib J) (real : RealLib J R) (lib : ReadLib J R)
    (text_lib : TextLib) where
  -- A configuration that was accepted at a time, from a document.
  abbrev pub IsAccepted : ℕ → J → AppConfig J R → Type 0
  IsAccepted now root c =
      (validate_config json real text_lib c ≡ some [])
      × ((canonical : List ℕ) × (lib.dump root ≡ returned canonical)
          × (c.status.hash ≡ configuration_hash canonical))
      × (c.status.loaded ≡ true)
      × (c.status.loaded_at ≡ now)

  accept_errors-returned :
      (errors : List String) (a : Unit {0}) → accept_errors errors ≡ returned a → errors ≡ []
  unfolding accept_errors
  accept_errors-returned [] a e = refl
  accept_errors-returned (error ∷ errors) a e = absurd (ground arith)

  -- What the status of an accepted document says.
  abbrev IsStatus : ℕ → J → ConfigurationStatus → Type 0
  IsStatus now root status =
      ((canonical : List ℕ) × (lib.dump root ≡ returned canonical)
        × (status.hash ≡ configuration_hash canonical))
      × (status.loaded ≡ true)
      × (status.loaded_at ≡ now)

  status_of-IsStatus :
      (now : ℕ) (root : J) (c : AppConfig J R)
      → Gives (IsStatus now root) (status_of json real lib text_lib now root c)
  unfolding status_of
  status_of-IsStatus now root c = bind-Gives (IsStatus now root) (lib.dump root) _ (λ canonical e.
      bind-Gives (IsStatus now root) (lacks_archive json real lib text_lib c.archive_data_source) _
        (λ missing e'. ((canonical, e, refl), refl, refl)))

  validate_config-status :
      (c : AppConfig J R) (status : ConfigurationStatus)
      → validate_config json real text_lib (record c { status = status })
        ≡ validate_config json real text_lib c
  unfolding validate_config source_errors type_errors general_errors check_errors
  validate_config-status c status = refl

  parse_config-Gives :
      (now : ℕ) (root : J)
      → Gives (IsAccepted now root) (parse_config json real lib text_lib now root)
  unfolding parse_config
  parse_config-Gives now root =
      let read = read_config json real lib text_lib root in
      let valid : (c : AppConfig J R) (errors : List String) (a : Unit {0})
          → from_json lib.value_error (validate_config json real text_lib c) ≡ returned errors
          → accept_errors errors ≡ returned a
          → validate_config json real text_lib c ≡ some [] =
        λ c errors a e1 e2.
          from_json-returned lib.value_error (validate_config json real text_lib c) errors e1
          ∙ ap some (accept_errors-returned errors a e2) in
      let last : AppConfig J R → Result (AppConfig J R) = λ c.
        status_of json real lib text_lib now root c >>= (λ s. returned (record c { status = s })) in
      let middle : AppConfig J R → List String → Result (AppConfig J R) =
        λ c errors. accept_errors errors >>= (λ a. last c) in
      let answer : AppConfig J R → Result (List String) =
        λ c. from_json lib.value_error (validate_config json real text_lib c) in
      bind-Gives (IsAccepted now root) read (λ c. answer c >>= middle c)
        (λ c e0. bind-Gives (IsAccepted now root) (answer c) (middle c) (λ errors e1.
          bind-Gives (IsAccepted now root) (accept_errors errors) (λ a. last c)
            (λ a e2.
              bind-Gives (IsAccepted now root) (status_of json real lib text_lib now root c)
                (λ s. returned (record c { status = s }))
                (λ s e3.
                  let (hash, loaded, at) =
                    returned-Gives (IsStatus now root) (status_of json real lib text_lib now root c)
                      s (status_of-IsStatus now root c) e3 in
                  (validate_config-status c s ∙ valid c errors a e1 e2, hash, loaded, at)))))

  -- An accepted document gives a configuration without errors, whose status carries the hash of that
  -- document and the time of the loading.
  pub parse_config-IsAccepted :
      (now : ℕ) (root : J) (c : AppConfig J R)
      → parse_config json real lib text_lib now root ≡ returned c
      → IsAccepted now root c
  parse_config-IsAccepted now root c e =
      returned-Gives (IsAccepted now root) (parse_config json real lib text_lib now root) c
        (parse_config-Gives now root) e
