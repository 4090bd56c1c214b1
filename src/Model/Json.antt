-- ===== src/Model/Json.antt =====
-- The `to_json` and `from_json` functions of src/model.cpp, and what they lose.
use scada_guard.Prelude.{ℕ, String, Bool, Option, none, some, ◌≡◌, refl, ◌∙◌, if◌then◌else◌, ◌==◌}
use scada_guard.Model.{
  HealthStatus, CheckResult, Incident, JsonLib, UtcLib, to_string, health_status_from_string, epoch,
  floor_seconds,
}

infixl 5 ◌>>=◌
abbrev ◌>>=◌ {ℓ κ} : {A : Type ℓ} {B : Type κ} → Option A → (A → Option B) → Option B
none >>= f = none
some a >>= f = f a

pub health_status_from_string-to_string :
    (s : HealthStatus) → health_status_from_string (to_string s) ≡ some s
unfolding health_status_from_string to_string
health_status_from_string-to_string HealthStatus.unknown = refl
health_status_from_string-to_string HealthStatus.ok = refl
health_status_from_string-to_string HealthStatus.warning = refl
health_status_from_string-to_string HealthStatus.critical = refl

abbrev floor_option : Option ℕ → Option ℕ
floor_option none = none
floor_option (some t) = some (floor_seconds t)

-- What an incident is after a restart.
abbrev pub as_stored : {J : Type 0} → Incident J → Incident J
as_stored v = record v {
  opened_at = floor_seconds v.opened_at;
  closed_at = floor_option v.closed_at;
  last_seen_at = floor_seconds (if v.last_seen_at == epoch then v.opened_at else v.last_seen_at);
}

module _ {J : Type 0} (json : JsonLib J) (utc : UtcLib) where
  open json use {
    object, null, text, number, bool, put, at?, is_null, get_text, get_number, get_bool, value_text,
    value_number,
  }
  open utc use {format_utc, parse_utc}

  -- `j.at(key).get<T>()`
  unfoldable pub text_at : J → String → Option String
  text_at j k = do v ← at? j k; get_text v

  unfoldable pub time_at : J → String → Option ℕ
  unfolding text_at
  time_at j k = do s ← text_at j k; parse_utc s

  status_at : J → String → Option HealthStatus
  unfolding text_at
  status_at j k = do s ← text_at j k; health_status_from_string s

  details_of : J → J
  details_of j = elim (at? j "details") [ none ↦ object | some d ↦ d ]

  unfoldable pub result_to_json : CheckResult J → J
  result_to_json v =
      put
        (put
          (put
            (put (put (put object "check_id" (text v.check_id)) "component" (text v.component))
              "status" (text (to_string v.status)))
            "message" (text v.message))
          "observed_at" (text (format_utc v.observed_at)))
        "details" v.details

  unfoldable pub result_from_json : J → Option (CheckResult J)
  unfolding text_at time_at status_at details_of
  result_from_json j = do
    check_id ← text_at j "check_id"
    component ← text_at j "component"
    status ← status_at j "status"
    message ← text_at j "message"
    observed_at ← time_at j "observed_at"
    some (record {
      check_id = check_id;
      component = component;
      status = status;
      message = message;
      observed_at = observed_at;
      details = details_of j;
    })

  bool_at : J → String → Option Bool
  bool_at j k = do v ← at? j k; get_bool v

  -- The conditional of `closed_at`: null, or a time.
  closed_at_of : J → Option (Option ℕ)
  closed_at_of v =
      let read = (do s ← get_text v; t ← parse_utc s; some (some t)) in
      if is_null v then some none else read

  last_seen_of : J → ℕ → Option ℕ
  unfolding time_at
  last_seen_of j opened_at = elim (at? j "last_seen_at") [
    | none ↦ some opened_at
    | some _ ↦ time_at j "last_seen_at"
  ]

  closed_at_json : Option ℕ → J
  closed_at_json none = null
  closed_at_json (some t) = text (format_utc t)

  unfoldable pub incident_to_json : Incident J → J
  unfolding closed_at_json
  incident_to_json v =
      let seen = if v.last_seen_at == epoch then v.opened_at else v.last_seen_at in
      put
        (put
          (put
            (put
              (put
                (put
                  (put
                    (put
                      (put
                        (put
                          (put
                            (put (put object "incident_id" (text v.incident_id)) "incident_key"
                              (text v.incident_key))
                            "component" (text v.component))
                          "severity" (text (to_string v.severity)))
                        "title" (text v.title))
                      "description" (text v.description))
                    "opened_at" (text (format_utc v.opened_at)))
                  "closed_at" (closed_at_json v.closed_at))
                "active" (bool v.active))
              "details" v.details)
            "source" (text v.source))
          "last_seen_at" (text (format_utc seen)))
        "occurrence_count" (number v.occurrence_count)

  unfoldable pub incident_from_json : J → Option (Incident J)
  unfolding text_at time_at status_at details_of bool_at closed_at_of last_seen_of
  incident_from_json j = do
    incident_id ← text_at j "incident_id"
    incident_key ← text_at j "incident_key"
    component ← text_at j "component"
    severity ← status_at j "severity"
    title ← text_at j "title"
    description ← text_at j "description"
    opened_at ← time_at j "opened_at"
    closed ← at? j "closed_at"
    closed_at ← closed_at_of closed
    active ← bool_at j "active"
    source ← value_text j "source" "agent"
    last_seen_at ← last_seen_of j opened_at
    occurrence_count ← value_number j "occurrence_count" 1
    some (record {
      incident_id = incident_id;
      incident_key = incident_key;
      component = component;
      severity = severity;
      title = title;
      description = description;
      opened_at = opened_at;
      closed_at = closed_at;
      active = active;
      details = details_of j;
      source = source;
      last_seen_at = last_seen_at;
      occurrence_count = occurrence_count;
    })

  details_of-at : (j d : J) → at? j "details" ≡ some d → details_of j ≡ d
  unfolding details_of
  details_of-at j d e = rw (e, details_of)

  text_at-at : (j : J) (k s : String) → at? j k ≡ some (text s) → text_at j k ≡ some s
  unfolding text_at
  text_at-at j k s e = rw (e, ◌>>=◌) (json.get_text-text s)

  time_at-at :
      (j : J) (k : String) (t : ℕ)
      → at? j k ≡ some (text (format_utc t))
      → time_at j k ≡ some (floor_seconds t)
  unfolding time_at
  time_at-at j k t e = rw (text_at-at j k _ e, ◌>>=◌) (utc.parse_utc-format_utc t)

  last_seen_of-at :
      (j : J) (t s : ℕ)
      → at? j "last_seen_at" ≡ some (text (format_utc t))
      → last_seen_of j s ≡ some (floor_seconds t)
  unfolding last_seen_of
  last_seen_of-at j t s e = rw (e, last_seen_of) (time_at-at j "last_seen_at" t e)

  closed_at_of-json : (c : Option ℕ) → closed_at_of (closed_at_json c) ≡ some (floor_option c)
  unfolding closed_at_of closed_at_json
  closed_at_of-json none = rw json.is_null-null
  closed_at_of-json (some t) =
      simp (json.is_null-text, json.get_text-text, utc.parse_utc-format_utc)

  -- The members that are read with a fallback.
  source-incident_to_json :
      (v : Incident J) → value_text (incident_to_json v) "source" "agent" ≡ some v.source
  unfolding incident_to_json
  source-incident_to_json v =
      json.value_text-some _ _ _ _
        (json.at?-put _ _ _ _ ∙ json.at?-put _ _ _ _ ∙ json.at?-put _ _ _ _)
      ∙ json.get_text-text v.source

  occurrences-incident_to_json :
      (v : Incident J)
      → value_number (incident_to_json v) "occurrence_count" 1 ≡ some v.occurrence_count
  unfolding incident_to_json
  occurrences-incident_to_json v =
      json.value_number-some _ _ _ _ (json.at?-put _ _ _ _) ∙ json.get_number-number _

  details-incident_to_json : (v : Incident J) → details_of (incident_to_json v) ≡ v.details
  unfolding incident_to_json
  details-incident_to_json v = details_of-at _ v.details (simp json.at?-put)

  last_seen-incident_to_json :
      (v : Incident J) (s : ℕ)
      → last_seen_of (incident_to_json v) s ≡ some (as_stored v).last_seen_at
  unfolding incident_to_json
  last_seen-incident_to_json v s = last_seen_of-at _ _ s (simp json.at?-put)

  -- A check result that is stored and loaded again is the same, but that its time is cut to the
  -- whole second.
  pub result_from_json-result_to_json :
      (v : CheckResult J)
      → result_from_json (result_to_json v)
        ≡ some (record v { observed_at = floor_seconds v.observed_at })
  unfolding result_from_json result_to_json
  result_from_json-result_to_json v = simp (
    json.at?-put,
    json.get_text-text,
    utc.parse_utc-format_utc,
    health_status_from_string-to_string,
    details_of-at (result_to_json v) v.details (json.at?-put _ _ _ _),
  )

  -- An incident that is stored and loaded again is the same, but that its times are cut to the
  -- whole second, and that one never seen again counts as last seen when it was opened.
  pub incident_from_json-incident_to_json :
      (v : Incident J) → incident_from_json (incident_to_json v) ≡ some (as_stored v)
  unfolding incident_from_json incident_to_json
  incident_from_json-incident_to_json v = simp (
    json.at?-put, json.get_text-text, json.get_bool-bool, utc.parse_utc-format_utc,
    health_status_from_string-to_string, closed_at_of-json, source-incident_to_json,
    occurrences-incident_to_json, details-incident_to_json, last_seen-incident_to_json,
  )
