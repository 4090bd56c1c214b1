-- ===== src/Quality/Memory.antt =====
-- What the analyzer remembers of each signal.
use scada_guard.Prelude.{
  ℕ, ◌≤◌, max, String, Bool, true, false, ◌&&◌, none, some, List, [], ◌∷◌, ◌≡◌, refl, ◌∙◌, ap, Map,
  insert, lookup-insert, str_eq, eq_iff, arith, if◌then◌else◌, Option-cases, map, inl, inr,
}
use scada_guard.Model.{SignalSample, JsonLib}
use scada_guard.Quality.{
  SignalRule, History, find_rule, history_of, remember, analyze_sample, analyze_samples,
  stable_from, is_frozen,
}
use scada_guard.Quality.Real.{RealLib}

abbrev pub is_watched : {R : Type 0} → List (SignalRule R) → String → Bool
is_watched rules id = elim (find_rule rules id) [ none ↦ false | some r ↦ r.enabled ]

-- The newest of the times of a signal's samples and a time before them.
pub newest : {R : Type 0} → List (SignalRule R) → String → ℕ → List (SignalSample R) → ℕ
newest rules id t [] = t
newest rules id t (s ∷ ss) =
    newest rules id
      (if str_eq s.signal_id id && is_watched rules id then max t s.source_timestamp else t) ss

module _ {J R : Type 0} (json : JsonLib J) (real : RealLib J R) where
  abbrev pub last_time : String → Map (History R) → ℕ
  last_time id m = (history_of json real id m).previous.source_timestamp

  remember-time :
      (r : SignalRule R) (s : SignalSample R) (h : History R)
      → (remember json real r s h).previous.source_timestamp
        ≡ max h.previous.source_timestamp s.source_timestamp
  unfolding remember
  remember-time r s h = ground arith

  history_of-insert :
      (k id : String) (h : History R) (m : Map (History R))
      → history_of json real id (insert k h m)
        ≡ (if str_eq k id then h else history_of json real id m)
  history_of-insert k id h m = ground (arith, lookup-insert k id h m)

  analyze_sample-time :
      (rules : List (SignalRule R)) (s : SignalSample R) (now clock : ℕ) (m : Map (History R))
      (id : String)
      → last_time id (analyze_sample json real rules s now clock m).0 ≡ (
          if str_eq s.signal_id id && is_watched rules id
          then max (last_time id m) s.source_timestamp
          else last_time id m)
  unfolding analyze_sample
  analyze_sample-time rules s now clock m id = elim (Option-cases (find_rule rules s.signal_id)) [
    | inl e ↦ ground (arith, eq_iff s.signal_id id)
    | inr (r, e) ↦
        rw (e, analyze_sample)
          (ground (
            arith,
            eq_iff s.signal_id id,
            lookup-insert s.signal_id id
                (remember json real r s (history_of json real s.signal_id m)) m,
            remember-time r s (history_of json real s.signal_id m),
          ))
  ]

  -- After an analysis the time of the sample that is remembered of a signal is the newest of all its
  -- samples, in whatever order they came, and of the one remembered before; a signal without an enabled rule keeps
  -- what it had.
  pub analyze_samples-newest :
      (rules : List (SignalRule R)) (ss : List (SignalSample R)) (now clock : ℕ)
      (m : Map (History R)) (id : String)
      → last_time id (analyze_samples json real ss rules now clock m).0
        ≡ newest rules id (last_time id m) ss
  unfolding analyze_samples newest
  analyze_samples-newest rules [] now clock m id = refl
  analyze_samples-newest rules (s ∷ ss) now clock m id =
      analyze_samples-newest rules ss now clock (analyze_sample json real rules s now clock m).0 id
      ∙ ap (λ t. newest rules id t ss) (analyze_sample-time rules s now clock m id)

  -- Each sample is within the rule's epsilon of the one before it, and none is older.
  pub data IsCalm (r : SignalRule R) : SignalSample R → List (SignalSample R) → Type 0 where
    nil : {p : SignalSample R} → IsCalm r p []
    cons :
        {p s : SignalSample R} {ss : List (SignalSample R)}
        → real.lt r.frozen_epsilon (real.abs (real.sub s.value p.value)) ≡ false
        → p.source_timestamp ≤ s.source_timestamp
        → IsCalm r s ss
        → IsCalm r p (s ∷ ss)

  -- Which samples of a run are reported frozen.
  pub frozen_flags : SignalRule R → List (SignalSample R) → History R → List Bool
  frozen_flags r [] h = []
  frozen_flags r (s ∷ ss) h =
      is_frozen json real r s (stable_from json real r s h)
      ∷ frozen_flags r ss (remember json real r s h)

  remember-calm :
      (r : SignalRule R) (s : SignalSample R) (h : History R)
      → h.initialized ≡ true
      → real.lt r.frozen_epsilon (real.abs (real.sub s.value h.previous.value)) ≡ false
      → h.previous.source_timestamp ≤ s.source_timestamp
      → remember json real r s h ≡ record h { previous = s }
  unfolding remember
  remember-calm r s h on calm later = ground arith

  stable_from-calm :
      (r : SignalRule R) (s : SignalSample R) (h : History R)
      → real.lt r.frozen_epsilon (real.abs (real.sub s.value h.previous.value)) ≡ false
      → stable_from json real r s h ≡ h.stable_since
  unfolding stable_from
  stable_from-calm r s h calm = rw calm

  -- In a run of samples after a remembered one that each are within epsilon of the one before and
  -- not older, a sample is reported frozen exactly if the run has lasted for the configured time
  -- since its start, however far the value has moved in all.
  pub frozen_flags-calm :
      (r : SignalRule R) (p : SignalSample R) (ss : List (SignalSample R)) (h : History R)
      → h.initialized ≡ true
      → h.previous ≡ p
      → IsCalm r p ss
      → frozen_flags r ss h ≡ map (λ s. is_frozen json real r s h.stable_since) ss
  unfolding frozen_flags
  frozen_flags-calm r p [] h on e nil = refl
  frozen_flags-calm r p (s ∷ ss) h on e (cons calm later rest) = rw (
    stable_from-calm r s h (rw e calm),
    remember-calm r s h on (rw e calm) (rw e later),
    frozen_flags-calm r s ss (record h { previous = s }) on refl rest,
  )
