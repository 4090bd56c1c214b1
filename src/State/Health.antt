-- ===== src/State/Health.antt =====
-- The status that the local API answers for the whole agent.
use scada_guard.Prelude.{
  ℕ, not, ◌&&◌, List, [], ◌∷◌, ◌≡◌, refl, ◌∙◌, ap, all, ltb, ◌==◌, if◌then◌else◌, arith, max,
  length,
}
use scada_guard.Model.{HealthStatus, CheckResult}
use scada_guard.State.{AgentState, status_rank, worst_status, health_status, is_ok}

-- The highest rank of the checks and another.
pub highest : {J : Type 0} → ℕ → List (CheckResult J) → ℕ
highest n [] = n
highest n (c ∷ cs) = highest (max n (status_rank c.status)) cs

worse_rank :
    (a b : HealthStatus)
    → status_rank (if ltb (status_rank a) (status_rank b) then b else a)
      ≡ max (status_rank a) (status_rank b)
unfolding status_rank
worse_rank a b = ground arith

module _ {J : Type 0} where
  worst_status-highest :
      (status : HealthStatus) (cs : List (CheckResult J))
      → status_rank (worst_status status cs) ≡ highest (status_rank status) cs
  unfolding worst_status highest status_rank
  worst_status-highest status [] = refl
  worst_status-highest status (c ∷ cs) =
      worst_status-highest
        (if ltb (status_rank status) (status_rank c.status) then c.status else status) cs
      ∙ ap (λ n. highest n cs) (worse_rank status c.status)

  worst_status-ok :
      (status : HealthStatus) (cs : List (CheckResult J))
      → is_ok (worst_status status cs) ≡ (is_ok status && all (λ c. is_ok c.status) cs)
  unfolding worst_status status_rank
  worst_status-ok status [] = ground arith
  worst_status-ok status (c ∷ cs) =
      ground (arith, worst_status-ok status cs, worst_status-ok c.status cs)

module _ {J R : Type 0} where
  -- The agent is reported healthy exactly if there is a check, every check is, and no subsystem lacks
  -- its configuration.
  pub health_status-ok :
      (s : AgentState J R)
      → is_ok (health_status s) ≡ (
          not (length s.checks == 0)
          && (all (λ c. is_ok c.status) s.checks
              && length s.configuration.unconfigured_subsystems == 0))
  unfolding health_status
  health_status-ok s = ground (
    arith,
    worst_status-ok HealthStatus.ok s.checks,
    worst_status-ok HealthStatus.unknown s.checks,
  )
