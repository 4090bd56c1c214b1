-- ===== src/Quality/Real.antt =====
-- `double` as the data quality analysis and the checks use it.
use scada_guard.Prelude.{ℤ, Bool}

-- `exceeds d x` is `d > duration<double>(x)` for a tick count `d` and seconds `x`; `seconds_of d` is
-- `duration<double>(d).count()`; `of_real` is the JSON document of a number. No law is assumed.
pub record RealLib (J R : Type 0) : Type 0 where
  pub zero_real : R
  pub sub : R → R → R
  pub mul : R → R → R
  pub div : R → R → R
  pub max_real : R → R → R
  pub abs : R → R
  pub lt : R → R → Bool
  pub le : R → R → Bool
  pub eq : R → R → Bool
  pub of_int : ℤ → R
  pub seconds_of : ℤ → R
  pub exceeds : ℤ → R → Bool
  pub of_real : R → J
