-- ===== src/Central/Results.antt =====
-- Chains of results, read backwards.
use scada_guard.Prelude.{String, Option, none, some, List, [], ◌∷◌, ◌≡◌, refl, ap, arith}
use scada_guard.Central.{Result, thrown, returned, ◌>>=◌, from_json}
use scada_guard.Central.Apply.{no_errors}

-- A predicate on the result, if there is one.
abbrev pub Gives {ℓ κ} : {A : Type ℓ} → (A → Type κ) → Result A → Type κ
Gives P (thrown reason) = Unit
Gives P (returned a) = P a

pub bind-Gives {ℓ κ ι} :
    {A : Type ℓ} {B : Type κ} (P : B → Type ι) (r : Result A) (f : A → Result B)
    → ((a : A) → r ≡ returned a → Gives P (f a))
    → Gives P (r >>= f)
bind-Gives P (thrown reason) f h = tt
bind-Gives P (returned a) f h = h a refl

returned_inj {ℓ} : {A : Type ℓ} {a b : A} → returned a ≡ returned b → a ≡ b
returned_inj {a = a} e = ap (from a) e
  where
    from : {A : Type ℓ} → A → Result A → A
    from d (thrown reason) = d
    from d (returned x) = x

pub returned-Gives {ℓ κ} :
    {A : Type ℓ} (P : A → Type κ) (r : Result A) (a : A) → Gives P r → r ≡ returned a → P a
returned-Gives P (thrown reason) a h e = absurd (ground (arith))
returned-Gives P (returned x) a h e = rw (returned_inj e) at h

pub from_json-returned :
    {A : Type 0} (error : String) (answer : Option A) (a : A)
    → from_json error answer ≡ returned a
    → answer ≡ some a
from_json-returned error none a e = absurd (ground (arith))
from_json-returned error (some x) a e = ground arith

pub no_errors-returned :
    (reason : String → String) (errors : List String) (a : Unit {0})
    → no_errors reason errors ≡ returned a
    → errors ≡ []
no_errors-returned reason [] a e = refl
no_errors-returned reason (error ∷ errors) a e = absurd (ground (arith))
