-- ===== src/Config/Ids.antt =====
-- The ids of an accepted configuration.
use scada_guard.Prelude.{
  ℕ, ◌+◌, String, false, some, List, [], ◌∷◌, ◌++◌, ◌≡◌, ◌≢◌, refl, any, map, str_eq, Option-cases,
  inl, inr, arith, eq_iff,
}
use scada_guard.Model.{JsonLib}
use scada_guard.Quality.Real.{RealLib}
use scada_guard.Checks.{TextLib}
use scada_guard.Config.{AppConfig, check_id, each_check, entry}
use scada_guard.Config.Validate.{
  validate_config, check_errors, general_errors, source_errors, signals_errors,
}

-- Each id is a text, and none of the ids before it nor of some others.
abbrev pub AreNew : List String → List String → Type 0
AreNew ids [] = Unit {0}
AreNew ids (x ∷ xs) = (x ≢ "") × (any (str_eq x) ids ≡ false) × AreNew (x ∷ ids) xs

-- The set after some ids.
abbrev with_all : List String → List String → List String
with_all ids [] = ids
with_all ids (x ∷ xs) = with_all (x ∷ ids) xs

AreNew-append :
    (ids xs ys : List String) → AreNew ids xs → AreNew (with_all ids xs) ys → AreNew ids (xs ++ ys)
AreNew-append ids [] ys hx hy = hy
AreNew-append ids (x ∷ xs) ys (named, fresh, rest) hy =
    (named, fresh, AreNew-append (x ∷ ids) xs ys rest hy)

pub append_empty : {A : Type 0} (xs ys : List A) → xs ++ ys ≡ [] → (xs ≡ []) × (ys ≡ [])
append_empty [] ys h = (refl, h)
append_empty (x ∷ xs) ys h = ground arith

check_id-new :
    (v p : String) (ids : List String)
    → (check_id v p ids).0 ≡ []
    → (v ≢ "") × (any (str_eq v) ids ≡ false) × ((check_id v p ids).1 ≡ v ∷ ids)
unfolding check_id
check_id-new v p ids h =
    (ground (arith, eq_iff v ""), ground (arith, eq_iff v ""), ground (arith, eq_iff v ""))

module _ {J R : Type 0} (json : JsonLib J) (real : RealLib J R) (text_lib : TextLib) where
  each_check-new :
      {A : Type 0} (name : String) (id_of : A → String) (errors_of : String → A → List String)
      (i : ℕ) (items : List A) (ids : List String)
      → (each_check json real text_lib name id_of errors_of i items ids).0 ≡ []
      → AreNew ids (map id_of items)
        × ((each_check json real text_lib name id_of errors_of i items ids).1
            ≡ with_all ids (map id_of items))
  unfolding each_check
  each_check-new name id_of errors_of i [] ids h = (tt, refl)
  each_check-new name id_of errors_of i (a ∷ rest) ids h =
      let (first, others) =
        append_empty (check_id (id_of a) (entry json real text_lib name i) ids).0 _ h in
      let (named, fresh, ids') =
        check_id-new (id_of a) (entry json real text_lib name i) ids first in
      let (below, after) =
        each_check-new name id_of errors_of (i + 1) rest (id_of a ∷ ids)
          (rw⁻¹ ids' ((append_empty (errors_of (entry json real text_lib name i) a) _ others).1)) in
      ((named, fresh, below), rw ids' after)

  chain :
      (ids ids' xs ys : List String)
      → AreNew ids xs × (ids' ≡ with_all ids xs)
      → AreNew ids' ys
      → AreNew ids (xs ++ ys)
  chain ids ids' xs ys (new, same) later = AreNew-append ids xs ys new (rw⁻¹ same later)

  -- The ids of all checks, in the order in which they are validated.
  abbrev pub check_ids : AppConfig J R → List String
  check_ids c =
      map (λ x. x.id) c.process_checks
      ++ (map (λ x. x.id) c.service_checks
          ++ (map (λ x. x.id) c.tcp_checks
              ++ (map (λ x. x.id) c.disk_checks
                  ++ (map (λ x. x.id) c.file_activity_checks ++ map (λ x. x.id) c.log_checks))))

  check_errors-new :
      (c : AppConfig J R) → check_errors json real text_lib c ≡ [] → AreNew [] (check_ids c)
  unfolding check_errors
  check_errors-new c h =
      let (h1, t1) = append_empty _ _ h in
      let (h2, t2) = append_empty _ _ t1 in
      let (h3, t3) = append_empty _ _ t2 in
      let (h4, t4) = append_empty _ _ t3 in
      let (h5, h6) = append_empty _ _ t4 in
      chain [] _ (map (λ x. x.id) c.process_checks) _
        (each_check-new "process_checks" (λ x. x.id) _ 0 c.process_checks [] h1)
        (chain _ _ (map (λ x. x.id) c.service_checks) _
          (each_check-new "service_checks" (λ x. x.id) _ 0 c.service_checks _ h2)
          (chain _ _ (map (λ x. x.id) c.tcp_checks) _
            (each_check-new "tcp_checks" (λ x. x.id) _ 0 c.tcp_checks _ h3)
            (chain _ _ (map (λ x. x.id) c.disk_checks) _
              (each_check-new "disk_checks" (λ x. x.id) _ 0 c.disk_checks _ h4)
              (chain _ _ (map (λ x. x.id) c.file_activity_checks) _
                (each_check-new "file_activity_checks" (λ x. x.id) _ 0 c.file_activity_checks _ h5)
                (each_check-new "log_checks" (λ x. x.id) _ 0 c.log_checks _ h6).0))))

  pub validate_config-parts :
      (c : AppConfig J R)
      → validate_config json real text_lib c ≡ some []
      → (general_errors json real text_lib c ≡ []) × (check_errors json real text_lib c ≡ [])
  unfolding validate_config
  validate_config-parts c h = elim (Option-cases (source_errors json real text_lib c)) [
    | inl e ↦ ground (arith)
    | inr (sources, e) ↦
        let whole : general_errors json real text_lib c
              ++ (check_errors json real text_lib c
                  ++ (sources ++ signals_errors json real text_lib 0 c.signals))
            ≡ [] =
          ground arith in
        let (general, rest) = append_empty (general_errors json real text_lib c) _ whole in
        (general, (append_empty (check_errors json real text_lib c) _ rest).0)
  ]

  -- A configuration that is accepted gives each of its checks, of whatever kind, an id that is
  -- not empty and that no check before it has.
  pub validate_config-new :
      (c : AppConfig J R) → validate_config json real text_lib c ≡ some [] → AreNew [] (check_ids c)
  validate_config-new c h = check_errors-new c (validate_config-parts c h).1
