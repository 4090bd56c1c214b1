-- ===== src/Discovery/Select/Outcome.antt =====
-- Which archive a scan selects.
use scada_guard.Prelude.{
  String, Bool, true, false, Option, none, some, List, [], ◌∷◌, ◌++◌, length, keep, All, ◌≡◌, refl,
  ap, arith, if_rule, if◌then◌else◌, ltb, ◌==◌, inl, inr, eq_refl, ◌⊎◌,
}
use scada_guard.Discovery.{
  DiscoverySelection, DiscoveryReport, ArchiveCandidate, PathLib, DiscoveryStatus,
}
use scada_guard.Discovery.Names.{same_path, path_key}
use scada_guard.Discovery.Select.First.{keep-none, keep-change_first}
use scada_guard.Discovery.Select.{
  change_first, is_high, missing_candidate, choose, select_archive, set_status, suggest,
  select_alone, select_from, select,
}

-- The archive that an administrator names, else that of the local configuration.
abbrev pub first_of : Option String → Option String → Option String
first_of (some path) other = some path
first_of none other = other

abbrev pub wanted : DiscoverySelection → Option String
wanted selection = first_of selection.confirmed_archive selection.configured_archive

module _ {J : Type 0} where
  abbrev pub selected_of : List (ArchiveCandidate J) → List (ArchiveCandidate J)
  selected_of cs = keep (λ c. c.selected) cs

  abbrev pub AreUnselected : List (ArchiveCandidate J) → Type 0
  AreUnselected cs = All (λ c. c.selected ≡ false) cs

  module _ (paths : PathLib) where
    -- What a scan may select: the wanted archive, which then needs no confirmation, or at most one of
    -- high confidence, which needs it.
    abbrev pub Outcome : Option String → List (ArchiveCandidate J) → Type 0
    Outcome (some path) cs =
        (c : ArchiveCandidate J) × (selected_of cs ≡ c ∷ [])
        × (same_path paths c.path path ≡ true)
        × (c.needs_confirmation ≡ false)
    Outcome none cs =
        (selected_of cs ≡ [])
        ⊎ ((c : ArchiveCandidate J) × (selected_of cs ≡ c ∷ [])
            × (is_high c.confidence ≡ true)
            × (c.needs_confirmation ≡ true))

    select_archive-Outcome :
        (path : String) (confirmed : Bool) (report : DiscoveryReport J)
        → AreUnselected report.archive_candidates
        → Outcome (some path) (select_archive paths path confirmed report).archive_candidates
    unfolding select_archive missing_candidate choose same_path
    select_archive-Outcome path confirmed report h =
        let cs = report.archive_candidates in
        let missing = missing_candidate paths path confirmed in
        elim (keep-change_first (λ c. c.selected) (λ item. same_path paths item.path path)
          (choose paths confirmed) cs (λ c. refl) h) [
            | inl (e, empty) ↦ (
              missing,
              rw (e, select_archive)
                  (ap (λ kept. missing ∷ kept) (keep-none (λ c. c.selected) cs h)),
              eq_refl (path_key paths path),
              refl,
            )
            | inr (found, e, passes, one) ↦
                (choose paths confirmed found, rw (e, select_archive) one, passes, refl)
          ]

    set_status-candidates :
        (status : DiscoveryStatus) (report : DiscoveryReport J)
        → (set_status paths status report).archive_candidates ≡ report.archive_candidates
    unfolding set_status
    set_status-candidates status report = ground arith

    select_alone-Outcome :
        (report : DiscoveryReport J)
        → AreUnselected report.archive_candidates
        → Outcome none (select_alone paths report).archive_candidates
    unfolding select_alone suggest
    select_alone-Outcome report h =
        let cs = report.archive_candidates in
        let high : ArchiveCandidate J → Bool = λ item. is_high item.confidence in
        let count = length (keep high cs) in
        let nothing : Outcome none cs = inl (keep-none (λ c. c.selected) cs h) in
        if_rule (λ r. Outcome none r.archive_candidates) (count == 1)
          (record report { archive_candidates = change_first high (suggest paths) cs })
          (if ltb 1 count
            then record report {
              status = DiscoveryStatus.ambiguous;
              warnings =
                  report.warnings
                  ++ "multiple high-confidence archive candidates require confirmation" ∷ [];
            }
            else report)
          (λ e. elim (keep-change_first (λ c. c.selected) high (suggest paths) cs (λ c. refl) h) [
            | inl (none_high, empty) ↦ inl empty
            | inr (found, is, passes, one) ↦ inr (suggest paths found, one, passes, refl)
          ])
          (λ e.
            if_rule (λ r. Outcome none r.archive_candidates) (ltb 1 count) _ report (λ e'. nothing)
              (λ e'. nothing))

    select_from-Outcome :
        (confirmed_archive configured_archive : Option String) (report : DiscoveryReport J)
        → AreUnselected report.archive_candidates
        → Outcome
            (first_of confirmed_archive configured_archive)
            (select_from paths confirmed_archive configured_archive report).archive_candidates
    unfolding select_from
    select_from-Outcome (some path) other report h =
        rw (set_status-candidates DiscoveryStatus.confirmed (select_archive paths path true report))
          (select_archive-Outcome path true report h)
    select_from-Outcome none (some path) report h =
        rw
          (set_status-candidates DiscoveryStatus.configured
            (select_archive paths path false report))
          (select_archive-Outcome path false report h)
    select_from-Outcome none none report h = select_alone-Outcome report h

    -- From candidates of which none is selected a scan selects the archive that an administrator
    -- confirmed, else the one of the local configuration, as the only one and without need of a
    -- confirmation. With neither it selects at most one archive, which is of high confidence and
    -- needs a confirmation.
    pub select-Outcome :
        (selection : DiscoverySelection) (report : DiscoveryReport J)
        → AreUnselected report.archive_candidates
        → Outcome (wanted selection) (select paths selection report).archive_candidates
    unfolding select
    select-Outcome selection report h =
        select_from-Outcome selection.confirmed_archive selection.configured_archive report h
