-- ===== src/Discovery/Select/Counts.antt =====
-- The selection leaves the counts of a report as they are.
use scada_guard.Prelude.{
  String, Bool, Option, none, some, length, keep, find_if, ◌≡◌, refl, if_rule, ltb, ◌==◌,
  Option-cases, inl, inr,
}
use scada_guard.Discovery.{DiscoverySelection, DiscoveryReport, DiscoveryStatus, PathLib}
use scada_guard.Discovery.Names.{same_path}
use scada_guard.Discovery.Select.{
  is_high, is_error, select_archive, set_status, select_alone, select_from, select,
}

module _ {J : Type 0} (paths : PathLib) where
  abbrev pub SameCounts : DiscoveryReport J → DiscoveryReport J → Type 0
  SameCounts r r' =
      (r'.scanned_directories ≡ r.scanned_directories) × (r'.scanned_files ≡ r.scanned_files)

  select_archive-SameCounts :
      (path : String) (named : Bool) (r : DiscoveryReport J)
      → SameCounts r (select_archive paths path named r)
  unfolding select_archive
  select_archive-SameCounts path named r =
      elim (Option-cases (find_if (λ item. same_path paths item.path path) r.archive_candidates)) [
        | inl e ↦ (rw (e, select_archive) refl, rw (e, select_archive) refl)
        | inr (found, e) ↦ (rw (e, select_archive) refl, rw (e, select_archive) refl)
      ]

  set_status-SameCounts :
      (status : DiscoveryStatus) (r s : DiscoveryReport J)
      → SameCounts r s
      → SameCounts r (set_status paths status s)
  unfolding set_status
  set_status-SameCounts status r s h =
      if_rule (SameCounts r) (is_error s.status) s (record s { status = status }) (λ e. h) (λ e. h)

  select_alone-SameCounts : (r : DiscoveryReport J) → SameCounts r (select_alone paths r)
  unfolding select_alone
  select_alone-SameCounts r =
      let count = length (keep (λ item. is_high item.confidence) r.archive_candidates) in
      if_rule (SameCounts r) (count == 1) _ _ (λ e. (refl, refl))
        (λ e. if_rule (SameCounts r) (ltb 1 count) _ r (λ e'. (refl, refl)) (λ e'. (refl, refl)))

  select_from-SameCounts :
      (confirmed_archive configured_archive : Option String) (r : DiscoveryReport J)
      → SameCounts r (select_from paths confirmed_archive configured_archive r)
  unfolding select_from
  select_from-SameCounts (some path) other r =
      set_status-SameCounts DiscoveryStatus.confirmed r _ (select_archive-SameCounts path _ r)
  select_from-SameCounts none (some path) r =
      set_status-SameCounts DiscoveryStatus.configured r _ (select_archive-SameCounts path _ r)
  select_from-SameCounts none none r = select_alone-SameCounts r

  pub select-SameCounts :
      (selection : DiscoverySelection) (r : DiscoveryReport J)
      → SameCounts r (select paths selection r)
  unfolding select
  select-SameCounts selection r =
      select_from-SameCounts selection.confirmed_archive selection.configured_archive r
