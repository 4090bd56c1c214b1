-- ===== src/Discovery/Scan.antt =====
-- A scan as a whole.
use scada_guard.Prelude.{
  ℕ, ◌≤◌, String, false, Option, some, List, [], ◌∷◌, All, All-perm, values, ◌≡◌, refl, arith,
  some_inj, Option-cases, inl, inr,
}
use scada_guard.Model.{JsonLib}
use scada_guard.Checks.{TextLib}
use scada_guard.Discovery.{
  DiscoveryHints, DiscoverySelection, DiscoveryReport, DiscoveryEnvironment, PathLib,
}
use scada_guard.Discovery.Fresh.{IsFresh, found_at-IsFresh}
use scada_guard.Discovery.Roots.{Found, RootCandidate}
use scada_guard.Discovery.Walk.{Search, Clockwork}
use scada_guard.Discovery.Walk.Ends.{walk_ends}
use scada_guard.Discovery.Walk.Limits.{IsWithin, walk-IsWithin}
use scada_guard.Discovery.Walk.Below.{IsConfined, Below, top, sub}
use scada_guard.Discovery.Walk.Confined.{walk-IsConfined, pending_roots-Below}
use scada_guard.Discovery.Select.{SortLib, found_at, first_search, search, scan, finish, conclude}
use scada_guard.Discovery.Select.Counts.{select-SameCounts}
use scada_guard.Discovery.Select.Outcome.{Outcome, wanted, select-Outcome}

module _ {J : Type 0} (paths : PathLib) (json : JsonLib J) (text_lib : TextLib)
    (hints : DiscoveryHints) where
  module _ (environment : DiscoveryEnvironment J) (selection : DiscoverySelection) where
    -- The state with which the loop starts.
    abbrev start : Found J → Search J
    start = first_search paths json text_lib hints environment selection

    start-IsConfined :
        (found : Found J)
        → IsFresh found.report
        → IsConfined paths hints environment (values found.roots) (start found)
    unfolding first_search
    start-IsConfined found h = record {
      queue =
          pending_roots-Below paths hints environment (values found.roots) (values found.roots)
            found.report.warnings (λ root m. m);
      logs = rw h.logs tt;
      archives = rw h.archives tt;
      unselected = rw h.archives tt;
    }

    depth-Below :
        {candidates : List RootCandidate} {path : String} {depth : ℕ}
        → Below paths hints environment candidates path depth
        → depth ≤ hints.limits.maximum_depth
    depth-Below (top root m e) = omega arith
    depth-Below (sub n directory depth listed entry b e m is real near) = omega arith

    Below-depth :
        (candidates : List RootCandidate) (items : List (String × ℕ))
        → All (λ item. Below paths hints environment candidates item.0 item.1) items
        → All (λ item. item.1 ≤ hints.limits.maximum_depth) items
    Below-depth candidates [] h = tt
    Below-depth candidates ((path, depth) ∷ items) (b, h) =
        (depth-Below b, Below-depth candidates items h)

    start-IsWithin : (found : Found J) → IsFresh found.report → IsWithin hints (start found)
    unfolding first_search
    start-IsWithin found h = record {
      directories = rw h.directories (omega arith);
      files = rw h.files (omega arith);
      depths = Below-depth _ (start found).pending (start-IsConfined found h).queue;
      counted = omega (arith, h.directories);
      distinct = tt;
    }

    module _ (clockwork : Clockwork) (scan_id : String) (scanned_at : ℕ) where
      abbrev search_of : ℕ → Option (Search J)
      search_of =
          search paths json text_lib hints environment selection clockwork scan_id scanned_at

      -- The log and archive files that the loop of a scan finds lie in directories that are reached
      -- from those of the scan's own roots that are not restricted, by listed directories that are
      -- not reparse points, and in at most `maximum_depth` steps.
      pub search-IsConfined :
          (fuel : ℕ) (s : Search J)
          → search paths json text_lib hints environment selection clockwork scan_id scanned_at fuel
            ≡ some s
          → IsConfined paths hints environment
              (values
                (found_at paths json text_lib hints environment selection scan_id scanned_at).roots)
              s
      unfolding search
      search-IsConfined fuel s e =
          walk-IsConfined paths hints environment _ selection json text_lib _ clockwork fuel 0 _ s e
            (start-IsConfined _
              (found_at-IsFresh paths json text_lib hints environment selection scan_id scanned_at))

      search-IsWithin : (fuel : ℕ) (s : Search J) → search_of fuel ≡ some s → IsWithin hints s
      unfolding search
      search-IsWithin fuel s e =
          walk-IsWithin paths hints selection environment json text_lib _ clockwork fuel 0 _ s e (
            start-IsWithin _
              (found_at-IsFresh paths json text_lib hints environment selection scan_id scanned_at))

      module _ (sorts : SortLib J) where
        -- Every scan ends: there is a report that the scan gives with all fuel that is enough.
        pub scan_ends :
            (rounds : ℕ) × (report : DiscoveryReport J) × ((fuel : ℕ)
              → rounds ≤ fuel
              → scan paths json text_lib hints environment selection sorts clockwork scan_id
                  scanned_at fuel
                ≡ some report)
        unfolding scan search
        scan_ends =
            let found =
              found_at paths json text_lib hints environment selection scan_id scanned_at in
            let (rounds, s, runs) =
              walk_ends paths hints selection environment json text_lib found.roots clockwork 0
                (start found) in
            (rounds, finish paths sorts selection s.report, λ fuel h. rw (runs fuel h, scan) refl)

        scan_search :
            (fuel : ℕ) (report : DiscoveryReport J)
            → scan paths json text_lib hints environment selection sorts clockwork scan_id
                scanned_at fuel
              ≡ some report
            → (s : Search J) × (search_of fuel ≡ some s)
              × (finish paths sorts selection s.report ≡ report)
        unfolding scan
        scan_search fuel report e = elim (Option-cases (search_of fuel)) [
          | inl e' ↦ absurd (ground (arith))
          | inr (s, e') ↦ (s, e', some_inj (rw (e', scan) at e))
        ]

        -- The report of a scan counts at most `maximum_directories` directories and `maximum_files`
        -- files.
        pub scan-limits :
            (fuel : ℕ) (report : DiscoveryReport J)
            → scan paths json text_lib hints environment selection sorts clockwork scan_id
                scanned_at fuel
              ≡ some report
            → (report.scanned_directories ≤ hints.limits.maximum_directories)
              × (report.scanned_files ≤ hints.limits.maximum_files)
        unfolding finish conclude
        scan-limits fuel report e =
            let (s, found, same) = scan_search fuel report e in
            let within = search-IsWithin fuel s found in
            let sorted : DiscoveryReport J = record s.report {
              archive_candidates = sorts.sort_archives s.report.archive_candidates;
              log_candidates = sorts.sort_logs s.report.log_candidates;
            } in
            let (directories, files) = select-SameCounts paths selection sorted in
            rw⁻¹ same (rw directories within.directories, rw files within.files)

        -- A scan selects the archive that an administrator confirmed, else the one of the local
        -- configuration, as the only one and without need of a confirmation. With neither it selects at
        -- most one archive, which is of high confidence and needs a confirmation.
        pub scan-Outcome :
            (fuel : ℕ) (report : DiscoveryReport J)
            → scan paths json text_lib hints environment selection sorts clockwork scan_id
                scanned_at fuel
              ≡ some report
            → Outcome paths (wanted selection) report.archive_candidates
        unfolding finish conclude
        scan-Outcome fuel report e =
            let (s, found, same) = scan_search fuel report e in
            rw⁻¹ same (
              select-Outcome paths selection _ (
                All-perm (λ c. c.selected ≡ false) (sorts.archives-perm s.report.archive_candidates)
                  (search-IsConfined fuel s found).unselected))
