-- ===== src/Discovery/Walk/Below.antt =====
-- The search stays below the directories from which it starts.
use mathlib.Core.List.{Memᴰ}
use scada_guard.Prelude.{
  ℕ, ◌+◌, ◌<◌, String, true, false, List, [], ◌∷◌, ◌++◌, All, All-append, ◌≡◌, refl, arith, if_rule,
  ltb, if◌then◌else◌,
}
use scada_guard.Checks.{◌<>◌}
use scada_guard.Discovery.{
  DiscoveryHints, DiscoverySelection, DirectoryEntryRecord, PathLib, DiscoveryEnvironment, entries,
}
use scada_guard.Discovery.Names.{has, path_key, looks_like_log, restricted_root}
use scada_guard.Discovery.Roots.{RootCandidate}
use scada_guard.Discovery.Walk.{
  Search, warn_once, add_log, add_archive, count_file, mark_file, is_sqlite, log_source,
  archive_candidate, enter_directory, note_file, note_log, note_archive,
}

module _ {J : Type 0} (paths : PathLib) (hints : DiscoveryHints)
    (environment : DiscoveryEnvironment J) (candidates : List RootCandidate) where
  open environment use {list_directory}

  -- A directory at a depth below one of the roots, which is not restricted, through directories that
  -- are not reparse points.
  pub data Below : String → ℕ → Type 0 where
    top :
        (root : RootCandidate)
        → Memᴰ root candidates
        → restricted_root paths root.path ≡ false
        → Below root.path 0
    sub :
        (n : ℕ) (directory : String) (depth : ℕ) (listed : List DirectoryEntryRecord)
        (entry : DirectoryEntryRecord)
        → Below directory depth
        → list_directory n directory ≡ entries listed
        → Memᴰ entry listed
        → entry.is_directory ≡ true
        → entry.is_reparse_point ≡ false
        → depth < hints.limits.maximum_depth
        → Below entry.path (depth + 1)

  -- A file that is listed in such a directory.
  pub data FileBelow : String → Type 0 where
    file :
        (n : ℕ) (directory : String) (depth : ℕ) (listed : List DirectoryEntryRecord)
        (entry : DirectoryEntryRecord)
        → Below directory depth
        → list_directory n directory ≡ entries listed
        → Memᴰ entry listed
        → entry.is_directory ≡ false
        → FileBelow entry.path

  -- No candidate is selected yet.
  pub record IsConfined (s : Search J) : Type 0 where
    pub queue : All (λ item. Below item.0 item.1) s.pending
    pub logs : All (λ log. FileBelow log.path) s.report.log_candidates
    pub archives : All (λ candidate. FileBelow candidate.path) s.report.archive_candidates
    pub unselected : All (λ candidate. candidate.selected ≡ false) s.report.archive_candidates

  -- The confinement reads only these fields.
  pub alike :
      (s t : Search J)
      → t.pending ≡ s.pending
      → t.report.log_candidates ≡ s.report.log_candidates
      → t.report.archive_candidates ≡ s.report.archive_candidates
      → IsConfined s
      → IsConfined t
  alike s t pending logs archives h = record {
    queue = rw pending h.queue;
    logs = rw logs h.logs;
    archives = rw archives h.archives;
    unselected = rw archives h.unselected;
  }

  module _ (selection : DiscoverySelection) where
    note_archive-IsConfined :
        (n : ℕ) (entry : DirectoryEntryRecord) (s : Search J)
        → FileBelow entry.path
        → IsConfined s
        → IsConfined (note_archive paths hints selection environment n entry s)
    unfolding note_archive archive_candidate
    note_archive-IsConfined n entry s f h =
        if_rule IsConfined (is_sqlite (environment.read_prefix n entry.path 16))
          (add_archive
            (archive_candidate paths hints selection environment s.report.scanned_at entry
              (environment.inspect_sqlite n entry.path))
            s)
          s
          (λ e. record {
            queue = h.queue;
            logs = h.logs;
            archives =
                All-append (λ candidate. FileBelow candidate.path) s.report.archive_candidates _
                  h.archives (f, tt);
            unselected =
                All-append (λ candidate. candidate.selected ≡ false) s.report.archive_candidates _
                  h.unselected (refl, tt);
          })
          (λ e. h)

    note_log-IsConfined :
        (n : ℕ) (entry : DirectoryEntryRecord) (s : Search J)
        → FileBelow entry.path
        → IsConfined s
        → IsConfined (note_log paths hints selection environment n entry s)
    unfolding note_log log_source
    note_log-IsConfined n entry s f h =
        if_rule IsConfined (looks_like_log paths entry.path hints)
          (add_log (log_source paths hints selection environment n s.report.scanned_at entry) s) s
          (λ e. record {
            queue = h.queue;
            logs = All-append (λ log. FileBelow log.path) s.report.log_candidates _ h.logs (f, tt);
            archives = h.archives;
            unselected = h.unselected;
          })
          (λ e. h)

    pub note_file-IsConfined :
        (n : ℕ) (entry : DirectoryEntryRecord) (s : Search J)
        → FileBelow entry.path
        → IsConfined s
        → IsConfined (note_file paths hints selection environment n entry s)
    unfolding note_file
    note_file-IsConfined n entry s f h =
        let key = path_key paths entry.path in
        let marked = mark_file key (count_file s) in
        if_rule IsConfined (has key s.discovered_files) (count_file s)
          (note_archive paths hints selection environment n entry
            (note_log paths hints selection environment n entry marked))
          (λ e. alike s (count_file s) refl refl refl h)
          (λ e.
            note_archive-IsConfined n entry
              (note_log paths hints selection environment n entry marked) f
              (note_log-IsConfined n entry marked f (alike s marked refl refl refl h)))

    pub enter_directory-IsConfined :
        (depth : ℕ) (entry : DirectoryEntryRecord) (s : Search J)
        → (entry.is_reparse_point ≡ false
            → depth < hints.limits.maximum_depth
            → Below entry.path (depth + 1))
        → IsConfined s
        → IsConfined (enter_directory paths hints selection environment depth entry s)
    unfolding enter_directory
    enter_directory-IsConfined depth entry s f h =
        let skipped = warn_once ("reparse point skipped: " <> entry.path) s in
        let below = ltb depth hints.limits.maximum_depth in
        let queued : Search J = record s { pending = s.pending ++ (entry.path, depth + 1) ∷ [] } in
        if_rule IsConfined entry.is_reparse_point skipped (if below then queued else s)
          (λ e. alike s skipped refl refl refl h)
          (λ e.
            if_rule IsConfined below queued s
              (λ e'. record {
                queue =
                    All-append (λ item. Below item.0 item.1) s.pending _ h.queue
                      (f e (ground (arith)), tt);
                logs = h.logs;
                archives = h.archives;
                unselected = h.unselected;
              })
              (λ e'. h))
