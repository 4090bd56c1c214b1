-- ===== src/Discovery/Walk/Limits.antt =====
-- The limits of the search.
use scada_guard.Prelude.{
  ℕ, ◌+◌, ◌≤◌, ◌<◌, String, false, some, List, [], ◌∷◌, ◌++◌, length, All, All-append, Map, ◌≡◌,
  refl, arith, if_rule, ltb, if◌then◌else◌, if◌then◌else◌,
}
use scada_guard.Model.{JsonLib}
use scada_guard.Checks.{TextLib, ◌<>◌}
use scada_guard.Discovery.{
  DiscoveryHints, DiscoverySelection, DirectoryEntryRecord, PathLib, DiscoveryEnvironment,
}
use scada_guard.Discovery.Names.{has, path_key}
use scada_guard.Discovery.Roots.{RootCandidate}
use scada_guard.Discovery.Walk.{
  Search, Clockwork, warn, warn_once, truncate, enter_directory, note_file, note_runtime,
  count_directory, turn, walk,
}
use scada_guard.Discovery.Walk.Entries.{note_file-CountsFile, scan_entries_inv}
use scada_guard.Discovery.Walk.Rules.{
  turn_rule, read_rule, note_runtime_rule, read_of, walk_inv, state_of,
}

-- No key stands in the list twice.
abbrev pub AreDistinct : List String → Type 0
AreDistinct [] = Unit {0}
AreDistinct (key ∷ keys) = (has key keys ≡ false) × AreDistinct keys

module _ (hints : DiscoveryHints) where
  -- The limits of a scan hold, and each visited directory is counted once.
  pub record IsWithin {J : Type 0} (s : Search J) : Type 0 where
    pub directories : s.report.scanned_directories ≤ hints.limits.maximum_directories
    pub files : s.report.scanned_files ≤ hints.limits.maximum_files
    pub depths : All (λ item. item.1 ≤ hints.limits.maximum_depth) s.pending
    pub counted : length s.visited ≡ s.report.scanned_directories
    pub distinct : AreDistinct s.visited

  -- The limits read only these fields.
  alike :
      {J : Type 0} (s t : Search J)
      → t.report.scanned_directories ≡ s.report.scanned_directories
      → t.report.scanned_files ≡ s.report.scanned_files
      → t.pending ≡ s.pending
      → t.visited ≡ s.visited
      → IsWithin s
      → IsWithin t
  alike s t directories files pending visited h = record {
    directories = rw directories h.directories;
    files = rw files h.files;
    depths = rw pending h.depths;
    counted = rw (visited, directories) h.counted;
    distinct = rw visited h.distinct;
  }

module _ {J : Type 0} (paths : PathLib) (hints : DiscoveryHints) (selection : DiscoverySelection)
    (environment : DiscoveryEnvironment J) where
  enter_directory-IsWithin :
      (depth : ℕ) (entry : DirectoryEntryRecord) (s : Search J)
      → IsWithin hints s
      → IsWithin hints (enter_directory paths hints selection environment depth entry s)
  unfolding enter_directory
  enter_directory-IsWithin depth entry s h =
      let skipped = warn_once ("reparse point skipped: " <> entry.path) s in
      let below = ltb depth hints.limits.maximum_depth in
      let queued : Search J = record s { pending = s.pending ++ (entry.path, depth + 1) ∷ [] } in
      if_rule (IsWithin hints) entry.is_reparse_point skipped (if below then queued else s)
        (λ e. alike hints s skipped refl refl refl refl h)
        (λ e.
          if_rule (IsWithin hints) below queued s
            (λ e'. record {
              directories = h.directories;
              files = h.files;
              depths =
                  All-append (λ item. item.1 ≤ hints.limits.maximum_depth) s.pending _ h.depths
                    (ground (arith), tt);
              counted = h.counted;
              distinct = h.distinct;
            })
            (λ e'. h))

  note_file-IsWithin :
      (n : ℕ) (entry : DirectoryEntryRecord) (s : Search J)
      → s.report.scanned_files < hints.limits.maximum_files
      → IsWithin hints s
      → IsWithin hints (note_file paths hints selection environment n entry s)
  note_file-IsWithin n entry s below h =
      let same = note_file-CountsFile paths hints selection environment n entry s in
      record {
        directories = rw same.same_directories h.directories;
        files = omega (arith, same.one_file);
        depths = rw same.same_pending h.depths;
        counted = rw (same.same_visited, same.same_directories) h.counted;
        distinct = rw same.same_visited h.distinct;
      }

  module _ (json : JsonLib J) (text_lib : TextLib) (roots : Map RootCandidate)
      (clockwork : Clockwork) where
    read-IsWithin :
        (n : ℕ) (directory : String) (depth : ℕ) (s : Search J)
        → IsWithin hints s
        → IsWithin hints (
            state_of (
              read_of paths hints selection environment json text_lib roots clockwork n directory
                depth s
                (environment.list_directory n directory)))
    read-IsWithin n directory depth s h =
        read_rule paths hints selection environment json text_lib roots clockwork
          (λ r. IsWithin hints (state_of r)) n directory depth s
          (environment.list_directory n directory)
          (λ warning. alike hints s (warn warning s) refl refl refl refl h)
          (alike hints s (warn_once "scan duration limit reached" (truncate s)) refl refl refl refl
            h)
          (λ listed e.
            scan_entries_inv paths hints selection environment (IsWithin hints)
              (clockwork.stop_entry n) n depth 0 listed
              (λ entry t is m h'. enter_directory-IsWithin depth entry t h')
              (λ entry t is m below h'. note_file-IsWithin n entry t below h')
              (λ t h'.
                alike hints t (warn_once "file limit reached" (truncate t)) refl refl refl refl h')
              (note_runtime paths hints selection environment json text_lib roots clockwork
                directory listed s)
              (note_runtime_rule paths hints selection environment json text_lib roots clockwork
                (IsWithin hints) directory listed s h
                (λ components.
                  alike hints s (record s { report = record s.report { components = components } })
                    refl refl refl refl h)))

    -- Each round keeps the limits.
    turn-IsWithin :
        (n : ℕ) (s : Search J)
        → IsWithin hints s
        → IsWithin hints
            (state_of (turn paths hints selection environment json text_lib roots clockwork n s))
    turn-IsWithin n s h =
        turn_rule paths hints selection environment json text_lib roots clockwork
          (λ r. IsWithin hints (state_of r)) n s s.pending h
          (λ warning. alike hints s (warn warning (truncate s)) refl refl refl refl h)
          (λ directory depth rest e. record {
            directories = h.directories;
            files = h.files;
            depths = (rw e at h.depths).1;
            counted = h.counted;
            distinct = h.distinct;
          })
          (λ directory depth rest e below new.
            read-IsWithin n directory depth (count_directory (path_key paths directory) rest s)
              (record {
                directories = omega arith;
                files = h.files;
                depths = (rw e at h.depths).1;
                counted = omega (arith, h.counted);
                distinct = (new, h.distinct);
              }))

    -- The loop over the directories keeps the limits of the scan: it counts at most
    -- `maximum_directories` directories and `maximum_files` files, queues no directory deeper than
    -- `maximum_depth`, and visits each directory it counts once.
    pub walk-IsWithin :
        (fuel n : ℕ) (s end : Search J)
        → walk paths hints selection environment json text_lib roots clockwork fuel n s ≡ some end
        → IsWithin hints s
        → IsWithin hints end
    walk-IsWithin =
        walk_inv paths hints selection environment json text_lib roots clockwork (IsWithin hints)
          turn-IsWithin
