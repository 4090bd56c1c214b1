-- ===== src/Discovery/Walk/Ends.antt =====
-- The loop over the directories ends, whatever the file system answers.
use scada_guard.Prelude.{
  ℕ, zero, suc, ◌+◌, ◌≤◌, ◌<◌, String, Bool, Option, some, List, length, Map, ◌≡◌, refl, ap, ◌∙◌,
  ◌⊎◌, inl, inr, arith,
}
use scada_guard.Model.{JsonLib}
use scada_guard.Checks.{TextLib}
use scada_guard.Discovery.{
  DiscoveryHints, DiscoverySelection, DirectoryEntryRecord, PathLib, DiscoveryEnvironment,
}
use scada_guard.Discovery.Names.{path_key}
use scada_guard.Discovery.Roots.{RootCandidate, add_component}
use scada_guard.Discovery.Walk.{
  Search, Clockwork, Turn, next, done, scan_entries, enter_directory, note_runtime, count_directory,
  turn, walk,
}
use scada_guard.Discovery.Walk.Entries.{note_file-CountsFile, scan_entries_inv}
use scada_guard.Discovery.Walk.Rules.{turn_rule, read_rule}

module _ {J : Type 0} (paths : PathLib) (hints : DiscoveryHints) (selection : DiscoverySelection)
    (environment : DiscoveryEnvironment J) where
  enter_directory-directories :
      (depth : ℕ) (entry : DirectoryEntryRecord) (s : Search J)
      → (enter_directory paths hints selection environment depth entry s).report.scanned_directories
        ≡ s.report.scanned_directories
  unfolding enter_directory
  enter_directory-directories depth entry s = ground arith

  -- Only a directory that is entered adds to the queue.
  pub scan_entries-directories :
      (stop : ℕ → Bool) (n depth i : ℕ) (listed : List DirectoryEntryRecord) (s : Search J)
      → (scan_entries paths hints selection environment stop n depth i listed
          s).report.scanned_directories
        ≡ s.report.scanned_directories
  scan_entries-directories stop n depth i listed s =
      scan_entries_inv paths hints selection environment
        (λ t. t.report.scanned_directories ≡ s.report.scanned_directories) stop n depth i listed
        (λ entry t b m h. enter_directory-directories depth entry t ∙ h)
        (λ entry t b m below h.
          (note_file-CountsFile paths hints selection environment n entry t).same_directories ∙ h)
        (λ t h. h) s refl

  module _ (json : JsonLib J) (text_lib : TextLib) (roots : Map RootCandidate)
      (clockwork : Clockwork) where
    abbrev pub walk_of : ℕ → ℕ → Search J → Option (Search J)
    walk_of = walk paths hints selection environment json text_lib roots clockwork

    -- A round that goes on has left a directory out of the queue, or has counted one below the limit.
    abbrev Progress : Search J → Turn J → Type 0
    Progress s (done t) = Unit {0}
    Progress s (next t) =
        ((t.report.scanned_directories ≡ s.report.scanned_directories)
          × (length s.pending ≡ length t.pending + 1))
        ⊎ ((t.report.scanned_directories ≡ s.report.scanned_directories + 1)
            × (s.report.scanned_directories < hints.limits.maximum_directories))

    note_runtime-directories :
        (directory : String) (listed : List DirectoryEntryRecord) (s : Search J)
        → (note_runtime paths hints selection environment json text_lib roots clockwork directory
            listed s).report.scanned_directories
          ≡ s.report.scanned_directories
    unfolding note_runtime add_component
    note_runtime-directories directory listed s = ground arith

    turn-Progress :
        (n : ℕ) (s : Search J)
        → Progress s (turn paths hints selection environment json text_lib roots clockwork n s)
    turn-Progress n s =
        turn_rule paths hints selection environment json text_lib roots clockwork (Progress s) n s
          s.pending tt (λ warning. tt)
          (λ directory depth rest e. inl (refl, ap length e ∙ omega arith))
          (λ directory depth rest e below new.
            let s' = count_directory (path_key paths directory) rest s in
            read_rule paths hints selection environment json text_lib roots clockwork (Progress s) n
              directory depth s' (environment.list_directory n directory)
              (λ warning. inr (refl, below)) tt
              (λ listed e'. inr (
                scan_entries-directories (clockwork.stop_entry n) n depth 0 listed (
                      note_runtime paths hints selection environment json text_lib roots clockwork
                        directory listed s')
                    ∙ note_runtime-directories directory listed s',
                below,
              )))

    next_Progress :
        (n : ℕ) (s t : Search J)
        → turn paths hints selection environment json text_lib roots clockwork n s ≡ next t
        → Progress s (next t)
    next_Progress n s t e = rw e at (turn-Progress n s)

    -- From a state in a round the loop gives one result with all fuel that is enough.
    abbrev pub Ends : ℕ → Search J → Type 0
    Ends n s =
        (rounds : ℕ) × (end : Search J) × ((fuel : ℕ) → rounds ≤ fuel → walk_of fuel n s ≡ some end)

    -- One more round.
    turn-Ends :
        (n : ℕ) (s : Search J) (r : Turn J)
        → turn paths hints selection environment json text_lib roots clockwork n s ≡ r
        → ((t : Search J) → r ≡ next t → Ends (n + 1) t)
        → Ends n s
    unfolding walk
    turn-Ends n s (done t) e later = (1, t, last)
      where
        last : (fuel : ℕ) → 1 ≤ fuel → walk_of fuel n s ≡ some t
        last zero h = absurd (omega arith)
        last (suc fuel) h = rw (e, walk) refl
    turn-Ends n s (next t) e later =
        let (rounds, end, runs) = later t refl in (rounds + 1, end, step rounds end runs)
      where
        step :
            (rounds : ℕ) (end : Search J)
            → ((fuel : ℕ) → rounds ≤ fuel → walk_of fuel (n + 1) t ≡ some end)
            → (fuel : ℕ) → rounds + 1 ≤ fuel
            → walk_of fuel n s ≡ some end
        step rounds end runs zero h = absurd (omega arith)
        step rounds end runs (suc fuel) h = rw (e, walk) (runs fuel (omega arith))

    -- Induction on the length of the queue, for a room of directories that are left.
    by_waiting :
        (room : ℕ)
        → ((n : ℕ) (s t : Search J)
            → hints.limits.maximum_directories ≤ s.report.scanned_directories + room
            → s.report.scanned_directories < hints.limits.maximum_directories
            → t.report.scanned_directories ≡ s.report.scanned_directories + 1
            → Ends n t)
        → (waiting n : ℕ) (s : Search J)
        → hints.limits.maximum_directories ≤ s.report.scanned_directories + room
        → length s.pending ≤ waiting
        → Ends n s
    by_waiting room new zero n s h k = turn-Ends n s _ refl (λ t e. elim (next_Progress n s t e) [
      | inl shorter ↦ absurd (omega (arith, shorter.1))
      | inr (same, below) ↦ new (n + 1) s t h below same
    ])
    by_waiting room new (suc waiting) n s h k = turn-Ends n s _ refl (λ t e.
        elim (next_Progress n s t e) [
          | inl (same, shorter) ↦
              by_waiting room new waiting (n + 1) t (omega (arith, same)) (omega (arith, shorter))
          | inr (same, below) ↦ new (n + 1) s t h below same
        ])

    by_room :
        (room n : ℕ) (s : Search J)
        → hints.limits.maximum_directories ≤ s.report.scanned_directories + room
        → Ends n s
    by_room zero n s h =
        by_waiting zero (λ m t u h' below e. absurd (omega arith)) (length s.pending) n s h
          (omega arith)
    by_room (suc room) n s h =
        by_waiting (suc room) (λ m t u h' below e. by_room room m u (omega arith))
          (length s.pending) n s h (omega arith)

    -- The loop over the directories ends in every state: with enough fuel it gives a result, and more
    -- fuel gives the same.
    pub walk_ends :
        (n : ℕ) (s : Search J)
        → (rounds : ℕ) × (end : Search J) × ((fuel : ℕ)
            → rounds ≤ fuel
            → walk_of fuel n s ≡ some end)
    walk_ends n s = by_room hints.limits.maximum_directories n s (omega arith)
