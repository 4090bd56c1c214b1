-- ===== src/Discovery/Walk/Confined.antt =====
-- The loop over the directories stays below the directories from which it starts.
use mathlib.Core.List.{Memᴰ}
use scada_guard.Prelude.{ℕ, String, some, List, [], ◌∷◌, ◌++◌, All, Map, ◌≡◌, refl, if_rule}
use scada_guard.Model.{JsonLib}
use scada_guard.Checks.{TextLib, ◌<>◌}
use scada_guard.Discovery.{DiscoveryHints, DiscoverySelection, PathLib, DiscoveryEnvironment}
use scada_guard.Discovery.Names.{path_key, restricted_root}
use scada_guard.Discovery.Roots.{RootCandidate, pending_roots}
use scada_guard.Discovery.Walk.{
  Search, Clockwork, warn, warn_once, truncate, note_runtime, count_directory, turn, walk,
}
use scada_guard.Discovery.Walk.Entries.{scan_entries_inv}
use scada_guard.Discovery.Walk.Rules.{
  turn_rule, read_rule, note_runtime_rule, read_of, walk_inv, state_of,
}
use scada_guard.Discovery.Walk.Below.{
  Below, top, sub, file, IsConfined, alike, note_file-IsConfined, enter_directory-IsConfined,
}

module _ {J : Type 0} (paths : PathLib) (hints : DiscoveryHints)
    (environment : DiscoveryEnvironment J) (candidates : List RootCandidate) where
  abbrev Confined : Search J → Type 0
  Confined = IsConfined paths hints environment candidates

  pub pending_roots-Below :
      (some_of : List RootCandidate) (warnings : List String)
      → ((root : RootCandidate) → Memᴰ root some_of → Memᴰ root candidates)
      → All
          (λ item. Below paths hints environment candidates item.0 item.1)
          (pending_roots paths some_of warnings).0
  unfolding pending_roots
  pending_roots-Below [] warnings is = tt
  pending_roots-Below (root ∷ others) warnings is =
      let refused =
        pending_roots paths others
          (warnings ++ ("unsafe discovery root was rejected: " <> root.path) ∷ []) in
      let taken = pending_roots paths others warnings in
      let is_others : (r : RootCandidate) → Memᴰ r others → Memᴰ r candidates =
        λ r m. is r (Memᴰ.tail m) in
      if_rule
        (λ found. All (λ item. Below paths hints environment candidates item.0 item.1) found.0)
        (restricted_root paths root.path) refused ((root.path, 0) ∷ taken.0, taken.1)
        (λ e. pending_roots-Below others _ is_others)
        (λ e.
          (top root (is root (Memᴰ.head refl)) e, pending_roots-Below others warnings is_others))

  module _ (selection : DiscoverySelection) (json : JsonLib J) (text_lib : TextLib)
      (roots : Map RootCandidate) (clockwork : Clockwork) where
    read-IsConfined :
        (n : ℕ) (directory : String) (depth : ℕ) (s : Search J)
        → Below paths hints environment candidates directory depth
        → Confined s
        → Confined (
            state_of (
              read_of paths hints selection environment json text_lib roots clockwork n directory
                depth s
                (environment.list_directory n directory)))
    read-IsConfined n directory depth s b h =
        read_rule paths hints selection environment json text_lib roots clockwork
          (λ r. Confined (state_of r)) n directory depth s (environment.list_directory n directory)
          (λ warning. alike paths hints environment candidates s (warn warning s) refl refl refl h)
          (alike paths hints environment candidates s
            (warn_once "scan duration limit reached" (truncate s)) refl refl refl h)
          (λ listed e.
            scan_entries_inv paths hints selection environment Confined (clockwork.stop_entry n) n
              depth 0 listed
              (λ entry t is m h'.
                enter_directory-IsConfined paths hints environment candidates selection depth entry
                  t (λ real near. sub n directory depth listed entry b e m is real near) h')
              (λ entry t is m below h'.
                note_file-IsConfined paths hints environment candidates selection n entry t
                  (file n directory depth listed entry b e m is) h')
              (λ t h'.
                alike paths hints environment candidates t
                  (warn_once "file limit reached" (truncate t)) refl refl refl h')
              (note_runtime paths hints selection environment json text_lib roots clockwork
                directory listed s)
              (note_runtime_rule paths hints selection environment json text_lib roots clockwork
                Confined directory listed s h
                (λ components.
                  alike paths hints environment candidates s
                    (record s { report = record s.report { components = components } }) refl refl
                    refl h)))

    turn-IsConfined :
        (n : ℕ) (s : Search J)
        → Confined s
        → Confined
            (state_of (turn paths hints selection environment json text_lib roots clockwork n s))
    turn-IsConfined n s h =
        turn_rule paths hints selection environment json text_lib roots clockwork
          (λ r. Confined (state_of r)) n s s.pending h
          (λ warning.
            alike paths hints environment candidates s (warn warning (truncate s)) refl refl refl h)
          (λ directory depth rest e. record {
            queue = (rw e at h.queue).1;
            logs = h.logs;
            archives = h.archives;
            unselected = h.unselected;
          })
          (λ directory depth rest e below new.
            let (first, others) = rw e at h.queue in
            read-IsConfined n directory depth (count_directory (path_key paths directory) rest s)
              first
              (record {
                queue = others;
                logs = h.logs;
                archives = h.archives;
                unselected = h.unselected;
              }))

    -- The loop over the directories is confined: each directory that it queues is reached from one
    -- of the roots that is not restricted through listed directories that are not reparse points, and each
    -- log and archive candidate is a file that such a directory lists.
    pub walk-IsConfined :
        (fuel n : ℕ) (s end : Search J)
        → walk paths hints selection environment json text_lib roots clockwork fuel n s ≡ some end
        → Confined s
        → Confined end
    walk-IsConfined =
        walk_inv paths hints selection environment json text_lib roots clockwork Confined
          turn-IsConfined
