-- ===== src/Discovery/Walk/Rules.antt =====
-- What holds after a round, from what holds on each of its paths.
use scada_guard.Prelude.{
  ℕ, zero, suc, ◌+◌, ◌<◌, String, false, Option, some, List, [], ◌∷◌, Map, ◌≡◌, refl, arith, leb,
  if_rule, if◌then◌else◌, none, lookup, length, ◌==◌, some_inj,
}
use scada_guard.Model.{JsonLib}
use scada_guard.Checks.{TextLib}
use scada_guard.Discovery.{
  DiscoveryHints, DiscoverySelection, DirectoryEntryRecord, PathLib, DiscoveredComponent, Listing,
  unreadable, entries, DiscoveryEnvironment,
}
use scada_guard.Discovery.Names.{has, path_key}
use scada_guard.Discovery.Roots.{RootCandidate, add_component}
use scada_guard.Discovery.Walk.{
  Search, Clockwork, Turn, next, done, warn, warn_once, truncate, skip, count_directory,
  scan_entries, note_runtime, note_root, add_runtime, read_listing, take_directory, turn_on, turn,
  walk,
}

-- The state after a round.
abbrev pub state_of : {J : Type 0} → Turn J → Search J
state_of (next s) = s
state_of (done s) = s

module _ {J : Type 0} (paths : PathLib) (hints : DiscoveryHints) (selection : DiscoverySelection)
    (environment : DiscoveryEnvironment J) (json : JsonLib J) (text_lib : TextLib)
    (roots : Map RootCandidate) (clockwork : Clockwork) where
  abbrev pub read_of : ℕ → String → ℕ → Search J → Listing → Turn J
  read_of = read_listing paths hints selection environment json text_lib roots clockwork

  -- The state after the entries of a directory.
  abbrev pub entries_of : ℕ → String → ℕ → List DirectoryEntryRecord → Search J → Search J
  entries_of n directory depth listed s =
      scan_entries paths hints selection environment (clockwork.stop_entry n) n depth 0 listed (
        note_runtime paths hints selection environment json text_lib roots clockwork directory
          listed s)

  pub read_rule :
      (Q : Turn J → Type 0) (n : ℕ) (directory : String) (depth : ℕ) (s : Search J) (l : Listing)
      → ((warning : String) → Q (next (warn warning s)))
      → Q (done (warn_once "scan duration limit reached" (truncate s)))
      → ((listed : List DirectoryEntryRecord)
          → l ≡ entries listed
          → Q (next (entries_of n directory depth listed s)))
      → Q (read_of n directory depth s l)
  unfolding read_listing
  read_rule Q n directory depth s (unreadable reason) refused late read = refused _
  read_rule Q n directory depth s (entries listed) refused late read =
      if_rule Q (leb hints.limits.maximum_duration (clockwork.elapsed_after n))
        (done (warn_once "scan duration limit reached" (truncate s)))
        (next (entries_of n directory depth listed s)) (λ e. late) (λ e. read listed refl)

  pub turn_rule :
      (Q : Turn J → Type 0) (n : ℕ) (s : Search J) (queue : List (String × ℕ))
      → Q (done s)
      → ((warning : String) → Q (done (warn warning (truncate s))))
      → ((directory : String) (depth : ℕ) (rest : List (String × ℕ))
          → queue ≡ (directory, depth) ∷ rest
          → Q (next (skip rest s)))
      → ((directory : String) (depth : ℕ) (rest : List (String × ℕ))
          → queue ≡ (directory, depth) ∷ rest
          → s.report.scanned_directories < hints.limits.maximum_directories
          → has (path_key paths directory) s.visited ≡ false
          → Q (
              read_of n directory depth
                (count_directory (path_key paths directory) rest s)
                (environment.list_directory n directory)))
      → Q (turn_on paths hints selection environment json text_lib roots clockwork n s queue)
  unfolding turn_on take_directory
  turn_rule Q n s [] stopped limited skipped entered = stopped
  turn_rule Q n s ((directory, depth) ∷ rest) stopped limited skipped entered =
      let key = path_key paths directory in
      let full = leb hints.limits.maximum_directories s.report.scanned_directories in
      let late = leb hints.limits.maximum_duration (clockwork.elapsed_before n) in
      let slow = done (warn "scan duration limit reached" (truncate s)) in
      let many = done (warn "directory limit reached" (truncate s)) in
      let read =
        read_of n directory depth (count_directory key rest s)
          (environment.list_directory n directory) in
      let taken = if has key s.visited then next (skip rest s) else read in
      if_rule Q (clockwork.stop_round n) (done s)
        (if late then slow else if full then many else taken) (λ e1. stopped)
        (λ e1.
          if_rule Q late slow (if full then many else taken) (λ e2. limited _)
            (λ e2.
              if_rule Q full many taken (λ e3. limited _)
                (λ e3.
                  if_rule Q (has key s.visited) (next (skip rest s)) read
                    (λ e4. skipped directory depth rest refl)
                    (λ e4. entered directory depth rest refl (ground (arith)) e4))))

  -- What holds with any components, and so after a readable root.
  pub note_runtime_rule :
      (P : Search J → Type 0) (directory : String) (listed : List DirectoryEntryRecord)
      (s : Search J)
      → P s
      → ((components : List (DiscoveredComponent J))
          → P (record s { report = record s.report { components = components } }))
      → P (
          note_runtime paths hints selection environment json text_lib roots clockwork directory
            listed s)
  unfolding note_runtime note_root add_component
  note_runtime_rule P directory listed s same more = go (lookup (path_key paths directory) roots)
    where
      go :
          (root : Option RootCandidate)
          → P (
              note_root paths hints selection environment json text_lib roots clockwork directory
                listed s root)
      go none = same
      go (some root) =
          if_rule P (length listed == 0) s
            (add_runtime paths hints selection environment json text_lib roots clockwork directory
              root s)
            (λ e. same) (λ e. more _)

  -- What each round keeps, the loop keeps.
  pub walk_inv :
      (P : Search J → Type 0)
      → ((n : ℕ) (s : Search J)
          → P s
          → P (state_of (turn paths hints selection environment json text_lib roots clockwork n s)))
      → (fuel n : ℕ) (s end : Search J)
      → walk paths hints selection environment json text_lib roots clockwork fuel n s ≡ some end
      → P s
      → P end
  unfolding walk
  walk_inv P keep zero n s end e h = absurd (ground (arith))
  walk_inv P keep (suc fuel) n s end e h =
      go (turn paths hints selection environment json text_lib roots clockwork n s) refl
        (λ t e'. walk_inv P keep fuel (n + 1) t end e') (keep n s h)
    where
      go :
          (r : Turn J)
          → turn paths hints selection environment json text_lib roots clockwork n s ≡ r
          → ((t : Search J)
              → walk paths hints selection environment json text_lib roots clockwork fuel (n + 1) t
                ≡ some end
              → P t
              → P end)
          → P (state_of r)
          → P end
      go (done t) e' later h' = let same : t ≡ end = some_inj (rw (e', walk) at e) in rw same at h'
      go (next t) e' later h' = later t (rw (e', walk) at e) h'
