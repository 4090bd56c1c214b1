-- ===== src/Discovery/Walk/Entries.antt =====
-- What the entries of a directory keep.
use mathlib.Core.List.{Memᴰ}
use scada_guard.Prelude.{
  ℕ, ◌+◌, ◌<◌, Bool, true, false, List, [], ◌∷◌, ◌≡◌, refl, arith, leb, if_rule, if◌then◌else◌,
}
use scada_guard.Discovery.{
  DiscoveryHints, DiscoverySelection, DirectoryEntryRecord, PathLib, DiscoveryEnvironment,
}
use scada_guard.Discovery.Names.{looks_like_log, has, path_key}
use scada_guard.Discovery.Walk.{
  Search, is_sqlite, add_archive, add_log, archive_candidate, log_source, mark_file, count_file,
  warn_once, truncate, scan_entries, enter_directory, note_file, note_log, note_archive,
}

-- A file adds to the report, and one to its count of files.
pub record CountsFile {J : Type 0} (s t : Search J) : Type 0 where
  pub same_pending : t.pending ≡ s.pending
  pub same_visited : t.visited ≡ s.visited
  pub same_directories : t.report.scanned_directories ≡ s.report.scanned_directories
  pub one_file : t.report.scanned_files ≡ s.report.scanned_files + 1

module _ {J : Type 0} (paths : PathLib) (hints : DiscoveryHints) (selection : DiscoverySelection)
    (environment : DiscoveryEnvironment J) where
  note_archive-CountsFile :
      (n : ℕ) (entry : DirectoryEntryRecord) (s t : Search J)
      → CountsFile s t
      → CountsFile s (note_archive paths hints selection environment n entry t)
  unfolding note_archive
  note_archive-CountsFile n entry s t h =
      if_rule (CountsFile s) (is_sqlite (environment.read_prefix n entry.path 16))
        (add_archive
          (archive_candidate paths hints selection environment t.report.scanned_at entry
            (environment.inspect_sqlite n entry.path))
          t)
        t
        (λ e. record {
          same_pending = h.same_pending;
          same_visited = h.same_visited;
          same_directories = h.same_directories;
          one_file = h.one_file;
        })
        (λ e. h)

  note_log-CountsFile :
      (n : ℕ) (entry : DirectoryEntryRecord) (s t : Search J)
      → CountsFile s t
      → CountsFile s (note_log paths hints selection environment n entry t)
  unfolding note_log
  note_log-CountsFile n entry s t h =
      if_rule (CountsFile s) (looks_like_log paths entry.path hints)
        (add_log (log_source paths hints selection environment n t.report.scanned_at entry) t) t
        (λ e. record {
          same_pending = h.same_pending;
          same_visited = h.same_visited;
          same_directories = h.same_directories;
          one_file = h.one_file;
        })
        (λ e. h)

  pub note_file-CountsFile :
      (n : ℕ) (entry : DirectoryEntryRecord) (s : Search J)
      → CountsFile s (note_file paths hints selection environment n entry s)
  unfolding note_file
  note_file-CountsFile n entry s =
      let key = path_key paths entry.path in
      let marked : CountsFile s (mark_file key (count_file s)) = record {
        same_pending = refl;
        same_visited = refl;
        same_directories = refl;
        one_file = refl;
      } in
      if_rule (CountsFile s) (has key s.discovered_files) (count_file s)
        (note_archive paths hints selection environment n entry
          (note_log paths hints selection environment n entry (mark_file key (count_file s))))
        (λ e. record {
          same_pending = refl;
          same_visited = refl;
          same_directories = refl;
          one_file = refl;
        })
        (λ e.
          note_archive-CountsFile n entry s
            (note_log paths hints selection environment n entry (mark_file key (count_file s)))
            (note_log-CountsFile n entry s (mark_file key (count_file s)) marked))

  -- What the entries of a directory keep, if each entry does.
  pub scan_entries_inv :
      (P : Search J → Type 0) (stop : ℕ → Bool) (n depth i : ℕ) (listed : List DirectoryEntryRecord)
      → ((entry : DirectoryEntryRecord) (s : Search J)
          → entry.is_directory ≡ true
          → Memᴰ entry listed
          → P s
          → P (enter_directory paths hints selection environment depth entry s))
      → ((entry : DirectoryEntryRecord) (s : Search J)
          → entry.is_directory ≡ false
          → Memᴰ entry listed
          → s.report.scanned_files < hints.limits.maximum_files
          → P s
          → P (note_file paths hints selection environment n entry s))
      → ((s : Search J) → P s → P (warn_once "file limit reached" (truncate s)))
      → (s : Search J) → P s
      → P (scan_entries paths hints selection environment stop n depth i listed s)
  unfolding scan_entries
  scan_entries_inv P stop n depth i [] directory file limit s h = h
  scan_entries_inv P stop n depth i (entry ∷ rest) directory file limit s h =
      let later =
        scan_entries_inv P stop n depth (i + 1) rest (λ e t b m. directory e t b (Memᴰ.tail m))
          (λ e t b m. file e t b (Memᴰ.tail m)) limit in
      let after = scan_entries paths hints selection environment stop n depth (i + 1) rest in
      let entered = enter_directory paths hints selection environment depth entry s in
      let noted = note_file paths hints selection environment n entry s in
      let limited = warn_once "file limit reached" (truncate s) in
      let full = leb hints.limits.maximum_files s.report.scanned_files in
      if_rule P (stop i) s
        (if entry.is_directory then after entered else if full then limited else after noted)
        (λ e. h)
        (λ e.
          if_rule P entry.is_directory (after entered) (if full then limited else after noted)
            (λ e'. later entered (directory entry s e' (Memᴰ.head refl) h))
            (λ e'.
              if_rule P full limited (after noted) (λ e''. limit s h)
                (λ e''. later noted (file entry s e' (Memᴰ.head refl) (ground (arith, e'')) h))))
