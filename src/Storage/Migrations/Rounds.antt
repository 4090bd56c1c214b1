-- ===== src/Storage/Migrations/Rounds.antt =====
-- The loop of the migrations ends.
use scada_guard.Prelude.{
  [], ℕ, zero, suc, ◌+◌, ◌-◌, ◌≤◌, String, true, false, Option, none, some, ◌≡◌, refl, arith,
  if_rule, if◌then◌else◌, ℤ, pos, ltb_ℤ, leb_ℤ,
}
use scada_guard.Checks.{TextLib}
use scada_guard.Storage.Migrations.{
  Database, Migration, failed, out_of_fuel, migrated, is_version, with_version, create_table,
  migrate_1_to_2, migrate_2_to_3, migrate_3_to_4, migrate_once, upgrade, migrate, create_if_missing,
  ◌>>=◌, take_over,
}

module _ {J : Type 0} (text_lib : TextLib) where
  -- The migrations end, by an exception or with version 4.
  abbrev pub IsDone : Migration J → Type 0
  IsDone failed = Unit {0}
  IsDone out_of_fuel = ⊥
  IsDone (migrated db) = is_version db.version 4 ≡ true

  abbrev HasVersion : ℕ → Option (Database J) → Type 0
  HasVersion n none = Unit {0}
  HasVersion n (some db) = db.version ≡ pos n

  bind-HasVersion :
      (n : ℕ) (o : Option (Database J)) (f : Database J → Option (Database J))
      → ((db : Database J) → HasVersion n (f db))
      → HasVersion n (o >>= f)
  bind-HasVersion n none f h = tt
  bind-HasVersion n (some db) f h = h db

  migrate_1_to_2-HasVersion : (db : Database J) → HasVersion 2 (migrate_1_to_2 text_lib db)
  unfolding migrate_1_to_2
  migrate_1_to_2-HasVersion db =
      let make : String → Database J → Option (Database J) = create_table text_lib in
      let last : Database J → Option (Database J) = λ d. some (with_version text_lib 2 d) in
      let third : Database J → Option (Database J) = λ c. make "signal_history" c >>= last in
      let second : Database J → Option (Database J) = λ b. make "file_state" b >>= third in
      let first : Database J → Option (Database J) = λ a. make "log_state" a >>= second in
      bind-HasVersion 2 (make "agent_state" db) first (λ a.
        bind-HasVersion 2 (make "log_state" a) second (λ b.
          bind-HasVersion 2 (make "file_state" b) third
            (λ c. bind-HasVersion 2 (make "signal_history" c) last (λ d. refl))))

  migrate_2_to_3-HasVersion : (db : Database J) → HasVersion 3 (migrate_2_to_3 text_lib db)
  unfolding migrate_2_to_3
  migrate_2_to_3-HasVersion db =
      bind-HasVersion 3 (create_table text_lib "outbound_queue" db)
        (λ a. some (
          with_version text_lib 3
            (record a { outbound_queue = take_over text_lib a.event_queue [] })))
        (λ a. refl)

  migrate_3_to_4-HasVersion : (db : Database J) → HasVersion 4 (migrate_3_to_4 text_lib db)
  unfolding migrate_3_to_4
  migrate_3_to_4-HasVersion db =
      bind-HasVersion 4 (create_table text_lib "discovery_state" db)
        (λ a. some (with_version text_lib 4 a)) (λ a. refl)

  -- Each migration raises the version by one.
  Raises : ℤ → Option (Database J) → Type 0
  Raises v none = Unit {0}
  Raises v (some db) = (n : ℕ) × (1 ≤ n) × (is_version v n ≡ true) × (db.version ≡ pos (n + 1))

  raises :
      (n m : ℕ) (v : ℤ) (o : Option (Database J))
      → 1 ≤ n
      → m ≡ n + 1
      → is_version v n ≡ true
      → HasVersion m o
      → Raises v o
  unfolding Raises
  raises n m v none one e is h = tt
  raises n m v (some db) one e is h = (n, one, is, rw e at h)

  migrate_once-Raises : (db : Database J) → Raises db.version (migrate_once text_lib db)
  unfolding migrate_once Raises
  migrate_once-Raises db =
      let one = is_version db.version 1 in
      let two = is_version db.version 2 in
      let three = is_version db.version 3 in
      let first = migrate_1_to_2 text_lib db in
      let second = migrate_2_to_3 text_lib db in
      let third = migrate_3_to_4 text_lib db in
      if_rule (Raises db.version) one first (if two then second else if three then third else none)
        (λ e. raises 1 2 db.version first (omega arith) refl e (migrate_1_to_2-HasVersion db))
        (λ e.
          if_rule (Raises db.version) two second (if three then third else none)
            (λ e'.
              raises 2 3 db.version second (omega arith) refl e' (migrate_2_to_3-HasVersion db))
            (λ e'.
              if_rule (Raises db.version) three third none
                (λ e''.
                  raises 3 4 db.version third (omega arith) refl e'' (migrate_3_to_4-HasVersion db))
                (λ e''. tt)))

  abbrev after : ℕ → Option (Database J) → Migration J
  after fuel none = failed
  after fuel (some db) = upgrade text_lib fuel db

  -- The end of the loop.
  settled :
      (db : Database J)
      → ltb_ℤ db.version (pos 4) ≡ false
      → IsDone (if ltb_ℤ (pos 4) db.version then failed else migrated db)
  settled db e =
      if_rule IsDone (ltb_ℤ (pos 4) db.version) failed (migrated db) (λ e'. tt) (λ e'. ground arith)

  after-IsDone :
      (fuel : ℕ) (o : Option (Database J))
      → ((db : Database J) → o ≡ some db → IsDone (upgrade text_lib fuel db))
      → IsDone (after fuel o)
  after-IsDone fuel none h = tt
  after-IsDone fuel (some db) h = h db refl

  raised_by :
      (db db' : Database J)
      → migrate_once text_lib db ≡ some db'
      → (n : ℕ) × (1 ≤ n) × (is_version db.version n ≡ true) × (db'.version ≡ pos (n + 1))
  unfolding Raises
  raised_by db db' e = rw e at (migrate_once-Raises db)

  upgrade_near :
      (fuel : ℕ) (db : Database J)
      → leb_ℤ (pos (4 - fuel)) db.version ≡ true
      → IsDone (upgrade text_lib fuel db)
  unfolding upgrade
  upgrade_near zero db h =
      if_rule IsDone (ltb_ℤ db.version (pos 4)) out_of_fuel
        (if ltb_ℤ (pos 4) db.version then failed else migrated db) (λ e. absurd (ground (arith)))
        (settled db)
  upgrade_near (suc fuel) db h =
      if_rule IsDone (ltb_ℤ db.version (pos 4)) (after fuel (migrate_once text_lib db))
        (if ltb_ℤ (pos 4) db.version then failed else migrated db)
        (λ e. after-IsDone fuel (migrate_once text_lib db) (λ db' e'.
          let (n, one, is, raised) = raised_by db db' e' in
          upgrade_near fuel db' (rw raised (ground (arith)))))
        (settled db)

  -- The loop of the migrations ends within three rounds, whatever version the file carries: by an
  -- exception, or with a database of version 4.
  pub migrate_ends : (db : Database J) → IsDone (migrate text_lib db)
  unfolding migrate upgrade
  migrate_ends db =
      let full = create_if_missing text_lib "event_queue" (
        create_if_missing text_lib "incidents" (
          create_if_missing text_lib "check_state"
            (create_if_missing text_lib "schema_version" db))) in
      if_rule IsDone (ltb_ℤ full.version (pos 4)) (after 2 (migrate_once text_lib full))
        (if ltb_ℤ (pos 4) full.version then failed else migrated full)
        (λ e. after-IsDone 2 (migrate_once text_lib full) (λ db' e'.
          let (n, one, is, raised) = raised_by full db' e' in
          upgrade_near 2 db' (rw raised (ground (arith)))))
        (settled full)
