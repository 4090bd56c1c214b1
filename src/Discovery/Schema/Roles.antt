-- ===== src/Discovery/Schema/Roles.antt =====
-- What the candidates of an analysis are.
use mathlib.Core.List.{Memᴰ, Permᴰ}
use scada_guard.Prelude.{
  ℕ, ◌≤◌, true, not, ◌||◌, Option, none, some, List, [], ◌∷◌, All, All-perm, ◌≡◌, refl, arith,
  length, str_eq, ◌==◌, if_rule, eq_iff,
}
use scada_guard.Model.{JsonLib}
use scada_guard.Discovery.{
  DiscoveryConfidence, SqliteObjectMetadata, SqliteInspection, ArchiveSchemaCandidate, PathLib,
}
use scada_guard.Discovery.Schema.{
  SampleLib, roles_of, with_confidence, candidate_of, add_candidate, candidates_of, analyze,
  confidence_of, complete_roles,
}
use scada_guard.Discovery.Schema.Best.{IsChoice, best_column-IsChoice}

module _ {J : Type 0} (paths : PathLib) (json : JsonLib J) (samples : SampleLib J) where
  -- A candidate that is right for a table.
  pub record IsCandidate (object : SqliteObjectMetadata J) (c : ArchiveSchemaCandidate)
      : Type 0 where
    pub is_table : object.type ≡ "table"
    pub named : c.table ≡ object.name
    pub asks : c.needs_confirmation ≡ true
    pub timestamp : IsChoice paths json samples object "timestamp" 10 c.roles.timestamp
    pub signal_id : IsChoice paths json samples object "signal_id" 10 c.roles.signal_id
    pub value : IsChoice paths json samples object "value" 10 c.roles.value
    pub quality : IsChoice paths json samples object "quality" 12 c.roles.quality
    pub some_role : 1 ≤ complete_roles paths json samples c.roles
    pub all_roles :
        c.confidence ≡ DiscoveryConfidence.high → complete_roles paths json samples c.roles ≡ 3

  confidence_of-roles :
      (roles total : ℕ) (confidence : DiscoveryConfidence)
      → confidence_of roles total ≡ some confidence
      → (1 ≤ roles) × (confidence ≡ DiscoveryConfidence.high → roles ≡ 3)
  unfolding confidence_of
  confidence_of-roles roles total confidence e = (ground arith, λ h. ground arith)

  abbrev IfCandidate : SqliteObjectMetadata J → Option ArchiveSchemaCandidate → Type 0
  IfCandidate object none = Unit {0}
  IfCandidate object (some c) = IsCandidate object c

  with_confidence-IfCandidate :
      (object : SqliteObjectMetadata J) (confidence : Option DiscoveryConfidence)
      → object.type ≡ "table"
      → (let (roles, total) = roles_of paths json samples object in
          confidence_of (complete_roles paths json samples roles) total ≡ confidence)
      → IfCandidate object (
          with_confidence paths json samples object
            (roles_of paths json samples object).0
            confidence)
  unfolding with_confidence roles_of
  with_confidence-IfCandidate object none is e = tt
  with_confidence-IfCandidate object (some confidence) is e =
      let (one, three) = confidence_of-roles _ _ confidence e in
      record {
        is_table = is;
        named = refl;
        asks = refl;
        timestamp = best_column-IsChoice paths json samples object "timestamp" 10 (omega arith);
        signal_id = best_column-IsChoice paths json samples object "signal_id" 10 (omega arith);
        value = best_column-IsChoice paths json samples object "value" 10 (omega arith);
        quality = best_column-IsChoice paths json samples object "quality" 12 (omega arith);
        some_role = one;
        all_roles = three;
      }

  candidate_of-IfCandidate :
      (object : SqliteObjectMetadata J)
      → IfCandidate object (candidate_of paths json samples object)
  unfolding candidate_of
  candidate_of-IfCandidate object =
      if_rule (IfCandidate object)
        (not (str_eq object.type "table") || length object.column_metadata == 0) none _ (λ e. tt)
        (λ e.
          with_confidence-IfCandidate object _ (ground (arith, eq_iff object.type "table")) refl)

  -- Some table of the list.
  abbrev IsSome : List (SqliteObjectMetadata J) → ArchiveSchemaCandidate → Type 0
  IsSome objects c = (object : SqliteObjectMetadata J) × Memᴰ object objects × IsCandidate object c

  IsSome-more :
      (object : SqliteObjectMetadata J) (objects : List (SqliteObjectMetadata J))
      (cs : List ArchiveSchemaCandidate)
      → All (IsSome objects) cs
      → All (IsSome (object ∷ objects)) cs
  IsSome-more object objects [] h = tt
  IsSome-more object objects (c ∷ cs) ((table, m, is), h) =
      ((table, Memᴰ.tail m, is), IsSome-more object objects cs h)

  candidates_of-IsSome :
      (objects : List (SqliteObjectMetadata J))
      → All (IsSome objects) (candidates_of paths json samples objects)
  unfolding candidates_of add_candidate
  candidates_of-IsSome [] = tt
  candidates_of-IsSome (object ∷ objects) =
      add (candidate_of paths json samples object) (candidate_of-IfCandidate object)
        (IsSome-more object objects _ (candidates_of-IsSome objects))
    where
      add :
          (c : Option ArchiveSchemaCandidate)
          → IfCandidate object c
          → All (IsSome (object ∷ objects)) (candidates_of paths json samples objects)
          → All
              (IsSome (object ∷ objects))
              (add_candidate paths json samples c (candidates_of paths json samples objects))
      add none is h = h
      add (some c) is h = ((object, Memᴰ.head refl, is), h)

  -- Each candidate of an analysis names a table of the inspection and asks for a confirmation. It has
  -- a column for at least one of the timestamp, the signal and the value, and for all three if its
  -- confidence is high; each column is the first choice of its role, or there is none that reaches
  -- the threshold.
  pub analyze-IsCandidate :
      (sort : List ArchiveSchemaCandidate → List ArchiveSchemaCandidate)
      (inspection : SqliteInspection J)
      → ((cs : List ArchiveSchemaCandidate) → Permᴰ cs (sort cs))
      → All
          (λ c.
            (object : SqliteObjectMetadata J) × Memᴰ object inspection.objects
            × IsCandidate object c)
          (analyze paths json samples sort inspection)
  unfolding analyze
  analyze-IsCandidate sort inspection permutes =
      All-perm (IsSome inspection.objects)
        (permutes (candidates_of paths json samples inspection.objects))
        (candidates_of-IsSome inspection.objects)
