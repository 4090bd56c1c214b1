-- ===== src/Discovery/Schema/Best.antt =====
-- The column that is chosen for a role.
use mathlib.Core.List.{Memᴰ}
use scada_guard.Prelude.{
  ℕ, ◌≤◌, ◌<◌, String, Option, none, some, List, [], ◌∷◌, All, ◌≡◌, refl, sym, ◌⊎◌, inl, inr, arith,
  ltb, if_rule,
}
use scada_guard.Model.{JsonLib}
use scada_guard.Discovery.{SqliteObjectMetadata, Column, PathLib}
use scada_guard.Discovery.Schema.{SampleLib, role_score, best_of, best_column}

module _ {J : Type 0} (paths : PathLib) (json : JsonLib J) (samples : SampleLib J)
    (object : SqliteObjectMetadata J) (role : String) where
  abbrev pub score_of : Column → ℕ
  score_of column = role_score paths json samples object column role

  -- The best of some columns and of a result so far.
  abbrev IsBest : List Column → Option String → ℕ → Option String × ℕ → Type 0
  IsBest columns result best_score found =
      (best_score ≤ found.1)
      × All (λ column. score_of column ≤ found.1) columns
      × (((found.0 ≡ result) × (found.1 ≡ best_score))
          ⊎ ((column : Column) × Memᴰ column columns
              × (found.0 ≡ some column.name)
              × (score_of column ≡ found.1)))

  best_of-IsBest :
      (columns : List Column) (result : Option String) (best_score : ℕ)
      → IsBest columns result best_score
          (best_of paths json samples object role columns result best_score)
  unfolding best_of
  best_of-IsBest [] result best_score = (omega arith, tt, inl (refl, refl))
  best_of-IsBest (column ∷ columns) result best_score =
      if_rule (IsBest (column ∷ columns) result best_score) (ltb best_score (score_of column))
        (best_of paths json samples object role columns (some column.name) (score_of column))
        (best_of paths json samples object role columns result best_score)
        (λ e.
          let (above, rest, which) = best_of-IsBest columns (some column.name) (score_of column) in
          (
            ground (arith),
            (above, rest),
            elim which [
              | inl (same, equal) ↦ inr (column, Memᴰ.head refl, same, sym equal)
              | inr (other, m, same, equal) ↦ inr (other, Memᴰ.tail m, same, equal)
            ],
          ))
        (λ e.
          let (above, rest, which) = best_of-IsBest columns result best_score in
          (
            above,
            (ground (arith), rest),
            elim which [
              | inl same ↦ inl same
              | inr (other, m, same, equal) ↦ inr (other, Memᴰ.tail m, same, equal)
            ],
          ))

  -- What `best_column` chooses: no column, and then every score is below the threshold, or a column
  -- of the table whose score reaches the threshold and is the greatest of all.
  abbrev pub IsChoice : ℕ → Option String → Type 0
  IsChoice threshold choice =
      ((choice ≡ none) × All (λ column. score_of column < threshold) object.column_metadata)
      ⊎ ((best : Column) × Memᴰ best object.column_metadata
          × (choice ≡ some best.name)
          × (threshold ≤ score_of best)
          × All (λ column. score_of column ≤ score_of best) object.column_metadata)

  All-below :
      (limit bound : ℕ) (columns : List Column)
      → bound < limit
      → All (λ column. score_of column ≤ bound) columns
      → All (λ column. score_of column < limit) columns
  All-below limit bound [] h k = tt
  All-below limit bound (column ∷ columns) h (k, rest) =
      (omega arith, All-below limit bound columns h rest)

  -- The choice for a role with a positive threshold.
  pub best_column-IsChoice :
      (threshold : ℕ)
      → 0 < threshold
      → IsChoice threshold (best_column paths json samples object role threshold).0
  unfolding best_column
  best_column-IsChoice threshold positive =
      let found = best_of paths json samples object role object.column_metadata none 0 in
      let (above, rest, which) = best_of-IsBest object.column_metadata none 0 in
      if_rule (IsChoice threshold) (ltb found.1 threshold) none found.0
        (λ e. inl (refl, All-below threshold found.1 object.column_metadata (ground (arith)) rest))
        (λ e. elim which [
          | inl (same, equal) ↦ absurd (ground (arith))
          | inr (best, m, same, equal) ↦ inr (best, m, same, ground (arith), rw equal rest)
        ])
