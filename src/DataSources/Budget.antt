-- ===== src/DataSources/Budget.antt =====
-- What the SQLite archive source returns at most.
use scada_guard.Prelude.{
  ℕ, suc, ◌+◌, ◌-◌, ◌≤◌, Bool, Option, none, some, List, [], ◌∷◌, ◌≡◌, refl, arith, length, take,
  ltb, if_rule, if◌then◌else◌,
}
use scada_guard.Model.{SignalSample, UtcLib}
use scada_guard.DataSources.{ArchiveRow, add_sample, read_rows}

abbrev pub bytes_of : {R : Type 0} → List (ArchiveRow R) → ℕ
bytes_of [] = 0
bytes_of (row ∷ rows) = row.bytes + bytes_of rows

module _ {R : Type 0} (utc : UtcLib) (now : ℕ → ℕ) where
  -- A sample holds what a row holds, and the clock's time.
  abbrev IsOfRow : ℕ → ArchiveRow R → SignalSample R → Type 0
  IsOfRow i row sample =
      (sample.signal_id ≡ row.signal_id)
      × (sample.value ≡ row.value)
      × (utc.parse_utc row.timestamp ≡ some sample.source_timestamp)
      × (sample.received_timestamp ≡ now i)
      × (sample.quality ≡ row.quality)

  -- The samples are those of the first rows, one of each, in their order.
  abbrev pub AreRead : ℕ → List (ArchiveRow R) → List (SignalSample R) → Type 0
  AreRead i rows [] = Unit {0}
  AreRead i [] (sample ∷ samples) = ⊥
  AreRead i (row ∷ rows) (sample ∷ samples) = IsOfRow i row sample × AreRead (suc i) rows samples

  module _ (stops : ℕ → Bool) where
    -- The samples are of the first rows, and these fit into the budget.
    abbrev IsWithin : ℕ → ℕ → List (ArchiveRow R) → Option (List (SignalSample R)) → Type 0
    IsWithin i budget rows none = Unit {0}
    IsWithin i budget rows (some samples) =
        AreRead i rows samples × (bytes_of (take (length samples) rows) ≤ budget)

    add_sample-IsWithin :
        (i budget : ℕ) (row : ArchiveRow R) (rows : List (ArchiveRow R)) (timestamp : Option ℕ)
        (others : Option (List (SignalSample R)))
        → utc.parse_utc row.timestamp ≡ timestamp
        → row.bytes ≤ budget
        → IsWithin (suc i) (budget - row.bytes) rows others
        → IsWithin i budget (row ∷ rows) (add_sample row (now i) timestamp others)
    unfolding add_sample
    add_sample-IsWithin i budget row rows none others e fits h = tt
    add_sample-IsWithin i budget row rows (some t) none e fits h = tt
    add_sample-IsWithin i budget row rows (some t) (some others) e fits (read, sum) =
        (((refl, refl, e, refl, refl), read), omega (arith, sum, fits))

    read_rows-IsWithin :
        (i budget : ℕ) (rows : List (ArchiveRow R))
        → IsWithin i budget rows (read_rows utc stops now i budget rows)
    unfolding read_rows
    read_rows-IsWithin i budget [] = (tt, omega arith)
    read_rows-IsWithin i budget (row ∷ rows) =
        let rest = read_rows utc stops now (suc i) (budget - row.bytes) rows in
        let sample = add_sample row (now i) (utc.parse_utc row.timestamp) rest in
        let over = ltb budget row.bytes in
        if_rule (IsWithin i budget (row ∷ rows)) (stops i) (some [])
          (if over then some [] else sample) (λ e. (tt, omega arith))
          (λ e.
            if_rule (IsWithin i budget (row ∷ rows)) over (some []) sample (λ e'. (tt, omega arith))
              (λ e'.
                add_sample-IsWithin i budget row rows (utc.parse_utc row.timestamp) rest refl
                  (ground (arith)) (read_rows-IsWithin (suc i) (budget - row.bytes) rows)))

    -- The samples that the loop returns are those of the first rows of the answer, one of each row
    -- and in their order, with the row's signal, value, time and quality, and the texts of these
    -- rows have no more bytes than the budget.
    pub read_rows_budget :
        (i budget : ℕ) (rows : List (ArchiveRow R)) (samples : List (SignalSample R))
        → read_rows utc stops now i budget rows ≡ some samples
        → AreRead i rows samples × (bytes_of (take (length samples) rows) ≤ budget)
    read_rows_budget i budget rows samples e = rw e at (read_rows-IsWithin i budget rows)
