-- ===== src/DataSources/Latest.antt =====
-- The current values of the CSV source.
use mathlib.Core.List.{Memᴰ}
use scada_guard.Prelude.{
  ◌≤◌, String, false, Option, none, some, ◌&&◌, List, [], ◌∷◌, ◌≡◌, refl, ap, ◌∙◌, arith, str_eq,
  eq_iff, if◌then◌else◌, Map, lookup, insert, lookup-insert, All, ◌⊎◌, inl, inr, Bool-cases,
}
use scada_guard.Model.{SignalSample}
use scada_guard.DataSources.{newer, latest}

module _ {R : Type 0} (id : String) where
  -- The latest sample of one signal, from one that is known.
  best : List (SignalSample R) → Option (SignalSample R) → Option (SignalSample R)
  best [] known = known
  best (s ∷ samples) known =
      let after = best samples in
      if str_eq s.signal_id id && newer s known then after (some s) else after known

  lookup-latest :
      (samples : List (SignalSample R)) (found : Map (SignalSample R))
      → lookup id (latest samples found) ≡ best samples (lookup id found)
  unfolding latest best
  lookup-latest [] found = refl
  lookup-latest (s ∷ samples) found =
      let inserted = insert s.signal_id s found in
      let mine = str_eq s.signal_id id in
      let known = lookup-insert s.signal_id id s found in
      elim (Bool-cases mine) [
        | inl same ↦
            let key : s.signal_id ≡ id = ground (arith, eq_iff s.signal_id id) in
            let e : lookup s.signal_id found ≡ lookup id found = ap (λ k. lookup k found) key in
            elim (Bool-cases (newer s (lookup id found))) [
              | inl b ↦
                  rw (e, b, same)
                    (lookup-latest samples inserted ∙ ap (best samples) (known ∙ rw same refl))
              | inr b ↦ rw (e, b, same) (lookup-latest samples found)
            ]
        | inr other ↦ elim (Bool-cases (newer s (lookup s.signal_id found))) [
          | inl b ↦
              rw (b, other)
                (lookup-latest samples inserted ∙ ap (best samples) (known ∙ rw other refl))
          | inr b ↦ rw (b, other) (lookup-latest samples found)
        ]
      ]

  -- What the latest sample of a signal is: no sample of the list is of the signal, or it is one that
  -- is, and none that is has a later source timestamp.
  abbrev pub IsLatest : List (SignalSample R) → Option (SignalSample R) → Type 0
  IsLatest samples none = All (λ t. str_eq t.signal_id id ≡ false) samples
  IsLatest samples (some s) =
      (s.signal_id ≡ id)
      × Memᴰ s samples
      × All (λ t. t.signal_id ≡ id → t.source_timestamp ≤ s.source_timestamp) samples

  -- From a known sample of the signal.
  abbrev IsBest : List (SignalSample R) → SignalSample R → SignalSample R → Type 0
  IsBest samples u s =
      (s.signal_id ≡ id)
      × ((s ≡ u) ⊎ Memᴰ s samples)
      × (u.source_timestamp ≤ s.source_timestamp)
      × All (λ t. t.signal_id ≡ id → t.source_timestamp ≤ s.source_timestamp) samples

  best-IsBest :
      (samples : List (SignalSample R)) (u : SignalSample R)
      → u.signal_id ≡ id
      → (s : SignalSample R) × (best samples (some u) ≡ some s) × IsBest samples u s
  unfolding best
  best-IsBest [] u is = (u, refl, (is, inl refl, omega arith, tt))
  best-IsBest (t ∷ samples) u is = elim (Bool-cases (str_eq t.signal_id id && newer t (some u))) [
    | inl b ↦
        let mine : t.signal_id ≡ id = ground (arith, eq_iff t.signal_id id) in
        let (s, e, (named, from, above, rest)) = best-IsBest samples t mine in
        (
          s,
          rw b e,
          (
            named,
            elim from [ inl same ↦ inr (Memᴰ.head same) | inr m ↦ inr (Memᴰ.tail m) ],
            ground (arith, above),
            (λ k. above, rest),
          ),
        )
    | inr b ↦
        let (s, e, (named, from, above, rest)) = best-IsBest samples u is in
        (
          s,
          rw b e,
          (
            named,
            elim from [ inl same ↦ inl same | inr m ↦ inr (Memᴰ.tail m) ],
            above,
            (λ k. ground (arith, above, eq_iff t.signal_id id), rest),
          ),
        )
  ]

  best-IsLatest : (samples : List (SignalSample R)) → IsLatest samples (best samples none)
  unfolding best
  best-IsLatest [] = tt
  best-IsLatest (t ∷ samples) = elim (Bool-cases (str_eq t.signal_id id)) [
    | inl b ↦
        let mine : t.signal_id ≡ id = ground (arith, eq_iff t.signal_id id) in
        let (s, e, (named, from, above, rest)) = best-IsBest samples t mine in
        rw (b, e)
          (named, elim from [ inl same ↦ Memᴰ.head same | inr m ↦ Memᴰ.tail m ], (λ k. above, rest))
    | inr b ↦ rw b (skip b (best samples none) (best-IsLatest samples))
  ]
    where
      skip :
          str_eq t.signal_id id ≡ false
          → (o : Option (SignalSample R)) → IsLatest samples o
          → IsLatest (t ∷ samples) o
      skip b none h = (b, h)
      skip b (some s) (named, m, rest) =
          (named, Memᴰ.tail m, (λ k. absurd (ground (arith, eq_iff t.signal_id id)), rest))

  -- The current value of a signal is the sample with the latest source timestamp of all the samples
  -- of the signal, and a signal without a value has no sample.
  pub latest-IsLatest :
      (samples : List (SignalSample R)) → IsLatest samples (lookup id (latest samples []))
  unfolding lookup
  latest-IsLatest samples = rw (lookup-latest samples []) (best-IsLatest samples)
