-- ===== src/Discovery/Select/First.antt =====
-- `change_first` on entries that fail a test.
use scada_guard.Prelude.{
  Bool, true, false, none, some, List, [], ◌∷◌, keep, find_if, All, ◌≡◌, refl, ap, Bool-cases, inl,
  inr, ◌⊎◌,
}
use scada_guard.Discovery.Select.{change_first}

module _ {ℓ} {A : Type ℓ} (q : A → Bool) where
  pub keep-none : (xs : List A) → All (λ x. q x ≡ false) xs → keep q xs ≡ []
  keep-none [] h = refl
  keep-none (x ∷ xs) (off, h) = rw off (keep-none xs h)

  -- The first entry that passes `p` is the only one that passes `q` afterwards, if the change makes
  -- it pass.
  pub keep-change_first :
      (p : A → Bool) (f : A → A) (xs : List A)
      → ((x : A) → q (f x) ≡ true)
      → All (λ x. q x ≡ false) xs
      → ((find_if p xs ≡ none) × (keep q (change_first p f xs) ≡ []))
        ⊎ ((x : A) × (find_if p xs ≡ some x)
            × (p x ≡ true)
            × (keep q (change_first p f xs) ≡ f x ∷ []))
  keep-change_first p f [] on h = inl (refl, refl)
  keep-change_first p f (x ∷ xs) on (off, h) = elim (Bool-cases (p x)) [
    | inl e ↦ inr (x, rw e refl, e, rw (e, on x) (ap (λ ys. f x ∷ ys) (keep-none xs h)))
    | inr e ↦ elim (keep-change_first p f xs on h) [
      | inl (same, empty) ↦ inl (rw e same, rw (e, off) empty)
      | inr (found, same, passes, one) ↦ inr (found, rw e same, passes, rw (e, off) one)
    ]
  ]
