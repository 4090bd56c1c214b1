-- ===== src/Scheduler/Items.antt =====
-- Lists of work items: how many are of a slot, and which are current.
use scada_guard.Prelude.{
  ℕ, ◌+◌, false, some, List, [], ◌∷◌, ◌++◌, ◌≡◌, refl, ◌∙◌, sym, ap, All, arith, ◌==◌, ==→eq,
  if◌then◌else◌, Bool-cases, inl, inr,
}
use scada_guard.Scheduler.{CheckSlot, WorkItem, put_at}

-- The items of a slot in a list.
abbrev pub count : ℕ → List WorkItem → ℕ
count s [] = 0
count s (w ∷ ws) = (if w.slot == s then 1 else 0) + count s ws

pub count-append : (s : ℕ) (xs ys : List WorkItem) → count s (xs ++ ys) ≡ count s xs + count s ys
count-append s [] ys = omega arith
count-append s (x ∷ xs) ys = omega (arith, count-append s xs ys)

-- An item is the execution that its slot names.
abbrev pub IsCurrent : (ℕ → CheckSlot) → WorkItem → Type 0
IsCurrent slots w = (slots w.slot).execution ≡ some w.execution

-- Without the slots named by `s`, the other items are as current as before.
pub IsCurrent-other :
    (slots : ℕ → CheckSlot) (s : ℕ) (v : CheckSlot) (ws : List WorkItem)
    → count s ws ≡ 0
    → All (IsCurrent slots) ws
    → All (IsCurrent (put_at s v slots)) ws
IsCurrent-other slots s v [] h a = tt
IsCurrent-other slots s v (w ∷ ws) h (one, rest) =
    let other : (w.slot == s) ≡ false = ground arith in
    let none_left : count s ws ≡ 0 = ground arith in
    (rw other one, IsCurrent-other slots s v ws none_left rest)

-- The slot keeps its execution.
pub IsCurrent-same :
    (slots : ℕ → CheckSlot) (s : ℕ) (v : CheckSlot) (ws : List WorkItem)
    → v.execution ≡ (slots s).execution
    → All (IsCurrent slots) ws
    → All (IsCurrent (put_at s v slots)) ws
IsCurrent-same slots s v [] h a = tt
IsCurrent-same slots s v (w ∷ ws) h (one, rest) = (
  elim (Bool-cases (w.slot == s)) [
    | inl e ↦ rw e (h ∙ ap (λ i. (slots i).execution) (sym (==→eq w.slot s e)) ∙ one)
    | inr e ↦ rw e one
  ],
  IsCurrent-same slots s v ws h rest,
)

All-middle :
    (P : WorkItem → Type 0) (xs : List WorkItem) (w : WorkItem) (ys : List WorkItem)
    → All P (xs ++ w ∷ ys)
    → P w × All P (xs ++ ys)
All-middle P [] w ys h = (h.0, h.1)
All-middle P (x ∷ xs) w ys h = let (one, rest) = All-middle P xs w ys h.1 in (one, (h.0, rest))

pub count-middle :
    (s : ℕ) (xs : List WorkItem) (w : WorkItem) (ys : List WorkItem)
    → count s (xs ++ w ∷ ys) ≡ (if w.slot == s then 1 else 0) + count s (xs ++ ys)
count-middle s [] w ys = refl
count-middle s (x ∷ xs) w ys = omega (arith, count-middle s xs w ys)

pub take_out :
    (P : WorkItem → Type 0) (zs xs : List WorkItem) (w : WorkItem) (ys : List WorkItem)
    → zs ≡ xs ++ w ∷ ys
    → All P zs
    → P w × All P (xs ++ ys)
take_out P zs xs w ys at h = All-middle P xs w ys (rw⁻¹ at h)

pub count_out :
    (s : ℕ) (zs xs : List WorkItem) (w : WorkItem) (ys : List WorkItem)
    → zs ≡ xs ++ w ∷ ys
    → count s zs ≡ (if w.slot == s then 1 else 0) + count s (xs ++ ys)
count_out s zs xs w ys at = ap (count s) at ∙ count-middle s xs w ys
