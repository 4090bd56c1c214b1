-- ===== src/Scheduler/Single.antt =====
-- A check never runs twice at a time.
use scada_guard.Prelude.{
  ℕ, ◌+◌, true, false, List, [], ◌∷◌, ◌++◌, ◌≡◌, refl, All, All-append, arith, ◌==◌, ==→eq,
  if◌then◌else◌, Bool-cases, Option-cases, inl, inr,
}
use scada_guard.Model.{CheckResult, JsonLib}
use scada_guard.Scheduler.{
  WorkItem, Core, submit, push_back, pop_front, complete, complete_cancelled, begin_execution,
  release, time_out, begin_stop, request_stop, same_execution, Step, submits, pushes, pops, cancels,
  begins, completes, releases, times_out, stops, requests_stop, Reach, start, then_step,
}
use scada_guard.Scheduler.Items.{
  count, IsCurrent, count-append, IsCurrent-other, IsCurrent-same, take_out, count_out,
}

module _ {J : Type 0} where
  -- The items of a slot that are on their way, or came after the stop.
  abbrev pub in_flight : ℕ → Core J → ℕ
  in_flight s c =
      count s c.submitted
      + count s c.queue
      + count s c.taken
      + count s c.running
      + count s c.completing
      + count s c.dropped

  abbrev pub IsSingle : Core J → Type 0
  IsSingle c =
      ((s : ℕ) → in_flight s c ≡ (if (c.slots s).scheduled then 1 else 0))
      × All (IsCurrent c.slots) c.submitted
      × All (IsCurrent c.slots) c.queue
      × All (IsCurrent c.slots) c.taken
      × All (IsCurrent c.slots) c.running
      × All (IsCurrent c.slots) c.completing
      × All (IsCurrent c.slots) c.dropped

module _ {J : Type 0} where
  submit-IsSingle :
      (c : Core J) (s : ℕ) → (c.slots s).scheduled ≡ false → IsSingle c → IsSingle (submit s c)
  unfolding submit
  submit-IsSingle c s free (n, a, b, t, r, e, x) =
      let total = n s in
      (
        λ i. elim (Bool-cases (i == s)) [
          | inl same ↦ rw (same, ==→eq i s same) (ground (arith, n s))
          | inr other ↦ rw other (ground (arith, n i))
        ],
        (ground arith, IsCurrent-other c.slots s _ c.submitted (ground arith) a),
        IsCurrent-other c.slots s _ c.queue (ground arith) b,
        IsCurrent-other c.slots s _ c.taken (ground arith) t,
        IsCurrent-other c.slots s _ c.running (ground arith) r,
        IsCurrent-other c.slots s _ c.completing (ground arith) e,
        IsCurrent-other c.slots s _ c.dropped (ground arith) x,
      )

  push_back-IsSingle :
      (c : Core J) (w : WorkItem) (xs ys : List WorkItem)
      → c.submitted ≡ xs ++ w ∷ ys
      → IsSingle c
      → IsSingle (push_back w (xs ++ ys) c)
  unfolding push_back
  push_back-IsSingle c w xs ys at (n, a, b, t, r, e, x) =
      let (one, rest) = take_out (IsCurrent c.slots) c.submitted xs w ys at a in
      elim (Bool-cases c.stopping) [
        | inl late ↦
            rw (late, push_back)
              (
                λ i. omega (arith, n i, count_out i c.submitted xs w ys at),
                rest,
                b,
                t,
                r,
                e,
                (one, x),
              )
        | inr early ↦
            rw (early, push_back)
              (
                λ i. omega (
                  arith,
                  n i,
                  count_out i c.submitted xs w ys at,
                  count-append i c.queue (w ∷ []),
                ),
                rest,
                All-append (IsCurrent c.slots) c.queue (w ∷ []) b (one, tt),
                t,
                r,
                e,
                x,
              )
      ]

  pop_front-IsSingle :
      (c : Core J) (w : WorkItem) (ws : List WorkItem)
      → c.queue ≡ w ∷ ws
      → IsSingle c
      → IsSingle (pop_front w ws c)
  unfolding pop_front
  pop_front-IsSingle c w ws at (n, a, b, t, r, e, x) =
      let (one, rest) = take_out (IsCurrent c.slots) c.queue [] w ws at b in
      (λ i. omega (arith, n i, count_out i c.queue [] w ws at), a, rest, (one, t), r, e, x)

  begin_execution-IsSingle :
      (c : Core J) (w : WorkItem) (xs ys : List WorkItem)
      → c.taken ≡ xs ++ w ∷ ys
      → IsSingle c
      → IsSingle (begin_execution w (xs ++ ys) c)
  unfolding begin_execution
  begin_execution-IsSingle c w xs ys at (n, a, b, t, r, e, x) =
      let (one, rest) = take_out (IsCurrent c.slots) c.taken xs w ys at t in
      (λ i. omega (arith, n i, count_out i c.taken xs w ys at), a, b, rest, (one, r), e, x)

  complete_cancelled-IsSingle :
      (c : Core J) (w : WorkItem) (xs ys : List WorkItem) (result : CheckResult J)
      → c.taken ≡ xs ++ w ∷ ys
      → IsSingle c
      → IsSingle (complete_cancelled w (xs ++ ys) result c)
  unfolding complete_cancelled
  complete_cancelled-IsSingle c w xs ys result at (n, a, b, t, r, e, x) =
      let (one, rest) = take_out (IsCurrent c.slots) c.taken xs w ys at t in
      (λ i. omega (arith, n i, count_out i c.taken xs w ys at), a, b, rest, r, (one, e), x)

  complete-IsSingle :
      (c : Core J) (w : WorkItem) (xs ys : List WorkItem) (result : CheckResult J)
      → c.running ≡ xs ++ w ∷ ys
      → IsSingle c
      → IsSingle (complete w (xs ++ ys) result c)
  unfolding complete
  complete-IsSingle c w xs ys result at (n, a, b, t, r, e, x) =
      let (one, rest) = take_out (IsCurrent c.slots) c.running xs w ys at r in
      (λ i. omega (arith, n i, count_out i c.running xs w ys at), a, b, t, rest, (one, e), x)

  release-IsSingle :
      (c : Core J) (w : WorkItem) (xs ys : List WorkItem)
      → c.completing ≡ xs ++ w ∷ ys
      → IsSingle c
      → IsSingle (release w (xs ++ ys) c)
  unfolding release
  release-IsSingle c w xs ys at (n, a, b, t, r, e, x) =
      let (one, rest) = take_out (IsCurrent c.slots) c.completing xs w ys at e in
      let named : same_execution (c.slots w.slot).execution w.execution ≡ true =
        rw one (ground arith) in
      rw (named, release)
        (
          λ i. elim (Bool-cases (i == w.slot)) [
            | inl same ↦
                rw same
                  (ground (arith, n i, count_out i c.completing xs w ys at, ==→eq i w.slot same))
            | inr other ↦ rw other (ground (arith, n i, count_out i c.completing xs w ys at))
          ],
          IsCurrent-same c.slots w.slot _ c.submitted refl a,
          IsCurrent-same c.slots w.slot _ c.queue refl b,
          IsCurrent-same c.slots w.slot _ c.taken refl t,
          IsCurrent-same c.slots w.slot _ c.running refl r,
          IsCurrent-same c.slots w.slot _ (xs ++ ys) refl rest,
          IsCurrent-same c.slots w.slot _ c.dropped refl x,
        )

  request_stop-IsSingle : (c : Core J) (s : ℕ) → IsSingle c → IsSingle (request_stop s c)
  unfolding request_stop
  request_stop-IsSingle c s h = elim (Option-cases (c.slots s).execution) [
    | inl e ↦ rw (e, request_stop) h
    | inr (d, e) ↦ rw (e, request_stop) h
  ]

module _ {J : Type 0} (json : JsonLib J) where
  Step-IsSingle : {c d : Core J} → Step json c d → IsSingle c → IsSingle d
  unfolding time_out begin_stop
  Step-IsSingle (submits c s free) h = submit-IsSingle c s free h
  Step-IsSingle (pushes c w xs ys at) h = push_back-IsSingle c w xs ys at h
  Step-IsSingle (pops c w ws at free) h = pop_front-IsSingle c w ws at h
  Step-IsSingle (cancels c w xs ys id clock at flag) h =
      complete_cancelled-IsSingle c w xs ys _ at h
  Step-IsSingle (begins c w xs ys at flag) h = begin_execution-IsSingle c w xs ys at h
  Step-IsSingle (completes c w xs ys id outcome clock duration at) h =
      complete-IsSingle c w xs ys _ at h
  Step-IsSingle (releases c w xs ys at) h = release-IsSingle c w xs ys at h
  Step-IsSingle (times_out c e) h = h
  Step-IsSingle (stops c) h = h
  Step-IsSingle (requests_stop c s) h = request_stop-IsSingle c s h

  -- However the threads interleave, from a state such as the first one: a slot is scheduled
  -- exactly while one item of it is on its way from `run_once` to its release, or was refused by
  -- the stop; it never has two, and each item is the execution that its slot names. So no check
  -- runs twice at a time.
  pub Reach-IsSingle : {c d : Core J} → Reach json c d → IsSingle c → IsSingle d
  Reach-IsSingle start h = h
  Reach-IsSingle (then_step r s) h = Step-IsSingle s (Reach-IsSingle r h)
