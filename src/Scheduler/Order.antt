-- ===== src/Scheduler/Order.antt =====
-- The order of the queue.
use cpp_jam.Common.{
  ℕ, ◌≤◌, ◌<◌, ◌≡◌, refl, ap, true, false, List, [], ◌∷◌, ◌++◌, Option, none, some, ltb, leb, All,
  arith, Bool-cases, inl, inr, ltb→lt, leb→le, ◌⊎◌,
}
use cpp_jam.Scheduler.Queue.{TimedTask, due, State, insert, extract_expired}

-- Due times do not fall, from `from` on.
abbrev pub IsOrdered : ℕ → List TimedTask → Type 0
IsOrdered from [] = Unit {0}
IsOrdered from (t ∷ ts) = (from ≤ due t) × IsOrdered (due t) ts

-- Behind a task that is due later, all are.
all_later : (a b : ℕ) (us : List TimedTask) → a < b → IsOrdered b us → All (λ u. a < due u) us
all_later a b [] h o = tt
all_later a b (u ∷ us) h o = (omega (arith, o.0), all_later a (due u) us (omega (arith, o.0)) o.1)

-- In a queue in the order of the due times a new task goes behind all tasks that are due no later, and in front of those that are due
-- later: tasks of one due time keep the order in which they came.
pub insert_split :
    (t : TimedTask) (ts : List TimedTask) (from : ℕ)
    → IsOrdered from ts
    → (xs : List TimedTask) × (ys : List TimedTask) × (ts ≡ xs ++ ys)
      × (insert t ts ≡ xs ++ (t ∷ ys))
      × All (λ u. due u ≤ due t) xs
      × All (λ u. due t < due u) ys
unfolding insert
insert_split t [] from h = ([], [], refl, refl, tt, tt)
insert_split t (u ∷ us) from h = elim (Bool-cases (ltb (due t) (due u))) [
  | inl later ↦ (
    [],
    u ∷ us,
    refl,
    rw later refl,
    tt,
    (ltb→lt (due t) (due u) later, all_later (due t) (due u) us (ltb→lt (due t) (due u) later) h.1),
  )
  | inr sooner ↦
      let (xs, ys, split, put, before, after) = insert_split t us (due u) h.1 in
      (
        u ∷ xs,
        ys,
        ap (◌∷◌ u) split,
        rw sooner (ap (◌∷◌ u) put),
        (ground (arith, sooner), before),
        after,
      )
]

pub insert-IsOrdered :
    (t : TimedTask) (ts : List TimedTask) (from : ℕ)
    → from ≤ due t
    → IsOrdered from ts
    → IsOrdered from (insert t ts)
unfolding insert
insert-IsOrdered t [] from h o = (h, tt)
insert-IsOrdered t (u ∷ us) from h o = elim (Bool-cases (ltb (due t) (due u))) [
  | inl later ↦ rw later (h, (ground (arith, later), o.1))
  | inr sooner ↦ rw sooner (o.0, insert-IsOrdered t us (due u) (ground (arith, sooner)) o.1)
]

all_from : (from : ℕ) (ts : List TimedTask) → IsOrdered from ts → All (λ u. from ≤ due u) ts
all_from from [] o = tt
all_from from (u ∷ us) o = (o.0, weaken_all from (due u) us o.0 (all_from (due u) us o.1))
  where
    weaken_all :
        (a b : ℕ) (us : List TimedTask) → a ≤ b → All (λ u. b ≤ due u) us → All (λ u. a ≤ due u) us
    weaken_all a b [] h all = tt
    weaken_all a b (u ∷ us) h all = (omega (arith, all.0), weaken_all a b us h all.1)

-- From a queue in the order of the due times, the thread takes the first task if it is due, and that is one that no other task is due before;
-- the rest of the queue stays. It takes none exactly if every task is due later, and then the queue stays as it is.
pub extract_expired_lem :
    (s : State)
    → IsOrdered 0 s.tasks
    → ((t : TimedTask) × (ts : List TimedTask) × (extract_expired s
          ≡ (some t, record s { tasks = ts; is_busy = true }))
        × (s.tasks ≡ t ∷ ts)
        × (due t ≤ s.now)
        × All (λ u. due t ≤ due u) ts)
      ⊎ ((extract_expired s ≡ (none, record s { is_busy = false }))
          × All (λ u. s.now < due u) s.tasks)
unfolding extract_expired
extract_expired_lem s o = by_tasks s.tasks refl o
  where
    nothing : List TimedTask → Option TimedTask × State
    nothing ts = (none, record s { tasks = ts; is_busy = false })

    by_tasks :
        (ts : List TimedTask)
        → s.tasks ≡ ts
        → IsOrdered 0 ts
        → ((t : TimedTask) × (rest : List TimedTask) × (extract_expired s
              ≡ (some t, record s { tasks = rest; is_busy = true }))
            × (ts ≡ t ∷ rest)
            × (due t ≤ s.now)
            × All (λ u. due t ≤ due u) rest)
          ⊎ ((extract_expired s ≡ (none, record s { is_busy = false }))
              × All (λ u. s.now < due u) ts)
    by_tasks [] e o = inr (rw (e, extract_expired) (ap nothing e), tt)
    by_tasks (t ∷ ts) e o = elim (Bool-cases (leb (due t) s.now)) [
      | inl expired ↦ inl (
        t,
        ts,
        rw (e, expired, extract_expired) refl,
        refl,
        leb→le (due t) s.now expired,
        all_from (due t) ts o.1,
      )
      | inr early ↦
          let later : s.now < due t = ground (arith, early) in
          inr (
            rw (e, early, extract_expired) (ap nothing e),
            (later, all_later s.now (due t) ts later o.1),
          )
    ]
