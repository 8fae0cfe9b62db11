-- ===== src/Scheduler/Timely.antt =====
-- When the thread wakes up, and what the steps leave of the task that runs.
use mathlib.Core.Path.{subst}
use cpp_jam.Common.{
  ℕ, ◌+◌, ◌-◌, ◌*◌, ◌≤◌, ◌≡◌, ◌≢◌, refl, sym, ◌∙◌, ap, Bool, true, false, ◌||◌, List, [], ◌∷◌,
  Option, none, some, ltb, All, arith, Bool-cases, inl, inr, ◌⊎◌, if◌then◌else◌,
}
use cpp_jam.Scheduler.Queue.{
  TimedTask, due, State, add, extract_expired, until_first, upload_if_free,
}
use cpp_jam.Scheduler.Steps
use cpp_jam.Scheduler.Steps.{began, ended}
use cpp_jam.Scheduler.Order.{IsOrdered, extract_expired_lem}
use cpp_jam.Scheduler.Loop.{At, Loop, after_look, after_test, was_added}

-- A task does not become due before `deadline`, or that point of time has come.
abbrev pub IsTimely : ℕ → ℕ → TimedTask → Type 0
IsTimely deadline now t = (deadline ≤ due t) ⊎ (deadline ≤ now)

abbrev pub is_running : At → Bool
is_running At.running = true
is_running _ = false

-- For a thread that waits with a lag: a task does not become due before `until`, or the wait is over.
abbrev pub IsLate : ℕ → ℕ → ℕ → TimedTask → Type 0
IsLate until lag now t = (until ≤ due t) ⊎ (until + lag ≤ now)

-- What holds between two steps: the queue is that of a scheduler of the relation, only a running
-- thread runs a task, a thread that is going to wait or waits without a signal wakes up for every task no later
-- than the lag after it is due, and a loop that is to end has a signal or is about to see it.
pub record IsKept (start_ : ℕ) (l : Loop) : Type 0 where
  pub reached : Steps.Reach start_ l.base
  pub idle : is_running l.at_ ≡ false → l.base.running ≡ none
  pub timely :
      (until lag : ℕ)
      → l.at_ ≡ At.waiting until lag
      → (l.signalled ≡ true) ⊎ All (IsLate until lag l.base.now) l.base.tasks
  pub choice :
      (looked_at duration : ℕ)
      → l.at_ ≡ At.chosen looked_at duration
      → (looked_at ≤ l.base.now)
        × ((l.signalled ≡ true) ⊎ All (IsTimely (looked_at + duration) looked_at) l.base.tasks)
  pub ending : l.proceed ≡ false → (l.signalled ≡ true) ⊎ (l.at_ ≡ At.testing)

pub later-IsLate :
    (until lag now d : ℕ) (ts : List TimedTask)
    → All (IsLate until lag now) ts
    → All (IsLate until lag (now + d)) ts
later-IsLate until lag now d [] h = tt
later-IsLate until lag now d (t ∷ ts) (inl before, h) =
    (inl before, later-IsLate until lag now d ts h)
later-IsLate until lag now d (t ∷ ts) (inr come, h) =
    (inr (omega arith), later-IsLate until lag now d ts h)

-- The wait begins at `now`.
pub begun-IsLate :
    (until looked_at now : ℕ) (ts : List TimedTask)
    → looked_at ≤ now
    → All (IsTimely until looked_at) ts
    → All (IsLate until (now - looked_at) now) ts
begun-IsLate until looked_at now [] le h = tt
begun-IsLate until looked_at now (t ∷ ts) le (inl before, h) =
    (inl before, begun-IsLate until looked_at now ts le h)
begun-IsLate until looked_at now (t ∷ ts) le (inr come, h) =
    (inr (omega arith), begun-IsLate until looked_at now ts le h)

ordered-IsTimely :
    (deadline now from : ℕ) (ts : List TimedTask)
    → deadline ≤ from
    → IsOrdered from ts
    → All (IsTimely deadline now) ts
ordered-IsTimely deadline now from [] h o = tt
ordered-IsTimely deadline now from (t ∷ ts) h o =
    (inl (omega (arith, o.0)), ordered-IsTimely deadline now (due t) ts (omega (arith, o.0)) o.1)

come-IsTimely :
    (deadline now : ℕ) (ts : List TimedTask) → deadline ≤ now → All (IsTimely deadline now) ts
come-IsTimely deadline now [] h = tt
come-IsTimely deadline now (t ∷ ts) h = (inr h, come-IsTimely deadline now ts h)

-- The time that the thread chooses.
pub decided-IsTimely :
    (s : State) → IsOrdered 0 s.tasks → All (IsTimely (s.now + until_first s) s.now) s.tasks
unfolding until_first
decided-IsTimely s o = by_tasks s.tasks s.now o
  where
    by_tasks :
        (ts : List TimedTask) (now : ℕ)
        → IsOrdered 0 ts
        → All
            (IsTimely
              (now + elim ts [
                | [] ↦ 10 * 60 * 1000000
                | ◌∷◌ t us ↦ if ltb now (due t) then due t - now else 0
              ])
              now)
            ts
    by_tasks [] now o = tt
    by_tasks (t ∷ ts) now o = elim (Bool-cases (ltb now (due t))) [
      | inl later ↦
          let e : now + (due t - now) ≡ due t = ground (arith, later) in
          subst (λ x. All (IsTimely x now) (t ∷ ts))
            (sym e ∙ ap (λ b. now + (if b then due t - now else 0)) (sym later))
            (inl (omega arith), ordered-IsTimely (due t) now (due t) ts (omega arith) o.1)
      | inr over ↦
          subst (λ x. All (IsTimely x now) (t ∷ ts))
            (ap (λ b. now + (if b then due t - now else 0)) (sym over))
            (come-IsTimely (now + 0) now (t ∷ ts) (omega arith))
    ]

pub not_waiting : (o : Option TimedTask) (until lag : ℕ) → after_look o ≢ At.waiting until lag
not_waiting none until lag h = cc
not_waiting (some t) until lag h = cc

pub not_chosen : (o : Option TimedTask) (looked_at d : ℕ) → after_look o ≢ At.chosen looked_at d
not_chosen none looked_at d h = cc
not_chosen (some t) looked_at d h = cc

pub not_testing : (b : Bool) (until lag : ℕ) → after_test b ≢ At.waiting until lag
not_testing true until lag h = cc
not_testing false until lag h = cc

pub not_choosing : (b : Bool) (looked_at d : ℕ) → after_test b ≢ At.chosen looked_at d
not_choosing true looked_at d h = cc
not_choosing false looked_at d h = cc

not_running : (b : Bool) → is_running (after_test b) ≡ false
not_running true = refl
not_running false = refl

pub look-idle :
    (s : State) (o : Option TimedTask)
    → s.running ≡ none
    → is_running (after_look o) ≡ false
    → (began (o, s)).running ≡ none
look-idle s none h e = h
look-idle s (some t) h e = absurd (cc)

pub look-running :
    (s : State) → IsOrdered 0 s.tasks → s.running ≡ none → (extract_expired s).1.running ≡ none
look-running s ordered h = elim (extract_expired_lem s ordered) [
  | inl (t, ts, e, split, past, rest) ↦ ap (λ (x : Option TimedTask × State). x.1.running) e ∙ h
  | inr (e, rest) ↦ ap (λ (x : Option TimedTask × State). x.1.running) e ∙ h
]

pub end-running : (t : TimedTask) (again : Bool) (s : State) → (ended t again s).running ≡ none
unfolding add
end-running t false s = refl
end-running t true s = refl

-- A result of `uploadIfFree`: added, or all as before.
pub upload_cases :
    (timeout number : ℕ) (s : State)
    → ((was_added (upload_if_free timeout number s).0 ≡ true)
        ⊎ ((upload_if_free timeout number s).1 ≡ s))
      × ((upload_if_free timeout number s).1.running ≡ s.running)
      × ((upload_if_free timeout number s).1.now ≡ s.now)
unfolding upload_if_free add
upload_cases timeout number s = pick s.is_busy _ _ (inr refl, refl, refl) (inl refl, refl, refl)
  where
    pick :
        (b : Bool) (x y : Option ℕ × State)
        → ((was_added x.0 ≡ true) ⊎ (x.1 ≡ s)) × (x.1.running ≡ s.running) × (x.1.now ≡ s.now)
        → ((was_added y.0 ≡ true) ⊎ (y.1 ≡ s)) × (y.1.running ≡ s.running) × (y.1.now ≡ s.now)
        → ((was_added (if◌then◌else◌ {A = Option ℕ × State} b x y).0 ≡ true)
            ⊎ ((if◌then◌else◌ {A = Option ℕ × State} b x y).1 ≡ s))
          × ((if◌then◌else◌ {A = Option ℕ × State} b x y).1.running ≡ s.running)
          × ((if◌then◌else◌ {A = Option ℕ × State} b x y).1.now ≡ s.now)
    pick true x y hx hy = hx
    pick false x y hx hy = hy

pub add-running : (t : TimedTask) (s : State) → (add t s).running ≡ s.running
unfolding add
add-running t s = refl

pub add-now : (t : TimedTask) (s : State) → (add t s).now ≡ s.now
unfolding add
add-now t s = refl

pub or_true : (a b : Bool) → b ≡ true → (a || b) ≡ true
or_true true b h = refl
or_true false b h = h
