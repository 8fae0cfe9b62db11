-- ===== src/Scheduler/Wakes.antt =====
-- The thread does not sleep through a task, and `dispose` ends its loop.
use cpp_jam.Common.{
  ℕ, ◌+◌, ◌⊎◌, ◌≤◌, ◌≡◌, refl, sym, ◌∙◌, ap, true, false, List, some, All, All-get_elem?, get_elem?,
  arith, inl, inr,
}
use cpp_jam.Scheduler.Queue.{TimedTask, due}
use cpp_jam.Scheduler.Steps
use cpp_jam.Scheduler.Steps.{began, ended}
use cpp_jam.Scheduler.Timely.{IsLate}
use cpp_jam.Scheduler.Loop.{At, Loop, after_test, Step, wake, time_out, test, Reach}
use cpp_jam.Scheduler.Kept.{still_signalled, Reach-IsKept}

-- The thread's loop works on the queue as the relation of the steps says: whatever queue it reaches, the relation reaches too.
loop_refines : (now : ℕ) (l : Loop) → Reach now l → Steps.Reach now l.base
loop_refines now l reached = (Reach-IsKept reached).reached

due_now :
    (until lag now i : ℕ) (ts : List TimedTask) (t : TimedTask)
    → All (IsLate until lag now) ts
    → get_elem? ts i ≡ some t
    → due t + lag ≤ now
    → until + lag ≤ now
due_now until lag now i ts t all there past =
    elim (All-get_elem? (IsLate until lag now) ts i t all there) [
      | inl before ↦ omega arith
      | inr come ↦ come
    ]

-- The thread does not sleep through a task: whatever steps were made, when a task of the queue has been due for as long as the lag between the thread's look at the
-- queue and the beginning of its wait, the thread that waits has its next step and leaves the wait. After a signal it
-- has this step at once.
pub no_oversleep :
    (now i until lag : ℕ) (l : Loop) (t : TimedTask)
    → Reach now l
    → l.at_ ≡ At.waiting until lag
    → get_elem? l.base.tasks i ≡ some t
    → (due t + lag ≤ l.base.now) ⊎ (l.signalled ≡ true)
    → (l' : Loop) × Step l l' × (l'.at_ ≡ At.testing) × (l'.base ≡ l.base)
no_oversleep now i until lag l t reached at_ there (inr signalled) =
    (_, wake l until lag at_ signalled, refl, refl)
no_oversleep now i until lag l t reached at_ there (inl past) =
    elim ((Reach-IsKept reached).timely until lag at_) [
      | inl signalled ↦ (_, wake l until lag at_ signalled, refl, refl)
      | inr all ↦ (
        _,
        time_out l until lag at_ (due_now until lag l.base.now i l.base.tasks t all there past),
        refl,
        refl,
      )
    ]

-- After `dispose` a thread that waits ends its loop in two steps, however long it was to wait and whatever is queued.
dispose_stops :
    (now until lag : ℕ) (l : Loop)
    → Reach now l
    → l.at_ ≡ At.waiting until lag
    → l.proceed ≡ false
    → (l1 : Loop) × (l2 : Loop) × Step l l1 × Step l1 l2 × (l2.at_ ≡ At.stopped)
dispose_stops now until lag l reached at_ ended_ =
    let signalled =
      still_signalled l (Reach-IsKept reached)
        (λ testing. let h : At.waiting until lag ≡ At.testing = sym at_ ∙ testing in cc) ended_ in
    (_, _, wake l until lag at_ signalled, test _ refl, ap after_test ended_)
