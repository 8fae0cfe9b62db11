-- ===== src/Scheduler/Reachable.antt =====
-- What holds in every state that the scheduler's threads reach.
use cpp_jam.Common.{
  ℕ, ◌≤◌, ◌<◌, ◌≡◌, refl, Bool, true, false, List, [], ◌∷◌, Option, none, some, ltb, All, arith,
  Bool-cases, inl, inr, ltb→lt,
}
use cpp_jam.Scheduler.Queue.{TimedTask, due, State}
use cpp_jam.Scheduler.Steps.{Reach}
use cpp_jam.Scheduler.Order.{IsOrdered}
use cpp_jam.Scheduler.Sound.{Reach-IsSound}

-- In every reachable state the queue is in the order of the due times, and no task has been taken
-- before it was due.
pub taken_on_time :
    (now : ℕ) (s : State) → Reach now s → IsOrdered 0 s.tasks × All (λ p. due p.0 ≤ p.1) s.taken
taken_on_time now s reached = let sound = Reach-IsSound reached in (sound.ordered, sound.on_time)

no_zero :
    (ts : List TimedTask) (busy : Bool)
    → busy ≡ false
    → All (λ t. t.timeout ≡ 0 → busy ≡ true) ts
    → All (λ t. 0 < t.timeout) ts
no_zero [] busy free h = tt
no_zero (t ∷ ts) busy free h = elim (Bool-cases (ltb 0 t.timeout)) [
  | inl later ↦ (ltb→lt 0 t.timeout later, no_zero ts busy free h.1)
  | inr at_once ↦
      let zero_ : t.timeout ≡ 0 = ground (arith, at_once) in let busy' = h.0 zero_ in absurd (cc)
]

not_running :
    (running : Option TimedTask) (busy : Bool)
    → busy ≡ false
    → ((t : TimedTask) → running ≡ some t → busy ≡ true)
    → running ≡ none
not_running none busy free h = refl
not_running (some t) busy free h = let busy' = h t refl in absurd (cc)

-- A reachable scheduler that is free runs no task and has none queued that is due at once. So a
-- task that `uploadIfFree` accepts does not wait behind one of these.
pub free_is_idle :
    (now : ℕ) (s : State)
    → Reach now s
    → s.is_busy ≡ false
    → (s.running ≡ none) × All (λ t. 0 < t.timeout) s.tasks
free_is_idle now s reached free =
    let sound = Reach-IsSound reached in
    (
      not_running s.running s.is_busy free sound.busy_running,
      no_zero s.tasks s.is_busy free sound.busy_now,
    )
