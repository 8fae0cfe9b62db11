-- ===== src/Scheduler/Tests.antt =====
-- A queue of three tasks, and the theorems at it.
use cpp_jam.Common.{ℕ, ◌+◌, ◌≤◌, ◌≡◌, refl, false, List, [], ◌∷◌, none, some, All, arith}
use cpp_jam.Scheduler.Queue.{
  TimedTask, due, State, insert, add, extract_expired, upload_if_free, until_first, add_delayed,
}
use cpp_jam.Scheduler.Steps.{began, begin, delay, tick, Reach, here, more, initial}
use cpp_jam.Scheduler.Order.{IsOrdered}
use cpp_jam.Scheduler.Reachable.{taken_on_time}

program : Unit {0}
unfolding insert add extract_expired upload_if_free until_first
program = tt

abbrev task : ℕ → ℕ → TimedTask
task timeout number = record { created = 10; timeout = timeout; repeats = false; number = number }

-- A task goes behind the one that is due at the same time.
abbrev queue : List TimedTask
queue = task 5 1 ∷ task 7 2 ∷ task 9 3 ∷ []

inserted : insert (task 7 4) queue ≡ task 5 1 ∷ task 7 2 ∷ task 7 4 ∷ task 9 3 ∷ []
unfolding program
inserted = refl

queue-IsOrdered : IsOrdered 0 queue
queue-IsOrdered = omega arith

abbrev state : State
state = record { tasks = queue; is_busy = false; now = 16; running = none; taken = [] }

-- A delayed task, five microseconds, and the task begins.
abbrev delayed : State
delayed = add_delayed 5 1 (initial 10)

abbrev begun : State
begun = began (extract_expired (record delayed { now = delayed.now + 5 }))

begun-Reach : Reach 10 begun
unfolding add
begun-Reach = more (more (more here (delay (initial 10) 5 1)) (tick delayed 5)) (begin _ refl)

began_it : (begun.running ≡ some (task 5 1)) × (begun.taken ≡ (task 5 1, 15) ∷ [])
unfolding program
began_it = (refl, refl)

taken_on_time_example : IsOrdered 0 begun.tasks × All (λ p. due p.0 ≤ p.1) begun.taken
taken_on_time_example = taken_on_time 10 begun begun-Reach

delayed-Reach : Reach 10 delayed
delayed-Reach = more here (delay (initial 10) 5 1)

delayed_free : delayed.is_busy ≡ false
unfolding add
delayed_free = refl
