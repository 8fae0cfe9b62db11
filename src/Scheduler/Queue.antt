-- ===== src/Scheduler/Queue.antt =====
-- `SchedulerBase`: the queue and its operations. Times are microseconds since the clock's start.
use cpp_jam.Common.{
  ℕ, ◌+◌, ◌-◌, ◌*◌, Bool, true, false, ◌||◌, List, [], ◌∷◌, Option, none, some, ltb, leb, ◌==◌,
  if◌then◌else◌,
}

-- A task by its number. `repeats` says that it has a predicate.
pub record TimedTask : Type 0 where
  pub created : ℕ
  pub timeout : ℕ
  pub repeats : Bool
  pub number : ℕ

abbrev pub due : TimedTask → ℕ
due t = t.created + t.timeout

-- The members, the clock, the task that the thread runs, if any, and the log of the calls: each task
-- with the time when it was taken.
pub record State : Type 0 where
  pub tasks : List TimedTask
  pub is_busy : Bool
  pub now : ℕ
  pub running : Option TimedTask
  pub taken : List (TimedTask × ℕ)

-- `insert(after(due), task)`: in front of the first task that is due later.
unfoldable pub insert : TimedTask → List TimedTask → List TimedTask
insert t [] = t ∷ []
insert t (u ∷ us) = let rest = insert t us in if ltb (due t) (due u) then t ∷ u ∷ us else u ∷ rest

unfoldable pub add : TimedTask → State → State
add t s = record s { tasks = insert t s.tasks; is_busy = t.timeout == 0 || s.is_busy }

-- The first task, if it is due: it leaves the queue.
unfoldable pub extract_expired : State → Option TimedTask × State
extract_expired s = elim s.tasks [
  | [] ↦ (none, record s { is_busy = false })
  | ◌∷◌ t ts ↦
      if leb (due t) s.now
      then (some t, record s { tasks = ts; is_busy = true })
      else (none, record s { is_busy = false })
]

-- The time that the thread waits for an event, ten minutes when there is no task.
unfoldable pub until_first : State → ℕ
until_first s = elim s.tasks [
  | [] ↦ 10 * 60 * 1000000
  | ◌∷◌ t ts ↦ if ltb s.now (due t) then due t - s.now else 0
]

-- The task comes back when the scheduler is busy.
unfoldable pub upload_if_free : ℕ → ℕ → State → Option ℕ × State
upload_if_free timeout number s = if s.is_busy then (some number, s) else (
  none,
  add (record { created = s.now; timeout = timeout; repeats = false; number = number }) s,
)

abbrev pub add_delayed : ℕ → ℕ → State → State
add_delayed timeout number s =
    add (record { created = s.now; timeout = timeout; repeats = false; number = number }) s

abbrev pub repeat : ℕ → ℕ → State → State
repeat timeout number s =
    add (record { created = s.now; timeout = timeout; repeats = true; number = number }) s
