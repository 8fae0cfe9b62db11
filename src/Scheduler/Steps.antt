-- ===== src/Scheduler/Steps.antt =====
-- The threads' steps. Each holds the lock while it changes the queue, so they come one after another;
-- the tasks themselves run without it.
use cpp_jam.Common.{ℕ, ◌+◌, ◌≡◌, Bool, true, false, [], ◌∷◌, ◌++◌, Option, ◌&&◌, none, some}
use cpp_jam.Scheduler.Queue.{
  TimedTask, State, add, extract_expired, upload_if_free, add_delayed, repeat,
}

-- `process` takes a task and calls it, or goes to wait.
abbrev pub began : Option TimedTask × State → State
began (none, s) = s
began (some t, s) = record s { running = some t; taken = s.taken ++ (t, s.now) ∷ [] }

-- After the call: a task with a predicate that held goes back into the queue, from now on.
abbrev pub ended : TimedTask → Bool → State → State
ended t false s = record s { running = none }
ended t true s = add (record t { created = s.now }) (record s { running = none })

-- A step of the thread (`begin`, `end`), of any caller, or of the clock. A task's exception and a
-- predicate that does not hold end it without another turn.
pub data Step : State → State → Type 0 where
  begin : (s : State) → s.running ≡ none → Step s (began (extract_expired s))
  end :
      (s : State) (t : TimedTask) (again : Bool)
      → s.running ≡ some t
      → Step s (ended t (t.repeats && again) s)
  delay : (s : State) (timeout number : ℕ) → Step s (add_delayed timeout number s)
  start : (s : State) (timeout number : ℕ) → Step s (repeat timeout number s)
  upload : (s : State) (timeout number : ℕ) → Step s (upload_if_free timeout number s).1
  tick : (s : State) (d : ℕ) → Step s (record s { now = s.now + d })

abbrev pub initial : ℕ → State
initial now = record { tasks = []; is_busy = false; now = now; running = none; taken = [] }

pub data Reach (now : ℕ) : State → Type 0 where
  here : Reach now (initial now)
  more : {s s' : State} → Reach now s → Step s s' → Reach now s'
