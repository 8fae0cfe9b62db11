-- ===== src/Scheduler/LoopTests.antt =====
-- A run of the thread's loop: it looks at an empty queue, waits, and gets a task.
use cpp_jam.Common.{ℕ, ◌+◌, ◌*◌, ◌≡◌, refl, true, false, [], ◌∷◌, none, arith, inl}
use cpp_jam.Scheduler.Queue.{TimedTask, insert, add, extract_expired, until_first}
use cpp_jam.Scheduler.Steps.{initial}
use cpp_jam.Scheduler.Loop
use cpp_jam.Scheduler.Loop.{At, Loop, Step, look, decide, begin_wait, delay, tick, Reach}
use cpp_jam.Scheduler.Wakes.{no_oversleep}

program : Unit {0}
unfolding insert add extract_expired until_first
program = tt

abbrev task : TimedTask
task = record { created = 12; timeout = 5; repeats = false; number = 1 }

abbrev deadline : ℕ
deadline = 10 + 10 * 60 * 1000000

-- The thread is to wait for ten minutes, and begins two microseconds after it has looked.
abbrev asleep : Loop
asleep = record {
  base = initial 12;
  at_ = At.waiting deadline 2;
  signalled = false;
  proceed = true;
}

asleep-Reach : Reach 10 asleep
unfolding program
asleep-Reach =
    Loop.more (Loop.more (Loop.more (Loop.more Loop.here (look _ refl)) (decide _ refl)) (tick _ 2))
      (begin_wait _ 10 (10 * 60 * 1000000) refl)

-- A task comes, and seven microseconds pass.
abbrev overdue : Loop
overdue = record {
  base = record { tasks = task ∷ []; is_busy = false; now = 19; running = none; taken = [] };
  at_ = At.waiting deadline 2;
  signalled = true;
  proceed = true;
}

overdue-Reach : Reach 10 overdue
unfolding program
overdue-Reach = Loop.more (Loop.more asleep-Reach (delay asleep 5 1)) (tick _ 7)

no_oversleep_example :
    (l' : Loop) × Step overdue l' × (l'.at_ ≡ At.testing) × (l'.base ≡ overdue.base)
no_oversleep_example =
    no_oversleep 10 0 deadline 2 overdue task overdue-Reach refl refl (inl (omega arith))
