-- ===== src/Scheduler/Loop.antt =====
-- The thread's loop in `process`, with the event that it waits for and the flag that ends it.
use cpp_jam.Common.{ℕ, ◌+◌, ◌-◌, ◌≤◌, ◌≡◌, Bool, true, false, ◌&&◌, ◌||◌, Option, none, some}
use cpp_jam.Scheduler.Queue.{
  TimedTask, State, extract_expired, until_first, upload_if_free, add_delayed, repeat,
}
use cpp_jam.Scheduler.Steps.{began, ended, initial}

-- Between two places where another thread can act: before `extractExpired`, before `untilFirst`,
-- after it, when its lock is free and `wait` has not begun, in `wait` until a point of time, in a task,
-- before the test of the flag, behind the loop. `chosen` has the time at which `untilFirst` looked and
-- the duration that it gave. `waiting` has the point of time up to which the thread was to wait from
-- that look on, and the lag of the wait's beginning behind the look.
pub data At : Type 0 where
  looking : At
  deciding : At
  chosen : (looked_at duration : ℕ) → At
  waiting : (until lag : ℕ) → At
  running : At
  testing : At
  stopped : At

-- `signalled` is the event, `proceed` the flag.
pub record Loop : Type 0 where
  pub base : State
  pub at_ : At
  pub signalled : Bool
  pub proceed : Bool

abbrev pub after_look : Option TimedTask → At
after_look none = At.deciding
after_look (some t) = At.running

abbrev pub after_test : Bool → At
after_test true = At.looking
after_test false = At.stopped

-- Whether a result of `uploadIfFree` means that the task was added.
abbrev pub was_added : Option ℕ → Bool
was_added none = true
was_added (some task) = false

pub data Step : Loop → Loop → Type 0 where
  -- The thread.
  look :
      (l : Loop)
      → l.at_ ≡ At.looking
      → Step l (record l {
        base = began (extract_expired l.base);
        at_ = after_look (extract_expired l.base).0;
      })
  decide :
      (l : Loop)
      → l.at_ ≡ At.deciding
      → Step l (record l { at_ = At.chosen l.base.now (until_first l.base) })
  begin_wait :
      (l : Loop) (looked_at duration : ℕ)
      → l.at_ ≡ At.chosen looked_at duration
      → Step l (record l { at_ = At.waiting (looked_at + duration) (l.base.now - looked_at) })
  wake :
      (l : Loop) (until lag : ℕ)
      → l.at_ ≡ At.waiting until lag
      → l.signalled ≡ true
      → Step l (record l { at_ = At.testing; signalled = false })
  time_out :
      (l : Loop) (until lag : ℕ)
      → l.at_ ≡ At.waiting until lag
      → until + lag ≤ l.base.now
      → Step l (record l { at_ = At.testing; signalled = false })
  end :
      (l : Loop) (t : TimedTask) (again : Bool)
      → l.at_ ≡ At.running
      → l.base.running ≡ some t
      → Step l (record l {
        base = ended t (t.repeats && again) l.base;
        at_ = At.testing;
        signalled = t.repeats && again || l.signalled;
      })
  test :
      (l : Loop)
      → l.at_ ≡ At.testing
      → Step l (record l { at_ = after_test l.proceed; proceed = true })
  -- The callers, and the clock.
  delay :
      (l : Loop) (timeout number : ℕ)
      → Step l (record l { base = add_delayed timeout number l.base; signalled = true })
  start :
      (l : Loop) (timeout number : ℕ)
      → Step l (record l { base = repeat timeout number l.base; signalled = true })
  upload :
      (l : Loop) (timeout number : ℕ)
      → Step l (record l {
        base = (upload_if_free timeout number l.base).1;
        signalled = was_added (upload_if_free timeout number l.base).0 || l.signalled;
      })
  dispose : (l : Loop) → Step l (record l { signalled = true; proceed = false })
  tick : (l : Loop) (d : ℕ) → Step l (record l { base = record (l.base) { now = l.base.now + d } })

pub data Reach (now : ℕ) : Loop → Type 0 where
  here :
      Reach now (record { base = initial now; at_ = At.looking; signalled = false; proceed = true })
  more : {l l' : Loop} → Reach now l → Step l l' → Reach now l'
