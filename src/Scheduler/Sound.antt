-- ===== src/Scheduler/Sound.antt =====
-- What every step of the scheduler's threads keeps.
use mathlib.Core.Path.{subst}
use cpp_jam.Common.{
  ℕ, ◌+◌, ◌≤◌, ◌<◌, ◌≡◌, refl, sym, ap, Bool, true, false, ◌||◌, ◌&&◌, List, [], ◌∷◌, Option, none,
  some, ltb, leb, ◌==◌, if◌then◌else◌, All, All-append, arith, Bool-cases, inl, inr, leb→le, ==_iff,
}
use cpp_jam.Scheduler.Queue.{TimedTask, due, State, insert, add, extract_expired, upload_if_free}
use cpp_jam.Scheduler.Steps.{
  Step, began, ended, begin, end, delay, start, upload, tick, Reach, here, more,
}
use cpp_jam.Scheduler.Order.{IsOrdered, insert-IsOrdered}

All-insert :
    (P : TimedTask → Type 0) (t : TimedTask) (ts : List TimedTask)
    → P t
    → All P ts
    → All P (insert t ts)
unfolding insert
All-insert P t [] p ps = (p, tt)
All-insert P t (u ∷ us) p ps = elim (Bool-cases (ltb (due t) (due u))) [
  | inl later ↦ rw later (p, ps)
  | inr sooner ↦ rw sooner (ps.0, All-insert P t us p ps.1)
]

All-map :
    (P Q : TimedTask → Type 0) (ts : List TimedTask)
    → ((t : TimedTask) → P t → Q t)
    → All P ts
    → All Q ts
All-map P Q [] f ps = tt
All-map P Q (t ∷ ts) f ps = (f t ps.0, All-map P Q ts f ps.1)

-- The queue is in order; tasks were created before now; the scheduler is busy while a task runs and while one
-- is queued that is due at once; and no task was taken before it was due.
pub record IsSound (s : State) : Type 0 where
  pub ordered : IsOrdered 0 s.tasks
  pub past : All (λ t. t.created ≤ s.now) s.tasks
  pub busy_running : (t : TimedTask) → s.running ≡ some t → s.is_busy ≡ true
  pub busy_now : All (λ t. t.timeout ≡ 0 → s.is_busy ≡ true) s.tasks
  pub on_time : All (λ p. due p.0 ≤ p.1) s.taken

add-IsSound : (t : TimedTask) (s : State) → t.created ≤ s.now → IsSound s → IsSound (add t s)
unfolding add
add-IsSound t s h sound = record {
  ordered = insert-IsOrdered t s.tasks 0 (omega arith) sound.ordered;
  past = All-insert _ t s.tasks h sound.past;
  busy_running = λ u e. stays (t.timeout == 0) s.is_busy (sound.busy_running u e);
  busy_now =
      All-insert _ t s.tasks (λ zero_. rw ((==_iff t.timeout 0).1 zero_) refl)
        (All-map _ _ s.tasks (λ u busy zero_. stays (t.timeout == 0) s.is_busy (busy zero_))
          sound.busy_now);
  on_time = sound.on_time;
}
  where
    stays : (b busy : Bool) → busy ≡ true → (b || busy) ≡ true
    stays true busy h = refl
    stays false busy h = h

-- Behind a task that is due later than now, none is due at once.
none_now :
    (now from : ℕ) (ts : List TimedTask)
    → now < from
    → IsOrdered from ts
    → All (λ t. t.created ≤ now) ts
    → All (λ t. t.timeout ≡ 0 → false ≡ true) ts
none_now now from [] h o p = tt
none_now now from (t ∷ ts) h o p = (
  λ zero_. absurd (omega (arith, o.0, p.0)),
  none_now now (due t) ts (omega (arith, o.0)) o.1 p.1,
)

abbrev idle : List TimedTask → Bool → ℕ → List (TimedTask × ℕ) → State
idle ts busy now taken = record {
  tasks = ts;
  is_busy = busy;
  now = now;
  running = none;
  taken = taken;
}

lower : (from : ℕ) (ts : List TimedTask) → IsOrdered from ts → IsOrdered 0 ts
lower from [] o = tt
lower from (t ∷ ts) o = (omega arith, o.1)

begin-IsSound :
    (ts : List TimedTask) (busy : Bool) (now : ℕ) (taken : List (TimedTask × ℕ))
    → IsSound (idle ts busy now taken)
    → IsSound (began (extract_expired (idle ts busy now taken)))
unfolding extract_expired
begin-IsSound [] busy now taken sound = record {
  ordered = tt;
  past = tt;
  busy_running = λ t e. absurd (cc);
  busy_now = tt;
  on_time = sound.on_time;
}
begin-IsSound (t ∷ ts) busy now taken sound = elim (Bool-cases (leb (due t) now)) [
  | inl expired ↦ rw expired (record {
    ordered = lower (due t) ts sound.ordered.1;
    past = sound.past.1;
    busy_running = λ u e. refl;
    busy_now = All-map _ _ ts (λ u busy zero_. refl) sound.past.1;
    on_time =
        All-append (λ p. due p.0 ≤ p.1) taken ((t, now) ∷ []) sound.on_time
          (leb→le (due t) now expired, tt);
  })
  | inr early ↦
      let later : now < due t = ground (arith, early) in
      rw early (record {
        ordered = sound.ordered;
        past = sound.past;
        busy_running = λ u e. absurd (cc);
        busy_now = (
          λ zero_. absurd (omega (arith, sound.past.0)),
          none_now now (due t) ts later sound.ordered.1 sound.past.1,
        );
        on_time = sound.on_time;
      })
]

without_running-IsSound : (s : State) → IsSound s → IsSound (record s { running = none })
without_running-IsSound s sound = record {
  ordered = sound.ordered;
  past = sound.past;
  busy_running = λ t e. absurd (cc);
  busy_now = sound.busy_now;
  on_time = sound.on_time;
}

ended-IsSound : (t : TimedTask) (again : Bool) (s : State) → IsSound s → IsSound (ended t again s)
ended-IsSound t false s sound = without_running-IsSound s sound
ended-IsSound t true s sound =
    add-IsSound (record t { created = s.now }) (record s { running = none }) (omega arith)
      (without_running-IsSound s sound)

upload-IsSound :
    (s : State) (timeout number : ℕ) → IsSound s → IsSound (upload_if_free timeout number s).1
unfolding upload_if_free
upload-IsSound s timeout number sound = either s.is_busy sound (
    add-IsSound (record { created = s.now; timeout = timeout; repeats = false; number = number }) s
      (omega arith) sound)
  where
    chosen : Bool → State → State → Option ℕ × State
    chosen busy a b = if busy then (some number, a) else (none, b)

    either : (busy : Bool) {a b : State} → IsSound a → IsSound b → IsSound (chosen busy a b).1
    either true sound_a sound_b = sound_a
    either false sound_a sound_b = sound_b

tick-IsSound : (s : State) (d : ℕ) → IsSound s → IsSound (record s { now = s.now + d })
tick-IsSound s d sound = record {
  ordered = sound.ordered;
  past = All-map _ _ s.tasks (λ t h. omega arith) sound.past;
  busy_running = sound.busy_running;
  busy_now = sound.busy_now;
  on_time = sound.on_time;
}

Step-IsSound : {s s' : State} → Step s s' → IsSound s → IsSound s'
Step-IsSound (begin s free) sound =
    let is_idle : s ≡ idle s.tasks s.is_busy s.now s.taken =
      ap (λ r. record s { running = r }) free in
    subst (λ x. IsSound (began (extract_expired x))) (sym is_idle)
      (begin-IsSound s.tasks s.is_busy s.now s.taken (subst IsSound is_idle sound))
Step-IsSound (end s t again e) sound = ended-IsSound t (t.repeats && again) s sound
Step-IsSound (delay s timeout number) sound = add-IsSound _ s (omega arith) sound
Step-IsSound (start s timeout number) sound = add-IsSound _ s (omega arith) sound
Step-IsSound (upload s timeout number) sound = upload-IsSound s timeout number sound
Step-IsSound (tick s d) sound = tick-IsSound s d sound

pub Reach-IsSound : {now : ℕ} {s : State} → Reach now s → IsSound s
Reach-IsSound here = record {
  ordered = tt;
  past = tt;
  busy_running = λ t e. absurd (cc);
  busy_now = tt;
  on_time = tt;
}
Reach-IsSound (more reached step) = Step-IsSound step (Reach-IsSound reached)
