-- ===== src/Dispatcher/Tasks.antt =====
-- `AsyncDispatcher`. A scheduler object is a number, and `schedulers` gives its state, so that two
-- thread ids can be bound to one object.
use cpp_jam.Common.{
  ℕ, suc, ◌-◌, ◌&&◌, ◌+◌, ◌%◌, ◌^◌, Bool, true, false, List, [], ◌∷◌, Option, none, some,
  if◌then◌else◌, ◌==◌, length, get_elem?,
}
use cpp_jam.Common.Maps.{find, assign, remove}
use cpp_jam.Scheduler.Queue
use cpp_jam.Scheduler.Queue.{State}
use cpp_jam.Scheduler.Steps.{initial}

-- `handlers`, `pool` and `contexts` hold scheduler objects, `next_object` is the number of the next
-- temporary one, and `now` what the clock shows to it.
pub record Dispatcher : Type 0 where
  pub schedulers : ℕ → State
  pub handlers : List ℕ
  pub pool : List ℕ
  pub next_tid_offset : ℕ
  pub contexts : List (ℕ × ℕ)
  pub temporary_tasks : ℕ
  pub next_object : ℕ
  pub now : ℕ
  pub is_disposed : Bool

abbrev pub update : ℕ → State → (ℕ → State) → ℕ → State
update r s schedulers o = if r == o then s else schedulers o

-- `pred ? repeat(...) : addDelayed(...)`.
unfoldable pub give : Bool → ℕ → ℕ → State → State
give true timeout task s = Queue.repeat timeout task s
give false timeout task s = Queue.add_delayed timeout task s

unfoldable pub give_to : ℕ → Bool → ℕ → ℕ → Dispatcher → Dispatcher
give_to r repeats timeout task d = record d {
  schedulers = update r (give repeats timeout task (d.schedulers r)) d.schedulers;
}

-- `uploadIfFree` on one object.
unfoldable pub offer_to : ℕ → ℕ → ℕ → Dispatcher → Option ℕ × Dispatcher
offer_to r timeout task d =
    let result = Queue.upload_if_free timeout task (d.schedulers r) in
    (result.0, record d { schedulers = update r result.1 d.schedulers })

-- The loop over the pool: the task comes back when all are busy.
unfoldable pub offer : List ℕ → ℕ → ℕ → Dispatcher → Option ℕ × Dispatcher
offer [] timeout task d = (some task, d)
offer (r ∷ rs) timeout task d =
    let result = offer_to r timeout task d in
    elim result.0 [ none ↦ (none, result.1) | some task' ↦ offer rs timeout task' result.1 ]

-- A new scheduler with a thread of its own, for one task.
unfoldable pub add_temporary : ℕ → ℕ → Dispatcher → Dispatcher
add_temporary timeout task d = record d {
  schedulers = update d.next_object (give false timeout task (initial d.now)) d.schedulers;
  temporary_tasks = suc d.temporary_tasks;
  next_object = suc d.next_object;
}

unfoldable pub in_pool : ℕ → Option ℕ × Dispatcher → Dispatcher
in_pool timeout (none, d) = d
in_pool timeout (some task, d) = add_temporary timeout task d

unfoldable pub to_context : Bool → ℕ → ℕ → Dispatcher → Option ℕ → Dispatcher
to_context repeats timeout task d (some r) = give_to r repeats timeout task d
to_context repeats timeout task d none = in_pool timeout (offer d.pool timeout task d)

-- The handler with the number `tid`, when there are that many.
unfoldable pub to_handler : ℕ → Bool → ℕ → ℕ → Dispatcher → Option ℕ → Dispatcher
to_handler tid repeats timeout task d (some r) = give_to r repeats timeout task d
to_handler tid repeats timeout task d none = to_context repeats timeout task d (find tid d.contexts)

unfoldable pub upload_if_live : ℕ → ℕ → ℕ → Bool → Dispatcher → Dispatcher
upload_if_live tid timeout task repeats d =
    if d.is_disposed then d else to_handler tid repeats timeout task d (get_elem? d.handlers tid)

-- `kExecuteInPool`.
abbrev pub execute_in_pool : ℕ
execute_in_pool = 2 ^ 32 - 1

-- None when the assertion fails, that no task is to be repeated in the pool.
unfoldable pub upload_to_handler : ℕ → ℕ → ℕ → Bool → Dispatcher → Option Dispatcher
upload_to_handler tid timeout task repeats d =
    if tid == execute_in_pool && repeats
    then none
    else some (upload_if_live tid timeout task repeats d)

unfoldable pub add : ℕ → ℕ → Dispatcher → Option Dispatcher
add tid task d = upload_to_handler tid 0 task false d

unfoldable pub add_delayed : ℕ → ℕ → ℕ → Dispatcher → Option Dispatcher
add_delayed tid timeout task d = upload_to_handler tid timeout task false d

unfoldable pub repeat : ℕ → ℕ → ℕ → Dispatcher → Option Dispatcher
repeat tid timeout task d = upload_to_handler tid timeout task true d

-- Thread ids are 32-bit numbers, those of bound schedulers behind those of the handlers. An empty
-- pointer is bound to nothing. The code asserts that the id is not in use: without assertions an id that
-- is in use again, after the ids have wrapped round, is bound anew.
unfoldable pub bind : Option ℕ → Dispatcher → Option ℕ × Dispatcher
bind none d = (none, d)
bind (some r) d =
    let tid = (length d.handlers + d.next_tid_offset) % 2 ^ 32 in
    (
      some tid,
      record d {
        contexts = assign tid r d.contexts;
        next_tid_offset = suc d.next_tid_offset % 2 ^ 32;
      },
    )

abbrev is_some : Option ℕ → Bool
is_some none = false
is_some (some r) = true

-- `erase(tid) == 1`.
unfoldable pub unbind : ℕ → Dispatcher → Bool × Dispatcher
unbind tid d = (is_some (find tid d.contexts), record d { contexts = remove tid d.contexts })

-- Calls of `bind` and `unbind` one after another: the ids that were given, and the dispatcher.
pub data Call : Type 0 where
  binds : Option ℕ → Call
  unbinds : (tid : ℕ) → Call

abbrev pub with_id : Option ℕ → List ℕ → List ℕ
with_id none ids = ids
with_id (some id) ids = id ∷ ids

unfoldable pub run : List Call → Dispatcher → List ℕ × Dispatcher
run [] d = ([], d)
run (binds o ∷ cs) d = let rest = run cs (bind o d).1 in (with_id (bind o d).0 rest.0, rest.1)
run (unbinds tid ∷ cs) d = run cs (unbind tid d).1
