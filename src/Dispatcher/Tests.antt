-- ===== src/Dispatcher/Tests.antt =====
-- A dispatcher with two handlers and a pool of two, and the theorems at it.
use cpp_jam.Common.{
  ℕ, List, All, ◌≢◌, ◌≤◌, ◌≡◌, refl, Bool, true, false, [], ◌∷◌, none, some, ◌==◌, arith,
}
use cpp_jam.Common.Maps.{find, assign, remove}
use cpp_jam.Scheduler.Queue.{State}
use cpp_jam.Dispatcher.Tasks.{
  Dispatcher, upload_to_handler, bind, unbind, Call, binds, unbinds, run,
}
use cpp_jam.Dispatcher.Placed.{GoesTo, IsPlaced, upload-IsPlaced}
use cpp_jam.Dispatcher.Runs.{bind-IsPlaced, unbind-bind}

abbrev scheduler : Bool → State
scheduler busy = record { tasks = []; is_busy = busy; now = 10; running = none; taken = [] }

-- Object 2, the first of the pool, is busy.
abbrev dispatcher : Dispatcher
dispatcher = record {
  schedulers = λ r. scheduler (r == 2);
  handlers = 0 ∷ 1 ∷ [];
  pool = 2 ∷ 3 ∷ [];
  next_tid_offset = 0;
  contexts = [];
  temporary_tasks = 0;
  next_object = 10;
  now = 10;
  is_disposed = false;
}

upload-IsPlaced_example :
    (d' : Dispatcher) × (upload_to_handler 100 5 7 false dispatcher ≡ some d')
    × (r : ℕ) × (s : State) × (again : Bool) × GoesTo 100 false dispatcher r s again
    × IsPlaced r s again 5 7 dispatcher d'
upload-IsPlaced_example = upload-IsPlaced 100 5 7 false dispatcher refl refl

-- Objects 8 and 9 are bound, and the first is unbound.
abbrev calls : List Call
calls = binds (some 8) ∷ binds (some 9) ∷ unbinds 2 ∷ []

ids : (run calls dispatcher).0 ≡ 2 ∷ 3 ∷ []
unfolding run bind unbind assign remove find
ids = refl

third : (bind (some 6) (run calls dispatcher).1).0 ≡ some 4
unfolding run bind unbind assign remove find
third = refl

bind-IsPlaced_example :
    (tid : ℕ) × (d' : Dispatcher) × ((bind (some 6) (run calls dispatcher).1).0 ≡ some tid)
    × (2 ≤ tid)
    × (find tid (run calls dispatcher).1.contexts ≡ none)
    × All (λ id. id ≢ tid) (run calls dispatcher).0
    × (upload_to_handler tid 5 7 true (bind (some 6) (run calls dispatcher).1).1 ≡ some d')
    × IsPlaced 6
        ((run calls dispatcher).1.schedulers 6)
        true
        5
        7
        (bind (some 6) (run calls dispatcher).1).1
        d'
bind-IsPlaced_example = bind-IsPlaced calls 6 5 7 true dispatcher refl refl (omega arith)

unbind-bind_example :
    ((unbind 4 (bind (some 6) (run calls dispatcher).1).1).0 ≡ true)
    × ((o : ℕ)
        → find o (unbind 4 (bind (some 6) (run calls dispatcher).1).1).1.contexts
          ≡ find o (run calls dispatcher).1.contexts)
unbind-bind_example = unbind-bind calls 6 4 dispatcher refl (omega arith) third
