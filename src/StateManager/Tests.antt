-- ===== src/StateManager/Tests.antt =====
-- A run that is stopped while it works, and one whose preparation fails.
use cpp_jam.Common.{
  ℕ, ◌≡◌, refl, Bool, true, false, not, ◌&&◌, [], ◌∷◌, ◌++◌, ok, err, if◌then◌else◌,
}
use cpp_jam.StateManager.Stages.{
  init, ready_to_stop, works, Callback, State, Requests, waiting, stopped, call, call_all,
  do_prepare, do_launch, do_shutdown, wait_and_stop, check_stop, run, shutdown, at_prepare,
  at_launch, at_shutdown, late_prepare, late_launch, late_shutdown, running_prepare,
  not_ready_to_stop,
}
use cpp_jam.StateManager.Runs.{run_lem, is_working, ran_before}
use cpp_jam.StateManager.Callbacks.{numbers}
use cpp_jam.StateManager.Stopped.{run-stopped}

program : Unit {0}
unfolding call call_all do_prepare do_launch do_shutdown wait_and_stop check_stop run
program = tt

abbrev callback : ℕ → Bool → Callback
callback n success = record {
  number = n;
  success = success;
  stops_before = false;
  stops_during = false;
}

-- Callback 2 fails.
abbrev manager : State
manager = record {
  stage = init;
  is_shared = true;
  on_prepare = callback 1 true ∷ callback 2 false ∷ callback 3 true ∷ [];
  on_launch = callback 4 true ∷ [];
  on_shutdown = callback 5 true ∷ callback 6 true ∷ [];
  ran = [];
}

abbrev no_requests : Requests
no_requests = record {
  at_start = false;
  at_prepare_end = false;
  before_launch = false;
  at_launch_end = false;
  before_wait = false;
  while_waiting = false;
  after_shutdown = false;
}

abbrev failed : State
failed = record {
  stage = ready_to_stop;
  is_shared = true;
  on_prepare = [];
  on_launch = [];
  on_shutdown = [];
  ran = 1 ∷ 2 ∷ 5 ∷ 6 ∷ [];
}

fails : run no_requests manager ≡ ok (stopped failed)
unfolding program
fails = refl

run_lem_example : run no_requests manager ≡ (
    if is_working no_requests manager && not false
    then ok (
        waiting (record manager {
          stage = works;
          on_prepare = [];
          on_launch = [];
          ran = ran_before no_requests manager;
        }))
    else if no_requests.after_shutdown
    then err not_ready_to_stop
    else ok (
        stopped (record manager {
          stage = ready_to_stop;
          on_prepare = [];
          on_launch = [];
          on_shutdown = [];
          ran = ran_before no_requests manager ++ numbers manager.on_shutdown;
        })))
run_lem_example = run_lem no_requests manager refl refl

run-stopped_example :
    (failed.stage ≡ ready_to_stop)
    × ((failed.on_prepare ≡ []) × (failed.on_launch ≡ []) × (failed.on_shutdown ≡ []))
    × ((cb : Callback)
        → (at_prepare cb failed ≡ err late_prepare)
          × (at_launch cb failed ≡ err late_launch)
          × (at_shutdown cb failed ≡ err late_shutdown))
    × (shutdown failed ≡ failed)
    × ((q : Requests) → run q failed ≡ err running_prepare)
run-stopped_example = run-stopped no_requests manager failed fails

-- A manager whose callbacks all succeed waits, and stops after a request.
abbrev healthy : State
healthy = record manager { on_prepare = callback 1 true ∷ [] }

waits :
    (run no_requests healthy
      ≡ ok (
          waiting
            (record healthy { stage = works; on_prepare = []; on_launch = []; ran = 1 ∷ 4 ∷ [] })))
    × (run (record no_requests { while_waiting = true }) healthy
        ≡ ok (stopped (record failed { ran = 1 ∷ 4 ∷ 5 ∷ 6 ∷ [] })))
unfolding program
waits = (refl, refl)
