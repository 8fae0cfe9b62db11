-- ===== src/StateManager/Stages.antt =====
-- `StateManagerImpl`: registration, the three stages, `run` and `shutdown`.
use cpp_jam.Common.{
  ℕ, Bool, not, ◌&&◌, ◌||◌, List, [], ◌∷◌, ◌++◌, map, Result, ok, ◌>>=◌, ◌>>◌, fail_if, ltb, ◌==◌,
  if◌then◌else◌,
}

-- `StateManager::State`, in the order that the code compares by.
pub data Stage : Type 0 where
  init prepare ready_to_start starting works shutting_down ready_to_stop : Stage

abbrev pub rank : Stage → ℕ
rank init = 0
rank prepare = 1
rank ready_to_start = 2
rank starting = 3
rank works = 4
rank shutting_down = 5
rank ready_to_stop = 6

abbrev pub is_stage : Stage → Stage → Bool
is_stage a b = rank a == rank b

-- `AppStateException`, and the `logic_error`s of `run`.
pub data Throw : Type 0 where
  late_prepare late_launch late_shutdown running_prepare running_launch running_shutdown : Throw
  not_shared not_ready_to_stop : Throw

-- A callback, by its number: its result, and whether `shutdown()` is called before the stage is
-- looked at or while it runs, by itself, a signal or another thread.
pub record Callback : Type 0 where
  pub number : ℕ
  pub success : Bool
  pub stops_before : Bool
  pub stops_during : Bool

-- The members, and `ran`, the numbers of the callbacks called so far.
pub record State : Type 0 where
  pub stage : Stage
  pub is_shared : Bool
  pub on_prepare : List Callback
  pub on_launch : List Callback
  pub on_shutdown : List Callback
  pub ran : List ℕ

abbrev pub reset : State → State
reset s = record s { stage = init; on_prepare = []; on_launch = []; on_shutdown = [] }

abbrev pub at_prepare : Callback → State → Result Throw State
at_prepare cb s = do
  fail_if (ltb (rank prepare) (rank s.stage)) late_prepare
  ok (record s { on_prepare = s.on_prepare ++ cb ∷ [] })

abbrev pub at_launch : Callback → State → Result Throw State
at_launch cb s = do
  fail_if (ltb (rank starting) (rank s.stage)) late_launch
  ok (record s { on_launch = s.on_launch ++ cb ∷ [] })

abbrev pub at_shutdown : Callback → State → Result Throw State
at_shutdown cb s = do
  fail_if (ltb (rank shutting_down) (rank s.stage)) late_shutdown
  ok (record s { on_shutdown = s.on_shutdown ++ cb ∷ [] })

-- `shutdown()` whose looks at the stage and store come with nothing in between: nothing when the
-- application is stopping or has stopped.
abbrev pub requested : Stage → Stage
requested stage =
    if is_stage stage ready_to_stop || is_stage stage shutting_down then stage else shutting_down

abbrev pub shutdown : State → State
shutdown s = record s { stage = requested s.stage }

-- The store of a request of another thread, whatever the stage has become since the request looked
-- at it.
abbrev pub stored : Bool → Stage → Stage
stored comes stage = if comes then shutting_down else stage

-- The store of a request that may come at this point. Unless the manager has stopped, what it leaves does
-- not depend on when the request looked.
abbrev pub arrives : Bool → Stage → Stage
arrives comes stage = if comes then requested stage else stage

-- `compare_exchange_strong`.
abbrev pub exchange : Stage → Stage → Stage → Stage
exchange expected desired stage = if is_stage stage expected then desired else stage

-- One round of the loop of `doPrepare` and `doLaunch`.
unfoldable pub call : Stage → Callback → Stage × List ℕ → Stage × List ℕ
call at cb (stage, ran) =
    let seen = arrives cb.stops_before stage in
    let after = arrives cb.stops_during seen in
    if is_stage seen at
    then (if cb.success then after else exchange at shutting_down after, ran ++ cb.number ∷ [])
    else (seen, ran)

unfoldable pub call_all : Stage → List Callback → Stage × List ℕ → Stage × List ℕ
call_all at [] now = now
call_all at (cb ∷ cbs) now = call_all at cbs (call at cb now)

-- `stops` is a request between the last callback and the end of the stage.
unfoldable pub do_prepare : Bool → State → Result Throw State
do_prepare stops s = do
  fail_if (not (is_stage s.stage init || is_stage s.stage shutting_down)) running_prepare
  let now = call_all prepare s.on_prepare (exchange init prepare s.stage, s.ran)
  ok (record s {
    stage = exchange prepare ready_to_start (arrives stops now.0);
    on_prepare = [];
    ran = now.1;
  })

unfoldable pub do_launch : Bool → State → Result Throw State
do_launch stops s = do
  fail_if (not (is_stage s.stage ready_to_start || is_stage s.stage shutting_down)) running_launch
  let now = call_all starting s.on_launch (exchange ready_to_start starting s.stage, s.ran)
  ok (record s {
    stage = exchange starting works (arrives stops now.0);
    on_launch = [];
    ran = now.1;
  })

unfoldable pub do_shutdown : State → Result Throw State
do_shutdown s = do
  fail_if (not (is_stage s.stage works || is_stage s.stage shutting_down)) running_shutdown
  let stopping = exchange works shutting_down s.stage
  ok (record s {
    stage = exchange shutting_down ready_to_stop stopping;
    on_prepare = [];
    on_launch = [];
    on_shutdown = [];
    ran = s.ran ++ map (λ cb. cb.number) s.on_shutdown;
  })

-- When a request of `shutdown()` outside callbacks stores the stage: before `run`, at the ends of the
-- stages, between them, and while `run` waits. `after_shutdown` is between the end of `doShutdown` and
-- the last look of `run`, for a request that looked before.
pub record Requests : Type 0 where
  pub at_start : Bool
  pub at_prepare_end : Bool
  pub before_launch : Bool
  pub at_launch_end : Bool
  pub before_wait : Bool
  pub while_waiting : Bool
  pub after_shutdown : Bool

-- `run` waits for a request as long as none comes.
pub data Outcome : Type 0 where
  waiting stopped : State → Outcome

-- The last look of `run`.
unfoldable pub check_stop : Bool → State → Result Throw Outcome
check_stop late s = do
  fail_if (not (is_stage (stored late s.stage) ready_to_stop)) not_ready_to_stop
  ok (stopped (record s { stage = stored late s.stage }))

unfoldable pub wait_and_stop : Bool → Bool → State → Result Throw Outcome
wait_and_stop comes late s = if is_stage s.stage works && not comes then ok (waiting s) else (do
  s' ←
      do_shutdown
        (record s { stage = if is_stage s.stage works then requested s.stage else s.stage })
  check_stop late s')

unfoldable pub run : Requests → State → Result Throw Outcome
run q s = do
  fail_if (not s.is_shared) not_shared
  s1 ← do_prepare q.at_prepare_end (record s { stage = arrives q.at_start s.stage })
  s2 ← do_launch q.at_launch_end (record s1 { stage = arrives q.before_launch s1.stage })
  wait_and_stop q.while_waiting q.after_shutdown
      (record s2 { stage = arrives q.before_wait s2.stage })
