-- ===== src/StateManager/Runs.antt =====
-- Whole runs of the state manager.
use mathlib.Core.List.{append-nil}
use cpp_jam.Common.{
  ℕ, ◌≡◌, refl, ap, ◌∙◌, Bool, true, false, not, ◌&&◌, List, [], ◌++◌, Result, ok, err, ◌>>=◌, ◌>>◌,
  fail_if, if◌then◌else◌,
}
use cpp_jam.StateManager.Stages.{
  Stage, init, prepare, ready_to_start, starting, works, shutting_down, ready_to_stop, Throw, State,
  arrives, requested, exchange, do_prepare, do_launch, do_shutdown, Requests, Outcome, waiting,
  stopped, wait_and_stop, check_stop, run, not_shared, not_ready_to_stop,
}
use cpp_jam.StateManager.Callbacks.{passes, called, numbers, call_all_idle, call_all_lem}

arrives-if :
    (stage : Stage) (comes on_course : Bool)
    → requested stage ≡ shutting_down
    → arrives comes (if on_course then stage else shutting_down)
      ≡ (if on_course && not comes then stage else shutting_down)
arrives-if stage true true h = h
arrives-if stage true false h = refl
arrives-if stage false true h = refl
arrives-if stage false false h = refl

prepare_end :
    (good stops : Bool)
    → exchange prepare ready_to_start (arrives stops (if good then prepare else shutting_down))
      ≡ (if good && not stops then ready_to_start else shutting_down)
prepare_end true true = refl
prepare_end true false = refl
prepare_end false true = refl
prepare_end false false = refl

launch_end :
    (good stops : Bool)
    → exchange starting works (arrives stops (if good then starting else shutting_down))
      ≡ (if good && not stops then works else shutting_down)
launch_end true true = refl
launch_end true false = refl
launch_end false true = refl
launch_end false false = refl

-- The stage of preparation, on course or with a shutdown before it.
pub do_prepare_lem :
    (s : State) (on_course stops : Bool)
    → s.stage ≡ (if on_course then init else shutting_down)
    → do_prepare stops s
      ≡ ok (record s {
        stage =
            if on_course && (passes s.on_prepare && not stops)
            then ready_to_start
            else shutting_down;
        on_prepare = [];
        ran = s.ran ++ numbers (if on_course then called s.on_prepare else []);
      })
unfolding do_prepare
do_prepare_lem s true stops h =
    rw
      (
        h,
        call_all_lem prepare (refl, refl, refl) s.on_prepare s.ran,
        prepare_end (passes s.on_prepare) stops,
      )
      refl
do_prepare_lem s false stops h =
    rw
      (
        h,
        call_all_idle prepare (refl, refl, refl) s.on_prepare s.ran,
        append-nil s.ran,
        arrives-if works stops false refl,
      )
      refl

pub do_launch_lem :
    (s : State) (on_course stops : Bool)
    → s.stage ≡ (if on_course then ready_to_start else shutting_down)
    → do_launch stops s
      ≡ ok (record s {
        stage = if on_course && (passes s.on_launch && not stops) then works else shutting_down;
        on_launch = [];
        ran = s.ran ++ numbers (if on_course then called s.on_launch else []);
      })
unfolding do_launch
do_launch_lem s true stops h =
    rw
      (
        h,
        call_all_lem starting (refl, refl, refl) s.on_launch s.ran,
        launch_end (passes s.on_launch) stops,
      )
      refl
do_launch_lem s false stops h =
    rw
      (
        h,
        call_all_idle starting (refl, refl, refl) s.on_launch s.ran,
        append-nil s.ran,
        arrives-if works stops false refl,
      )
      refl

pub wait_and_stop_lem :
    (s : State) (on_course comes late : Bool)
    → s.stage ≡ (if on_course then works else shutting_down)
    → wait_and_stop comes late s ≡ (
        if on_course && not comes
        then ok (waiting (record s { stage = works }))
        else if late
        then err not_ready_to_stop
        else ok (
            stopped (record s {
              stage = ready_to_stop;
              on_prepare = [];
              on_launch = [];
              on_shutdown = [];
              ran = s.ran ++ numbers s.on_shutdown;
            })))
unfolding wait_and_stop do_shutdown check_stop
wait_and_stop_lem s true true true h = rw h refl
wait_and_stop_lem s true true false h = rw h refl
wait_and_stop_lem s true false late h =
    wait ∙ ap (λ stage. ok (waiting (record s { stage = stage }))) h
  where
    wait : wait_and_stop false late s ≡ ok (waiting s)
    wait = rw h refl
wait_and_stop_lem s false comes true h = rw h refl
wait_and_stop_lem s false comes false h = rw h refl

>>=-of-ok :
    {m : Result Throw State} (f : State → Result Throw Outcome) {a : State}
    → m ≡ ok a
    → (m >>= f) ≡ f a
>>=-of-ok f h = ap (λ m. m >>= f) h

module _ (q : Requests) (s : State) where
  -- Preparation and launch go through without a failure and without a request for a shutdown.
  abbrev pub is_prepared : Bool
  is_prepared = not q.at_start && (passes s.on_prepare && not q.at_prepare_end)

  abbrev pub is_launching : Bool
  is_launching = is_prepared && not q.before_launch

  abbrev pub is_working : Bool
  is_working = is_launching && (passes s.on_launch && not q.at_launch_end) && not q.before_wait

  -- The callbacks of preparation and launch that are called.
  abbrev pub ran_before : List ℕ
  ran_before =
      (s.ran ++ numbers (if not q.at_start then called s.on_prepare else []))
      ++ numbers (if is_launching then called s.on_launch else [])

  -- A run of a new manager on a shared pointer calls the callbacks of each stage in their order up to the first
  -- failure or request, and skips the later stages after one. If all goes well it works until a
  -- request comes. In every other case it calls all callbacks for the shutdown, and ends ready
  -- to stop with no callback left, unless a request that looked at the stage before stores it after the shutdown: then,
  -- and only then, the run throws.
  pub run_lem :
      s.is_shared ≡ true
      → s.stage ≡ init
      → run q s ≡ (
          if is_working && not q.while_waiting
          then ok (
              waiting
                (record s { stage = works; on_prepare = []; on_launch = []; ran = ran_before }))
          else if q.after_shutdown
          then err not_ready_to_stop
          else ok (
              stopped (record s {
                stage = ready_to_stop;
                on_prepare = [];
                on_launch = [];
                on_shutdown = [];
                ran = ran_before ++ numbers s.on_shutdown;
              })))
  unfolding run
  run_lem shared new =
      let s0 : State = record s { stage = arrives q.at_start s.stage } in
      let start : s0.stage ≡ (if not q.at_start then init else shutting_down) =
        ap (arrives q.at_start) new ∙ arrives-if init q.at_start true refl in
      let prepared = do_prepare_lem s0 (not q.at_start) q.at_prepare_end start in
      let s1 : State = record s {
        stage = if is_prepared then ready_to_start else shutting_down;
        on_prepare = [];
        ran = s.ran ++ numbers (if not q.at_start then called s.on_prepare else []);
      } in
      let launched =
        do_launch_lem (record s1 { stage = arrives q.before_launch s1.stage }) is_launching
          q.at_launch_end (arrives-if ready_to_start q.before_launch is_prepared refl) in
      let s2 : State = record s1 {
        stage =
            if is_launching && (passes s.on_launch && not q.at_launch_end)
            then works
            else shutting_down;
        on_launch = [];
        ran = ran_before;
      } in
      let ended =
        wait_and_stop_lem (record s2 { stage = arrives q.before_wait s2.stage }) is_working
          q.while_waiting q.after_shutdown
          (arrives-if works q.before_wait
            (is_launching && (passes s.on_launch && not q.at_launch_end)) refl) in
      ap
        (λ yes. fail_if (not yes) not_shared >> (do
          s1 ← do_prepare q.at_prepare_end s0
          s2 ← do_launch q.at_launch_end (record s1 { stage = arrives q.before_launch s1.stage })
          wait_and_stop q.while_waiting q.after_shutdown
              (record s2 { stage = arrives q.before_wait s2.stage })))
        shared
      ∙ >>=-of-ok _ prepared
      ∙ >>=-of-ok _ launched
      ∙ ended
