-- ===== src/StateManager/Stopped.antt =====
-- What is left of the state manager after a run, and how requests move it.
use cpp_jam.Common.{
  ℕ, ◌≤◌, ◌≡◌, refl, sym, ap, ◌∙◌, Bool, true, false, not, ◌&&◌, ◌||◌, List, [], ◌++◌, map, ok, err,
  ◌>>=◌, ◌>>◌, fail_if, if◌then◌else◌, Bool-cases, >>=-eq-ok, arith, inl, inr, ◌⊎◌,
}
use cpp_jam.StateManager.Stages.{
  Stage, init, prepare, ready_to_start, starting, works, shutting_down, ready_to_stop, rank,
  is_stage, Throw, Callback, State, arrives, requested, do_prepare, do_launch, do_shutdown,
  Requests, stopped, wait_and_stop, check_stop, run, shutdown, late_prepare, late_launch,
  late_shutdown, at_prepare, at_launch, at_shutdown, running_prepare, running_launch,
  not_ready_to_stop, not_shared,
}

-- The state after a run that came to its end.
pub record IsStopped (s : State) : Type 0 where
  pub ended : s.stage ≡ ready_to_stop
  pub empty : (s.on_prepare ≡ []) × (s.on_launch ≡ []) × (s.on_shutdown ≡ [])
  pub shared : s.is_shared ≡ true

-- Only from the two stages that `doShutdown` accepts does it come to its end.
do_shutdown_end :
    (stage : Stage) (shared : Bool) (ps ls ds : List Callback) (ran : List ℕ) (s' : State)
    → do_shutdown (record {
      stage = stage;
      is_shared = shared;
      on_prepare = ps;
      on_launch = ls;
      on_shutdown = ds;
      ran = ran;
    })
      ≡ ok s'
    → s' ≡ record {
      stage = ready_to_stop;
      is_shared = shared;
      on_prepare = [];
      on_launch = [];
      on_shutdown = [];
      ran = ran ++ map (λ cb. cb.number) ds;
    }
unfolding do_shutdown
do_shutdown_end init shared ps ls ds ran s' h = absurd (cc)
do_shutdown_end prepare shared ps ls ds ran s' h = absurd (cc)
do_shutdown_end ready_to_start shared ps ls ds ran s' h = absurd (cc)
do_shutdown_end starting shared ps ls ds ran s' h = absurd (cc)
do_shutdown_end works shared ps ls ds ran s' h = cc
do_shutdown_end shutting_down shared ps ls ds ran s' h = cc
do_shutdown_end ready_to_stop shared ps ls ds ran s' h = absurd (cc)

do_shutdown-IsStopped : (s s' : State) → s.is_shared ≡ true → do_shutdown s ≡ ok s' → IsStopped s'
do_shutdown-IsStopped s s' shared h =
    let e = do_shutdown_end s.stage s.is_shared s.on_prepare s.on_launch s.on_shutdown s.ran s' h in
    record {
      ended = ap (λ x. x.stage) e;
      empty = (ap (λ x. x.on_prepare) e, ap (λ x. x.on_launch) e, ap (λ x. x.on_shutdown) e);
      shared = ap (λ x. x.is_shared) e ∙ shared;
    }

check_stop-ok : (late : Bool) (s s' : State) → check_stop late s ≡ ok (stopped s') → s ≡ s'
unfolding check_stop
check_stop-ok true s s' h = absurd (cc)
check_stop-ok false s s' h =
    let (u, checked, h1) =
      >>=-eq-ok (fail_if (not (is_stage s.stage ready_to_stop)) not_ready_to_stop) _ h in
    cc

wait_and_stop-IsStopped :
    (comes late : Bool) (s s' : State)
    → s.is_shared ≡ true
    → wait_and_stop comes late s ≡ ok (stopped s')
    → IsStopped s'
unfolding wait_and_stop
wait_and_stop-IsStopped comes late s s' shared h =
    elim (Bool-cases (is_stage s.stage works && not comes)) [
      | inl waits ↦ absurd (cc)
      | inr goes ↦
          let h1 : (do_shutdown (record s {
            stage = if is_stage s.stage works then requested s.stage else s.stage;
          })
                >>= λ s'. check_stop late s')
              ≡ ok (stopped s') =
            rw (goes) at h in
          let (s2, down, h2) = >>=-eq-ok _ _ h1 in
          let same : s2 ≡ s' = check_stop-ok late s2 s' h2 in
          do_shutdown-IsStopped
            (record s { stage = if is_stage s.stage works then requested s.stage else s.stage }) s'
            shared (down ∙ ap ok same)
    ]

guarded : (bad : Bool) (e : Throw) (a b : State) → (fail_if bad e >> ok a) ≡ ok b → a ≡ b
guarded true e a b h = absurd (cc)
guarded false e a b h = cc

not_thrown : (shared : Bool) {u : Unit {0}} → fail_if (not shared) not_shared ≡ ok u → shared ≡ true
not_thrown true h = refl
not_thrown false h = absurd (cc)

do_prepare-is_shared :
    (stops : Bool) (s s' : State) → do_prepare stops s ≡ ok s' → s'.is_shared ≡ s.is_shared
unfolding do_prepare
do_prepare-is_shared stops s s' h = sym (
    ap (λ x. x.is_shared)
      (guarded (not (is_stage s.stage init || is_stage s.stage shutting_down)) running_prepare _ s'
        h))

do_launch-is_shared :
    (stops : Bool) (s s' : State) → do_launch stops s ≡ ok s' → s'.is_shared ≡ s.is_shared
unfolding do_launch
do_launch-is_shared stops s s' h = sym (
    ap (λ x. x.is_shared)
      (guarded (not (is_stage s.stage ready_to_start || is_stage s.stage shutting_down))
        running_launch _ s' h))

run-IsStopped : (q : Requests) (s s' : State) → run q s ≡ ok (stopped s') → IsStopped s'
unfolding run
run-IsStopped q s s' h =
    let (u, shared, h1) = >>=-eq-ok (fail_if (not s.is_shared) not_shared) _ h in
    let (s1, prepared, h2) = >>=-eq-ok _ _ h1 in
    let (s2, launched, h3) = >>=-eq-ok _ _ h2 in
    let s1_shared = do_prepare-is_shared q.at_prepare_end _ s1 prepared in
    let s2_shared = do_launch-is_shared q.at_launch_end _ s2 launched in
    let is_shared = not_thrown s.is_shared shared in
    wait_and_stop-IsStopped q.while_waiting q.after_shutdown
      (record s2 { stage = arrives q.before_wait s2.stage }) s' (s2_shared ∙ s1_shared ∙ is_shared)
      h3

arrives_stopped : (comes : Bool) → arrives comes ready_to_stop ≡ ready_to_stop
arrives_stopped true = refl
arrives_stopped false = refl

run_again : (q : Requests) (s : State) → IsStopped s → run q s ≡ err running_prepare
unfolding run do_prepare
run_again q s end = rw (end.shared, end.ended, arrives_stopped q.at_start) refl

-- A run that comes to its end leaves the manager ready to stop, with no callback left. From then on
-- every registration throws, a call of `shutdown` that begins then changes nothing, and another run
-- throws.
pub run-stopped :
    (q : Requests) (s s' : State)
    → run q s ≡ ok (stopped s')
    → (s'.stage ≡ ready_to_stop)
      × ((s'.on_prepare ≡ []) × (s'.on_launch ≡ []) × (s'.on_shutdown ≡ []))
      × ((cb : Callback)
          → (at_prepare cb s' ≡ err late_prepare)
            × (at_launch cb s' ≡ err late_launch)
            × (at_shutdown cb s' ≡ err late_shutdown))
      × (shutdown s' ≡ s')
      × ((q' : Requests) → run q' s' ≡ err running_prepare)
run-stopped q s s' h =
    let end = run-IsStopped q s s' h in
    (
      end.ended,
      end.empty,
      λ cb. rw end.ended (refl, refl, refl),
      ap (λ stage. record s' { stage = stage }) (rw end.ended refl),
      λ q'. run_again q' s' end,
    )

requested_forward :
    (stage : Stage)
    → (rank stage ≤ rank (requested stage))
      × (requested (requested stage) ≡ requested stage)
      × ((stage ≡ ready_to_stop) ⊎ (requested stage ≡ shutting_down))
requested_forward init = (omega arith, refl, inr refl)
requested_forward prepare = (omega arith, refl, inr refl)
requested_forward ready_to_start = (omega arith, refl, inr refl)
requested_forward starting = (omega arith, refl, inr refl)
requested_forward works = (omega arith, refl, inr refl)
requested_forward shutting_down = (omega arith, refl, inr refl)
requested_forward ready_to_stop = (omega arith, refl, inl refl)

-- A request never moves the manager back, and a second one changes nothing more. After one the
-- manager is shutting down, unless it was ready to stop.
pub shutdown_forward :
    (s : State)
    → (rank s.stage ≤ rank (shutdown s).stage)
      × (shutdown (shutdown s) ≡ shutdown s)
      × ((s.stage ≡ ready_to_stop) ⊎ ((shutdown s).stage ≡ shutting_down))
shutdown_forward s =
    let (up, twice, where_) = requested_forward s.stage in
    (up, ap (λ stage. record s { stage = stage }) twice, where_)
