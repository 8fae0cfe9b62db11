-- ===== src/Scheduler/Kept.antt =====
-- What the steps of the thread's loop keep.
use mathlib.Core.Path.{subst}
use cpp_jam.Common.{
  ℕ, ◌+◌, ◌-◌, ◌≤◌, ◌≡◌, ◌≢◌, refl, sym, ◌∙◌, ap, Bool, true, false, ◌&&◌, ◌||◌, none, All, arith,
  inl, inr,
}
use cpp_jam.Scheduler.Queue.{
  State, extract_expired, until_first, upload_if_free, add_delayed, repeat,
}
use cpp_jam.Scheduler.Steps
use cpp_jam.Scheduler.Steps.{began, ended}
use cpp_jam.Scheduler.Sound.{Reach-IsSound}
use cpp_jam.Scheduler.Timely.{
  IsTimely, IsLate, is_running, IsKept, later-IsLate, begun-IsLate, decided-IsTimely, not_waiting,
  not_chosen, not_testing, not_choosing, add-now, look-idle, look-running, end-running,
  upload_cases, add-running, or_true,
}
use cpp_jam.Scheduler.Loop.{
  At, Loop, was_added, Step, look, decide, begin_wait, wake, time_out, end, test, delay, start,
  upload, dispose, tick, Reach, here, more,
}

module _ {start_ : ℕ} where
  pub still_signalled :
      (l : Loop) → IsKept start_ l → l.at_ ≢ At.testing → l.proceed ≡ false → l.signalled ≡ true
  still_signalled l kept other e = elim (kept.ending e) [
    | inl signalled ↦ signalled
    | inr testing ↦ absurd (other testing)
  ]

  -- A caller that adds a task signals.
  signalled-IsKept :
      (l : Loop) (s : State)
      → Steps.Step l.base s
      → s.running ≡ l.base.running
      → s.now ≡ l.base.now
      → IsKept start_ l
      → IsKept start_ (record l { base = s; signalled = true })
  signalled-IsKept l s step same clock kept = record {
    reached = Steps.more kept.reached step;
    idle = λ e. same ∙ kept.idle e;
    timely = λ until lag e. inl refl;
    choice = λ looked_at d e. (omega (arith, (kept.choice looked_at d e).0, clock), inl refl);
    ending = λ e. inl refl;
  }

  -- The thread at the test.
  testing-IsKept :
      (l : Loop) (s : State) (signalled : Bool)
      → Steps.Reach start_ s
      → s.running ≡ none
      → IsKept start_ (record l { base = s; at_ = At.testing; signalled = signalled })
  testing-IsKept l s signalled reached idle = record {
    reached = reached;
    idle = λ e. idle;
    timely = λ until lag e. absurd (cc);
    choice = λ looked_at d e. absurd (cc);
    ending = λ e. inr refl;
  }

  upload-IsKept :
      (l : Loop) (timeout number : ℕ)
      → IsKept start_ l
      → IsKept start_ (record l {
        base = (upload_if_free timeout number l.base).1;
        signalled = was_added (upload_if_free timeout number l.base).0 || l.signalled;
      })
  upload-IsKept l timeout number kept =
      let (either, same, clock) = upload_cases timeout number l.base in
      record {
        reached = Steps.more kept.reached (Steps.upload l.base timeout number);
        idle = λ e. same ∙ kept.idle e;
        timely = λ until lag e. elim either [
          | inl added ↦ inl (rw added refl)
          | inr as_before ↦ elim (kept.timely until lag e) [
            | inl signalled ↦ inl (or_true _ l.signalled signalled)
            | inr all ↦
                inr
                  (subst (λ (s : State). All (IsLate until lag s.now) s.tasks) (sym as_before) all)
          ]
        ];
        choice = λ looked_at d e.
            let (past, all_or) = kept.choice looked_at d e in
            (
              subst (λ n. looked_at ≤ n) (sym clock) past,
              elim either [
                | inl added ↦ inl (rw added refl)
                | inr as_before ↦ elim all_or [
                  | inl signalled ↦ inl (or_true _ l.signalled signalled)
                  | inr all ↦ inr (
                      subst (λ (s : State). All (IsTimely (looked_at + d) looked_at) s.tasks)
                        (sym as_before) all)
                ]
              ],
            );
        ending = λ e. elim (kept.ending e) [
          | inl signalled ↦ inl (or_true _ l.signalled signalled)
          | inr testing ↦ inr testing
        ];
      }

  step-IsKept : {l l' : Loop} → Step l l' → IsKept start_ l → IsKept start_ l'
  step-IsKept (look l at_) kept =
      let free = kept.idle (ap is_running at_) in
      record {
        reached = Steps.more kept.reached (Steps.begin l.base free);
        idle = λ e.
            look-idle (extract_expired l.base).1 (extract_expired l.base).0
              (look-running l.base (Reach-IsSound kept.reached).ordered free) e;
        timely = λ until lag e. absurd (not_waiting (extract_expired l.base).0 until lag e);
        choice = λ looked_at d e. absurd (not_chosen (extract_expired l.base).0 looked_at d e);
        ending = λ e. inl (
            still_signalled l kept
              (λ testing. let h : At.looking ≡ At.testing = sym at_ ∙ testing in cc) e);
      }
  step-IsKept (decide l at_) kept = record {
    reached = kept.reached;
    idle = λ e. kept.idle (ap is_running at_);
    timely = λ until lag e. absurd (cc);
    choice = λ looked_at d e.
        let now_ : l.base.now ≡ looked_at = cc in
        let chosen : until_first l.base ≡ d = cc in
        (
          omega (arith, now_),
          inr (
              subst (λ n. All (IsTimely (n + d) n) l.base.tasks) now_
                (subst (λ x. All (IsTimely (l.base.now + x) l.base.now) l.base.tasks) chosen
                  (decided-IsTimely l.base (Reach-IsSound kept.reached).ordered))),
        );
    ending = λ e. inl (
        still_signalled l kept
          (λ testing. let h : At.deciding ≡ At.testing = sym at_ ∙ testing in cc) e);
  }
  step-IsKept (begin_wait l looked_at duration at_) kept =
      let (past, all_or) = kept.choice looked_at duration at_ in
      record {
        reached = kept.reached;
        idle = λ e. kept.idle (ap is_running at_);
        timely = λ until lag e.
            let until_ : looked_at + duration ≡ until = cc in
            let lag_ : l.base.now - looked_at ≡ lag = cc in
            elim all_or [
              | inl signalled ↦ inl signalled
              | inr all ↦ inr (
                  subst (λ x. All (IsLate until x l.base.now) l.base.tasks) lag_
                    (subst (λ x. All (IsLate x (l.base.now - looked_at) l.base.now) l.base.tasks)
                      until_
                      (begun-IsLate (looked_at + duration) looked_at l.base.now l.base.tasks past
                        all)))
            ];
        choice = λ looked_at d e. absurd (cc);
        ending = λ e. inl (
            still_signalled l kept
              (λ testing.
                let h : At.chosen looked_at duration ≡ At.testing = sym at_ ∙ testing in cc)
              e);
      }
  step-IsKept (wake l deadline lag at_ signalled) kept =
      testing-IsKept l l.base false kept.reached (kept.idle (ap is_running at_))
  step-IsKept (time_out l deadline lag at_ over) kept =
      testing-IsKept l l.base false kept.reached (kept.idle (ap is_running at_))
  step-IsKept (end l t again at_ running) kept =
      testing-IsKept l (ended t (t.repeats && again) l.base) (t.repeats && again || l.signalled)
        (Steps.more kept.reached (Steps.end l.base t again running))
        (end-running t (t.repeats && again) l.base)
  step-IsKept (test l at_) kept = record {
    reached = kept.reached;
    idle = λ e. kept.idle (ap is_running at_);
    timely = λ until lag e. absurd (not_testing l.proceed until lag e);
    choice = λ looked_at d e. absurd (not_choosing l.proceed looked_at d e);
    ending = λ e. absurd (cc);
  }
  step-IsKept (delay l timeout number) kept =
      signalled-IsKept l (add_delayed timeout number l.base) (Steps.delay l.base timeout number)
        (add-running _ l.base) (add-now _ l.base) kept
  step-IsKept (start l timeout number) kept =
      signalled-IsKept l (repeat timeout number l.base) (Steps.start l.base timeout number)
        (add-running _ l.base) (add-now _ l.base) kept
  step-IsKept (upload l timeout number) kept = upload-IsKept l timeout number kept
  step-IsKept (dispose l) kept = record {
    reached = kept.reached;
    idle = kept.idle;
    timely = λ until lag e. inl refl;
    choice = λ looked_at d e. ((kept.choice looked_at d e).0, inl refl);
    ending = λ e. inl refl;
  }
  step-IsKept (tick l d) kept = record {
    reached = Steps.more kept.reached (Steps.tick l.base d);
    idle = kept.idle;
    timely = λ until lag e. elim (kept.timely until lag e) [
      | inl signalled ↦ inl signalled
      | inr all ↦ inr (later-IsLate until lag l.base.now d l.base.tasks all)
    ];
    choice = λ looked_at duration e.
        let (past, all_or) = kept.choice looked_at duration e in (omega (arith, past), all_or);
    ending = kept.ending;
  }

  pub Reach-IsKept : {l : Loop} → Reach start_ l → IsKept start_ l
  Reach-IsKept here = record {
    reached = Steps.here;
    idle = λ e. refl;
    timely = λ until lag e. absurd (cc);
    choice = λ looked_at d e. absurd (cc);
    ending = λ e. absurd (cc);
  }
  Reach-IsKept (more before step) = step-IsKept step (Reach-IsKept before)
