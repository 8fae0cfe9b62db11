-- ===== src/Disputes/Outcome.antt =====
-- The cases of `transition` of disputes.hpp: a refusal, or all that an accepted extrinsic brings.
use mathlib.Core.Path.{subst}
use cpp_jam.Common.{
  ℕ, ◌≡◌, refl, sym, ap, ◌∙◌, ◌⊎◌, List, [], inl, inr, All, Result, ok, err, >>=-eq-ok, none,
}
use cpp_jam.Common.Sets.{IsAscending}
use cpp_jam.Disputes.Types.{Env, Config, State, Extrinsic, Error, Judgement, Culprit, Fault, Tally}
use cpp_jam.Disputes.Multimap.{groups}
use cpp_jam.Disputes.Check.{check_verdicts, check_culprits, check_faults, register}
use cpp_jam.Disputes.Tally.{tally_votes, recheck_culprits, analyse_verdicts}
use cpp_jam.Disputes.Apply.{Marks, analyse_culprits, analyse_faults}
use cpp_jam.Disputes.Votes.{IsVerdict, targets, check_verdicts_iff}
use cpp_jam.Disputes.Accusations.{
  IsCulprit, IsFault, culprit_keys, fault_keys, check_culprits_iff, check_faults_iff,
}
use cpp_jam.Disputes.Judged.{IsDecided, analyse_verdicts_iff, insert_wonky}
use cpp_jam.Disputes.Marked.{
  group_keys, fault_entry_keys, with_offenders, analyse_culprits_lem, analyse_faults_lem,
  AreAgainst,
}
use cpp_jam.Disputes.Registry.{
  register_culprits-IsSorted, register_faults-IsSorted, register_faults-AreAgainst,
}
use cpp_jam.Disputes.Groups.{IsSorted}
use cpp_jam.Disputes.Transition.{settle, try_transition, transition, as_set, next_state}
use cpp_jam.Disputes.Accepted.{
  culprit_registry, fault_registry, tallies, Accepted, start_marks, of_culprits, of_faults,
}

-- The last steps, with the results of those before as variables.
settle_end :
    (env : Env) (state : State) (cs : List (ℕ × Culprit)) (fs : List (ℕ × Fault)) (w : List ℕ)
    (k m : Marks) (state' : State) (mark : List ℕ)
    → IsSorted 0 fs
    → k ≡ of_culprits state cs
    → analyse_faults (record k { reports = as_set state.psi.good }) (groups fs) ≡ ok m
    → ◌≡◌ {A = Result Error (State × List ℕ)}
        (ok (next_state env state w k m, m.mark))
        (ok (state', mark))
    → AreAgainst fs
      × (state' ≡ next_state env state w (of_culprits state cs) (of_faults state cs fs))
      × (mark ≡ (of_faults state cs fs).mark)
settle_end env state cs fs w k m state' mark sf hk hf h =
    let (against, faults) =
      analyse_faults_lem (record k { reports = as_set state.psi.good }) m fs sf hf in
    let hm : m ≡ of_faults state cs fs =
      faults
      ∙ ap
          (λ x.
            with_offenders (fault_entry_keys fs) (group_keys (groups fs))
              (record x { reports = as_set state.psi.good }))
          hk in
    let hs : state' ≡ next_state env state w k m = cc in
    let hmark : mark ≡ m.mark = cc in
    (against, hs ∙ (λ i. next_state env state w (hk i) (hm i)), hmark ∙ ap (λ x. x.mark) hm)

settle_inv :
    (env : Env) (config : Config) (state : State) (cs : List (ℕ × Culprit)) (fs : List (ℕ × Fault))
    (ts : List Tally) (state' : State) (mark : List ℕ)
    → IsSorted 0 cs
    → IsSorted 0 fs
    → settle env config state cs fs ts ≡ ok (state', mark)
    → (recheck_culprits ts cs ≡ ok tt)
      × All (IsDecided config cs fs) (env.order_tallies ts)
      × AreAgainst fs
      × (state'
          ≡ next_state env state
              (insert_wonky config (as_set state.psi.wonky) (env.order_tallies ts))
              (of_culprits state cs)
              (of_faults state cs fs))
      × (mark ≡ (of_faults state cs fs).mark)
unfolding settle
settle_inv env config state cs fs ts state' mark sc sf h =
    let (u, e₄, h₄) = >>=-eq-ok (recheck_culprits ts cs) _ h in
    let (w, e₅, h₅) =
      >>=-eq-ok (analyse_verdicts config cs fs (as_set state.psi.wonky) (env.order_tallies ts)) _
        h₄ in
    let (m, e₆, h₆) =
      >>=-eq-ok
        (analyse_faults
          (record (analyse_culprits (start_marks state) (groups cs)) {
            reports = as_set state.psi.good;
          })
          (groups fs))
        _ h₅ in
    let (decided, wonky) =
      (analyse_verdicts_iff config cs fs (as_set state.psi.wonky) w (env.order_tallies ts)).0 e₅ in
    let (against, hs, hmark) =
      settle_end env state cs fs w (analyse_culprits (start_marks state) (groups cs)) m state' mark
        sf (analyse_culprits_lem (start_marks state) cs sc) e₆ h₆ in
    (
      e₄,
      decided,
      against,
      hs ∙ ap (λ x. next_state env state x (of_culprits state cs) (of_faults state cs fs)) wonky,
      hmark,
    )

-- With the registries as variables.
settled-Accepted :
    (env : Env) (config : Config) (state : State) (ext : Extrinsic) (state' : State) (mark : List ℕ)
    (reg : List (ℕ × Judgement)) (cs : List (ℕ × Culprit)) (fs : List (ℕ × Fault))
    → IsAscending none (targets ext.verdicts)
      × All (IsVerdict env config state) ext.verdicts
      × (reg ≡ register state.psi ext.verdicts)
    → IsAscending none (culprit_keys ext.culprits)
      × All (IsCulprit env state) ext.culprits
      × (cs ≡ culprit_registry ext)
    → IsAscending none (fault_keys ext.faults)
      × All (IsFault env state) ext.faults
      × (fs ≡ fault_registry ext)
    → settle env config state cs fs (tally_votes env reg) ≡ ok (state', mark)
    → Accepted env config state ext state' mark
settled-Accepted env config state ext state' mark reg cs fs (va, vv, vr) (ca, cv, cr) (fa, fv, fr)
      h =
    let h' : settle env config state (culprit_registry ext) (fault_registry ext)
          (tallies env state ext)
        ≡ ok (state', mark) =
      (λ i. settle env config state (sym cr i) (sym fr i) (tally_votes env (sym vr i))) ∙ h in
    let (backed, decided, against, result, marked) =
      settle_inv env config state (culprit_registry ext) (fault_registry ext)
        (tallies env state ext) state' mark (register_culprits-IsSorted [] ext.culprits tt)
        (register_faults-IsSorted [] ext.faults tt) h' in
    record {
      verdicts = (va, vv);
      culprits = (ca, cv);
      faults = (fa, fv);
      backed = backed;
      decided = decided;
      against = (register_faults-AreAgainst [] ext.faults against).0;
      result = result;
      marked = marked;
    }

pub try_transition-Accepted :
    (env : Env) (config : Config) (state : State) (ext : Extrinsic) (state' : State) (mark : List ℕ)
    → try_transition env config state ext ≡ ok (state', mark)
    → Accepted env config state ext state' mark
unfolding try_transition
try_transition-Accepted env config state ext state' mark h =
    let (reg, e₁, h₁) = >>=-eq-ok (check_verdicts env config state none [] ext.verdicts) _ h in
    let (cs, e₂, h₂) = >>=-eq-ok (check_culprits env state none [] ext.culprits) _ h₁ in
    let (fs, e₃, h₃) = >>=-eq-ok (check_faults env state none [] ext.faults) _ h₂ in
    settled-Accepted env config state ext state' mark reg cs fs
      ((check_verdicts_iff env config state reg ext.verdicts).0 e₁)
      ((check_culprits_iff env state cs ext.culprits).0 e₂)
      ((check_faults_iff env state fs ext.faults).0 e₃) h₃

-- An accepted transition has run to its end; a refused one has kept the state.
pub transition_cases :
    (env : Env) (config : Config) (state : State) (ext : Extrinsic)
    → ((e : Error) × (transition env config state ext ≡ (state, err e)))
      ⊎ ((state' : State) × (mark : List ℕ) × (transition env config state ext ≡ (state', ok mark))
          × Accepted env config state ext state' mark)
unfolding transition
transition_cases env config state ext = result_cases (try_transition env config state ext) refl
  where
    result_cases :
        (r : Result Error (State × List ℕ))
        → try_transition env config state ext ≡ r
        → ((e : Error) × (transition env config state ext ≡ (state, err e)))
          ⊎ ((state' : State) × (mark : List ℕ) × (transition env config state ext
                ≡ (state', ok mark))
              × Accepted env config state ext state' mark)
    result_cases (ok (state', mark)) h = inr (
      state',
      mark,
      rw (h, transition) refl,
      try_transition-Accepted env config state ext state' mark h,
    )
    result_cases (err e) h = inl (e, rw (h, transition) refl)

pub transition-Accepted :
    (env : Env) (config : Config) (state : State) (ext : Extrinsic) {state' : State} {mark : List ℕ}
    → transition env config state ext ≡ (state', ok mark)
    → Accepted env config state ext state' mark
transition-Accepted env config state ext {state'} {mark} h =
    elim (transition_cases env config state ext) [
      | inl (e, refused) ↦ absurd (cc)
      | inr (s, m, taken, accepted) ↦
          subst (λ x. Accepted env config state ext x mark) (cc)
            (subst (λ x. Accepted env config state ext s x) (cc) accepted)
    ]
