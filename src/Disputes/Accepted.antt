-- ===== src/Disputes/Accepted.antt =====
-- What holds of an accepted disputes extrinsic: the registries, the marks and the new state.
use cpp_jam.Common.{ℕ, ◌≡◌, false, List, [], All, ok, none}
use cpp_jam.Common.Sets.{IsAscending}
use cpp_jam.Disputes.Types.{Env, Config, State, Extrinsic, Culprit, Fault, Tally}
use cpp_jam.Disputes.Multimap.{groups}
use cpp_jam.Disputes.Check.{register}
use cpp_jam.Disputes.Tally.{tally_votes, recheck_culprits}
use cpp_jam.Disputes.Apply.{Marks}
use cpp_jam.Disputes.Votes.{IsVerdict, targets}
use cpp_jam.Disputes.Accusations.{
  IsCulprit, IsFault, register_culprits, register_faults, culprit_keys, fault_keys,
}
use cpp_jam.Disputes.Judged.{IsDecided, insert_wonky}
use cpp_jam.Disputes.Marked.{group_keys, culprit_entry_keys, fault_entry_keys, with_offenders}
use cpp_jam.Disputes.Transition.{as_set, next_state}

-- The registries and counts of an extrinsic.
abbrev pub culprit_registry : Extrinsic → List (ℕ × Culprit)
culprit_registry ext = register_culprits [] ext.culprits

abbrev pub fault_registry : Extrinsic → List (ℕ × Fault)
fault_registry ext = register_faults [] ext.faults

abbrev pub tallies : Env → State → Extrinsic → List Tally
tallies env state ext = tally_votes env (register state.psi ext.verdicts)

abbrev pub culprit_marks : State → Extrinsic → Marks
culprit_marks state ext =
    with_offenders (culprit_entry_keys (culprit_registry ext))
      (group_keys (groups (culprit_registry ext)))
      (record { mark = []; punish = as_set state.psi.offenders; reports = as_set state.psi.bad })

abbrev pub fault_marks : State → Extrinsic → Marks
fault_marks state ext =
    with_offenders (fault_entry_keys (fault_registry ext))
      (group_keys (groups (fault_registry ext)))
      (record (culprit_marks state ext) { reports = as_set state.psi.good })

-- All that an accepted run has checked, and the state that it makes.
pub record Accepted (env : Env) (config : Config) (state : State) (ext : Extrinsic) (state' : State)
    (mark : List ℕ) : Type 0 where
  pub verdicts :
      IsAscending none (targets ext.verdicts) × All (IsVerdict env config state) ext.verdicts
  pub culprits :
      IsAscending none (culprit_keys ext.culprits) × All (IsCulprit env state) ext.culprits
  pub faults : IsAscending none (fault_keys ext.faults) × All (IsFault env state) ext.faults
  pub backed : recheck_culprits (tallies env state ext) (culprit_registry ext) ≡ ok tt
  pub decided :
      All
        (IsDecided config (culprit_registry ext) (fault_registry ext))
        (env.order_tallies (tallies env state ext))
  pub against : All (λ f. f.vote ≡ false) ext.faults
  pub result :
      state'
      ≡ next_state env state
          (insert_wonky config (as_set state.psi.wonky) (env.order_tallies (tallies env state ext)))
          (culprit_marks state ext)
          (fault_marks state ext)
  pub marked : mark ≡ (fault_marks state ext).mark

abbrev pub start_marks : State → Marks
start_marks state = record {
  mark = [];
  punish = as_set state.psi.offenders;
  reports = as_set state.psi.bad;
}

abbrev pub of_culprits : State → List (ℕ × Culprit) → Marks
of_culprits state cs =
    with_offenders (culprit_entry_keys cs) (group_keys (groups cs)) (start_marks state)

abbrev pub of_faults : State → List (ℕ × Culprit) → List (ℕ × Fault) → Marks
of_faults state cs fs =
    with_offenders (fault_entry_keys fs) (group_keys (groups fs))
      (record (of_culprits state cs) { reports = as_set state.psi.good })
