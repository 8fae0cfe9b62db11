-- ===== src/Disputes/Transition.antt =====
-- `transition` of disputes.hpp: the checks and loops in the order of the source.
use cpp_jam.Common.{ℕ, List, [], Result, ok, err, ◌>>=◌, ◌>>◌, none}
use cpp_jam.Common.Sets.{insert_all}
use cpp_jam.Disputes.Types.{Env, Config, State, Extrinsic, Error, Output, Culprit, Fault, Tally}
use cpp_jam.Disputes.Multimap.{groups}
use cpp_jam.Disputes.Check.{check_verdicts, check_culprits, check_faults}
use cpp_jam.Disputes.Tally.{tally_votes, recheck_culprits, analyse_verdicts}
use cpp_jam.Disputes.Apply.{Marks, analyse_culprits, analyse_faults, clear_reports}

-- `asSet`.
abbrev pub as_set : List ℕ → List ℕ
as_set r = insert_all r []

-- The new state and the mark, from the sets that the loops have built.
abbrev pub next_state : Env → State → List ℕ → Marks → Marks → State
next_state env state new_wonky culprit_marks fault_marks = record state {
  psi = record {
    good = fault_marks.reports;
    bad = culprit_marks.reports;
    wonky = new_wonky;
    offenders = fault_marks.punish;
  };
  rho = clear_reports env culprit_marks.reports new_wonky state.rho;
}

-- The body behind the checks, from the second look at the culprits on.
unfoldable pub settle :
    Env
    → Config
    → State
    → List (ℕ × Culprit)
    → List (ℕ × Fault)
    → List Tally
    → Result Error (State × List ℕ)
settle env config state culprits faults counts = do
  recheck_culprits counts culprits
  new_wonky ←
      analyse_verdicts config culprits faults (as_set state.psi.wonky) (env.order_tallies counts)
  let start : Marks = record {
    mark = [];
    punish = as_set state.psi.offenders;
    reports = as_set state.psi.bad;
  }
  let culprit_marks = analyse_culprits start (groups culprits)
  fault_marks ←
      analyse_faults (record culprit_marks { reports = as_set state.psi.good }) (groups faults)
  ok (next_state env state new_wonky culprit_marks fault_marks, fault_marks.mark)

-- The body, with `error(…)` as an early return.
unfoldable pub try_transition : Env → Config → State → Extrinsic → Result Error (State × List ℕ)
try_transition env config state ext = do
  judgements ← check_verdicts env config state none [] ext.verdicts
  culprits ← check_culprits env state none [] ext.culprits
  faults ← check_faults env state none [] ext.faults
  settle env config state culprits faults (tally_votes env judgements)

-- An error comes with the state as it was.
unfoldable pub transition : Env → Config → State → Extrinsic → State × Output
transition env config state ext = elim (try_transition env config state ext) [
  | ok (state', mark) ↦ (state', ok mark)
  | err e ↦ (state, err e)
]
