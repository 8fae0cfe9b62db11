-- ===== src/Disputes/Tests.antt =====
-- An accepted extrinsic with a bad and a good verdict, and the theorems at it.
use mathlib.Core.List.{Perm, Permᴰ, reverse}
use cpp_jam.Common.{
  ℕ, ◌≡◌, refl, Bool, true, false, ◌||◌, List, [], ◌∷◌, ◌++◌, none, some, ok, err, ◌==◌, ◌↔◌, arith,
  All,
}
use cpp_jam.Common.Sets.{contains, insert, insert_all, IsAscending}
use cpp_jam.Disputes.Types.{
  Assignment, verdicts_not_sorted_unique, Env, Config, State, Extrinsic, Judgement, ed25519_verify,
}
use cpp_jam.Disputes.Transition.{transition, try_transition, settle}
use cpp_jam.Disputes.Check.{
  check_votes, check_verdict, check_verdicts, check_culprit, check_culprits, check_fault,
  check_faults, has_key, register,
}
use cpp_jam.Disputes.Multimap.{multi_insert, count, values_upto, from_upper, groups}
use cpp_jam.Disputes.Tally.{
  count_vote, count_votes, tally_votes, find_tally, recheck_culprits, judge, apply_outcome,
  analyse_verdicts,
}
use cpp_jam.Disputes.Apply.{
  mark_culprits, analyse_culprits, mark_faults, analyse_faults, clear_reports,
}
use cpp_jam.Common.{length, get_elem?}
use cpp_jam.Disputes.Votes.{IsVerdict, targets, check_verdicts_iff}
use cpp_jam.Disputes.Accusations.{
  IsCulprit, register_culprits, register_faults, culprit_keys, fault_keys, check_culprits_iff,
}
use cpp_jam.Disputes.Counts.{votes, counter}
use cpp_jam.Disputes.Overflow.{tally_votes-exact}
use cpp_jam.Disputes.Judged.{IsDecided, insert_wonky, found_wonky, analyse_verdicts_iff}
use cpp_jam.Disputes.Registry.{culprit_targets, fault_targets}
use cpp_jam.Disputes.Accepted.{tallies}
use cpp_jam.Disputes.Effects.{
  transition_report_sets, transition_offenders, transition_reports, transition_accepts_only,
}

program : Unit {0}
unfolding transition try_transition settle check_votes check_verdict check_verdicts check_culprit
    check_culprits check_fault check_faults has_key register multi_insert count groups count_vote
    count_votes tally_votes find_tally recheck_culprits judge apply_outcome analyse_verdicts
    mark_culprits analyse_culprits mark_faults analyse_faults clear_reports ed25519_verify contains
    insert insert_all values_upto from_upper
program = tt

-- Signature 7 verifies, no other; a report's hash is its first byte.
abbrev env : Env
env = record {
  verify = λ sig key message. sig == 7;
  hash = λ report. first report;
  order_judgements = λ reg. reg;
  order_tallies = λ ts. ts;
}
  where
    first : List ℕ → ℕ
    first [] = 0
    first (b ∷ bs) = b

abbrev config : Config
config = record { epoch_length = 12; validators_super_majority = 2 }

abbrev state : State
state = record {
  psi = record { good = []; bad = []; wonky = []; offenders = 9 ∷ [] };
  rho =
      some (record { report = 1 ∷ []; timeout = 5 })
      ∷ none
      ∷ some (record { report = 4 ∷ []; timeout = 5 })
      ∷ [];
  tau = 30;
  kappa = record { ed25519 = 10 } ∷ record { ed25519 = 11 } ∷ record { ed25519 = 12 } ∷ [];
  lambda = record { ed25519 = 20 } ∷ record { ed25519 = 21 } ∷ record { ed25519 = 22 } ∷ [];
}

abbrev votes_of : Bool → List Judgement
votes_of v =
    record { vote = v; index = 0; signature = 7 }
    ∷ record { vote = v; index = 2; signature = 7 }
    ∷ []

abbrev ext : Extrinsic
ext = record {
  verdicts =
      record { target = 1; age = 2; votes = votes_of false }
      ∷ record { target = 3; age = 1; votes = votes_of true }
      ∷ [];
  culprits =
      record { target = 1; key = 10; signature = 7 }
      ∷ record { target = 1; key = 12; signature = 7 }
      ∷ [];
  faults = record { target = 3; vote = false; key = 11; signature = 7 } ∷ [];
}

abbrev state' : State
state' = record state {
  psi = record { good = 3 ∷ []; bad = 1 ∷ []; wonky = []; offenders = 9 ∷ 10 ∷ 11 ∷ 12 ∷ [] };
  rho = none ∷ none ∷ some (record { report = 4 ∷ []; timeout = 5 }) ∷ [];
}

abbrev mark : List ℕ
mark = 10 ∷ 12 ∷ 11 ∷ []

accepted : transition env config state ext ≡ (state', ok mark)
unfolding program
accepted = refl

rearranged {ℓ} : {A : Type ℓ} (xs : List A) → Permᴰ xs xs
rearranged [] = Permᴰ.nil
rearranged (x ∷ xs) = Permᴰ.cons refl (rearranged xs)

transition_report_sets_example :
    (contains state'.psi.bad 1
      ≡ (contains (culprit_targets ext.culprits) 1 || contains state.psi.bad 1))
    × (contains state'.psi.good 1
        ≡ (contains (fault_targets ext.faults) 1 || contains state.psi.good 1))
    × (contains state'.psi.wonky 1 ≡ (
        found_wonky config 1 (env.order_tallies (tallies env state ext))
        || contains state.psi.wonky 1))
transition_report_sets_example = transition_report_sets env config state ext state' mark 1 accepted

transition_offenders_example :
    Perm mark (culprit_keys ext.culprits ++ fault_keys ext.faults)
    × ((k : ℕ)
        → contains state'.psi.offenders k ≡ (contains mark k || contains state.psi.offenders k))
transition_offenders_example = transition_offenders env config state ext state' mark accepted

transition_reports_example :
    ((i : ℕ) (x : Assignment)
      → (get_elem? state'.rho i ≡ some (some x)) ↔ (
          (get_elem? state.rho i ≡ some (some x))
          × (contains state'.psi.bad (env.hash x.report) ≡ false)
          × (contains state'.psi.wonky (env.hash x.report) ≡ false)))
    × (length state'.rho ≡ length state.rho)
transition_reports_example = transition_reports env config state ext state' mark accepted

transition_accepts_only_example :
    (state'.tau ≡ state.tau)
    × (state'.kappa ≡ state.kappa)
    × (state'.lambda ≡ state.lambda)
    × IsAscending none (culprit_keys ext.culprits)
    × IsAscending none (fault_keys ext.faults)
    × All (λ f. f.vote ≡ false) ext.faults
transition_accepts_only_example = transition_accepts_only env config state ext state' mark accepted

-- The verdicts are refused in the wrong order.
abbrev unsorted : Extrinsic
unsorted = record ext {
  verdicts =
      record { target = 3; age = 2; votes = votes_of true }
      ∷ record { target = 1; age = 2; votes = votes_of false }
      ∷ [];
}

refused : transition env config state unsorted ≡ (state, err verdicts_not_sorted_unique)
unfolding program
refused = refl

check_culprits_iff_example :
    (check_culprits env state none [] ext.culprits ≡ ok (register_culprits [] ext.culprits)) ↔ (
      IsAscending none (culprit_keys ext.culprits)
      × All (IsCulprit env state) ext.culprits
      × (register_culprits [] ext.culprits ≡ register_culprits [] ext.culprits))
check_culprits_iff_example =
    check_culprits_iff env state (register_culprits [] ext.culprits) ext.culprits

-- Votes on two reports, walked in the reverse order.
abbrev two_votes : List (ℕ × Judgement)
two_votes =
    (1, record { vote = false; index = 0; signature = 7 })
    ∷ (3, record { vote = true; index = 2; signature = 7 })
    ∷ []

abbrev reversing : Env
reversing = record env { order_judgements = reverse }

valid_verdicts :
    IsAscending none (targets ext.verdicts) × All (IsVerdict env config state) ext.verdicts
unfolding program
valid_verdicts =
    let v =
      (check_verdicts_iff env config state (register state.psi ext.verdicts) ext.verdicts).0 refl in
    (v.0, v.1)

tally_votes-exact_example :
    counter true (find_tally 3 (tally_votes env (register state.psi ext.verdicts)))
    ≡ votes 3 true (register state.psi ext.verdicts)
tally_votes-exact_example =
    tally_votes-exact env config state ext.verdicts 3 true
      (rearranged (register state.psi ext.verdicts)) (omega arith) (omega arith) valid_verdicts.0
      valid_verdicts.1

analyse_verdicts_iff_example :
    (analyse_verdicts config
        (register_culprits [] ext.culprits)
        (register_faults [] ext.faults)
        []
        (tallies env state ext)
      ≡ ok (insert_wonky config [] (tallies env state ext)))
    ↔ (All
          (IsDecided config (register_culprits [] ext.culprits) (register_faults [] ext.faults))
          (tallies env state ext)
        × (insert_wonky config [] (tallies env state ext)
            ≡ insert_wonky config [] (tallies env state ext)))
analyse_verdicts_iff_example =
    analyse_verdicts_iff config (register_culprits [] ext.culprits) (register_faults [] ext.faults)
      [] (insert_wonky config [] (tallies env state ext)) (tallies env state ext)

abbrev mixed : List (ℕ × ℕ)
mixed = (2, 7) ∷ (2, 8) ∷ (5, 9) ∷ []

-- A report with one vote for it and one against is wonky; with a culprit it becomes bad as well.
abbrev split : Extrinsic
split = record {
  verdicts =
      record {
        target = 1;
        age = 2;
        votes =
            record { vote = true; index = 0; signature = 7 }
            ∷ record { vote = false; index = 2; signature = 7 }
            ∷ [];
      }
      ∷ [];
  culprits = record { target = 1; key = 10; signature = 7 } ∷ [];
  faults = [];
}

bad_and_wonky :
    (contains (transition env config state split).0.psi.bad 1 ≡ true)
    × (contains (transition env config state split).0.psi.wonky 1 ≡ true)
unfolding program
bad_and_wonky = (refl, refl)

-- A fault alone, on a report that no verdict names, makes the report good.
abbrev orphan : Extrinsic
orphan = record {
  verdicts = [];
  culprits = [];
  faults = record { target = 6; vote = false; key = 11; signature = 7 } ∷ [];
}

orphan_is_good : contains (transition env config state orphan).0.psi.good 6 ≡ true
unfolding program
orphan_is_good = refl
