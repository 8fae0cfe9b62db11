-- ===== src/Disputes/Check.antt =====
-- The checks of verdicts, culprits and faults: disputes.hpp, the three loops over the extrinsic.
use cpp_jam.Common.{
  ℕ, ◌-◌, ◌/◌, Bool, false, not, ◌&&◌, ◌||◌, List, [], ◌∷◌, ◌++◌, map, Option, none, some, Result,
  ok, ◌>>=◌, ◌>>◌, fail_if, or_fail, leb, ltb, ◌==◌, if◌then◌else◌, length, get_elem?,
}
use cpp_jam.Common.Sets.{contains}
use cpp_jam.Disputes.Types.{
  Env, Config, State, Records, Error, Judgement, Verdict, Culprit, Fault, Validator,
  judgement_domain, jam_guarantee, ed25519_verify, bad_judgement_age, verdicts_not_sorted_unique,
  judgements_not_sorted_unique, not_enough_culprits, bad_validator_index, bad_signature,
  already_judged, culprits_not_sorted_unique, offender_already_reported, fault_verdict_wrong,
  faults_not_sorted_unique,
}
use cpp_jam.Disputes.Multimap.{multi_insert}

-- `prev >= x` for an optional `prev`: an empty one is less than every value.
abbrev pub at_least : Option ℕ → ℕ → Bool
at_least none x = false
at_least (some p) x = leb x p

abbrev pub current_epoch : Config → State → ℕ
current_epoch config state = state.tau / config.epoch_length

-- Epoch 0 is its own previous epoch.
abbrev pub previous_epoch : Config → State → ℕ
previous_epoch config state = let e = current_epoch config state in if e == 0 then 0 else e - 1

-- κ for a verdict of the current epoch, else λ.
abbrev pub validators_of : Config → State → Verdict → List Validator
validators_of config state v =
    if v.age == current_epoch config state then state.kappa else state.lambda

abbrev pub is_judged : Records → ℕ → Bool
is_judged psi report =
    contains psi.bad report || contains psi.good report || contains psi.wonky report

unfoldable pub check_votes :
    Env → List Validator → ℕ → Option ℕ → List Judgement → Result Error (Unit {0})
check_votes env validators report prev [] = ok tt
check_votes env validators report prev (j ∷ js) = do
  fail_if (at_least prev j.index) judgements_not_sorted_unique
  validator ← or_fail (get_elem? validators j.index) bad_validator_index
  fail_if (not (ed25519_verify env j.signature validator.ed25519 (judgement_domain j.vote) report))
      bad_signature
  check_votes env validators report (some j.index) js

unfoldable pub check_verdict : Env → Config → State → Option ℕ → Verdict → Result Error (Unit {0})
check_verdict env config state prev v = do
  fail_if (not (v.age == current_epoch config state) && not (v.age == previous_epoch config state))
      bad_judgement_age
  fail_if (at_least prev v.target) verdicts_not_sorted_unique
  fail_if (ltb (length v.votes) config.validators_super_majority) not_enough_culprits
  check_votes env (validators_of config state v) v.target none v.votes

-- The entries that a verdict adds to the registry of judgements.
abbrev pub entries : Verdict → List (ℕ × Judgement)
entries v = map (λ j. (v.target, j)) v.votes

-- The registry that the loop builds: the votes of the verdicts on reports that are not judged yet.
unfoldable pub register : Records → List Verdict → List (ℕ × Judgement)
register psi [] = []
register psi (v ∷ vs) =
    let rest = register psi vs in if is_judged psi v.target then rest else entries v ++ rest

-- The loop over the verdicts, with the registry as its result.
unfoldable pub check_verdicts :
    Env
    → Config
    → State
    → Option ℕ
    → List (ℕ × Judgement)
    → List Verdict
    → Result Error (List (ℕ × Judgement))
check_verdicts env config state prev reg [] = ok reg
check_verdicts env config state prev reg (v ∷ vs) = do
  check_verdict env config state prev v
  check_verdicts env config state (some v.target)
      (if is_judged state.psi v.target then reg else reg ++ entries v) vs

-- Some validator of the set has the key.
unfoldable pub has_key : List Validator → ℕ → Bool
has_key [] key = false
has_key (v ∷ vs) key = v.ed25519 == key || has_key vs key

unfoldable pub check_culprit : Env → State → Option ℕ → Culprit → Result Error (Unit {0})
check_culprit env state prev c = do
  fail_if (not (ed25519_verify env c.signature c.key jam_guarantee c.target)) bad_signature
  fail_if (contains state.psi.bad c.target) already_judged
  fail_if (not (has_key state.kappa c.key)) bad_validator_index
  fail_if (at_least prev c.key) culprits_not_sorted_unique
  fail_if (contains state.psi.offenders c.key) offender_already_reported

unfoldable pub check_culprits :
    Env → State → Option ℕ → List (ℕ × Culprit) → List Culprit → Result Error (List (ℕ × Culprit))
check_culprits env state prev reg [] = ok reg
check_culprits env state prev reg (c ∷ cs) = do
  check_culprit env state prev c
  check_culprits env state (some c.key) (multi_insert c.target c reg) cs

unfoldable pub check_fault : Env → State → Option ℕ → Fault → Result Error (Unit {0})
check_fault env state prev f = do
  fail_if (contains state.psi.wonky f.target) already_judged
  fail_if
      ((not f.vote && contains state.psi.bad f.target)
        || (f.vote && contains state.psi.good f.target))
      fault_verdict_wrong
  fail_if (not (has_key state.kappa f.key)) bad_validator_index
  fail_if (not (ed25519_verify env f.signature f.key (judgement_domain f.vote) f.target))
      bad_signature
  fail_if (at_least prev f.key) faults_not_sorted_unique
  fail_if (contains state.psi.offenders f.key) offender_already_reported

unfoldable pub check_faults :
    Env → State → Option ℕ → List (ℕ × Fault) → List Fault → Result Error (List (ℕ × Fault))
check_faults env state prev reg [] = ok reg
check_faults env state prev reg (f ∷ fs) = do
  check_fault env state prev f
  check_faults env state (some f.key) (multi_insert f.target f reg) fs
