-- ===== src/Disputes/Types.antt =====
-- The data that disputes.hpp works on. Hashes, keys and signatures are fixed byte arrays, read as
-- numbers (Common.Bytes); a work-report is the bytes that encode it.
use cpp_jam.Common.{ℕ, Bool, true, false, List, [], ◌∷◌, Option, ◌++◌, Result}
use cpp_jam.Common.Bytes.{be_bytes}

pub data Error : Type 0 where
  already_judged bad_vote_split verdicts_not_sorted_unique judgements_not_sorted_unique : Error
  culprits_not_sorted_unique faults_not_sorted_unique not_enough_culprits : Error
  not_enough_faults culprits_verdict_not_bad fault_verdict_wrong : Error
  offender_already_reported bad_judgement_age bad_validator_index bad_signature : Error

pub record Config : Type 0 where
  pub epoch_length : ℕ
  pub validators_super_majority : ℕ

pub record Judgement : Type 0 where
  pub vote : Bool
  pub index : ℕ
  pub signature : ℕ

pub record Verdict : Type 0 where
  pub target : ℕ
  pub age : ℕ
  pub votes : List Judgement

pub record Culprit : Type 0 where
  pub target : ℕ
  pub key : ℕ
  pub signature : ℕ

pub record Fault : Type 0 where
  pub target : ℕ
  pub vote : Bool
  pub key : ℕ
  pub signature : ℕ

pub record Extrinsic : Type 0 where
  pub verdicts : List Verdict
  pub culprits : List Culprit
  pub faults : List Fault

-- The fields of `ValidatorData` that the transition reads.
pub record Validator : Type 0 where
  pub ed25519 : ℕ

-- ψ, with its four sets as the vectors that the state holds.
pub record Records : Type 0 where
  pub good : List ℕ
  pub bad : List ℕ
  pub wonky : List ℕ
  pub offenders : List ℕ

pub record Assignment : Type 0 where
  pub report : List ℕ
  pub timeout : ℕ

pub record State : Type 0 where
  pub psi : Records
  pub rho : List (Option Assignment)
  pub tau : ℕ
  pub kappa : List Validator
  pub lambda : List Validator

-- The output: an error, or the offenders' mark.
abbrev pub Output : Type 0
Output = Result Error (List ℕ)

-- An entry of `vote_count_by_judgements`, with its pair of 16-bit counters.
pub record Tally : Type 0 where
  pub report : ℕ
  pub voted_for : ℕ
  pub voted_against : ℕ

-- What the transition calls and does not implement, and the orders in which the two unordered
-- containers are walked.
pub record Env : Type 0 where
  pub verify : ℕ → ℕ → List ℕ → Bool
  pub hash : List ℕ → ℕ
  pub order_judgements : List (ℕ × Judgement) → List (ℕ × Judgement)
  pub order_tallies : List Tally → List Tally

abbrev pub jam_valid : List ℕ
jam_valid = b'j' ∷ b'a' ∷ b'm' ∷ b'_' ∷ b'v' ∷ b'a' ∷ b'l' ∷ b'i' ∷ b'd' ∷ []

abbrev pub jam_invalid : List ℕ
jam_invalid = b'j' ∷ b'a' ∷ b'm' ∷ b'_' ∷ b'i' ∷ b'n' ∷ b'v' ∷ b'a' ∷ b'l' ∷ b'i' ∷ b'd' ∷ []

abbrev pub jam_guarantee : List ℕ
jam_guarantee =
    b'j' ∷ b'a' ∷ b'm' ∷ b'_' ∷ b'g' ∷ b'u' ∷ b'a' ∷ b'r' ∷ b'a' ∷ b'n' ∷ b't' ∷ b'e' ∷ b'e' ∷ []

-- The domain of a judgment's signature.
abbrev pub judgement_domain : Bool → List ℕ
judgement_domain true = jam_valid
judgement_domain false = jam_invalid

-- The signature of a statement on a report: over the domain, then the report's 32-byte hash.
unfoldable pub ed25519_verify : Env → ℕ → ℕ → List ℕ → ℕ → Bool
ed25519_verify env sig key domain work_report =
    env.verify sig key (domain ++ be_bytes 32 work_report)
