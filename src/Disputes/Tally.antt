-- ===== src/Disputes/Tally.antt =====
-- The count of votes for each report, and the verdict that a count gives.
use cpp_jam.Common.{
  ℕ, ◌+◌, ◌/◌, ◌%◌, ◌^◌, Bool, true, false, not, ◌&&◌, List, [], ◌∷◌, Option, none, some, Result,
  ok, err, ◌>>=◌, ◌>>◌, fail_if, ltb, ◌==◌, if◌then◌else◌,
}
use cpp_jam.Common.Sets.{insert}
use cpp_jam.Disputes.Types.{
  Env, Config, Error, Judgement, Culprit, Fault, Tally, bad_vote_split, not_enough_culprits,
  culprits_verdict_not_bad, not_enough_faults,
}
use cpp_jam.Disputes.Multimap.{count}

-- `++` on a 16-bit counter.
abbrev pub next_u16 : ℕ → ℕ
next_u16 n = (n + 1) % 2 ^ 16

abbrev pub add_vote : Bool → Tally → Tally
add_vote true t = record t { voted_for = next_u16 t.voted_for }
add_vote false t = record t { voted_against = next_u16 t.voted_against }

-- `++` of a counter of `vote_count_by_judgements[report]`, which makes a missing entry of zeros.
unfoldable pub count_vote : ℕ → Bool → List Tally → List Tally
count_vote r vote [] = add_vote vote (record { report = r; voted_for = 0; voted_against = 0 }) ∷ []
count_vote r vote (t ∷ ts) =
    if t.report == r then add_vote vote t ∷ ts else t ∷ count_vote r vote ts

unfoldable pub count_votes : List Tally → List (ℕ × Judgement) → List Tally
count_votes ts [] = ts
count_votes ts ((r, j) ∷ reg) = count_votes (count_vote r j.vote ts) reg

-- `vote_count_by_judgements` after the loop over the registry.
unfoldable pub tally_votes : Env → List (ℕ × Judgement) → List Tally
tally_votes env reg = count_votes [] (env.order_judgements reg)

unfoldable pub find_tally : ℕ → List Tally → Option Tally
find_tally r [] = none
find_tally r (t ∷ ts) = if t.report == r then some t else find_tally r ts

-- A culprit whose report has no verdict here, or one with no vote against it.
abbrev pub lacks_vote_against : Option Tally → Bool
lacks_vote_against none = true
lacks_vote_against (some t) = t.voted_against == 0

-- The second check of the culprits, over the keys of their registry.
unfoldable pub recheck_culprits : List Tally → List (ℕ × Culprit) → Result Error (Unit {0})
recheck_culprits ts [] = ok tt
recheck_culprits ts ((r, c) ∷ reg) = do
  fail_if (lacks_vote_against (find_tally r ts)) culprits_verdict_not_bad
  recheck_culprits ts reg

pub data Outcome : Type 0 where
  bad good wonky : Outcome

unfoldable pub judge : Config → Tally → Result Error Outcome
judge config t =
    if t.voted_against == config.validators_super_majority
    then ok bad
    else if t.voted_for == config.validators_super_majority
    then ok good
    else if t.voted_for == config.validators_super_majority / 2 && not (t.voted_against == 0)
    then ok wonky
    else err bad_vote_split

-- The `switch`: what a verdict of each kind asks of the registries, and the new wonky set.
unfoldable pub apply_outcome :
    List (ℕ × Culprit) → List (ℕ × Fault) → List ℕ → Tally → Outcome → Result Error (List ℕ)
apply_outcome culprits faults wonky_set t bad = do
  fail_if (ltb (count t.report culprits) 2) not_enough_culprits
  ok wonky_set
apply_outcome culprits faults wonky_set t good = do
  fail_if (not (count t.report culprits == 0)) culprits_verdict_not_bad
  fail_if (ltb (count t.report faults) 1) not_enough_faults
  ok wonky_set
apply_outcome culprits faults wonky_set t wonky = ok (insert t.report wonky_set)

-- The loop over the counts.
unfoldable pub analyse_verdicts :
    Config → List (ℕ × Culprit) → List (ℕ × Fault) → List ℕ → List Tally → Result Error (List ℕ)
analyse_verdicts config culprits faults wonky_set [] = ok wonky_set
analyse_verdicts config culprits faults wonky_set (t ∷ ts) = do
  outcome ← judge config t
  wonky_set' ← apply_outcome culprits faults wonky_set t outcome
  analyse_verdicts config culprits faults wonky_set' ts
