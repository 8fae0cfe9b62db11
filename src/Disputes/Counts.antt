-- ===== src/Disputes/Counts.antt =====
-- The counters of `vote_count_by_judgements` hold the votes on each report, whatever the order of
-- the walk over the registry.
use mathlib.Core.List.{Permᴰ}
use mathlib.Core.Path.{ap₂}
use cpp_jam.Common.{
  ℕ, ◌+◌, ◌%◌, ◌^◌, ◌<◌, ◌≡◌, refl, ap, ◌∙◌, Bool, true, false, not, ◌&&◌, List, [], ◌∷◌, Option,
  none, some, ◌==◌, if◌then◌else◌, arith,
}
use cpp_jam.Disputes.Types.{Env, Judgement, Tally}
use cpp_jam.Disputes.Tally.{count_vote, count_votes, tally_votes, find_tally}

-- The votes on `r` for or against it.
unfoldable pub votes : ℕ → Bool → List (ℕ × Judgement) → ℕ
votes r b [] = 0
votes r b ((q, j) ∷ reg) =
    (if q == r && (if b then j.vote else not j.vote) then 1 else 0) + votes r b reg

abbrev pub counter : Bool → Option Tally → ℕ
counter b none = 0
counter true (some t) = t.voted_for
counter false (some t) = t.voted_against

find-count_vote :
    (r q : ℕ) (b vote : Bool) (ts : List Tally)
    → counter b (find_tally r (count_vote q vote ts)) ≡ (
        if q == r && (if b then vote else not vote)
        then (counter b (find_tally r ts) + 1) % 2 ^ 16
        else counter b (find_tally r ts))
unfolding find_tally count_vote
find-count_vote r q true true [] = ground arith
find-count_vote r q true false [] = ground arith
find-count_vote r q false true [] = ground arith
find-count_vote r q false false [] = ground arith
find-count_vote r q true true (t ∷ ts) = ground (arith, find-count_vote r q true true ts)
find-count_vote r q true false (t ∷ ts) = ground (arith, find-count_vote r q true false ts)
find-count_vote r q false true (t ∷ ts) = ground (arith, find-count_vote r q false true ts)
find-count_vote r q false false (t ∷ ts) = ground (arith, find-count_vote r q false false ts)

find-count_votes :
    (r : ℕ) (b : Bool) (ts : List Tally) (reg : List (ℕ × Judgement))
    → counter b (find_tally r ts) < 2 ^ 16
    → counter b (find_tally r (count_votes ts reg))
      ≡ (counter b (find_tally r ts) + votes r b reg) % 2 ^ 16
unfolding count_votes votes
find-count_votes r b ts [] h = omega arith
find-count_votes r b ts ((q, j) ∷ reg) h =
    ground
      (arith, find-count_vote r q b j.vote ts, find-count_votes r b (count_vote q j.vote ts) reg)

-- What one entry adds.
abbrev weight : ℕ → Bool → ℕ × Judgement → ℕ
weight r b (q, j) = if q == r && (if b then j.vote else not j.vote) then 1 else 0

votes-perm :
    (r : ℕ) (b : Bool) {reg reg' : List (ℕ × Judgement)}
    → Permᴰ reg reg'
    → votes r b reg ≡ votes r b reg'
unfolding votes
votes-perm r b Permᴰ.nil = refl
votes-perm r b (Permᴰ.cons e d) = ap₂ ◌+◌ (ap (weight r b) e) (votes-perm r b d)
votes-perm r b (Permᴰ.swap {a = x} {b = y} {l = l} e f) =
    omega (arith, ap (weight r b) e, ap (weight r b) f)
votes-perm r b (Permᴰ.trans d e) = votes-perm r b d ∙ votes-perm r b e

-- After the loop each counter is the number of votes on its report, modulo 2^16, in whatever order
-- the unordered multimap is walked.
pub tally_votes-counts :
    (env : Env) (reg : List (ℕ × Judgement)) (r : ℕ) (b : Bool)
    → Permᴰ (env.order_judgements reg) reg
    → counter b (find_tally r (tally_votes env reg)) ≡ votes r b reg % 2 ^ 16
unfolding tally_votes find_tally
tally_votes-counts env reg r true p = omega (
  arith,
  find-count_votes r true [] (env.order_judgements reg) (omega arith),
  votes-perm r true p,
)
tally_votes-counts env reg r false p = omega (
  arith,
  find-count_votes r false [] (env.order_judgements reg) (omega arith),
  votes-perm r false p,
)
