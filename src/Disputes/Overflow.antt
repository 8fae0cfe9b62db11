-- ===== src/Disputes/Overflow.antt =====
-- The 16-bit counters do not wrap for verdicts that passed their checks.
use mathlib.Core.List.{Permᴰ}
use cpp_jam.Common.{
  ℕ, ◌+◌, ◌-◌, ◌^◌, ◌≤◌, ◌<◌, ◌≡◌, refl, Bool, false, List, [], ◌∷◌, ◌++◌, map, Option, none, some,
  ◌==◌, arith, Bool-cases, inl, inr, All, length, get_elem?_ge,
}
use cpp_jam.Common.Sets.{IsAscending}
use cpp_jam.Disputes.Types.{Env, Config, State, Records, Judgement, Verdict, Validator}
use cpp_jam.Disputes.Check.{register, entries, is_judged, validators_of}
use cpp_jam.Disputes.Tally.{find_tally, tally_votes}
use cpp_jam.Disputes.Votes.{IsVerdict, IsSigned, targets, indices}
use cpp_jam.Disputes.Counts.{votes, counter, tally_votes-counts}

signed_lt :
    (env : Env) (validators : List Validator) (report : ℕ) (j : Judgement)
    → IsSigned env validators report j
    → j.index < length validators
signed_lt env validators report j s = ground (arith, get_elem?_ge validators j.index)

-- Votes by distinct validators are at most as many as the validators.
length-le-validators :
    (env : Env) (validators : List Validator) (report p : ℕ) (js : List Judgement)
    → IsAscending (some p) (indices js)
    → All (IsSigned env validators report) js
    → p < length validators
    → length js + p < length validators
length-le-validators env validators report p [] a s h = omega arith
length-le-validators env validators report p (j ∷ js) a s h = omega (
  arith,
  length-le-validators env validators report j.index js a.1 s.1
      (signed_lt env validators report j s.0),
)

length-votes-le :
    (env : Env) (validators : List Validator) (report : ℕ) (js : List Judgement)
    → IsAscending none (indices js)
    → All (IsSigned env validators report) js
    → length js ≤ length validators
length-votes-le env validators report [] a s = omega arith
length-votes-le env validators report (j ∷ js) a s = omega (
  arith,
  length-le-validators env validators report j.index js a.1 s.1
      (signed_lt env validators report j s.0),
)

votes-entries-le :
    (r : ℕ) (b : Bool) (q : ℕ) (js : List Judgement) → votes r b (map (λ j. (q, j)) js) ≤ length js
unfolding votes
votes-entries-le r b q [] = omega arith
votes-entries-le r b q (j ∷ js) = ground (arith, votes-entries-le r b q js)

votes-entries_ne :
    (r : ℕ) (b : Bool) (q : ℕ) (js : List Judgement)
    → (q == r) ≡ false
    → votes r b (map (λ j. (q, j)) js) ≡ 0
unfolding votes
votes-entries_ne r b q [] h = refl
votes-entries_ne r b q (j ∷ js) h = rw h (ground (arith, votes-entries_ne r b q js h))

votes-append :
    (r : ℕ) (b : Bool) (xs ys : List (ℕ × Judgement))
    → votes r b (xs ++ ys) ≡ votes r b xs + votes r b ys
unfolding votes
votes-append r b [] ys = omega arith
votes-append r b (x ∷ xs) ys = omega (arith, votes-append r b xs ys)

-- Nothing is registered for a report up to the last one seen.
votes-register_above :
    (psi : Records) (r : ℕ) (b : Bool) (p : ℕ) (vs : List Verdict)
    → IsAscending (some p) (targets vs)
    → r ≤ p
    → votes r b (register psi vs) ≡ 0
unfolding register votes
votes-register_above psi r b p [] a h = refl
votes-register_above psi r b p (v ∷ vs) a h =
    let rest = votes-register_above psi r b v.target vs a.1 (omega arith) in
    elim (Bool-cases (is_judged psi v.target)) [
      | inl e ↦ rw e rest
      | inr e ↦
          rw (e, votes-append r b (entries v) (register psi vs), rest)
            (omega (arith, votes-entries_ne r b v.target v.votes (ground arith)))
    ]

module _ (env : Env) (config : Config) (state : State) (n : ℕ) where
  abbrev AreSmall : Type 0
  AreSmall = (length state.kappa ≤ n) × (length state.lambda ≤ n)

  votes-verdict-le : (v : Verdict) → AreSmall → IsVerdict env config state v → length v.votes ≤ n
  votes-verdict-le v h i = ground (
    arith,
    length-votes-le env (validators_of config state v) v.target v.votes i.ascending i.signed,
  )

  votes-register-le :
      (r : ℕ) (b : Bool) (p : Option ℕ) (vs : List Verdict)
      → AreSmall
      → IsAscending p (targets vs)
      → All (IsVerdict env config state) vs
      → votes r b (register state.psi vs) ≤ n
  unfolding register votes
  votes-register-le r b p [] h a i = omega arith
  votes-register-le r b p (v ∷ vs) h a i =
      let rest = votes-register-le r b (some v.target) vs h a.1 i.1 in
      elim (Bool-cases (is_judged state.psi v.target)) [
        | inl e ↦ rw e rest
        | inr e ↦
            rw (e, votes-append r b (entries v) (register state.psi vs))
              (elim (Bool-cases (v.target == r)) [
                | inl same ↦ omega (
                  arith,
                  votes-register_above state.psi r b v.target vs a.1 (ground arith),
                  votes-entries-le r b v.target v.votes,
                  votes-verdict-le v h i.0,
                )
                | inr other ↦ omega (arith, votes-entries_ne r b v.target v.votes other, rest)
              ])
      ]

-- For verdicts that passed their checks, with validator sets of less than 2^16 members, a counter
-- is the number of votes itself: it does not wrap.
pub tally_votes-exact :
    (env : Env) (config : Config) (state : State) (vs : List Verdict) (r : ℕ) (b : Bool)
    → Permᴰ (env.order_judgements (register state.psi vs)) (register state.psi vs)
    → length state.kappa < 2 ^ 16
    → length state.lambda < 2 ^ 16
    → IsAscending none (targets vs)
    → All (IsVerdict env config state) vs
    → counter b (find_tally r (tally_votes env (register state.psi vs)))
      ≡ votes r b (register state.psi vs)
tally_votes-exact env config state vs r b p hk hl a i = omega (
  arith,
  tally_votes-counts env (register state.psi vs) r b p,
  votes-register-le env config state (2 ^ 16 - 1) r b none vs (omega arith, omega arith) a i,
)
