-- ===== src/Disputes/Votes.antt =====
-- When the checks of the verdicts pass: disputes.hpp, the loop over `verdicts`.
use cpp_jam.Common.{
  ℕ, ◌≤◌, ◌≡◌, refl, sym, ap, ◌∙◌, ◌↔◌, ◌⊎◌, inl, inr, Bool, true, false, List, [], ◌∷◌, ◌++◌, map,
  Option, none, some, ok, >>=-eq-ok, length, get_elem?, arith, Option-cases, All, if◌then◌else◌,
}
use mathlib.Core.List.{append-nil, append_assoc}
use cpp_jam.Common.Sets.{IsAscending, Follows}
use cpp_jam.Disputes.Types.{
  Env, Config, State, Judgement, Verdict, Validator, judgement_domain, ed25519_verify,
}
use cpp_jam.Disputes.Check.{
  at_least, check_votes, check_verdict, check_verdicts, current_epoch, previous_epoch,
  validators_of, register, is_judged,
}

pub at_least-Follows : (p : Option ℕ) (x : ℕ) → at_least p x ≡ false → Follows p x
at_least-Follows none x h = tt
at_least-Follows (some p) x h = ground arith

pub Follows-at_least : (p : Option ℕ) (x : ℕ) → Follows p x → at_least p x ≡ false
Follows-at_least none x h = refl
Follows-at_least (some p) x h = ground arith

-- The vote is by a validator of the set, who has signed it.
abbrev pub IsSigned : Env → List Validator → ℕ → Judgement → Type 0
IsSigned env validators report j =
    (v : Validator) × (get_elem? validators j.index ≡ some v)
    × (ed25519_verify env j.signature v.ed25519 (judgement_domain j.vote) report ≡ true)

abbrev pub indices : List Judgement → List ℕ
indices js = map (λ j. j.index) js

module _ (env : Env) (validators : List Validator) (report : ℕ) where
  check_votes_sound :
      (p : Option ℕ) (js : List Judgement)
      → check_votes env validators report p js ≡ ok tt
      → IsAscending p (indices js) × All (IsSigned env validators report) js
  unfolding check_votes
  check_votes_sound p [] h = (tt, tt)
  check_votes_sound p (j ∷ js) h = elim (Option-cases (get_elem? validators j.index)) [
    | inl e ↦ absurd (ground arith)
    | inr (v, e) ↦
        let rest = check_votes_sound (some j.index) js (ground arith) in
        ((at_least-Follows p j.index (ground arith), rest.0), ((v, e, ground arith), rest.1))
  ]

  check_votes_complete :
      (p : Option ℕ) (js : List Judgement)
      → IsAscending p (indices js)
      → All (IsSigned env validators report) js
      → check_votes env validators report p js ≡ ok tt
  unfolding check_votes
  check_votes_complete p [] a s = refl
  check_votes_complete p (j ∷ js) a s = ground (
    arith,
    Follows-at_least p j.index a.0,
    s.0.1,
    s.0.2,
    check_votes_complete (some j.index) js a.1 s.1,
  )

-- The verdict is of this epoch or the one before, has the votes of a super majority, and each vote
-- is signed by a validator of the epoch's set, in strictly ascending order of their indices.
pub record IsVerdict (env : Env) (config : Config) (state : State) (v : Verdict) : Type 0 where
  pub age : (v.age ≡ current_epoch config state) ⊎ (v.age ≡ previous_epoch config state)
  pub enough : config.validators_super_majority ≤ length v.votes
  pub ascending : IsAscending none (indices v.votes)
  pub signed : All (IsSigned env (validators_of config state v) v.target) v.votes

abbrev pub targets : List Verdict → List ℕ
targets vs = map (λ v. v.target) vs

regroup :
    (b : Bool) (acc es rest : List (ℕ × Judgement))
    → (if b then acc else acc ++ es) ++ rest ≡ acc ++ (if b then rest else es ++ rest)
regroup true acc es rest = refl
regroup false acc es rest = append_assoc acc es rest

module _ (env : Env) (config : Config) (state : State) where
  check_verdict_sound :
      (p : Option ℕ) (v : Verdict)
      → check_verdict env config state p v ≡ ok tt
      → Follows p v.target × IsVerdict env config state v
  unfolding check_verdict
  check_verdict_sound p v h =
      let votes =
        check_votes_sound env (validators_of config state v) v.target none v.votes (ground arith) in
      (
        at_least-Follows p v.target (ground arith),
        record { age = ground arith; enough = ground arith; ascending = votes.0; signed = votes.1 },
      )

  check_verdict_complete :
      (p : Option ℕ) (v : Verdict)
      → Follows p v.target
      → IsVerdict env config state v
      → check_verdict env config state p v ≡ ok tt
  unfolding check_verdict
  check_verdict_complete p v a i = ground (
    arith,
    Follows-at_least p v.target a,
    check_votes_complete env (validators_of config state v) v.target none v.votes i.ascending
        i.signed,
  )

  check_verdicts_sound :
      (p : Option ℕ) (acc reg : List (ℕ × Judgement)) (vs : List Verdict)
      → check_verdicts env config state p acc vs ≡ ok reg
      → IsAscending p (targets vs)
        × All (IsVerdict env config state) vs
        × (reg ≡ acc ++ register state.psi vs)
  unfolding check_verdicts register
  check_verdicts_sound p acc reg [] h = (tt, tt, rw append-nil (ground arith))
  check_verdicts_sound p acc reg (v ∷ vs) h =
      let (u, checked, next) = >>=-eq-ok (check_verdict env config state p v) _ h in
      let first = check_verdict_sound p v checked in
      let (asc, valid, e) = check_verdicts_sound (some v.target) _ reg vs next in
      ((first.0, asc), (first.1, valid), e ∙ regroup (is_judged state.psi v.target) acc _ _)

  check_verdicts_complete :
      (p : Option ℕ) (acc : List (ℕ × Judgement)) (vs : List Verdict)
      → IsAscending p (targets vs)
      → All (IsVerdict env config state) vs
      → check_verdicts env config state p acc vs ≡ ok (acc ++ register state.psi vs)
  unfolding check_verdicts register
  check_verdicts_complete p acc [] a i = rw append-nil
  check_verdicts_complete p acc (v ∷ vs) a i = rw (check_verdict_complete p v a.0 i.0) (
      check_verdicts_complete (some v.target) _ vs a.1 i.1
      ∙ ap ok (regroup (is_judged state.psi v.target) acc _ _))

  pub check_verdicts_iff :
      (reg : List (ℕ × Judgement)) (vs : List Verdict)
      → (check_verdicts env config state none [] vs ≡ ok reg) ↔ (
          IsAscending none (targets vs)
          × All (IsVerdict env config state) vs
          × (reg ≡ register state.psi vs))
  check_verdicts_iff reg vs = (
    check_verdicts_sound none [] reg vs,
    λ h. check_verdicts_complete none [] vs h.0 h.1 ∙ ap ok (sym h.2),
  )
