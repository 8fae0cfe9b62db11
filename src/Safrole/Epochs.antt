-- ===== src/Safrole/Epochs.antt =====
-- What a call of `transition` of safrole.hpp does to the accumulator, and to validators and entropy
-- when the epoch changes.
use mathlib.Core.Path.{subst}
use mathlib.Core.Logic.{◌⊎◌, inl, inr}
use cpp_jam.Common.{
  ℕ, zero, suc, some, get_elem?, if◌then◌else◌, ◌+◌, ◌≤◌, ◌≡◌, refl, sym, ap, ◌∙◌, false, List, [],
  ◌∷◌, map, none, ok, length, arith, Bool-cases, All,
}
use cpp_jam.Common.Sets
use cpp_jam.Common.Sets.{IsAscending}
use cpp_jam.Safrole.Types.{Env, Config, State, Input, Validator, TicketBody}
use cpp_jam.Safrole.Accumulate.{insert, insert_all}
use cpp_jam.Safrole.Lowest.{length-insert-le, insert_all-IsAscending, accumulate-IsAscending}
use cpp_jam.Safrole.Transition.{
  change_epoch, start_accumulator, transition, without_offenders, Output, no_validator,
}
use cpp_jam.Safrole.Outcome.{eta, outcome, finished-Finished}

length-insert_all-le : (ts s : List TicketBody) → length (insert_all ts s) ≤ length ts + length s
unfolding insert_all
length-insert_all-le [] s = omega arith
length-insert_all-le (t ∷ ts) s =
    omega (arith, length-insert_all-le ts (insert t s), length-insert-le t s)

start-le :
    (config : Config) (state : State) (input : Input)
    → length state.gamma_a ≤ config.epoch_length
    → length (start_accumulator config state input) ≤ config.epoch_length
start-le config state input h = elim (Bool-cases (change_epoch config state input)) [
  | inl changed ↦ rw changed (omega arith)
  | inr same ↦ rw same (omega (arith, length-insert_all-le state.gamma_a []))
]

start-IsAscending :
    (config : Config) (state : State) (input : Input)
    → IsAscending none (map (λ u. u.id) (start_accumulator config state input))
start-IsAscending config state input = elim (Bool-cases (change_epoch config state input)) [
  | inl changed ↦ rw changed tt
  | inr same ↦ rw same (insert_all-IsAscending state.gamma_a [] tt)
]

-- The offenders' entries of γ′k are blank, and the set keeps its size.
pub without_offenders-All :
    (offenders : List ℕ) (vs : List Validator)
    → (length (without_offenders offenders vs) ≡ length vs)
      × All
          (λ v. (v ≡ no_validator) ⊎ (Sets.contains offenders v.ed25519 ≡ false))
          (without_offenders offenders vs)
unfolding without_offenders
without_offenders-All offenders [] = (refl, tt)
without_offenders-All offenders (v ∷ vs) =
    let (size, rest) = without_offenders-All offenders vs in
    elim (Bool-cases (Sets.contains offenders v.ed25519)) [
      | inl bad ↦ rw bad (ap suc size, (inl refl, rest))
      | inr good ↦ rw good (ap suc size, (inr good, rest))
    ]

-- Each place of γ′k has the queued validator of the place, or a blank one for an offender.
pub get_elem?-without_offenders :
    (offenders : List ℕ) (vs : List Validator) (i : ℕ) (v : Validator)
    → get_elem? vs i ≡ some v
    → get_elem? (without_offenders offenders vs) i
      ≡ some (if Sets.contains offenders v.ed25519 then no_validator else v)
unfolding without_offenders
get_elem?-without_offenders offenders [] i v h = absurd (cc)
get_elem?-without_offenders offenders (u ∷ vs) zero v h =
    let same : u ≡ v = cc in
    ap (λ (x : Validator). some (if Sets.contains offenders x.ed25519 then no_validator else x))
      same
get_elem?-without_offenders offenders (u ∷ vs) (suc i) v h =
    get_elem?-without_offenders offenders vs i v h

module _ (env : Env) (config : Config) (state : State) (input : Input) where
  -- Whatever a call answers, the accumulator stays within the limit E and strictly ascending by
  -- identifier when it was.
  pub transition_accumulator-IsAscending :
      (state' : State) (output : Output)
      → length state.gamma_a ≤ config.epoch_length
      → IsAscending none (map (λ u. u.id) state.gamma_a)
      → transition env config state input ≡ ok (state', output)
      → (length state'.gamma_a ≤ config.epoch_length)
        × IsAscending none (map (λ u. u.id) state'.gamma_a)
  transition_accumulator-IsAscending state' output small ascending h =
      elim (outcome env config state input) [
        | inl (e, refused) ↦
            let same : state ≡ state' = cc in
            subst
              (λ s.
                (length s.gamma_a ≤ config.epoch_length)
                × IsAscending none (map (λ u. u.id) s.gamma_a))
              same (small, ascending)
        | inr (inl (why, thrown, cause)) ↦ absurd (cc)
        | inr (inr (late, few, rotation, turned, gamma_a, taken, run)) ↦
            let (gamma_s, mark, sealed, s, out) =
              finished-Finished env config state input rotation gamma_a state' output
                (sym run ∙ h) in
            subst (λ a. (length a ≤ config.epoch_length) × IsAscending none (map (λ u. u.id) a))
              (sym (ap (λ x. x.gamma_a) s))
              (accumulate-IsAscending env config state.gamma_z (eta env config state input).eta_2
                (start_accumulator config state input) gamma_a input.extrinsic
                (start-le config state input small) (start-IsAscending config state input) taken)
      ]
