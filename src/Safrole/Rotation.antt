-- ===== src/Safrole/Rotation.antt =====
-- `transition` of safrole.hpp within an epoch and across its end: validators, entropy and marks.
use mathlib.Core.Logic.{◌⊎◌, inl, inr}
use cpp_jam.Common.{
  ℕ, or_fail, >>=-eq-ok, or_fail-eq-ok, get_elem?, if◌then◌else◌, ◌+◌, ◌/◌, ◌%◌, ◌^◌, ◌≡◌, refl,
  sym, ap, ◌∙◌, true, false, not, List, none, some, Result, ok, ◌==◌, length, arith, Bool-cases,
  ==_iff, ==_refl,
}
use cpp_jam.Common.Sets
use cpp_jam.Safrole.Types.{
  Env, Config, State, Input, Throw, Validator, TicketBody, TicketsOrKeys, OutputData, no_commitment,
}
use cpp_jam.Safrole.Transition.{
  change_epoch, epoch_of, Rotation, ring_root, without_offenders, rotate, next_entropy, next_seal,
  epoch_mark, transition, bandersnatch_keys, no_validator,
}
use cpp_jam.Safrole.Outcome.{eta, rotated, outcome, finished-Finished, Finished}
use cpp_jam.Safrole.Epochs.{without_offenders-All, get_elem?-without_offenders}

-- Within an epoch only η0 moves: the validator sets, the older entropy and the seal are kept, and
-- no epoch mark is given.
abbrev pub KeepsEpoch : State → State → OutputData → Type 0
KeepsEpoch state state' output =
    (state'.gamma_k ≡ state.gamma_k)
    × (state'.kappa ≡ state.kappa)
    × (state'.lambda ≡ state.lambda)
    × (state'.gamma_z ≡ state.gamma_z)
    × (state'.gamma_s ≡ state.gamma_s)
    × (state'.eta.eta_1 ≡ state.eta.eta_1)
    × (state'.eta.eta_2 ≡ state.eta.eta_2)
    × (state'.eta.eta_3 ≡ state.eta.eta_3)
    × (output.epoch_mark ≡ none)

-- A new epoch moves each validator set and each entropy one place on. The next set is the queued
-- one, in which an offender's entry is blank and every other is kept; the ring's commitment and the mark are of that set.
abbrev pub StartsEpoch : Env → Config → State → State → OutputData → Type 0
StartsEpoch env config state state' output =
    (length state'.gamma_k ≡ length state.iota)
    × (state'.kappa ≡ state.gamma_k)
    × (state'.lambda ≡ state.kappa)
    × ((i : ℕ) (v : Validator)
        → get_elem? state.iota i ≡ some v
        → get_elem? state'.gamma_k i
          ≡ some (if Sets.contains state.post_offenders v.ed25519 then no_validator else v))
    × (env.ring_commitment config.validators_count (bandersnatch_keys state'.gamma_k)
        ≡ some state'.gamma_z)
    × (state'.eta.eta_1 ≡ state.eta.eta_0)
    × (state'.eta.eta_2 ≡ state.eta.eta_1)
    × (state'.eta.eta_3 ≡ state.eta.eta_2)
    × (output.epoch_mark
        ≡ some (record {
          entropy = state.eta.eta_0;
          tickets_entropy = state.eta.eta_1;
          validators = bandersnatch_keys state'.gamma_k;
        }))

-- No epoch follows itself, in 32-bit arithmetic either.
not_next : (e : ℕ) → (e == (e + 1) % 2 ^ 32) ≡ false
not_next e = elim (Bool-cases (e == (e + 1) % 2 ^ 32)) [
  | inl same ↦
      let looped : e ≡ (e + 1) % 4294967296 = (==_iff e ((e + 1) % 2 ^ 32)).0 same in
      absurd (omega arith)
  | inr other ↦ other
]

next_seal-same :
    (env : Env) (config : Config) (state : State) (input : Input) (eta_2 : ℕ)
    (kappa : List Validator)
    → epoch_of config input.slot ≡ epoch_of config state.tau
    → next_seal env config state input eta_2 kappa ≡ ok state.gamma_s
unfolding next_seal
next_seal-same env config state input eta_2 kappa same =
    rw (same, not_next (state.tau / config.epoch_length), ==_refl (state.tau / config.epoch_length))
      refl

module _ (env : Env) (config : Config) (state : State) (input : Input) (state' : State)
    (output : OutputData) where
  rotate-false :
      (rotation : Rotation)
      → rotate env config state false ≡ ok rotation
      → rotation ≡ record {
        gamma_k = state.gamma_k;
        kappa = state.kappa;
        lambda = state.lambda;
        gamma_z = state.gamma_z;
      }
  unfolding rotate
  rotate-false rotation h = cc

  rotate-true :
      (rotation : Rotation)
      → rotate env config state true ≡ ok rotation
      → (gamma_z : ℕ) × (env.ring_commitment config.validators_count
            (bandersnatch_keys (without_offenders state.post_offenders state.iota))
          ≡ some gamma_z)
        × (rotation ≡ record {
          gamma_k = without_offenders state.post_offenders state.iota;
          kappa = state.gamma_k;
          lambda = state.kappa;
          gamma_z = gamma_z;
        })
  unfolding rotate ring_root
  rotate-true rotation h =
      let (gamma_z, root, last) =
        >>=-eq-ok
          (or_fail
            (env.ring_commitment config.validators_count
              (bandersnatch_keys (without_offenders state.post_offenders state.iota)))
            no_commitment)
          _ h in
      (gamma_z, or_fail-eq-ok _ no_commitment root, cc)

  keeps :
      (rotation : Rotation) (gamma_a : List TicketBody)
      → rotated env config state input ≡ ok rotation
      → epoch_of config input.slot ≡ epoch_of config state.tau
      → change_epoch config state input ≡ false
      → Finished env config state input rotation gamma_a state' (ok output)
      → KeepsEpoch state state' output
  unfolding rotate next_entropy
  keeps rotation gamma_a turned same change (gamma_s, mark, sealed, s, out) =
      let o : output ≡ record {
        epoch_mark =
            epoch_mark (change_epoch config state input) (eta env config state input)
              rotation.gamma_k;
        tickets_mark = mark;
      } =
        cc in
      let seal : gamma_s ≡ state.gamma_s =
        let kept : Path (Result Throw TicketsOrKeys) (ok gamma_s) (ok state.gamma_s) =
          sym sealed ∙ next_seal-same env config state input _ _ same in
        cc in
      let turn = rotate-false rotation (sym (ap (rotate env config state) change) ∙ turned) in
      rw (s, o, turn, change, seal) (refl, refl, refl, refl, refl, refl, refl, refl, refl)

  starts :
      (rotation : Rotation) (gamma_a : List TicketBody)
      → rotated env config state input ≡ ok rotation
      → change_epoch config state input ≡ true
      → Finished env config state input rotation gamma_a state' (ok output)
      → StartsEpoch env config state state' output
  unfolding rotate next_entropy
  starts rotation gamma_a turned change (gamma_s, mark, sealed, s, out) =
      let o : output ≡ record {
        epoch_mark =
            epoch_mark (change_epoch config state input) (eta env config state input)
              rotation.gamma_k;
        tickets_mark = mark;
      } =
        cc in
      let (gamma_z, root, turn) =
        rotate-true rotation (sym (ap (rotate env config state) change) ∙ turned) in
      let (size, blank) = without_offenders-All state.post_offenders state.iota in
      rw (s, o, turn, change)
        (
          size,
          refl,
          refl,
          get_elem?-without_offenders state.post_offenders state.iota,
          root,
          refl,
          refl,
          refl,
          refl,
        )

  -- A call that answers without an error either stays in its epoch or starts another one. Within an epoch
  -- it keeps validators, older entropy and seal, and gives no epoch mark. A new epoch moves the
  -- validators and the entropy on, with the offenders of the queued set blanked and all others in their places, and its mark
  -- names what the next epoch uses.
  pub transition_epoch :
      transition env config state input ≡ ok (state', ok output)
      → ((epoch_of config input.slot ≡ epoch_of config state.tau) × KeepsEpoch state state' output)
        ⊎ (¬ (epoch_of config input.slot ≡ epoch_of config state.tau)
            × StartsEpoch env config state state' output)
  transition_epoch h = elim (outcome env config state input) [
    | inl (e, refused) ↦ absurd (cc)
    | inr (inl (why, thrown, cause)) ↦ absurd (cc)
    | inr (inr (late, few, rotation, turned, gamma_a, taken, run)) ↦
        let end =
          finished-Finished env config state input rotation gamma_a state' (ok output)
            (sym run ∙ h) in
        elim (Bool-cases (epoch_of config input.slot == epoch_of config state.tau)) [
          | inl same ↦
              let e = (==_iff (epoch_of config input.slot) (epoch_of config state.tau)).0 same in
              inl (e, keeps rotation gamma_a turned e (ap not same) end)
          | inr other ↦ inr (
            λ e. absurd (
                let same = (==_iff (epoch_of config input.slot) (epoch_of config state.tau)).1 e in
                cc),
            starts rotation gamma_a turned (ap not other) end,
          )
        ]
  ]
