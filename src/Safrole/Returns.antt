-- ===== src/Safrole/Returns.antt =====
-- When `transition` of safrole.hpp returns, rather than throw.
use mathlib.Core.Logic.{inl, inr}
use mathlib.Core.Path.{subst}
use cpp_jam.Safrole.Epochs.{without_offenders-All}
use native.Mathlib.Nat.{mod-lt}
use cpp_jam.Common.{
  ℕ, Bool, true, false, sym, Result, err, length-map, zero, suc, ◌+◌, ◌%◌, ◌^◌, ◌≤◌, ◌<◌, ◌≡◌, refl,
  ap, ◌∙◌, ◌&&◌, List, [], ◌∷◌, Option, none, some, ok, >>=-returns, leb, ltb, ◌==◌, length,
  get_elem?_lt, arith, Bool-cases,
}
use cpp_jam.Safrole.Types.{
  Env, Config, State, Input, Throw, Validator, TicketBody, TicketsOrKeys, max_tickets, tickets,
  keys,
}
use cpp_jam.Safrole.Sequence.{fallback_index, fallback_from, fallback_keys}
use cpp_jam.Safrole.OutsideIn.{tickets_sequence_perm}
use cpp_jam.Safrole.Transition.{
  change_epoch, epoch_of, phase_of, tickets_end, Rotation, ring_root, rotate, without_offenders,
  bandersnatch_keys, next_seal, tickets_mark, finish, transition, Output,
}
use cpp_jam.Safrole.Outcome.{eta, finished, outcome}

-- The library's `commitment` gives one for as many keys as its context was made for.
abbrev pub Commits : Env → Config → Type 0
Commits env config =
    (ks : List ℕ)
    → length ks ≡ config.validators_count
    → (z : ℕ) × (env.ring_commitment config.validators_count ks ≡ some z)

fallback_from_returns :
    (env : Env) (r : ℕ) (k : List Validator) (n i : ℕ)
    → 0 < length k
    → (s : List ℕ) × (fallback_from env r k n i ≡ ok s) × (length s ≡ n)
unfolding fallback_from
fallback_from_returns env r k zero i h = ([], refl, refl)
fallback_from_returns env r k (suc n) i h =
    let (v, found) =
      get_elem?_lt k (fallback_index env r i % length k) (mod-lt (fallback_index env r i) h) in
    let (s, run, size) = fallback_from_returns env r k n (i + 1) h in
    (v.bandersnatch ∷ s, rw (found, run) refl, ap suc size)

module _ (env : Env) (config : Config) (state : State) (input : Input)
    (long : 0 < config.epoch_length) where
  next_seal_returns :
      (eta_2 : ℕ) (kappa : List Validator)
      → 0 < length kappa
      → (s : TicketsOrKeys) × (next_seal env config state input eta_2 kappa ≡ ok s)
  unfolding next_seal fallback_keys
  next_seal_returns eta_2 kappa h =
      let (ks, drawn, size) = fallback_from_returns env eta_2 kappa config.epoch_length 0 h in
      elim (Bool-cases (
        epoch_of config input.slot == (epoch_of config state.tau + 1) % 2 ^ 32
        && (leb (tickets_end config) (phase_of config state.tau)
            && length state.gamma_a == config.epoch_length))) [
              | inl full ↦
                  let (z, run, perm, order) =
                    tickets_sequence_perm state.gamma_a config.epoch_length long
                      (ground (arith, full)) in
                  (tickets z, rw (full, run) refl)
              | inr short ↦
                  elim (Bool-cases (epoch_of config input.slot == epoch_of config state.tau)) [
                    | inl same ↦ (state.gamma_s, rw (short, same) refl)
                    | inr other ↦ (keys ks, rw (short, other, drawn) refl)
                  ]
            ]

  tickets_mark_returns : (m : Option (List TicketBody)) × (tickets_mark config state input ≡ ok m)
  unfolding tickets_mark
  tickets_mark_returns =
      elim (Bool-cases (
        epoch_of config input.slot == epoch_of config state.tau
        && (ltb (phase_of config state.tau) (tickets_end config)
            && (leb (tickets_end config) (phase_of config input.slot)
                && length state.gamma_a == config.epoch_length)))) [
                  | inl full ↦
                      let (z, run, perm, order) =
                        tickets_sequence_perm state.gamma_a config.epoch_length long
                          (ground (arith, full)) in
                      (some z, rw (full, run) refl)
                  | inr short ↦ (none, rw short refl)
                ]

  -- The next active set has a validator.
  rotate_returns :
      (change : Bool)
      → Commits env config
      → length state.iota ≡ config.validators_count
      → 0 < length state.kappa
      → 0 < length state.gamma_k
      → (rotation : Rotation) × (rotate env config state change ≡ ok rotation)
        × (0 < length rotation.kappa)
  unfolding rotate ring_root
  rotate_returns true commits full h h' =
      let gamma_k = without_offenders state.post_offenders state.iota in
      let (gamma_z, root) =
        commits (bandersnatch_keys gamma_k) (
          length-map _ gamma_k
          ∙ (without_offenders-All state.post_offenders state.iota).0
          ∙ full) in
      (
        record {
          gamma_k = gamma_k;
          kappa = state.gamma_k;
          lambda = state.kappa;
          gamma_z = gamma_z;
        },
        rw root refl,
        h',
      )
  rotate_returns false commits full h h' = (_, refl, h)

  finish_returns :
      (rotation : Rotation)
      → 0 < length rotation.kappa
      → (gamma_a : List TicketBody)
      → (r : State × Output) × (finished env config state input rotation gamma_a ≡ ok r)
  unfolding finish
  finish_returns rotation h gamma_a =
      >>=-returns
        (next_seal env config state input (eta env config state input).eta_2 rotation.kappa) _
        (next_seal_returns _ _ h)
        (λ s. >>=-returns (tickets_mark config state input) _ tickets_mark_returns (λ m. (_, refl)))

  -- With slots in an epoch, validators in the active set and in the next one, as many in the queued
  -- one as the configuration says, and at most 16 tickets in the extrinsic, a call throws nothing, when the library
  -- commits to rings of that many keys: the call returns a state and an answer.
  pub transition_returns :
      Commits env config
      → length state.iota ≡ config.validators_count
      → 0 < length state.kappa
      → 0 < length state.gamma_k
      → length input.extrinsic ≤ max_tickets
      → (r : State × Output) × (transition env config state input ≡ ok r)
  transition_returns commits full h h' few = elim (outcome env config state input) [
    | inl (e, refused) ↦ (_, refused)
    | inr (inl (why, thrown, cause)) ↦ elim cause [
      | inl many ↦ absurd (omega arith)
      | inr thrown' ↦
          let (rotation, turned, some_) =
            rotate_returns (change_epoch config state input) commits full h h' in
          let clash : Path (Result Throw Rotation) (err why) (ok rotation) = sym thrown' ∙ turned in
          absurd (cc)
    ]
    | inr (inr (late, few', rotation, turned, gamma_a, taken, run)) ↦
        let (rotation', turned', some_) =
          rotate_returns (change_epoch config state input) commits full h h' in
        let clash : Path (Result Throw Rotation) (ok rotation) (ok rotation') =
          sym turned ∙ turned' in
        let same : rotation ≡ rotation' = cc in
        let (r, end) =
          finish_returns rotation (subst (λ (x : Rotation). 0 < length x.kappa) (sym same) some_)
            gamma_a in
        (r, run ∙ end)
  ]
