-- ===== src/Safrole/Transition.antt =====
-- `transition` of safrole.hpp.
use cpp_jam.Common.{
  ℕ, ◌+◌, ◌*◌, ◌/◌, ◌%◌, ◌^◌, Bool, true, false, not, ◌&&◌, List, [], ◌∷◌, ◌++◌, map, Option, none,
  some, Result, ok, err, ◌>>=◌, or_fail, ltb, leb, ◌==◌, if◌then◌else◌, length,
}
use cpp_jam.Common.Bytes.{be_bytes}
use cpp_jam.Common.Sets
use cpp_jam.Safrole.Types.{
  Env, Config, State, Input, Error, Throw, Entropy, Validator, TicketBody, TicketsOrKeys, tickets,
  keys, EpochMark, OutputData, max_tickets, bad_slot, unexpected_ticket, too_many_tickets,
  no_commitment,
}
use cpp_jam.Safrole.Accumulate.{insert_all, accumulate}
use cpp_jam.Safrole.Sequence.{tickets_sequence, fallback_keys}

-- `Epoch`: the epoch of a slot, and the slot's phase in it.
abbrev pub epoch_of : Config → ℕ → ℕ
epoch_of config slot = slot / config.epoch_length

abbrev pub phase_of : Config → ℕ → ℕ
phase_of config slot = slot % config.epoch_length

-- Y, the phase at which ticket submission ends, in 32-bit arithmetic.
abbrev pub tickets_end : Config → ℕ
tickets_end config = config.epoch_length * 5 % 2 ^ 32 / 6

abbrev pub change_epoch : Config → State → Input → Bool
change_epoch config state input = not (epoch_of config input.slot == epoch_of config state.tau)

abbrev pub bandersnatch_keys : List Validator → List ℕ
bandersnatch_keys vs = map (λ v. v.bandersnatch) vs

-- `types::ValidatorData{}`.
abbrev pub no_validator : Validator
no_validator = record { bandersnatch = 0; ed25519 = 0; other_data = 0 }

-- Φ: the offenders' entries are blanked.
unfoldable pub without_offenders : List ℕ → List Validator → List Validator
without_offenders offenders [] = []
without_offenders offenders (v ∷ vs) =
    (if Sets.contains offenders v.ed25519 then no_validator else v) ∷ without_offenders offenders vs

-- γ′k, κ′, λ′ and γ′z.
pub record Rotation : Type 0 where
  pub gamma_k : List Validator
  pub kappa : List Validator
  pub lambda : List Validator
  pub gamma_z : ℕ

-- `mathcal_O`, where `value()` throws when the library gives no commitment.
unfoldable pub ring_root : Env → Config → List ℕ → Result Throw ℕ
ring_root env config pks = or_fail (env.ring_commitment config.validators_count pks) no_commitment

unfoldable pub rotate : Env → Config → State → Bool → Result Throw Rotation
rotate env config state true = do
  let gamma_k : List Validator = without_offenders state.post_offenders state.iota
  gamma_z ← ring_root env config (bandersnatch_keys gamma_k)
  ok (record { gamma_k = gamma_k; kappa = state.gamma_k; lambda = state.kappa; gamma_z = gamma_z })
rotate env config state false = ok (record {
  gamma_k = state.gamma_k;
  kappa = state.kappa;
  lambda = state.lambda;
  gamma_z = state.gamma_z;
})

-- η′.
unfoldable pub next_entropy : Env → Entropy → ℕ → Bool → Entropy
next_entropy env eta entropy true = record {
  eta_0 = env.hash (be_bytes 32 eta.eta_0 ++ be_bytes 32 entropy);
  eta_1 = eta.eta_0;
  eta_2 = eta.eta_1;
  eta_3 = eta.eta_2;
}
next_entropy env eta entropy false = record eta {
  eta_0 = env.hash (be_bytes 32 eta.eta_0 ++ be_bytes 32 entropy);
}

-- The accumulator that the new tickets go to.
abbrev pub start_accumulator : Config → State → Input → List TicketBody
start_accumulator config state input =
    if change_epoch config state input then [] else insert_all state.gamma_a []

-- γ′s.
unfoldable pub next_seal :
    Env → Config → State → Input → ℕ → List Validator → Result Throw TicketsOrKeys
next_seal env config state input eta_2 kappa =
    if epoch_of config input.slot == (epoch_of config state.tau + 1) % 2 ^ 32
      && (leb (tickets_end config) (phase_of config state.tau)
          && length state.gamma_a == config.epoch_length)
    then (do z ← tickets_sequence config.epoch_length state.gamma_a; ok (tickets z))
    else if epoch_of config input.slot == epoch_of config state.tau
    then ok state.gamma_s
    else (do k ← fallback_keys env config.epoch_length eta_2 kappa; ok (keys k))

unfoldable pub tickets_mark : Config → State → Input → Result Throw (Option (List TicketBody))
tickets_mark config state input =
    if epoch_of config input.slot == epoch_of config state.tau
      && (ltb (phase_of config state.tau) (tickets_end config)
          && (leb (tickets_end config) (phase_of config input.slot)
              && length state.gamma_a == config.epoch_length))
    then (do z ← tickets_sequence config.epoch_length state.gamma_a; ok (some z))
    else ok none

abbrev pub epoch_mark : Bool → Entropy → List Validator → Option EpochMark
epoch_mark change eta gamma_k =
    if change
    then some (record {
      entropy = eta.eta_1;
      tickets_entropy = eta.eta_2;
      validators = bandersnatch_keys gamma_k;
    })
    else none

abbrev pub Output : Type 0
Output = Result Error OutputData

-- The end of the function, from the new accumulator on.
unfoldable pub finish :
    Env
    → Config
    → State
    → Input
    → Rotation
    → Entropy
    → List TicketBody
    → Result Throw (State × Output)
finish env config state input rotation eta gamma_a = do
  gamma_s ← next_seal env config state input eta.eta_2 rotation.kappa
  mark ← tickets_mark config state input
  ok (
    record {
      tau = input.slot;
      eta = eta;
      lambda = rotation.lambda;
      kappa = rotation.kappa;
      gamma_k = rotation.gamma_k;
      iota = state.iota;
      gamma_a = gamma_a;
      gamma_s = gamma_s;
      gamma_z = rotation.gamma_z;
      post_offenders = state.post_offenders;
    },
    ok (record {
      epoch_mark = epoch_mark (change_epoch config state input) eta rotation.gamma_k;
      tickets_mark = mark;
    }),
  )

-- The loop over the extrinsic, and what follows.
unfoldable pub take_tickets :
    Env → Config → State → Input → Rotation → Entropy → Result Throw (State × Output)
take_tickets env config state input rotation eta =
    elim (accumulate env config state.gamma_z eta.eta_2 none (start_accumulator config state input)
      input.extrinsic) [
        | err e ↦ ok (state, err e)
        | ok gamma_a ↦ finish env config state input rotation eta gamma_a
      ]

-- An `error(…)` comes with the state as it was.
unfoldable pub transition : Env → Config → State → Input → Result Throw (State × Output)
transition env config state input =
    if leb input.slot state.tau
    then ok (state, err bad_slot)
    else if ltb max_tickets (length input.extrinsic)
    then err too_many_tickets
    else if leb (tickets_end config) (phase_of config input.slot)
        && not (length input.extrinsic == 0)
    then ok (state, err unexpected_ticket)
    else (do
      rotation ← rotate env config state (change_epoch config state input)
      take_tickets env config state input rotation
          (next_entropy env state.eta input.entropy (change_epoch config state input)))
