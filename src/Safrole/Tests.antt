-- ===== src/Safrole/Tests.antt =====
-- The end of an epoch with a full accumulator, and the theorems at it.
use mathlib.Core.List.{Perm}
use mathlib.Core.Logic.{◌⊎◌}
use cpp_jam.Common.{
  ℕ, ◌-◌, ◌/◌, ◌%◌, get_elem?, if_true, ==_iff, ◌+◌, ◌≡◌, ◌<◌, refl, List, [], ◌∷◌, map, none, some,
  ok, err, ◌==◌, length, arith, if◌then◌else◌,
}
use cpp_jam.Common.Sets.{contains, IsAscending}
use cpp_jam.Common.Bytes.{be_bytes}
use cpp_jam.Safrole.Types.{
  Env, Config, State, Input, Validator, TicketBody, OutputData, tickets, keys, bad_slot,
}
use cpp_jam.Safrole.Accumulate
use cpp_jam.Safrole.Accumulate.{accumulate, check_ticket, drop_last, ticket_message, insert_all}
use cpp_jam.Safrole.Lowest.{AreTickets, IsOrdered}
use cpp_jam.Safrole.Union.{IsLowest, accumulate-IsLowest}
use cpp_jam.Safrole.Sequence.{
  outside_in, tickets_sequence, fallback_index, fallback_from, fallback_keys,
}
use cpp_jam.Safrole.OutsideIn.{tickets_sequence_perm}
use cpp_jam.Safrole.Transition.{
  without_offenders, ring_root, rotate, take_tickets, next_entropy, next_seal, tickets_mark, finish,
  transition, epoch_of, no_validator, Output,
}
use cpp_jam.Safrole.Outcome.{eta}
use cpp_jam.Safrole.Rotation.{KeepsEpoch, StartsEpoch, transition_epoch}
use cpp_jam.Safrole.Returns.{Commits, transition_returns}

program : Unit {0}
unfolding transition finish tickets_mark next_seal next_entropy rotate ring_root take_tickets
    without_offenders fallback_keys fallback_from fallback_index tickets_sequence outside_in
    accumulate check_ticket ticket_message drop_last insert_all Accumulate.insert
    Accumulate.contains contains be_bytes
program = tt

-- A signature verifies unless it is 0, and is the ticket's identifier; a hash is a message's length.
abbrev env : Env
env = record {
  ring_verify =
      λ count commitment message signature. if signature == 0 then none else some signature;
  ring_commitment = λ count ks. if length ks == count then some (length ks) else none;
  hash = λ message. length message;
}

abbrev config : Config
config = record { validators_count = 2; epoch_length = 4; tickets_per_validator = 2 }

abbrev validator : ℕ → Validator
validator n = record { bandersnatch = 10 + n; ed25519 = n; other_data = 0 }

abbrev ticket : ℕ → TicketBody
ticket n = record { id = n; attempt = 0 }

abbrev accumulator : List TicketBody
accumulator = ticket 2 ∷ ticket 4 ∷ ticket 6 ∷ ticket 8 ∷ []

abbrev state : State
state = record {
  tau = 11;
  eta = record { eta_0 = 1; eta_1 = 2; eta_2 = 3; eta_3 = 4 };
  lambda = validator 1 ∷ validator 2 ∷ [];
  kappa = validator 3 ∷ validator 4 ∷ [];
  gamma_k = validator 5 ∷ validator 6 ∷ [];
  iota = validator 7 ∷ validator 8 ∷ [];
  gamma_a = accumulator;
  gamma_s = keys (1 ∷ []);
  gamma_z = 5;
  post_offenders = 8 ∷ [];
}

abbrev input : Input
input = record {
  slot = 12;
  entropy = 7;
  extrinsic = record { attempt = 0; signature = 3 } ∷ record { attempt = 1; signature = 9 } ∷ [];
}

abbrev after : State
after = record {
  tau = 12;
  eta = record { eta_0 = 64; eta_1 = 1; eta_2 = 2; eta_3 = 3 };
  lambda = validator 3 ∷ validator 4 ∷ [];
  kappa = validator 5 ∷ validator 6 ∷ [];
  gamma_k = validator 7 ∷ no_validator ∷ [];
  iota = validator 7 ∷ validator 8 ∷ [];
  gamma_a = ticket 3 ∷ record { id = 9; attempt = 1 } ∷ [];
  gamma_s = tickets (ticket 2 ∷ ticket 8 ∷ ticket 4 ∷ ticket 6 ∷ []);
  gamma_z = 2;
  post_offenders = 8 ∷ [];
}

abbrev answer : OutputData
answer = record {
  epoch_mark = some (record { entropy = 1; tickets_entropy = 2; validators = 17 ∷ 0 ∷ [] });
  tickets_mark = none;
}

accepted : transition env config state input ≡ ok (after, ok answer)
unfolding program
accepted = refl

tickets_sequence_perm_example :
    (r : List TicketBody) × (tickets_sequence 4 accumulator ≡ ok r)
    × Perm r accumulator
    × ((k : ℕ)
        → k < 4
        → get_elem? r k ≡ get_elem? accumulator (if k % 2 == 0 then k / 2 else 4 - 1 - k / 2))
tickets_sequence_perm_example = tickets_sequence_perm accumulator 4 (omega arith) refl

transition_epoch_example :
    ((epoch_of config input.slot ≡ epoch_of config state.tau) × KeepsEpoch state after answer)
    ⊎ (¬ (epoch_of config input.slot ≡ epoch_of config state.tau)
        × StartsEpoch env config state after answer)
transition_epoch_example = transition_epoch env config state input after answer accepted

accumulator-IsAscending : IsAscending none (map (λ u. u.id) accumulator)
accumulator-IsAscending = omega arith

commits : Commits env config
commits ks full = (length ks, if_true (length ks == 2) _ _ ((==_iff (length ks) 2).1 full))

transition_returns_example : (r : State × Output) × (transition env config state input ≡ ok r)
transition_returns_example =
    transition_returns env config state input (omega arith) commits refl (omega arith) (omega arith)
      (omega arith)

abbrev early : Input
early = record input { slot = 11 }

refused : transition env config state early ≡ ok (state, err bad_slot)
unfolding program
refused = refl

-- Two tickets go into a full accumulator: 8 is pushed out by 3, and 9 has no place.
abbrev pushed : List TicketBody
pushed = ticket 2 ∷ ticket 3 ∷ ticket 4 ∷ ticket 6 ∷ []

accumulated : accumulate env config 5 2 none accumulator input.extrinsic ≡ ok pushed
unfolding program
accumulated = refl

accumulate-IsLowest_example :
    (ts : List TicketBody) × AreTickets env config 5 2 input.extrinsic ts
    × IsOrdered none ts
    × IsLowest config.epoch_length accumulator ts pushed
accumulate-IsLowest_example =
    accumulate-IsLowest env config 5 2 accumulator pushed input.extrinsic (omega arith)
      accumulator-IsAscending accumulated

-- A ticket that is pushed out at once is not found as a duplicate: 9 passes twice in one extrinsic.
passes_twice :
    accumulate env config 5 2 none accumulator
      (record { attempt = 0; signature = 9 } ∷ record { attempt = 0; signature = 9 } ∷ [])
    ≡ ok accumulator
unfolding program
passes_twice = refl
