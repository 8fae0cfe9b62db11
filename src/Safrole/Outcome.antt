-- ===== src/Safrole/Outcome.antt =====
-- The branches of `transition` of safrole.hpp, and what each leaves.
use cpp_jam.Common.{
  ◌≤◌, ◌<◌, ◌≡◌, refl, sym, ◌∙◌, not, ◌&&◌, List, Option, none, Result, ok, err, >>=-eq-ok, leb,
  ltb, ◌==◌, length, arith, Bool-cases, Result-cases, ltb→lt,
}
use mathlib.Core.Logic.{◌⊎◌, inl, inr}
use cpp_jam.Safrole.Types.{
  Env, Config, State, Input, Error, Throw, Entropy, TicketBody, TicketsOrKeys, max_tickets,
  bad_slot, unexpected_ticket, too_many_tickets,
}
use cpp_jam.Safrole.Accumulate.{accumulate}
use cpp_jam.Safrole.Transition.{
  change_epoch, phase_of, tickets_end, rotate, next_entropy, start_accumulator, next_seal,
  tickets_mark, epoch_mark, finish, take_tickets, transition, Output, Rotation,
}

module _ (env : Env) (config : Config) (state : State) (input : Input) where
  abbrev pub eta : Entropy
  eta = next_entropy env state.eta input.entropy (change_epoch config state input)

  abbrev pub accumulated : Result Error (List TicketBody)
  accumulated =
      accumulate env config state.gamma_z eta.eta_2 none (start_accumulator config state input)
        input.extrinsic

  abbrev pub finished : Rotation → List TicketBody → Result Throw (State × Output)
  finished rotation = finish env config state input rotation eta

  abbrev pub rotated : Result Throw Rotation
  rotated = rotate env config state (change_epoch config state input)

  -- The branches of a call: an error that keeps the state, an exception, and the way through.
  abbrev pub Outcome : Type 0
  Outcome =
      ((e : Error) × (transition env config state input ≡ ok (state, err e)))
      ⊎ (((why : Throw) × (transition env config state input ≡ err why)
            × ((max_tickets < length input.extrinsic) ⊎ (rotated ≡ err why)))
          ⊎ ((state.tau < input.slot)
              × (length input.extrinsic ≤ max_tickets)
              × (rotation : Rotation) × (rotated ≡ ok rotation)
              × (gamma_a : List TicketBody) × (accumulated ≡ ok gamma_a)
              × (transition env config state input ≡ finished rotation gamma_a)))

  take_tickets-err :
      (rotation : Rotation) (e : Error)
      → accumulated ≡ err e
      → take_tickets env config state input rotation eta ≡ ok (state, err e)
  unfolding take_tickets
  take_tickets-err rotation e refused = rw (take_tickets, refused) refl

  take_tickets-ok :
      (rotation : Rotation) (gamma_a : List TicketBody)
      → accumulated ≡ ok gamma_a
      → take_tickets env config state input rotation eta ≡ finished rotation gamma_a
  unfolding take_tickets
  take_tickets-ok rotation gamma_a taken = rw (take_tickets, taken) refl

  pub outcome : Outcome
  unfolding transition
  outcome = elim (Bool-cases (leb input.slot state.tau)) [
    | inl early ↦ inl (bad_slot, rw early refl)
    | inr late ↦ elim (Bool-cases (ltb max_tickets (length input.extrinsic))) [
      | inl many ↦ inr (
          inl (
            too_many_tickets,
            rw (late, many) refl,
            inl (ltb→lt max_tickets (length input.extrinsic) many),
          ))
      | inr few ↦
          elim (Bool-cases (
            leb (tickets_end config) (phase_of config input.slot)
            && not (length input.extrinsic == 0))) [
              | inl closed ↦ inl (unexpected_ticket, rw (late, few, closed) refl)
              | inr opened ↦ elim (Result-cases rotated) [
                | inl (why, thrown) ↦
                    inr (inl (why, rw (late, few, opened, thrown) refl, inr thrown))
                | inr (rotation, turned) ↦ elim (Result-cases accumulated) [
                  | inl (e, refused) ↦
                      inl (e, rw (late, few, opened, turned) (take_tickets-err rotation e refused))
                  | inr (gamma_a, taken) ↦ inr (
                      inr (
                        ground (arith, late),
                        ground (arith, few),
                        rotation,
                        turned,
                        gamma_a,
                        taken,
                        rw (late, few, opened, turned) (take_tickets-ok rotation gamma_a taken),
                      ))
                ]
              ]
            ]
    ]
  ]

  -- What the end of the function makes of the new accumulator.
  abbrev pub Finished : Rotation → List TicketBody → State → Output → Type 0
  Finished rotation gamma_a state' output =
      (gamma_s : TicketsOrKeys) × (mark : Option (List TicketBody)) × (next_seal env config state
          input eta.eta_2 rotation.kappa
        ≡ ok gamma_s)
      × (state' ≡ record {
        tau = input.slot;
        eta = eta;
        lambda = rotation.lambda;
        kappa = rotation.kappa;
        gamma_k = rotation.gamma_k;
        iota = state.iota;
        gamma_a = gamma_a;
        gamma_s = gamma_s;
        gamma_z = rotation.gamma_z;
        post_offenders = state.post_offenders;
      })
      × (output
          ≡ ok (record {
            epoch_mark = epoch_mark (change_epoch config state input) eta rotation.gamma_k;
            tickets_mark = mark;
          }))

  pub finished-Finished :
      (rotation : Rotation) (gamma_a : List TicketBody) (state' : State) (output : Output)
      → finished rotation gamma_a ≡ ok (state', output)
      → Finished rotation gamma_a state' output
  unfolding finish
  finished-Finished rotation gamma_a state' output h =
      let (gamma_s, sealed, h1) =
        >>=-eq-ok (next_seal env config state input eta.eta_2 rotation.kappa) _ h in
      let (mark, marked, h2) = >>=-eq-ok (tickets_mark config state input) _ h1 in
      (gamma_s, mark, sealed, cc, cc)

  -- A refused call gives the state back.
  pub transition_refused :
      (state' : State) (e : Error)
      → transition env config state input ≡ ok (state', err e)
      → state' ≡ state
  transition_refused state' e h = elim outcome [
    | inl (e1, refused) ↦ cc
    | inr (inl (why, thrown, many)) ↦ absurd (cc)
    | inr (inr (late, few, rotation, turned, gamma_a, taken, run)) ↦
        let (gamma_s, mark, sealed, s, out) =
          finished-Finished rotation gamma_a state' (err e) (sym run ∙ h) in
        absurd (cc)
  ]
