-- ===== src/Safrole/Types.antt =====
-- The data that safrole.hpp works on. Hashes, keys and signatures are fixed byte arrays, read as
-- numbers (Common.Bytes).
use cpp_jam.Common.{ℕ, List, [], ◌∷◌, Option}

pub data Error : Type 0 where
  bad_slot unexpected_ticket bad_ticket_order bad_ticket_proof bad_ticket_attempt duplicate_ticket :
      Error

-- A `std::logic_error` that leaves the function, or a read of an empty validator set.
pub data Throw : Type 0 where
  too_many_tickets wrong_size no_validators no_commitment : Throw

pub record Config : Type 0 where
  pub validators_count : ℕ
  pub epoch_length : ℕ
  pub tickets_per_validator : ℕ

-- `other_data` stands for the fields that are only copied.
pub record Validator : Type 0 where
  pub bandersnatch : ℕ
  pub ed25519 : ℕ
  pub other_data : ℕ

pub record TicketBody : Type 0 where
  pub id : ℕ
  pub attempt : ℕ

pub record TicketEnvelope : Type 0 where
  pub attempt : ℕ
  pub signature : ℕ

pub data TicketsOrKeys : Type 0 where
  tickets : List TicketBody → TicketsOrKeys
  keys : List ℕ → TicketsOrKeys

pub record Entropy : Type 0 where
  pub eta_0 : ℕ
  pub eta_1 : ℕ
  pub eta_2 : ℕ
  pub eta_3 : ℕ

pub record State : Type 0 where
  pub tau : ℕ
  pub eta : Entropy
  pub lambda : List Validator
  pub kappa : List Validator
  pub gamma_k : List Validator
  pub iota : List Validator
  pub gamma_a : List TicketBody
  pub gamma_s : TicketsOrKeys
  pub gamma_z : ℕ
  pub post_offenders : List ℕ

pub record Input : Type 0 where
  pub slot : ℕ
  pub entropy : ℕ
  pub extrinsic : List TicketEnvelope

pub record EpochMark : Type 0 where
  pub entropy : ℕ
  pub tickets_entropy : ℕ
  pub validators : List ℕ

pub record OutputData : Type 0 where
  pub epoch_mark : Option EpochMark
  pub tickets_mark : Option (List TicketBody)

-- The library's ring signatures and hash: the verifier gives a ticket's identifier for a valid proof.
pub record Env : Type 0 where
  pub ring_verify : ℕ → ℕ → List ℕ → ℕ → Option ℕ
  pub ring_commitment : ℕ → List ℕ → Option ℕ
  pub hash : List ℕ → ℕ

-- X_T, "jam_ticket_seal".
abbrev pub ticket_seal : List ℕ
ticket_seal =
    b'j' ∷ b'a' ∷ b'm' ∷ b'_' ∷ b't' ∷ b'i' ∷ b'c' ∷ b'k' ∷ b'e' ∷ b't' ∷ b'_' ∷ b's' ∷ b'e' ∷ b'a'
    ∷ b'l' ∷ []

-- K, the tickets that one extrinsic may hold.
abbrev pub max_tickets : ℕ
max_tickets = 16
