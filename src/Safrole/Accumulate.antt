-- ===== src/Safrole/Accumulate.antt =====
-- The ticket accumulator: safrole.hpp, `TicketBodyLess` and the loop over the extrinsic.
use cpp_jam.Common.{
  ℕ, Bool, false, ◌&&◌, ◌||◌, List, [], ◌∷◌, ◌++◌, Option, none, some, Result, ok, ◌>>=◌, ◌>>◌,
  fail_if, or_fail, ltb, leb, ◌==◌, if◌then◌else◌, length,
}
use cpp_jam.Common.Bytes.{be_bytes}
use cpp_jam.Safrole.Types.{
  Env, Config, Error, TicketBody, TicketEnvelope, ticket_seal, bad_ticket_proof, bad_ticket_attempt,
  duplicate_ticket, bad_ticket_order,
}

-- `emplace` in a `std::set` ordered by identifier.
unfoldable pub insert : TicketBody → List TicketBody → List TicketBody
insert t [] = t ∷ []
insert t (u ∷ us) =
    if ltb t.id u.id then t ∷ u ∷ us else if t.id == u.id then u ∷ us else u ∷ insert t us

unfoldable pub insert_all : List TicketBody → List TicketBody → List TicketBody
insert_all [] s = s
insert_all (t ∷ ts) s = insert_all ts (insert t s)

-- `contains`, by equality of both fields.
unfoldable pub contains : List TicketBody → TicketBody → Bool
contains [] t = false
contains (u ∷ us) t = (u.id == t.id && u.attempt == t.attempt) || contains us t

-- `erase(std::prev(end()))`.
unfoldable pub drop_last : List TicketBody → List TicketBody
drop_last [] = []
drop_last (t ∷ []) = []
drop_last (t ∷ u ∷ us) = t ∷ drop_last (u ∷ us)

-- What is above the limit goes, from the back.
abbrev pub trim : ℕ → List TicketBody → List TicketBody
trim limit s = if ltb limit (length s) then drop_last s else s

-- `prev_ticket and TicketBodyLess{}(ticket, *prev_ticket)`.
abbrev pub is_before : TicketBody → Option TicketBody → Bool
is_before t none = false
is_before t (some p) = ltb t.id p.id

-- The message that a ticket's proof signs: the seal, the entropy, and the attempt as one byte.
unfoldable pub ticket_message : ℕ → ℕ → List ℕ
ticket_message entropy attempt = ticket_seal ++ (be_bytes 32 entropy ++ attempt ∷ [])

-- The identifier that the ring verifier gives for the envelope.
abbrev pub ticket_id : Env → Config → ℕ → ℕ → TicketEnvelope → Option ℕ
ticket_id env config gamma_z entropy e =
    env.ring_verify config.validators_count gamma_z (ticket_message entropy e.attempt) e.signature

-- One round: the checks in order, then the ticket.
unfoldable pub check_ticket :
    Env
    → Config
    → ℕ
    → ℕ
    → Option TicketBody
    → List TicketBody
    → TicketEnvelope
    → Result Error TicketBody
check_ticket env config gamma_z entropy prev acc e = do
  id ← or_fail (ticket_id env config gamma_z entropy e) bad_ticket_proof
  let ticket : TicketBody = record { id = id; attempt = e.attempt }
  fail_if (leb config.tickets_per_validator e.attempt) bad_ticket_attempt
  fail_if (contains acc ticket) duplicate_ticket
  fail_if (is_before ticket prev) bad_ticket_order
  ok ticket

unfoldable pub accumulate :
    Env
    → Config
    → ℕ
    → ℕ
    → Option TicketBody
    → List TicketBody
    → List TicketEnvelope
    → Result Error (List TicketBody)
accumulate env config gamma_z entropy prev acc [] = ok acc
accumulate env config gamma_z entropy prev acc (e ∷ es) = do
  ticket ← check_ticket env config gamma_z entropy prev acc e
  accumulate env config gamma_z entropy (some ticket) (trim config.epoch_length (insert ticket acc))
      es
