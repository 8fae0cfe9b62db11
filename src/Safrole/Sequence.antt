-- ===== src/Safrole/Sequence.antt =====
-- The sealing sequence of an epoch: safrole.hpp, `Z` (tickets from outside in) and `F` (fallback keys).
use cpp_jam.Common.{
  ℕ, zero, suc, ◌+◌, ◌-◌, ◌%◌, Bool, true, not, List, [], ◌∷◌, ◌++◌, Result, ok, ◌>>=◌, ◌>>◌,
  fail_if, or_fail, ◌==◌, if◌then◌else◌, length, get_elem?, take,
}
use cpp_jam.Common.Bytes.{be_bytes, le_bytes, le_value}
use cpp_jam.Safrole.Types.{Env, Throw, TicketBody, Validator, wrong_size, no_validators}

-- The loop of `Z`: `i` goes up from the front and `j` down from the back, in turns.
unfoldable pub outside_in : List TicketBody → ℕ → Bool → ℕ → ℕ → Result Throw (List TicketBody)
outside_in s zero odd i j = ok []
outside_in s (suc n) odd i j = do
  t ← or_fail (get_elem? s (if odd then i else j)) wrong_size
  rest ← outside_in s n (not odd) (if odd then i + 1 else i) (if odd then j else j - 1)
  ok (t ∷ rest)

unfoldable pub tickets_sequence : ℕ → List TicketBody → Result Throw (List TicketBody)
tickets_sequence epoch_length s = do
  fail_if (not (length s == epoch_length)) wrong_size
  outside_in s epoch_length true 0 (length s - 1)

-- The validator that slot `i` falls to: four bytes of a hash, modulo the number of validators.
unfoldable pub fallback_index : Env → ℕ → ℕ → ℕ
fallback_index env r i = le_value (take 4 (be_bytes 32 (env.hash (be_bytes 32 r ++ le_bytes 4 i))))

-- The loop of `F`, from slot `i` on.
unfoldable pub fallback_from : Env → ℕ → List Validator → ℕ → ℕ → Result Throw (List ℕ)
fallback_from env r k zero i = ok []
fallback_from env r k (suc n) i = do
  v ← or_fail (get_elem? k (fallback_index env r i % length k)) no_validators
  rest ← fallback_from env r k n (i + 1)
  ok (v.bandersnatch ∷ rest)

unfoldable pub fallback_keys : Env → ℕ → ℕ → List Validator → Result Throw (List ℕ)
fallback_keys env epoch_length r k = fallback_from env r k epoch_length 0
