-- ===== src/History/Mmr.antt =====
-- `mathcal_A` of history.hpp: a leaf is appended to a Merkle mountain range. Peak n, if there, is the
-- root of 2^n leaves. Hashes are 32 bytes, read as numbers.
use cpp_jam.Common.{ℕ, suc, ◌*◌, ◌≡◌, List, [], ◌∷◌, ◌++◌, Option, none, some, arith}
use cpp_jam.Common.Bytes.{be_bytes}

-- The hash of a pair of hashes: `mathcal_H_K(frown(x, y))` for the Keccak function `keccak`.
unfoldable pub join : (List ℕ → ℕ) → ℕ → ℕ → ℕ
join keccak x y = keccak (be_bytes 32 x ++ be_bytes 32 y)

-- The loop over the peaks: the leaf goes to the first free place, and a peak that is in its way is
-- taken out and joined with it.
unfoldable pub append : (List ℕ → ℕ) → List (Option ℕ) → ℕ → List (Option ℕ)
append keccak [] l = some l ∷ []
append keccak (none ∷ peaks) l = some l ∷ peaks
append keccak (some p ∷ peaks) l = none ∷ append keccak peaks (join keccak p l)

-- The number of leaves, with the peaks as binary digits.
unfoldable pub size : List (Option ℕ) → ℕ
size [] = 0
size (none ∷ peaks) = 2 * size peaks
size (some p ∷ peaks) = suc (2 * size peaks)

-- Appending counts up by one in binary, carries included.
pub size-append :
    (keccak : List ℕ → ℕ) (peaks : List (Option ℕ)) (l : ℕ)
    → size (append keccak peaks l) ≡ suc (size peaks)
unfolding size append
size-append keccak [] l = omega arith
size-append keccak (none ∷ peaks) l = omega arith
size-append keccak (some p ∷ peaks) l = omega (arith, size-append keccak peaks (join keccak p l))
