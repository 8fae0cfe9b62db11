-- ===== src/History/Represents.antt =====
-- What a Merkle mountain range stands for: its leaves, in order.
use mathlib.Core.List.{append_assoc}
use cpp_jam.Common.{ℕ, zero, suc, ◌≡◌, refl, ap, List, [], ◌∷◌, ◌++◌, Option, none, some}
use cpp_jam.History.Mmr.{join, append}

module _ (keccak : List ℕ → ℕ) where
  -- `h` is the root of the perfect binary tree of depth `n` over the leaves.
  abbrev pub IsRoot : ℕ → ℕ → List ℕ → Type 0
  IsRoot zero h leaves = leaves ≡ h ∷ []
  IsRoot (suc n) h leaves =
      (a : ℕ) × (b : ℕ) × (xs : List ℕ) × (ys : List ℕ) × IsRoot n a xs
      × IsRoot n b ys
      × (h ≡ join keccak a b)
      × (leaves ≡ xs ++ ys)

  -- The peaks from depth `n` on are the roots of the leaves, the oldest leaves under the highest.
  abbrev pub Represents : ℕ → List (Option ℕ) → List ℕ → Type 0
  Represents n [] leaves = leaves ≡ []
  Represents n (none ∷ peaks) leaves = Represents (suc n) peaks leaves
  Represents n (some p ∷ peaks) leaves =
      (old : List ℕ) × (new : List ℕ) × Represents (suc n) peaks old
      × IsRoot n p new
      × (leaves ≡ old ++ new)

  append-Represents_from :
      (n : ℕ) (peaks : List (Option ℕ)) (l : ℕ) (leaves new : List ℕ)
      → Represents n peaks leaves
      → IsRoot n l new
      → Represents n (append keccak peaks l) (leaves ++ new)
  unfolding append
  append-Represents_from n [] l leaves new r t = ([], new, refl, t, ap (λ x. x ++ new) r)
  append-Represents_from n (none ∷ peaks) l leaves new r t = (leaves, new, r, t, refl)
  append-Represents_from n (some p ∷ peaks) l leaves new (old, mid, rest, root, e) t =
      rw (e, append_assoc)
        (append-Represents_from (suc n) peaks (join keccak p l) old (mid ++ new) rest
          (p, l, mid, new, root, t, refl, refl))

  -- If the peaks stand for some leaves, the peaks after `mathcal_A` stand for these and the new one
  -- behind them: every peak is the root of the perfect tree over its part of the leaves.
  pub append-Represents :
      (peaks : List (Option ℕ)) (leaves : List ℕ) (l : ℕ)
      → Represents 0 peaks leaves
      → Represents 0 (append keccak peaks l) (leaves ++ l ∷ [])
  append-Represents peaks leaves l r = append-Represents_from 0 peaks l leaves (l ∷ []) r refl
