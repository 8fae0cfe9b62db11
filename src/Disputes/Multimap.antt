-- ===== src/Disputes/Multimap.antt =====
-- `std::multimap` with keys in ascending order, and `MultimapGroups`, which walks it by key.
use cpp_jam.Common.{ℕ, zero, suc, ◌+◌, List, [], ◌∷◌, leb, ◌==◌, if◌then◌else◌, length}

module _ {ℓ} {V : Type ℓ} where
  -- `emplace`: behind the entries of the same key.
  unfoldable pub multi_insert : ℕ → V → List (ℕ × V) → List (ℕ × V)
  multi_insert k v [] = (k, v) ∷ []
  multi_insert k v ((j, w) ∷ m) =
      if leb j k then (j, w) ∷ multi_insert k v m else (k, v) ∷ (j, w) ∷ m

  -- `count`.
  unfoldable pub count : ℕ → List (ℕ × V) → ℕ
  count k [] = 0
  count k ((j, w) ∷ m) = (if j == k then 1 else 0) + count k m

  -- The entries up to `upper_bound(k)`: their values.
  unfoldable pub values_upto : ℕ → List (ℕ × V) → List V
  values_upto k [] = []
  values_upto k ((j, w) ∷ m) = if leb j k then w ∷ values_upto k m else []

  -- The entries from `upper_bound(k)` on.
  unfoldable pub from_upper : ℕ → List (ℕ × V) → List (ℕ × V)
  from_upper k [] = []
  from_upper k ((j, w) ∷ m) = if leb j k then from_upper k m else (j, w) ∷ m

  -- The walk: `operator*` gives the first key and the values up to its upper bound, `operator++`
  -- goes on there. One round for each group, so the size is fuel enough.
  unfoldable pub groups_from : ℕ → List (ℕ × V) → List (ℕ × List V)
  groups_from zero m = []
  groups_from (suc fuel) [] = []
  groups_from (suc fuel) ((k, v) ∷ m) = (k, v ∷ values_upto k m) ∷ groups_from fuel (from_upper k m)

  unfoldable pub groups : List (ℕ × V) → List (ℕ × List V)
  unfolding groups_from
  groups m = groups_from (length m) m
