-- ===== src/Disputes/Groups.antt =====
-- `MultimapGroups` visits every entry of a multimap once, in order, one group for each key.
use cpp_jam.Common.{
  ℕ, zero, suc, ◌≤◌, ◌≡◌, refl, ap, sym, ◌∙◌, List, [], ◌∷◌, ◌++◌, leb, length, arith, Bool-cases,
  inl, inr,
}
use mathlib.Core.Path.{ap₂}
use cpp_jam.Disputes.Multimap.{multi_insert, values_upto, from_upper, groups_from, groups}

module _ {ℓ} {V : Type ℓ} where
  -- Keys do not descend, from a lower bound on.
  abbrev pub IsSorted : ℕ → List (ℕ × V) → Type 0
  IsSorted lo [] = Unit {0}
  IsSorted lo ((k, v) ∷ m) = (lo ≤ k) × IsSorted k m

  abbrev pub pair_with : ℕ → List V → List (ℕ × V)
  pair_with k [] = []
  pair_with k (v ∷ vs) = (k, v) ∷ pair_with k vs

  -- The entries of groups, one after the other.
  unfoldable pub expand : List (ℕ × List V) → List (ℕ × V)
  expand [] = []
  expand ((k, vs) ∷ gs) = pair_with k vs ++ expand gs

  pub IsSorted-mono : (a b : ℕ) (m : List (ℕ × V)) → a ≤ b → IsSorted b m → IsSorted a m
  IsSorted-mono a b [] h s = tt
  IsSorted-mono a b ((k, v) ∷ m) h s = (omega arith, s.1)

  pub multi_insert-IsSorted :
      (lo k : ℕ) (v : V) (m : List (ℕ × V))
      → lo ≤ k
      → IsSorted lo m
      → IsSorted lo (multi_insert k v m)
  unfolding multi_insert
  multi_insert-IsSorted lo k v [] h s = (h, tt)
  multi_insert-IsSorted lo k v ((j, w) ∷ m) h s = ground (arith, multi_insert-IsSorted j k v m)

  pub length-from_upper-le : (k : ℕ) (m : List (ℕ × V)) → length (from_upper k m) ≤ length m
  unfolding from_upper
  length-from_upper-le k [] = omega arith
  length-from_upper-le k ((j, w) ∷ m) = ground (arith, length-from_upper-le k m)

  -- Split at the upper bound of its first key, a sorted map is in two parts.
  pub split_upper :
      (k : ℕ) (m : List (ℕ × V))
      → IsSorted k m
      → (pair_with k (values_upto k m) ++ from_upper k m ≡ m) × IsSorted (suc k) (from_upper k m)
  unfolding values_upto from_upper
  split_upper k [] s = (refl, tt)
  split_upper k ((j, w) ∷ m) s = elim (Bool-cases (leb j k)) [
    | inl e ↦
        let same : j ≡ k = ground arith in
        let rest = split_upper k m (IsSorted-mono k j m (omega arith) s.1) in
        rw e (ap₂ (λ x t. (x, w) ∷ t) (sym same) rest.0, rest.1)
    | inr e ↦ rw e (refl, ground arith)
  ]

  pub append_regroup : (xs ys zs : List (ℕ × V)) → xs ++ ys ++ zs ≡ xs ++ (ys ++ zs)
  append_regroup [] ys zs = refl
  append_regroup (x ∷ xs) ys zs = ap (◌∷◌ x) (append_regroup xs ys zs)

  -- Keys ascend strictly, from a lower bound on.
  abbrev pub KeysFrom : ℕ → List (ℕ × List V) → Type 0
  KeysFrom lo [] = Unit {0}
  KeysFrom lo ((k, vs) ∷ gs) = (lo ≤ k) × KeysFrom (suc k) gs

  groups_from_walk :
      (fuel lo : ℕ) (m : List (ℕ × V))
      → length m ≤ fuel
      → IsSorted lo m
      → (expand (groups_from fuel m) ≡ m) × KeysFrom lo (groups_from fuel m)
  unfolding groups_from expand
  groups_from_walk zero lo [] h s = (refl, tt)
  groups_from_walk zero lo (x ∷ m) h s = absurd (omega arith)
  groups_from_walk (suc fuel) lo [] h s = (refl, tt)
  groups_from_walk (suc fuel) lo ((k, v) ∷ m) h s =
      let split = split_upper k m s.1 in
      let rest =
        groups_from_walk fuel (suc k) (from_upper k m) (omega (arith, length-from_upper-le k m))
          split.1 in
      (ap (◌∷◌ (k, v)) (ap (◌++◌ (pair_with k (values_upto k m))) rest.0 ∙ split.0), (s.0, rest.1))

  -- On a map in key order the walk visits exactly the entries of the map, in their order, and its
  -- groups have strictly ascending keys: no key makes two groups, and the fuel suffices.
  pub groups_walk :
      (m : List (ℕ × V)) → IsSorted 0 m → (expand (groups m) ≡ m) × KeysFrom 0 (groups m)
  unfolding groups
  groups_walk m s = groups_from_walk (length m) 0 m (omega arith) s
