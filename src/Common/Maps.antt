-- ===== src/Common/Maps.antt =====
-- `std::unordered_map` with numbers as keys, as an association list.
use Prim.Native.Nat.{ℕ}
use mathlib.Core.Path.{◌≡◌, refl, subst}
use mathlib.Core.Logic.{inl, inr}
use mathlib.Core.Bool.{false}
use mathlib.Core.Option.{Option, none, some}
use mathlib.Core.List.{List, [], ◌∷◌}
use native.Mathlib.Omega.{arith}
use cpp_jam.Common.Tests.{◌==◌, if◌then◌else◌, Bool-cases, ==_iff}

module _ {ℓ} {V : Type ℓ} where
  unfoldable pub find : ℕ → List (ℕ × V) → Option V
  find k [] = none
  find k (p ∷ ps) = if p.0 == k then some p.1 else find k ps

  -- `map[k] = v`.
  unfoldable pub assign : ℕ → V → List (ℕ × V) → List (ℕ × V)
  assign k v [] = (k, v) ∷ []
  assign k v (p ∷ ps) = if p.0 == k then (k, v) ∷ ps else p ∷ assign k v ps

  unfoldable pub remove : ℕ → List (ℕ × V) → List (ℕ × V)
  remove k [] = []
  remove k (p ∷ ps) = let rest = remove k ps in if p.0 == k then rest else p ∷ rest

  -- No key stands twice.
  abbrev pub IsMap : List (ℕ × V) → Type ℓ
  IsMap [] = Unit
  IsMap (p ∷ ps) = (find p.0 ps ≡ none) × IsMap ps

module _ {ℓ} {V : Type ℓ} where
  pub find_lem :
      (k : ℕ) (p : ℕ × V) (ps : List (ℕ × V))
      → find k (p ∷ ps) ≡ (if p.0 == k then some p.1 else find k ps)
  unfolding find
  find_lem k p ps = refl

  pub find-assign :
      (k j : ℕ) (v : V) (ps : List (ℕ × V))
      → find j (assign k v ps) ≡ (if k == j then some v else find j ps)
  unfolding find assign
  find-assign k j v [] = refl
  find-assign k j v (p ∷ ps) = ground (arith, find-assign k j v ps)

  pub find-remove :
      (k j : ℕ) (ps : List (ℕ × V)) → find j (remove k ps) ≡ (if k == j then none else find j ps)
  unfolding find remove
  find-remove k j [] = ground arith
  find-remove k j (p ∷ ps) = ground (arith, find-remove k j ps)

  pub assign-IsMap : (k : ℕ) (v : V) (ps : List (ℕ × V)) → IsMap ps → IsMap (assign k v ps)
  unfolding find assign
  assign-IsMap k v [] m = (refl, tt)
  assign-IsMap k v (p ∷ ps) m = elim (Bool-cases (p.0 == k)) [
    | inl same ↦ rw same (subst (λ x. find x ps ≡ none) ((==_iff p.0 k).0 same) m.0, m.1)
    | inr other ↦
        rw other (ground (arith, find-assign k p.0 v ps, other, m.0), assign-IsMap k v ps m.1)
  ]

  pub remove-IsMap : (k : ℕ) (ps : List (ℕ × V)) → IsMap ps → IsMap (remove k ps)
  unfolding find remove
  remove-IsMap k [] m = tt
  remove-IsMap k (p ∷ ps) m = elim (Bool-cases (p.0 == k)) [
    | inl same ↦ rw same (remove-IsMap k ps m.1)
    | inr other ↦ rw other (ground (arith, find-remove k p.0 ps, other, m.0), remove-IsMap k ps m.1)
  ]

  pub find_head : (p : ℕ × V) (ps : List (ℕ × V)) → find p.0 (p ∷ ps) ≡ some p.1
  unfolding find
  find_head p ps = rw ((==_iff p.0 p.0).1 refl) refl

  -- A key that is absent is another than one that is there.
  pub absent_other :
      (k j : ℕ) (v : V) (ps : List (ℕ × V))
      → find k ps ≡ none
      → find j ps ≡ some v
      → (k == j) ≡ false
  absent_other k j v ps absent there = elim (Bool-cases (k == j)) [
    | inl same ↦
        let absent' : find j ps ≡ none =
          subst (λ x. find x ps ≡ none) ((==_iff k j).0 same) absent in
        absurd (cc)
    | inr other ↦ other
  ]

  pub find_tail :
      (p : ℕ × V) (j : ℕ) (v : V) (ps : List (ℕ × V))
      → find p.0 ps ≡ none
      → find j ps ≡ some v
      → find j (p ∷ ps) ≡ some v
  unfolding find
  find_tail p j v ps absent there = rw (absent_other p.0 j v ps absent there) there
