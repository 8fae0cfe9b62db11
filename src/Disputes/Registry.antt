-- ===== src/Disputes/Registry.antt =====
-- The registries of culprits and faults hold what the extrinsic lists, by report.
use mathlib.Core.List.{Perm, perm_middle}
use mathlib.Core.List.Perm
use cpp_jam.Common.{
  ℕ, ◌≡◌, refl, false, ◌||◌, List, [], ◌∷◌, ◌++◌, map, leb, ◌==◌, arith, Bool-cases, inl, inr, All,
}
use cpp_jam.Common.Sets.{contains}
use cpp_jam.Disputes.Types.{Culprit, Fault}
use cpp_jam.Disputes.Multimap.{multi_insert}
use cpp_jam.Disputes.Groups.{IsSorted, multi_insert-IsSorted}
use cpp_jam.Disputes.Marked.{map_keys, culprit_entry_keys, fault_entry_keys, AreAgainst}
use cpp_jam.Disputes.Accusations.{register_culprits, register_faults, culprit_keys, fault_keys}

module _ {ℓ} {V : Type ℓ} where
  multi_insert-perm : (k : ℕ) (v : V) (m : List (ℕ × V)) → Perm (multi_insert k v m) ((k, v) ∷ m)
  unfolding multi_insert
  multi_insert-perm k v [] = Perm.refl ((k, v) ∷ [])
  multi_insert-perm k v ((j, w) ∷ m) = elim (Bool-cases (leb j k)) [
    | inl e ↦
        rw e (Perm.trans (Perm.cons (j, w) (multi_insert-perm k v m)) (Perm.swap (k, v) (j, w) m))
    | inr e ↦ rw e (Perm.refl ((k, v) ∷ (j, w) ∷ m))
  ]

  contains-multi_insert :
      (k r : ℕ) (v : V) (m : List (ℕ × V))
      → contains (map_keys (multi_insert k v m)) r ≡ (k == r || contains (map_keys m) r)
  unfolding multi_insert contains
  contains-multi_insert k r v [] = refl
  contains-multi_insert k r v ((j, w) ∷ m) = ground (arith, contains-multi_insert k r v m)

abbrev pub culprit_targets : List Culprit → List ℕ
culprit_targets cs = map (λ c. c.target) cs

abbrev pub fault_targets : List Fault → List ℕ
fault_targets fs = map (λ f. f.target) fs

pub register_culprits-IsSorted :
    (reg : List (ℕ × Culprit)) (cs : List Culprit)
    → IsSorted 0 reg
    → IsSorted 0 (register_culprits reg cs)
register_culprits-IsSorted reg [] s = s
register_culprits-IsSorted reg (c ∷ cs) s =
    register_culprits-IsSorted (multi_insert c.target c reg) cs
      (multi_insert-IsSorted 0 c.target c reg (omega arith) s)

pub register_faults-IsSorted :
    (reg : List (ℕ × Fault)) (fs : List Fault)
    → IsSorted 0 reg
    → IsSorted 0 (register_faults reg fs)
register_faults-IsSorted reg [] s = s
register_faults-IsSorted reg (f ∷ fs) s =
    register_faults-IsSorted (multi_insert f.target f reg) fs
      (multi_insert-IsSorted 0 f.target f reg (omega arith) s)

pub contains-register_culprits :
    (r : ℕ) (reg : List (ℕ × Culprit)) (cs : List Culprit)
    → contains (map_keys (register_culprits reg cs)) r
      ≡ (contains (culprit_targets cs) r || contains (map_keys reg) r)
unfolding contains
contains-register_culprits r reg [] = refl
contains-register_culprits r reg (c ∷ cs) = ground (
  arith,
  contains-register_culprits r (multi_insert c.target c reg) cs,
  contains-multi_insert c.target r c reg,
)

pub contains-register_faults :
    (r : ℕ) (reg : List (ℕ × Fault)) (fs : List Fault)
    → contains (map_keys (register_faults reg fs)) r
      ≡ (contains (fault_targets fs) r || contains (map_keys reg) r)
unfolding contains
contains-register_faults r reg [] = refl
contains-register_faults r reg (f ∷ fs) = ground (
  arith,
  contains-register_faults r (multi_insert f.target f reg) fs,
  contains-multi_insert f.target r f reg,
)

-- The keys in the registry's order are those of the extrinsic.
pub culprit_entry_keys-perm :
    (reg : List (ℕ × Culprit)) (cs : List Culprit)
    → Perm
        (culprit_entry_keys (register_culprits reg cs))
        (culprit_keys cs ++ culprit_entry_keys reg)
culprit_entry_keys-perm reg [] = Perm.refl _
culprit_entry_keys-perm reg (c ∷ cs) =
    Perm.trans (culprit_entry_keys-perm (multi_insert c.target c reg) cs) (
      Perm.trans
        (Perm.append (Perm.refl (culprit_keys cs)) (Perm.map _ (multi_insert-perm c.target c reg)))
        (perm_middle (culprit_keys cs) (culprit_entry_keys reg)))

pub fault_entry_keys-perm :
    (reg : List (ℕ × Fault)) (fs : List Fault)
    → Perm (fault_entry_keys (register_faults reg fs)) (fault_keys fs ++ fault_entry_keys reg)
fault_entry_keys-perm reg [] = Perm.refl _
fault_entry_keys-perm reg (f ∷ fs) =
    Perm.trans (fault_entry_keys-perm (multi_insert f.target f reg) fs) (
      Perm.trans
        (Perm.append (Perm.refl (fault_keys fs)) (Perm.map _ (multi_insert-perm f.target f reg)))
        (perm_middle (fault_keys fs) (fault_entry_keys reg)))

multi_insert-AreAgainst :
    (k : ℕ) (f : Fault) (m : List (ℕ × Fault))
    → AreAgainst (multi_insert k f m)
    → (f.vote ≡ false) × AreAgainst m
unfolding multi_insert
multi_insert-AreAgainst k f [] h = h
multi_insert-AreAgainst k f ((j, g) ∷ m) h = elim (Bool-cases (leb j k)) [
  | inl e ↦
      let h' = rw e at h in
      let rest = multi_insert-AreAgainst k f m h'.1 in (rest.0, (h'.0, rest.1))
  | inr e ↦ rw e at h
]

pub register_faults-AreAgainst :
    (reg : List (ℕ × Fault)) (fs : List Fault)
    → AreAgainst (register_faults reg fs)
    → All (λ f. f.vote ≡ false) fs × AreAgainst reg
register_faults-AreAgainst reg [] h = (tt, h)
register_faults-AreAgainst reg (f ∷ fs) h =
    let rest = register_faults-AreAgainst (multi_insert f.target f reg) fs h in
    let first = multi_insert-AreAgainst f.target f reg rest.1 in ((first.0, rest.0), first.1)
