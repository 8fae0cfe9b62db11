-- ===== src/Disputes/Marked.antt =====
-- What the loops over the groups of culprits and faults write.
use mathlib.Core.List.{append_assoc, append-nil}
use mathlib.Core.Path.{subst}
use cpp_jam.Common.{
  ℕ, zero, suc, ◌≤◌, ◌≡◌, refl, ap, ◌∙◌, false, ◌||◌, List, [], ◌∷◌, ◌++◌, map, ok, >>=-eq-ok, ◌==◌,
  arith, All, All-append, length,
}
use cpp_jam.Common.Sets.{contains, insert_all, insert_all-append}
use cpp_jam.Disputes.Types.{Culprit, Fault}
use cpp_jam.Disputes.Multimap.{from_upper, groups_from, groups}
use cpp_jam.Disputes.Groups.{
  expand, pair_with, IsSorted, IsSorted-mono, length-from_upper-le, split_upper, groups_walk,
}
use cpp_jam.Disputes.Apply.{
  Marks, add_offender, add_report, mark_culprits, analyse_culprits, mark_faults, analyse_faults,
}

module _ {ℓ} {V : Type ℓ} where
  abbrev pub group_keys : List (ℕ × List V) → List ℕ
  group_keys gs = map (λ g. g.0) gs

  abbrev pub map_keys : List (ℕ × V) → List ℕ
  map_keys m = map (λ e. e.0) m

  contains-upper :
      (k r : ℕ) (m : List (ℕ × V))
      → IsSorted k m
      → (k == r || contains (map_keys (from_upper k m)) r) ≡ (k == r || contains (map_keys m) r)
  unfolding contains from_upper
  contains-upper k r [] s = refl
  contains-upper k r ((j, w) ∷ m) s = ground (arith, contains-upper k r m, IsSorted-mono k j m)

  contains-groups_from :
      (fuel r lo : ℕ) (m : List (ℕ × V))
      → length m ≤ fuel
      → IsSorted lo m
      → contains (group_keys (groups_from fuel m)) r ≡ contains (map_keys m) r
  unfolding contains groups_from
  contains-groups_from zero r lo [] h s = refl
  contains-groups_from zero r lo (x ∷ m) h s = absurd (omega arith)
  contains-groups_from (suc fuel) r lo [] h s = refl
  contains-groups_from (suc fuel) r lo ((k, v) ∷ m) h s =
      ap (λ b. k == r || b)
        (contains-groups_from fuel r (suc k) (from_upper k m)
          (omega (arith, length-from_upper-le k m)) (split_upper k m s.1).1)
      ∙ contains-upper k r m s.1

  pub contains-groups :
      (r : ℕ) (m : List (ℕ × V))
      → IsSorted 0 m
      → contains (group_keys (groups m)) r ≡ contains (map_keys m) r
  unfolding groups
  contains-groups r m s = contains-groups_from (length m) r 0 m (omega arith) s

abbrev pub culprit_entry_keys : List (ℕ × Culprit) → List ℕ
culprit_entry_keys m = map (λ e. e.1.key) m

abbrev pub fault_entry_keys : List (ℕ × Fault) → List ℕ
fault_entry_keys m = map (λ e. e.1.key) m

-- The marks with the keys of offenders added.
abbrev pub with_offenders : List ℕ → List ℕ → Marks → Marks
with_offenders ks rs m = record {
  mark = m.mark ++ ks;
  punish = insert_all ks m.punish;
  reports = insert_all rs m.reports;
}

mark_culprits_lem :
    (m : Marks) (cs : List Culprit) → mark_culprits m cs ≡ with_offenders (map (λ c. c.key) cs) [] m
unfolding mark_culprits insert_all
mark_culprits_lem m [] = rw append-nil
mark_culprits_lem m (c ∷ cs) = mark_culprits_lem (add_offender c.key m) cs ∙ rw append_assoc

keys-pair_with :
    (r : ℕ) (cs : List Culprit) (m : List (ℕ × Culprit))
    → culprit_entry_keys (pair_with r cs ++ m) ≡ map (λ c. c.key) cs ++ culprit_entry_keys m
keys-pair_with r [] m = refl
keys-pair_with r (c ∷ cs) m = ap (◌∷◌ c.key) (keys-pair_with r cs m)

analyse_culprits-groups :
    (m : Marks) (gs : List (ℕ × List Culprit))
    → analyse_culprits m gs ≡ with_offenders (culprit_entry_keys (expand gs)) (group_keys gs) m
unfolding analyse_culprits insert_all expand
analyse_culprits-groups m [] = rw append-nil
analyse_culprits-groups m ((r, cs) ∷ gs) = rw (mark_culprits_lem m cs) (
    analyse_culprits-groups (add_report r (with_offenders (map (λ c. c.key) cs) [] m)) gs
    ∙ rw (keys-pair_with r cs (expand gs), append_assoc, insert_all-append))

-- Faults vote against their reports.
abbrev pub AreAgainst : List (ℕ × Fault) → Type 0
AreAgainst m = All (λ e. e.1.vote ≡ false) m

mark_faults_sound :
    (r : ℕ) (m m' : Marks) (fs : List Fault)
    → mark_faults m fs ≡ ok m'
    → AreAgainst (pair_with r fs) × (m' ≡ with_offenders (map (λ f. f.key) fs) [] m)
unfolding mark_faults insert_all
mark_faults_sound r m m' [] h = (tt, rw append-nil (ground arith))
mark_faults_sound r m m' (f ∷ fs) h =
    let rest = mark_faults_sound r (add_offender f.key m) m' fs (ground arith) in
    ((ground arith, rest.0), rest.1 ∙ rw append_assoc)

fault_keys-pair_with :
    (r : ℕ) (fs : List Fault) (m : List (ℕ × Fault))
    → fault_entry_keys (pair_with r fs ++ m) ≡ map (λ f. f.key) fs ++ fault_entry_keys m
fault_keys-pair_with r [] m = refl
fault_keys-pair_with r (f ∷ fs) m = ap (◌∷◌ f.key) (fault_keys-pair_with r fs m)

analyse_faults-groups :
    (m m' : Marks) (gs : List (ℕ × List Fault))
    → analyse_faults m gs ≡ ok m'
    → AreAgainst (expand gs)
      × (m' ≡ with_offenders (fault_entry_keys (expand gs)) (group_keys gs) m)
unfolding analyse_faults insert_all expand
analyse_faults-groups m m' [] h = (tt, rw append-nil (ground arith))
analyse_faults-groups m m' ((r, fs) ∷ gs) h =
    let (m₁, marked, next) = >>=-eq-ok (mark_faults m fs) _ h in
    let first = mark_faults_sound r m m₁ fs marked in
    let rest = analyse_faults-groups (add_report r m₁) m' gs next in
    (
      All-append (λ e. e.1.vote ≡ false) (pair_with r fs) (expand gs) first.0 rest.0,
      rest.1 ∙ rw (first.1, fault_keys-pair_with r fs (expand gs), append_assoc, insert_all-append),
    )

-- The loop over the culprits, on their registry: the keys in its order go to the mark and the
-- punish set, and the reports to the bad set.
pub analyse_culprits_lem :
    (m : Marks) (reg : List (ℕ × Culprit))
    → IsSorted 0 reg
    → analyse_culprits m (groups reg)
      ≡ with_offenders (culprit_entry_keys reg) (group_keys (groups reg)) m
analyse_culprits_lem m reg s =
    analyse_culprits-groups m (groups reg)
    ∙ ap (λ x. with_offenders (culprit_entry_keys x) (group_keys (groups reg)) m)
        (groups_walk reg s).0

-- The loop over the faults likewise, and it passes only if all vote against.
pub analyse_faults_lem :
    (m m' : Marks) (reg : List (ℕ × Fault))
    → IsSorted 0 reg
    → analyse_faults m (groups reg) ≡ ok m'
    → AreAgainst reg × (m' ≡ with_offenders (fault_entry_keys reg) (group_keys (groups reg)) m)
analyse_faults_lem m m' reg s h =
    let walk = (groups_walk reg s).0 in
    let found = analyse_faults-groups m m' (groups reg) h in
    (
      subst AreAgainst walk found.0,
      found.1 ∙ ap (λ x. with_offenders (fault_entry_keys x) (group_keys (groups reg)) m) walk,
    )
