-- ===== src/Disputes/Accusations.antt =====
-- When the checks of culprits and faults pass: disputes.hpp, the loops over `culprits` and `faults`.
use cpp_jam.Common.{
  ℕ, ◌≡◌, refl, sym, ap, ◌∙◌, ◌↔◌, true, false, List, [], ◌∷◌, map, Option, none, some, ok,
  >>=-eq-ok, arith, All,
}
use cpp_jam.Common.Sets.{IsAscending, Follows, contains}
use cpp_jam.Disputes.Types.{
  Env, State, Culprit, Fault, judgement_domain, jam_guarantee, ed25519_verify,
}
use cpp_jam.Disputes.Check.{check_culprit, check_culprits, check_fault, check_faults, has_key}
use cpp_jam.Disputes.Multimap.{multi_insert}
use cpp_jam.Disputes.Votes.{at_least-Follows, Follows-at_least}

-- A guarantee of a report that is not in the bad set, signed by a validator of the current epoch
-- who is not punished yet.
pub record IsCulprit (env : Env) (state : State) (c : Culprit) : Type 0 where
  pub signed : ed25519_verify env c.signature c.key jam_guarantee c.target ≡ true
  pub fresh : contains state.psi.bad c.target ≡ false
  pub validator : has_key state.kappa c.key ≡ true
  pub unpunished : contains state.psi.offenders c.key ≡ false

-- A judgment of a report that is not in the wonky set, for a report not in the good set or against
-- one not in the bad set, signed by a validator of the current epoch who is not punished yet.
pub record IsFault (env : Env) (state : State) (f : Fault) : Type 0 where
  pub fresh : contains state.psi.wonky f.target ≡ false
  pub against : f.vote ≡ false → contains state.psi.bad f.target ≡ false
  pub approving : f.vote ≡ true → contains state.psi.good f.target ≡ false
  pub validator : has_key state.kappa f.key ≡ true
  pub signed : ed25519_verify env f.signature f.key (judgement_domain f.vote) f.target ≡ true
  pub unpunished : contains state.psi.offenders f.key ≡ false

-- The registries: the entries emplaced in the order of the extrinsic.
abbrev pub register_culprits : List (ℕ × Culprit) → List Culprit → List (ℕ × Culprit)
register_culprits reg [] = reg
register_culprits reg (c ∷ cs) = register_culprits (multi_insert c.target c reg) cs

abbrev pub register_faults : List (ℕ × Fault) → List Fault → List (ℕ × Fault)
register_faults reg [] = reg
register_faults reg (f ∷ fs) = register_faults (multi_insert f.target f reg) fs

abbrev pub culprit_keys : List Culprit → List ℕ
culprit_keys cs = map (λ c. c.key) cs

abbrev pub fault_keys : List Fault → List ℕ
fault_keys fs = map (λ f. f.key) fs

module _ (env : Env) (state : State) where
  check_culprit_sound :
      (p : Option ℕ) (c : Culprit)
      → check_culprit env state p c ≡ ok tt
      → Follows p c.key × IsCulprit env state c
  unfolding check_culprit
  check_culprit_sound p c h = (at_least-Follows p c.key (ground arith), ground arith)

  check_culprit_complete :
      (p : Option ℕ) (c : Culprit)
      → Follows p c.key
      → IsCulprit env state c
      → check_culprit env state p c ≡ ok tt
  unfolding check_culprit
  check_culprit_complete p c a i = ground (arith, Follows-at_least p c.key a)

  check_culprits_sound :
      (p : Option ℕ) (acc reg : List (ℕ × Culprit)) (cs : List Culprit)
      → check_culprits env state p acc cs ≡ ok reg
      → IsAscending p (culprit_keys cs)
        × All (IsCulprit env state) cs
        × (reg ≡ register_culprits acc cs)
  unfolding check_culprits
  check_culprits_sound p acc reg [] h = (tt, tt, ground arith)
  check_culprits_sound p acc reg (c ∷ cs) h =
      let (u, checked, next) = >>=-eq-ok (check_culprit env state p c) _ h in
      let first = check_culprit_sound p c checked in
      let (asc, valid, e) = check_culprits_sound (some c.key) _ reg cs next in
      ((first.0, asc), (first.1, valid), e)

  check_culprits_complete :
      (p : Option ℕ) (acc : List (ℕ × Culprit)) (cs : List Culprit)
      → IsAscending p (culprit_keys cs)
      → All (IsCulprit env state) cs
      → check_culprits env state p acc cs ≡ ok (register_culprits acc cs)
  unfolding check_culprits
  check_culprits_complete p acc [] a i = refl
  check_culprits_complete p acc (c ∷ cs) a i =
      rw (check_culprit_complete p c a.0 i.0) (check_culprits_complete (some c.key) _ cs a.1 i.1)

  -- The loop over the culprits passes exactly when their keys ascend strictly and each is a signed
  -- guarantee, of a report not in the bad set, by an unpunished validator of the current epoch. The
  -- registry then holds the culprits by report.
  pub check_culprits_iff :
      (reg : List (ℕ × Culprit)) (cs : List Culprit)
      → (check_culprits env state none [] cs ≡ ok reg) ↔ (
          IsAscending none (culprit_keys cs)
          × All (IsCulprit env state) cs
          × (reg ≡ register_culprits [] cs))
  check_culprits_iff reg cs = (
    check_culprits_sound none [] reg cs,
    λ h. check_culprits_complete none [] cs h.0 h.1 ∙ ap ok (sym h.2),
  )

  check_fault_sound :
      (p : Option ℕ) (f : Fault)
      → check_fault env state p f ≡ ok tt
      → Follows p f.key × IsFault env state f
  unfolding check_fault
  check_fault_sound p f h = (at_least-Follows p f.key (ground arith), ground arith)

  check_fault_complete :
      (p : Option ℕ) (f : Fault)
      → Follows p f.key
      → IsFault env state f
      → check_fault env state p f ≡ ok tt
  unfolding check_fault
  check_fault_complete p f a i = ground (arith, Follows-at_least p f.key a)

  check_faults_sound :
      (p : Option ℕ) (acc reg : List (ℕ × Fault)) (fs : List Fault)
      → check_faults env state p acc fs ≡ ok reg
      → IsAscending p (fault_keys fs) × All (IsFault env state) fs × (reg ≡ register_faults acc fs)
  unfolding check_faults
  check_faults_sound p acc reg [] h = (tt, tt, ground arith)
  check_faults_sound p acc reg (f ∷ fs) h =
      let (u, checked, next) = >>=-eq-ok (check_fault env state p f) _ h in
      let first = check_fault_sound p f checked in
      let (asc, valid, e) = check_faults_sound (some f.key) _ reg fs next in
      ((first.0, asc), (first.1, valid), e)

  check_faults_complete :
      (p : Option ℕ) (acc : List (ℕ × Fault)) (fs : List Fault)
      → IsAscending p (fault_keys fs)
      → All (IsFault env state) fs
      → check_faults env state p acc fs ≡ ok (register_faults acc fs)
  unfolding check_faults
  check_faults_complete p acc [] a i = refl
  check_faults_complete p acc (f ∷ fs) a i =
      rw (check_fault_complete p f a.0 i.0) (check_faults_complete (some f.key) _ fs a.1 i.1)

  -- The loop over the faults passes exactly when their keys ascend strictly and each is a signed
  -- judgment, that does not agree with a past one and is of no wonky report, by an unpunished
  -- validator of the current epoch. The registry then holds the faults by report.
  pub check_faults_iff :
      (reg : List (ℕ × Fault)) (fs : List Fault)
      → (check_faults env state none [] fs ≡ ok reg) ↔ (
          IsAscending none (fault_keys fs)
          × All (IsFault env state) fs
          × (reg ≡ register_faults [] fs))
  check_faults_iff reg fs = (
    check_faults_sound none [] reg fs,
    λ h. check_faults_complete none [] fs h.0 h.1 ∙ ap ok (sym h.2),
  )
