-- ===== src/Disputes/Effects.antt =====
-- What an accepted disputes extrinsic does to ψ, to ρ and to the mark: disputes.hpp, `transition`.
use mathlib.Core.List.{Perm, append-nil}
use mathlib.Core.List.Perm
use mathlib.Core.Path.{subst}
use cpp_jam.Common.{
  ℕ, zero, suc, ◌≡◌, refl, sym, ap, ◌∙◌, ◌↔◌, Bool, false, ◌||◌, List, [], ◌∷◌, ◌++◌, arith, inl,
  inr, All, err, ok, none, some, Option, get_elem?, length,
}
use cpp_jam.Common.Sets.{
  contains, insert_all, contains-insert_all, contains-append, IsAscending, insert_all-IsAscending,
}
use cpp_jam.Disputes.Types.{Env, Config, State, Extrinsic, Error, Assignment}
use cpp_jam.Disputes.Multimap.{groups}
use cpp_jam.Disputes.Apply.{clear_reports, clear_row}
use cpp_jam.Disputes.Accusations.{culprit_keys, fault_keys}
use cpp_jam.Disputes.Judged.{found_wonky, contains-insert_wonky, insert_wonky-IsAscending}
use cpp_jam.Disputes.Marked.{culprit_entry_keys, fault_entry_keys, group_keys, contains-groups}
use cpp_jam.Disputes.Registry.{
  culprit_targets, fault_targets, register_culprits-IsSorted, register_faults-IsSorted,
  contains-register_culprits, contains-register_faults, culprit_entry_keys-perm,
  fault_entry_keys-perm,
}
use cpp_jam.Disputes.Accepted.{culprit_registry, fault_registry, tallies}
use cpp_jam.Disputes.Outcome.{transition-Accepted, transition_cases}
use cpp_jam.Disputes.Transition.{transition, as_set}

or_false : (a : Bool) → (a || false) ≡ a
or_false a = ground arith

contains-as_set : (s : List ℕ) (r : ℕ) → contains (as_set s) r ≡ contains s r
unfolding contains
contains-as_set s r = contains-insert_all s [] r ∙ or_false (contains s r)

contains_none : (a : Bool) (r : ℕ) (b : Bool) → (a || contains [] r || b) ≡ (a || b)
unfolding contains
contains_none a r b = ground arith

regroup_or : (f c o : Bool) → (f || (c || o)) ≡ ((c || f) || o)
regroup_or f c o = ground arith

module _ (env : Env) (bad wonky : List ℕ) where
  clear_row_iff :
      (row : Option Assignment) (x : Assignment)
      → (clear_row env bad wonky row ≡ some x) ↔ (
          (row ≡ some x)
          × (contains bad (env.hash x.report) ≡ false)
          × (contains wonky (env.hash x.report) ≡ false))
  unfolding clear_row
  clear_row_iff none x = (λ h. absurd (cc), λ h. absurd (ground arith))
  clear_row_iff (some y) x = (λ h. ground arith, λ h. ground arith)

  clear_reports_iff :
      (rows : List (Option Assignment)) (i : ℕ) (x : Assignment)
      → (get_elem? (clear_reports env bad wonky rows) i ≡ some (some x)) ↔ (
          (get_elem? rows i ≡ some (some x))
          × (contains bad (env.hash x.report) ≡ false)
          × (contains wonky (env.hash x.report) ≡ false))
  unfolding clear_reports
  clear_reports_iff [] i x = (λ h. absurd (cc), λ h. absurd (ground arith))
  clear_reports_iff (row ∷ rows) zero x = (
    λ h. let k = (clear_row_iff row x).0 (cc) in (ap some k.0, k.1, k.2),
    λ h. ap some ((clear_row_iff row x).1 (cc, h.1, h.2)),
  )
  clear_reports_iff (row ∷ rows) (suc i) x = clear_reports_iff rows i x

  length-clear_reports :
      (rows : List (Option Assignment)) → length (clear_reports env bad wonky rows) ≡ length rows
  unfolding clear_reports
  length-clear_reports [] = refl
  length-clear_reports (row ∷ rows) = ap suc (length-clear_reports rows)

module _ (env : Env) (config : Config) (state : State) (ext : Extrinsic) (state' : State)
    (mark : List ℕ) where
  -- After an accepted extrinsic a report is bad exactly if it was or some culprit names it, good
  -- exactly if it was or some fault names it, and wonky exactly if it was or its votes are split in
  -- the wonky way.
  pub transition_report_sets :
      (r : ℕ)
      → transition env config state ext ≡ (state', ok mark)
      → (contains state'.psi.bad r
          ≡ (contains (culprit_targets ext.culprits) r || contains state.psi.bad r))
        × (contains state'.psi.good r
            ≡ (contains (fault_targets ext.faults) r || contains state.psi.good r))
        × (contains state'.psi.wonky r ≡ (
            found_wonky config r (env.order_tallies (tallies env state ext))
            || contains state.psi.wonky r))
  transition_report_sets r h =
      let a = transition-Accepted env config state ext h in
      (
        ap (λ x. contains x.psi.bad r) a.result
            ∙ contains-insert_all (group_keys (groups (culprit_registry ext)))
                (as_set state.psi.bad) r
            ∙ rw
                (
                  contains-as_set state.psi.bad r,
                  contains-groups r (culprit_registry ext)
                      (register_culprits-IsSorted [] ext.culprits tt),
                  contains-register_culprits r [] ext.culprits,
                )
                (contains_none _ r _),
        ap (λ x. contains x.psi.good r) a.result
            ∙ contains-insert_all (group_keys (groups (fault_registry ext))) (as_set state.psi.good)
                r
            ∙ rw
                (
                  contains-as_set state.psi.good r,
                  contains-groups r (fault_registry ext)
                      (register_faults-IsSorted [] ext.faults tt),
                  contains-register_faults r [] ext.faults,
                )
                (contains_none _ r _),
        ap (λ x. contains x.psi.wonky r) a.result
            ∙ contains-insert_wonky config r (as_set state.psi.wonky)
                (env.order_tallies (tallies env state ext))
            ∙ rw (contains-as_set state.psi.wonky r),
      )

  -- After an accepted extrinsic the four sets of ψ are in strictly ascending order.
  pub transition-IsAscending :
      transition env config state ext ≡ (state', ok mark)
      → IsAscending none state'.psi.good
        × IsAscending none state'.psi.bad
        × IsAscending none state'.psi.wonky
        × IsAscending none state'.psi.offenders
  transition-IsAscending h =
      let a = transition-Accepted env config state ext h in
      (
        subst (λ x. IsAscending none x.psi.good) (sym a.result)
            (insert_all-IsAscending (group_keys (groups (fault_registry ext)))
              (as_set state.psi.good) (insert_all-IsAscending state.psi.good [] tt)),
        subst (λ x. IsAscending none x.psi.bad) (sym a.result)
            (insert_all-IsAscending (group_keys (groups (culprit_registry ext)))
              (as_set state.psi.bad) (insert_all-IsAscending state.psi.bad [] tt)),
        subst (λ x. IsAscending none x.psi.wonky) (sym a.result)
            (insert_wonky-IsAscending config (as_set state.psi.wonky)
              (env.order_tallies (tallies env state ext))
              (insert_all-IsAscending state.psi.wonky [] tt)),
        subst (λ x. IsAscending none x.psi.offenders) (sym a.result)
            (insert_all-IsAscending (fault_entry_keys (fault_registry ext)) _ (
              insert_all-IsAscending (culprit_entry_keys (culprit_registry ext)) _
                (insert_all-IsAscending state.psi.offenders [] tt))),
      )

  -- The mark of an accepted extrinsic is a rearrangement of the keys of its culprits and faults, and
  -- the punish set gains exactly the keys of the mark.
  pub transition_offenders :
      transition env config state ext ≡ (state', ok mark)
      → Perm mark (culprit_keys ext.culprits ++ fault_keys ext.faults)
        × ((k : ℕ)
            → contains state'.psi.offenders k ≡ (contains mark k || contains state.psi.offenders k))
  transition_offenders h =
      let a = transition-Accepted env config state ext h in
      let cs = culprit_entry_keys (culprit_registry ext) in
      let fs = fault_entry_keys (fault_registry ext) in
      (
        subst (λ x. Perm x (culprit_keys ext.culprits ++ fault_keys ext.faults)) (sym a.marked)
            (Perm.append (rw append-nil at (culprit_entry_keys-perm [] ext.culprits))
              (rw append-nil at (fault_entry_keys-perm [] ext.faults))),
        λ k.
            ap (λ x. contains x.psi.offenders k) a.result
            ∙ contains-insert_all fs (insert_all cs (as_set state.psi.offenders)) k
            ∙ ap (λ b. contains fs k || b)
                (contains-insert_all cs (as_set state.psi.offenders) k
                  ∙ ap (λ b. contains cs k || b) (contains-as_set state.psi.offenders k))
            ∙ regroup_or (contains fs k) (contains cs k) (contains state.psi.offenders k)
            ∙ ap (λ b. b || contains state.psi.offenders k)
                (sym (ap (λ m. contains m k) a.marked ∙ contains-append cs fs k)),
      )

  -- After an accepted extrinsic a core holds a report exactly if it held that report before and the
  -- hash of the report is neither in the new bad set nor in the new wonky set. No core is added.
  pub transition_reports :
      transition env config state ext ≡ (state', ok mark)
      → ((i : ℕ) (x : Assignment)
          → (get_elem? state'.rho i ≡ some (some x)) ↔ (
              (get_elem? state.rho i ≡ some (some x))
              × (contains state'.psi.bad (env.hash x.report) ≡ false)
              × (contains state'.psi.wonky (env.hash x.report) ≡ false)))
        × (length state'.rho ≡ length state.rho)
  transition_reports h =
      let a = transition-Accepted env config state ext h in
      subst
        (λ s.
          ((i : ℕ) (x : Assignment)
            → (get_elem? s.rho i ≡ some (some x)) ↔ (
                (get_elem? state.rho i ≡ some (some x))
                × (contains s.psi.bad (env.hash x.report) ≡ false)
                × (contains s.psi.wonky (env.hash x.report) ≡ false)))
          × (length s.rho ≡ length state.rho))
        (sym a.result)
        (λ i x. clear_reports_iff env _ _ state.rho i x, length-clear_reports env _ _ state.rho)

  -- An accepted extrinsic leaves the time and the validator sets, has its proofs of misbehavior in
  -- strictly ascending order of keys, and no fault of it votes for its report.
  pub transition_accepts_only :
      transition env config state ext ≡ (state', ok mark)
      → (state'.tau ≡ state.tau)
        × (state'.kappa ≡ state.kappa)
        × (state'.lambda ≡ state.lambda)
        × IsAscending none (culprit_keys ext.culprits)
        × IsAscending none (fault_keys ext.faults)
        × All (λ f. f.vote ≡ false) ext.faults
  transition_accepts_only h =
      let a = transition-Accepted env config state ext h in
      (
        ap (λ x. x.tau) a.result,
        ap (λ x. x.kappa) a.result,
        ap (λ x. x.lambda) a.result,
        a.culprits.0,
        a.faults.0,
        a.against,
      )

-- A refused extrinsic leaves the whole state as it was.
pub transition_error_keeps :
    (env : Env) (config : Config) (state : State) (ext : Extrinsic) (state' : State) (e : Error)
    → transition env config state ext ≡ (state', err e)
    → state' ≡ state
transition_error_keeps env config state ext state' e h =
    elim (transition_cases env config state ext) [
      | inl (e', refused) ↦ cc
      | inr (s, m, taken, accepted) ↦ absurd (cc)
    ]
