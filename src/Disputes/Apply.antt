-- ===== src/Disputes/Apply.antt =====
-- The new sets: culprits into the bad set, faults into the good set, their keys into the punish set
-- and the offenders' mark; and the reports that leave their cores.
use cpp_jam.Common.{
  ℕ, ◌||◌, List, [], ◌∷◌, ◌++◌, Option, none, some, Result, ok, ◌>>=◌, ◌>>◌, fail_if, if◌then◌else◌,
}
use cpp_jam.Common.Sets.{contains, insert}
use cpp_jam.Disputes.Types.{Env, Error, Culprit, Fault, Assignment, fault_verdict_wrong}

-- What the two loops write: the mark in order of discovery, the punish set, and one report set.
pub record Marks : Type 0 where
  pub mark : List ℕ
  pub punish : List ℕ
  pub reports : List ℕ

abbrev pub add_offender : ℕ → Marks → Marks
add_offender key m = record m { mark = m.mark ++ key ∷ []; punish = insert key m.punish }

abbrev pub add_report : ℕ → Marks → Marks
add_report r m = record m { reports = insert r m.reports }

unfoldable pub mark_culprits : Marks → List Culprit → Marks
mark_culprits m [] = m
mark_culprits m (c ∷ cs) = mark_culprits (add_offender c.key m) cs

-- The loop over the groups of culprits; `reports` is the bad set.
unfoldable pub analyse_culprits : Marks → List (ℕ × List Culprit) → Marks
analyse_culprits m [] = m
analyse_culprits m ((r, cs) ∷ gs) = analyse_culprits (add_report r (mark_culprits m cs)) gs

unfoldable pub mark_faults : Marks → List Fault → Result Error Marks
mark_faults m [] = ok m
mark_faults m (f ∷ fs) = do
  fail_if f.vote fault_verdict_wrong
  mark_faults (add_offender f.key m) fs

-- The loop over the groups of faults; `reports` is the good set.
unfoldable pub analyse_faults : Marks → List (ℕ × List Fault) → Result Error Marks
analyse_faults m [] = ok m
analyse_faults m ((r, fs) ∷ gs) = do m' ← mark_faults m fs; analyse_faults (add_report r m') gs

-- One core's report is dropped if its hash is in the new bad or wonky set.
unfoldable pub clear_row : Env → List ℕ → List ℕ → Option Assignment → Option Assignment
clear_row env bad wonky none = none
clear_row env bad wonky (some a) =
    if contains bad (env.hash a.report) || contains wonky (env.hash a.report) then none else some a

unfoldable pub clear_reports :
    Env → List ℕ → List ℕ → List (Option Assignment) → List (Option Assignment)
unfolding clear_row
clear_reports env bad wonky [] = []
clear_reports env bad wonky (row ∷ rows) =
    clear_row env bad wonky row ∷ clear_reports env bad wonky rows
