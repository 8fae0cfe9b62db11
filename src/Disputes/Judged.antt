-- ===== src/Disputes/Judged.antt =====
-- When the loop over the counts passes: disputes.hpp, "Analise verdicts".
use cpp_jam.Common.{
  ℕ, ◌/◌, ◌≤◌, ◌≡◌, ◌≢◌, refl, sym, ap, ◌∙◌, ◌↔◌, ◌⊎◌, inl, inr, Bool, true, false, not, ◌&&◌, ◌||◌,
  List, [], ◌∷◌, none, ok, >>=-eq-ok, ◌==◌, if◌then◌else◌, arith, Bool-cases, All,
}
use cpp_jam.Common.Sets.{contains, insert, contains-insert, insert-IsAscending, IsAscending}
use cpp_jam.Disputes.Types.{Config, Culprit, Fault, Tally}
use cpp_jam.Disputes.Multimap.{count}
use cpp_jam.Disputes.Tally.{Outcome, bad, good, wonky, judge, apply_outcome, analyse_verdicts}

-- Half a super majority for it and some vote against it, and neither super majority.
abbrev pub is_wonky : Config → Tally → Bool
is_wonky config t =
    not (t.voted_against == config.validators_super_majority)
    && (not (t.voted_for == config.validators_super_majority)
        && (t.voted_for == config.validators_super_majority / 2 && not (t.voted_against == 0)))

-- A super majority against it, and two culprits.
pub record IsBad (config : Config) (culprits : List (ℕ × Culprit)) (t : Tally) : Type 0 where
  pub against : t.voted_against ≡ config.validators_super_majority
  pub enough : 2 ≤ count t.report culprits

-- A super majority for it and not against it, no culprit, and a fault.
pub record IsGood (config : Config) (culprits : List (ℕ × Culprit)) (faults : List (ℕ × Fault))
    (t : Tally) : Type 0 where
  pub approved : t.voted_for ≡ config.validators_super_majority
  pub other : t.voted_against ≢ config.validators_super_majority
  pub no_culprit : count t.report culprits ≡ 0
  pub enough : 1 ≤ count t.report faults

-- The reports that are found wonky, emplaced in the order of the walk.
unfoldable pub insert_wonky : Config → List ℕ → List Tally → List ℕ
insert_wonky config s [] = s
insert_wonky config s (t ∷ ts) =
    insert_wonky config (if is_wonky config t then insert t.report s else s) ts

module _ (config : Config) (culprits : List (ℕ × Culprit)) (faults : List (ℕ × Fault)) where
  -- The verdict on the report is one of the three, with the proofs of misbehavior it asks for.
  abbrev pub IsDecided : Tally → Type 0
  IsDecided t =
      IsBad config culprits t ⊎ (IsGood config culprits faults t ⊎ (is_wonky config t ≡ true))

  decide_sound :
      (t : Tally) (o : Outcome) (s s' : List ℕ)
      → judge config t ≡ ok o
      → apply_outcome culprits faults s t o ≡ ok s'
      → IsDecided t × (s' ≡ (if is_wonky config t then insert t.report s else s))
  unfolding judge apply_outcome
  decide_sound t bad s s' h k = (inl (ground arith), ground arith)
  decide_sound t good s s' h k = (inr (inl (ground arith)), ground arith)
  decide_sound t wonky s s' h k = (inr (inr (ground arith)), ground arith)

  analyse_verdicts_sound :
      (s s' : List ℕ) (ts : List Tally)
      → analyse_verdicts config culprits faults s ts ≡ ok s'
      → All IsDecided ts × (s' ≡ insert_wonky config s ts)
  unfolding analyse_verdicts insert_wonky
  analyse_verdicts_sound s s' [] h = (tt, ground arith)
  analyse_verdicts_sound s s' (t ∷ ts) h =
      let (o, judged, next) = >>=-eq-ok (judge config t) _ h in
      let (s'', applied, last) = >>=-eq-ok (apply_outcome culprits faults s t o) _ next in
      let first = decide_sound t o s s'' judged applied in
      let rest = analyse_verdicts_sound s'' s' ts last in
      ((first.0, rest.0), rest.1 ∙ ap (λ x. insert_wonky config x ts) first.1)

  decide_complete :
      (t : Tally) (s : List ℕ) (ts : List Tally)
      → IsDecided t
      → analyse_verdicts config culprits faults s (t ∷ ts)
        ≡ analyse_verdicts config culprits faults
            (if is_wonky config t then insert t.report s else s)
            ts
  unfolding analyse_verdicts judge apply_outcome
  decide_complete t s ts (inl d) = ground arith
  decide_complete t s ts (inr (inl d)) = ground arith
  decide_complete t s ts (inr (inr d)) = ground arith

  analyse_verdicts_complete :
      (s : List ℕ) (ts : List Tally)
      → All IsDecided ts
      → analyse_verdicts config culprits faults s ts ≡ ok (insert_wonky config s ts)
  unfolding analyse_verdicts insert_wonky
  analyse_verdicts_complete s [] h = refl
  analyse_verdicts_complete s (t ∷ ts) h =
      decide_complete t s ts h.0
      ∙ analyse_verdicts_complete (if is_wonky config t then insert t.report s else s) ts h.1

  -- The loop over the counts passes exactly when each count decides its report: bad with two
  -- culprits, good with a fault and no culprit, or wonky. The wonky ones join the wonky set.
  pub analyse_verdicts_iff :
      (s s' : List ℕ) (ts : List Tally)
      → (analyse_verdicts config culprits faults s ts ≡ ok s')
        ↔ (All IsDecided ts × (s' ≡ insert_wonky config s ts))
  analyse_verdicts_iff s s' ts =
      (analyse_verdicts_sound s s' ts, λ h. analyse_verdicts_complete s ts h.0 ∙ ap ok (sym h.1))

-- A report that some count finds wonky.
unfoldable pub found_wonky : Config → ℕ → List Tally → Bool
found_wonky config r [] = false
found_wonky config r (t ∷ ts) = (is_wonky config t && t.report == r) || found_wonky config r ts

pub contains-insert_wonky :
    (config : Config) (r : ℕ) (s : List ℕ) (ts : List Tally)
    → contains (insert_wonky config s ts) r ≡ (found_wonky config r ts || contains s r)
unfolding insert_wonky found_wonky
contains-insert_wonky config r s [] = refl
contains-insert_wonky config r s (t ∷ ts) = elim (Bool-cases (is_wonky config t)) [
  | inl e ↦
      rw (e, contains-insert_wonky config r (insert t.report s) ts, contains-insert t.report r s)
        (swap_or (found_wonky config r ts) (t.report == r) (contains s r))
  | inr e ↦ rw e (contains-insert_wonky config r s ts)
]
  where
    swap_or : (a b c : Bool) → (a || (b || c)) ≡ ((b || a) || c)
    swap_or a b c = ground arith

pub insert_wonky-IsAscending :
    (config : Config) (s : List ℕ) (ts : List Tally)
    → IsAscending none s
    → IsAscending none (insert_wonky config s ts)
unfolding insert_wonky
insert_wonky-IsAscending config s [] h = h
insert_wonky-IsAscending config s (t ∷ ts) h = elim (Bool-cases (is_wonky config t)) [
  | inl e ↦
      rw e
        (insert_wonky-IsAscending config (insert t.report s) ts (insert-IsAscending t.report s h))
  | inr e ↦ rw e (insert_wonky-IsAscending config s ts h)
]
