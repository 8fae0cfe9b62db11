-- ===== src/StateManager/Callbacks.antt =====
-- Which callbacks a stage of the state manager calls.
use mathlib.Core.List.{append_assoc, append-nil}
use mathlib.Core.Logic.{inl, inr}
use cpp_jam.Common.{
  ℕ, ◌≡◌, refl, ap, ◌∙◌, Bool, true, false, not, ◌&&◌, List, [], ◌∷◌, ◌++◌, map, if◌then◌else◌,
  Bool-cases,
}
use cpp_jam.StateManager.Stages.{
  Stage, shutting_down, is_stage, Callback, arrives, requested, call, call_all,
}

-- All succeed and nobody asks for a shutdown.
abbrev pub passes : List Callback → Bool
passes [] = true
passes (cb ∷ cbs) = not cb.stops_before && ((cb.success && not cb.stops_during) && passes cbs)

-- The callbacks up to the first one that fails or in which a shutdown is asked for, or before
-- the first one that a shutdown comes in front of.
abbrev pub called : List Callback → List Callback
called [] = []
called (cb ∷ cbs) =
    let rest = called cbs in
    if cb.stops_before then [] else if cb.success && not cb.stops_during then cb ∷ rest else cb ∷ []

abbrev pub numbers : List Callback → List ℕ
numbers cbs = map (λ cb. cb.number) cbs

-- A stage in which callbacks are called.
abbrev pub IsCalling : Stage → Type 0
IsCalling at =
    (is_stage at at ≡ true) × (is_stage shutting_down at ≡ false) × (requested at ≡ shutting_down)

module _ (at : Stage) (calling : IsCalling at) where
  arrives_idle : (comes : Bool) → arrives comes shutting_down ≡ shutting_down
  arrives_idle true = refl
  arrives_idle false = refl

  pub call_all_idle :
      (cbs : List Callback) (ran : List ℕ)
      → call_all at cbs (shutting_down, ran) ≡ (shutting_down, ran)
  unfolding call_all call
  call_all_idle [] ran = refl
  call_all_idle (cb ∷ cbs) ran =
      rw (arrives_idle cb.stops_before, calling.1) (call_all_idle cbs ran)

  call_lem :
      (number : ℕ) (success before during : Bool) (ran : List ℕ)
      → call at
          (record {
            number = number;
            success = success;
            stops_before = before;
            stops_during = during;
          })
          (at, ran)
        ≡ (
          if not before && (success && not during) then at else shutting_down,
          ran ++ (if before then [] else number ∷ []),
        )
  unfolding call
  call_lem n success true during ran = rw (calling.2, calling.1, append-nil ran) refl
  call_lem n true false true ran = rw (calling.0, calling.2) refl
  call_lem n true false false ran = rw calling.0 refl
  call_lem n false false true ran = rw (calling.0, calling.2, calling.1) refl
  call_lem n false false false ran = rw calling.0 refl

  pub call_all_lem :
      (cbs : List Callback) (ran : List ℕ)
      → call_all at cbs (at, ran)
        ≡ (if passes cbs then at else shutting_down, ran ++ numbers (called cbs))
  unfolding call_all
  call_all_lem [] ran = rw (append-nil ran) refl
  call_all_lem (cb ∷ cbs) ran =
      let first = call_lem cb.number cb.success cb.stops_before cb.stops_during ran in
      elim (Bool-cases cb.stops_before) [
        | inl before ↦ ap (call_all at cbs) first ∙ rw before (call_all_idle cbs (ran ++ []))
        | inr on_time ↦ elim (Bool-cases (cb.success && not cb.stops_during)) [
          | inl good ↦
              ap (call_all at cbs) first
              ∙ rw (on_time, good)
                  (call_all_lem cbs (ran ++ cb.number ∷ [])
                    ∙ ap (λ r. (if passes cbs then at else shutting_down, r))
                        (append_assoc ran (cb.number ∷ []) (numbers (called cbs))))
          | inr bad ↦
              ap (call_all at cbs) first
              ∙ rw (on_time, bad) (call_all_idle cbs (ran ++ cb.number ∷ []))
        ]
      ]
