-- ===== src/History/Roots.antt =====
-- The state roots of the history: history.hpp, `transition` repeated.
use mathlib.Core.List.{append_assoc, map-append, append-nil}
use cpp_jam.Common.{
  ℕ, zero, suc, ◌+◌, ◌-◌, ◌≤◌, ◌≡◌, refl, ap, ◌∙◌, true, false, List, [], ◌∷◌, ◌++◌, map, leb,
  if◌then◌else◌, length, drop, length-append, length-drop, arith, Bool-cases, leb→le, inl, inr,
}
use cpp_jam.History.Blocks.{BlockInfo, Input, history_size, set_last_root, make_room, transition}
use cpp_jam.History.Runs.{
  run, last_n, state_roots, drop-drop, push_last, map-make_room, set_last,
  state_roots-set_last_root,
}

set_last-append : (r x : ℕ) (rs : List ℕ) → set_last r (rs ++ x ∷ []) ≡ rs ++ r ∷ []
set_last-append r x [] = refl
set_last-append r x (y ∷ []) = refl
set_last-append r x (y ∷ z ∷ rs) = ap (◌∷◌ y) (set_last-append r x (z ∷ rs))

set_last-drop :
    (r x k : ℕ) (rs : List ℕ)
    → k ≤ length rs
    → set_last r (drop k (rs ++ x ∷ [])) ≡ drop k (rs ++ r ∷ [])
set_last-drop r x zero rs h = set_last-append r x rs
set_last-drop r x (suc k) [] h = absurd (omega arith)
set_last-drop r x (suc k) (y ∷ rs) h = set_last-drop r x k rs (omega arith)

length-last_n :
    (rs : List ℕ) (x y : ℕ) → length (last_n 8 (rs ++ x ∷ [])) ≡ length (last_n 8 (rs ++ y ∷ []))
length-last_n rs x y = omega (
  arith,
  length-append rs (x ∷ []),
  length-append rs (y ∷ []),
  length-drop (length (rs ++ x ∷ []) - 8) (rs ++ x ∷ []),
  length-drop (length (rs ++ y ∷ []) - 8) (rs ++ y ∷ []),
)

abbrev roomy : List ℕ → List ℕ
roomy xs = if leb 8 (length xs) then drop 1 xs else xs

same-length : (rs : List ℕ) (x y : ℕ) → length (rs ++ x ∷ []) ≡ length (rs ++ y ∷ [])
same-length rs x y = omega (arith, length-append rs (x ∷ []), length-append rs (y ∷ []))

set_last-roomy :
    (r x : ℕ) (rs : List ℕ)
    → set_last r (roomy (last_n 8 (rs ++ x ∷ []))) ≡ roomy (last_n 8 (rs ++ r ∷ []))
set_last-roomy r x rs = elim (Bool-cases (leb 8 (length (last_n 8 (rs ++ x ∷ []))))) [
  | inl e ↦
      let e' : leb 8 (length (last_n 8 (rs ++ r ∷ []))) ≡ true =
        ap (λ n. leb 8 n) (length-last_n rs r x) ∙ e in
      rw
        (
          e,
          e',
          drop-drop 1 (length (rs ++ x ∷ []) - 8) (rs ++ x ∷ []),
          drop-drop 1 (length (rs ++ r ∷ []) - 8) (rs ++ r ∷ []),
          same-length rs r x,
        )
        (set_last-drop r x (length (rs ++ x ∷ []) - 8 + 1) rs (
          omega (
            arith,
            leb→le 8 (length (last_n 8 (rs ++ x ∷ []))) e,
            length-drop (length (rs ++ x ∷ []) - 8) (rs ++ x ∷ []),
            length-append rs (x ∷ []),
          )))
  | inr e ↦
      let e' : leb 8 (length (last_n 8 (rs ++ r ∷ []))) ≡ false =
        ap (λ n. leb 8 n) (length-last_n rs r x) ∙ e in
      rw (e, e', same-length rs r x)
        (set_last-drop r x (length (rs ++ x ∷ []) - 8) rs
          (omega (arith, length-append rs (x ∷ []))))
]

state_roots-transition :
    (keccak : List ℕ → ℕ) (beta : List BlockInfo) (i : Input) (rs : List ℕ)
    → state_roots beta ≡ last_n 8 (rs ++ 0 ∷ [])
    → state_roots (transition keccak beta i) ≡ last_n 8 ((rs ++ i.parent_state_root ∷ []) ++ 0 ∷ [])
unfolding transition
state_roots-transition keccak beta i rs h =
    map-append _ (set_last_root i.parent_state_root (make_room beta)) _
    ∙ ap (λ xs. xs ++ 0 ∷ [])
        (state_roots-set_last_root i.parent_state_root (make_room beta)
          ∙ ap (set_last i.parent_state_root)
              (map-make_room (λ b. b.state_root) beta (rs ++ 0 ∷ []) h)
          ∙ set_last-roomy i.parent_state_root 0 rs)
    ∙ push_last (rs ++ i.parent_state_root ∷ []) 0

run-state_roots :
    (keccak : List ℕ → ℕ) (beta : List BlockInfo) (rs : List ℕ) (is : List Input)
    → state_roots beta ≡ last_n 8 (rs ++ 0 ∷ [])
    → state_roots (run keccak beta is)
      ≡ last_n 8 ((rs ++ map (λ i. i.parent_state_root) is) ++ 0 ∷ [])
run-state_roots keccak beta rs [] h = rw append-nil h
run-state_roots keccak beta rs (i ∷ is) h =
    rw (append_assoc rs (i.parent_state_root ∷ []) (map (λ i. i.parent_state_root) is)) at (
      run-state_roots keccak (transition keccak beta i) (rs ++ i.parent_state_root ∷ []) is
        (state_roots-transition keccak beta i rs h))

-- After one or more blocks on the empty history, each block in it has the state root that its
-- successor brought, and the last block has the zero root.
run_roots :
    (keccak : List ℕ → ℕ) (i : Input) (is : List Input)
    → state_roots (run keccak [] (i ∷ is))
      ≡ last_n history_size (map (λ i. i.parent_state_root) is ++ 0 ∷ [])
unfolding transition set_last_root
run_roots keccak i is = run-state_roots keccak (transition keccak [] i) [] is refl
