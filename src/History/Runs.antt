-- ===== src/History/Runs.antt =====
-- Any number of blocks: history.hpp, `transition` repeated from an empty history.
use mathlib.Core.List.{append_assoc, map-append, append-nil}
use native.Mathlib.Nat.{suc-add, zero-add}
use cpp_jam.Common.{
  ℕ, zero, suc, ◌+◌, ◌-◌, ◌≤◌, ◌<◌, ◌≡◌, refl, sym, ap, ◌∙◌, List, [], ◌∷◌, ◌++◌, map, leb,
  if◌then◌else◌, length, drop, length-append, length-drop, length-map, arith, Bool-cases, inl, inr,
}
use mathlib.Core.Path.{subst}
use cpp_jam.History.Mmr.{append}
use cpp_jam.History.Represents.{Represents, append-Represents}
use cpp_jam.History.Blocks.{
  BlockInfo, Input, history_size, set_last_root, last_mmr, make_room, transition,
}

abbrev pub run : (List ℕ → ℕ) → List BlockInfo → List Input → List BlockInfo
run keccak beta [] = beta
run keccak beta (i ∷ is) = run keccak (transition keccak beta i) is

-- The last `n` elements, or all if there are fewer.
abbrev pub last_n {ℓ} : {A : Type ℓ} → ℕ → List A → List A
last_n n xs = drop (length xs - n) xs

abbrev pub header_hashes : List BlockInfo → List ℕ
header_hashes beta = map (λ b. b.header_hash) beta

abbrev pub state_roots : List BlockInfo → List ℕ
state_roots beta = map (λ b. b.state_root) beta

module _ {ℓ} {A : Type ℓ} where
  pub drop-drop : (a b : ℕ) (xs : List A) → drop a (drop b xs) ≡ drop (b + a) xs
  drop-drop a zero xs = rw zero-add refl
  drop-drop zero (suc b) [] = rw (suc-add b zero) refl
  drop-drop (suc a) (suc b) [] = rw (suc-add b (suc a)) refl
  drop-drop a (suc b) (x ∷ xs) = drop-drop a b xs ∙ rw (suc-add b a) refl

  pub drop-append : (k : ℕ) (xs ys : List A) → k ≤ length xs → drop k (xs ++ ys) ≡ drop k xs ++ ys
  drop-append zero xs ys h = refl
  drop-append (suc k) [] ys h = absurd (omega arith)
  drop-append (suc k) (x ∷ xs) ys h = drop-append k xs ys (omega arith)

  -- Room is made for one more element, and it is put behind.
  pub push_last :
      (xs : List A) (a : A)
      → (if leb 8 (length (last_n 8 xs)) then drop 1 (last_n 8 xs) else last_n 8 xs) ++ a ∷ []
        ≡ last_n 8 (xs ++ a ∷ [])
  push_last xs a = elim (Bool-cases (leb 8 (length (last_n 8 xs)))) [
    | inl e ↦
        let full : 8 ≤ length xs = ground (arith, length-drop (length xs - 8) xs) in
        let same : length xs - 8 + 1 ≡ length (xs ++ a ∷ []) - 8 =
          omega (arith, length-append xs (a ∷ [])) in
        rw (e, drop-drop 1 (length xs - 8) xs)
          (sym (drop-append (length xs - 8 + 1) xs (a ∷ []) (omega arith))
            ∙ ap (λ k. drop k (xs ++ a ∷ [])) same)
    | inr e ↦
        let room : length xs < 8 = ground (arith, length-drop (length xs - 8) xs) in
        let same : length xs - 8 ≡ length (xs ++ a ∷ []) - 8 =
          omega (arith, length-append xs (a ∷ [])) in
        rw e (
          sym (drop-append (length xs - 8) xs (a ∷ []) (omega arith))
          ∙ ap (λ k. drop k (xs ++ a ∷ [])) same)
  ]

map-drop {ℓ κ} :
    {A : Type ℓ} {B : Type κ} (f : A → B) (n : ℕ) (xs : List A)
    → map f (drop n xs) ≡ drop n (map f xs)
map-drop f zero xs = refl
map-drop f (suc n) [] = refl
map-drop f (suc n) (x ∷ xs) = map-drop f n xs

-- The map over a block history commutes with making room.
pub map-make_room :
    (f : BlockInfo → ℕ) (beta : List BlockInfo) (xs : List ℕ)
    → map f beta ≡ last_n 8 xs
    → map f (make_room beta)
      ≡ (if leb 8 (length (last_n 8 xs)) then drop 1 (last_n 8 xs) else last_n 8 xs)
map-make_room f beta xs h =
    make_room_lem beta ∙ ap (λ ys. if leb 8 (length ys) then drop 1 ys else ys) h
  where
    make_room_lem :
        (b : List BlockInfo)
        → map f (make_room b) ≡ (if leb 8 (length (map f b)) then drop 1 (map f b) else map f b)
    make_room_lem b =
        rw (length-map f b)
          (elim (Bool-cases (leb 8 (length b))) [ inl e ↦ rw e (map-drop f 1 b) | inr e ↦ rw e ])

header_hashes-set_last_root :
    (r : ℕ) (beta : List BlockInfo) → header_hashes (set_last_root r beta) ≡ header_hashes beta
unfolding set_last_root
header_hashes-set_last_root r [] = refl
header_hashes-set_last_root r (b ∷ []) = refl
header_hashes-set_last_root r (b ∷ c ∷ bs) =
    ap (◌∷◌ b.header_hash) (header_hashes-set_last_root r (c ∷ bs))

-- `set_last_root` on the roots alone.
abbrev pub set_last : ℕ → List ℕ → List ℕ
set_last r [] = []
set_last r (x ∷ []) = r ∷ []
set_last r (x ∷ y ∷ xs) = x ∷ set_last r (y ∷ xs)

pub state_roots-set_last_root :
    (r : ℕ) (beta : List BlockInfo)
    → state_roots (set_last_root r beta) ≡ set_last r (state_roots beta)
unfolding set_last_root
state_roots-set_last_root r [] = refl
state_roots-set_last_root r (b ∷ []) = refl
state_roots-set_last_root r (b ∷ c ∷ bs) =
    ap (◌∷◌ b.state_root) (state_roots-set_last_root r (c ∷ bs))

last_mmr-append : (beta : List BlockInfo) (b : BlockInfo) → last_mmr (beta ++ b ∷ []) ≡ b.mmr
unfolding last_mmr
last_mmr-append [] b = refl
last_mmr-append (c ∷ []) b = refl
last_mmr-append (c ∷ d ∷ bs) b = last_mmr-append (d ∷ bs) b

last_mmr-transition :
    (keccak : List ℕ → ℕ) (beta : List BlockInfo) (i : Input)
    → last_mmr (transition keccak beta i) ≡ append keccak (last_mmr beta) i.accumulate_root
unfolding transition
last_mmr-transition keccak beta i =
    last_mmr-append (set_last_root i.parent_state_root (make_room beta)) _

run-Represents :
    (keccak : List ℕ → ℕ) (beta : List BlockInfo) (leaves : List ℕ) (is : List Input)
    → Represents keccak 0 (last_mmr beta) leaves
    → Represents keccak 0
        (last_mmr (run keccak beta is))
        (leaves ++ map (λ i. i.accumulate_root) is)
run-Represents keccak beta leaves [] r = rw append-nil r
run-Represents keccak beta leaves (i ∷ is) r =
    let next : Represents keccak 0 (last_mmr (transition keccak beta i))
        (leaves ++ i.accumulate_root ∷ []) =
      subst (λ m. Represents keccak 0 m (leaves ++ i.accumulate_root ∷ []))
        (sym (last_mmr-transition keccak beta i))
        (append-Represents keccak (last_mmr beta) leaves i.accumulate_root r) in
    rw (append_assoc leaves (i.accumulate_root ∷ []) (map (λ i. i.accumulate_root) is)) at
      (run-Represents keccak (transition keccak beta i) (leaves ++ i.accumulate_root ∷ []) is next)

-- After any blocks on the empty history, the last range stands for the accumulation roots of all
-- these blocks, in order, also of those that have left the history.
pub run_mmr :
    (keccak : List ℕ → ℕ) (is : List Input)
    → Represents keccak 0 (last_mmr (run keccak [] is)) (map (λ i. i.accumulate_root) is)
unfolding last_mmr
run_mmr keccak is = run-Represents keccak [] [] is refl

header_hashes-transition :
    (keccak : List ℕ → ℕ) (beta : List BlockInfo) (i : Input) (hs : List ℕ)
    → header_hashes beta ≡ last_n 8 hs
    → header_hashes (transition keccak beta i) ≡ last_n 8 (hs ++ i.header_hash ∷ [])
unfolding transition
header_hashes-transition keccak beta i hs h =
    map-append _ (set_last_root i.parent_state_root (make_room beta)) _
    ∙ ap (λ xs. xs ++ i.header_hash ∷ [])
        (header_hashes-set_last_root i.parent_state_root (make_room beta)
          ∙ map-make_room (λ b. b.header_hash) beta hs h)
    ∙ push_last hs i.header_hash

run-header_hashes :
    (keccak : List ℕ → ℕ) (beta : List BlockInfo) (hs : List ℕ) (is : List Input)
    → header_hashes beta ≡ last_n 8 hs
    → header_hashes (run keccak beta is) ≡ last_n 8 (hs ++ map (λ i. i.header_hash) is)
run-header_hashes keccak beta hs [] h = rw append-nil h
run-header_hashes keccak beta hs (i ∷ is) h =
    rw (append_assoc hs (i.header_hash ∷ []) (map (λ i. i.header_hash) is)) at (
      run-header_hashes keccak (transition keccak beta i) (hs ++ i.header_hash ∷ []) is
        (header_hashes-transition keccak beta i hs h))

-- After any blocks on the empty history, it holds the last eight of them, in order, or all if there
-- are fewer.
pub run_blocks :
    (keccak : List ℕ → ℕ) (is : List Input)
    → header_hashes (run keccak [] is) ≡ last_n history_size (map (λ i. i.header_hash) is)
run_blocks keccak is = run-header_hashes keccak [] [] is refl
