-- ===== src/Safrole/OutsideIn.antt =====
-- `Z` of safrole.hpp never fails at the right size, and its result holds each ticket once.
use mathlib.Core.List.{Perm, perm_middle, append-nil}
use mathlib.Core.List.Perm
use mathlib.Core.Path.{subst}
use native.Mathlib.Nat.{zero-add, suc-add}
use cpp_jam.Common.{
  ℕ, ◌%◌, ◌/◌, if◌then◌else◌, or_fail, or_fail-eq-ok, >>=-eq-ok, zero, suc, ◌+◌, ◌-◌, ◌<◌, ◌≡◌,
  refl, sym, ap, ◌∙◌, Bool, true, false, List, [], ◌∷◌, ◌++◌, some, ok, length, get_elem?, take,
  drop, arith, get_elem?_lt, ==_iff, ◌==◌,
}
use cpp_jam.Safrole.Types.{TicketBody, wrong_size}
use cpp_jam.Safrole.Sequence.{outside_in, tickets_sequence}

take-drop_first :
    (s : List TicketBody) (i n : ℕ) (t : TicketBody)
    → get_elem? s i ≡ some t
    → take (suc n) (drop i s) ≡ t ∷ take n (drop (suc i) s)
take-drop_first [] i n t h = absurd (cc)
take-drop_first (u ∷ s) zero n t h = let e : u ≡ t = cc in λ j. e j ∷ take n s
take-drop_first (u ∷ s) (suc i) n t h = take-drop_first s i n t h

take_last :
    (s : List TicketBody) (n : ℕ) (t : TicketBody)
    → get_elem? s n ≡ some t
    → take (suc n) s ≡ take n s ++ t ∷ []
take_last [] n t h = absurd (cc)
take_last (u ∷ s) zero t h = let e : u ≡ t = cc in λ j. e j ∷ []
take_last (u ∷ s) (suc n) t h = ap (◌∷◌ u) (take_last s n t h)

get_elem?-drop : (i n : ℕ) (s : List TicketBody) → get_elem? (drop i s) n ≡ get_elem? s (i + n)
get_elem?-drop zero n s = rw zero-add refl
get_elem?-drop (suc i) n [] = refl
get_elem?-drop (suc i) n (u ∷ s) = rw (suc-add i n) (get_elem?-drop i n s)

-- The ticket taken from the front, and from the back.
perm_front :
    (s r : List TicketBody) (i n : ℕ) (t : TicketBody)
    → get_elem? s i ≡ some t
    → Perm r (take n (drop (i + 1) s))
    → Perm (t ∷ r) (take (suc n) (drop i s))
perm_front s r i n t found perm =
    let more : i + 1 ≡ suc i = omega arith in
    subst (λ l. Perm (t ∷ r) l) (sym (take-drop_first s i n t found))
      (Perm.cons t (subst (λ k. Perm r (take n (drop k s))) more perm))

perm_back :
    (s r : List TicketBody) (i j n : ℕ) (t : TicketBody)
    → i + n ≡ j
    → get_elem? s j ≡ some t
    → Perm r (take n (drop i s))
    → Perm (t ∷ r) (take (suc n) (drop i s))
perm_back s r i j n t e found perm =
    subst (λ l. Perm (t ∷ r) l)
      (sym (take_last (drop i s) n t (get_elem?-drop i n s ∙ ap (get_elem? s) e ∙ found)))
      (Perm.trans (Perm.cons t (subst (λ l. Perm r l) (sym (append-nil (take n (drop i s)))) perm))
        (Perm.symm (perm_middle (take n (drop i s)) [])))

-- The loop from `i` up and `j` down over the `n` tickets between them.
outside_in_perm :
    (s : List TicketBody) (n : ℕ) (odd : Bool) (i j : ℕ)
    → i + n ≡ j + 1
    → j < length s
    → (r : List TicketBody) × (outside_in s n odd i j ≡ ok r) × Perm r (take n (drop i s))
unfolding outside_in
outside_in_perm s zero odd i j e h = ([], refl, Perm.refl [])
outside_in_perm s (suc zero) true i j e h =
    let (t, found) = get_elem?_lt s i (omega arith) in
    (t ∷ [], rw found refl, perm_front s [] i 0 t found (Perm.refl []))
outside_in_perm s (suc zero) false i j e h =
    let (t, found) = get_elem?_lt s j h in
    (t ∷ [], rw found refl, perm_back s [] i j 0 t (omega arith) found (Perm.refl []))
outside_in_perm s (suc (suc n)) true i j e h =
    let (t, found) = get_elem?_lt s i (omega arith) in
    let (r, run, perm) = outside_in_perm s (suc n) false (i + 1) j (omega arith) h in
    (t ∷ r, rw (found, run) refl, perm_front s r i (suc n) t found perm)
outside_in_perm s (suc (suc n)) false i j e h =
    let (t, found) = get_elem?_lt s j h in
    let (r, run, perm) = outside_in_perm s (suc n) true i (j - 1) (omega arith) (omega arith) in
    (t ∷ r, rw (found, run) refl, perm_back s r i j (suc n) t (omega arith) found perm)

take_whole : (s : List TicketBody) → take (length s) s ≡ s
take_whole [] = refl
take_whole (t ∷ s) = ap (◌∷◌ t) (take_whole s)

-- The place of the ticket that the loop takes in its round `k`, when it stands at `i` and `j`.
abbrev place : Bool → ℕ → ℕ → ℕ → ℕ
place true i j k = if k % 2 == 0 then i + k / 2 else j - k / 2
place false i j k = if k % 2 == 0 then j - k / 2 else i + k / 2

place_front : (i j k : ℕ) → place false (i + 1) j k ≡ place true i j (suc k)
place_front i j k = ground arith

place_back : (i j k : ℕ) → place true i (j - 1) k ≡ place false i j (suc k)
place_back i j k = ground arith

outside_in_order :
    (s r : List TicketBody) (n : ℕ) (odd : Bool) (i j k : ℕ)
    → outside_in s n odd i j ≡ ok r
    → k < n
    → get_elem? r k ≡ get_elem? s (place odd i j k)
unfolding outside_in
outside_in_order s r zero odd i j k h lt = absurd (omega arith)
outside_in_order s r (suc n) true i j k h lt =
    let (t, found, h1) = >>=-eq-ok (or_fail (get_elem? s i) wrong_size) _ h in
    let (rest, run, h2) = >>=-eq-ok (outside_in s n false (i + 1) j) _ h1 in
    let made : t ∷ rest ≡ r = cc in
    ap (λ l. get_elem? l k) (sym made)
    ∙ by_round t rest k lt (or_fail-eq-ok (get_elem? s i) wrong_size found)
        (λ k' lt'. outside_in_order s rest n false (i + 1) j k' run lt')
  where
    by_round :
        (t : TicketBody) (rest : List TicketBody) (k : ℕ)
        → k < suc n
        → get_elem? s i ≡ some t
        → ((k' : ℕ) → k' < n → get_elem? rest k' ≡ get_elem? s (place false (i + 1) j k'))
        → get_elem? (t ∷ rest) k ≡ get_elem? s (place true i j k)
    by_round t rest zero lt found later =
        let here : i ≡ i + 0 / 2 = omega arith in sym found ∙ ap (get_elem? s) here
    by_round t rest (suc k) lt found later =
        later k (omega arith) ∙ ap (get_elem? s) (place_front i j k)
outside_in_order s r (suc n) false i j k h lt =
    let (t, found, h1) = >>=-eq-ok (or_fail (get_elem? s j) wrong_size) _ h in
    let (rest, run, h2) = >>=-eq-ok (outside_in s n true i (j - 1)) _ h1 in
    let made : t ∷ rest ≡ r = cc in
    ap (λ l. get_elem? l k) (sym made)
    ∙ by_round t rest k lt (or_fail-eq-ok (get_elem? s j) wrong_size found)
        (λ k' lt'. outside_in_order s rest n true i (j - 1) k' run lt')
  where
    by_round :
        (t : TicketBody) (rest : List TicketBody) (k : ℕ)
        → k < suc n
        → get_elem? s j ≡ some t
        → ((k' : ℕ) → k' < n → get_elem? rest k' ≡ get_elem? s (place true i (j - 1) k'))
        → get_elem? (t ∷ rest) k ≡ get_elem? s (place false i j k)
    by_round t rest zero lt found later =
        let here : j ≡ j - 0 / 2 = omega arith in sym found ∙ ap (get_elem? s) here
    by_round t rest (suc k) lt found later =
        later k (omega arith) ∙ ap (get_elem? s) (place_back i j k)

-- The tickets of a full accumulator are put in the sealing order without an error: in turns the next one from the
-- front and the next one from the back. The sequence holds each of them exactly as often as the accumulator does.
pub tickets_sequence_perm :
    (s : List TicketBody) (epoch_length : ℕ)
    → 0 < epoch_length
    → length s ≡ epoch_length
    → (r : List TicketBody) × (tickets_sequence epoch_length s ≡ ok r)
      × Perm r s
      × ((k : ℕ)
          → k < epoch_length
          → get_elem? r k ≡ get_elem? s (if k % 2 == 0 then k / 2 else epoch_length - 1 - k / 2))
unfolding tickets_sequence
tickets_sequence_perm s epoch_length pos e =
    let (r, run, perm) =
      outside_in_perm s epoch_length true 0 (length s - 1) (omega arith) (omega arith) in
    let full : (length s == epoch_length) ≡ true = (==_iff (length s) epoch_length).1 e in
    (
      r,
      rw full run,
      subst (λ l. Perm r l) (ap (λ k. take k s) (sym e) ∙ take_whole s) perm,
      λ k lt.
          outside_in_order s r epoch_length true 0 (length s - 1) k run lt
          ∙ ap (get_elem? s) (from_start k (length s) epoch_length e),
    )
  where
    from_start :
        (k n m : ℕ) → n ≡ m → place true 0 (n - 1) k ≡ (if k % 2 == 0 then k / 2 else m - 1 - k / 2)
    from_start k n m e = ground (arith, e)
