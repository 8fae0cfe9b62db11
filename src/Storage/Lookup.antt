-- ===== src/Storage/Lookup.antt =====
-- What `find` finds after an assignment and an erasure, which keep the order.
use mathlib.Core.Path.{subst}
use cpp_jam.Common.{
  ◌≡◌, refl, sym, Bool, true, false, not, ◌&&◌, List, [], ◌∷◌, Option, none, some, if◌then◌else◌,
  Bool-cases, inl, inr, ◌⊎◌,
}
use cpp_jam.Storage.Keys.{KeyOrder, before_asym}
use cpp_jam.Storage.Map.{Bytes, Entry, find, assign, erase, IsSorted, ComesAfter}

module _ {K : Type 0} (order : KeyOrder K) where
  abbrev pub same : K → K → Bool
  same a b = not (order.before a b) && not (order.before b a)

  -- Two keys are in one of three positions.
  abbrev pub Position : K → K → Type 0
  Position a b =
      ((order.before a b ≡ true) × (order.before b a ≡ false))
      ⊎ (((order.before b a ≡ true) × (order.before a b ≡ false))
          ⊎ ((a ≡ b) × (order.before a b ≡ false) × (order.before b a ≡ false)))

  pub position : (a b : K) → Position a b
  position a b = elim (Bool-cases (order.before a b)) [
    | inl first ↦ inl (first, before_asym order a b first)
    | inr apart ↦ elim (Bool-cases (order.before b a)) [
      | inl second ↦ inr (inl (second, apart))
      | inr back ↦ inr (inr (order.total a b apart back, apart, back))
    ]
  ]

  -- A key that is before a sorted list is not in it.
  pub find_before :
      (k : K) (es : List (Entry order)) → IsSorted order (some k) es → find order k es ≡ none
  unfolding find
  find_before k [] s = refl
  find_before k (e ∷ es) s = rw s.0 refl

  pub weaken :
      (p k : K) (es : List (Entry order))
      → order.before p k ≡ true
      → IsSorted order (some k) es
      → IsSorted order (some p) es
  weaken p k [] h s = tt
  weaken p k (e ∷ es) h s = (order.transitive p k e.0 h s.0, s.1)

  assign-IsSorted_from :
      (p : Option K) (k : K) (v : Bytes) (es : List (Entry order))
      → ComesAfter order p k
      → IsSorted order p es
      → IsSorted order p (assign order k v es)
  unfolding assign
  assign-IsSorted_from p k v [] h s = (h, tt)
  assign-IsSorted_from p k v ((k', v') ∷ es) h s = elim (position k k') [
    | inl (first, apart) ↦ rw first (h, (first, s.1))
    | inr (inl (second, apart)) ↦
        rw (second, apart) (s.0, assign-IsSorted_from (some k') k v es second s.1)
    | inr (inr (e, apart, back)) ↦
        rw (apart, back) (h, subst (λ x. IsSorted order (some x) es) (sym e) s.1)
  ]

  -- An assignment is found under its key and nowhere else.
  pub find-assign :
      (k q : K) (v : Bytes) (es : List (Entry order)) (p : Option K)
      → IsSorted order p es
      → find order q (assign order k v es) ≡ (if same k q then some v else find order q es)
  unfolding find assign
  find-assign k q v [] p s = elim (position q k) [
    | inl (first, apart) ↦ rw (first, apart) refl
    | inr (inl (second, apart)) ↦ rw (second, apart) refl
    | inr (inr (e, apart, back)) ↦ rw (apart, back) refl
  ]
  find-assign k q v ((k', v') ∷ es) p s = elim (position k k') [
    | inl (first, apart) ↦ elim (position q k) [
      | inl (q_k, k_q) ↦ rw (first, q_k, k_q, order.transitive q k k' q_k first) refl
      | inr (inl (k_q, q_k)) ↦ rw (first, q_k, k_q) refl
      | inr (inr (e, q_k, k_q)) ↦ rw (first, q_k, k_q) refl
    ]
    | inr (inl (second, apart)) ↦ elim (position q k') [
      | inl (q_k', k'_q) ↦
          let q_k = order.transitive q k' k q_k' second in
          let k_q = before_asym order q k q_k in rw (second, apart, q_k', q_k, k_q) refl
      | inr (inl (k'_q, q_k')) ↦ rw (second, apart, k'_q, q_k') (find-assign k q v es (some k') s.1)
      | inr (inr (e, q_k', k'_q)) ↦
          let q_k : order.before q k ≡ true = subst (λ x. order.before x k ≡ true) (sym e) second in
          let k_q = before_asym order q k q_k in rw (second, apart, q_k', k'_q, q_k, k_q) refl
    ]
    | inr (inr (e, apart, back)) ↦ elim (position q k') [
      | inl (q_k', k'_q) ↦
          let q_k : order.before q k ≡ true = subst (λ x. order.before q x ≡ true) (sym e) q_k' in
          let k_q : order.before k q ≡ false = subst (λ x. order.before x q ≡ false) (sym e) k'_q in
          rw (apart, back, q_k', q_k, k_q) refl
      | inr (inl (k'_q, q_k')) ↦
          let q_k : order.before q k ≡ false = subst (λ x. order.before q x ≡ false) (sym e) q_k' in
          let k_q : order.before k q ≡ true = subst (λ x. order.before x q ≡ true) (sym e) k'_q in
          rw (apart, back, q_k', k'_q, q_k, k_q) refl
      | inr (inr (e', q_k', k'_q)) ↦
          let q_k : order.before q k ≡ false = subst (λ x. order.before q x ≡ false) (sym e) q_k' in
          let k_q : order.before k q ≡ false = subst (λ x. order.before x q ≡ false) (sym e) k'_q in
          rw (apart, back, q_k', k'_q, q_k, k_q) refl
    ]
  ]

  -- An erased key is not found, and the others are found as before.
  pub find-erase :
      (k q : K) (es : List (Entry order)) (p : Option K)
      → IsSorted order p es
      → find order q (erase order k es) ≡ (if same k q then none else find order q es)
  unfolding find erase
  find-erase k q [] p s = elim (Bool-cases (same k q)) [
    | inl equal ↦ rw equal refl
    | inr other ↦ rw other refl
  ]
  find-erase k q ((k', v') ∷ es) p s = elim (position k k') [
    | inl (first, apart) ↦ elim (position q k) [
      | inl (q_k, k_q) ↦ rw (first, q_k, k_q) refl
      | inr (inl (k_q, q_k)) ↦ rw (first, q_k, k_q) refl
      | inr (inr (e, q_k, k_q)) ↦
          let q_k' : order.before q k' ≡ true =
            subst (λ x. order.before x k' ≡ true) (sym e) first in
          rw (first, q_k, k_q, q_k') refl
    ]
    | inr (inl (second, apart)) ↦ elim (position q k') [
      | inl (q_k', k'_q) ↦
          let q_k = order.transitive q k' k q_k' second in
          let k_q = before_asym order q k q_k in rw (second, apart, q_k', q_k, k_q) refl
      | inr (inl (k'_q, q_k')) ↦ rw (second, apart, k'_q, q_k') (find-erase k q es (some k') s.1)
      | inr (inr (e, q_k', k'_q)) ↦
          let q_k : order.before q k ≡ true = subst (λ x. order.before x k ≡ true) (sym e) second in
          let k_q = before_asym order q k q_k in rw (second, apart, q_k', k'_q, q_k, k_q) refl
    ]
    | inr (inr (e, apart, back)) ↦ elim (position q k') [
      | inl (q_k', k'_q) ↦
          let q_k : order.before q k ≡ true = subst (λ x. order.before q x ≡ true) (sym e) q_k' in
          let k_q : order.before k q ≡ false = subst (λ x. order.before x q ≡ false) (sym e) k'_q in
          rw (apart, back, q_k', q_k, k_q) (find_before q es (weaken q k' es q_k' s.1))
      | inr (inl (k'_q, q_k')) ↦
          let q_k : order.before q k ≡ false = subst (λ x. order.before q x ≡ false) (sym e) q_k' in
          let k_q : order.before k q ≡ true = subst (λ x. order.before x q ≡ true) (sym e) k'_q in
          rw (apart, back, q_k', k'_q, q_k, k_q) refl
      | inr (inr (e', q_k', k'_q)) ↦
          let q_k : order.before q k ≡ false = subst (λ x. order.before q x ≡ false) (sym e) q_k' in
          let k_q : order.before k q ≡ false = subst (λ x. order.before x q ≡ false) (sym e) k'_q in
          rw (apart, back, q_k', k'_q, q_k, k_q)
            (find_before q es (subst (λ x. IsSorted order (some x) es) (sym e') s.1))
    ]
  ]

  -- Whatever is behind a key is behind what comes before it.
  IsSorted-skip :
      (p : Option K) (k : K) (es : List (Entry order))
      → ComesAfter order p k
      → IsSorted order (some k) es
      → IsSorted order p es
  IsSorted-skip none k [] h s = tt
  IsSorted-skip none k (e ∷ es) h s = (tt, s.1)
  IsSorted-skip (some p) k es h s = weaken p k es h s

  pub erase-IsSorted :
      (p : Option K) (k : K) (es : List (Entry order))
      → IsSorted order p es
      → IsSorted order p (erase order k es)
  unfolding erase
  erase-IsSorted p k [] s = tt
  erase-IsSorted p k ((k', v') ∷ es) s = elim (position k k') [
    | inl (first, apart) ↦ rw first s
    | inr (inl (second, apart)) ↦ rw (second, apart) (s.0, erase-IsSorted (some k') k es s.1)
    | inr (inr (e, apart, back)) ↦ rw (apart, back) (IsSorted-skip p k' es s.0 s.1)
  ]

  pub assign-IsSorted :
      (k : K) (v : Bytes) (es : List (Entry order))
      → IsSorted order none es
      → IsSorted order none (assign order k v es)
  assign-IsSorted k v es s = assign-IsSorted_from none k v es tt s
