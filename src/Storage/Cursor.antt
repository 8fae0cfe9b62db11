-- ===== src/Storage/Cursor.antt =====
-- What the cursor visits, and where `seekReverse` puts it.
use mathlib.Core.Path.{subst}
use mathlib.Core.List.{append_assoc}
use cpp_jam.Common.{
  ℕ, zero, suc, ◌≡◌, refl, sym, ap, ◌∙◌, true, false, List, [], ◌∷◌, ◌++◌, Option, none, some,
  Result, ok, ◌>>=◌, if◌then◌else◌, length, Bool-cases, Option-cases, inl, inr,
}
use cpp_jam.Storage.Keys.{KeyOrder, before_asym}
use cpp_jam.Storage.Map.{Entry, lower_bound, upper_bound, before_bound, first, last, IsSorted}
use cpp_jam.Storage.Memory.{Fault, Storage, Cursor, next, prev, seek_first, seek_reverse}

module _ {K : Type 0} (order : KeyOrder K) where
  -- The entries that a cursor visits in a number of steps forward, and where it is then.
  unfoldable pub walk :
      ℕ → Storage order → Cursor order → Result Fault (List (Entry order) × Cursor order)
  walk zero s c = ok ([], c)
  walk (suc n) s none = ok ([], none)
  walk (suc n) s (some e) = do c ← next order s (some e); rest ← walk n s c; ok (e ∷ rest.0, rest.1)

  unfoldable pub last_or : Option (Entry order) → List (Entry order) → Option (Entry order)
  last_or p [] = p
  last_or p (e ∷ es) = last_or (some e) es

  upper_bound_after :
      (k : K) (es : List (Entry order))
      → IsSorted order (some k) es
      → upper_bound order k es ≡ first order es
  unfolding upper_bound first
  upper_bound_after k [] s = refl
  upper_bound_after k (e ∷ es) s = rw s.0 refl

  before_inside :
      (k : K) (xs ys : List (Entry order)) (e : Entry order)
      → IsSorted order (some k) (xs ++ (e ∷ ys))
      → order.before k e.0 ≡ true
  before_inside k [] ys e s = s.0
  before_inside k (x ∷ xs) ys e s = order.transitive k x.0 e.0 s.0 (before_inside x.0 xs ys e s.1)

  upper_bound-append :
      (p : Option K) (xs ys : List (Entry order)) (e : Entry order)
      → IsSorted order p (xs ++ (e ∷ ys))
      → upper_bound order e.0 (xs ++ (e ∷ ys)) ≡ first order ys
  unfolding upper_bound
  upper_bound-append p [] ys e s = rw (order.irreflexive e.0) (upper_bound_after e.0 ys s.1)
  upper_bound-append p (x ∷ xs) ys e s =
      rw (before_asym order x.0 e.0 (before_inside x.0 xs ys e s.1))
        (upper_bound-append (some x.0) xs ys e s.1)

  before_bound-append :
      (p : Option K) (before : Option (Entry order)) (xs ys : List (Entry order)) (e : Entry order)
      → IsSorted order p (xs ++ (e ∷ ys))
      → before_bound order e.0 before (xs ++ (e ∷ ys)) ≡ last_or before xs
  unfolding before_bound last_or
  before_bound-append p before [] ys e s = rw (order.irreflexive e.0) refl
  before_bound-append p before (x ∷ xs) ys e s =
      rw (before_inside x.0 xs ys e s.1) (before_bound-append (some x.0) (some x) xs ys e s.1)

  walk_from :
      (s : Storage order) (xs ys : List (Entry order))
      → IsSorted order none (xs ++ ys)
      → s.entries ≡ xs ++ ys
      → walk (length ys) s (first order ys) ≡ ok (ys, none)
  unfolding walk first
  walk_from s xs [] sorted e = refl
  walk_from s xs (y ∷ ys) sorted e =
      let step : upper_bound order y.0 s.entries ≡ first order ys =
        ap (upper_bound order y.0) e ∙ upper_bound-append none xs ys y sorted in
      let moved : xs ++ (y ∷ ys) ≡ (xs ++ y ∷ []) ++ ys = sym (append_assoc xs (y ∷ []) ys) in
      let rest =
        walk_from s (xs ++ y ∷ []) ys (subst (IsSorted order none) moved sorted) (e ∙ moved) in
      rw (step, rest) refl

  -- From the first entry on, the cursor visits all entries of a map whose keys ascend in their order, and then it
  -- is not valid.
  walk_all :
      (s : Storage order)
      → IsSorted order none s.entries
      → walk (length s.entries) s (seek_first order s) ≡ ok (s.entries, none)
  walk_all s sorted = walk_from s [] s.entries sorted refl

  last_or-append :
      (p : Option (Entry order)) (xs : List (Entry order)) (e : Entry order)
      → last_or p (xs ++ e ∷ []) ≡ some e
  unfolding last_or
  last_or-append p [] e = refl
  last_or-append p (x ∷ xs) e = last_or-append (some x) xs e

  -- For two neighbours in a map whose keys ascend, a step forward leads from the one to the other, and a step back
  -- from the other to the one.
  pub next-prev :
      (s : Storage order) (xs ys : List (Entry order)) (e e' : Entry order)
      → IsSorted order none s.entries
      → s.entries ≡ xs ++ (e ∷ e' ∷ ys)
      → (next order s (some e) ≡ ok (some e')) × (prev order s (some e') ≡ ok (some e))
  unfolding first
  next-prev s xs ys e e' sorted h =
      let sorted' = subst (IsSorted order none) h sorted in
      let moved : xs ++ (e ∷ e' ∷ ys) ≡ (xs ++ e ∷ []) ++ (e' ∷ ys) =
        sym (append_assoc xs (e ∷ []) (e' ∷ ys)) in
      (
        ap ok (ap (upper_bound order e.0) h ∙ upper_bound-append none xs (e' ∷ ys) e sorted'),
        ap ok (
            ap (before_bound order e'.0 none) (h ∙ moved)
            ∙ before_bound-append none none (xs ++ e ∷ []) ys e'
                (subst (IsSorted order none) moved sorted')
            ∙ last_or-append none xs e),
      )

  -- The last entry whose key is not after `k`.
  unfoldable pub floor : K → Option (Entry order) → List (Entry order) → Option (Entry order)
  floor k p [] = p
  floor k p (e ∷ es) = let rest = floor k (some e) es in if order.before k e.0 then p else rest

  last-last_or : (es : List (Entry order)) → last order es ≡ last_or none es
  unfolding last last_or
  last-last_or [] = refl
  last-last_or (e ∷ []) = refl
  last-last_or (e ∷ e' ∷ es) = last-last_or (e' ∷ es)

  floor-none :
      (k : K) (p : Option (Entry order)) (es : List (Entry order))
      → lower_bound order k es ≡ none
      → floor k p es ≡ last_or p es
  unfolding floor last_or lower_bound
  floor-none k p [] h = refl
  floor-none k p (e ∷ es) h = elim (Bool-cases (order.before e.0 k)) [
    | inl below ↦ rw (before_asym order e.0 k below) (floor-none k (some e) es (rw below at h))
    | inr other ↦ absurd (cc)
  ]

  floor-above :
      (k : K) (p : Option (Entry order)) (es : List (Entry order)) (e : Entry order)
      → lower_bound order k es ≡ some e
      → order.before k e.0 ≡ true
      → floor k p es ≡ before_bound order e.0 p es
  unfolding floor before_bound lower_bound
  floor-above k p [] e h above = absurd (cc)
  floor-above k p (x ∷ es) e h above = elim (Bool-cases (order.before x.0 k)) [
    | inl below ↦
        rw (before_asym order x.0 k below, order.transitive x.0 k e.0 below above)
          (floor-above k (some x) es e (rw below at h) above)
    | inr other ↦
        let found : some x ≡ some e = rw other at h in
        let here : x ≡ e = cc in
        let k_x : order.before k x.0 ≡ true =
          subst (λ y. order.before k y.0 ≡ true) (sym here) above in
        let self : order.before x.0 e.0 ≡ false =
          subst (λ y. order.before x.0 y.0 ≡ false) here (order.irreflexive x.0) in
        rw (k_x, self) refl
  ]

  floor_after :
      (k : K) (e : Entry order) (es : List (Entry order))
      → k ≡ e.0
      → IsSorted order (some e.0) es
      → floor k (some e) es ≡ some e
  unfolding floor
  floor_after k e [] h s = refl
  floor_after k e (x ∷ es) h s =
      let above : order.before k x.0 ≡ true = subst (λ y. order.before y x.0 ≡ true) (sym h) s.0 in
      rw above refl

  floor_at :
      (k : K) (q : Option K) (p : Option (Entry order)) (es : List (Entry order)) (e : Entry order)
      → IsSorted order q es
      → lower_bound order k es ≡ some e
      → order.before k e.0 ≡ false
      → floor k p es ≡ some e
  unfolding floor lower_bound
  floor_at k q p [] e s h apart = absurd (cc)
  floor_at k q p (x ∷ es) e s h apart = elim (Bool-cases (order.before x.0 k)) [
    | inl below ↦
        rw (before_asym order x.0 k below)
          (floor_at k (some x.0) (some x) es e s.1 (rw below at h) apart)
    | inr other ↦
        let found : some x ≡ some e = rw other at h in
        let here : x ≡ e = cc in
        let k_x : order.before k x.0 ≡ false =
          subst (λ y. order.before k y.0 ≡ false) (sym here) apart in
        rw k_x (floor_after k x es (order.total k x.0 k_x other) s.1 ∙ ap some here)
  ]

  -- In a map whose keys ascend the cursor goes to the last entry whose key is not after the given one, or becomes invalid if there is
  -- none. It reads no entry where it has none.
  pub seek_reverse_lem :
      (k : K) (s : Storage order)
      → IsSorted order none s.entries
      → seek_reverse order k s ≡ ok (floor k none s.entries)
  unfolding seek_reverse
  seek_reverse_lem k s sorted = elim (Option-cases (lower_bound order k s.entries)) [
    | inl missing ↦
        rw (missing, seek_reverse)
          (ap ok (last-last_or s.entries ∙ sym (floor-none k none s.entries missing)))
    | inr (e, found) ↦ elim (Bool-cases (order.before k e.0)) [
      | inl above ↦
          rw (found, above, seek_reverse) (ap ok (sym (floor-above k none s.entries e found above)))
      | inr at ↦
          rw (found, at, seek_reverse)
            (ap ok (sym (floor_at k none none s.entries e sorted found at)))
    ]
  ]
