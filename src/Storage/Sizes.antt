-- ===== src/Storage/Sizes.antt =====
-- The storage's map and its size under `put`, `remove` and a batch's `commit`.
use mathlib.Core.Path.{subst}
use cpp_jam.Common.{
  ℕ, ◌+◌, ◌-◌, ◌%◌, ◌^◌, ◌≤◌, ◌<◌, ◌≡◌, refl, sym, ap, ◌∙◌, Bool, true, false, List, [], ◌∷◌,
  Option, none, some, ok, ltb, if◌then◌else◌, length, arith, Option-cases, inl, inr,
}
use cpp_jam.Storage.Keys.{KeyOrder}
use cpp_jam.Storage.Map.{Bytes, Entry, find, assign, erase, IsSorted}
use cpp_jam.Storage.Lookup.{
  same, position, find_before, weaken, find-assign, find-erase, assign-IsSorted, erase-IsSorted,
}
use cpp_jam.Storage.Memory.{Storage, put, remove, commit, Batch, batch_remove, without_old}

abbrev pub size_of : Option Bytes → ℕ
size_of none = 0
size_of (some v) = length v

module _ {K : Type 0} (order : KeyOrder K) where
  -- The bytes of all values.
  unfoldable pub total : List (Entry order) → ℕ
  total [] = 0
  total (e ∷ es) = length e.1 + total es

  total-assign :
      (k : K) (v : Bytes) (es : List (Entry order))
      → total (assign order k v es) + size_of (find order k es) ≡ total es + length v
  unfolding total assign find
  total-assign k v [] = omega arith
  total-assign k v ((k', v') ∷ es) = elim (position order k k') [
    | inl (first, apart) ↦ rw first (omega arith)
    | inr (inl (second, apart)) ↦ rw (second, apart) (omega (arith, total-assign k v es))
    | inr (inr (e, apart, back)) ↦ rw (apart, back) (omega arith)
  ]

  total-erase :
      (k : K) (es : List (Entry order))
      → total (erase order k es) + size_of (find order k es) ≡ total es
  unfolding total erase find
  total-erase k [] = refl
  total-erase k ((k', v') ∷ es) = elim (position order k k') [
    | inl (first, apart) ↦ rw first (omega arith)
    | inr (inl (second, apart)) ↦ rw (second, apart) (omega (arith, total-erase k es))
    | inr (inr (e, apart, back)) ↦ rw (apart, back) (omega arith)
  ]

  -- The map is in order, and the size is that of the values, which fit into the address space.
  pub record IsValid (s : Storage order) : Type 0 where
    pub sorted : IsSorted order none s.entries
    pub sized : s.size ≡ total s.entries
    pub small : total s.entries < 2 ^ 64

  without_old_ok :
      (old : Option Bytes) (size : ℕ)
      → size_of old ≤ size
      → without_old order old size ≡ ok (size - size_of old)
  without_old_ok none size h = let whole : size ≡ size - 0 = omega arith in ap ok whole
  without_old_ok (some v) size h =
      let enough : ltb size (length v) ≡ false = ground arith in rw enough refl

  -- In a valid storage, as long as the values fit into the address space, `put` passes its assertion. The storage
  -- stays valid, its key is bound to the value, and every other key to what it was.
  pub put_ok :
      (k : K) (v : Bytes) (s : Storage order)
      → IsValid s
      → total s.entries + length v < 2 ^ 64
      → (s' : Storage order) × (put order k v s ≡ ok s')
        × IsValid s'
        × (total s'.entries ≤ total s.entries + length v)
        × ((q : K)
            → find order q s'.entries ≡ (if same order k q then some v else find order q s.entries))
  unfolding put
  put_ok k v s valid fits =
      let old = find order k s.entries in
      let assigned = total-assign k v s.entries in
      let erased = total-erase k s.entries in
      let within : size_of old ≤ s.size = omega (arith, valid.sized) in
      let sized : (s.size - size_of old + length v) % 2 ^ 64 ≡ total (assign order k v s.entries) =
        omega (arith, valid.sized) in
      (
        record {
          entries = assign order k v s.entries;
          size = (s.size - size_of old + length v) % 2 ^ 64;
        },
        rw (without_old_ok old s.size within) refl,
        record {
          sorted = assign-IsSorted order k v s.entries valid.sorted;
          sized = sized;
          small = omega arith;
        },
        omega arith,
        λ q. find-assign order k q v s.entries none valid.sorted,
      )

  -- Keys that are the same are found alike.
  find-same :
      (k q : K) (es : List (Entry order))
      → find order k es ≡ none
      → find order q es ≡ (if same order k q then none else find order q es)
  find-same k q es h = elim (position order k q) [
    | inl (first, apart) ↦ rw first refl
    | inr (inl (second, apart)) ↦ rw (second, apart) refl
    | inr (inr (e, apart, back)) ↦ rw (apart, back) (subst (λ x. find order x es ≡ none) e h)
  ]

  abbrev Removed : K → Storage order → Storage order → Type 0
  Removed k s s' =
      IsValid s'
      × ((q : K)
          → find order q s'.entries ≡ (if same order k q then none else find order q s.entries))

  -- `remove` keeps a valid storage valid. Its key is unbound, and every other key bound to what it was.
  pub remove_ok :
      (k : K) (s : Storage order)
      → IsValid s
      → IsValid (remove order k s)
        × ((q : K)
            → find order q (remove order k s).entries
              ≡ (if same order k q then none else find order q s.entries))
  unfolding remove
  remove_ok k s valid = elim (Option-cases (find order k s.entries)) [
    | inl missing ↦
        let kept : remove order k s ≡ s = rw (missing, remove) refl in
        subst (Removed k s) (sym kept) (valid, λ q. find-same k q s.entries missing)
    | inr (old, found) ↦
        let erased = total-erase k s.entries in
        let size : size_of (find order k s.entries) ≡ length old = ap size_of found in
        let sized : (s.size + 2 ^ 64 - length old) % 2 ^ 64 ≡ total (erase order k s.entries) =
          omega (arith, valid.sized, valid.small) in
        let taken : remove order k s ≡ record {
          entries = erase order k s.entries;
          size = (s.size + 2 ^ 64 - length old) % 2 ^ 64;
        } =
          rw (found, remove) refl in
        subst (Removed k s) (sym taken) (
          record {
            sorted = erase-IsSorted order none k s.entries valid.sorted;
            sized = sized;
            small = omega (arith, valid.small);
          },
          λ q. find-erase order k q s.entries none valid.sorted,
        )
  ]

  -- The value of a batch, if it has one, and otherwise that of the storage.
  abbrev pub over : Option Bytes → Option Bytes → Option Bytes
  over none below = below
  over (some v) below = some v

  over-cons :
      (q k : K) (v : Bytes) (b : Batch order) (below : Option Bytes)
      → IsSorted order (some k) b
      → over (find order q b) (if same order k q then some v else below)
        ≡ over (find order q ((k, v) ∷ b)) below
  unfolding find
  over-cons q k v b below sorted = elim (position order q k) [
    | inl (first, apart) ↦
        rw (first, apart)
          (ap (λ o. over o below) (find_before order q b (weaken order q k b first sorted)))
    | inr (inl (second, apart)) ↦ rw (second, apart) refl
    | inr (inr (e, apart, back)) ↦
        rw (apart, back)
          (ap (λ o. over o (some v))
            (find_before order q b (subst (λ x. IsSorted order (some x) b) (sym e) sorted)))
  ]

  tail-IsSorted : (k : K) (b : Batch order) → IsSorted order (some k) b → IsSorted order none b
  tail-IsSorted k [] sorted = tt
  tail-IsSorted k (e ∷ b) sorted = (tt, sorted.1)

  -- Committing a batch to a valid storage passes every assertion as long as all values fit into the address space. The
  -- storage stays valid, and holds the batch's values over its own.
  pub commit_ok :
      (b : Batch order) (s : Storage order)
      → IsSorted order none b
      → IsValid s
      → total s.entries + total b < 2 ^ 64
      → (s' : Storage order) × (commit order b s ≡ ok s')
        × IsValid s'
        × ((q : K) → find order q s'.entries ≡ over (find order q b) (find order q s.entries))
  unfolding commit find total
  commit_ok [] s sorted valid fits = (s, refl, valid, λ q. refl)
  commit_ok ((k, v) ∷ b) s sorted valid fits =
      let (s1, put1, valid1, grown, found1) = put_ok k v s valid (omega arith) in
      let (s', rest, valid', found) =
        commit_ok b s1 (tail-IsSorted k b sorted.1) valid1 (omega arith) in
      (
        s',
        rw (put1, rest) refl,
        valid',
        λ q.
            found q
            ∙ ap (over (find order q b)) (found1 q)
            ∙ over-cons q k v b (find order q s.entries) sorted.1,
      )

  over-if :
      (c : Bool) (mine below : Option Bytes)
      → over (if c then none else mine) below ≡ (if c then below else over mine below)
  over-if true mine below = refl
  over-if false mine below = refl

  -- In a valid storage, as long as all values fit into the address space: when a key is removed from a batch before it is committed, the storage
  -- still binds the key to what it bound it to before, and every other key to the batch's value over its own.
  pub commit-batch_remove :
      (k : K) (b : Batch order) (s : Storage order)
      → IsSorted order none b
      → IsValid s
      → total s.entries + total b < 2 ^ 64
      → (s' : Storage order) × (commit order (batch_remove order k b) s ≡ ok s')
        × IsValid s'
        × ((q : K)
            → find order q s'.entries ≡ (
                if same order k q
                then find order q s.entries
                else over (find order q b) (find order q s.entries)))
  commit-batch_remove k b s sorted valid fits =
      let erased = total-erase k b in
      let (s', done, valid', found) =
        commit_ok (erase order k b) s (erase-IsSorted order none k b sorted) valid
          (omega (arith, fits, erased)) in
      (
        s',
        done,
        valid',
        λ q.
            found q
            ∙ ap (λ o. over o (find order q s.entries)) (find-erase order k q b none sorted)
            ∙ over-if (same order k q) (find order q b) (find order q s.entries),
      )
