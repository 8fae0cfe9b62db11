-- ===== src/Storage/Tests.antt =====
-- A storage of two keys, and the theorems at it.
use cpp_jam.Common.{ℕ, ◌≡◌, refl, sym, List, [], ◌∷◌, none, some, ok, arith, if◌then◌else◌}
use cpp_jam.Storage.Keys.{number_order}
use cpp_jam.Storage.Map.{
  Entry, find, assign, erase, lower_bound, upper_bound, before_bound, first, last, IsSorted,
}
use cpp_jam.Storage.Memory.{Storage, put, remove, commit, batch_remove, seek_reverse}
use cpp_jam.Storage.Sizes.{total, IsValid, over, commit_ok, commit-batch_remove}
use cpp_jam.Storage.Lookup.{same}
use cpp_jam.Storage.Cursor.{walk, floor}

program : Unit {0}
unfolding find assign erase lower_bound upper_bound before_bound first last put remove commit
    seek_reverse total walk floor
program = tt

abbrev stored : Storage number_order
stored = record { entries = (2, 7 ∷ 8 ∷ []) ∷ (5, 9 ∷ []) ∷ []; size = 3 }

sizes : total number_order stored.entries ≡ 3
unfolding program
sizes = refl

stored-IsSorted : IsSorted number_order none stored.entries
stored-IsSorted = (tt, (refl, tt))

stored-IsValid : IsValid number_order stored
stored-IsValid = record {
  sorted = stored-IsSorted;
  sized = sym sizes;
  small = omega (arith, sizes);
}

abbrev batch : List (Entry number_order)
batch = (3, 1 ∷ []) ∷ []

batch_size : total number_order batch ≡ 1
unfolding program
batch_size = refl

commit_ok_example :
    (s' : Storage number_order) × (commit number_order batch stored ≡ ok s')
    × IsValid number_order s'
    × ((q : ℕ)
        → find number_order q s'.entries
          ≡ over number_order (find number_order q batch) (find number_order q stored.entries))
commit_ok_example =
    commit_ok number_order batch stored (tt, tt) stored-IsValid (omega (arith, sizes, batch_size))

-- Key 5 is removed in the batch, and is there after the commit.
commit-batch_remove_example :
    (s' : Storage number_order) × (commit number_order (batch_remove number_order 5 batch) stored
      ≡ ok s')
    × IsValid number_order s'
    × ((q : ℕ)
        → find number_order q s'.entries ≡ (
            if same number_order 5 q
            then find number_order q stored.entries
            else over number_order
                (find number_order q batch)
                (find number_order q stored.entries)))
commit-batch_remove_example =
    commit-batch_remove number_order 5 batch stored (tt, tt) stored-IsValid
      (omega (arith, sizes, batch_size))

-- The cursor's places are those of the comment on `seekReverse`.
places :
    (seek_reverse number_order 1 stored ≡ ok none)
    × (seek_reverse number_order 2 stored ≡ ok (some (2, 7 ∷ 8 ∷ [])))
    × (seek_reverse number_order 3 stored ≡ ok (some (2, 7 ∷ 8 ∷ [])))
    × (seek_reverse number_order 9 stored ≡ ok (some (5, 9 ∷ [])))
unfolding program
places = (refl, refl, refl, refl)
