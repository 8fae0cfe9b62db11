-- ===== src/Storage/Memory.antt =====
-- `InMemoryStorage`, `InMemoryBatch` and `InMemoryCursor`, with the cursor's `seekReverse`.
use cpp_jam.Common.{
  ℕ, ◌+◌, ◌-◌, ◌%◌, ◌^◌, Bool, true, false, List, [], ◌∷◌, Option, none, some, Result, ok, err,
  ◌>>=◌, ◌>>◌, fail_if, or_fail, ltb, if◌then◌else◌, length,
}
use cpp_jam.Storage.Keys.{KeyOrder}
use cpp_jam.Storage.Map.{
  Bytes, Entry, find, assign, erase, lower_bound, upper_bound, before_bound, first, last,
}

pub data StorageError : Type 0 where
  not_found : StorageError

-- A failed `BOOST_ASSERT`, and a cursor that is read where it has no entry.
pub data Fault : Type 0 where
  assertion_failed no_entry : Fault

abbrev pub is_some {ℓ} : {A : Type ℓ} → Option A → Bool
is_some none = false
is_some (some a) = true

module _ {K : Type 0} (order : KeyOrder K) where
  pub record Storage : Type 0 where
    pub entries : List (Entry order)
    pub size : ℕ

  abbrev pub get : K → Storage → Result StorageError Bytes
  get k s = or_fail (find order k s.entries) not_found

  abbrev pub try_get : K → Storage → Option Bytes
  try_get k s = find order k s.entries

  abbrev pub contains : K → Storage → Bool
  contains k s = is_some (find order k s.entries)

  -- The size without the value that is to be replaced.
  abbrev pub without_old : Option Bytes → ℕ → Result Fault ℕ
  without_old none size = ok size
  without_old (some old) size = do
    fail_if (ltb size (length old)) assertion_failed
    ok (size - length old)

  unfoldable pub put : K → Bytes → Storage → Result Fault Storage
  put k v s = do
    size ← without_old (find order k s.entries) s.size
    ok (record { entries = assign order k v s.entries; size = (size + length v) % 2 ^ 64 })

  unfoldable pub remove : K → Storage → Storage
  remove k s = elim (find order k s.entries) [
    | none ↦ s
    | some old ↦ record {
      entries = erase order k s.entries;
      size = (s.size + 2 ^ 64 - length old) % 2 ^ 64;
    }
  ]

  abbrev pub byte_size_hint : Storage → Option ℕ
  byte_size_hint s = some s.size

  -- A batch is the map of what is to be put.
  abbrev pub Batch : Type 0
  Batch = List (Entry order)

  abbrev pub batch_put : K → Bytes → Batch → Batch
  batch_put k v b = assign order k v b

  abbrev pub batch_remove : K → Batch → Batch
  batch_remove k b = erase order k b

  unfoldable pub commit : Batch → Storage → Result Fault Storage
  commit [] s = ok s
  commit ((k, v) ∷ b) s = do s' ← put k v s; commit b s'

  abbrev pub clear : Batch → Batch
  clear b = []

  -- A cursor holds a copy of its entry.
  abbrev pub Cursor : Type 0
  Cursor = Option (Entry order)

  abbrev pub is_valid : Cursor → Bool
  is_valid c = is_some c

  abbrev pub seek_first : Storage → Cursor
  seek_first s = first order s.entries

  abbrev pub seek : K → Storage → Cursor
  seek k s = lower_bound order k s.entries

  abbrev pub seek_last : Storage → Cursor
  seek_last s = last order s.entries

  abbrev pub next : Storage → Cursor → Result Fault Cursor
  next s none = err no_entry
  next s (some e) = ok (upper_bound order e.0 s.entries)

  abbrev pub prev : Storage → Cursor → Result Fault Cursor
  prev s none = err no_entry
  prev s (some e) = ok (before_bound order e.0 none s.entries)

  unfoldable pub seek_reverse : K → Storage → Result Fault Cursor
  seek_reverse prefix s = elim (seek prefix s) [
    | none ↦ ok (seek_last s)
    | some e ↦ if order.before prefix e.0 then prev s (some e) else ok (some e)
  ]
