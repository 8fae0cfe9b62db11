-- ===== src/Rocks/Spaces.antt =====
-- `RocksDb`, `RocksDbSpace` and `RocksDbBatch`. A space object refers to its element of the vector
-- of handles, by its index.
use cpp_jam.Common.{
  ℕ, suc, Bool, true, false, List, [], ◌∷◌, ◌++◌, Option, none, some, if◌then◌else◌, ◌==◌, Result,
  ok, err, ◌>>=◌, or_fail, get_elem?, set,
}
use cpp_jam.Common.Maps.{find, assign}
use cpp_jam.Rocks.Library.{Bytes, Status, Library, Operation}

pub data StorageError : Type 0 where
  not_supported corruption invalid_argument io_error not_found storage_gone unknown : StorageError

unfoldable pub status_as_error : Status → StorageError
status_as_error Status.ok = unknown
status_as_error Status.not_found = not_found
status_as_error Status.io_error = io_error
status_as_error Status.invalid_argument = invalid_argument
status_as_error Status.corruption = corruption
status_as_error Status.not_supported = not_supported
status_as_error Status.other_failure = unknown

-- The members of `RocksDb`: the handles with their names, the spaces that were asked for, each as
-- an object with the index of its handle, and the number of the next object.
pub record RocksDb (Db : Type 0) : Type 0 where
  pub db : Db
  pub column_family_handles : List (ℕ × ℕ)
  pub spaces : List (ℕ × (ℕ × ℕ))
  pub next_object : ℕ

-- How `getSpace` and `dropColumn` stop: they throw, or an assertion fails, behind which an array is read
-- out of its range.
pub data Stop : Type 0 where
  thrown : StorageError → Stop
  assertion_failed : Stop

-- The default column family's name is 0. There is one space, the default one: for any other the
-- assertion fails.
unfoldable pub space_name : ℕ → Result Stop ℕ
space_name space = if space == 0 then ok 0 else err assertion_failed

-- `find_if` on the handles: the index of the first one with the name.
unfoldable pub find_column : ℕ → List (ℕ × ℕ) → ℕ → Option ℕ
find_column name [] i = none
find_column name (h ∷ hs) i =
    let rest = find_column name hs (suc i) in if h.0 == name then some i else rest

-- `success()` or the status as an error.
unfoldable pub status_result : Status → Result StorageError (Unit {0})
status_result Status.ok = ok tt
status_result s = err (status_as_error s)

-- The answers of the three reads.
unfoldable pub answer_contains : Status × Bytes → Result StorageError Bool
answer_contains (Status.ok, v) = ok true
answer_contains (Status.not_found, v) = ok false
answer_contains (s, v) = err (status_as_error s)

unfoldable pub answer_get : Status × Bytes → Result StorageError Bytes
answer_get (Status.ok, v) = ok v
answer_get (s, v) = err (status_as_error s)

unfoldable pub answer_try_get : Status × Bytes → Result StorageError (Option Bytes)
answer_try_get (Status.ok, v) = ok (some v)
answer_try_get (Status.not_found, v) = ok none
answer_try_get (s, v) = err (status_as_error s)

abbrev pub handle : Option (ℕ × ℕ) → ℕ
handle none = 0
handle (some h) = h.1

-- `column_`, a reference to the element of the vector, which never gets shorter.
abbrev pub column : {Db : Type 0} → ℕ → RocksDb Db → ℕ
column i rocks = handle (get_elem? rocks.column_family_handles i)

module _ {Db : Type 0} (library : Library Db) where
  -- `storage` is what the weak pointer gives.
  unfoldable pub use_ : Option (RocksDb Db) → Result StorageError (RocksDb Db)
  use_ storage = or_fail storage storage_gone

  unfoldable pub contains : ℕ → ℕ → Option (RocksDb Db) → Result StorageError Bool
  contains i k storage =
      use_ storage >>= λ rocks. answer_contains (library.get rocks.db (column i rocks) k)

  unfoldable pub get : ℕ → ℕ → Option (RocksDb Db) → Result StorageError Bytes
  get i k storage = use_ storage >>= λ rocks. answer_get (library.get rocks.db (column i rocks) k)

  unfoldable pub try_get : ℕ → ℕ → Option (RocksDb Db) → Result StorageError (Option Bytes)
  try_get i k storage =
      use_ storage >>= λ rocks. answer_try_get (library.get rocks.db (column i rocks) k)

  -- The answer, and the storage with the state that the library leaves.
  abbrev pub Written : Type 0
  Written = Result StorageError (Unit {0}) × Option (RocksDb Db)

  abbrev pub written : RocksDb Db → Status × Db → Written
  written rocks result = (status_result result.0, some (record rocks { db = result.1 }))

  unfoldable pub put : ℕ → ℕ → Bytes → Option (RocksDb Db) → Written
  put i k v none = (err storage_gone, none)
  put i k v (some rocks) = written rocks (library.put rocks.db (column i rocks) k v)

  unfoldable pub remove : ℕ → ℕ → Option (RocksDb Db) → Written
  remove i k none = (err storage_gone, none)
  remove i k (some rocks) = written rocks (library.delete rocks.db (column i rocks) k)

  -- A batch collects operations on the column of its space.
  unfoldable pub batch_put : ℕ → ℕ → Bytes → List Operation → List Operation
  batch_put column_ k v batch = batch ++ Operation.put column_ k v ∷ []

  unfoldable pub batch_remove : ℕ → ℕ → List Operation → List Operation
  batch_remove column_ k batch = batch ++ Operation.delete column_ k ∷ []

  unfoldable pub clear : List Operation → List Operation
  clear batch = []

  unfoldable pub commit : List Operation → Option (RocksDb Db) → Written
  commit batch none = (err storage_gone, none)
  commit batch (some rocks) = written rocks (library.write rocks.db batch)

  -- A space object: its number, and the index of its handle.
  unfoldable pub new_space : ℕ → RocksDb Db → Option ℕ → Result Stop ((ℕ × ℕ) × RocksDb Db)
  new_space space rocks none = err (thrown invalid_argument)
  new_space space rocks (some i) = ok (
    (rocks.next_object, i),
    record rocks {
      spaces = assign space (rocks.next_object, i) rocks.spaces;
      next_object = suc rocks.next_object;
    },
  )

  unfoldable pub get_space : ℕ → RocksDb Db → Result Stop ((ℕ × ℕ) × RocksDb Db)
  get_space space rocks = elim (find space rocks.spaces) [
    | some object ↦ ok (object, rocks)
    | none ↦ space_name space >>= λ name.
        new_space space rocks (find_column name rocks.column_family_handles 0)
  ]

  -- `dropColumn`: the answer, and the storage with the state that the library leaves.
  abbrev pub Dropped : Type 0
  Dropped = Result Stop (Unit {0}) × RocksDb Db

  -- The function `e` after a call: it throws, or what is next runs.
  unfoldable pub call_then : Status → RocksDb Db → (RocksDb Db → Dropped) → Dropped
  call_then Status.ok rocks next = next rocks
  call_then status rocks next = (err (thrown (status_as_error status)), rocks)

  abbrev pub with_new : ℕ → ℕ → ℕ → RocksDb Db → RocksDb Db
  with_new i name new rocks = record rocks {
    column_family_handles = set rocks.column_family_handles i (name, new);
  }

  unfoldable pub recreate : ℕ → ℕ → ℕ → RocksDb Db → Dropped
  recreate i name old rocks =
      let dropped = library.drop_column_family rocks.db old in
      let destroyed = library.destroy_handle dropped.1 old in
      let created = library.create_column_family destroyed.1 name in
      call_then dropped.0 (record rocks { db = dropped.1 })
        (λ rocks1.
          call_then destroyed.0 (record rocks1 { db = destroyed.1 })
            (λ rocks2.
              call_then created.0 (record rocks2 { db = created.2 })
                (λ rocks3. (ok tt, with_new i name created.1 rocks3))))

  unfoldable pub drop_named : ℕ → RocksDb Db → Option ℕ → Dropped
  drop_named name rocks none = (err (thrown invalid_argument), rocks)
  drop_named name rocks (some i) = recreate i name (column i rocks) rocks

  unfoldable pub drop_column : ℕ → RocksDb Db → Dropped
  drop_column space rocks = elim (space_name space) [
    | err stop ↦ (err stop, rocks)
    | ok name ↦ drop_named name rocks (find_column name rocks.column_family_handles 0)
  ]
