-- ===== src/Rocks/Reads.antt =====
-- The three reads of a key.
use cpp_jam.Common.{ℕ, ◌≡◌, refl, Bool, true, false, Option, none, some, ok, ◌>>=◌, or_fail}
use cpp_jam.Rocks.Library.{Bytes, Status, Library}
use cpp_jam.Rocks.Spaces.{
  RocksDb, not_found, status_as_error, answer_contains, answer_get, answer_try_get, use_, contains,
  get, try_get, column,
}

abbrev pub is_some {ℓ} : {A : Type ℓ} → Option A → Bool
is_some none = false
is_some (some a) = true

-- The reads of a key agree: `contains` says whether `tryGet` has a value, `get` gives that value or the error that nothing is found, and all three fail with the
-- same error, also when the storage is gone.
pub reads_agree :
    {Db : Type 0} (library : Library Db) (i k : ℕ) (storage : Option (RocksDb Db))
    → (contains library i k storage ≡ (try_get library i k storage >>= λ o. ok (is_some o)))
      × (get library i k storage ≡ (try_get library i k storage >>= λ o. or_fail o not_found))
unfolding contains get try_get use_ answer_contains answer_get answer_try_get status_as_error
reads_agree library i k none = (refl, refl)
reads_agree library i k (some rocks) = by_status (library.get rocks.db (column i rocks) k)
  where
    by_status :
        (r : Status × Bytes)
        → (answer_contains r ≡ (answer_try_get r >>= λ o. ok (is_some o)))
          × (answer_get r ≡ (answer_try_get r >>= λ o. or_fail o not_found))
    by_status (Status.ok, v) = (refl, refl)
    by_status (Status.not_found, v) = (refl, refl)
    by_status (Status.io_error, v) = (refl, refl)
    by_status (Status.invalid_argument, v) = (refl, refl)
    by_status (Status.corruption, v) = (refl, refl)
    by_status (Status.not_supported, v) = (refl, refl)
    by_status (Status.other_failure, v) = (refl, refl)
