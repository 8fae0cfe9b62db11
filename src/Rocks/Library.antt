-- ===== src/Rocks/Library.antt =====
-- What the storage uses of the RocksDB library, which is not part of the program. A column family
-- handle, a name and a key are numbers.
use cpp_jam.Common.{ℕ, List}

abbrev pub Bytes : Type 0
Bytes = List ℕ

pub data Status : Type 0 where
  ok not_found io_error invalid_argument corruption not_supported other_failure : Status

-- An entry of a `WriteBatch`.
pub data Operation : Type 0 where
  put : (column key : ℕ) → Bytes → Operation
  delete : (column key : ℕ) → Operation

-- The calls, on the state of a database.
pub record Library (Db : Type 0) : Type 0 where
  pub get : Db → ℕ → ℕ → Status × Bytes
  pub put : Db → ℕ → ℕ → Bytes → Status × Db
  pub delete : Db → ℕ → ℕ → Status × Db
  pub write : Db → List Operation → Status × Db
  pub drop_column_family : Db → ℕ → Status × Db
  pub destroy_handle : Db → ℕ → Status × Db
  pub create_column_family : Db → ℕ → Status × ℕ × Db
