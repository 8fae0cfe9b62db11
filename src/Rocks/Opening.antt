-- ===== src/Rocks/Opening.antt =====
-- `RocksDb::RocksDb`: what it does to the database directory, and when it opens the database.
use cpp_jam.Common.{
  ℕ, Bool, true, false, not, ◌&&◌, ◌||◌, List, [], ◌∷◌, Option, none, some, if◌then◌else◌, Result,
  ok, err, ◌>>=◌, ◌>>◌, fail_if, length, replicate,
}
use cpp_jam.Common.Sets.{contains}
use cpp_jam.Rocks.Library.{Status}
use cpp_jam.Rocks.Spaces.{StorageError, status_as_error}

-- What `ListColumnFamilies` answers.
pub data Listing : Type 0 where
  listed : List ℕ → Listing
  path_not_found : Listing
  failed : Status → Listing

-- The answers of the operating system and of the library. An error code is none when it is zero.
-- `arrange` is the order in which an unordered set of names is walked.
pub record Surroundings (Db : Type 0) : Type 0 where
  pub soft_limit : Option ℕ
  pub path_exists : Bool
  pub create_directories : Option ℕ
  pub create_directory : Bool × Option ℕ
  pub is_directory : Bool
  pub column_families : Listing
  pub arrange : List ℕ → List ℕ
  pub open_with_ttl : List ℕ → List ℕ → Status × Db × List (ℕ × ℕ)

-- What is raised: a storage error, or an error code, which may be that of success.
pub data Raised : Type 0 where
  storage_error : StorageError → Raised
  error_code : Option ℕ → Raised

abbrev pub is_error : Option ℕ → Bool
is_error none = false
is_error (some e) = true

abbrev pub unlimited : Option ℕ → Bool
unlimited none = true
unlimited (some l) = false

-- `createDirectory`: whether it fails.
unfoldable pub create_directory_fails : {Db : Type 0} → Surroundings Db → Bool
create_directory_fails s =
    (not s.create_directory.0 && is_error s.create_directory.1) || not s.is_directory

unfoldable pub existing_families : Listing → Result Raised (List ℕ)
existing_families (listed names) = ok names
existing_families path_not_found = ok []
existing_families (failed status) = err (storage_error (status_as_error status))

-- The names of the spaces, and those that the database has besides.
unfoldable pub all_families : List ℕ → List ℕ → List ℕ
all_families known [] = known
all_families known (n ∷ ns) =
    let rest = all_families known ns in
    let more = all_families (n ∷ known) ns in if contains known n then rest else more

abbrev pub opened :
    {Db : Type 0} → Status × Db × List (ℕ × ℕ) → Result Raised (Option Db × List (ℕ × ℕ))
opened (Status.ok, db, handles) = ok (some db, handles)
opened (status, db, handles) = err (storage_error (status_as_error status))

-- `openDatabaseWithTTL`, for a path that was not there; every column has the ttl 0.
unfoldable pub open_if_new :
    {Db : Type 0} → Surroundings Db → List ℕ → Result Raised (Option Db × List (ℕ × ℕ))
open_if_new s families =
    if s.path_exists
    then ok (none, [])
    else opened (s.open_with_ttl (s.arrange families) (replicate (length families) 0))

-- The constructor: `db_`, none for a null pointer, and the handles.
unfoldable pub construct :
    {Db : Type 0} → Surroundings Db → Result Raised (Option Db × List (ℕ × ℕ))
construct s = do
  fail_if (unlimited s.soft_limit) (storage_error StorageError.unknown)
  fail_if (is_error s.create_directories) (error_code s.create_directories)
  fail_if (create_directory_fails s) (error_code s.create_directories)
  existing ← existing_families s.column_families
  open_if_new s (all_families (0 ∷ []) existing)
