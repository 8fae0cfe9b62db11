-- ===== src/Rocks/Tests.antt =====
-- A library that keeps its data in a function, and the theorems with it.
use cpp_jam.Common.{
  ℕ, suc, ◌≡◌, refl, Bool, true, false, List, [], ◌∷◌, none, some, if◌then◌else◌, ◌==◌, ok, err,
  ◌>>=◌, ◌&&◌, or_fail, ◌⊎◌, get_elem?, ap, sym, map, ◌∙◌, ◌+◌,
}
use cpp_jam.Common.Maps.{assign}
use cpp_jam.Common.Sets.{contains}
use cpp_jam.Rocks.Library.{Bytes, Status, Library, Operation}
use cpp_jam.Rocks.Spaces
use cpp_jam.Rocks.Spaces.{
  RocksDb, StorageError, invalid_argument, not_found, Stop, thrown, get, try_get, put, get_space,
  status_result,
}
use cpp_jam.Rocks.Opening.{
  Surroundings, listed, construct, create_directory_fails, existing_families, all_families,
  open_if_new,
}
use cpp_jam.Rocks.Found.{IsDocumented, has_db, fresh_storage, get_space-construct}
use cpp_jam.Rocks.Reads.{is_some, reads_agree}

-- What each key of each column reads, and the number of the next handle.
abbrev Store : Type 0
Store = (ℕ → ℕ → Status × Bytes) × ℕ

abbrev after_operation : Operation → ℕ → ℕ → Status × Bytes → Status × Bytes
after_operation (Operation.put c k v) c' k' old = if c == c' && k == k' then (Status.ok, v) else old
after_operation (Operation.delete c k) c' k' old =
    if c == c' && k == k' then (Status.not_found, []) else old

abbrev after_operations : List Operation → ℕ → ℕ → Status × Bytes → Status × Bytes
after_operations [] c k old = old
after_operations (o ∷ os) c k old = after_operations os c k (after_operation o c k old)

-- The default column family, with handle 10, cannot be dropped.
abbrev library : Library Store
library = record {
  get = λ db c k. db.0 c k;
  put = λ db c k v.
      (Status.ok, (λ c' k'. after_operation (Operation.put c k v) c' k' (db.0 c' k'), db.1));
  delete = λ db c k.
      (Status.ok, (λ c' k'. after_operation (Operation.delete c k) c' k' (db.0 c' k'), db.1));
  write = λ db os. (Status.ok, (λ c' k'. after_operations os c' k' (db.0 c' k'), db.1));
  drop_column_family = λ db c. if c == 10 then (Status.invalid_argument, db) else (Status.ok, db);
  destroy_handle = λ db c. (Status.ok, db);
  create_column_family = λ db name.
      (Status.ok, db.1, (λ c k. if c == db.1 then (Status.not_found, []) else db.0 c k, suc db.1));
}

-- Key 5 has a value in every column.
abbrev store : Store
store = (λ c k. if k == 5 then (Status.ok, 9 ∷ []) else (Status.not_found, []), 20)

abbrev rocks : RocksDb Store
rocks = fresh_storage store ((0, 10) ∷ (3, 11) ∷ []) 0

reads_agree_example :
    (Spaces.contains library 0 5 (some rocks)
      ≡ (try_get library 0 5 (some rocks) >>= λ o. ok (is_some o)))
    × (get library 0 5 (some rocks)
        ≡ (try_get library 0 5 (some rocks) >>= λ o. or_fail o not_found))
reads_agree_example = reads_agree library 0 5 (some rocks)

-- What is put is read, in its column only.
put_run :
    put library 0 5 (7 ∷ []) (some rocks)
    ≡ (ok tt, some (record rocks { db = (library.put store 10 5 (7 ∷ [])).1 }))
unfolding put status_result
put_run = refl

drop_run : Spaces.drop_column library 0 rocks ≡ (err (thrown invalid_argument), rocks)
unfolding Spaces.drop_column Spaces.drop_named Spaces.recreate Spaces.call_then Spaces.space_name
    Spaces.find_column Spaces.status_as_error
drop_run = refl

-- The handles are those of the names, and the names come in their order.
abbrev handles_of : List ℕ → List (ℕ × ℕ)
handles_of [] = []
handles_of (n ∷ ns) = (n, 10 + n) ∷ handles_of ns

names_of : (ns : List ℕ) → map (λ h. h.0) (handles_of ns) ≡ ns
names_of [] = refl
names_of (n ∷ ns) = ap (◌∷◌ n) (names_of ns)

abbrev surroundings : Bool → Surroundings Store
surroundings exists_ = record {
  soft_limit = some 1024;
  path_exists = exists_;
  create_directories = none;
  create_directory = (false, none);
  is_directory = true;
  column_families = listed (0 ∷ 3 ∷ []);
  arrange = λ names. names;
  open_with_ttl = λ names ttls. (Status.ok, store, handles_of names);
}

surroundings-IsDocumented : IsDocumented (surroundings false)
surroundings-IsDocumented = record {
  named = λ names ttls db handles h.
      ap (λ (x : Status × Store × List (ℕ × ℕ)). map (λ p. p.0) x.2) (sym h) ∙ names_of names;
  arranged = λ names n. refl;
}

-- Obsolete column families stand before the ones of the spaces.
opens : construct (surroundings false) ≡ ok (some store, (3, 13) ∷ (0, 10) ∷ [])
unfolding construct create_directory_fails existing_families open_if_new all_families contains
opens = refl

-- An old database is not opened.
stays_closed : construct (surroundings true) ≡ ok (none, [])
unfolding construct create_directory_fails existing_families open_if_new all_families contains
stays_closed = refl

abbrev opened_handles : List (ℕ × ℕ)
opened_handles = (3, 13) ∷ (0, 10) ∷ []

get_space-construct_example :
    ((false ≡ false)
      × (has_db (some store) ≡ true)
      × ((i h : ℕ) × (get_elem? opened_handles i ≡ some (0, h))
          × (get_space library 0 (fresh_storage store opened_handles 0)
              ≡ ok (
                (0, i),
                record (fresh_storage store opened_handles 0) {
                  spaces = assign 0 (0, i) [];
                  next_object = 1;
                },
              ))))
    ⊎ ((false ≡ true)
        × (has_db (some store) ≡ false)
        × (get_space library 0 (fresh_storage store opened_handles 0)
            ≡ err (thrown invalid_argument)))
get_space-construct_example =
    get_space-construct library (surroundings false) (some store) opened_handles store 0
      surroundings-IsDocumented opens
