-- ===== src/Rocks/Found.antt =====
-- What spaces are found after the constructor.
use cpp_jam.Common.{
  ℕ, suc, ◌+◌, arith, map, get_elem?, ==_iff, ◌≡◌, refl, sym, ◌∙◌, ap, Bool, true, false, ◌||◌,
  ◌==◌, List, [], ◌∷◌, Option, none, some, Result, ok, err, fail_if, Bool-cases, inl, inr, ◌⊎◌,
  >>=-eq-ok, if_true, if_false,
}
use cpp_jam.Common.Sets.{contains}
use cpp_jam.Common.Maps.{find, assign}
use cpp_jam.Rocks.Library.{Status, Library}
use cpp_jam.Rocks.Spaces.{
  RocksDb, invalid_argument, thrown, find_column, space_name, new_space, get_space,
}
use cpp_jam.Rocks.Opening.{
  Surroundings, Raised, opened, unlimited, is_error, create_directory_fails, existing_families,
  all_families, open_if_new, construct,
}

abbrev pub has_db : {Db : Type 0} → Option Db → Bool
has_db none = false
has_db (some db) = true

abbrev result_has_db : {Db : Type 0} → Result Raised (Option Db × List (ℕ × ℕ)) → Bool
result_has_db (ok r) = has_db r.0
result_has_db (err e) = true

abbrev result_handles : {Db : Type 0} → Result Raised (Option Db × List (ℕ × ℕ)) → List (ℕ × ℕ)
result_handles (ok r) = r.1
result_handles (err e) = []

result_open : {Db : Type 0} (r : Status × Db × List (ℕ × ℕ)) → result_has_db (opened r) ≡ true
result_open (Status.ok, db, hs) = refl
result_open (Status.not_found, db, hs) = refl
result_open (Status.io_error, db, hs) = refl
result_open (Status.invalid_argument, db, hs) = refl
result_open (Status.corruption, db, hs) = refl
result_open (Status.not_supported, db, hs) = refl
result_open (Status.other_failure, db, hs) = refl

-- What the documentation of the library and of the containers says: the handles come in the order of the names, and the walk
-- of the set meets each of its names.
pub record IsDocumented {Db : Type 0} (s : Surroundings Db) : Type 0 where
  pub named :
      (names ttls : List ℕ) (db : Db) (handles : List (ℕ × ℕ))
      → s.open_with_ttl names ttls ≡ (Status.ok, db, handles)
      → map (λ h. h.0) handles ≡ names
  pub arranged : (names : List ℕ) (n : ℕ) → contains (s.arrange names) n ≡ contains names n

-- The names of the spaces are among those that the database is opened with.
contains-all_families :
    (known existing : List ℕ) (n : ℕ)
    → contains known n ≡ true
    → contains (all_families known existing) n ≡ true
unfolding all_families contains
contains-all_families known [] n h = h
contains-all_families known (e ∷ existing) n h = elim (Bool-cases (contains known e)) [
  | inl old ↦
      ap (λ l. contains l n) (if_true (contains known e) _ _ old)
      ∙ contains-all_families known existing n h
  | inr fresh ↦
      ap (λ l. contains l n) (if_false (contains known e) _ _ fresh)
      ∙ contains-all_families (e ∷ known) existing n (or_true (e == n) (contains known n) h)
]
  where
    or_true : (a b : Bool) → b ≡ true → (a || b) ≡ true
    or_true true b h = refl
    or_true false b h = h

-- A name that the handles have is found.
find_column-finds :
    (name : ℕ) (hs : List (ℕ × ℕ)) (n : ℕ)
    → contains (map (λ h. h.0) hs) name ≡ true
    → (i h : ℕ) × (find_column name hs n ≡ some (n + i)) × (get_elem? hs i ≡ some (name, h))
unfolding find_column contains
find_column-finds name [] n there = absurd (cc)
find_column-finds name (p ∷ hs) n there = elim (Bool-cases (p.0 == name)) [
  | inl here ↦
      let e : p.0 ≡ name = (==_iff p.0 name).0 here in
      let first : n ≡ n + 0 = omega arith in
      (0, p.1, if_true (p.0 == name) _ _ here ∙ ap some first, ap (λ x. some (x, p.1)) e)
  | inr other ↦
      let later : contains (map (λ h. h.0) hs) name ≡ true = rw other at there in
      let (i, h, found, at) = find_column-finds name hs (suc n) later in
      let next : suc n + i ≡ n + suc i = omega arith in
      (suc i, h, if_false (p.0 == name) _ _ other ∙ found ∙ ap some next, at)
]

-- A storage that no space was asked of yet.
abbrev pub fresh_storage : {Db : Type 0} → Db → List (ℕ × ℕ) → ℕ → RocksDb Db
fresh_storage db handles n = record {
  db = db;
  column_family_handles = handles;
  spaces = [];
  next_object = n;
}

get_space-new :
    {Db : Type 0} (library : Library Db) (db : Db) (handles : List (ℕ × ℕ)) (n : ℕ) (r : Option ℕ)
    → find_column 0 handles 0 ≡ r
    → get_space library 0 (fresh_storage db handles n)
      ≡ new_space library 0 (fresh_storage db handles n) r
unfolding get_space find space_name
get_space-new library db handles n r e = ap (new_space library 0 (fresh_storage db handles n)) e

opened-handles :
    {Db : Type 0} (r : Status × Db × List (ℕ × ℕ)) (db : Option Db) (handles : List (ℕ × ℕ))
    → opened r ≡ ok (db, handles)
    → (db' : Db) × (r ≡ (Status.ok, db', handles))
opened-handles (Status.ok, db', hs) db handles h =
    (db', ap (λ x. (Status.ok, db', result_handles x)) h)
opened-handles (Status.not_found, db', hs) db handles h = absurd (cc)
opened-handles (Status.io_error, db', hs) db handles h = absurd (cc)
opened-handles (Status.invalid_argument, db', hs) db handles h = absurd (cc)
opened-handles (Status.corruption, db', hs) db handles h = absurd (cc)
opened-handles (Status.not_supported, db', hs) db handles h = absurd (cc)
opened-handles (Status.other_failure, db', hs) db handles h = absurd (cc)

-- A constructor that returns, with a library that does what its documentation says: when the path was not there, the database is open, and the default space is found, with a
-- handle of the default column family. When the path was there, the database is not open, and `getSpace` of the default space throws.
pub get_space-construct :
    {Db : Type 0} (library : Library Db) (s : Surroundings Db) (db : Option Db)
    (handles : List (ℕ × ℕ)) (d : Db) (n : ℕ)
    → IsDocumented s
    → construct s ≡ ok (db, handles)
    → ((s.path_exists ≡ false)
        × (has_db db ≡ true)
        × ((i h : ℕ) × (get_elem? handles i ≡ some (0, h))
            × (get_space library 0 (fresh_storage d handles n)
                ≡ ok (
                  (n, i),
                  record (fresh_storage d handles n) {
                    spaces = assign 0 (n, i) [];
                    next_object = suc n;
                  },
                ))))
      ⊎ ((s.path_exists ≡ true)
          × (has_db db ≡ false)
          × (get_space library 0 (fresh_storage d handles n) ≡ err (thrown invalid_argument)))
unfolding construct open_if_new new_space find_column contains
get_space-construct library s db handles d n documented h =
    let (u1, limited, next1) = >>=-eq-ok (fail_if (unlimited s.soft_limit) _) _ h in
    let (u2, made, next2) = >>=-eq-ok (fail_if (is_error s.create_directories) _) _ next1 in
    let (u3, created, next3) = >>=-eq-ok (fail_if (create_directory_fails s) _) _ next2 in
    let (existing, found, last) = >>=-eq-ok (existing_families s.column_families) _ next3 in
    elim (Bool-cases s.path_exists) [
      | inl old ↦
          let same = sym (if_true s.path_exists _ _ old) ∙ last in
          inr (
            old,
            ap result_has_db (sym same),
            get_space-new library d handles n none
                (ap (λ hs. find_column 0 hs 0) (ap result_handles (sym same))),
          )
      | inr fresh ↦
          let result = sym (if_false s.path_exists _ _ fresh) ∙ last in
          let families = all_families (0 ∷ []) existing in
          let (db', answer) = opened-handles _ db handles result in
          let names = documented.named (s.arrange families) _ db' handles answer in
          let (i, hd, at, there) = find_column-finds 0 handles 0 (
            ap (λ l. contains l 0) names
            ∙ documented.arranged families 0
            ∙ contains-all_families (0 ∷ []) existing 0 refl) in
          inl (
            fresh,
            ap result_has_db (sym result) ∙ result_open _,
            (
              i,
              hd,
              there,
              get_space-new library d handles n (some i)
                  (at ∙ ap some (let z : 0 + i ≡ i = omega arith in z)),
            ),
          )
    ]
