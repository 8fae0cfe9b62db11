-- ===== src/Common/Sets.antt =====
-- `std::set` of numbers as a strictly ascending list, and membership as `contains`.
use Prim.Native.Nat.{ℕ, ◌<◌}
use mathlib.Core.Path.{◌≡◌, refl}
use mathlib.Core.Bool.{Bool, false, ◌||◌}
use mathlib.Core.Option.{Option, none, some}
use mathlib.Core.List.{List, [], ◌∷◌, ◌++◌}
use native.Mathlib.Omega.{arith}
use cpp_jam.Common.Tests.{ltb, ◌==◌, if◌then◌else◌}

-- `std::ranges::contains`.
unfoldable pub contains : List ℕ → ℕ → Bool
contains [] a = false
contains (x ∷ xs) a = x == a || contains xs a

-- `std::set::emplace`: a key that is there already is not inserted again.
unfoldable pub insert : ℕ → List ℕ → List ℕ
insert a [] = a ∷ []
insert a (x ∷ xs) = if ltb a x then a ∷ x ∷ xs else if a == x then x ∷ xs else x ∷ insert a xs

-- The elements `as`, emplaced in turn.
unfoldable pub insert_all : List ℕ → List ℕ → List ℕ
insert_all [] s = s
insert_all (a ∷ as_) s = insert_all as_ (insert a s)

-- `a` comes after the last element seen, if there is one.
abbrev pub Follows : Option ℕ → ℕ → Type 0
Follows none a = Unit {0}
Follows (some p) a = p < a

-- Strictly ascending, from the last element seen on.
abbrev pub IsAscending : Option ℕ → List ℕ → Type 0
IsAscending p [] = Unit {0}
IsAscending p (x ∷ xs) = Follows p x × IsAscending (some x) xs

pub contains-insert : (a b : ℕ) (s : List ℕ) → contains (insert a s) b ≡ (a == b || contains s b)
unfolding contains insert
contains-insert a b [] = refl
contains-insert a b (x ∷ xs) = ground (arith, contains-insert a b xs)

pub contains-insert_all :
    (as_ s : List ℕ) (b : ℕ) → contains (insert_all as_ s) b ≡ (contains as_ b || contains s b)
unfolding contains insert_all
contains-insert_all [] s b = refl
contains-insert_all (a ∷ as_) s b =
    ground (arith, contains-insert_all as_ (insert a s) b, contains-insert a b s)

pub contains-append :
    (xs ys : List ℕ) (b : ℕ) → contains (xs ++ ys) b ≡ (contains xs b || contains ys b)
unfolding contains
contains-append [] ys b = refl
contains-append (x ∷ xs) ys b = ground (arith, contains-append xs ys b)

insert-IsAscending_from :
    (a p : ℕ) (s : List ℕ) → p < a → IsAscending (some p) s → IsAscending (some p) (insert a s)
unfolding insert
insert-IsAscending_from a p [] h s = omega arith
insert-IsAscending_from a p (x ∷ xs) h s = ground (arith, insert-IsAscending_from a x xs)

pub insert-IsAscending : (a : ℕ) (s : List ℕ) → IsAscending none s → IsAscending none (insert a s)
unfolding insert
insert-IsAscending a [] h = (tt, tt)
insert-IsAscending a (x ∷ xs) h = ground (arith, insert-IsAscending_from a x xs)

pub insert_all-IsAscending :
    (as_ s : List ℕ) → IsAscending none s → IsAscending none (insert_all as_ s)
unfolding insert_all
insert_all-IsAscending [] s h = h
insert_all-IsAscending (a ∷ as_) s h =
    insert_all-IsAscending as_ (insert a s) (insert-IsAscending a s h)

pub insert_all-append :
    (as_ bs s : List ℕ) → insert_all (as_ ++ bs) s ≡ insert_all bs (insert_all as_ s)
unfolding insert_all
insert_all-append [] bs s = refl
insert_all-append (a ∷ as_) bs s = insert_all-append as_ bs (insert a s)
