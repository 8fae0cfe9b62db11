-- ===== src/Parsers/Scan.antt =====
-- What the scans of parsers.hpp find in a text of known parts.
use cpp_jam.Common.{
  ℕ, ◌≡◌, refl, Bool, true, false, ◌&&◌, List, [], ◌∷◌, ◌++◌, ◌==◌, length, All, arith, Bool-cases,
  map, inl, inr, ==_iff, ◌↔◌,
}
use cpp_jam.Parsers.Quantity.{is_blank, is_digit, to_lower, skip, take_while, trim_end, iequals}

-- The text does not start with a character of the kind.
abbrev pub Stops : (ℕ → Bool) → List ℕ → Type 0
Stops is_kind [] = Unit {0}
Stops is_kind (c ∷ cs) = is_kind c ≡ false

abbrev pub AreOf : (ℕ → Bool) → List ℕ → Type 0
AreOf is_kind cs = All (λ c. is_kind c ≡ true) cs

module _ (is_kind : ℕ → Bool) where
  pub skip-append :
      (cs rest : List ℕ) → AreOf is_kind cs → Stops is_kind rest → skip is_kind (cs ++ rest) ≡ rest
  unfolding skip
  skip-append [] [] a s = refl
  skip-append [] (r ∷ rest) a s = rw s refl
  skip-append (c ∷ cs) rest a s = rw a.0 (skip-append cs rest a.1 s)

  pub take_while-append :
      (cs rest : List ℕ)
      → AreOf is_kind cs
      → Stops is_kind rest
      → take_while is_kind (cs ++ rest) ≡ cs
  unfolding take_while
  take_while-append [] [] a s = refl
  take_while-append [] (r ∷ rest) a s = rw s refl
  take_while-append (c ∷ cs) rest a s = rw (a.0, take_while-append cs rest a.1 s) refl

-- A digit is not blank.
digit_not_blank : (c : ℕ) → is_digit c ≡ true → is_blank c ≡ false
digit_not_blank c h = ground arith

pub trim_end-digits :
    (digits rest : List ℕ)
    → AreOf is_digit digits
    → trim_end (digits ++ rest) ≡ digits ++ trim_end rest
unfolding trim_end
trim_end-digits [] rest a = refl
trim_end-digits (c ∷ digits) rest a =
    rw (digit_not_blank c a.0, trim_end-digits digits rest a.1) refl

pub trim_end-Stops :
    (is_kind : ℕ → Bool) (rest : List ℕ) → Stops is_kind rest → Stops is_kind (trim_end rest)
unfolding trim_end
trim_end-Stops is_kind [] s = s
trim_end-Stops is_kind (c ∷ rest) s =
    elim (Bool-cases (is_blank c && length (trim_end rest) == 0)) [
      | inl cut ↦ rw cut tt
      | inr kept ↦ rw kept s
    ]

same_cons_iff :
    (a b : ℕ) (l r : List ℕ) (same : Bool)
    → ((same ≡ true) ↔ (l ≡ r))
    → ((a == b && same) ≡ true) ↔ (Path (List ℕ) (a ∷ l) (b ∷ r))
same_cons_iff a b l r true h = (
  λ e. elim (Bool-cases (a == b)) [
    | inl first ↦ let ab = (==_iff a b).0 first in let lr = h.0 refl in cc
    | inr other ↦ absurd (cc)
  ],
  λ e. let ab : a ≡ b = cc in let first = (==_iff a b).1 ab in rw first refl,
)
same_cons_iff a b l r false h = (
  λ e. elim (Bool-cases (a == b)) [ inl first ↦ absurd (cc) | inr other ↦ absurd (cc) ],
  λ e. let lr : l ≡ r = cc in absurd (let bad = h.1 lr in cc),
)

-- The comparison holds exactly for texts that are the same in lower case.
pub iequals_iff : (l r : List ℕ) → (iequals l r ≡ true) ↔ (map to_lower l ≡ map to_lower r)
unfolding iequals
iequals_iff [] [] = (λ h. refl, λ h. refl)
iequals_iff [] (c ∷ r) = (λ h. cc, λ h. cc)
iequals_iff (c ∷ l) [] = (λ h. cc, λ h. cc)
iequals_iff (c ∷ l) (d ∷ r) =
    same_cons_iff (to_lower c) (to_lower d) (map to_lower l) (map to_lower r) (iequals l r)
      (iequals_iff l r)
