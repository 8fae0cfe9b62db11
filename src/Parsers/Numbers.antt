-- ===== src/Parsers/Numbers.antt =====
-- What the parsers of parsers.hpp answer.
use mathlib.Core.Logic.{◌⊎◌}
use cpp_jam.Common.{
  ℕ, suc, ◌*◌, ◌-◌, ◌^◌, ◌≤◌, ◌<◌, ◌≡◌, refl, ap, ◌∙◌, true, false, List, [], ◌∷◌, ◌++◌, none, some,
  ltb, leb, ◌==◌, if◌then◌else◌, length, arith, Bool-cases, inl, inr, leb→le,
}
use cpp_jam.Parsers.Quantity.{
  is_blank, is_digit, is_space, skip, take_while, trim_end, trim, iequals, digits_value, from_chars,
  u64_max, SuffixDef, scale, parse_text, parse_byte_quantity, parse_time_duration, units, suffixes,
  suffix_def,
}
use cpp_jam.Parsers.Scan.{
  Stops, AreOf, skip-append, take_while-append, trim_end-digits, trim_end-Stops,
}

-- A digit is not blank, so a text that starts with one stops the first scan.
digits-Stops :
    (digits rest : List ℕ)
    → AreOf is_digit digits
    → 0 < length digits
    → Stops is_blank (digits ++ rest)
digits-Stops [] rest a h = absurd (omega arith)
digits-Stops (c ∷ digits) rest a h = let digit = a.0 in ground arith

-- What the parsers see of the text.
trim-digits :
    (blanks digits rest : List ℕ)
    → AreOf is_blank blanks
    → AreOf is_digit digits
    → 0 < length digits
    → trim (blanks ++ (digits ++ rest)) ≡ digits ++ trim_end rest
trim-digits blanks digits rest b d h =
    ap trim_end (skip-append is_blank blanks (digits ++ rest) b (digits-Stops digits rest d h))
    ∙ trim_end-digits digits rest d

ltb-le : (a b : ℕ) → b ≤ a → ltb a b ≡ false
ltb-le a b h = ground arith

-- The first entry of a table always matches, and it leaves the number as it is.
scale-first :
    (number : ℕ) (suffix s : List ℕ) (ms : List SuffixDef)
    → iequals s s ≡ true
    → number ≤ u64_max
    → scale number suffix (suffix_def s 1 ∷ ms) ≡ some number
unfolding scale
scale-first number suffix s ms same h =
    let fits = ltb-le u64_max number h in
    let once : number * 1 ≡ number = omega arith in rw (same, fits, once) refl

-- The number or none, whatever the suffix is.
from_chars-cases :
    (cs : List ℕ) → (from_chars cs ≡ none) ⊎ ((n : ℕ) × (n ≤ u64_max) × (from_chars cs ≡ some n))
unfolding from_chars
from_chars-cases cs = elim (Bool-cases (leb (digits_value 0 cs) u64_max)) [
  | inl fits ↦ inr (digits_value 0 cs, leb→le (digits_value 0 cs) u64_max fits, rw fits refl)
  | inr large ↦ inl (rw large refl)
]

suc_not_zero : (n : ℕ) → (suc n == 0) ≡ false
suc_not_zero n = ground arith

parse_text-digits :
    (s : List ℕ) (ms : List SuffixDef) (digits rest : List ℕ)
    → iequals s s ≡ true
    → AreOf is_digit digits
    → 0 < length digits
    → Stops is_digit rest
    → parse_text (suffix_def s 1 ∷ ms) (digits ++ rest) ≡ from_chars digits
unfolding parse_text
parse_text-digits s ms [] rest same d h stop = absurd (omega arith)
parse_text-digits s ms (c ∷ cs) rest same d h stop =
    let number = take_while-append is_digit (c ∷ cs) rest d stop in
    let some_text = suc_not_zero (length (cs ++ rest)) in
    let some_digits = suc_not_zero (length cs) in
    let suffix = skip is_space (skip is_digit (c ∷ cs ++ rest)) in
    elim (from_chars-cases (c ∷ cs)) [
      | inl bad ↦ rw (number, some_text, some_digits, bad) refl
      | inr (n, small, good) ↦ elim (Bool-cases (length suffix == 0)) [
        | inl bare ↦ rw (number, some_text, some_digits, good, bare) refl
        | inr more ↦
            rw (number, some_text, some_digits, good, more, scale-first n suffix s ms same small)
              refl
      ]
    ]

-- A text that starts with a number, behind blanks, is read as that number by both parsers, if it fits into
-- 64 bits, and refused otherwise. What follows the number has no effect: the multiplier of the
-- unit is never applied.
pub parse-number :
    (blanks digits rest : List ℕ)
    → AreOf is_blank blanks
    → AreOf is_digit digits
    → 0 < length digits
    → Stops is_digit rest
    → (parse_byte_quantity (blanks ++ (digits ++ rest))
        ≡ (if leb (digits_value 0 digits) (2 ^ 64 - 1) then some (digits_value 0 digits) else none))
      × (parse_time_duration (blanks ++ (digits ++ rest)) ≡ (
          if leb (digits_value 0 digits) (2 ^ 64 - 1) then some (digits_value 0 digits) else none))
unfolding from_chars iequals
parse-number blanks digits rest b d h stop =
    let text = trim-digits blanks digits rest b d h in
    let stop' = trim_end-Stops is_digit rest stop in
    (
      ap (parse_text units) text
          ∙ parse_text-digits (b'b' ∷ []) _ digits (trim_end rest) refl d h stop',
      ap (parse_text suffixes) text
          ∙ parse_text-digits (b's' ∷ []) _ digits (trim_end rest) refl d h stop',
    )

no_digits : (text : List ℕ) → Stops is_digit text → take_while is_digit text ≡ []
unfolding take_while
no_digits [] stop = refl
no_digits (c ∷ text) stop = rw stop refl

parse_text-none :
    (table : List SuffixDef) (text : List ℕ) → Stops is_digit text → parse_text table text ≡ none
unfolding parse_text
parse_text-none table text stop = elim (Bool-cases (length text == 0)) [
  | inl empty ↦ rw empty refl
  | inr full ↦ rw (full, no_digits text stop) refl
]

-- A text that does not start with a digit behind its blanks is refused by both parsers.
pub parse-none :
    (blanks rest : List ℕ)
    → AreOf is_blank blanks
    → Stops is_blank rest
    → Stops is_digit rest
    → (parse_byte_quantity (blanks ++ rest) ≡ none) × (parse_time_duration (blanks ++ rest) ≡ none)
parse-none blanks rest b stop stop' =
    let text = ap trim_end (skip-append is_blank blanks rest b stop) in
    let start = trim_end-Stops is_digit rest stop' in
    (
      ap (parse_text units) text ∙ parse_text-none units (trim_end rest) start,
      ap (parse_text suffixes) text ∙ parse_text-none suffixes (trim_end rest) start,
    )
