-- ===== src/Parsers/Quantity.antt =====
-- The functions of parsers.hpp. A string is the list of its characters' codes.
use cpp_jam.Common.{
  ℕ, ◌+◌, ◌-◌, ◌*◌, ◌/◌, ◌^◌, Bool, true, false, ◌&&◌, ◌||◌, List, [], ◌∷◌, Option, none, some, ltb,
  leb, ◌==◌, if◌then◌else◌, length,
}

-- One of the characters of " \t\n\r".
abbrev pub is_blank : ℕ → Bool
is_blank c = c == 32 || (c == 9 || (c == 10 || c == 13))

-- `std::isdigit` and `std::isspace` of the C locale.
abbrev pub is_digit : ℕ → Bool
is_digit c = leb 48 c && leb c 57

abbrev pub is_space : ℕ → Bool
is_space c = c == 32 || (leb 9 c && leb c 13)

-- `std::tolower` of the C locale.
abbrev pub to_lower : ℕ → ℕ
to_lower c = if leb 65 c && leb c 90 then c + 32 else c

-- The characters from the first one on that is not of the kind, and those before it.
unfoldable pub skip : (ℕ → Bool) → List ℕ → List ℕ
skip is_kind [] = []
skip is_kind (c ∷ cs) = if is_kind c then skip is_kind cs else c ∷ cs

unfoldable pub take_while : (ℕ → Bool) → List ℕ → List ℕ
take_while is_kind [] = []
take_while is_kind (c ∷ cs) = let rest = take_while is_kind cs in if is_kind c then c ∷ rest else []

-- The characters up to the last one that is not blank.
unfoldable pub trim_end : List ℕ → List ℕ
trim_end [] = []
trim_end (c ∷ cs) =
    let rest = trim_end cs in if is_blank c && length rest == 0 then [] else c ∷ rest

abbrev pub trim : List ℕ → List ℕ
trim input = trim_end (skip is_blank input)

unfoldable pub iequals : List ℕ → List ℕ → Bool
iequals [] [] = true
iequals [] (r ∷ rs) = false
iequals (l ∷ ls) [] = false
iequals (l ∷ ls) (r ∷ rs) = to_lower l == to_lower r && iequals ls rs

-- The number that decimal digits stand for, behind those read before.
unfoldable pub digits_value : ℕ → List ℕ → ℕ
digits_value n [] = n
digits_value n (c ∷ cs) = digits_value (n * 10 + (c - 48)) cs

abbrev pub u64_max : ℕ
u64_max = 2 ^ 64 - 1

-- `std::from_chars` into 64 bits: a larger number is an error.
unfoldable pub from_chars : List ℕ → Option ℕ
from_chars cs = let n = digits_value 0 cs in if leb n u64_max then some n else none

pub record SuffixDef : Type 0 where
  pub suffix : List ℕ
  pub multiplier : ℕ

-- The loop over the table. Its binding `suffix` hides the suffix of the input, so an entry is
-- compared with itself.
unfoldable pub scale : ℕ → List ℕ → List SuffixDef → Option ℕ
scale number suffix [] = none
scale number suffix (entry ∷ entries) =
    let rest = scale number suffix entries in
    if iequals entry.suffix entry.suffix
    then (if ltb (u64_max / entry.multiplier) number
        then none
        else some (number * entry.multiplier))
    else rest

abbrev pub suffix_def : List ℕ → ℕ → SuffixDef
suffix_def suffix multiplier = record { suffix = suffix; multiplier = multiplier }

-- `units` of `parseByteQuantity`.
abbrev pub units : List SuffixDef
units =
    suffix_def (b'b' ∷ []) 1
    ∷ suffix_def (b'k' ∷ []) (2 ^ 10)
    ∷ suffix_def (b'k' ∷ b'i' ∷ b'b' ∷ []) (2 ^ 10)
    ∷ suffix_def (b'k' ∷ b'b' ∷ []) 1000
    ∷ suffix_def (b'm' ∷ []) (2 ^ 20)
    ∷ suffix_def (b'm' ∷ b'i' ∷ b'b' ∷ []) (2 ^ 20)
    ∷ suffix_def (b'm' ∷ b'b' ∷ []) (1000 * 1000)
    ∷ suffix_def (b'g' ∷ []) (2 ^ 30)
    ∷ suffix_def (b'g' ∷ b'i' ∷ b'b' ∷ []) (2 ^ 30)
    ∷ suffix_def (b'g' ∷ b'b' ∷ []) (1000 * 1000 * 1000)
    ∷ suffix_def (b't' ∷ []) (2 ^ 40)
    ∷ suffix_def (b't' ∷ b'i' ∷ b'b' ∷ []) (2 ^ 40)
    ∷ suffix_def (b't' ∷ b'b' ∷ []) (1000 * 1000 * 1000 * 1000)
    ∷ []

-- `suffixes` of `parseTimeDuration`.
abbrev pub suffixes : List SuffixDef
suffixes =
    suffix_def (b's' ∷ []) 1
    ∷ suffix_def (b's' ∷ b'e' ∷ b'c' ∷ []) 1
    ∷ suffix_def (b's' ∷ b'e' ∷ b'c' ∷ b's' ∷ []) 1
    ∷ suffix_def (b's' ∷ b'e' ∷ b'c' ∷ b'o' ∷ b'n' ∷ b'd' ∷ []) 1
    ∷ suffix_def (b's' ∷ b'e' ∷ b'c' ∷ b'o' ∷ b'n' ∷ b'd' ∷ b's' ∷ []) 1
    ∷ suffix_def (b'm' ∷ []) 60
    ∷ suffix_def (b'm' ∷ b'i' ∷ b'n' ∷ []) 60
    ∷ suffix_def (b'm' ∷ b'i' ∷ b'n' ∷ b's' ∷ []) 60
    ∷ suffix_def (b'm' ∷ b'i' ∷ b'n' ∷ b'u' ∷ b't' ∷ b'e' ∷ []) 60
    ∷ suffix_def (b'm' ∷ b'i' ∷ b'n' ∷ b'u' ∷ b't' ∷ b'e' ∷ b's' ∷ []) 60
    ∷ suffix_def (b'h' ∷ []) 3600
    ∷ suffix_def (b'h' ∷ b'r' ∷ []) 3600
    ∷ suffix_def (b'h' ∷ b'r' ∷ b's' ∷ []) 3600
    ∷ suffix_def (b'h' ∷ b'o' ∷ b'u' ∷ b'r' ∷ []) 3600
    ∷ suffix_def (b'h' ∷ b'o' ∷ b'u' ∷ b'r' ∷ b's' ∷ []) 3600
    ∷ suffix_def (b'd' ∷ []) 86400
    ∷ suffix_def (b'd' ∷ b'a' ∷ b'y' ∷ []) 86400
    ∷ suffix_def (b'd' ∷ b'a' ∷ b'y' ∷ b's' ∷ []) 86400
    ∷ suffix_def (b'w' ∷ []) 604800
    ∷ suffix_def (b'w' ∷ b'e' ∷ b'e' ∷ b'k' ∷ []) 604800
    ∷ suffix_def (b'w' ∷ b'e' ∷ b'e' ∷ b'k' ∷ b's' ∷ []) 604800
    ∷ []

-- What both parsers do with the trimmed text, each with its table.
unfoldable pub parse_text : List SuffixDef → List ℕ → Option ℕ
parse_text table text =
    let number_part = take_while is_digit text in
    let suffix = skip is_space (skip is_digit text) in
    if length text == 0 || length number_part == 0 then none else elim (from_chars number_part) [
      | none ↦ none
      | some number ↦ if length suffix == 0 then some number else scale number suffix table
    ]

abbrev pub parse_quantity : List SuffixDef → List ℕ → Option ℕ
parse_quantity table input = parse_text table (trim input)

abbrev pub parse_byte_quantity : List ℕ → Option ℕ
parse_byte_quantity = parse_quantity units

abbrev pub parse_time_duration : List ℕ → Option ℕ
parse_time_duration = parse_quantity suffixes
