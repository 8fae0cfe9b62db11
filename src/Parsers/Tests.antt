-- ===== src/Parsers/Tests.antt =====
-- Quantities with units: the units have no effect.
use cpp_jam.Common.{
  ℕ, ◌≡◌, refl, ◌^◌, ◌-◌, List, [], ◌∷◌, ◌++◌, none, some, leb, if◌then◌else◌, arith,
}
use cpp_jam.Parsers.Quantity.{
  skip, take_while, trim_end, iequals, digits_value, from_chars, scale, parse_text,
  parse_byte_quantity, parse_time_duration,
}
use cpp_jam.Parsers.Numbers.{parse-number}

program : Unit {0}
unfolding skip take_while trim_end iequals digits_value from_chars scale parse_text
program = tt

-- " 10 MB\n" is ten bytes.
abbrev ten_megabytes : List ℕ
ten_megabytes = (32 ∷ []) ++ ((b'1' ∷ b'0' ∷ []) ++ (32 ∷ b'M' ∷ b'B' ∷ 10 ∷ []))

ten_bytes : parse_byte_quantity ten_megabytes ≡ some 10
unfolding program
ten_bytes = refl

parse-number_example :
    (parse_byte_quantity ten_megabytes ≡ (
      if leb (digits_value 0 (b'1' ∷ b'0' ∷ [])) (2 ^ 64 - 1)
      then some (digits_value 0 (b'1' ∷ b'0' ∷ []))
      else none))
    × (parse_time_duration ten_megabytes ≡ (
        if leb (digits_value 0 (b'1' ∷ b'0' ∷ [])) (2 ^ 64 - 1)
        then some (digits_value 0 (b'1' ∷ b'0' ∷ []))
        else none))
parse-number_example =
    parse-number (32 ∷ []) (b'1' ∷ b'0' ∷ []) (32 ∷ b'M' ∷ b'B' ∷ 10 ∷ []) (refl, tt)
      (refl, (refl, tt)) (omega arith) refl
