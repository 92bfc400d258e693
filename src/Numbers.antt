-- ===== src/Numbers.antt =====
-- `str::parse` of an unsigned integer type of `limit` values, as the standard library documents it:
-- an optional `+`, then one or more decimal digits; a value out of range is an error.
use obsctl_rs.Prelude.{
  ℕ, ◌+◌, ◌*◌, ◌-◌, ◌^◌, Option, none, some, [], ◌∷◌, ltb, all, if◌then◌else◌, ◌==◌, nat_eq,
}
use obsctl_rs.Text.{Text, is_ascii_digit, is_empty}

abbrev pub u64_limit : ℕ
u64_limit = 2 ^ 64

unfoldable pub digits_value : ℕ → Text → ℕ
digits_value acc [] = acc
digits_value acc (c ∷ cs) = digits_value (acc * 10 + (c - b'0')) cs

unfoldable pub parse_digits : ℕ → Text → Option ℕ
parse_digits limit s =
    if is_empty s
    then none
    else if all is_ascii_digit s
    then (let value = digits_value 0 s in if ltb value limit then some value else none)
    else none

unfoldable pub parse_unsigned : ℕ → Text → Option ℕ
parse_unsigned limit [] = none
parse_unsigned limit (c ∷ cs) =
    if c == b'+' then parse_digits limit cs else parse_digits limit (c ∷ cs)
