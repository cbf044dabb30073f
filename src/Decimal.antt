-- ===== src/Decimal.antt =====
-- Decimal numbers: `std::to_string`, and `parse_int` of src/resp.cpp, whose digit loop
-- `to_int64` of src/commands.cpp repeats.
pub mod RoundTrip
use redis_plus.Prelude.{
  ℕ, zero, suc, ◌+◌, ◌-◌, ◌*◌, ◌/◌, ◌%◌, Bool, true, false, not, ◌&&◌, ◌||◌, Option, none, some, [],
  ◌∷◌, Bytes, ltb, leb, ◌==◌, if◌then◌else◌, length,
}
use redis_plus.Prelude.Int.{ℤ, pos, negsuc, neg, max_i64}

-- `std::isdigit`
abbrev pub is_digit : ℕ → Bool
is_digit c = leb b'0' c && leb c b'9'

-- The digits of `n` in front of `out`. A round of fuel is a digit: `to_string` gives more than
-- enough.
unfoldable pub print_digits : ℕ → ℕ → Bytes → Bytes
print_digits zero n out = out
print_digits (suc fuel) n out =
    let more = print_digits fuel (n / 10) ((b'0' + n % 10) ∷ out) in
    if ltb n 10 then (b'0' + n) ∷ out else more

-- `std::to_string` of an unsigned number
unfoldable pub to_string : ℕ → Bytes
unfolding print_digits
to_string n = print_digits (suc n) n []

-- `std::to_string` of a signed number
unfoldable pub int_to_string : ℤ → Bytes
unfolding to_string
int_to_string (pos n) = to_string n
int_to_string (negsuc n) = b'-' ∷ to_string (suc n)

-- The loop over the digits; `value` cannot pass the maximum, so it does not wrap around.
unfoldable pub scan_digits : ℕ → Bytes → Option ℕ
scan_digits value [] = some value
scan_digits value (c ∷ text) =
    let digit = c - b'0' in
    let rest = scan_digits (value * 10 + digit) text in
    if not (is_digit c) then none else if ltb ((max_i64 - digit) / 10) value then none else rest

abbrev pub with_sign : Bool → Option ℕ → Option ℤ
with_sign negative none = none
with_sign true (some n) = some (neg (pos n))
with_sign false (some n) = some (pos n)

-- behind a sign at least one digit is wanted
signed_digits : Bool → Bytes → Option ℤ
signed_digits negative [] = none
signed_digits negative (c ∷ text) = with_sign negative (scan_digits 0 (c ∷ text))

unfoldable pub parse_int : Bytes → Option ℤ
unfolding scan_digits signed_digits
parse_int [] = none
parse_int (c ∷ text) =
    if c == b'-' || c == b'+'
    then signed_digits (c == b'-') text
    else with_sign false (scan_digits 0 (c ∷ text))

-- `to_int64` of src/commands.cpp: the same, but no text of more than 20 bytes.
unfoldable pub to_int64 : Bytes → Option ℤ
unfolding parse_int
to_int64 s = if ltb 20 (length s) then none else parse_int s
