-- ===== src/Rdb/Crc.antt =====
-- CRC64 (Jones, reflected) of src/rdb.cpp. A `std::uint64_t` is a number below 2 ^ 64, and `>>` and
-- `<<` divide and multiply.
use redis_plus.Prelude.{
  ℕ, zero, suc, ◌+◌, ◌*◌, ◌/◌, ◌%◌, ◌^◌, ◌<◌, [], ◌∷◌, Bytes, ◌==◌, if◌then◌else◌, arith,
}
use redis_plus.Prelude.Int.{two_64}

-- `a ^ b` on the lowest `width` bits
unfoldable xor : ℕ → ℕ → ℕ → ℕ
xor zero a b = 0
xor (suc width) a b = (a % 2 + b % 2) % 2 + 2 * xor width (a / 2) (b / 2)

abbrev xor_64 : ℕ → ℕ → ℕ
xor_64 a b = xor 64 a b

-- 0xad93d23594c935a9
abbrev poly : ℕ
poly = 12507687180929250729

-- bit 0 of the value goes to the highest of the `bits`, the others below it
unfoldable reflect : ℕ → ℕ → ℕ
reflect zero value = 0
reflect (suc bits) value = value % 2 * 2 ^ bits + reflect bits (value / 2)

unfoldable table_round : ℕ → ℕ
unfolding xor
table_round crc = if crc / 2 ^ 63 % 2 == 1 then xor_64 (crc * 2 % two_64) poly else crc * 2 % two_64

unfoldable table_rounds : ℕ → ℕ → ℕ
unfolding table_round
table_rounds zero crc = crc
table_rounds (suc k) crc = table_rounds k (table_round crc)

-- `crc_table()[n]`
unfoldable crc_table : ℕ → ℕ
unfolding reflect table_rounds
crc_table n = reflect 64 (table_rounds 8 (reflect 8 n * 2 ^ 56 % two_64))

unfoldable pub crc64 : ℕ → Bytes → ℕ
unfolding xor crc_table
crc64 crc [] = crc
crc64 crc (byte ∷ bytes) = crc64 (xor_64 (crc_table (xor_64 crc byte % 256)) (crc / 256)) bytes

below_two_to : (width a b : ℕ) → xor width a b < 2 ^ width
unfolding xor
below_two_to zero a b = omega arith
below_two_to (suc width) a b = omega (arith, below_two_to width (a / 2) (b / 2))

-- A checksum fits in 64 bits.
pub crc64_below : (crc : ℕ) (bytes : Bytes) → crc < two_64 → crc64 crc bytes < two_64
unfolding crc64
crc64_below crc [] h = h
crc64_below crc (byte ∷ bytes) h =
    crc64_below (xor_64 (crc_table (xor_64 crc byte % 256)) (crc / 256)) bytes
      (below_two_to 64 (crc_table (xor_64 crc byte % 256)) (crc / 256))
