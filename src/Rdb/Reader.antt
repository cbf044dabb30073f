-- ===== src/Rdb/Reader.antt =====
-- `Reader` of src/rdb.cpp. A method takes the reader and gives its result and the reader after it; a
-- reader that failed answers 0. A `std::uint8_t` is a number below 256.
use redis_plus.Prelude.{
  ℕ, zero, suc, ◌+◌, ◌-◌, ◌*◌, ◌/◌, ◌%◌, ◌^◌, Bool, true, false, [], ◌∷◌, ◌++◌, Bytes, codes, ltb,
  leb, ◌==◌, if◌then◌else◌, length, take, drop,
}
use redis_plus.Prelude.Int.{ℤ, pos, negsuc, two_64}
use redis_plus.Decimal.{to_string, int_to_string}

pub record Reader : Type 0 where
  pub bytes : Bytes
  pub position : ℕ
  pub ok : Bool
  pub error : Bytes

abbrev pub reader : Bytes → Reader
reader bytes = record { bytes = bytes; position = 0; ok = true; error = [] }

abbrev pub eof : Reader → Bool
eof r = leb (length r.bytes) r.position

-- `fail()`
abbrev pub failed : Reader → Reader
failed r = record r { ok = false; position = length r.bytes }

-- `fail()` with a message: the position stays
abbrev pub refused : Bytes → Reader → Reader
refused message r = record r { ok = false; error = message }

unfoldable pub u8 : Reader → ℕ × Reader
u8 r = elim (drop r.position r.bytes) [
  | [] ↦ (0, failed r)
  | c ∷ rest ↦ (c, record r { position = r.position + 1 })
]

-- `c << (i * 8)`
unfoldable pub shift_left : ℕ → ℕ → ℕ
shift_left zero c = c
shift_left (suc i) c = 256 * shift_left i c

-- `n` rounds of `v |= u8() << (i * 8)`, from round `i`; the bits of the two sides are apart
unfoldable pub read_le : ℕ → ℕ → ℕ → Reader → ℕ × Reader
read_le zero i v r = (v, r)
read_le (suc n) i v r = let (c, r1) = u8 r in read_le n (suc i) (v + shift_left i c) r1

abbrev pub u64_le : Reader → ℕ × Reader
u64_le r = read_le 8 0 0 r

abbrev pub u32_le : Reader → ℕ × Reader
u32_le r = read_le 4 0 0 r

-- `n` rounds of `v = (v << 8) | u8()`
unfoldable pub read_be : ℕ → ℕ → Reader → ℕ × Reader
read_be zero v r = (v, r)
read_be (suc n) v r = let (c, r1) = u8 r in read_be n (v * 256 + c) r1

-- What `length` read: a plain length, or the number of a special string encoding.
pub data Length : Type 0 where
  plain : ℕ → Length
  encoding : ℕ → Length

unfoldable pub length_after : ℕ → Reader → Length × Reader
length_after first r =
    if first / 64 == 0
    then (plain (first % 64), r)
    else if first / 64 == 1
    then (let (second, r1) = u8 r in (plain (first % 64 * 256 + second), r1))
    else if first / 64 == 3
    then (encoding (first % 64), r)
    else if first == 128
    then (let (v, r1) = read_be 4 0 r in (plain v, r1))
    else if first == 129
    then (let (v, r1) = read_be 8 0 r in (plain v, r1))
    else (plain 0, failed r)

unfoldable pub read_length : Reader → Length × Reader
read_length r = let (first, r1) = u8 r in if r1.ok then length_after first r1 else (plain 0, r1)

-- `static_cast` of an unsigned number of `half * 2` values to the signed type of that width
abbrev as_signed : ℕ → ℕ → ℤ
as_signed half n = if ltb n half then pos n else negsuc (half * 2 - 1 - n)

abbrev lzf_message : Bytes
lzf_message = codes "LZF-compressed strings are not supported; re-save with rdbcompression no"

unfoldable pub encoded_string : ℕ → Reader → Bytes × Reader
encoded_string kind r =
    if kind == 0
    then (let (c, r1) = u8 r in (int_to_string (as_signed 128 c), r1))
    else if kind == 1
    then (let (lo, r1) = u8 r in
        let (hi, r2) = u8 r1 in (int_to_string (as_signed 32768 (lo + hi * 256)), r2))
    else if kind == 2
    then (let (v, r1) = u32_le r in (int_to_string (as_signed (2 ^ 31) v), r1))
    else if kind == 3
    then ([], refused lzf_message r)
    else ([], refused (codes "unknown string encoding " ++ to_string kind) r)

-- The string of `len` bytes: the test adds on `std::uint64_t`, and so does the move of the position.
unfoldable pub plain_string : ℕ → Reader → Bytes × Reader
plain_string len r =
    if ltb (length r.bytes) ((r.position + len) % two_64)
    then ([], failed r)
    else (take len (drop r.position r.bytes), record r { position = (r.position + len) % two_64 })

unfoldable pub str_of : Length → Reader → Bytes × Reader
str_of (plain len) r = plain_string len r
str_of (encoding kind) r = encoded_string kind r

unfoldable pub str : Reader → Bytes × Reader
str r = let (len, r1) = read_length r in if r1.ok then str_of len r1 else ([], r1)
