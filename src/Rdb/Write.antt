-- ===== src/Rdb/Write.antt =====
-- The writer of src/rdb.cpp: `put_u64_le`, `put_length`, `put_string`, `rdb_serialize`. A function
-- gives the bytes that it appends.
use redis_plus.Prelude.{
  ℕ, zero, suc, ◌+◌, ◌-◌, ◌/◌, ◌%◌, ◌^◌, List, [], ◌∷◌, ◌++◌, Bytes, codes, ltb, leb, if◌then◌else◌,
  length,
}
use redis_plus.Prelude.Int.{ℤ, eq_ℤ, to_u64}
use redis_plus.Store.{Record, no_expiry}
use redis_plus.Rdb.Crc.{crc64}

abbrev pub op_aux : ℕ
op_aux = 250

abbrev pub op_resize_db : ℕ
op_resize_db = 251

abbrev pub op_expire_ms : ℕ
op_expire_ms = 252

abbrev pub op_expire_sec : ℕ
op_expire_sec = 253

abbrev pub op_select_db : ℕ
op_select_db = 254

abbrev pub op_eof : ℕ
op_eof = 255

abbrev pub type_string : ℕ
type_string = 0

abbrev pub rdb_magic : Bytes
rdb_magic = codes "REDIS"

abbrev pub rdb_version : Bytes
rdb_version = codes "0011"

-- `v >> (i * 8)`
unfoldable pub shift_right : ℕ → ℕ → ℕ
shift_right zero v = v
shift_right (suc i) v = shift_right i v / 256

-- `n` bytes of `v`, from byte `i` up: `put_u64_le` is the case of 8 from 0
unfoldable pub put_le : ℕ → ℕ → ℕ → Bytes
put_le zero i v = []
put_le (suc n) i v = shift_right i v % 256 ∷ put_le n (suc i) v

-- bytes `n - 1` to 0 of `v`: the two big-endian loops of `put_length`
unfoldable pub put_be : ℕ → ℕ → Bytes
put_be zero v = []
put_be (suc n) v = shift_right n v % 256 ∷ put_be n v

unfoldable pub put_length : ℕ → Bytes
put_length len =
    if ltb len (2 ^ 6)
    then len ∷ []
    else if ltb len (2 ^ 14)
    then (64 + len / 256) ∷ len % 256 ∷ []
    else if leb len (2 ^ 32 - 1)
    then 128 ∷ put_be 4 len
    else 129 ∷ put_be 8 len

unfoldable pub put_string : Bytes → Bytes
put_string s = put_length (length s) ++ s

unfoldable pub put_expiry : ℤ → Bytes
put_expiry d = if eq_ℤ d no_expiry then [] else op_expire_ms ∷ put_le 8 0 (to_u64 d)

unfoldable pub put_record : Record → Bytes
put_record r = put_expiry r.expire_at ++ (type_string ∷ (put_string r.key ++ put_string r.value))

unfoldable pub put_records : List Record → Bytes
put_records [] = []
put_records (r ∷ records) = put_record r ++ put_records records

unfoldable pub with_expiry : List Record → ℕ
with_expiry [] = 0
with_expiry (r ∷ records) =
    if eq_ℤ r.expire_at no_expiry then with_expiry records else suc (with_expiry records)

-- the part of a payload between the header and the records
unfoldable pub preamble : List Record → Bytes
preamble records =
    (op_aux ∷ (put_string (codes "redis-ver") ++ put_string (codes "7.0.0-rp")))
    ++ ((op_select_db ∷ put_length 0)
        ++ (op_resize_db ∷ (put_length (length records) ++ put_length (with_expiry records))))

-- everything before the checksum
unfoldable pub checked_part : List Record → Bytes
checked_part records =
    (rdb_magic ++ rdb_version) ++ ((preamble records ++ put_records records) ++ (op_eof ∷ []))

unfoldable pub rdb_serialize : List Record → Bytes
rdb_serialize records = checked_part records ++ put_le 8 0 (crc64 0 (checked_part records))
