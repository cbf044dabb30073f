-- ===== src/Rdb/Parse.antt =====
-- `rdb_parse` of src/rdb.cpp.
use redis_plus.Prelude.{
  ℕ, zero, suc, ◌+◌, ◌-◌, ◌*◌, Bool, true, false, not, ◌&&◌, Option, none, some, List, [], ◌∷◌,
  ◌++◌, Bytes, beq, codes, ltb, ◌==◌, if◌then◌else◌, length, take, drop,
}
use redis_plus.Prelude.Int.{ℤ, pos, of_u64}
use redis_plus.Decimal.{to_string}
use redis_plus.Store.{Record, no_expiry}
use redis_plus.Rdb.Crc.{crc64}
use redis_plus.Rdb.Write.{
  op_aux, op_resize_db, op_expire_ms, op_expire_sec, op_select_db, op_eof, type_string, rdb_magic,
  rdb_version,
}
use redis_plus.Rdb.Reader.{Reader, reader, eof, u8, u64_le, u32_le, read_length, str}

-- The returned bool, `*out` and `*error`.
pub record Parsed : Type 0 where
  pub success : Bool
  pub out : List Record
  pub error : Bytes

abbrev pub fail : Bytes → List Record → Parsed
fail message out = record { success = false; out = out; error = message }

abbrev or_default : Bytes → Bytes → Bytes
or_default [] default = default
or_default (c ∷ error) default = c ∷ error

-- The state of the loop after a round, or the end of the parse.
pub data Round : Type 0 where
  next : Reader → ℤ → List Record → Round
  stop : Parsed → Round

-- the test of `ok()` behind the switch
unfoldable pub checked : Reader → ℤ → List Record → Round
checked r pending out =
    if r.ok
    then next r pending out
    else stop (fail (or_default r.error (codes "truncated payload")) [])

unfoldable pub read_record : Reader → ℤ → List Record → Round
read_record r pending out =
    let (key, r1) = str r in
    let (value, r2) = str r1 in
    if r2.ok
    then checked r2 no_expiry
        (out ++ (record { key = key; value = value; expire_at = pending } ∷ []))
    else stop (fail (or_default r2.error (codes "truncated while reading a key")) [])

unfoldable pub read_opcode : ℕ → Reader → ℤ → List Record → Round
read_opcode opcode r pending out =
    if opcode == op_aux
    then checked (str (str r).1).1 pending out
    else if opcode == op_select_db
    then checked (read_length r).1 pending out
    else if opcode == op_resize_db
    then checked (read_length (read_length r).1).1 pending out
    else if opcode == op_expire_ms
    then (let (v, r1) = u64_le r in checked r1 (of_u64 v) out)
    else if opcode == op_expire_sec
    then (let (v, r1) = u32_le r in checked r1 (pos (v * 1000)) out)
    else if opcode == type_string
    then read_record r pending out
    else stop (
        fail
          (codes "unsupported opcode 0x"
            ++ (to_string opcode ++ codes " (only string values are supported)"))
          out)

unfoldable pub read_round : Reader → ℤ → List Record → Round
read_round r pending out =
    let (opcode, r1) = u8 r in
    if r1.ok
    then read_opcode opcode r1 pending out
    else stop (fail (codes "truncated while reading opcode") out)

-- `none`: out of fuel
unfoldable pub parse_loop : ℕ → Reader → ℤ → List Record → Option Parsed
parse_loop zero r pending out = none
parse_loop (suc fuel) r pending out =
    if eof r
    then some (record { success = true; out = out; error = [] })
    else elim (read_round r pending out) [
      | stop parsed ↦ some parsed
      | next r1 pending1 out1 ↦ parse_loop fuel r1 pending1 out1
    ]

-- `a > b` on `std::string`
unfoldable pub greater : Bytes → Bytes → Bool
greater [] b = false
greater (c ∷ a) [] = true
greater (c ∷ a) (d ∷ b) = if c == d then greater a b else ltb d c

-- `stored |= payload[crc_offset + i] << (i * 8)`: the checksum at the end of the payload
abbrev stored_crc : ℕ → Bytes → ℕ
stored_crc crc_offset payload = (u64_le (reader (drop crc_offset payload))).0

abbrev header : ℕ
header = 9

abbrev version : Bytes → Bytes
version payload = take 4 (drop 5 payload)

-- the records, behind the tests on the checksum
unfoldable pub parse_body : ℕ → Bytes → Option Parsed
parse_body crc_offset payload =
    let body = take (crc_offset - 1 - header) (drop header payload) in
    parse_loop (suc (length body)) (reader body) no_expiry []

-- from `crc_offset` on
unfoldable pub parse_trailer : ℕ → Bytes → Option Parsed
parse_trailer crc_offset payload =
    if not (beq (take 1 (drop (crc_offset - 1) payload)) (op_eof ∷ []))
    then some (fail (codes "truncated: EOF marker missing") [])
    else if not (stored_crc crc_offset payload == 0)
        && not (crc64 0 (take crc_offset payload) == stored_crc crc_offset payload)
    then some (fail (codes "checksum mismatch: file corrupt") [])
    else parse_body crc_offset payload

unfoldable pub rdb_parse : Bytes → Option Parsed
rdb_parse payload =
    if ltb (length payload) header
    then some (fail (codes "file too short") [])
    else if not (beq (take 5 payload) rdb_magic)
    then some (fail (codes "bad magic: not an RDB file") [])
    else if greater (version payload) rdb_version
    then some (
        fail
          (codes "RDB version "
            ++ (version payload ++ (codes " is newer than supported " ++ rdb_version)))
          [])
    else if ltb (length payload) (header + 9)
    then some (fail (codes "truncated: no EOF marker") [])
    else parse_trailer (length payload - 8) payload

-- `file` is the file at the path, if there is one; a file that is not there holds no records.
unfoldable pub rdb_load_file : Option Bytes → Option Parsed
rdb_load_file none = some (record { success = true; out = []; error = [] })
rdb_load_file (some []) = some (record { success = true; out = []; error = [] })
rdb_load_file (some (c ∷ payload)) = rdb_parse (c ∷ payload)
