-- ===== src/Rdb/RoundTrip.antt =====
-- `rdb_parse` on what `rdb_serialize` writes.
pub mod Rounds
pub mod Records
pub mod Payload
use redis_plus.Prelude.{
  ℕ, zero, suc, ◌+◌, ◌-◌, ◌≤◌, ◌<◌, ◌≡◌, refl, sym, ap, ◌∙◌, Bool, true, false, Option, some, List,
  [], ◌∷◌, ◌++◌, append_assoc, append-nil, Bytes, codes, if◌then◌else◌, length, drop, take,
  length-append, length-drop, arith, Bool-cases, inl, inr, ltb, drop-append_left, take-append_left,
  take-append_eq, drop-append_eq, All,
}
use redis_plus.Prelude.Int.{ℤ, two_64, InRange, eq_ℤ, eq_ℤ_iff, to_u64}
use redis_plus.Store.{Record, no_expiry}
use redis_plus.Rdb.Crc.{crc64, crc64_below}
use redis_plus.Rdb.Write.{
  put_le, put_length, put_string, put_expiry, put_record, put_records, op_aux, op_select_db,
  op_resize_db, op_expire_ms, op_eof, type_string, preamble, with_expiry, checked_part,
  rdb_serialize, rdb_magic, rdb_version,
}
use redis_plus.Rdb.Reader.{reader, read_le}
use redis_plus.Rdb.Parse.{Parsed, greater, parse_loop, parse_body, parse_trailer, rdb_parse}
use redis_plus.Rdb.Fields.{drop_past, u64_le-Reads}
use redis_plus.Rdb.RoundTrip.Rounds.{
  Ends, step, stop_here, Goes-aux, Goes-select_db, Goes-resize_db, Goes-expire_ms, Goes-string,
}
use redis_plus.Rdb.RoundTrip.Records.{parsed, Ends-preamble}
use redis_plus.Rdb.RoundTrip.Payload.{
  length-put_le, length-marked, trailer_passed, marked, checksum,
}

header_passed :
    (n : ℕ) (payload : Bytes)
    → length payload ≡ 18 + n
    → take 5 payload ≡ rdb_magic
    → take 4 (drop 5 payload) ≡ rdb_version
    → rdb_parse payload ≡ parse_trailer (10 + n) payload
unfolding rdb_parse greater
header_passed n payload size magic version =
    let offset : 18 + n - 8 ≡ 10 + n = omega arith in
    let long : ltb (18 + n) 18 ≡ false = ground arith in
    let longer : ltb (18 + n) 9 ≡ false = ground arith in
    rw (size, magic, version, offset, long, longer) refl

length-put_records : (records : List Record) → length records ≤ length (put_records records)
unfolding put_records put_record
length-put_records [] = omega arith
length-put_records (r ∷ records) =
    let strings = put_string r.key ++ put_string r.value in
    omega (
      arith,
      length-put_records records,
      length-append (put_record r) (put_records records),
      length-append (put_expiry r.expire_at) (type_string ∷ strings),
    )

pub rdb_parse-rdb_serialize :
    (records : List Record)
    → All (λ r. InRange r.expire_at) records
    → length (rdb_serialize records) < two_64
    → rdb_parse (rdb_serialize records) ≡ some (parsed records)
unfolding rdb_serialize checked_part
rdb_parse-rdb_serialize records h b =
    let head = codes "REDIS0011" in
    let body = preamble records ++ put_records records in
    let crc = crc64 0 (checked_part records) in
    let passed = trailer_passed head body crc refl refl in
    let whole : length (marked head body crc refl ++ checksum head body crc refl)
        ≡ 18 + length body =
      omega (
        arith,
        length-append (marked head body crc refl) (checksum head body crc refl),
        length-marked head body crc refl,
        length-put_le 8 0 crc,
      ) in
    let count : length records < two_64 =
      omega (
        arith,
        length-put_records records,
        length-append (preamble records) (put_records records),
      ) in
    let ends : parse_loop (suc (length body)) (reader body) no_expiry [] ≡ some (parsed records) =
      Ends-preamble body (omega arith) records h count refl (omega arith) (suc (length body))
        (omega arith) in
    header_passed (length body) (rdb_serialize records) whole refl refl ∙ passed ∙ ends
