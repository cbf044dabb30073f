-- ===== src/Rdb/RoundTrip/Payload.antt =====
-- The end mark and the checksum of a payload, as `rdb_parse` finds them.
use redis_plus.Prelude.{
  ℕ, zero, suc, ◌+◌, ◌-◌, ◌<◌, ◌≡◌, refl, sym, ap, ◌∙◌, [], ◌∷◌, ◌++◌, append_assoc, append-nil,
  Bytes, length, drop, take, length-append, arith, drop-append_left, take-append_left,
  take-append_eq, drop-append_eq,
}
use redis_plus.Prelude.Int.{two_64}
use redis_plus.Store.{no_expiry}
use redis_plus.Rdb.Crc.{crc64, crc64_below}
use redis_plus.Rdb.Write.{put_le, op_eof}
use redis_plus.Rdb.Reader.{reader, read_le}
use redis_plus.Rdb.Parse.{parse_loop, parse_body, parse_trailer}
use redis_plus.Rdb.Fields.{u64_le-Reads}

pub length-put_le : (n i v : ℕ) → length (put_le n i v) ≡ n
unfolding put_le
length-put_le zero i v = refl
length-put_le (suc n) i v = omega (arith, length-put_le n (suc i) v)

-- The four parts of a payload: the magic and the version, the body, the mark at its end, the checksum.
module _ (head body : Bytes) (crc : ℕ) (nine : length head ≡ 9) where
  abbrev pub checksum : Bytes
  checksum = put_le 8 0 crc

  abbrev pub marked : Bytes
  marked = head ++ (body ++ (op_eof ∷ []))

  pub length-marked : length marked ≡ 10 + length body
  length-marked =
      omega
        (arith, nine, length-append head (body ++ (op_eof ∷ [])), length-append body (op_eof ∷ []))

  body_found :
      parse_body (10 + length body) (marked ++ checksum)
      ≡ parse_loop (suc (length body)) (reader body) no_expiry []
  unfolding parse_body
  body_found =
      let split : marked ++ checksum ≡ head ++ (body ++ (op_eof ∷ checksum)) =
        append_assoc head (body ++ (op_eof ∷ [])) checksum
        ∙ ap (λ k. head ++ k) (append_assoc body (op_eof ∷ []) checksum) in
      let size : 10 + length body - 1 - 9 ≡ length body = omega arith in
      let rest = drop-append_eq 9 head (body ++ (op_eof ∷ checksum)) (sym nine) in
      rw (split, size, rest, take-append_left body (op_eof ∷ checksum)) refl

  mark_found : take 1 (drop (10 + length body - 1) (marked ++ checksum)) ≡ op_eof ∷ []
  mark_found =
      let front = head ++ body in
      let split : marked ++ checksum ≡ front ++ (op_eof ∷ checksum) =
        ap (λ k. k ++ checksum) (sym (append_assoc head body (op_eof ∷ [])))
        ∙ append_assoc front (op_eof ∷ []) checksum in
      let size : 10 + length body - 1 ≡ length front =
        omega (arith, nine, length-append head body) in
      rw (split, size, drop-append_left front (op_eof ∷ checksum)) refl

  crc_found :
      crc < two_64 → (read_le 8 0 0 (reader (drop (10 + length body) (marked ++ checksum)))).0 ≡ crc
  crc_found h =
      let rest = drop-append_eq (10 + length body) marked checksum (sym length-marked) in
      rw
        (
          rest,
          u64_le-Reads crc h checksum 0 [] (omega (arith, length-put_le 8 0 crc))
              (sym (append-nil checksum)),
        )
        refl

  pub trailer_passed :
      crc ≡ crc64 0 marked
      → parse_trailer (10 + length body) (marked ++ checksum)
        ≡ parse_loop (suc (length body)) (reader body) no_expiry []
  unfolding parse_trailer
  trailer_passed h =
      let below : crc < two_64 = rw h (crc64_below 0 marked (omega arith)) in
      let front = take-append_eq (10 + length body) marked checksum (sym length-marked) in
      rw (mark_found, crc_found below, front, sym h) (ground (arith, body_found))
