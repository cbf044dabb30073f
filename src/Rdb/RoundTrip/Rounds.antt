-- ===== src/Rdb/RoundTrip/Rounds.antt =====
-- One round of the loop of `rdb_parse` for each opcode that `rdb_serialize` writes.
use redis_plus.Prelude.{
  ℕ, zero, suc, ◌+◌, ◌≤◌, ◌<◌, ◌≡◌, refl, ap, true, false, some, List, [], ◌∷◌, ◌++◌, Bytes, length,
  drop, length-append, length-drop, leb, arith,
}
use redis_plus.Prelude.Int.{ℤ, pos, negsuc, two_64, InRange, to_u64, of_u64-to_u64}
use redis_plus.Store.{Record, no_expiry}
use redis_plus.Rdb.Write.{
  put_le, put_length, put_string, op_aux, op_select_db, op_resize_db, op_expire_ms, type_string,
}
use redis_plus.Rdb.Reader.{read_length, plain, str}
use redis_plus.Rdb.Parse.{Parsed, next, checked, read_record, read_opcode, read_round, parse_loop}
use redis_plus.Rdb.Fields.{
  at_position, Reads-two, drop_past, u8-Reads, u64_le-Reads, read_length-Reads, str-Reads,
}

-- From here the parse ends with `result`, on any fuel above the bytes left.
abbrev pub Ends : Bytes → ℕ → ℤ → List Record → Parsed → Type 0
Ends bytes position pending out result =
    position ≤ length bytes
    → (fuel : ℕ) → length bytes < fuel + position
    → parse_loop fuel (at_position bytes position) pending out ≡ some result

to_u64_below : (a : ℤ) → to_u64 a < two_64
unfolding to_u64
to_u64_below (pos n) = omega arith
to_u64_below (negsuc n) = omega arith

module _ (bytes : Bytes) (b : length bytes < two_64) where
  -- An opcode and its field, read in a round that goes on.
  abbrev pub Goes : ℕ → Bytes → ℤ → List Record → ℤ → List Record → Type 0
  Goes opcode field pending out pending1 out1 =
      (position : ℕ) (t : Bytes)
      → drop position bytes ≡ field ++ t
      → read_opcode opcode (at_position bytes position) pending out
        ≡ next (at_position bytes (position + length field)) pending1 out1

  pub step :
      (opcode : ℕ) (field t : Bytes) (position : ℕ) (pending pending1 : ℤ) (out out1 : List Record)
      (result : Parsed)
      → Goes opcode field pending out pending1 out1
      → drop position bytes ≡ opcode ∷ (field ++ t)
      → Ends bytes (position + 1 + length field) pending1 out1 result
      → Ends bytes position pending out result
  unfolding parse_loop read_round
  step opcode field t position pending pending1 out out1 result goes e ends h zero fuel =
      absurd (omega arith)
  step opcode field t position pending pending1 out out1 result goes e ends h (suc fuel) enough =
      let fits : position + 1 + length field ≤ length bytes =
        omega (arith, length-drop position bytes, ap length e, length-append field t) in
      let more : leb (length bytes) position ≡ false = ground arith in
      let first = u8-Reads opcode bytes position (field ++ t) b e in
      let round = goes (position + 1) t (drop_past bytes position (opcode ∷ []) (field ++ t) e) in
      rw (more, first, round) (ends fits fuel (omega arith))

  -- The end of the bytes.
  pub stop_here :
      (position : ℕ) (pending : ℤ) (out : List Record)
      → drop position bytes ≡ []
      → Ends bytes position pending out (record { success = true; out = out; error = [] })
  unfolding parse_loop
  stop_here position pending out e h zero enough = absurd (omega arith)
  stop_here position pending out e h (suc fuel) enough =
      let over : leb (length bytes) position ≡ true =
        ground (arith, length-drop position bytes, ap length e) in
      rw over refl

  pub Goes-aux :
      (key value : Bytes) (pending : ℤ) (out : List Record)
      → Goes op_aux (put_string key ++ put_string value) pending out pending out
  unfolding read_opcode checked
  Goes-aux key value pending out position t e =
      let both =
        Reads-two str str (put_string key) (put_string value) key value (str-Reads key)
          (str-Reads value) bytes position t b e in
      rw (both.0, both.1) refl

  pub Goes-select_db :
      (n : ℕ) (pending : ℤ) (out : List Record)
      → n < two_64
      → Goes op_select_db (put_length n) pending out pending out
  unfolding read_opcode checked
  Goes-select_db n pending out h position t e = rw (read_length-Reads n h bytes position t b e) refl

  pub Goes-resize_db :
      (n m : ℕ) (pending : ℤ) (out : List Record)
      → n < two_64
      → m < two_64
      → Goes op_resize_db (put_length n ++ put_length m) pending out pending out
  unfolding read_opcode checked
  Goes-resize_db n m pending out h k position t e =
      let both =
        Reads-two read_length read_length (put_length n) (put_length m) (plain n) (plain m)
          (read_length-Reads n h) (read_length-Reads m k) bytes position t b e in
      rw (both.0, both.1) refl

  pub Goes-expire_ms :
      (d pending : ℤ) (out : List Record)
      → InRange d
      → Goes op_expire_ms (put_le 8 0 (to_u64 d)) pending out d out
  unfolding read_opcode checked
  Goes-expire_ms d pending out h position t e =
      rw (u64_le-Reads (to_u64 d) (to_u64_below d) bytes position t b e, of_u64-to_u64 d h) refl

  pub Goes-string :
      (key value : Bytes) (pending : ℤ) (out : List Record)
      → Goes type_string
          (put_string key ++ put_string value)
          pending
          out
          no_expiry
          (out ++ (record { key = key; value = value; expire_at = pending } ∷ []))
  unfolding read_opcode read_record checked
  Goes-string key value pending out position t e =
      let both =
        Reads-two str str (put_string key) (put_string value) key value (str-Reads key)
          (str-Reads value) bytes position t b e in
      rw (both.0, both.1) refl
