-- ===== src/Rdb/RoundTrip/Records.antt =====
-- The records of a payload and what stands before them, through the loop of `rdb_parse`.
use redis_plus.Prelude.{
  ℕ, suc, ◌+◌, ◌≤◌, ◌<◌, ◌≡◌, ap, ◌∙◌, true, List, [], ◌∷◌, ◌++◌, append_assoc, append-nil, Bytes,
  codes, length, drop, length-append, arith, Bool-cases, inl, inr, All,
}
use redis_plus.Prelude.Int.{two_64, InRange, eq_ℤ, eq_ℤ_iff, to_u64}
use redis_plus.Store.{Record, no_expiry}
use redis_plus.Rdb.Write.{
  put_le, put_length, put_string, put_expiry, put_record, put_records, op_aux, op_select_db,
  op_resize_db, op_expire_ms, type_string, preamble, with_expiry,
}
use redis_plus.Rdb.Parse.{Parsed}
use redis_plus.Rdb.Fields.{drop_past}
use redis_plus.Rdb.RoundTrip.Rounds.{
  Ends, step, stop_here, Goes-aux, Goes-select_db, Goes-resize_db, Goes-expire_ms, Goes-string,
}

abbrev pub parsed : List Record → Parsed
parsed records = record { success = true; out = records; error = [] }

with_expiry_bound : (records : List Record) → with_expiry records ≤ length records
unfolding with_expiry
with_expiry_bound [] = omega arith
with_expiry_bound (r ∷ records) = ground (arith, with_expiry_bound records)

module _ (bytes : Bytes) (b : length bytes < two_64) where
  -- a record behind its deadline
  Ends-strings :
      (r : Record) (t : Bytes) (position : ℕ) (out : List Record) (result : Parsed)
      → drop position bytes ≡ type_string ∷ ((put_string r.key ++ put_string r.value) ++ t)
      → Ends bytes
          (position + 1 + length (put_string r.key ++ put_string r.value))
          no_expiry
          (out ++ (r ∷ []))
          result
      → Ends bytes position r.expire_at out result
  Ends-strings r t position out result =
      step bytes b type_string (put_string r.key ++ put_string r.value) t position r.expire_at
        no_expiry out (out ++ (r ∷ [])) result (Goes-string bytes b r.key r.value r.expire_at out)

  Ends-dated :
      (r : Record) (t : Bytes) (position : ℕ) (out : List Record) (result : Parsed)
      → InRange r.expire_at
      → drop position bytes
        ≡ op_expire_ms
          ∷ (put_le 8 0 (to_u64 r.expire_at)
              ++ (type_string ∷ ((put_string r.key ++ put_string r.value) ++ t)))
      → Ends bytes
          (position
            + 1
            + length (put_le 8 0 (to_u64 r.expire_at))
            + 1
            + length (put_string r.key ++ put_string r.value))
          no_expiry
          (out ++ (r ∷ []))
          result
      → Ends bytes position no_expiry out result
  Ends-dated r t position out result h e ends =
      let field = put_le 8 0 (to_u64 r.expire_at) in
      let behind = type_string ∷ ((put_string r.key ++ put_string r.value) ++ t) in
      step bytes b op_expire_ms field behind position no_expiry r.expire_at out out result
        (Goes-expire_ms bytes b r.expire_at no_expiry out h) e
        (Ends-strings r t (position + 1 + length field) out result
          (drop_past bytes (position + 1) field behind
            (drop_past bytes position (op_expire_ms ∷ []) (field ++ behind) e))
          ends)

  Ends-put_record :
      (r : Record) (t : Bytes) (position : ℕ) (out : List Record) (result : Parsed)
      → InRange r.expire_at
      → drop position bytes ≡ put_record r ++ t
      → Ends bytes (position + length (put_record r)) no_expiry (out ++ (r ∷ [])) result
      → Ends bytes position no_expiry out result
  unfolding put_record put_expiry
  Ends-put_record r t position out result h e ends =
      let strings = put_string r.key ++ put_string r.value in
      elim (Bool-cases (eq_ℤ r.expire_at no_expiry)) [
        | inl forever ↦
            let same = (eq_ℤ_iff r.expire_at no_expiry).0 forever in
            let moved : position + suc (length strings) ≡ position + 1 + length strings =
              omega arith in
            rw same at (
              Ends-strings r t position out result (rw forever at e)
                (rw moved at (rw forever at ends)))
        | inr dated ↦
            let field = put_le 8 0 (to_u64 r.expire_at) in
            let split = append_assoc field (type_string ∷ strings) t in
            let moved : position + suc (length (field ++ (type_string ∷ strings)))
                ≡ position + 1 + length field + 1 + length strings =
              omega (arith, length-append field (type_string ∷ strings)) in
            Ends-dated r t position out result h
              ((rw dated at e) ∙ ap (λ k. op_expire_ms ∷ k) split) (rw moved at (rw dated at ends))
      ]

  Ends-put_records :
      (records : List Record) (position : ℕ) (out : List Record)
      → All (λ r. InRange r.expire_at) records
      → drop position bytes ≡ put_records records
      → Ends bytes position no_expiry out (parsed (out ++ records))
  unfolding put_records
  Ends-put_records [] position out h e =
      rw (append-nil out) (stop_here bytes b position no_expiry out e)
  Ends-put_records (r ∷ records) position out (hr, h) e =
      Ends-put_record r (put_records records) position out (parsed (out ++ (r ∷ records))) hr e (
        rw (append_assoc out (r ∷ []) records) at (
          Ends-put_records records (position + length (put_record r)) (out ++ (r ∷ [])) h
            (drop_past bytes position (put_record r) (put_records records) e)))

  drop_behind :
      (opcode position : ℕ) (field t : Bytes)
      → drop position bytes ≡ opcode ∷ (field ++ t)
      → drop (position + 1 + length field) bytes ≡ t
  drop_behind opcode position field t e =
      drop_past bytes (position + 1) field t (drop_past bytes position (opcode ∷ []) (field ++ t) e)

  pub Ends-preamble :
      (records : List Record)
      → All (λ r. InRange r.expire_at) records
      → length records < two_64
      → bytes ≡ preamble records ++ put_records records
      → Ends bytes 0 no_expiry [] (parsed records)
  unfolding preamble
  Ends-preamble records h count e =
      let name = codes "redis-ver" in
      let value = codes "7.0.0-rp" in
      let version = put_string name ++ put_string value in
      let zero_db = put_length 0 in
      let sizes = put_length (length records) ++ put_length (with_expiry records) in
      let rest = put_records records in
      let behind_db = op_resize_db ∷ (sizes ++ rest) in
      let behind_aux = op_select_db ∷ (zero_db ++ behind_db) in
      let p1 = 0 + 1 + length version in
      let p2 = p1 + 1 + length zero_db in
      let split : bytes ≡ op_aux ∷ (version ++ behind_aux) =
        e
        ∙ append_assoc (op_aux ∷ version) ((op_select_db ∷ zero_db) ++ (op_resize_db ∷ sizes)) rest
        ∙ ap (λ k. op_aux ∷ (version ++ (op_select_db ∷ k)))
            (append_assoc zero_db (op_resize_db ∷ sizes) rest) in
      let at_1 = drop_behind op_aux 0 version behind_aux split in
      let at_2 = drop_behind op_select_db p1 zero_db behind_db at_1 in
      step bytes b op_aux version behind_aux 0 no_expiry no_expiry [] [] (parsed records)
        (Goes-aux bytes b name value no_expiry []) split
        (step bytes b op_select_db zero_db behind_db p1 no_expiry no_expiry [] [] (parsed records)
          (Goes-select_db bytes b 0 no_expiry [] (omega arith)) at_1
          (step bytes b op_resize_db sizes rest p2 no_expiry no_expiry [] [] (parsed records)
            (Goes-resize_db bytes b (length records) (with_expiry records) no_expiry [] count
              (omega (arith, with_expiry_bound records)))
            at_2
            (Ends-put_records records (p2 + 1 + length sizes) [] h
              (drop_behind op_resize_db p2 sizes rest at_2))))
