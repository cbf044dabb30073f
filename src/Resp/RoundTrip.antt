-- ===== src/Resp/RoundTrip.antt =====
-- `parse_request` on what `Aof::encode` writes.
use redis_plus.Prelude.{
  ℕ, suc, ◌+◌, ◌-◌, ◌≤◌, ◌≡◌, refl, ◌∙◌, ◌≢◌, some, List, [], ◌∷◌, ◌++◌, append_assoc, append-nil,
  Bytes, ltb-false, length, length-append, take-append_left, take-append_eq, drop-append_eq,
  drop-append_left, All, arith,
}
use redis_plus.Decimal.{to_string}
use redis_plus.Decimal.RoundTrip.{IsDigit, to_string-IsDigit, parse_int-to_string}
use redis_plus.Resp.Find.{cr, lf, crlf, find_crlf, find_crlf_line}
use redis_plus.Resp.Reply.{bulk, bulks, array_header, encode}
use redis_plus.Resp.{
  ok, parse_request, parse_multibulk, parse_args, read_bulk, read_body, bulk as read,
  max_bulk_length, max_multibulk_length,
}

-- A request that the limits of the protocol allow.
pub record IsSendable (args : List Bytes) : Type 0 where
  pub few : length args ≤ max_multibulk_length
  pub short : All (λ a. length a ≤ max_bulk_length) args

IsDigit-Lacks : (s : Bytes) → All IsDigit s → All (λ c. c ≢ cr) s
IsDigit-Lacks [] h = tt
IsDigit-Lacks (c ∷ s) (hc, hs) = (omega arith, IsDigit-Lacks s hs)

-- A mark and a number end at the first CRLF.
pub find_crlf_header :
    (mark n : ℕ) (t : Bytes)
    → mark ≢ cr
    → find_crlf (mark ∷ (to_string n ++ cr ∷ lf ∷ t)) ≡ some (suc (length (to_string n)))
find_crlf_header mark n t h =
    find_crlf_line (mark ∷ to_string n) t (h, IsDigit-Lacks _ (to_string-IsDigit n))

read_body_lem :
    (len_end : ℕ) (header s t : Bytes)
    → length header ≡ len_end + 2
    → read_body len_end (length s) (header ++ (s ++ (crlf ++ t)))
      ≡ read (len_end + 2 + length s + 2) s
unfolding read_body
read_body_lem len_end header s t e =
    let fits = length-append header (s ++ (crlf ++ t)) in
    let body = drop-append_eq (len_end + 2) header (s ++ (crlf ++ t)) (omega arith) in
    let behind =
      drop-append_eq (len_end + 2 + length s) (header ++ s) (crlf ++ t)
        (omega (arith, length-append header s)) in
    rw (
      ltb-false (length (header ++ (s ++ (crlf ++ t)))) (len_end + 2 + length s + 2)
          (omega (arith, length-append s (crlf ++ t))),
      rw append_assoc at behind,
      body,
      take-append_left s (crlf ++ t),
    )

read_bulk_header :
    (n : ℕ) (t : Bytes)
    → n ≤ max_bulk_length
    → read_bulk (b'$' ∷ (to_string n ++ (crlf ++ t)))
      ≡ read_body (suc (length (to_string n))) n (b'$' ∷ (to_string n ++ (crlf ++ t)))
unfolding read_bulk
read_bulk_header n t h =
    let digits = to_string n in
    rw (
      find_crlf_header b'$' n t (omega arith),
      take-append_eq (suc (length digits) - 1) digits (crlf ++ t) (omega arith),
      parse_int-to_string n (omega arith),
      ltb-false max_bulk_length n h,
    )

pub bulk-append :
    (s t : Bytes) → bulk s ++ t ≡ b'$' ∷ (to_string (length s) ++ (crlf ++ (s ++ (crlf ++ t))))
unfolding bulk
bulk-append s t = simp append_assoc

length-bulk : (s : Bytes) → length (bulk s) ≡ suc (length (to_string (length s))) + 2 + length s + 2
unfolding bulk
length-bulk s =
    omega (arith, length-append (to_string (length s)) (crlf ++ (s ++ crlf)), length-append s crlf)

-- An encoded argument is read back, and all of its bytes are taken.
read_bulk-bulk :
    (s t : Bytes) → length s ≤ max_bulk_length → read_bulk (bulk s ++ t) ≡ read (length (bulk s)) s
read_bulk-bulk s t h =
    let digits = to_string (length s) in
    rw (bulk-append s t, read_bulk_header (length s) (s ++ (crlf ++ t)) h, length-bulk s)
      (rw (← append_assoc (b'$' ∷ digits) crlf (s ++ (crlf ++ t))) (
        read_body_lem (suc (length digits)) (b'$' ∷ (digits ++ crlf)) s t
          (omega (arith, length-append digits crlf))))

parse_args-bulks :
    (args done : List Bytes) (at : ℕ) (t : Bytes)
    → All (λ a. length a ≤ max_bulk_length) args
    → parse_args (length args) at (bulks args ++ t) done
      ≡ ok (at + length (bulks args)) (done ++ args)
unfolding parse_args bulks
parse_args-bulks [] done at t h = rw append-nil (ground arith)
parse_args-bulks (a ∷ args) done at t (ha, h) =
    rw
      (
        append_assoc (bulk a) (bulks args) t,
        parse_args,
        read_bulk-bulk a (bulks args ++ t) ha,
        append_assoc (bulk a) (bulks args) t,
        drop-append_left (bulk a) (bulks args ++ t),
        parse_args-bulks args (done ++ a ∷ []) (at + length (bulk a)) t h,
        append_assoc done (a ∷ []) args,
      )
      (ground (arith, length-append (bulk a) (bulks args)))

parse_multibulk_header :
    (n : ℕ) (t : Bytes)
    → n ≤ max_multibulk_length
    → parse_multibulk (array_header n ++ t) ≡ parse_args n (length (array_header n)) t []
unfolding parse_multibulk array_header
parse_multibulk_header n t h =
    let digits = to_string n in
    let header = b'*' ∷ (digits ++ crlf) in
    let long = length-append digits crlf in
    rw append_assoc (
      rw
        (
          parse_multibulk,
          find_crlf_header b'*' n t (omega arith),
          take-append_eq (suc (length digits) - 1) digits (crlf ++ t) (omega arith),
          parse_int-to_string n (omega arith),
          ltb-false max_multibulk_length n h,
          ← append_assoc (b'*' ∷ digits) crlf t,
          drop-append_eq (suc (length digits) + 2) header t (omega arith),
        )
        (ground arith))

parse_request_star :
    (n : ℕ) (t : Bytes)
    → parse_request (array_header n ++ t) ≡ parse_multibulk (array_header n ++ t)
unfolding parse_request array_header
parse_request_star n t = refl

parse_request-header :
    (n : ℕ) (t : Bytes)
    → n ≤ max_multibulk_length
    → parse_request (array_header n ++ t) ≡ parse_args n (length (array_header n)) t []
parse_request-header n t h = parse_request_star n t ∙ parse_multibulk_header n t h

-- An encoded request within the limits parses as itself and takes exactly its own bytes, whatever
-- bytes follow.
pub parse_request-encode :
    (args : List Bytes) (t : Bytes)
    → IsSendable args
    → parse_request (encode args ++ t) ≡ ok (length (encode args)) args
unfolding encode
parse_request-encode args t h =
    let header = array_header (length args) in
    rw (
      append_assoc header (bulks args) t,
      parse_request-header (length args) (bulks args ++ t) h.few,
      parse_args-bulks args [] (length header) t h.short,
      length-append header (bulks args),
    )
