-- ===== src/Handler/PingPong/Framing.antt =====
-- The framing of `PingPongHandler` beside the parser that took its place.
use redis_plus.Prelude.{
  ℕ, suc, ◌+◌, ◌-◌, ◌*◌, ◌≤◌, ◌≡◌, refl, sym, ap, ◌∙◌, some, List, [], ◌∷◌, ◌++◌, append_assoc,
  Bytes, ltb-false, length, length-append, take, drop, take-append_eq, drop-append_eq, All, arith,
}
use redis_plus.Prelude.Int.{max_i64}
use redis_plus.Decimal.{to_string, scan_digits}
use redis_plus.Decimal.RoundTrip.{scan-to_string}
use redis_plus.Resp.{parse_request, ok}
use redis_plus.Resp.Find.{crlf, find_crlf}
use redis_plus.Resp.Reply.{bulk, bulks, array_header, encode}
use redis_plus.Resp.RoundTrip.{IsSendable, find_crlf_header, bulk-append, parse_request-encode}
use redis_plus.Handler.PingPong.{number, bulk_length, frame_args, framed_length, max_argc, max_len}

-- The digits that are read never make the value smaller.
scan_digits-grows : (value n : ℕ) (text : Bytes) → scan_digits value text ≡ some n → value ≤ n
unfolding scan_digits
scan_digits-grows value n [] h = ground arith
scan_digits-grows value n (c ∷ text) h =
    ground (arith, h, scan_digits-grows (value * 10 + (c - b'0')) n text)

-- Both loops read the same number where it is within the smaller limit.
number-scan_digits :
    (limit value n : ℕ) (text : Bytes)
    → n ≤ limit
    → scan_digits value text ≡ some n
    → number limit value text ≡ some n
unfolding scan_digits number
number-scan_digits limit value n [] le h = h
number-scan_digits limit value n (c ∷ text) le h = ground (
  arith,
  h,
  scan_digits-grows (value * 10 + (c - b'0')) n text,
  number-scan_digits limit (value * 10 + (c - b'0')) n text le,
)

number-to_string :
    (limit n : ℕ) → n ≤ limit → limit ≤ max_i64 → number limit 0 (to_string n) ≡ some n
number-to_string limit n h b =
    number-scan_digits limit 0 n (to_string n) h (scan-to_string n (omega arith))

length-bulk : (s : Bytes) → length (bulk s) ≡ suc (length (to_string (length s))) + 2 + length s + 2
unfolding bulk
length-bulk s =
    omega (arith, length-append (to_string (length s)) (crlf ++ (s ++ crlf)), length-append s crlf)

-- A bulk within the limit is taken whole, whatever follows.
bulk_length-bulk :
    (s t : Bytes) → length s ≤ max_len → bulk_length (bulk s ++ t) ≡ some (length (bulk s))
unfolding bulk_length
bulk_length-bulk s t h =
    let n = length s in
    let digits = to_string n in
    let behind = s ++ (crlf ++ t) in
    let whole = length-append digits (crlf ++ behind) in
    let rest = length-append s (crlf ++ t) in
    rw
      (
        bulk-append s t,
        find_crlf_header b'$' n behind (omega arith),
        take-append_eq (suc (length digits) - 1) digits (crlf ++ behind) (omega arith),
        number-to_string max_len n h (omega arith),
        ltb-false (length (b'$' ∷ (digits ++ (crlf ++ behind)))) (suc (length digits) + 2 + n + 2)
            (omega (arith, whole, rest)),
        length-bulk s,
      )
      refl

frame_args-suc :
    (argc pos n : ℕ) (rest : Bytes)
    → bulk_length rest ≡ some n
    → frame_args (suc argc) pos rest ≡ frame_args argc (pos + n) (drop n rest)
unfolding frame_args
frame_args-suc argc pos n rest e = rw (e, frame_args) refl

frame_args-bulks :
    (args : List Bytes) (pos : ℕ) (t : Bytes)
    → All (λ a. length a ≤ max_len) args
    → frame_args (length args) pos (bulks args ++ t) ≡ pos + length (bulks args)
unfolding frame_args bulks
frame_args-bulks [] pos t h = omega arith
frame_args-bulks (a ∷ args) pos t (short, h) =
    let n = length (bulk a) in
    let whole = append_assoc (bulk a) (bulks args) t in
    ap (frame_args (suc (length args)) pos) whole
    ∙ frame_args-suc (length args) pos n (bulk a ++ (bulks args ++ t))
        (bulk_length-bulk a (bulks args ++ t) short)
    ∙ ap (frame_args (length args) (pos + n)) (drop-append_eq n (bulk a) (bulks args ++ t) refl)
    ∙ frame_args-bulks args (pos + n) t h
    ∙ omega (arith, length-append (bulk a) (bulks args))

length-header : (n : ℕ) → length (array_header n) ≡ suc (length (to_string n)) + 2
unfolding array_header
length-header n = omega (arith, length-append (to_string n) crlf)

framed_length-star :
    (eol argc : ℕ) (rest : Bytes)
    → find_crlf (b'*' ∷ rest) ≡ some eol
    → number max_argc 0 (take (eol - 1) rest) ≡ some argc
    → framed_length (b'*' ∷ rest) ≡ frame_args argc (eol + 2) (drop (eol + 2) (b'*' ∷ rest))
unfolding framed_length
framed_length-star eol argc rest found read = rw (found, framed_length, read) refl

framed_length-header :
    (n : ℕ) (t : Bytes)
    → n ≤ max_argc
    → framed_length (array_header n ++ t) ≡ frame_args n (length (array_header n)) t
unfolding array_header
framed_length-header n t h =
    let digits = to_string n in
    let eol = suc (length digits) in
    let count : take (eol - 1) (digits ++ (crlf ++ t)) ≡ digits =
      take-append_eq (eol - 1) digits (crlf ++ t) (omega arith) in
    ap (λ k. framed_length (b'*' ∷ k)) (append_assoc digits crlf t)
    ∙ framed_length-star eol n (digits ++ (crlf ++ t)) (find_crlf_header b'*' n t (omega arith))
        (ap (number max_argc 0) count ∙ number-to_string max_argc n h (omega arith))
    ∙ ap (λ k. frame_args n (eol + 2) (drop (eol + 2) (b'*' ∷ k)))
        (sym (append_assoc digits crlf t))
    ∙ ap (frame_args n (eol + 2)) (
        drop-append_eq (eol + 2) (b'*' ∷ (digits ++ crlf)) t
          (omega (arith, length-append digits crlf)))
    ∙ ap (λ k. frame_args n k t) (sym (length-header n))

-- For an encoded request within the limits, whatever bytes follow, the framing of the first
-- handler is the length of the request, as many bytes as parse_request takes.
pub framed_length-encode :
    (args : List Bytes) (t : Bytes)
    → IsSendable args
    → (framed_length (encode args ++ t) ≡ length (encode args))
      × (parse_request (encode args ++ t) ≡ ok (framed_length (encode args ++ t)) args)
unfolding encode
framed_length-encode args t h =
    let header = array_header (length args) in
    let framed : framed_length ((header ++ bulks args) ++ t) ≡ length (header ++ bulks args) =
      rw (append_assoc header (bulks args) t) (
        framed_length-header (length args) (bulks args ++ t) h.few
        ∙ frame_args-bulks args (length header) t h.short
        ∙ sym (length-append header (bulks args))) in
    (framed, rw framed (parse_request-encode args t h))
