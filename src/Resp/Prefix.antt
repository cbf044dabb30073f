-- ===== src/Resp/Prefix.antt =====
-- What a complete request takes, and the bytes behind it.
use redis_plus.Prelude.{
  ℕ, zero, suc, ◌+◌, ◌-◌, ◌≤◌, ◌<◌, ◌≡◌, refl, ◌⊎◌, ◌≢◌, inl, inr, Option, some, none, List, [],
  ◌∷◌, ◌++◌, Bytes, length, length-append, length-drop, take, drop, take-append_le, drop-append_le,
  arith, Option-cases,
}
use redis_plus.Prelude.Int.{ℤ, pos, negsuc}
use redis_plus.Decimal.{parse_int}
use redis_plus.Resp.Find.{find_crlf, find_crlf-le, find_crlf-append}
use redis_plus.Resp.{
  ok, parse_request, parse_multibulk, parse_inline, parse_args, BulkResult, read_bulk, read_body,
  with_length, with_count, bulk, in_flight, malformed,
}

-- no bulk was read
abbrev IsOther : BulkResult → Type 0
IsOther (bulk need arg) = ⊥
IsOther _ = Unit

BulkResult-cases : (r : BulkResult) → ((need : ℕ) × (arg : Bytes) × (r ≡ bulk need arg)) ⊎ IsOther r
BulkResult-cases (bulk need arg) = inl (need, arg, refl)
BulkResult-cases in_flight = inr tt
BulkResult-cases (malformed message) = inr tt

other-parse_args :
    (k at : ℕ) (input : Bytes) (args : List Bytes) (n : ℕ) (out : List Bytes)
    → IsOther (read_bulk input)
    → parse_args (suc k) at input args ≢ ok n out
unfolding parse_args
other-parse_args k at input args n out other h = ground arith

module _ (t : Bytes) where
  read_body-append :
      (len_end n : ℕ) (input : Bytes) (need : ℕ) (arg : Bytes)
      → read_body len_end n input ≡ bulk need arg
      → (read_body len_end n (input ++ t) ≡ bulk need arg) × (need ≤ length input) × (0 < need)
  unfolding read_body
  read_body-append len_end n input need arg h = ground (
    arith,
    length-append input t,
    drop-append_le (len_end + 2 + n) input t,
    drop-append_le (len_end + 2) input t,
    length-drop (len_end + 2 + n) input,
    length-drop (len_end + 2) input,
    take-append_le 2 (drop (len_end + 2 + n) input) t,
    take-append_le n (drop (len_end + 2) input) t,
  )

  with_length-append :
      (len_end : ℕ) (o : Option ℤ) (input : Bytes) (need : ℕ) (arg : Bytes)
      → with_length len_end o input ≡ bulk need arg
      → (with_length len_end o (input ++ t) ≡ bulk need arg) × (need ≤ length input) × (0 < need)
  with_length-append len_end (some (pos n)) input need arg h =
      ground (arith, read_body-append len_end n input need arg)
  with_length-append len_end (some (negsuc n)) input need arg h = ground arith
  with_length-append len_end none input need arg h = ground arith

  read_bulk-append :
      (input : Bytes) (need : ℕ) (arg : Bytes)
      → read_bulk input ≡ bulk need arg
      → (read_bulk (input ++ t) ≡ bulk need arg) × (need ≤ length input) × (0 < need)
  unfolding read_bulk
  read_bulk-append [] need arg h = cc
  read_bulk-append (c ∷ s) need arg h = elim (Option-cases (find_crlf (c ∷ s))) [
    | inl e ↦ ground arith
    | inr (n, e) ↦ ground (
      arith,
      find_crlf-le (c ∷ s) n e,
      find_crlf-append (c ∷ s) t n e,
      take-append_le (n - 1) s t,
      with_length-append n (parse_int (take (n - 1) s)) (c ∷ s) need arg,
    )
  ]

  -- The loop over the arguments, from any place on.
  parse_args-append :
      (k at : ℕ) (input : Bytes) (args : List Bytes) (n : ℕ) (out : List Bytes)
      → parse_args k at input args ≡ ok n out
      → (parse_args k at (input ++ t) args ≡ ok n out) × (n ≤ at + length input) × (at ≤ n)
  unfolding parse_args
  parse_args-append zero at input args n out h = ground arith
  parse_args-append (suc k) at input args n out h = elim (BulkResult-cases (read_bulk input)) [
    | inl (need, arg, e) ↦ ground (
      arith,
      read_bulk-append input need arg e,
      length-drop need input,
      drop-append_le need input t,
      parse_args-append k (at + need) (drop need input) (args ++ arg ∷ []) n out,
    )
    | inr other ↦ absurd (other-parse_args k at input args n out other h)
  ]

  with_count-append :
      (header_end : ℕ) (o : Option ℤ) (input : Bytes) (n : ℕ) (out : List Bytes)
      → header_end + 2 ≤ length input
      → with_count header_end o input ≡ ok n out
      → (with_count header_end o (input ++ t) ≡ ok n out) × (n ≤ length input) × (0 < n)
  with_count-append header_end none input n out fits h = ground arith
  with_count-append header_end (some (negsuc m)) input n out fits h = ground arith
  with_count-append header_end (some (pos m)) input n out fits h = ground (
    arith,
    length-drop (header_end + 2) input,
    drop-append_le (header_end + 2) input t,
    parse_args-append m (header_end + 2) (drop (header_end + 2) input) [] n out,
  )

  parse_multibulk-append :
      (c : ℕ) (s : Bytes) (n : ℕ) (out : List Bytes)
      → parse_multibulk (c ∷ s) ≡ ok n out
      → (parse_multibulk (c ∷ (s ++ t)) ≡ ok n out) × (n ≤ length (c ∷ s)) × (0 < n)
  unfolding parse_multibulk
  parse_multibulk-append c s n out h = elim (Option-cases (find_crlf (c ∷ s))) [
    | inl e ↦ ground arith
    | inr (m, e) ↦ ground (
      arith,
      find_crlf-le (c ∷ s) m e,
      find_crlf-append (c ∷ s) t m e,
      take-append_le (m - 1) s t,
      with_count-append m (parse_int (take (m - 1) s)) (c ∷ s) n out,
    )
  ]

  parse_inline-append :
      (input : Bytes) (n : ℕ) (out : List Bytes)
      → parse_inline input ≡ ok n out
      → (parse_inline (input ++ t) ≡ ok n out) × (n ≤ length input) × (0 < n)
  unfolding parse_inline
  parse_inline-append input n out h = elim (Option-cases (find_crlf input)) [
    | inl e ↦ ground arith
    | inr (m, e) ↦
        ground
          (arith, find_crlf-le input m e, find_crlf-append input t m e, take-append_le m input t)
  ]

-- If parse_request takes a complete request from an input, it takes the same bytes and gives the
-- same arguments whatever follows the input, and takes at least one byte and no more than the
-- input has.
pub parse_request-append :
    (input t : Bytes) (n : ℕ) (args : List Bytes)
    → parse_request input ≡ ok n args
    → (parse_request (input ++ t) ≡ ok n args) × (n ≤ length input) × (0 < n)
unfolding parse_request
parse_request-append [] t n args h = cc
parse_request-append (c ∷ s) t n args h =
    ground (arith, parse_multibulk-append t c s n args, parse_inline-append t (c ∷ s) n args)

-- A complete request takes at least a byte and no more than there are.
pub parse_request_bounds :
    (input : Bytes) (n : ℕ) (args : List Bytes)
    → parse_request input ≡ ok n args
    → (n ≤ length input) × (0 < n)
parse_request_bounds input n args h =
    let (_, le, lt) = parse_request-append input [] n args h in (le, lt)
