-- ===== src/Resp.antt =====
-- Request parsing of src/resp.cpp (`parse_request`). A position in the buffer is the bytes before it,
-- counted, and the bytes from it on, as a list.
pub mod Find
pub mod Reply
pub mod Prefix
pub mod RoundTrip
use redis_plus.Prelude.{
  ℕ, zero, suc, ◌+◌, ◌-◌, ◌*◌, Bool, true, false, not, ◌&&◌, ◌||◌, Option, none, some, List, [],
  ◌∷◌, ◌++◌, Bytes, codes, beq, ltb, leb, ◌==◌, if◌then◌else◌, length, take, drop,
}
use redis_plus.Prelude.Int.{ℤ, pos, negsuc, pos_part}
use redis_plus.Decimal.{parse_int}
use Find.{cr, lf, crlf, find_crlf}

abbrev pub max_multibulk_length : ℕ
max_multibulk_length = 1024 * 1024

abbrev pub max_bulk_length : ℕ
max_bulk_length = 512 * 1024 * 1024

abbrev pub max_inline_length : ℕ
max_inline_length = 64 * 1024

-- `ok consumed args`, and `error message`; nothing is consumed but by `ok`.
pub data ParseResult : Type 0 where
  ok : ℕ → List Bytes → ParseResult
  incomplete : ParseResult
  error : Bytes → ParseResult

-- `std::isspace`
abbrev pub is_space : ℕ → Bool
is_space c = c == b' ' || leb 9 c && leb c 13

skip_space : Bytes → Bytes
skip_space [] = []
skip_space (c ∷ line) = let rest = skip_space line in if is_space c then rest else c ∷ line

-- the bytes up to the next space, and the line from there on
word : Bytes → Bytes
word [] = []
word (c ∷ line) = let rest = word line in if is_space c then [] else c ∷ rest

after_word : Bytes → Bytes
after_word [] = []
after_word (c ∷ line) = let rest = after_word line in if is_space c then c ∷ line else rest

abbrev push_word : Bytes → List Bytes → List Bytes
push_word [] args = args
push_word (c ∷ w) args = (c ∷ w) ∷ args

-- The loop of `parse_inline`; each round takes at least one byte, so the line's length is fuel.
words : ℕ → Bytes → List Bytes
words zero line = []
words (suc fuel) line =
    let start = skip_space line in push_word (word start) (words fuel (after_word start))

too_big_inline : Bytes
too_big_inline = codes "ERR Protocol error: too big inline request"

unfoldable pub parse_inline : Bytes → ParseResult
unfolding words skip_space word after_word too_big_inline
parse_inline input = elim (find_crlf input) [
  | none ↦ if ltb max_inline_length (length input) then error too_big_inline else incomplete
  | some eol ↦
      if ltb max_inline_length eol
      then error too_big_inline
      else ok (eol + 2) (words eol (take eol input))
]

-- One `$<len>\r\n<body>\r\n`: the bytes that it takes and its body, or why there is none.
pub data BulkResult : Type 0 where
  bulk : ℕ → Bytes → BulkResult
  in_flight : BulkResult
  malformed : Bytes → BulkResult

abbrev expected_dollar : ℕ → Bytes
expected_dollar c = codes "ERR Protocol error: expected '$', got '" ++ (c ∷ b'\'' ∷ [])

-- behind a header line of `len_end` bytes that announces `n` bytes
unfoldable pub read_body : ℕ → ℕ → Bytes → BulkResult
read_body len_end n input =
    let body = len_end + 2 in
    let need = body + n + 2 in
    if ltb (length input) need
    then in_flight
    else if not (beq (take 2 (drop (body + n) input)) crlf)
    then malformed (codes "ERR Protocol error: unbalanced bulk payload")
    else bulk need (take n (drop body input))

abbrev invalid_bulk : BulkResult
invalid_bulk = malformed (codes "ERR Protocol error: invalid bulk length")

abbrev pub with_length : ℕ → Option ℤ → Bytes → BulkResult
with_length len_end none input = invalid_bulk
with_length len_end (some (negsuc n)) input = invalid_bulk
with_length len_end (some (pos n)) input =
    if ltb max_bulk_length n then invalid_bulk else read_body len_end n input

unfoldable pub read_bulk : Bytes → BulkResult
read_bulk [] = in_flight
read_bulk (c ∷ s) =
    if not (c == b'$') then malformed (expected_dollar c) else elim (find_crlf (c ∷ s)) [
      | none ↦
          if ltb 64 (length (c ∷ s))
          then malformed (codes "ERR Protocol error: too big bulk count string")
          else in_flight
      | some len_end ↦ with_length len_end (parse_int (take (len_end - 1) s)) (c ∷ s)
    ]

-- The loop over the arguments still wanted.
unfoldable pub parse_args : ℕ → ℕ → Bytes → List Bytes → ParseResult
parse_args zero at input args = ok at args
parse_args (suc n) at input args = elim (read_bulk input) [
  | bulk need arg ↦ parse_args n (at + need) (drop need input) (args ++ arg ∷ [])
  | in_flight ↦ incomplete
  | malformed message ↦ error message
]

abbrev invalid_multibulk : ParseResult
invalid_multibulk = error (codes "ERR Protocol error: invalid multibulk length")

-- behind a header line of `header_end` bytes that announces the count
abbrev pub with_count : ℕ → Option ℤ → Bytes → ParseResult
with_count header_end none input = invalid_multibulk
with_count header_end (some (negsuc n)) input = ok (header_end + 2) []
with_count header_end (some (pos n)) input =
    if ltb max_multibulk_length n
    then invalid_multibulk
    else parse_args n (header_end + 2) (drop (header_end + 2) input) []

unfoldable pub parse_multibulk : Bytes → ParseResult
parse_multibulk input = elim (find_crlf input) [
  | none ↦
      if ltb 64 (length input)
      then error (codes "ERR Protocol error: too big mbulk count string")
      else incomplete
  | some header_end ↦ with_count header_end (parse_int (take (header_end - 1) (drop 1 input))) input
]

unfoldable pub parse_request : Bytes → ParseResult
parse_request [] = incomplete
parse_request (c ∷ s) = if c == b'*' then parse_multibulk (c ∷ s) else parse_inline (c ∷ s)
