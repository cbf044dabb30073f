-- ===== src/Handler/PingPong.antt =====
-- `PingPongHandler` of src/handler.cpp. A position in the buffer is the bytes before it, counted,
-- and the bytes from it on, as a list.
pub mod Framing
pub mod Total
use redis_plus.Prelude.{
  ℕ, zero, suc, ◌+◌, ◌-◌, ◌*◌, Bool, true, false, not, ◌&&◌, ◌||◌, Option, none, some, [], ◌∷◌,
  ◌++◌, Bytes, codes, ltb, ◌==◌, if◌then◌else◌, length, take, drop,
}
use redis_plus.Decimal.{is_digit, to_string}
use redis_plus.Resp.Find.{find_crlf}
use redis_plus.Buffer
use redis_plus.Buffer.{Buffer}
use redis_plus.Stats.{Stats, to_info}
use redis_plus.Commands.Base.{to_upper}

-- The loops over the digits of a number that may not pass `limit`; no digit at all is 0.
unfoldable pub number : ℕ → ℕ → Bytes → Option ℕ
number limit value [] = some value
number limit value (c ∷ text) =
    let next = value * 10 + (c - b'0') in
    let rest = number limit next text in
    if not (is_digit c) then none else if ltb limit next then none else rest

abbrev pub max_argc : ℕ
max_argc = 1024 * 1024

abbrev pub max_len : ℕ
max_len = 512 * 1024 * 1024

-- behind the header of a bulk of `len` bytes: the position behind the bulk, if that is in the buffer
abbrev body_end : ℕ → Bytes → Option ℕ → Option ℕ
body_end hdr rest none = none
body_end hdr rest (some len) =
    if ltb (length rest) (hdr + 2 + len + 2) then none else some (hdr + 2 + len + 2)

-- one bulk at the front: how many bytes it takes
unfoldable pub bulk_length : Bytes → Option ℕ
bulk_length [] = none
bulk_length (c ∷ rest) =
    if c == b'$'
    then (elim (find_crlf (c ∷ rest)) [
      | none ↦ none
      | some hdr ↦ body_end hdr (c ∷ rest) (number max_len 0 (take (hdr - 1) rest))
    ])
    else none

-- The loop over the arguments; 0 where the request is not whole or not well formed.
unfoldable pub frame_args : ℕ → ℕ → Bytes → ℕ
frame_args zero pos rest = pos
frame_args (suc argc) pos rest = elim (bulk_length rest) [
  | none ↦ 0
  | some n ↦ frame_args argc (pos + n) (drop n rest)
]

abbrev pub with_argc : ℕ → Bytes → Option ℕ → ℕ
with_argc eol input none = 0
with_argc eol input (some argc) = frame_args argc (eol + 2) (drop (eol + 2) input)

unfoldable pub framed_length : Bytes → ℕ
framed_length [] = 0
framed_length (c ∷ rest) = elim (find_crlf (c ∷ rest)) [
  | none ↦ 0
  | some eol ↦
      if c == b'*'
      then with_argc eol (c ∷ rest) (number max_argc 0 (take (eol - 1) rest))
      else eol + 2
]

-- `needle` stands at the front of the text, whose letters are made capitals
abbrev begins_ci : Bytes → Bytes → Bool
begins_ci [] text = true
begins_ci (d ∷ needle) [] = false
begins_ci (d ∷ needle) (c ∷ text) = to_upper c == d && begins_ci needle text

unfoldable pub contains_ci : Bytes → Bytes → Bool
contains_ci [] needle = begins_ci needle []
contains_ci (c ∷ haystack) needle = begins_ci needle (c ∷ haystack) || contains_ci haystack needle

-- the answer to a request; the uptime is read from the system's clock
unfoldable pub answer : ℕ → Stats → Bytes → Buffer → Buffer
answer uptime stats request out =
    let info = to_info uptime stats in
    if contains_ci request (codes "COMMAND")
    then Buffer.append (codes "*0\r\n") out
    else if contains_ci request (codes "INFO")
    then (Buffer.append (codes "\r\n") (
        Buffer.append info
          (Buffer.append (codes "$" ++ (to_string (length info) ++ codes "\r\n")) out)))
    else Buffer.append (codes "+PONG\r\n") out

-- what is left of the input, the output, and the requests handled
pub record Answered : Type 0 where
  pub input : Buffer
  pub output : Buffer
  pub handled : ℕ

-- `none`: out of fuel.
unfoldable pub answer_all : ℕ → Stats → ℕ → Answered → Option Answered
answer_all uptime stats zero a = none
answer_all uptime stats (suc fuel) a =
    let n = framed_length (Buffer.readable a.input) in
    let more = answer_all uptime stats fuel (record {
      input = Buffer.consume n a.input;
      output = answer uptime stats (take n (Buffer.readable a.input)) a.output;
      handled = a.handled + 1;
    }) in
    if n == 0 then some a else more

unfoldable pub on_data : ℕ → Stats → Buffer → Buffer → Option Answered
on_data uptime stats input output =
    answer_all uptime stats (suc (length (Buffer.readable input)))
      (record { input = input; output = output; handled = 0 })
