-- ===== src/Examples/Wire.antt =====
-- The theorems on requests, buffers and the handler at concrete bytes.
use redis_plus.Prelude.{
  ℕ, ◌+◌, ◌≤◌, ◌<◌, ◌≡◌, refl, Bool, none, Option, some, List, [], ◌∷◌, ◌++◌, codes, length, arith,
}
use redis_plus.Resp.{ParseResult, parse_inline, parse_multibulk, parse_request}
use redis_plus.Resp.Find.{find_crlf}
use redis_plus.Glob.{glob_loop, rounds, glob_match}
use redis_plus.Glob.Fuel.{glob_match_total}
use redis_plus.Resp.Reply.{encode}
use redis_plus.Resp.RoundTrip.{IsSendable, parse_request-encode}
use redis_plus.Resp.Prefix.{parse_request-append}
use redis_plus.Buffer.{Buffer, readable}
use redis_plus.Buffer.Queue.{IsValid}
use redis_plus.Commands.Base.{Args, CommandResult, wrote}
use redis_plus.Handler.{Progress, on_data}
use redis_plus.Handler.Pipeline.{
  encode_all, AreSendable, after_all, replies, on_data_total, on_data_pipeline,
}
use redis_plus.Examples.Data.{get_k, set_k}

pub get_k-IsSendable : IsSendable get_k
get_k-IsSendable = record { few = omega arith; short = (omega arith, (omega arith, tt)) }

pub set_k-IsSendable : IsSendable set_k
set_k-IsSendable = record {
  few = omega arith;
  short = (omega arith, (omega arith, (omega arith, tt)));
}

parse_request-encode_example :
    parse_request (encode get_k ++ codes "*1") ≡ ParseResult.ok (length (encode get_k)) get_k
parse_request-encode_example = parse_request-encode get_k (codes "*1") get_k-IsSendable

ping_parses : parse_request (codes "PING\r\n") ≡ ParseResult.ok 6 (codes "PING" ∷ [])
unfolding parse_request parse_inline find_crlf
ping_parses = refl

pub started : parse_request (codes "*1") ≡ ParseResult.incomplete
unfolding parse_request find_crlf parse_multibulk
started = refl

parse_request-append_example :
    (parse_request (codes "PING\r\n" ++ codes "rest") ≡ ParseResult.ok 6 (codes "PING" ∷ []))
    × (6 ≤ length (codes "PING\r\n"))
    × (0 < 6)
parse_request-append_example =
    parse_request-append (codes "PING\r\n") (codes "rest") 6 (codes "PING" ∷ []) ping_parses

-- five bytes, two of them taken
abbrev five : Buffer
five = record { bytes = codes "ab*1\r"; read_pos = 2 }

five-IsValid : IsValid five
five-IsValid = record { within = omega arith }

-- each command is answered and counted
abbrev counted : Args → ℕ → CommandResult × ℕ
counted args n = (wrote (codes "+OK\r\n") args, n + 1)

abbrev hook : Option (Args → ℕ → ℕ)
hook = some (λ args n. n + 10)

on_data_total_example : (q : Progress ℕ) × (on_data counted hook five five 0 ≡ some q)
on_data_total_example = on_data_total counted hook five five 0 five-IsValid

abbrev pub two_requests : List Args
two_requests = get_k ∷ set_k ∷ []

pub two_requests-AreSendable : AreSendable two_requests
two_requests-AreSendable = ((get_k-IsSendable, λ e. cc), ((set_k-IsSendable, λ e. cc), tt))

abbrev arrived : Buffer
arrived = record { bytes = encode_all two_requests ++ codes "*1"; read_pos = 0 }

arrived-readable : readable arrived ≡ encode_all two_requests ++ codes "*1"
unfolding readable
arrived-readable = refl

on_data_pipeline_example :
    (q : Progress ℕ) × (on_data counted hook arrived five 0 ≡ some q)
    × (readable q.input ≡ codes "*1")
    × (readable q.output ≡ readable five ++ replies counted hook two_requests 0)
    × (q.world ≡ after_all counted hook two_requests 0)
    × (q.handled ≡ 2)
on_data_pipeline_example =
    on_data_pipeline counted hook two_requests (codes "*1") arrived five 0 two_requests-AreSendable
      started (record { within = omega arith }) five-IsValid arrived-readable

glob_match_total_example :
    (a : Bool) × (glob_loop (rounds (codes "a*b") (codes "axxb")) (codes "a*b") (codes "axxb") none
      ≡ some a)
    × (glob_match (codes "a*b") (codes "axxb") ≡ a)
glob_match_total_example = glob_match_total (codes "a*b") (codes "axxb")
