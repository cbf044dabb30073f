-- ===== src/Replication/Stream.antt =====
-- The command stream of `Replication::replica_thread`: what the thread does between two readings of
-- `link_stop_`, once the snapshot is loaded. A task is what `server_->post` is given.
pub mod Owed
pub mod Chunks
use redis_plus.Prelude.{
  ℕ, zero, suc, ◌+◌, Bool, true, false, ◌&&◌, Option, none, some, List, [], ◌∷◌, ◌++◌, Bytes, codes,
  beq, if◌then◌else◌, length, drop,
}
use redis_plus.Prelude.Int.{ℤ, pos, ◌+ℤ◌, ◌-ℤ◌, leb_ℤ}
use redis_plus.Decimal.{int_to_string}
use redis_plus.Resp.{ParseResult, parse_request}
use redis_plus.Resp.Reply.{encode}
use redis_plus.Store.{Record}
use redis_plus.Commands.Base.{Args, upper}

pub data Task : Type 0 where
  reset : List Record → Task
  apply : Args → Task

-- What the socket has still to answer to writes, and what it was given; on a failed write, nothing.
pub record Writer : Type 0 where
  pub outcomes : List Bool
  pub sent : Bytes

-- `send_command`: with no outcome left the connection is gone.
unfoldable pub send_command : Args → Writer → Bool × Writer
send_command args w = elim w.outcomes [
  | [] ↦ (false, w)
  | ok ∷ rest ↦
      (ok, record w { outcomes = rest; sent = if ok then w.sent ++ encode args else w.sent })
]

pub record Streaming : Type 0 where
  pub stream : Bytes
  pub replica_offset : ℤ
  pub posted : List Task
  pub writer : Writer
  pub last_ack_ms : ℤ

abbrev ack_args : ℤ → Args
ack_args offset = codes "REPLCONF" ∷ codes "ACK" ∷ int_to_string offset ∷ []

unfoldable pub send_ack : Streaming → Streaming
send_ack t = record t { writer = (send_command (ack_args t.replica_offset) t.writer).1 }

abbrev pub two_or_more : Args → Bool
two_or_more (a ∷ b ∷ rest) = true
two_or_more _ = false

-- What a command of the stream is for the replica's own store; `has_apply` is `apply_`, if it is set.
unfoldable pub is_applied : Bool → Args → Bool
is_applied has_apply [] = false
is_applied has_apply (name ∷ rest) =
    if beq (upper name) (codes "REPLCONF") && two_or_more (name ∷ rest)
    then false
    else if beq (upper name) (codes "PING")
    then false
    else has_apply

abbrev is_getack : Args → Bool
is_getack [] = false
is_getack (name ∷ rest) = beq (upper name) (codes "REPLCONF") && two_or_more (name ∷ rest)

-- one request of `n` bytes
unfoldable pub on_request : Bool → ℕ → Args → Streaming → Streaming
on_request has_apply n args t =
    let moved = record t { replica_offset = t.replica_offset +ℤ pos n } in
    if is_getack args
    then send_ack moved
    else if is_applied has_apply args
    then record moved { posted = t.posted ++ (apply args ∷ []) }
    else moved

-- The loop over the requests that are whole. `none`: out of fuel.
unfoldable pub drain : Bool → ℕ → Bytes → Streaming → Option Streaming
drain has_apply zero remaining t = none
drain has_apply (suc fuel) remaining t = elim (parse_request remaining) [
  | ParseResult.incomplete ↦ some (record t { stream = remaining })
  | ParseResult.error message ↦ some (record t { stream = remaining })
  | ParseResult.ok n args ↦ drain has_apply fuel (drop n remaining) (on_request has_apply n args t)
]

-- What a non-blocking read answers.
pub data ReadResult : Type 0 where
  chunk : Bytes → ReadResult
  would_block : ReadResult
  lost : Bytes → ReadResult

-- The end of a turn: the loop goes on, or breaks with the text for `record_error`.
pub data Turned : Type 0 where
  goes_on : Streaming → Turned
  breaks : Bytes → Streaming → Turned

unfoldable pub ack_if_due : ℤ → Streaming → Streaming
ack_if_due now t =
    if leb_ℤ (pos 1000) (now -ℤ t.last_ack_ms) then record (send_ack t) { last_ack_ms = now } else t

unfoldable pub read_some : ReadResult → Streaming → Turned
read_some (chunk bytes) t = goes_on (record t { stream = t.stream ++ bytes })
read_some would_block t = goes_on t
read_some (lost message) t = breaks (codes "lost connection to master: " ++ message) t

-- one turn of the loop, at the time `now`
unfoldable pub turn : Bool → ℤ → ReadResult → Streaming → Option Turned
turn has_apply now read t = elim (drain has_apply (suc (length t.stream)) t.stream t) [
  | none ↦ none
  | some u ↦ some (read_some read (ack_if_due now u))
]

-- turns until the connection is lost or the thread is told to stop
unfoldable pub turns : Bool → List (ℤ × ReadResult) → Streaming → Option Turned
turns has_apply [] t = some (goes_on t)
turns has_apply ((now, read) ∷ rest) t = elim (turn has_apply now read t) [
  | none ↦ none
  | some (breaks message u) ↦ some (breaks message u)
  | some (goes_on u) ↦ turns has_apply rest u
]
