-- ===== src/Replication/Stream/Chunks.antt =====
-- A stream of commands, cut anywhere.
use redis_plus.Prelude.{
  suc, ◌≡◌, ◌≢◌, refl, sym, ap, ◌∙◌, Bool, some, List, [], ◌∷◌, ◌++◌, append_assoc, append-nil,
  Bytes, length, arith,
}
use redis_plus.Prelude.Int.{ℤ}
use redis_plus.Resp.Prefix.{parse_request_bounds}
use redis_plus.Resp.Reply.{encode}
use redis_plus.Resp.RoundTrip.{parse_request-encode}
use redis_plus.Commands.Base.{Args}
use redis_plus.Handler.Pipeline.{encode_all, AreSendable}
use redis_plus.Replication.Master.Sent.{advance}
use redis_plus.Replication.Stream.{
  Streaming, send_ack, ReadResult, chunk, would_block, lost, goes_on, ack_if_due, read_some, turn,
  turns,
}
use redis_plus.Replication.Stream.Owed.{tasks_of, Owes, drain-Owes}

abbrev bytes_of : ReadResult → Bytes
bytes_of (chunk bytes) = bytes
bytes_of would_block = []
bytes_of (lost message) = []

-- what a list of reads brings
abbrev pub received : List (ℤ × ReadResult) → Bytes
received [] = []
received ((now, read) ∷ rest) = bytes_of read ++ received rest

-- No read finds the connection lost.
abbrev pub StaysUp : List (ℤ × ReadResult) → Type 0
StaysUp [] = Unit
StaysUp ((now, read) ∷ rest) = ((message : Bytes) → read ≢ lost message) × StaysUp rest

-- the two fields that a turn leaves alone after its requests, and the bytes that it adds
record Read (read : ReadResult) (u v : Streaming) : Type 0 where
  stream : v.stream ≡ u.stream ++ bytes_of read
  posted : v.posted ≡ u.posted
  offset : v.replica_offset ≡ u.replica_offset

Read-turn :
    (now : ℤ) (read : ReadResult) (u : Streaming)
    → ((message : Bytes) → read ≢ lost message)
    → (v : Streaming) × (read_some read (ack_if_due now u) ≡ goes_on v) × Read read u v
unfolding read_some ack_if_due send_ack
Read-turn now (chunk bytes) u up =
    (_, refl, record { stream = ground arith; posted = ground arith; offset = ground arith })
Read-turn now would_block u up = (
  _,
  refl,
  record {
    stream = ground (arith, append-nil u.stream);
    posted = ground arith;
    offset = ground arith;
  },
)
Read-turn now (lost message) u up = absurd (up message refl)

append_nil_left : (a b : Bytes) → a ++ b ≡ [] → a ≡ []
append_nil_left [] b e = refl
append_nil_left (x ∷ a) b e = cc

turn-Owes :
    (has_apply : Bool) (now : ℤ) (read : ReadResult) (more : Bytes) (commands : List Args)
    (t : Streaming)
    → ((message : Bytes) → read ≢ lost message)
    → AreSendable commands
    → t.stream ++ (bytes_of read ++ more) ≡ encode_all commands
    → (v : Streaming) × (turn has_apply now read t ≡ some (goes_on v))
      × Owes has_apply more commands t v
      × (bytes_of read ++ more ≡ [] → v.stream ≡ [])
unfolding turn
turn-Owes has_apply now read more commands t up sendable e =
    let (u, drained, o, last) =
      drain-Owes has_apply (suc (length t.stream)) t.stream (bytes_of read ++ more) commands t
        sendable e (omega arith) in
    let (v, reads, r) = Read-turn now read u up in
    (
      v,
      rw (drained, turn) (ap (λ k. some k) reads),
      record {
        rest = o.rest;
        sendable = o.sendable;
        bytes = ap (λ k. k ++ more) r.stream ∙ append_assoc u.stream (bytes_of read) more ∙ o.bytes;
        tasks = ap (λ k. k ++ tasks_of has_apply o.rest) r.posted ∙ o.tasks;
        offset = ap (λ (k : ℤ). advance k o.rest) r.offset ∙ o.offset;
      },
      λ no_more.
          r.stream
          ∙ ap (λ k. k ++ bytes_of read) (last no_more)
          ∙ append_nil_left (bytes_of read) more no_more,
    )

-- Turns that bring a part of the stream leave the rest of the commands to do.
turns-Owes :
    (has_apply : Bool) (reads : List (ℤ × ReadResult)) (commands : List Args) (t : Streaming)
    → StaysUp reads
    → AreSendable commands
    → t.stream ++ received reads ≡ encode_all commands
    → (v : Streaming) × (turns has_apply reads t ≡ some (goes_on v))
      × Owes has_apply [] commands t v
unfolding turns
turns-Owes has_apply [] commands t up sendable e = (
  t,
  refl,
  record { rest = commands; sendable = sendable; bytes = e; tasks = refl; offset = refl },
)
turns-Owes has_apply ((now, read) ∷ reads) commands t (up, ups) sendable e =
    let (u, turned, o, last) =
      turn-Owes has_apply now read (received reads) commands t up sendable e in
    let (v, done, p) = turns-Owes has_apply reads o.rest u ups o.sendable o.bytes in
    (
      v,
      rw (turned, turns) done,
      record {
        rest = p.rest;
        sendable = p.sendable;
        bytes = p.bytes;
        tasks = p.tasks ∙ o.tasks;
        offset = p.offset ∙ o.offset;
      },
    )

no_commands :
    (commands : List Args) → AreSendable commands → encode_all commands ≡ [] → commands ≡ []
unfolding encode_all
no_commands [] sendable e = refl
no_commands (c ∷ rest) ((small, ne), sendable) e =
    let read = parse_request-encode c (encode_all rest) small in
    let (le, lt) = parse_request_bounds (encode c ++ encode_all rest) (length (encode c)) c read in
    absurd (omega (arith, ap length e))

-- If the bytes in hand and those that the reads bring, the connection staying up, are commands
-- within the limits, then after the turns and one more that reads nothing the stream is empty,
-- each command that is for the store was posted, in order, and the offset has advanced by the
-- size of every command.
pub turns-encode_all :
    (has_apply : Bool) (reads : List (ℤ × ReadResult)) (now : ℤ) (commands : List Args)
    (t : Streaming)
    → StaysUp reads
    → AreSendable commands
    → t.stream ++ received reads ≡ encode_all commands
    → (u v : Streaming) × (turns has_apply reads t ≡ some (goes_on u))
      × (turn has_apply now would_block u ≡ some (goes_on v))
      × (v.stream ≡ [])
      × (v.posted ≡ t.posted ++ tasks_of has_apply commands)
      × (v.replica_offset ≡ advance t.replica_offset commands)
turns-encode_all has_apply reads now commands t up sendable e =
    let (u, turned, o) = turns-Owes has_apply reads commands t up sendable e in
    let (v, idle, p, last) =
      turn-Owes has_apply now would_block [] o.rest u (λ m k. cc k) o.sendable o.bytes in
    let drained = last refl in
    let nothing : p.rest ≡ [] = no_commands p.rest p.sendable (sym p.bytes ∙ rw drained refl) in
    (
      u,
      v,
      turned,
      idle,
      drained,
      sym (append-nil v.posted)
          ∙ ap (λ k. v.posted ++ tasks_of has_apply k) (sym nothing)
          ∙ p.tasks
          ∙ o.tasks,
      ap (λ k. advance v.replica_offset k) (sym nothing) ∙ p.offset ∙ o.offset,
    )
