-- ===== src/Replication/Handshake.antt =====
-- One round of the outer loop of `Replication::replica_thread`, up to the command stream. `strtoll`
-- and `strtoull` of the C library are parameters.
use redis_plus.Prelude.{
  ℕ, Bool, Option, none, some, List, [], ◌∷◌, ◌++◌, Bytes, codes, beq, ◌==◌, if◌then◌else◌, length,
  take,
}
use redis_plus.Prelude.Int.{ℤ, pos}
use redis_plus.Decimal.{to_string}
use redis_plus.Store.{Record}
use redis_plus.Rdb.Parse.{Parsed, rdb_parse}
use redis_plus.Commands.Base.{Args}
use redis_plus.Commands.Ops.{Failure}
use redis_plus.Replication.{LinkState, connecting, handshaking, syncing}
use redis_plus.Replication.Reader.{SyncReader, read_line, read_exact}
use redis_plus.Replication.Stream.{reset, Writer, send_command, Streaming}

-- How a round ends before the stream: the state of the link and the text for `record_error`; or the
-- offset, the records, and the reader with what comes behind them.
pub data Attempt : Type 0 where
  refused : LinkState → Bytes → Writer → Attempt
  synced : ℤ → List Record → SyncReader → Writer → Attempt

unfoldable pub expect_prefix : Bytes → Bytes → Bool
expect_prefix line prefix = beq (take (length prefix) line) prefix

-- a command, and the line of the answer, if it came
unfoldable pub ask : Args → SyncReader → Writer → Option (Bytes × SyncReader) × Writer
ask command reader w =
    let (ok, v) = send_command command w in (if ok then read_line reader else none, v)

-- the lambda `step`: the reader after an answer that begins as expected
abbrev expected : Bytes → Option (Bytes × SyncReader) → Option SyncReader
expected prefix none = none
expected prefix (some (line, reader)) = if expect_prefix line prefix then some reader else none

unfoldable pub step : Args → Bytes → SyncReader → Writer → Option SyncReader × Writer
step command prefix reader w = let (answer, v) = ask command reader w in (expected prefix answer, v)

-- The three steps of the handshake; each is taken only after the one before it.
abbrev then_step : Args → Bytes → Option SyncReader × Writer → Option SyncReader × Writer
then_step command prefix (none, w) = (none, w)
then_step command prefix (some reader, w) = step command prefix reader w

unfoldable pub handshake : ℕ → SyncReader → Writer → Option SyncReader × Writer
handshake port reader w =
    then_step (codes "REPLCONF" ∷ codes "capa" ∷ codes "psync2" ∷ []) (codes "+OK") (
      then_step (codes "REPLCONF" ∷ codes "listening-port" ∷ to_string port ∷ []) (codes "+OK")
        (step (codes "PING" ∷ []) (codes "+PONG") reader w))

-- what stands behind the last space, if there is one
unfoldable pub after_last_space : Bytes → Option Bytes
after_last_space [] = none
after_last_space (c ∷ line) = elim (after_last_space line) [
  | some text ↦ some text
  | none ↦ if c == b' ' then some line else none
]

abbrev dollar : Bytes → Option Bytes
dollar [] = none
dollar (c ∷ line) = if c == b'$' then some line else none

module _ (strtoll : Bytes → ℤ) (strtoull : Bytes → ℕ) where
  abbrev offset_of : Option Bytes → ℤ
  offset_of none = pos 0
  offset_of (some text) = strtoll text

  abbrev after_parse : ℤ → SyncReader → Writer → Parsed → Attempt
  after_parse offset reader w parse =
      if parse.success
      then synced offset parse.out reader w
      else refused syncing (codes "corrupt RDB from master: " ++ parse.error) w

  unfoldable pub load_payload : ℤ → Writer → Option (Bytes × SyncReader) → Option Attempt
  load_payload offset w none = some (refused syncing (codes "truncated RDB from master") w)
  load_payload offset w (some (payload, reader)) = elim (rdb_parse payload) [
    | none ↦ none
    | some parse ↦ some (after_parse offset reader w parse)
  ]

  unfoldable pub read_header : ℤ → Writer → Option (Bytes × SyncReader) → Option Attempt
  read_header offset w none = some (refused syncing (codes "bad RDB header from master") w)
  read_header offset w (some (line, reader)) = elim (dollar line) [
    | none ↦ some (refused syncing (codes "bad RDB header from master") w)
    | some size ↦ load_payload offset w (read_exact (strtoull size) reader)
  ]

  unfoldable pub after_psync : Option (Bytes × SyncReader) × Writer → Option Attempt
  after_psync (none, w) = some (refused handshaking (codes "master refused PSYNC") w)
  after_psync (some (line, reader), w) =
      if expect_prefix line (codes "+FULLRESYNC")
      then read_header (offset_of (after_last_space line)) w (read_line reader)
      else some (refused handshaking (codes "master refused PSYNC") w)

  unfoldable pub after_handshake : Option SyncReader × Writer → Option Attempt
  after_handshake (none, w) = some (refused handshaking (codes "handshake rejected by master") w)
  after_handshake (some reader, w) =
      after_psync (ask (codes "PSYNC" ∷ codes "?" ∷ codes "-1" ∷ []) reader w)

  -- `connect` is what the connection answers. `none`: the parse does not return.
  unfoldable pub attempt : ℕ → Failure → SyncReader → Writer → Option Attempt
  attempt port (some message) reader w =
      some (refused connecting (codes "cannot connect to master: " ++ message) w)
  attempt port none reader w = after_handshake (handshake port reader w)

-- The keyspace is replaced on the event loop, and the stream begins with what was read too far.
unfoldable pub begin_stream : ℤ → ℤ → List Record → Bytes → Writer → Streaming
begin_stream now offset records leftover w = record {
  stream = leftover;
  replica_offset = offset;
  posted = reset records ∷ [];
  writer = w;
  last_ack_ms = now;
}
