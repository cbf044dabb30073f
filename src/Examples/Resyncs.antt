-- ===== src/Examples/Resyncs.antt =====
-- A replica's thread at a small stream.
use redis_plus.Prelude.{
  ℕ, ◌≡◌, ap, ◌∙◌, true, false, Option, none, some, List, [], ◌∷◌, ◌++◌, Bytes, codes, take, drop,
  take-append-drop, append-nil,
}
use redis_plus.Prelude.Int.{ℤ, pos}
use redis_plus.Decimal.{parse_int, scan_digits}
use redis_plus.Commands.Base.{Args}
use redis_plus.Handler.Pipeline.{encode_all, AreSendable}
use redis_plus.Replication.{Replication, unlinked, sent_to}
use redis_plus.Replication.Reader.{SyncReader}
use redis_plus.Replication.Master.{start_full_resync}
use redis_plus.Replication.Master.Sent.{propagate_all, advance}
use redis_plus.Replication.Stream.{
  Writer, Streaming, ReadResult, chunk, would_block, goes_on, turn, turns,
}
use redis_plus.Replication.Stream.Owed.{tasks_of}
use redis_plus.Replication.Stream.Chunks.{received, StaysUp, turns-encode_all}
use redis_plus.Replication.Lines.{greetings}
use redis_plus.Examples.Data.{stored, get_k, set_k}
use redis_plus.Examples.Wire.{get_k-IsSendable, set_k-IsSendable}

abbrev stream_of_two : List Args
stream_of_two = set_k ∷ get_k ∷ []

stream_of_two-AreSendable : AreSendable stream_of_two
stream_of_two-AreSendable = ((set_k-IsSendable, λ e. cc e), ((get_k-IsSendable, λ e. cc e), tt))

abbrev open_socket : Writer
open_socket = record { outcomes = true ∷ true ∷ true ∷ true ∷ []; sent = [] }

abbrev streaming : Streaming
streaming = record {
  stream = [];
  replica_offset = pos 7;
  posted = [];
  writer = open_socket;
  last_ack_ms = pos 0;
}

abbrev two_chunks : List (ℤ × ReadResult)
two_chunks =
    (pos 10, chunk (take 5 (encode_all stream_of_two)))
    ∷ (pos 20, would_block)
    ∷ (pos 30, chunk (drop 5 (encode_all stream_of_two)))
    ∷ []

two_chunks_stay_up : StaysUp two_chunks
two_chunks_stay_up = (λ m e. cc e, (λ m e. cc e, (λ m e. cc e, tt)))

two_chunks_whole : received two_chunks ≡ encode_all stream_of_two
two_chunks_whole =
    ap (λ a. take 5 (encode_all stream_of_two) ++ a)
      (append-nil (drop 5 (encode_all stream_of_two)))
    ∙ take-append-drop 5 (encode_all stream_of_two)

-- The first chunk ends in the middle of the first request.
turns-encode_all_example :
    (u v : Streaming) × (turns true two_chunks streaming ≡ some (goes_on u))
    × (turn true (pos 40) would_block u ≡ some (goes_on v))
    × (v.stream ≡ [])
    × (v.posted ≡ tasks_of true stream_of_two)
    × (v.replica_offset ≡ advance (pos 7) stream_of_two)
turns-encode_all_example =
    turns-encode_all true two_chunks (pos 40) stream_of_two streaming two_chunks_stay_up
      stream_of_two-AreSendable two_chunks_whole

abbrev pub master : Replication
master = record {
  attached = true;
  listening_port = 6379;
  replid = codes "8c2f";
  master_offset = pos 42;
  replicas = [];
  pending_ports = [];
  replica_of_host = [];
  replica_of_port = 0;
  running = false;
  link_stop = false;
  link_state = unlinked;
  replica_offset = pos 0;
  link_error = [];
  outbox = [];
}

or_zero : Option ℤ → ℤ
or_zero none = pos 0
or_zero (some a) = a

read_signed : Bytes → ℤ
read_signed text = or_zero (parse_int text)

or_none : Option ℕ → ℕ
or_none none = 0
or_none (some n) = n

read_unsigned : Bytes → ℕ
read_unsigned text = or_none (scan_digits 0 text)

-- the master after the resync of the client 3 and two writes
master_after : Replication
master_after =
    propagate_all stream_of_two
      (start_full_resync (codes "10.0.0.2:40") (pos 5) (some 3) stored master)

abbrev reader : SyncReader
reader = record { buffer = []; incoming = greetings ∷ sent_to 3 master_after.outbox ∷ [] }
