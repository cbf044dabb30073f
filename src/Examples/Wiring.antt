-- ===== src/Examples/Wiring.antt =====
-- The theorems on the program's wiring and on the first handler, at small data.
use redis_plus.Prelude.{
  ℕ, ◌≡◌, ◌≢◌, refl, true, false, some, List, [], ◌∷◌, ◌++◌, codes, length, All,
}
use redis_plus.Prelude.Int.{pos}
use redis_plus.Resp.{ParseResult, parse_request}
use redis_plus.Resp.Reply.{encode}
use redis_plus.Aof.{every_sec}
use redis_plus.Persistence.{Persistence}
use redis_plus.Commands.Base.{Args}
use redis_plus.Commands.Ops.{World}
use redis_plus.Handler.Pipeline.{encode_all}
use redis_plus.Handler.PingPong.{framed_length}
use redis_plus.Handler.PingPong.Framing.{framed_length-encode}
use redis_plus.Replication.{Replica, Replication, unlinked, sent_to}
use redis_plus.Replication.Master.Sent.{advance}
use redis_plus.Program.{default_persistence}
use redis_plus.Program.Hook.{hook_all, hook_all-both}
use redis_plus.Examples.Data.{stored, no_traffic, get_k, set_k}
use redis_plus.Examples.Wire.{get_k-IsSendable}

framed_length-encode_example :
    (framed_length (encode get_k ++ codes "*1") ≡ length (encode get_k))
    × (parse_request (encode get_k ++ codes "*1")
        ≡ ParseResult.ok (framed_length (encode get_k ++ codes "*1")) get_k)
framed_length-encode_example = framed_length-encode get_k (codes "*1") get_k-IsSendable

abbrev logging : Persistence
logging = record {
  config = record default_persistence { aof_enabled = true };
  aof = record {
    file = some [];
    stdio = [];
    disk = [];
    path = codes "./appendonly.aof";
    policy = every_sec;
    buffer = [];
    last_fsync_ms = pos 0;
    commands_written = 0;
    fsyncs = 0;
    bytes_written = 0;
  };
  dirty = 0;
  last_save_ms = pos 0;
  last_save_attempt_ms = pos 0;
  saves_ok = 0;
  saves_failed = 0;
  last_error = [];
  saving = false;
  background_failed = false;
  joinable = false;
}

-- the clients 3 and 8 are replicas
abbrev replica_of : ℕ → Replica
replica_of link = record {
  link = link;
  info = record {
    address = codes "10.0.0.2:40";
    listening_port = 6380;
    ack_offset = pos 0;
    ack_time_ms = pos 0;
  };
}

abbrev two_replicas : Replication
two_replicas = record {
  attached = true;
  listening_port = 6379;
  replid = codes "8c2f";
  master_offset = pos 42;
  replicas = replica_of 3 ∷ replica_of 8 ∷ [];
  pending_ports = [];
  replica_of_host = [];
  replica_of_port = 0;
  running = false;
  link_stop = false;
  link_state = unlinked;
  replica_offset = pos 0;
  link_error = [];
  outbox = (3, codes "$2\r\n") ∷ [];
}

abbrev both : World Persistence Replication
both = record {
  store = stored;
  persistence = some logging;
  replication = some two_replicas;
  stats = no_traffic;
  uptime = 5;
}

abbrev two_writes : List Args
two_writes = set_k ∷ (codes "DEL" ∷ codes "old" ∷ []) ∷ []

two_writes_full : All (λ args. args ≢ []) two_writes
two_writes_full = (λ e. cc e, (λ e. cc e, tt))

hook_all-both_example :
    (q : Persistence) × (s : Replication) × ((hook_all two_writes both).persistence ≡ some q)
    × ((hook_all two_writes both).replication ≡ some s)
    × (q.aof.buffer ≡ encode_all two_writes)
    × (sent_to 3 s.outbox ≡ sent_to 3 two_replicas.outbox ++ encode_all two_writes)
    × (s.master_offset ≡ advance (pos 42) two_writes)
    × ((hook_all two_writes both).store ≡ stored)
hook_all-both_example =
    hook_all-both two_writes both logging two_replicas [] 3 two_writes_full refl refl refl refl refl
