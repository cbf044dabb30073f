-- ===== src/Replication.antt =====
-- `rp::Replication` (include/rp/replication.hpp, src/replication.cpp): the state of both sides. What
-- the code hands to `link->send` stands in `outbox`, in order; the link's own state is in `Session`.
pub mod Master
pub mod Stream
pub mod Reader
pub mod Handshake
pub mod Lines
pub mod Resync
pub mod Catchup
pub mod Tasks
use redis_plus.Prelude.{ℕ, Bool, List, [], ◌∷◌, ◌++◌, Bytes, ◌==◌, if◌then◌else◌, codes}
use redis_plus.Prelude.Int.{ℤ}

pub record ReplicaInfo : Type 0 where
  pub address : Bytes
  pub listening_port : ℕ
  pub ack_offset : ℤ
  pub ack_time_ms : ℤ

-- A client is the number of its connection.
pub record Replica : Type 0 where
  pub link : ℕ
  pub info : ReplicaInfo

pub data LinkState : Type 0 where
  unlinked connecting handshaking syncing connected : LinkState

unfoldable pub link_state_name : LinkState → Bytes
link_state_name connecting = codes "connect"
link_state_name handshaking = codes "handshake"
link_state_name syncing = codes "sync"
link_state_name connected = codes "up"
link_state_name unlinked = codes "down"

-- Bytes for a client, in the order in which they were handed over.
abbrev pub Outbox : Type 0
Outbox = List (ℕ × Bytes)

-- what the client `link` was sent
abbrev pub sent_to : ℕ → Outbox → Bytes
sent_to link [] = []
sent_to link ((to, bytes) ∷ rest) =
    let more = sent_to link rest in if to == link then bytes ++ more else more

-- `attached` is `server_ != nullptr`, and `running` is `link_thread_.joinable()`.
pub record Replication : Type 0 where
  pub attached : Bool
  pub listening_port : ℕ
  pub replid : Bytes
  pub master_offset : ℤ
  pub replicas : List Replica
  pub pending_ports : List (ℕ × ℕ)
  pub replica_of_host : Bytes
  pub replica_of_port : ℕ
  pub running : Bool
  pub link_stop : Bool
  pub link_state : LinkState
  pub replica_offset : ℤ
  pub link_error : Bytes
  pub outbox : Outbox
