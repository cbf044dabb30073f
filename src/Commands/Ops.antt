-- ===== src/Commands/Ops.antt =====
-- The interfaces `PersistenceOps` and `ReplicationOps` of include/rp/commands.hpp, through which the
-- command table reaches what it does not own.
use redis_plus.Prelude.{ℕ, Bool, Option, Bytes}
use redis_plus.Prelude.Int.{ℤ}
use redis_plus.Stats.{Stats}
use redis_plus.Store.{Store}
use redis_plus.Commands.Base.{CommandResult, replied}

-- A connected client; `none` where the code passes a null link.
abbrev pub Link : Type 0
Link = Option ℕ

-- An operation that may fail answers with the error's text.
abbrev pub Failure : Type 0
Failure = Option Bytes

-- The operations take the store, whose snapshot they read.
pub record PersistenceOps (P : Type 0) : Type 0 where
  pub save_now : Store → P → Failure × P
  pub background_save : Store → P → Failure × P
  pub rewrite_aof : Store → P → Failure × P
  pub info_section : P → Bytes

pub record ReplicationOps (R : Type 0) : Type 0 where
  pub start_full_resync : Link → Store → R → R
  pub on_replica_ack : Link → ℤ → R → R
  pub set_replica_port : Link → ℕ → R → R
  pub replicaof : Bytes → ℕ → R → Failure × R
  pub stop_replication : R → R
  pub is_replica : R → Bool
  pub info_section : R → Bytes

-- What a command table reaches. `none` is a null pointer; `uptime` is read from the system's clock.
pub record World (P R : Type 0) : Type 0 where
  pub store : Store
  pub persistence : Option P
  pub replication : Option R
  pub stats : Stats
  pub uptime : ℕ

-- a command's result and everything after it
abbrev pub Dispatched : Type 0 → Type 0 → Type 0
Dispatched P R = CommandResult × World P R

module _ {P R : Type 0} where
  abbrev pub answer : Bytes → World P R → CommandResult × World P R
  answer text w = (replied text, w)
