-- ===== src/Examples/Data.antt =====
-- The stores, the requests and the surroundings that the examples share.
use redis_plus.Prelude.{ℕ, ◌+◌, refl, false, none, some, [], ◌∷◌, Bytes, codes}
use redis_plus.Prelude.Int.{pos}
use redis_plus.Store
use redis_plus.Store.{Store, no_expiry}
use redis_plus.Store.Valid.{IsValid, empty-IsValid, set-IsValid}
use redis_plus.Stats.{Stats}
use redis_plus.Commands.Base.{Args}
use redis_plus.Commands.Ops.{PersistenceOps, ReplicationOps, World}

abbrev pub k : Bytes
k = codes "k"

abbrev pub old : Bytes
old = codes "old"

-- `k` lives until 9000, `old` died at 100, `stay` has no deadline, and it is 1000.
abbrev pub stored : Store
stored = Store.set (codes "stay") (codes "s") no_expiry (
    Store.set old (codes "x") (pos 100)
      (Store.set k (codes "v") (pos 9000) (Store.empty (pos 1000))))

pub stored-IsValid : IsValid stored
stored-IsValid =
    set-IsValid _
      (set-IsValid _ (set-IsValid _ (empty-IsValid (pos 1000) refl) k (codes "v") (pos 9000)) old
        (codes "x") (pos 100))
      (codes "stay") (codes "s") no_expiry

abbrev pub no_traffic : Stats
no_traffic = record {
  connections_received = 0;
  connections_active = 0;
  connections_peak = 0;
  connections_rejected = 0;
  commands_processed = 0;
  bytes_read = 0;
  bytes_written = 0;
  output_buffer_overflows = 0;
}

-- persistence that counts its calls
abbrev pub counting : PersistenceOps ℕ
counting = record {
  save_now = λ s p. (none, p + 1);
  background_save = λ s p. (none, p + 1);
  rewrite_aof = λ s p. (some (codes "AOF is disabled"), p);
  info_section = λ p. codes "rdb_enabled:1\r\n";
}

-- a master that counts its acknowledgements
abbrev pub acking : ReplicationOps ℕ
acking = record {
  start_full_resync = λ link s r. r + 1;
  on_replica_ack = λ link offset r. r + 1;
  set_replica_port = λ link port r. r;
  replicaof = λ host port r. (none, r);
  stop_replication = λ r. r;
  is_replica = λ r. false;
  info_section = λ r. codes "role:master\r\n";
}

abbrev pub world_of : Store → World ℕ ℕ
world_of s = record {
  store = s;
  persistence = some 0;
  replication = some 0;
  stats = no_traffic;
  uptime = 5;
}

abbrev pub get_k : Args
get_k = codes "GET" ∷ k ∷ []

abbrev pub set_k : Args
set_k = codes "SET" ∷ k ∷ codes "new" ∷ []
