-- ===== src/Program.antt =====
-- src/main.cpp: its options, and how it wires the parts together. `std::stoi` and `std::stoll` are
-- parameters; `none` is that they throw, which nothing there catches.
pub mod Hook
use redis_plus.Prelude.{
  ℕ, suc, ◌+◌, ◌-◌, ◌%◌, Bool, true, false, ◌||◌, Option, none, some, List, [], ◌∷◌, Bytes, codes,
  beq, if◌then◌else◌,
}
use redis_plus.Prelude.Int.{ℤ, pos, negsuc}
use redis_plus.Aof.{FsyncPolicy, every_sec, parse_fsync_policy}
use redis_plus.Persistence
use redis_plus.Persistence.{PersistenceConfig, Persistence}
use redis_plus.Server.{ServerConfig, default_config}
use redis_plus.Store
use redis_plus.Store.{Store}
use redis_plus.Commands.Base.{Args}
use redis_plus.Commands.Ops.{World}
use redis_plus.Replication.{Replication}
use redis_plus.Replication.Master

pub data Backend : Type 0 where
  asio poll : Backend

pub record Options : Type 0 where
  pub cfg : ServerConfig
  pub persist_cfg : PersistenceConfig
  pub backend : Backend
  pub replicaof_host : Bytes
  pub replicaof_port : ℕ

abbrev pub default_persistence : PersistenceConfig
default_persistence = record {
  dir = codes ".";
  dbfilename = codes "dump.rdb";
  aof_filename = codes "appendonly.aof";
  rdb_enabled = true;
  aof_enabled = false;
  fsync_policy = every_sec;
  save_seconds = pos 300;
  save_changes = pos 100;
  aof_rewrite_threshold = 1000000;
}

abbrev pub default_options : Options
default_options = record {
  cfg = default_config;
  persist_cfg = default_persistence;
  backend = asio;
  replicaof_host = [];
  replicaof_port = 0;
}

-- `static_cast<std::uint16_t>`
abbrev pub as_u16 : ℤ → ℕ
as_u16 (pos n) = n % 65536
as_u16 (negsuc n) = 65535 - n % 65536

-- What an option does: it sets something, the usage is shown, or a number throws.
pub data Applied : Type 0 where
  sets : Options → Applied
  shows_usage throws : Applied

abbrev with_number : Option ℤ → (ℤ → Options) → Applied
with_number none f = throws
with_number (some n) f = sets (f n)

abbrev on_cfg : (ServerConfig → ServerConfig) → Options → Applied
on_cfg f o = sets (record o { cfg = f o.cfg })

abbrev on_persist : (PersistenceConfig → PersistenceConfig) → Options → Applied
on_persist f o = sets (record o { persist_cfg = f o.persist_cfg })

abbrev set_backend : Bytes → Options → Applied
set_backend name o =
    if beq name (codes "poll")
    then sets (record o { backend = poll })
    else if beq name (codes "asio")
    then sets (record o { backend = asio })
    else shows_usage

abbrev set_policy : FsyncPolicy × Bool → Options → Applied
set_policy (policy, true) o = on_persist (λ c. record c { fsync_policy = policy }) o
set_policy (policy, false) o = shows_usage

abbrev set_changes : Option ℤ → ℤ → Options → Applied
set_changes none seconds o = throws
set_changes (some changes) seconds o =
    on_persist (λ c. record c { save_seconds = seconds; save_changes = changes }) o

abbrev takes_two : Bytes → Bool
takes_two arg = beq arg (codes "--save") || beq arg (codes "--replicaof")

module _ (stoi stoll : Bytes → Option ℤ) where
  -- an option with one value
  unfoldable pub apply_one : Bytes → Bytes → Options → Applied
  apply_one arg a o =
      if beq arg (codes "--port")
      then (with_number (stoi a) (λ n. record o { cfg = record o.cfg { port = as_u16 n } }))
      else if beq arg (codes "--bind")
      then on_cfg (λ c. record c { bind_address = a }) o
      else if beq arg (codes "--backend")
      then set_backend a o
      else if beq arg (codes "--dir")
      then on_persist (λ c. record c { dir = a }) o
      else if beq arg (codes "--dbfilename")
      then on_persist (λ c. record c { dbfilename = a }) o
      else if beq arg (codes "--appendonly")
      then on_persist (λ c. record c { aof_enabled = beq a (codes "yes") }) o
      else if beq arg (codes "--appendfsync")
      then set_policy (parse_fsync_policy a) o
      else shows_usage

  -- `--save` and `--replicaof`; the first number is read before the second value is looked for
  unfoldable pub apply_two : Bytes → Bytes → Option Bytes → Options → Applied
  apply_two arg a second o =
      if beq arg (codes "--save")
      then (elim (stoi a) [
        | none ↦ throws
        | some seconds ↦ elim second [
          | none ↦ shows_usage
          | some b ↦ set_changes (stoll b) seconds o
        ]
      ])
      else elim second [
        | none ↦ shows_usage
        | some b ↦
            with_number (stoi b) (λ n. record o { replicaof_host = a; replicaof_port = as_u16 n })
      ]

  unfoldable pub parse_options : List Bytes → Options → Applied
  parse_options [] o = sets o
  parse_options (arg ∷ []) o = shows_usage
  parse_options (arg ∷ a ∷ []) o =
      if takes_two arg then apply_two arg a none o else apply_one arg a o
  parse_options (arg ∷ a ∷ b ∷ rest) o =
      if takes_two arg
      then (elim (apply_two arg a (some b) o) [
        | sets p ↦ parse_options rest p
        | shows_usage ↦ shows_usage
        | throws ↦ throws
      ])
      else elim (apply_one arg a o) [
        | sets p ↦ parse_options (b ∷ rest) p
        | shows_usage ↦ shows_usage
        | throws ↦ throws
      ]

-- `handler->set_propagate(...)`: one hook, two consumers
unfoldable pub hook : Args → World Persistence Replication → World Persistence Replication
hook args w = record w {
  persistence = elim w.persistence [ none ↦ none | some p ↦ some (Persistence.on_write args p) ];
  replication = elim w.replication [ none ↦ none | some r ↦ some (Master.propagate args r) ];
}
