-- ===== src/Server.antt =====
-- The connection layer: `rp::ServerConfig` (include/rp/server.hpp), and the two back ends.
pub mod Session
pub mod Poll
use redis_plus.Prelude.{ℕ, ◌*◌, Bool, true, Bytes, codes}
use redis_plus.Stats.{Stats}

pub record ServerConfig : Type 0 where
  pub bind_address : Bytes
  pub port : ℕ
  pub backlog : ℕ
  pub max_output_buffer : ℕ
  pub read_chunk : ℕ
  pub tcp_nodelay : Bool
  pub cron_interval_ms : ℕ

abbrev pub default_config : ServerConfig
default_config = record {
  bind_address = codes "0.0.0.0";
  port = 6379;
  backlog = 511;
  max_output_buffer = 64 * 1024 * 1024;
  read_chunk = 16 * 1024;
  tcp_nodelay = true;
  cron_interval_ms = 100;
}
