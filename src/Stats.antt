-- ===== src/Stats.antt =====
-- `rp::Stats` (include/rp/stats.hpp, src/stats.cpp). The counters are relaxed atomics that nothing
-- synchronises on; every call here is one thread's.
use redis_plus.Prelude.{ℕ, ◌+◌, ◌-◌, ◌%◌, ◌++◌, Bytes, codes, ltb, if◌then◌else◌}
use redis_plus.Prelude.Int.{two_64}
use redis_plus.Decimal.{to_string}

pub record Stats : Type 0 where
  pub connections_received : ℕ
  pub connections_active : ℕ
  pub connections_peak : ℕ
  pub connections_rejected : ℕ
  pub commands_processed : ℕ
  pub bytes_read : ℕ
  pub bytes_written : ℕ
  pub output_buffer_overflows : ℕ

unfoldable pub on_connect : Stats → Stats
on_connect s =
    let now = (s.connections_active + 1) % two_64 in
    record s {
      connections_received = (s.connections_received + 1) % two_64;
      connections_active = now;
      connections_peak = if ltb s.connections_peak now then now else s.connections_peak;
    }

unfoldable pub on_disconnect : Stats → Stats
on_disconnect s = record s { connections_active = (s.connections_active + (two_64 - 1)) % two_64 }

abbrev pub line : Bytes → ℕ → Bytes
line name n = name ++ (to_string n ++ codes "\r\n")

-- The text of INFO; the uptime is read from the system's clock.
unfoldable pub to_info : ℕ → Stats → Bytes
to_info uptime s =
    codes "# Server\r\nredis_version:7.0.0-rp\r\n"
    ++ (line (codes "uptime_in_seconds:") uptime
        ++ (codes "\r\n# Clients\r\n"
            ++ (line (codes "connected_clients:") s.connections_active
                ++ (line (codes "peak_connected_clients:") s.connections_peak
                    ++ (line (codes "rejected_connections:") s.connections_rejected
                        ++ (codes "\r\n# Stats\r\n"
                            ++ (line (codes "total_connections_received:") s.connections_received
                                ++ (line (codes "total_commands_processed:") s.commands_processed
                                    ++ (line (codes "total_net_input_bytes:") s.bytes_read
                                        ++ (line (codes "total_net_output_bytes:") s.bytes_written
                                            ++ line (codes "client_output_buffer_overflows:")
                                                s.output_buffer_overflows))))))))))
