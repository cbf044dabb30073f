-- ===== src/Examples/Saving.antt =====
-- The theorems on persistence at a concrete configuration.
use redis_plus.Prelude.{
  ℕ, ◌+◌, ◌<◌, ◌≡◌, List, ◌∷◌, ◌++◌, refl, true, false, none, some, [], Bytes, codes, length, arith,
  if◌then◌else◌,
}
use redis_plus.Prelude.Int.{pos, ◌-ℤ◌, of_u64, to_u64, two_64}
use redis_plus.Decimal.{to_string}
use redis_plus.Resp.Reply.{encode, array_header, bulks, bulk}
use redis_plus.Store
use redis_plus.Store.{Store, Record, bump, no_expiry}
use redis_plus.Commands.Base.{Args}
use redis_plus.Aof.{
  Aof, Fwrite, FsyncPolicy, append, flush, write_buffer, write_out, sync_if_due, replay, done,
}
use redis_plus.Aof.Replay.{apply_all}
use redis_plus.Handler.Pipeline.{encode_all, AreSendable}
use redis_plus.Aof.Flush.{append_all, reaches_file, syncs}
use redis_plus.Aof.Durable.{Turn, turn, turns, commands_of, replay-flush}
use redis_plus.Persistence.{
  Persistence, PersistenceConfig, background_save, finish_background, cron_reap, cron,
  RewriteOutcome,
}
use redis_plus.Persistence.Saves.{on_writes, save_due}
use redis_plus.Persistence.Background.{background_save_counted, background_save_forgets}
use redis_plus.Examples.Wire.{two_requests, two_requests-AreSendable}

abbrev counted : Args → ℕ → ℕ
counted args n = n + 1

abbrev opened_log : Aof
opened_log = record {
  file = some [];
  stdio = [];
  disk = [];
  path = codes "appendonly.aof";
  policy = FsyncPolicy.every_sec;
  buffer = [];
  last_fsync_ms = pos 0;
  commands_written = 0;
  fsyncs = 0;
  bytes_written = 0;
}

-- The first flush comes too soon, and the C library keeps all but three bytes.
abbrev too_soon : List Turn
too_soon = record { commands = two_requests; now = pos 400; through = 3 } ∷ []

abbrev in_time : Turn
in_time = record { commands = two_requests; now = pos 1000; through = 0 }

in_time_reaches :
    reaches_file opened_log.policy in_time.now (turns too_soon opened_log).last_fsync_ms ≡ true
unfolding reaches_file turns turn append_all append flush write_buffer write_out sync_if_due ◌-ℤ◌
    of_u64 to_u64 encode array_header to_string bulks bulk
in_time_reaches = refl

four_requests-AreSendable : AreSendable (commands_of too_soon ++ in_time.commands)
unfolding commands_of
four_requests-AreSendable =
    let (first, rest) = two_requests-AreSendable in (first, (rest.0, (first, rest)))

four_requests-short : length (commands_of too_soon ++ in_time.commands) < two_64
unfolding commands_of
four_requests-short = omega arith

replay-flush_example :
    let all = commands_of too_soon ++ in_time.commands in
    (held : Bytes) × ((turns too_soon opened_log).file ≡ some held)
    × (held ++ ((turns too_soon opened_log).stdio ++ (turns too_soon opened_log).buffer)
        ≡ encode_all (commands_of too_soon))
    × (c : Aof) × (turn in_time (turns too_soon opened_log) ≡ (true, c))
    × (replay counted c.file 0 ≡ some (done (length all) 0 (apply_all counted all 0)))
    × (c.disk ≡ (if syncs opened_log.policy then encode_all all else opened_log.disk))
replay-flush_example =
    replay-flush counted too_soon in_time opened_log 0 four_requests-AreSendable four_requests-short
      refl refl refl in_time_reaches

abbrev config : PersistenceConfig
config = record {
  dir = codes ".";
  dbfilename = codes "dump.rdb";
  aof_filename = codes "appendonly.aof";
  rdb_enabled = true;
  aof_enabled = false;
  fsync_policy = FsyncPolicy.every_sec;
  save_seconds = pos 300;
  save_changes = pos 100;
  aof_rewrite_threshold = 1000000;
}

abbrev idle : Persistence
idle = record {
  config = config;
  aof = opened_log;
  dirty = 7;
  last_save_ms = pos 1000;
  last_save_attempt_ms = pos 1000;
  saves_ok = 2;
  saves_failed = 0;
  last_error = [];
  saving = false;
  background_failed = false;
  joinable = false;
}

idle_starts : (background_save (pos 2000) idle).0 ≡ none
unfolding background_save
idle_starts = refl

-- a save that fails, with two writes meanwhile and a log that is off
abbrev no_write : Fwrite
no_write = record { taken = 0; through = 0 }

abbrev no_rewrite : RewriteOutcome
no_rewrite = record { written = true; renamed = true; reopened = none; error = [] }

background_save_counted_example :
    (t : Persistence) × (t
      ≡ cron
          (pos 2500)
          (pos 2501)
          no_write
          []
          []
          no_rewrite
          (finish_background false (on_writes two_requests (background_save (pos 2000) idle).1)))
    × (t.saves_ok ≡ idle.saves_ok)
    × (t.saves_failed ≡ bump idle.saves_failed 1)
    × (t.last_save_ms ≡ idle.last_save_ms)
    × (t.saving ≡ save_due idle.config (length two_requests) (pos 2500) t.last_save_ms)
    × (t.joinable ≡ t.saving)
background_save_counted_example =
    background_save_counted (pos 2000) (pos 2500) (pos 2501) no_write [] [] no_rewrite false
      two_requests idle idle_starts (omega arith)

background_save_forgets_example :
    (t : Persistence) × (t ≡ finish_background false (background_save (pos 2000) idle).1)
    × ((background_save (pos 2100) t).0 ≡ none)
    × ((cron_reap (pos 2500) (finish_background true (background_save (pos 2100) t).1)).saves_failed
        ≡ 0)
    × ((cron_reap (pos 2500) (finish_background true (background_save (pos 2100) t).1)).last_error
        ≡ [])
background_save_forgets_example =
    background_save_forgets (pos 2000) (pos 2100) (pos 2500) idle idle_starts
