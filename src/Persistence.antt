-- ===== src/Persistence.antt =====
-- `rp::Persistence` (include/rp/persistence.hpp, src/persistence.cpp): the log, the snapshots and the
-- schedule of both. The clock's readings, the store's snapshot and what the file system answers are
-- arguments; the thread of a background save is the step `finish_background`.
pub mod Saves
pub mod Background
pub mod Load
use redis_plus.Prelude.{
  ℕ, ◌/◌, Bool, true, false, not, ◌&&◌, none, some, List, [], ◌∷◌, ◌++◌, Bytes, codes, ltb, leb,
  ◌==◌, if◌then◌else◌, Option, suc,
}
use redis_plus.Prelude.Int.{ℤ, pos, negsuc, leb_ℤ, ltb_ℤ, neg, ◌-ℤ◌, times_1000, to_u64}
use redis_plus.Decimal.{int_to_string}
use redis_plus.Stats.{line}
use redis_plus.Store.{Record, bump}
use redis_plus.Commands.Base.{Args}
use redis_plus.Commands.Ops.{Failure}
use redis_plus.Aof
use redis_plus.Aof.{FsyncPolicy, fsync_policy_name}

pub record PersistenceConfig : Type 0 where
  pub dir : Bytes
  pub dbfilename : Bytes
  pub aof_filename : Bytes
  pub rdb_enabled : Bool
  pub aof_enabled : Bool
  pub fsync_policy : FsyncPolicy
  pub save_seconds : ℤ
  pub save_changes : ℤ
  pub aof_rewrite_threshold : ℕ

abbrev pub rdb_path : PersistenceConfig → Bytes
rdb_path c = c.dir ++ (codes "/" ++ c.dbfilename)

abbrev pub aof_path : PersistenceConfig → Bytes
aof_path c = c.dir ++ (codes "/" ++ c.aof_filename)

-- `joinable` is `saver_.joinable()`.
pub record Persistence : Type 0 where
  pub config : PersistenceConfig
  pub aof : Aof.Aof
  pub dirty : ℕ
  pub last_save_ms : ℤ
  pub last_save_attempt_ms : ℤ
  pub saves_ok : ℕ
  pub saves_failed : ℕ
  pub last_error : Bytes
  pub saving : Bool
  pub background_failed : Bool
  pub joinable : Bool

unfoldable pub on_write : Args → Persistence → Persistence
on_write args p =
    let counted = record p { dirty = bump p.dirty 1 } in
    if p.config.aof_enabled then record counted { aof = Aof.append args p.aof } else counted

abbrev rdb_disabled : Bytes
rdb_disabled = codes "RDB snapshots are disabled"

-- `outcome` is what `write_snapshot` answers.
abbrev after_save : Failure → ℤ → Persistence → Failure × Persistence
after_save (some error) later p =
    (some error, record p { saves_failed = bump p.saves_failed 1; last_error = error })
after_save none later p =
    (none, record p { saves_ok = bump p.saves_ok 1; dirty = 0; last_save_ms = later })

-- `now` and `later` are the two readings of the clock.
unfoldable pub save : ℤ → ℤ → Failure → Persistence → Failure × Persistence
save now later outcome p =
    if p.config.rdb_enabled
    then after_save outcome later (record p { last_save_attempt_ms = now })
    else (some rdb_disabled, p)

-- A thread that is still joinable is joined first; it has ended, as `saving` says.
unfoldable pub background_save : ℤ → Persistence → Failure × Persistence
background_save now p =
    if not p.config.rdb_enabled
    then (some rdb_disabled, p)
    else if p.saving
    then (some (codes "Background save already in progress"), p)
    else (
      none,
      record p {
        saving = true;
        background_failed = false;
        dirty = 0;
        last_save_attempt_ms = now;
        joinable = true;
      },
    )

-- the end of the thread: whether `write_snapshot` succeeded
unfoldable pub finish_background : Bool → Persistence → Persistence
finish_background ok p = record p {
  background_failed = if ok then p.background_failed else true;
  saving = false;
}

-- What the file system answers to a rewrite, and the text that a failed one reports.
pub record RewriteOutcome : Type 0 where
  pub written : Bool
  pub renamed : Bool
  pub reopened : Option Bytes
  pub error : Bytes

abbrev after_rewrite : Bytes → Persistence → Bool × Aof.Aof → Failure × Persistence
after_rewrite error p (true, a) = (none, record p { aof = a })
after_rewrite error p (false, a) = (some error, record p { aof = a })

unfoldable pub rewrite_aof : List Record → RewriteOutcome → Persistence → Failure × Persistence
rewrite_aof records o p =
    if p.config.aof_enabled
    then after_rewrite o.error p
        (Aof.rewrite (aof_path p.config) records o.written o.renamed o.reopened p.aof)
    else (some (codes "AOF is disabled"), p)

-- `if (!...) last_error_ = error`
abbrev noted : Failure × Persistence → Persistence
noted (none, p) = p
noted (some error, p) = record p { last_error = error }

-- `written` is what `fwrite` does with the buffer; `short` is the text of a short write.
abbrev after_flush : Bytes → Persistence → Bool × Aof.Aof → Persistence
after_flush short p (true, a) = record p { aof = a }
after_flush short p (false, a) = record p { aof = a; last_error = short }

unfoldable pub cron_aof :
    ℤ → Aof.Fwrite → Bytes → List Record → RewriteOutcome → Persistence → Persistence
cron_aof now written short records o p =
    if p.config.aof_enabled
    then (let flushed = after_flush short p (Aof.flush now written p.aof) in
        if ltb 0 p.config.aof_rewrite_threshold
          && ltb p.config.aof_rewrite_threshold flushed.aof.commands_written
        then noted (rewrite_aof records o flushed)
        else flushed)
    else p

-- Reap a background save that has ended.
unfoldable pub cron_reap : ℤ → Persistence → Persistence
cron_reap now p =
    if not p.saving && p.joinable
    then if p.background_failed
      then record p {
        joinable = false;
        saves_failed = bump p.saves_failed 1;
        last_error = codes "background save failed";
      }
      else record p { joinable = false; saves_ok = bump p.saves_ok 1; last_save_ms = now }
    else p

-- Start a scheduled save at `started`; its error is dropped.
unfoldable pub cron_schedule : ℤ → ℤ → Persistence → Persistence
cron_schedule now started p =
    let c = p.config in
    if c.rdb_enabled
      && (ltb_ℤ (pos 0) c.save_seconds
          && (ltb_ℤ (pos 0) c.save_changes
              && (not p.saving
                  && (leb (to_u64 c.save_changes) p.dirty
                      && leb_ℤ (times_1000 c.save_seconds) (now -ℤ p.last_save_ms)))))
    then (background_save started p).1
    else p

unfoldable pub cron :
    ℤ → ℤ → Aof.Fwrite → Bytes → List Record → RewriteOutcome → Persistence → Persistence
cron now started written short records o p =
    cron_schedule now started (cron_reap now (cron_aof now written short records o p))

abbrev flag : Bool → Bytes
flag b = if b then codes "1" else codes "0"

-- `ms / 1000`, rounding towards zero
abbrev whole_seconds : ℤ → ℤ
whole_seconds (pos ms) = pos (ms / 1000)
whole_seconds (negsuc ms) = neg (pos (suc ms / 1000))

abbrev text_line : Bytes → Bytes → Bytes
text_line name text = name ++ (text ++ codes "\r\n")

abbrev message_line : Bytes → Bytes
message_line [] = []
message_line (c ∷ message) = text_line (codes "last_persistence_message:") (c ∷ message)

unfoldable pub info_section : Persistence → Bytes
info_section p =
    text_line (codes "loading:") (codes "0")
    ++ (text_line (codes "rdb_enabled:") (flag p.config.rdb_enabled)
        ++ (line (codes "rdb_changes_since_last_save:") p.dirty
            ++ (text_line (codes "rdb_bgsave_in_progress:") (flag p.saving)
                ++ (text_line (codes "rdb_last_save_time:")
                      (int_to_string (whole_seconds p.last_save_ms))
                    ++ (line (codes "rdb_saves_ok:") p.saves_ok
                        ++ (line (codes "rdb_saves_failed:") p.saves_failed
                            ++ (text_line (codes "aof_enabled:") (flag p.config.aof_enabled)
                                ++ (text_line (codes "aof_fsync_policy:")
                                      (fsync_policy_name p.config.fsync_policy)
                                    ++ (line (codes "aof_commands_written:") p.aof.commands_written
                                        ++ (line (codes "aof_bytes_written:") p.aof.bytes_written
                                            ++ (line (codes "aof_fsyncs:") p.aof.fsyncs
                                                ++ message_line p.last_error)))))))))))
