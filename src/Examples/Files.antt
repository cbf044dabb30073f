-- ===== src/Examples/Files.antt =====
-- The theorems on the AOF and the RDB at concrete files.
use redis_plus.Prelude.{
  ℕ, ◌+◌, ◌<◌, ◌≡◌, refl, some, List, [], ◌∷◌, ◌++◌, Bytes, codes, length, arith, All,
}
use redis_plus.Prelude.Int.{pos, ◌≤ℤ◌, two_64}
use redis_plus.Dict.{insert, erase, find}
use redis_plus.Store
use redis_plus.Store.{Store, Record, no_expiry, snapshot, snapshot_of}
use redis_plus.Store.View.{view}
use redis_plus.Commands.Base.{Args}
use redis_plus.Commands.Ops.{World}
use redis_plus.Handler.Pipeline.{encode_all}
use redis_plus.Handler.Table.{apply_silently}
use redis_plus.Aof.{rewritten, replay, Replayed, done}
use redis_plus.Aof.Replay.{apply_all, replay_total, replay-encode_all}
use redis_plus.Aof.Restore.{IsSmall, replay-rewritten}
use redis_plus.Rdb.Write.{
  rdb_serialize, checked_part, preamble, put_records, put_record, put_expiry, put_string,
  put_length, put_le, with_expiry,
}
use redis_plus.Examples.Data.{k, stored, stored-IsValid, counting, acking, world_of}
use redis_plus.Examples.Wire.{two_requests, two_requests-AreSendable, started}

abbrev counted : Args → ℕ → ℕ
counted args n = n + 1

replay-encode_all_example :
    replay counted (some (encode_all two_requests ++ codes "*1")) 0
    ≡ some (done 2 2 (apply_all counted two_requests 0))
replay-encode_all_example =
    replay-encode_all counted two_requests (codes "*1") 0 two_requests-AreSendable started
      (omega arith)

replay_total_example :
    (r : Replayed ℕ) × (replay counted (some (codes "*1\r\n$4\r\nPING\r\nrest")) 0 ≡ some r)
replay_total_example = replay_total counted (some (codes "*1\r\n$4\r\nPING\r\nrest")) 0

abbrev pub two_records : List Record
two_records =
    record { key = k; value = codes "v"; expire_at = pos 9000 }
    ∷ record { key = codes "stay"; value = codes "s"; expire_at = no_expiry }
    ∷ []

pub short_file : length (rdb_serialize two_records) < two_64
unfolding rdb_serialize checked_part preamble put_records put_record put_expiry put_string
    put_length put_le with_expiry
short_file = omega arith

pub stored-snapshot : snapshot stored ≡ two_records
unfolding snapshot snapshot_of Store.set insert find erase
stored-snapshot = refl

pub stored_clock : stored.clock ≤ℤ pos 2000
unfolding Store.set
stored_clock = omega arith

-- each record of the snapshot is within the limits
stored-IsSmall : All IsSmall (snapshot stored)
stored-IsSmall = rw stored-snapshot (
  record {
    key_fits = omega arith;
    value_fits = omega arith;
    deadline_prints = record { top = omega arith; bottom = omega arith };
  },
  (
    record {
      key_fits = omega arith;
      value_fits = omega arith;
      deadline_prints = record { top = omega arith; bottom = omega arith };
    },
    tt,
  ),
)

replay-rewritten_example :
    (t : World ℕ ℕ) × (replay
        (apply_silently counting acking)
        (some (rewritten (snapshot stored)))
        (world_of (Store.empty (pos 2000)))
      ≡ some (done (length (snapshot stored)) 0 t))
    × ((j : Bytes) → view t.store j ≡ view (record stored { clock = pos 2000 }) j)
replay-rewritten_example =
    replay-rewritten counting acking stored (pos 2000) (world_of (Store.empty (pos 2000)))
      stored-IsValid stored_clock stored-IsSmall (rw stored-snapshot (omega arith)) refl
