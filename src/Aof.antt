-- ===== src/Aof.antt =====
-- `rp::Aof` (include/rp/aof.hpp, src/aof.cpp). What the operating system does is an argument: whether
-- a file could be opened or renamed, and what `fwrite` did. The bytes of the log are in three places:
-- `buffer` is the program's, `stdio` is what `fwrite` took and the C library still holds, and `file`
-- is what the operating system was handed, which is what a later `fopen` reads.
pub mod Replay
pub mod Restore
pub mod Flush
pub mod Durable
use redis_plus.Prelude.{
  ℕ, zero, suc, ◌+◌, ◌-◌, ◌%◌, Bool, true, false, Option, none, some, List, [], ◌∷◌, ◌++◌, Bytes,
  codes, beq, ltb, leb, ◌==◌, if◌then◌else◌, length, take, drop,
}
use redis_plus.Prelude.Int.{ℤ, pos, leb_ℤ, ◌-ℤ◌, eq_ℤ}
use redis_plus.Decimal.{to_string, int_to_string}
use redis_plus.Resp.{ParseResult, parse_request}
use redis_plus.Resp.Reply.{encode}
use redis_plus.Store.{Record, no_expiry, bump}
use redis_plus.Commands.Base.{Args}

pub data FsyncPolicy : Type 0 where
  always every_sec never : FsyncPolicy

-- the policy, and whether the name is known
unfoldable pub parse_fsync_policy : Bytes → FsyncPolicy × Bool
parse_fsync_policy name =
    if beq name (codes "always")
    then (always, true)
    else if beq name (codes "everysec")
    then (every_sec, true)
    else if beq name (codes "no")
    then (never, true)
    else (every_sec, false)

unfoldable pub fsync_policy_name : FsyncPolicy → Bytes
fsync_policy_name always = codes "always"
fsync_policy_name never = codes "no"
fsync_policy_name every_sec = codes "everysec"

-- `file` and `stdio` are the parts of `file_`; `disk` is what the file held at its last `fsync` since
-- it was opened.
pub record Aof : Type 0 where
  pub file : Option Bytes
  pub stdio : Bytes
  pub disk : Bytes
  pub path : Bytes
  pub policy : FsyncPolicy
  pub buffer : Bytes
  pub last_fsync_ms : ℤ
  pub commands_written : ℕ
  pub fsyncs : ℕ
  pub bytes_written : ℕ

-- `is_open()`
abbrev pub is_open : Aof → Bool
is_open a = elim a.file [ none ↦ false | some f ↦ true ]

-- What `fwrite` does with the buffer, and the C library's own buffer then: how many bytes it takes, and
-- how many of those that wait it hands to the operating system by itself, as when they are too many.
pub record Fwrite : Type 0 where
  pub taken : ℕ
  pub through : ℕ

unfoldable pub fwrite : Fwrite → Aof → Aof
fwrite o a = elim a.file [
  | none ↦ a
  | some f ↦
      let waiting = a.stdio ++ take o.taken a.buffer in
      record a { file = some (f ++ take o.through waiting); stdio = drop o.through waiting }
]

-- The code does not look at the answers of `fflush` and `fsync`, and they are taken to succeed.
unfoldable pub fflush : Aof → Aof
fflush a = elim a.file [ none ↦ a | some f ↦ record a { file = some (f ++ a.stdio); stdio = [] } ]

unfoldable pub fsync_handle : Aof → Aof
unfolding fflush
fsync_handle a = elim a.file [ none ↦ a | some f ↦ record (fflush a) { disk = f ++ a.stdio } ]

-- The second part of the result is the closed file, as it stands then. The code does not look at what
-- `fwrite` took here, and it is taken to be all.
unfoldable pub close : Aof → Aof × Option Bytes
unfolding fwrite fsync_handle
close a = elim a.file [
  | none ↦ (a, none)
  | some f ↦
      let closed = fsync_handle (fwrite (record { taken = length a.buffer; through = 0 }) a) in
      (record closed { file = none; buffer = [] }, closed.file)
]

-- `opened` is what the file at `path` holds, if it could be opened for appending.
unfoldable pub open_file : Bytes → FsyncPolicy → Option Bytes → Aof → Bool × Aof
open_file path policy opened a = elim opened [
  | none ↦ (false, record (close a).0 { file = none })
  | some held ↦ (
    true,
    record (close a).0 { file = some held; disk = []; path = path; policy = policy; buffer = [] },
  )
]

unfoldable pub append : Args → Aof → Aof
append [] a = a
append (arg ∷ args) a = elim a.file [
  | none ↦ a
  | some f ↦ record a {
    buffer = a.buffer ++ encode (arg ∷ args);
    commands_written = bump a.commands_written 1;
  }
]

abbrev synced : ℤ → Aof → Aof
synced now a =
    let out = fsync_handle a in record out { fsyncs = bump out.fsyncs 1; last_fsync_ms = now }

-- the `switch` on the policy
unfoldable pub sync_if_due : FsyncPolicy → ℤ → Aof → Aof
unfolding fsync_handle fflush
sync_if_due always now a = synced now a
sync_if_due every_sec now a = if leb_ℤ (pos 1000) (now -ℤ a.last_fsync_ms) then synced now a else a
sync_if_due never now a = fflush a

unfoldable pub write_out : Fwrite → Aof → Bool × Aof
unfolding fwrite
write_out o a =
    let out = fwrite o a in
    if o.taken == length a.buffer
    then (true, record out { bytes_written = bump out.bytes_written o.taken; buffer = [] })
    else (false, out)

unfoldable pub write_buffer : Fwrite → Aof → Bool × Aof
unfolding write_out
write_buffer o a = elim a.buffer [ [] ↦ (true, a) | _ ∷ _ ↦ write_out o a ]

unfoldable pub flush : ℤ → Fwrite → Aof → Bool × Aof
unfolding write_buffer sync_if_due
flush now o a = elim a.file [
  | none ↦ (true, a)
  | some f ↦
      let (ok, out) = write_buffer o a in
      if ok then (true, sync_if_due a.policy now out) else (false, out)
]

-- the command that recreates a record: an absolute deadline, if any
unfoldable pub record_args : Record → Args
record_args r =
    if eq_ℤ r.expire_at no_expiry
    then codes "SET" ∷ r.key ∷ r.value ∷ []
    else codes "SET" ∷ r.key ∷ r.value ∷ codes "PXAT" ∷ int_to_string r.expire_at ∷ []

-- the file that `rewrite` builds
unfoldable pub rewritten : List Record → Bytes
unfolding record_args
rewritten [] = []
rewritten (r ∷ records) = encode (record_args r) ++ rewritten records

-- Whether the temporary file was written, and renamed into place; then the file is opened again, if
-- it was open. The result has what stands at the path afterwards, if the rewrite took place.
unfoldable pub rewrite : Bytes → List Record → Bool → Bool → Option Bytes → Aof → Bool × Aof
unfolding rewritten open_file close
rewrite path records false renamed reopened a = (false, a)
rewrite path records true false reopened a =
    (false, if is_open a then (open_file path a.policy reopened (close a).0).1 else (close a).0)
rewrite path records true true reopened a =
    let closed = record (close a).0 { commands_written = length records } in
    if is_open a then open_file path a.policy reopened closed else (true, closed)

-- How a replay ends: the commands applied, the bytes of a torn tail, and the state; or the place of
-- the corruption and the state so far.
pub data Replayed {ℓ} (W : Type ℓ) : Type ℓ where
  done : ℕ → ℕ → W → Replayed W
  corrupt : ℕ → Bytes → W → Replayed W

module _ {ℓ} {W : Type ℓ} (apply : Args → W → W) where
  abbrev pub apply_nonempty : Args → W → W
  apply_nonempty [] w = w
  apply_nonempty (a ∷ args) w = apply (a ∷ args) w

  abbrev pub count_nonempty : Args → ℕ → ℕ
  count_nonempty [] n = n
  count_nonempty (a ∷ args) n = bump n 1

  -- `none`: out of fuel. `size` is the length of the file.
  unfoldable pub replay_loop : ℕ → ℕ → Bytes → ℕ → W → Option (Replayed W)
  replay_loop zero size remaining applied w = none
  replay_loop (suc fuel) size [] applied w = some (done applied 0 w)
  replay_loop (suc fuel) size (c ∷ remaining) applied w = elim (parse_request (c ∷ remaining)) [
    | ParseResult.incomplete ↦ some (done applied (length (c ∷ remaining)) w)
    | ParseResult.error message ↦ some (corrupt (size - length (c ∷ remaining)) message w)
    | ParseResult.ok n args ↦
        replay_loop fuel size (drop n (c ∷ remaining)) (count_nonempty args applied)
          (apply_nonempty args w)
  ]

  -- A file that is not there replays as an empty one. The length bounds the rounds (Replay).
  unfoldable pub replay : Option Bytes → W → Option (Replayed W)
  unfolding replay_loop
  replay none w = some (done 0 0 w)
  replay (some text) w = replay_loop (suc (length text)) (length text) text 0 w
