-- ===== src/Aof/Restore.antt =====
-- A rewritten log, replayed: `Aof::rewrite`, then `Aof::replay` through `apply_silently`.
use redis_plus.Prelude.{
  ◌≤◌, ◌<◌, ◌≡◌, ◌≢◌, refl, ap, Option, none, some, List, [], ◌∷◌, append-nil, Bytes, beq_iff,
  length, arith, All, if◌then◌else◌, Bool-cases, inl, inr,
}
use redis_plus.Prelude.Int.{ℤ, ◌≤ℤ◌, eq_ℤ, two_64}
use redis_plus.Decimal.{int_to_string}
use redis_plus.Decimal.RoundTrip.{length-int_to_string}
use redis_plus.Dict
use redis_plus.Dict.{Dict}
use redis_plus.Dict.Keys.{NodupKeys}
use redis_plus.Resp.{max_bulk_length, parse_request}
use redis_plus.Resp.RoundTrip.{IsSendable}
use redis_plus.Store.{Store, Record, no_expiry, past, deadline_or, snapshot, snapshot_of, empty}
use redis_plus.Store.View.{Held, alive, view}
use redis_plus.Store.Valid.{IsValid}
use redis_plus.Store.Snapshot.{is_dead-deadline_or, deadline_of-deadline_or, past_later}
use redis_plus.Commands.Base.{Args, upper}
use redis_plus.Commands.Set.{canonical, cmd_set}
use redis_plus.Commands.Verb.{verb_of}
use redis_plus.Commands.Ops.{PersistenceOps, ReplicationOps, World}
use redis_plus.Commands.Dispatch.{run_verb}
use redis_plus.Commands.Propagate.Set.{IsPrintable, cmd_set-canonical, clock-cmd_set}
use redis_plus.Handler.Pipeline.{encode_all, AreSendable}
use redis_plus.Handler.Table.{apply_silently}
use redis_plus.Aof.{record_args, rewritten, replay, done}
use redis_plus.Aof.Replay.{apply_all, replay-encode_all}

abbrev commands_of : List Record → List Args
commands_of [] = []
commands_of (r ∷ records) = record_args r ∷ commands_of records

rewritten-encode_all :
    (records : List Record) → rewritten records ≡ encode_all (commands_of records)
unfolding rewritten encode_all
rewritten-encode_all [] = refl
rewritten-encode_all (r ∷ records) = rw (rewritten-encode_all records)

-- A record that the protocol's limits let through.
pub record IsSmall (r : Record) : Type 0 where
  pub key_fits : length r.key ≤ max_bulk_length
  pub value_fits : length r.value ≤ max_bulk_length
  pub deadline_prints : IsPrintable r.expire_at

record_args-IsSendable :
    (r : Record) → IsSmall r → IsSendable (record_args r) × (record_args r ≢ [])
unfolding record_args
record_args-IsSendable r f =
    let short_deadline : length (int_to_string r.expire_at) ≤ 20 =
      length-int_to_string r.expire_at f.deadline_prints.top f.deadline_prints.bottom in
    elim (Bool-cases (eq_ℤ r.expire_at no_expiry)) [
      | inl forever ↦ rw forever (
        record { few = omega arith; short = (omega arith, (f.key_fits, (f.value_fits, tt))) },
        λ e. cc,
      )
      | inr dated ↦ rw dated (
        record {
          few = omega arith;
          short = (omega arith, (f.key_fits, (f.value_fits, (omega arith, (omega arith, tt)))));
        },
        λ e. cc,
      )
    ]

AreSendable-commands_of :
    (records : List Record) → All IsSmall records → AreSendable (commands_of records)
AreSendable-commands_of [] h = tt
AreSendable-commands_of (r ∷ records) (f, h) =
    (record_args-IsSendable r f, AreSendable-commands_of records h)

module _ {P R : Type 0} (pops : PersistenceOps P) (rops : ReplicationOps R) where
  apply_silently-record :
      (r : Record) (w : World P R)
      → apply_silently pops rops (record_args r) w
        ≡ record w { store = (cmd_set (canonical r.key r.value r.expire_at) w.store).1 }
  unfolding apply_silently record_args run_verb upper verb_of
  apply_silently-record r w = ground arith

  -- What is seen after the records of a table are set again at a later time.
  reseen : (now later : ℤ) → Option Bytes → Option ℤ → Option Held → Option Held
  reseen now later none d old = old
  reseen now later (some value) d old = if past now d then old else alive later (some value) d

  clock-apply_silently :
      (r : Record) (w : World P R)
      → (apply_silently pops rops (record_args r) w).store.clock ≡ w.store.clock
  clock-apply_silently r w =
      rw (apply_silently-record r w) (clock-cmd_set (canonical r.key r.value r.expire_at) w.store)

  module _ (expires : Dict ℤ) (now : ℤ)
      (clean : (k : Bytes) → Dict.find k expires ≢ some no_expiry) where
    view-apply_all :
        (m : Dict Bytes) (w : World P R) (j : Bytes)
        → NodupKeys m
        → All IsSmall (snapshot_of expires now m)
        → view
            (apply_all (apply_silently pops rops) (commands_of (snapshot_of expires now m)) w).store
            j
          ≡ reseen now w.store.clock (Dict.find j m) (Dict.find j expires) (view w.store j)
    unfolding snapshot_of apply_all Dict.find reseen
    view-apply_all [] w j nodup small = refl
    view-apply_all ((key, value) ∷ m) w j (fresh, nodup) small =
        let d = Dict.find key expires in
        let r : Record = record { key = key; value = value; expire_at = deadline_or d } in
        let w1 = apply_silently pops rops (record_args r) w in
        let cleaned = is_dead-deadline_or d now (clean key) in
        elim (Bool-cases (past now d)) [
          | inl dead ↦
              let small1 = rw dead at (rw cleaned at small) in
              rw (cleaned, dead) (ground (arith, beq_iff key j, view-apply_all m w j nodup small1))
          | inr alive_now ↦
              let (f, small1) = rw alive_now at (rw cleaned at small) in
              rw (cleaned, alive_now)
                (ground (
                  arith,
                  beq_iff key j,
                  clock-apply_silently r w,
                  deadline_of-deadline_or d (clean key),
                  ap (λ (v : World P R). view v.store j) (apply_silently-record r w),
                  cmd_set-canonical key value (deadline_or d) w.store f.deadline_prints j,
                  view-apply_all m w1 j nodup small1,
                ))
        ]

length-commands_of : (records : List Record) → length (commands_of records) ≡ length records
length-commands_of [] = refl
length-commands_of (r ∷ records) = omega (arith, length-commands_of records)

replay-commands_of :
    {W : Type 0} (apply : Args → W → W) (records : List Record) (w : W)
    → All IsSmall records
    → length records < two_64
    → replay apply (some (rewritten records)) w
      ≡ some (done (length records) 0 (apply_all apply (commands_of records) w))
replay-commands_of apply records w small count =
    let whole =
      replay-encode_all apply (commands_of records) [] w (AreSendable-commands_of records small)
        (unfold parse_request in (refl)) (omega (arith, length-commands_of records)) in
    rw (rewritten-encode_all records)
      (rw (append-nil (encode_all (commands_of records)), length-commands_of records) at whole)

module _ {P R : Type 0} (pops : PersistenceOps P) (rops : ReplicationOps R) where
  -- A log rewritten from a valid store and replayed through the command table into an empty
  -- store, at that time or later, is applied whole, and every key is then seen as the first store
  -- would show it by then; each record is within the protocol limits with a deadline other than
  -- the smallest int64, and there are fewer than 2 ^ 64 of them.
  pub replay-rewritten :
      (s : Store) (later : ℤ) (w : World P R)
      → IsValid s
      → s.clock ≤ℤ later
      → All IsSmall (snapshot s)
      → length (snapshot s) < two_64
      → w.store ≡ empty later
      → (t : World P R) × (replay (apply_silently pops rops) (some (rewritten (snapshot s))) w
          ≡ some (done (length (snapshot s)) 0 t))
        × ((j : Bytes) → view t.store j ≡ view (record s { clock = later }) j)
  unfolding snapshot view reseen
  replay-rewritten s later w v h small count fresh = (
    apply_all (apply_silently pops rops) commands w,
    replayed,
    λ j. ground (
      arith,
      fresh,
      Dict.find-nil {V = Bytes} j,
      past_later (Dict.find j s.expires) s.clock later h,
      view-apply_all pops rops s.expires s.clock v.no_sentinel s.map w j v.map_nodup small,
    ),
  )
    where
      commands : List Args
      commands = commands_of (snapshot s)

      replayed :
          replay (apply_silently pops rops) (some (rewritten (snapshot s))) w
          ≡ some (done (length (snapshot s)) 0 (apply_all (apply_silently pops rops) commands w))
      replayed = replay-commands_of (apply_silently pops rops) (snapshot s) w small count
