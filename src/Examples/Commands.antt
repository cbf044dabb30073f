-- ===== src/Examples/Commands.antt =====
-- The theorems on the command table at the stores of the examples.
use redis_plus.Prelude.{◌≡◌, refl, true, false, none, some, [], ◌∷◌, Bytes, codes, arith}
use redis_plus.Prelude.Int.{ℤ, pos}
use redis_plus.Dict
use redis_plus.Store
use redis_plus.Decimal.{to_int64, parse_int, scan_digits}
use redis_plus.Store.{Store, no_expiry, is_expired}
use redis_plus.Store.View.{view, get_refines}
use redis_plus.Commands.Base.{Args, upper}
use redis_plus.Commands.Verb.{verb_of}
use redis_plus.Commands.Set.{canonical, cmd_set, scan_options, set_with}
use redis_plus.Commands.Keyspace.{cmd_get, cmd_expire, cmd_persist, expire_with}
use redis_plus.Commands.Dispatch.{dispatch, run, run_verb}
use redis_plus.Commands.Propagate.Set.{Sets, cmd_set-written, cmd_set-canonical}
use redis_plus.Commands.Propagate.Expire.{pexpireat, Redates, cmd_expire-written}
use redis_plus.Commands.Propagate.Whole.{dispatch-Silent}
use redis_plus.Commands.Propagate.Late.{late_persist_loses_key}
use redis_plus.Examples.Data.{k, old, stored, counting, acking, world_of, get_k, set_k}

get_is_clean : (dispatch counting acking get_k none (world_of stored)).0.dirty ≡ false
unfolding dispatch run run_verb verb_of upper cmd_get
get_is_clean = refl

dispatch-Silent_example :
    view (dispatch counting acking get_k none (world_of stored)).1.store old ≡ view stored old
dispatch-Silent_example =
    dispatch-Silent counting acking get_k none (world_of stored) old get_is_clean

set_writes : (cmd_set set_k stored).0.dirty ≡ true
unfolding cmd_set scan_options set_with
set_writes = refl

cmd_set-written_example :
    (key : Bytes) × (value : Bytes) × (d : ℤ) × ((cmd_set set_k stored).0.propagate
      ≡ canonical key value d)
    × Sets key value d stored (cmd_set set_k stored).1
cmd_set-written_example = cmd_set-written set_k stored set_writes

cmd_set-canonical_example :
    Sets k (codes "new") (pos 7000) stored (cmd_set (canonical k (codes "new") (pos 7000)) stored).1
cmd_set-canonical_example =
    cmd_set-canonical k (codes "new") (pos 7000) stored
      (record { top = omega arith; bottom = omega arith })

abbrev pexpire_k : Args
pexpire_k = codes "PEXPIREAT" ∷ k ∷ codes "7000" ∷ []

expire_writes : (cmd_expire false true (codes "pexpireat") pexpire_k stored).0.dirty ≡ true
unfolding cmd_expire expire_with Store.expire_at Store.set is_expired to_int64 parse_int scan_digits
    Dict.find Dict.insert Dict.erase
expire_writes = refl

cmd_expire-written_example :
    (key : Bytes) × (d : ℤ) × ((cmd_expire false true
        (codes "pexpireat")
        pexpire_k
        stored).0.propagate
      ≡ pexpireat key d)
    × Redates key d stored (cmd_expire false true (codes "pexpireat") pexpire_k stored).1
cmd_expire-written_example =
    cmd_expire-written false true (codes "pexpireat") pexpire_k stored expire_writes

-- the same to see, without the dead key
abbrev pub seen_same : Store
seen_same = (Store.get old stored).1

pub same_view : (i : Bytes) → view stored i ≡ view seen_same i
same_view i = ground (arith, get_refines old stored i)

k_is_dated : view stored k ≡ some (codes "v", some (pos 9000))
unfolding view Store.set Dict.find Dict.insert Dict.erase
k_is_dated = refl

late_persist_loses_key_example :
    (view (record (cmd_persist (codes "PERSIST" ∷ k ∷ []) stored).1 { clock = pos 9500 }) k
      ≡ some (codes "v", none))
    × (view (cmd_persist (codes "PERSIST" ∷ k ∷ []) (record stored { clock = pos 9500 })).1 k
        ≡ none)
late_persist_loses_key_example =
    late_persist_loses_key (codes "PERSIST") k (codes "v") (pos 9000) (pos 9500) stored k_is_dated
      (omega arith)
