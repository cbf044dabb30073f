-- ===== src/Examples/Keyspace.antt =====
-- The store's theorems at the stores of the examples.
use redis_plus.Prelude.{
  ◌<◌, ◌≡◌, refl, none, some, List, [], ◌∷◌, Bytes, beq, codes, length, has_value, if◌then◌else◌,
  arith,
}
use redis_plus.Prelude.Int.{ℤ, pos, ◌≤ℤ◌, two_64}
use redis_plus.Dict.{Dict, insert}
use redis_plus.Store
use redis_plus.Store.{Store, Record, no_expiry, snapshot, load_records, size, keys}
use redis_plus.Store.View.{
  view, alive, redated, undated, has_deadline, deadline_of, set_refines, erase_refines,
  expire_at_refines, persist_refines,
}
use redis_plus.Store.Valid.{IsValid}
use redis_plus.Store.Reach.{Step, Reach, Reach-IsValid}
use redis_plus.Store.Expire.{active_expire_cycle, reap_expired, default_config}
use redis_plus.Store.Expire.Safe.{view-active_expire_cycle, view-reap_expired}
use redis_plus.Store.Snapshot.{view-load-snapshot}
use redis_plus.Store.Snapshot.Live.{size-eq-length-snapshot, keys-matching, matching}
use redis_plus.Examples.Data.{k, old, stored, stored-IsValid}

-- two buckets: the first key of the table, and the others
abbrev buckets_of : Dict ℤ → List (List Bytes)
buckets_of [] = [] ∷ []
buckets_of ((key, deadline) ∷ m) = (key ∷ []) ∷ [] ∷ rest m ∷ []
  where
    rest : Dict ℤ → List Bytes
    rest [] = []
    rest ((j, deadline1) ∷ m1) = j ∷ rest m1

expired_and_persisted : Reach buckets_of stored (Store.persist k (Store.get old stored).1).1
expired_and_persisted =
    Reach.next (Reach.next Reach.here (Step.gets old refl)) (Step.persists k refl)

Reach-IsValid_example : IsValid (Store.persist k (Store.get old stored).1).1
Reach-IsValid_example = Reach-IsValid buckets_of stored-IsValid expired_and_persisted

set_refines_example : view (Store.set old (codes "new") (pos 5000) stored) old ≡ (
    if beq old old
    then alive stored.clock (some (codes "new")) (deadline_of (pos 5000))
    else view stored old)
set_refines_example = set_refines old stored (codes "new") (pos 5000) old

erase_refines_example :
    ((Store.erase k stored).0 ≡ has_value (view stored k))
    × (view (Store.erase k stored).1 old ≡ (if beq k old then none else view stored old))
erase_refines_example = erase_refines k stored old

expire_at_refines_example :
    ((Store.expire_at k (pos 500) stored).0 ≡ has_value (view stored k))
    × (view (Store.expire_at k (pos 500) stored).1 k
        ≡ (if beq k k then redated stored.clock (pos 500) (view stored k) else view stored k))
expire_at_refines_example = expire_at_refines k stored (pos 500) k

persist_refines_example :
    ((Store.persist k stored).0 ≡ has_deadline (view stored k))
    × (view (Store.persist k stored).1 k
        ≡ (if beq k k then undated (view stored k) else view stored k))
persist_refines_example = persist_refines k stored k

view-active_expire_cycle_example :
    view (active_expire_cycle buckets_of default_config stored).1 k ≡ view stored k
view-active_expire_cycle_example = view-active_expire_cycle buckets_of default_config stored k

view-reap_expired_example : view (reap_expired 10 stored).1 old ≡ view stored old
view-reap_expired_example = view-reap_expired 10 stored old stored-IsValid.expires_nodup

stored_before : stored.clock ≤ℤ pos 2000
unfolding Store.set
stored_before = omega arith

view-load-snapshot_example :
    view (load_records (snapshot stored) (Store.empty (pos 2000))) k
    ≡ view (record stored { clock = pos 2000 }) k
view-load-snapshot_example = view-load-snapshot stored (pos 2000) k stored-IsValid stored_before

three_keys : length stored.map < two_64
unfolding Store.set insert
three_keys = omega arith

size-eq-length-snapshot_example : size stored ≡ length (snapshot stored)
size-eq-length-snapshot_example = size-eq-length-snapshot stored stored-IsValid three_keys

keys-matching_example : (keys (codes "*") stored).0 ≡ matching (codes "*") (snapshot stored)
keys-matching_example = keys-matching (codes "*") stored stored-IsValid
