-- ===== src/Commands/Propagate/Clock.antt =====
-- No command changes the clock.
use redis_plus.Prelude.{
  ◌≡◌, refl, ◌∙◌, Bool, true, false, Option, none, some, List, [], ◌∷◌, Bytes, arith, if◌then◌else◌,
}
use redis_plus.Prelude.Int.{ℤ, ◌+ℤ◌, times_1000}
use redis_plus.Decimal.{to_int64}
use redis_plus.Store
use redis_plus.Store.{Store}
use redis_plus.Commands.Base.{Args, upper}
use redis_plus.Commands.Keyspace.{
  cmd_get, cmd_del, erase_all, cmd_exists, count_present, cmd_type, cmd_keys, cmd_ttl, cmd_persist,
  cmd_flushall, cmd_expire, expire_number, expire_with,
}
use redis_plus.Commands.Verb.{Verb, verb_of}
use redis_plus.Commands.Ops.{Link, PersistenceOps, ReplicationOps, World}
use redis_plus.Commands.Dispatch.{run_verb, run, dispatch}
use redis_plus.Commands.Propagate.Set.{clock-cmd_set, clock-get, clock-pttl}
use redis_plus.Commands.Propagate.Whole.{
  store-replconf, store-psync, store-replicaof, store-other_verb,
}
use redis_plus.Commands.Propagate.Plain.{store_of}

clock-erase : (key : Bytes) (s : Store) → (Store.erase key s).1.clock ≡ s.clock
unfolding Store.erase Store.remove
clock-erase key s = ground arith

clock-expire_at : (key : Bytes) (d : ℤ) (s : Store) → (Store.expire_at key d s).1.clock ≡ s.clock
unfolding Store.expire_at Store.remove
clock-expire_at key d s = ground arith

clock-persist : (key : Bytes) (s : Store) → (Store.persist key s).1.clock ≡ s.clock
unfolding Store.persist Store.remove
clock-persist key s = ground arith

clock-erase_all : (ks : Args) (s : Store) → (erase_all ks s).1.clock ≡ s.clock
unfolding erase_all
clock-erase_all [] s = refl
clock-erase_all (key ∷ ks) s = clock-erase_all ks (Store.erase key s).1 ∙ clock-erase key s

clock-contains : (key : Bytes) (s : Store) → (Store.contains key s).1.clock ≡ s.clock
unfolding Store.contains
clock-contains key s = clock-get key s

clock-count_present : (ks : Args) (s : Store) → (count_present ks s).1.clock ≡ s.clock
unfolding count_present
clock-count_present [] s = refl
clock-count_present (key ∷ ks) s =
    clock-count_present ks (Store.contains key s).1 ∙ clock-contains key s

clock-reap_all : (dead : List Bytes) (s : Store) → (Store.reap_all dead s).clock ≡ s.clock
unfolding Store.reap_all Store.remove
clock-reap_all [] s = refl
clock-reap_all (key ∷ dead) s = clock-reap_all dead (Store.reap_lazily key s)

clock-cmd_get : (a : Args) (s : Store) → (cmd_get a s).1.clock ≡ s.clock
unfolding cmd_get
clock-cmd_get (name ∷ key ∷ []) s = clock-get key s
clock-cmd_get [] s = refl
clock-cmd_get (_ ∷ []) s = refl
clock-cmd_get (_ ∷ _ ∷ _ ∷ _) s = refl

clock-cmd_del : (a : Args) (s : Store) → (cmd_del a s).1.clock ≡ s.clock
unfolding cmd_del
clock-cmd_del (name ∷ key ∷ ks) s = ground (arith, clock-erase_all (key ∷ ks) s)
clock-cmd_del [] s = refl
clock-cmd_del (_ ∷ []) s = refl

clock-cmd_exists : (a : Args) (s : Store) → (cmd_exists a s).1.clock ≡ s.clock
unfolding cmd_exists
clock-cmd_exists (name ∷ key ∷ ks) s = clock-count_present (key ∷ ks) s
clock-cmd_exists [] s = refl
clock-cmd_exists (_ ∷ []) s = refl

clock-cmd_type : (a : Args) (s : Store) → (cmd_type a s).1.clock ≡ s.clock
unfolding cmd_type
clock-cmd_type (name ∷ key ∷ []) s = clock-contains key s
clock-cmd_type [] s = refl
clock-cmd_type (_ ∷ []) s = refl
clock-cmd_type (_ ∷ _ ∷ _ ∷ _) s = refl

clock-cmd_keys : (a : Args) (s : Store) → (cmd_keys a s).1.clock ≡ s.clock
unfolding cmd_keys Store.keys
clock-cmd_keys (name ∷ pattern ∷ []) s = clock-reap_all (Store.scan_keys pattern s s.map).1 s
clock-cmd_keys [] s = refl
clock-cmd_keys (_ ∷ []) s = refl
clock-cmd_keys (_ ∷ _ ∷ _ ∷ _) s = refl

clock-expire_with :
    (absolute : Bool) (key : Bytes) (n : ℤ) (s : Store)
    → (expire_with absolute key n s).1.clock ≡ s.clock
unfolding expire_with
clock-expire_with absolute key n s = clock-expire_at key (if absolute then n else s.clock +ℤ n) s

clock-expire_number :
    (seconds absolute : Bool) (key : Bytes) (o : Option ℤ) (s : Store)
    → (expire_number seconds absolute key o s).1.clock ≡ s.clock
unfolding expire_number
clock-expire_number seconds absolute key none s = refl
clock-expire_number seconds absolute key (some n) s =
    ground
      (arith, clock-expire_with absolute key n s, clock-expire_with absolute key (times_1000 n) s)

clock-cmd_expire :
    (seconds absolute : Bool) (command : Bytes) (a : Args) (s : Store)
    → (cmd_expire seconds absolute command a s).1.clock ≡ s.clock
unfolding cmd_expire
clock-cmd_expire seconds absolute command (name ∷ key ∷ n ∷ []) s =
    clock-expire_number seconds absolute key (to_int64 n) s
clock-cmd_expire seconds absolute command [] s = refl
clock-cmd_expire seconds absolute command (_ ∷ []) s = refl
clock-cmd_expire seconds absolute command (_ ∷ _ ∷ []) s = refl
clock-cmd_expire seconds absolute command (_ ∷ _ ∷ _ ∷ _ ∷ _) s = refl

clock-cmd_ttl :
    (seconds : Bool) (command : Bytes) (a : Args) (s : Store)
    → (cmd_ttl seconds command a s).1.clock ≡ s.clock
unfolding cmd_ttl
clock-cmd_ttl seconds command (name ∷ key ∷ []) s = clock-pttl key s
clock-cmd_ttl seconds command [] s = refl
clock-cmd_ttl seconds command (_ ∷ []) s = refl
clock-cmd_ttl seconds command (_ ∷ _ ∷ _ ∷ _) s = refl

clock-cmd_persist : (a : Args) (s : Store) → (cmd_persist a s).1.clock ≡ s.clock
unfolding cmd_persist
clock-cmd_persist (name ∷ key ∷ []) s = clock-persist key s
clock-cmd_persist [] s = refl
clock-cmd_persist (_ ∷ []) s = refl
clock-cmd_persist (_ ∷ _ ∷ _ ∷ _) s = refl

clock-run_verb :
    (verb : Verb) (a : Args) (s : Store) → (store_of s (run_verb verb a s)).clock ≡ s.clock
unfolding run_verb cmd_flushall Store.clear
clock-run_verb Verb.set a s = clock-cmd_set a s
clock-run_verb Verb.get a s = clock-cmd_get a s
clock-run_verb Verb.del a s = clock-cmd_del a s
clock-run_verb Verb.exists a s = clock-cmd_exists a s
clock-run_verb Verb.type a s = clock-cmd_type a s
clock-run_verb Verb.keys a s = clock-cmd_keys a s
clock-run_verb Verb.expire a s = clock-cmd_expire true false _ a s
clock-run_verb Verb.pexpire a s = clock-cmd_expire false false _ a s
clock-run_verb Verb.expireat a s = clock-cmd_expire true true _ a s
clock-run_verb Verb.pexpireat a s = clock-cmd_expire false true _ a s
clock-run_verb Verb.ttl a s = clock-cmd_ttl true _ a s
clock-run_verb Verb.pttl a s = clock-cmd_ttl false _ a s
clock-run_verb Verb.persist a s = clock-cmd_persist a s
clock-run_verb Verb.flushall a s = refl
clock-run_verb Verb.ping a s = refl
clock-run_verb Verb.echo a s = refl
clock-run_verb Verb.config a s = refl
clock-run_verb Verb.dbsize a s = refl
clock-run_verb Verb.command a s = refl
clock-run_verb Verb.select a s = refl
clock-run_verb Verb.quit a s = refl
clock-run_verb Verb.save a s = refl
clock-run_verb Verb.bgsave a s = refl
clock-run_verb Verb.bgrewriteaof a s = refl
clock-run_verb Verb.info a s = refl
clock-run_verb Verb.unknown a s = refl

module _ {P R : Type 0} (pops : PersistenceOps P) (rops : ReplicationOps R) where
  clock-run :
      (verb : Verb) (a : Bytes) (rest : Args) (w : World P R)
      → (run pops rops verb a rest w).1.store.clock ≡ w.store.clock
  unfolding run
  clock-run verb a rest w =
      ground
        (arith, store-other_verb pops rops verb a rest w, clock-run_verb verb (a ∷ rest) w.store)

  pub clock-dispatch :
      (args : Args) (link : Link) (w : World P R)
      → (dispatch pops rops args link w).1.store.clock ≡ w.store.clock
  unfolding dispatch
  clock-dispatch [] link w = refl
  clock-dispatch (a ∷ rest) link w = ground (
    arith,
    store-replconf pops rops rest link w,
    store-psync pops rops link w,
    store-replicaof pops rops rest w,
    clock-run (verb_of (upper a)) a rest w,
  )
