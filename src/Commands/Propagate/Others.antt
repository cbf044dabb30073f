-- ===== src/Commands/Propagate/Others.antt =====
-- DEL, PERSIST, FLUSHALL and the commands that write nothing.
use redis_plus.Prelude.{
  ◌≡◌, refl, ◌∙◌, Bool, true, false, ◌||◌, Option, none, some, [], ◌∷◌, Bytes, beq, beq_iff,
  if◌then◌else◌, arith,
}
use redis_plus.Store
use redis_plus.Store.{Store}
use redis_plus.Store.View.{view, get_refines, erase_refines, pttl_refines}
use redis_plus.Store.Expire.Safe.{view-keys}
use redis_plus.Commands.Base.{Args, Outcome}
use redis_plus.Commands.Keyspace.{
  cmd_get, cmd_del, erase_all, cmd_exists, count_present, cmd_type, cmd_keys, cmd_ttl, cmd_flushall,
}
use redis_plus.Commands.Verb.{Verb}
use redis_plus.Commands.Dispatch.{run_verb}
use redis_plus.Commands.Propagate.Set.{cmd_set-unwritten}
use redis_plus.Commands.Propagate.Expire.{cmd_expire-unwritten, cmd_persist-unwritten}

-- `j` is among the keys
abbrev pub listed : Bytes → Args → Bool
listed j [] = false
listed j (key ∷ ks) = beq key j || listed j ks

-- Erasing a list of keys, as DEL does, takes exactly those keys out of view.
pub erase_all_refines :
    (ks : Args) (s : Store) (j : Bytes)
    → view (erase_all ks s).1 j ≡ (if listed j ks then none else view s j)
unfolding erase_all
erase_all_refines [] s j = refl
erase_all_refines (key ∷ ks) s j =
    ground (arith, erase_refines key s j, erase_all_refines ks (Store.erase key s).1 j)

-- If no key was there, no view changes.
erase_all-unwritten :
    (ks : Args) (s : Store) (j : Bytes)
    → (erase_all ks s).0 ≡ 0
    → view (erase_all ks s).1 j ≡ view s j
unfolding erase_all
erase_all-unwritten [] s j h = refl
erase_all-unwritten (key ∷ ks) s j h =
    ground
      (arith, beq_iff key j, erase_refines key s j, erase_all-unwritten ks (Store.erase key s).1 j)

cmd_del-unwritten :
    (a : Args) (s : Store) (j : Bytes)
    → (cmd_del a s).0.dirty ≡ false
    → view (cmd_del a s).1 j ≡ view s j
unfolding cmd_del
cmd_del-unwritten (name ∷ key ∷ ks) s j h = ground (arith, erase_all-unwritten (key ∷ ks) s j)
cmd_del-unwritten [] s j h = refl
cmd_del-unwritten (_ ∷ []) s j h = refl

view-count_present : (ks : Args) (s : Store) (j : Bytes) → view (count_present ks s).1 j ≡ view s j
unfolding count_present Store.contains
view-count_present [] s j = refl
view-count_present (key ∷ ks) s j =
    view-count_present ks (Store.get key s).1 j ∙ (get_refines key s j).1

-- A command that asks leaves every view as it is.
view-cmd_get : (a : Args) (s : Store) (j : Bytes) → view (cmd_get a s).1 j ≡ view s j
unfolding cmd_get
view-cmd_get (name ∷ key ∷ []) s j = (get_refines key s j).1
view-cmd_get [] s j = refl
view-cmd_get (_ ∷ []) s j = refl
view-cmd_get (_ ∷ _ ∷ _ ∷ _) s j = refl

view-cmd_exists : (a : Args) (s : Store) (j : Bytes) → view (cmd_exists a s).1 j ≡ view s j
unfolding cmd_exists
view-cmd_exists (name ∷ key ∷ ks) s j = view-count_present (key ∷ ks) s j
view-cmd_exists [] s j = refl
view-cmd_exists (_ ∷ []) s j = refl

view-cmd_type : (a : Args) (s : Store) (j : Bytes) → view (cmd_type a s).1 j ≡ view s j
unfolding cmd_type Store.contains
view-cmd_type (name ∷ key ∷ []) s j = (get_refines key s j).1
view-cmd_type [] s j = refl
view-cmd_type (_ ∷ []) s j = refl
view-cmd_type (_ ∷ _ ∷ _ ∷ _) s j = refl

view-cmd_keys : (a : Args) (s : Store) (j : Bytes) → view (cmd_keys a s).1 j ≡ view s j
unfolding cmd_keys
view-cmd_keys (name ∷ pattern ∷ []) s j = view-keys pattern s j
view-cmd_keys [] s j = refl
view-cmd_keys (_ ∷ []) s j = refl
view-cmd_keys (_ ∷ _ ∷ _ ∷ _) s j = refl

view-cmd_ttl :
    (seconds : Bool) (command : Bytes) (a : Args) (s : Store) (j : Bytes)
    → view (cmd_ttl seconds command a s).1 j ≡ view s j
unfolding cmd_ttl
view-cmd_ttl seconds command (name ∷ key ∷ []) s j = (pttl_refines key s j).1
view-cmd_ttl seconds command [] s j = refl
view-cmd_ttl seconds command (_ ∷ []) s j = refl
view-cmd_ttl seconds command (_ ∷ _ ∷ _ ∷ _) s j = refl

-- An outcome that, if it is not dirty, leaves every view.
abbrev Silent : Store → Option Outcome → Type 0
Silent s none = Unit
Silent s (some x) = (j : Bytes) → x.0.dirty ≡ false → view x.1 j ≡ view s j

pub run_verb-Silent : (verb : Verb) (a : Args) (s : Store) → Silent s (run_verb verb a s)
unfolding run_verb cmd_flushall
run_verb-Silent Verb.set a s = cmd_set-unwritten a s
run_verb-Silent Verb.get a s = λ j _. view-cmd_get a s j
run_verb-Silent Verb.del a s = cmd_del-unwritten a s
run_verb-Silent Verb.exists a s = λ j _. view-cmd_exists a s j
run_verb-Silent Verb.type a s = λ j _. view-cmd_type a s j
run_verb-Silent Verb.keys a s = λ j _. view-cmd_keys a s j
run_verb-Silent Verb.expire a s = cmd_expire-unwritten true false _ a s
run_verb-Silent Verb.pexpire a s = cmd_expire-unwritten false false _ a s
run_verb-Silent Verb.expireat a s = cmd_expire-unwritten true true _ a s
run_verb-Silent Verb.pexpireat a s = cmd_expire-unwritten false true _ a s
run_verb-Silent Verb.ttl a s = λ j _. view-cmd_ttl true _ a s j
run_verb-Silent Verb.pttl a s = λ j _. view-cmd_ttl false _ a s j
run_verb-Silent Verb.persist a s = cmd_persist-unwritten a s
run_verb-Silent Verb.flushall a s = λ j h. absurd (cc)
run_verb-Silent Verb.ping a s = λ j _. refl
run_verb-Silent Verb.echo a s = λ j _. refl
run_verb-Silent Verb.config a s = λ j _. refl
run_verb-Silent Verb.dbsize a s = λ j _. refl
run_verb-Silent Verb.command a s = λ j _. refl
run_verb-Silent Verb.select a s = λ j _. refl
run_verb-Silent Verb.quit a s = λ j _. refl
run_verb-Silent Verb.save a s = tt
run_verb-Silent Verb.bgsave a s = tt
run_verb-Silent Verb.bgrewriteaof a s = tt
run_verb-Silent Verb.info a s = tt
run_verb-Silent Verb.unknown a s = tt
