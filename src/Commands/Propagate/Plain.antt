-- ===== src/Commands/Propagate/Plain.antt =====
-- The commands that `dispatch` hands to the table, and their effect on a store.
use redis_plus.Prelude.{
  ◌≡◌, refl, ap, ◌∙◌, Bool, true, false, ◌||◌, Option, none, some, [], ◌∷◌, Bytes, codes, beq,
  arith,
}
use redis_plus.Prelude.Int.{ℤ}
use redis_plus.Store.{Store}
use redis_plus.Commands.Base.{Args, Outcome, upper}
use redis_plus.Commands.Set.{canonical}
use redis_plus.Commands.Verb.{Verb, verb_of}
use redis_plus.Commands.Ops.{Link, PersistenceOps, ReplicationOps, World}
use redis_plus.Commands.Admin.{replconf, psync, replicaof, other_verb}
use redis_plus.Commands.Dispatch.{run_verb, run, dispatch, is_refused}
use redis_plus.Commands.Propagate.Expire.{pexpireat}
use redis_plus.Commands.Propagate.Whole.{store-other_verb}
use redis_plus.Handler.Table.{apply_silently}

module _ {P R : Type 0} (pops : PersistenceOps P) (rops : ReplicationOps R) where
  clean-replconf :
      (a : Args) (link : Link) (w : World P R) → (replconf pops rops a link w).0.dirty ≡ false
  unfolding replconf
  clean-replconf (sub ∷ arg ∷ rest) link w = ground arith
  clean-replconf [] link w = refl
  clean-replconf (_ ∷ []) link w = refl

  clean-psync : (link : Link) (w : World P R) → (psync pops rops link w).0.dirty ≡ false
  unfolding psync
  clean-psync link w = ground arith

  clean-replicaof : (a : Args) (w : World P R) → (replicaof pops rops a w).0.dirty ≡ false
  unfolding replicaof
  clean-replicaof (host ∷ port ∷ []) w = ground arith
  clean-replicaof [] w = refl
  clean-replicaof (_ ∷ []) w = refl
  clean-replicaof (_ ∷ _ ∷ _ ∷ _) w = refl

  pub clean-other_verb :
      (verb : Verb) (name : Bytes) (a : Args) (w : World P R)
      → (other_verb pops rops verb name a w).0.dirty ≡ false
  unfolding other_verb
  clean-other_verb _ name a w = ground arith

-- the names of replication, which `dispatch` tests first
abbrev pub of_replication : Bytes → Bool
of_replication name =
    beq name (codes "REPLCONF")
    || beq name (codes "PSYNC")
    || (beq name (codes "REPLICAOF") || beq name (codes "SLAVEOF"))

module _ {P R : Type 0} (pops : PersistenceOps P) (rops : ReplicationOps R) where
  -- A dispatch that writes ran a command of the table.
  pub dirty_runs :
      (a : Bytes) (rest : Args) (link : Link) (w : World P R)
      → (dispatch pops rops (a ∷ rest) link w).0.dirty ≡ true
      → (of_replication (upper a) ≡ false)
        × (dispatch pops rops (a ∷ rest) link w ≡ run pops rops (verb_of (upper a)) a rest w)
  unfolding dispatch
  dirty_runs a rest link w h = ground (
    arith,
    clean-replconf pops rops rest link w,
    clean-psync pops rops link w,
    clean-replicaof pops rops rest w,
  )

  apply_silently-run :
      (a : Bytes) (rest : Args) (w : World P R)
      → of_replication (upper a) ≡ false
      → apply_silently pops rops (a ∷ rest) w ≡ (run pops rops (verb_of (upper a)) a rest w).1
  unfolding apply_silently dispatch is_refused
  apply_silently-run a rest w h = ground arith

abbrev pub store_of : Store → Option Outcome → Store
store_of s none = s
store_of s (some (r, t)) = t

-- a command of the table, run for its effect on the store
unfoldable pub applied : Args → Store → Store
applied [] s = s
applied (a ∷ rest) s = store_of s (run_verb (verb_of (upper a)) (a ∷ rest) s)

-- a command that is none of replication's
abbrev pub Plain : Args → Type 0
Plain [] = ⊥
Plain (a ∷ rest) = of_replication (upper a) ≡ false

pub Plain-canonical : (key value : Bytes) (d : ℤ) → Plain (canonical key value d)
unfolding upper
Plain-canonical key value d = ground arith

pub Plain-pexpireat : (key : Bytes) (d : ℤ) → Plain (pexpireat key d)
unfolding upper
Plain-pexpireat key d = refl

module _ {P R : Type 0} (pops : PersistenceOps P) (rops : ReplicationOps R) where
  store-run-applied :
      (a : Bytes) (rest : Args) (w : World P R)
      → (run pops rops (verb_of (upper a)) a rest w).1.store ≡ applied (a ∷ rest) w.store
  unfolding run applied
  store-run-applied a rest w =
      ground (arith, store-other_verb pops rops (verb_of (upper a)) a rest w)

  pub store-apply_silently :
      (p : Args) (w : World P R)
      → Plain p
      → (apply_silently pops rops p w).store ≡ applied p w.store
  store-apply_silently [] w plain = elim plain [ ]
  store-apply_silently (a ∷ rest) w plain =
      ap (λ (v : World P R). v.store) (apply_silently-run pops rops a rest w plain)
      ∙ store-run-applied a rest w
