-- ===== src/Commands/Propagate/Whole.antt =====
-- The whole of `dispatch`, and the commands that propagate as they were sent.
use redis_plus.Prelude.{◌≡◌, refl, sym, ◌∙◌, false, Option, none, some, [], ◌∷◌, Bytes, arith}
use redis_plus.Dict
use redis_plus.Store
use redis_plus.Store.{Store}
use redis_plus.Store.View.{view, persist_refines}
use redis_plus.Commands.Base.{Args, CommandResult, Outcome, upper}
use redis_plus.Commands.Keyspace.{cmd_del, cmd_persist, cmd_flushall}
use redis_plus.Commands.Verb.{Verb, verb_of}
use redis_plus.Commands.Ops.{Link, PersistenceOps, ReplicationOps, World}
use redis_plus.Commands.Admin.{replconf, psync, replicaof, other_verb}
use redis_plus.Commands.Dispatch.{run_verb, run, or_original, dispatch}
use redis_plus.Commands.Propagate.Others.{run_verb-Silent, erase_all_refines}

module _ {P R : Type 0} (pops : PersistenceOps P) (rops : ReplicationOps R) where
  pub store-replconf :
      (a : Args) (link : Link) (w : World P R) → (replconf pops rops a link w).1.store ≡ w.store
  unfolding replconf
  store-replconf (sub ∷ arg ∷ rest) link w = ground arith
  store-replconf [] link w = refl
  store-replconf (_ ∷ []) link w = refl

  pub store-psync : (link : Link) (w : World P R) → (psync pops rops link w).1.store ≡ w.store
  unfolding psync
  store-psync link w = ground arith

  pub store-replicaof : (a : Args) (w : World P R) → (replicaof pops rops a w).1.store ≡ w.store
  unfolding replicaof
  store-replicaof (host ∷ port ∷ []) w = ground arith
  store-replicaof [] w = refl
  store-replicaof (_ ∷ []) w = refl
  store-replicaof (_ ∷ _ ∷ _ ∷ _) w = refl

  pub store-other_verb :
      (verb : Verb) (name : Bytes) (a : Args) (w : World P R)
      → (other_verb pops rops verb name a w).1.store ≡ w.store
  unfolding other_verb
  store-other_verb _ name a w = ground arith

  or_original-dirty : (a : Args) (r : CommandResult) → (or_original a r).dirty ≡ r.dirty
  or_original-dirty a r = ground arith

  store-run :
      (verb : Verb) (name : Bytes) (rest : Args) (w : World P R) (j : Bytes)
      → (run pops rops verb name rest w).0.dirty ≡ false
      → view (run pops rops verb name rest w).1.store j ≡ view w.store j
  unfolding run
  store-run verb name rest w j h = by_outcome (run_verb verb (name ∷ rest) w.store) refl h
    where
      by_outcome :
          (o : Option Outcome)
          → run_verb verb (name ∷ rest) w.store ≡ o
          → (run pops rops verb name rest w).0.dirty ≡ false
          → view (run pops rops verb name rest w).1.store j ≡ view w.store j
      by_outcome none e d = rw (e, run) (rw store-other_verb)
      by_outcome (some (r, s)) e d =
          let silent : (i : Bytes) → r.dirty ≡ false → view s i ≡ view w.store i =
            rw e at (run_verb-Silent verb (name ∷ rest) w.store) in
          let clean : (or_original (name ∷ rest) r).dirty ≡ false = rw (e, run) at d in
          rw (e, run) (silent j (sym (or_original-dirty (name ∷ rest) r) ∙ clean))

  -- Whatever the command and whoever sends it, a dispatch whose result is not dirty leaves every
  -- key as it was seen: its value, its deadline, or its absence.
  pub dispatch-Silent :
      (args : Args) (link : Link) (w : World P R) (j : Bytes)
      → (dispatch pops rops args link w).0.dirty ≡ false
      → view (dispatch pops rops args link w).1.store j ≡ view w.store j
  unfolding dispatch
  dispatch-Silent [] link w j h = refl
  dispatch-Silent (a ∷ rest) link w j h = ground (
    arith,
    store-replconf rest link w,
    store-psync link w,
    store-replicaof rest w,
    store-run (verb_of (upper a)) a rest w j,
  )

pub view-cmd_del :
    (a : Args) (s t : Store)
    → ((j : Bytes) → view s j ≡ view t j)
    → (j : Bytes) → view (cmd_del a s).1 j ≡ view (cmd_del a t).1 j
unfolding cmd_del
view-cmd_del (name ∷ key ∷ ks) s t h j =
    ground (arith, h j, erase_all_refines (key ∷ ks) s j, erase_all_refines (key ∷ ks) t j)
view-cmd_del [] s t h j = h j
view-cmd_del (_ ∷ []) s t h j = h j

pub view-cmd_persist :
    (a : Args) (s t : Store)
    → ((j : Bytes) → view s j ≡ view t j)
    → (j : Bytes) → view (cmd_persist a s).1 j ≡ view (cmd_persist a t).1 j
unfolding cmd_persist
view-cmd_persist (name ∷ key ∷ []) s t h j =
    ground (arith, h j, h key, persist_refines key s j, persist_refines key t j)
view-cmd_persist [] s t h j = h j
view-cmd_persist (_ ∷ []) s t h j = h j
view-cmd_persist (_ ∷ _ ∷ _ ∷ _) s t h j = h j

pub view-clear : (s : Store) (j : Bytes) → view (Store.clear s) j ≡ none
unfolding Store.clear view
view-clear s j = ground (arith, Dict.find-nil {V = Bytes} j)

-- Two stores that show the same for every key show the same after the same DEL, PERSIST or
-- FLUSHALL.
pub self_propagating :
    (a : Args) (s t : Store) (j : Bytes)
    → ((i : Bytes) → view s i ≡ view t i)
    → (view (cmd_del a s).1 j ≡ view (cmd_del a t).1 j)
      × (view (cmd_persist a s).1 j ≡ view (cmd_persist a t).1 j)
      × (view (cmd_flushall a s).1 j ≡ view (cmd_flushall a t).1 j)
unfolding cmd_flushall
self_propagating a s t j h =
    (view-cmd_del a s t h j, view-cmd_persist a s t h j, view-clear s j ∙ sym (view-clear t j))
