-- ===== src/Replication/Tasks.antt =====
-- What the replica's thread posts, run on the event loop: `apply_` is `apply_silently` of the
-- handler, as src/main.cpp sets it.
use redis_plus.Prelude.{◌≡◌, refl, ap, ◌∙◌, Option, none, some, List, [], ◌∷◌, Bytes, arith}
use redis_plus.Prelude.Int.{ℤ, ◌≤ℤ◌}
use redis_plus.Dict
use redis_plus.Store.{Store, Record, snapshot, load_records, clear}
use redis_plus.Store.View.{Held, alive, view}
use redis_plus.Store.Valid.{IsValid}
use redis_plus.Store.Snapshot.{view-load_snapshot_of, clock-load_record, or_else}
use redis_plus.Commands.Ops.{PersistenceOps, ReplicationOps, World}
use redis_plus.Commands.Propagate.Effects.{Agree}
use redis_plus.Handler.Table.{apply_silently}
use redis_plus.Replication.Stream.{Task, reset, apply}

module _ {P R : Type 0} (pops : PersistenceOps P) (rops : ReplicationOps R) where
  unfoldable pub run_task : Task → World P R → World P R
  run_task (reset records) w = record w { store = load_records records (clear w.store) }
  run_task (apply args) w = apply_silently pops rops args w

  unfoldable pub run_tasks : List Task → World P R → World P R
  run_tasks [] w = w
  run_tasks (task ∷ tasks) w = run_tasks tasks (run_task task w)

clock-load_records : (records : List Record) (s : Store) → (load_records records s).clock ≡ s.clock
unfolding load_records
clock-load_records [] s = refl
clock-load_records (r ∷ records) s = clock-load_records records _ ∙ clock-load_record r s

view-clear : (s : Store) (j : Bytes) → view (clear s) j ≡ none
unfolding view clear
view-clear s j = ground (arith, Dict.find-nil {V = Bytes} j)

clock-clear : (s : Store) → (clear s).clock ≡ s.clock
unfolding clear
clock-clear s = refl

or_else-none : (x : Option Held) → or_else x none ≡ x
unfolding or_else
or_else-none none = refl
or_else-none (some x) = refl

module _ {P R : Type 0} (pops : PersistenceOps P) (rops : ReplicationOps R) where
  -- The snapshot of a valid store, loaded by a replica in place of what it had, at that time or
  -- later, makes the replica show every key as the first store would show it by then.
  pub run_task-reset :
      (s : Store) (u : World P R)
      → IsValid s
      → s.clock ≤ℤ u.store.clock
      → Agree (record s { clock = u.store.clock }) (run_task pops rops (reset (snapshot s)) u).store
  unfolding run_task snapshot view
  run_task-reset s u v h =
      let fresh = clear u.store in
      let ticks : fresh.clock ≡ u.store.clock = clock-clear u.store in
      record {
        same_clock = clock-load_records (snapshot s) fresh ∙ ticks;
        same_view = λ j.
            view-load_snapshot_of s.expires s.clock v.no_sentinel s.map fresh j v.map_nodup
              (rw ticks h)
            ∙ ap (λ x. or_else (alive fresh.clock (Dict.find j s.map) (Dict.find j s.expires)) x)
                (view-clear u.store j)
            ∙ or_else-none _
            ∙ ap (λ (c : ℤ). alive c (Dict.find j s.map) (Dict.find j s.expires)) ticks;
      }
