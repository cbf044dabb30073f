-- ===== src/Examples/Replicas.antt =====
-- Two servers that agree, at two commands.
use redis_plus.Prelude.{
  ℕ, ◌+◌, ◌≡◌, ◌⊎◌, refl, sym, ap, ◌∙◌, true, false, some, List, [], ◌∷◌, Bytes, arith, Bool-cases,
  inl, inr,
}
use redis_plus.Prelude.Int.{ℤ, pos, eq_ℤ, eq_ℤ_iff}
use redis_plus.Store
use redis_plus.Store.{Store, snapshot, no_expiry, empty}
use redis_plus.Store.View.{view}
use redis_plus.Commands.Base.{Args, upper}
use redis_plus.Commands.Set.{canonical, cmd_set, scan_options, set_with, write_value}
use redis_plus.Commands.Verb.{verb_of}
use redis_plus.Commands.Ops.{World}
use redis_plus.Commands.Dispatch.{dispatch, run, run_verb, is_refused}
use redis_plus.Commands.Propagate.Set.{IsPrintable, clock-get}
use redis_plus.Commands.Propagate.Effects.{Agree, Prints}
use redis_plus.Commands.Propagate.Converge.{write_converges}
use redis_plus.Commands.Propagate.Series.{
  Step, run_both, Replicable, set_clock, master_step, store-master_step, run_both-Agree,
}
use redis_plus.Commands.Propagate.Clock.{clock-dispatch}
use redis_plus.Commands.Keyspace.{cmd_get}
use redis_plus.Handler.Table.{apply_silently}
use redis_plus.Examples.Data.{k, old, stored, counting, acking, world_of, get_k, set_k}
use redis_plus.Examples.Commands.{seen_same, same_view}

set_k-Prints : Prints set_k
set_k-Prints = record {
  set_prints = λ key value d e. by_mark key value d e (Bool-cases (eq_ℤ d no_expiry));
  expire_prints = λ key d e. absurd (cc e);
}
  where
    by_mark :
        (key value : Bytes) (d : ℤ)
        → set_k ≡ canonical key value d
        → (eq_ℤ d no_expiry ≡ true) ⊎ (eq_ℤ d no_expiry ≡ false)
        → IsPrintable d
    by_mark key value d e (inl undated) =
        rw ((eq_ℤ_iff d no_expiry).0 undated) (record { top = omega arith; bottom = omega arith })
    by_mark key value d e (inr dated) = let j = rw dated at e in absurd cc

-- the replica's store has reaped the dead key, and the master's has not
stored-Agree : Agree stored seen_same
stored-Agree = record { same_clock = clock-get old stored; same_view = λ i. sym (same_view i) }

set_k_propagates :
    (w : World ℕ ℕ)
    → ((dispatch counting acking set_k (some 4) w).0.dirty ≡ true)
      × ((dispatch counting acking set_k (some 4) w).0.propagate ≡ set_k)
unfolding dispatch run run_verb upper verb_of is_refused cmd_set scan_options set_with write_value
set_k_propagates w = ground arith

write_converges_example :
    view
      (apply_silently counting acking
        (dispatch counting acking set_k (some 4) (world_of stored)).0.propagate
        (world_of seen_same)).store
      k
    ≡ view (dispatch counting acking set_k (some 4) (world_of stored)).1.store k
write_converges_example =
    write_converges counting acking set_k (some 4) (world_of stored) (world_of seen_same)
      (set_k_propagates (world_of stored)).0 stored-Agree
      (rw (set_k_propagates (world_of stored)).1 set_k-Prints) k

get_k_propagates : (w : World ℕ ℕ) → (dispatch counting acking get_k (some 4) w).0.propagate ≡ []
unfolding dispatch run run_verb upper verb_of is_refused cmd_get
get_k_propagates w = ground arith

nil-Prints : Prints []
nil-Prints = record {
  set_prints = λ key value d e. absurd (by_mark key value d e (Bool-cases (eq_ℤ d no_expiry)));
  expire_prints = λ key d e. absurd (cc e);
}
  where
    by_mark :
        (key value : Bytes) (d : ℤ)
        → [] ≡ canonical key value d
        → (eq_ℤ d no_expiry ≡ true) ⊎ (eq_ℤ d no_expiry ≡ false)
        → ⊥
    by_mark key value d e (inl undated) = let j = rw undated at e in cc
    by_mark key value d e (inr dated) = let j = rw dated at e in cc

-- the hook counts the writes
abbrev hook : Args → World ℕ ℕ → World ℕ ℕ
hook args w = record w { uptime = w.uptime + 1 }

abbrev set_then_get : List Step
set_then_get = (pos 1500, (set_k, some 4)) ∷ (pos 1600, (get_k, some 4)) ∷ []

after_set : World ℕ ℕ
after_set = master_step counting acking hook (pos 1500, (set_k, some 4)) (world_of stored)

after_set_clock : after_set.store.clock ≡ pos 1500
unfolding after_set
after_set_clock =
    ap (λ (t : Store). t.clock)
      (store-master_step counting acking hook (λ args w. refl) (pos 1500) set_k (some 4)
        (world_of stored))
    ∙ clock-dispatch counting acking set_k (some 4) (set_clock (pos 1500) (world_of stored))

second_in_time : Replicable counting acking hook ((pos 1600, (get_k, some 4)) ∷ []) after_set
second_in_time = (
  rw after_set_clock (omega arith),
  rw (get_k_propagates (set_clock (pos 1600) after_set)) nil-Prints,
  tt,
)

in_time : Replicable counting acking hook set_then_get (world_of stored)
unfolding after_set
in_time = (
  unfold Store.set in omega arith,
  rw (set_k_propagates (set_clock (pos 1500) (world_of stored))).1 set_k-Prints,
  second_in_time,
)

run_both-Agree_example :
    Agree
      (run_both counting acking hook set_then_get (world_of stored) (world_of seen_same)).0.store
      (run_both counting acking hook set_then_get (world_of stored) (world_of seen_same)).1.store
run_both-Agree_example =
    run_both-Agree counting acking hook (λ args w. refl) set_then_get (world_of stored)
      (world_of seen_same) in_time stored-Agree
