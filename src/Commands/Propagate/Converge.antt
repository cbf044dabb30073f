-- ===== src/Commands/Propagate/Converge.antt =====
-- A write on one server, and what it propagates on another.
use redis_plus.Prelude.{
  ◌≡◌, ◌≢◌, refl, sym, ap, ◌∙◌, true, false, Option, none, some, [], ◌∷◌, Bytes, codes, arith,
}
use redis_plus.Store.{Store}
use redis_plus.Store.View.{view}
use redis_plus.Commands.Base.{Args, CommandResult, Outcome, upper}
use redis_plus.Commands.Keyspace.{cmd_del, cmd_persist, cmd_flushall}
use redis_plus.Commands.Verb.{Verb, verb_of}
use redis_plus.Commands.Ops.{Link, PersistenceOps, ReplicationOps, World}
use redis_plus.Commands.Admin.{other_verb}
use redis_plus.Commands.Dispatch.{run_verb, run, or_original, dispatch}
use redis_plus.Commands.Propagate.Whole.{view-cmd_del, view-cmd_persist, view-clear}
use redis_plus.Handler.Table.{apply_silently}
use redis_plus.Commands.Propagate.Plain.{
  clean-other_verb, of_replication, dirty_runs, store_of, applied, Plain, store-apply_silently,
}
use redis_plus.Commands.Propagate.Asks.{
  clean-cmd_get, clean-cmd_exists, clean-cmd_type, clean-cmd_keys, clean-cmd_ttl,
}
use redis_plus.Commands.Propagate.Effects.{
  Prints, Agree, or_original-dirty, or_original-full, set_converges, expire_converges,
}

propagate-cmd_del :
    (a : Args) (s : Store) → (cmd_del a s).0.dirty ≡ true → (cmd_del a s).0.propagate ≡ a
unfolding cmd_del
propagate-cmd_del (name ∷ key ∷ ks) s h = ground arith
propagate-cmd_del [] s h = absurd cc
propagate-cmd_del (_ ∷ []) s h = absurd cc

propagate-cmd_persist :
    (a : Args) (s : Store) → (cmd_persist a s).0.dirty ≡ true → (cmd_persist a s).0.propagate ≡ a
unfolding cmd_persist
propagate-cmd_persist (name ∷ key ∷ []) s h = ground arith
propagate-cmd_persist [] s h = absurd cc
propagate-cmd_persist (_ ∷ []) s h = absurd cc
propagate-cmd_persist (_ ∷ _ ∷ _ ∷ _) s h = absurd cc

-- what an outcome on `s` means for a store `u` that agrees with it
abbrev Converges : Bytes → Args → Store → Option Outcome → Type 0
Converges a rest u none = Unit
Converges a rest u (some x) =
    x.0.dirty ≡ true
    → Prints (or_original (a ∷ rest) x.0).propagate
    → Plain (or_original (a ∷ rest) x.0).propagate
      × ((j : Bytes) → view (applied (or_original (a ∷ rest) x.0).propagate u) j ≡ view x.1 j)

-- A command that propagates itself.
itself-Converges :
    (verb : Verb) (a : Bytes) (rest : Args) (x y : Outcome) (u : Store)
    → of_replication (upper a) ≡ false
    → verb_of (upper a) ≡ verb
    → run_verb verb (a ∷ rest) u ≡ some y
    → (x.0.dirty ≡ true → x.0.propagate ≡ a ∷ rest)
    → ((j : Bytes) → view y.1 j ≡ view x.1 j)
    → Converges a rest u (some x)
unfolding applied
itself-Converges verb a rest x y u plain named ran sent same h prints =
    let whole = or_original-full (a ∷ rest) (a ∷ rest) x.0 (λ e. cc e) (sent h) in
    (
      rw whole plain,
      λ j.
          ap (λ q. view (applied q u) j) whole
          ∙ ap (λ v. view (store_of u (run_verb v (a ∷ rest) u)) j) named
          ∙ ap (λ o. view (store_of u o) j) ran
          ∙ same j,
    )

verb-Converges :
    (verb : Verb) (a : Bytes) (rest : Args) (s u : Store)
    → of_replication (upper a) ≡ false
    → verb_of (upper a) ≡ verb
    → Agree s u
    → Converges a rest u (run_verb verb (a ∷ rest) s)
unfolding run_verb cmd_flushall
verb-Converges Verb.set a rest s u plain e g = λ h. set_converges (a ∷ rest) s u h g
verb-Converges Verb.del a rest s u plain e g =
    itself-Converges Verb.del a rest (cmd_del (a ∷ rest) s) (cmd_del (a ∷ rest) u) u plain e refl
      (propagate-cmd_del (a ∷ rest) s) (view-cmd_del (a ∷ rest) u s g.same_view)
verb-Converges Verb.persist a rest s u plain e g =
    itself-Converges Verb.persist a rest (cmd_persist (a ∷ rest) s) (cmd_persist (a ∷ rest) u) u
      plain e refl (propagate-cmd_persist (a ∷ rest) s)
      (view-cmd_persist (a ∷ rest) u s g.same_view)
verb-Converges Verb.flushall a rest s u plain e g =
    itself-Converges Verb.flushall a rest (cmd_flushall (a ∷ rest) s) (cmd_flushall (a ∷ rest) u) u
      plain e refl (λ h. refl) (λ j. view-clear u j ∙ sym (view-clear s j))
verb-Converges Verb.expire a rest s u plain e g =
    λ h. expire_converges true false _ (a ∷ rest) s u h g
verb-Converges Verb.pexpire a rest s u plain e g =
    λ h. expire_converges false false _ (a ∷ rest) s u h g
verb-Converges Verb.expireat a rest s u plain e g =
    λ h. expire_converges true true _ (a ∷ rest) s u h g
verb-Converges Verb.pexpireat a rest s u plain e g =
    λ h. expire_converges false true _ (a ∷ rest) s u h g
verb-Converges Verb.get a rest s u plain e g = λ h. let k = clean-cmd_get (a ∷ rest) s in absurd cc
verb-Converges Verb.exists a rest s u plain e g =
    λ h. let k = clean-cmd_exists (a ∷ rest) s in absurd cc
verb-Converges Verb.type a rest s u plain e g =
    λ h. let k = clean-cmd_type (a ∷ rest) s in absurd cc
verb-Converges Verb.keys a rest s u plain e g =
    λ h. let k = clean-cmd_keys (a ∷ rest) s in absurd cc
verb-Converges Verb.ttl a rest s u plain e g =
    λ h. let k = clean-cmd_ttl true (codes "ttl") (a ∷ rest) s in absurd cc
verb-Converges Verb.pttl a rest s u plain e g =
    λ h. let k = clean-cmd_ttl false (codes "pttl") (a ∷ rest) s in absurd cc
verb-Converges Verb.ping a rest s u plain e g = λ h. absurd cc
verb-Converges Verb.echo a rest s u plain e g = λ h. absurd cc
verb-Converges Verb.config a rest s u plain e g = λ h. absurd cc
verb-Converges Verb.dbsize a rest s u plain e g = λ h. absurd cc
verb-Converges Verb.command a rest s u plain e g = λ h. absurd cc
verb-Converges Verb.select a rest s u plain e g = λ h. absurd cc
verb-Converges Verb.quit a rest s u plain e g = λ h. absurd cc
verb-Converges Verb.save a rest s u plain e g = tt
verb-Converges Verb.bgsave a rest s u plain e g = tt
verb-Converges Verb.bgrewriteaof a rest s u plain e g = tt
verb-Converges Verb.info a rest s u plain e g = tt
verb-Converges Verb.unknown a rest s u plain e g = tt

module _ {P R : Type 0} (pops : PersistenceOps P) (rops : ReplicationOps R) where
  -- a dispatch's result, its propagation applied to another server that agrees
  abbrev Reaches : World P R → CommandResult × World P R → Type 0
  Reaches u d =
      d.0.dirty ≡ true
      → Prints d.0.propagate
      → (j : Bytes) → view (apply_silently pops rops d.0.propagate u).store j ≡ view d.1.store j

  ran_none :
      (verb : Verb) (a : Bytes) (rest : Args) (w : World P R)
      → run_verb verb (a ∷ rest) w.store ≡ none
      → run pops rops verb a rest w ≡ other_verb pops rops verb a rest w
  unfolding run
  ran_none verb a rest w e = rw (e, run) refl

  ran_some :
      (verb : Verb) (a : Bytes) (rest : Args) (w : World P R) (r : CommandResult) (t : Store)
      → run_verb verb (a ∷ rest) w.store ≡ some (r, t)
      → run pops rops verb a rest w ≡ (or_original (a ∷ rest) r, record w { store = t })
  unfolding run
  ran_some verb a rest w r t e = rw (e, run) refl

  clean_nothing : (link : Link) (w : World P R) → (dispatch pops rops [] link w).0.dirty ≢ true
  unfolding dispatch
  clean_nothing link w e = cc

  run_converges :
      (a : Bytes) (rest : Args) (w u : World P R)
      → of_replication (upper a) ≡ false
      → Agree w.store u.store
      → Reaches u (run pops rops (verb_of (upper a)) a rest w)
  run_converges a rest w u plain agree =
      by_outcome (run_verb verb (a ∷ rest) w.store) refl
        (verb-Converges verb a rest w.store u.store plain refl agree)
    where
      verb : Verb
      verb = verb_of (upper a)

      by_outcome :
          (o : Option Outcome)
          → run_verb verb (a ∷ rest) w.store ≡ o
          → Converges a rest u.store o
          → Reaches u (run pops rops verb a rest w)
      by_outcome none e c =
          rw (ran_none verb a rest w e)
            (λ h. let k = clean-other_verb pops rops verb a rest w in absurd cc)
      by_outcome (some (r, t)) e c = rw (ran_some verb a rest w r t e) (λ h prints j.
          let (sent, same) = c (sym (or_original-dirty (a ∷ rest) r) ∙ h) prints in
          ap (λ (k : Store). view k j)
            (store-apply_silently pops rops (or_original (a ∷ rest) r).propagate u sent)
          ∙ same j)

  -- If a command of any client writes, then what it propagates, applied to a server at the same
  -- time that shows the same for every key, leaves both showing the same for every key; each
  -- deadline that is propagated is an int64 other than the smallest.
  pub write_converges :
      (args : Args) (link : Link) (w u : World P R)
      → (dispatch pops rops args link w).0.dirty ≡ true
      → Agree w.store u.store
      → Prints (dispatch pops rops args link w).0.propagate
      → (j : Bytes)
      → view (apply_silently pops rops (dispatch pops rops args link w).0.propagate u).store j
        ≡ view (dispatch pops rops args link w).1.store j
  write_converges [] link w u h agree prints j = absurd (clean_nothing link w h)
  write_converges (a ∷ rest) link w u h agree prints j =
      let (plain, ran) = dirty_runs pops rops a rest link w h in
      reached ran (run_converges a rest w u plain agree) h prints j
    where
      reached :
          dispatch pops rops (a ∷ rest) link w ≡ run pops rops (verb_of (upper a)) a rest w
          → Reaches u (run pops rops (verb_of (upper a)) a rest w)
          → Reaches u (dispatch pops rops (a ∷ rest) link w)
      reached e k = rw e k
