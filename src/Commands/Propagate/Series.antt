-- ===== src/Commands/Propagate/Series.antt =====
-- A series of commands on a master, and what its replica does with the writes.
use redis_plus.Prelude.{
  ◌≡◌, refl, sym, ap, ◌∙◌, Option, none, some, List, [], ◌∷◌, Bytes, arith, if◌then◌else◌,
  Bool-cases, inl, inr,
}
use redis_plus.Prelude.Int.{ℤ, ◌≤ℤ◌}
use redis_plus.Dict
use redis_plus.Store.{Store, past}
use redis_plus.Store.View.{Held, view}
use redis_plus.Store.Snapshot.{past_later}
use redis_plus.Commands.Base.{Args}
use redis_plus.Commands.Ops.{Link, PersistenceOps, ReplicationOps, World}
use redis_plus.Commands.Dispatch.{dispatch}
use redis_plus.Commands.Propagate.Whole.{dispatch-Silent}
use redis_plus.Commands.Propagate.Effects.{Agree, Prints}
use redis_plus.Commands.Propagate.Converge.{write_converges}
use redis_plus.Commands.Propagate.Clock.{clock-dispatch}
use redis_plus.Handler
use redis_plus.Handler.Table.{apply_silently}

abbrev seen_later : ℤ → Option Held → Option Held
seen_later later none = none
seen_later later (some (value, deadline)) =
    if past later deadline then none else some (value, deadline)

-- What is seen later hangs on what is seen now alone.
view-later :
    (s : Store) (later : ℤ) (j : Bytes)
    → s.clock ≤ℤ later
    → view (record s { clock = later }) j ≡ seen_later later (view s j)
unfolding view
view-later s later j h = ground (arith, past_later (Dict.find j s.expires) s.clock later h)

pub Agree-later :
    (s u : Store) (later : ℤ)
    → s.clock ≤ℤ later
    → Agree s u
    → Agree (record s { clock = later }) (record u { clock = later })
Agree-later s u later h agree = record {
  same_clock = refl;
  same_view = λ i.
      view-later u later i (rw agree.same_clock h)
      ∙ ap (seen_later later) (agree.same_view i)
      ∙ sym (view-later s later i h);
}

-- the time, the command, and the client of a step
abbrev pub Step : Type 0
Step = ℤ × (Args × Link)

abbrev pub set_clock : {P R : Type 0} → ℤ → World P R → World P R
set_clock now w = record w { store = record w.store { clock = now } }

module _ {P R : Type 0} (pops : PersistenceOps P) (rops : ReplicationOps R)
    (hook : Args → World P R → World P R) where
  -- a command on the master, with its hook
  abbrev pub master_step : Step → World P R → World P R
  master_step (now, (args, link)) w =
      let (r, v) = dispatch pops rops args link (set_clock now w) in
      Handler.propagated (λ a. dispatch pops rops a link) (some hook) r v

  -- what the replica does of it
  abbrev replica_step : Step → World P R → World P R → World P R
  replica_step (now, (args, link)) w u =
      let r = (dispatch pops rops args link (set_clock now w)).0 in
      if r.dirty then apply_silently pops rops r.propagate (set_clock now u) else set_clock now u

  -- both, command by command
  unfoldable pub run_both : List Step → World P R → World P R → World P R × World P R
  run_both [] w u = (w, u)
  run_both (step ∷ steps) w u = run_both steps (master_step step w) (replica_step step w u)

  -- The times do not go back, and each deadline that is propagated is an int64 other than the smallest.
  abbrev pub Replicable : List Step → World P R → Type 0
  Replicable [] w = Unit
  Replicable ((now, (args, link)) ∷ steps) w =
      (w.store.clock ≤ℤ now)
      × Prints (dispatch pops rops args link (set_clock now w)).0.propagate
      × Replicable steps (master_step (now, (args, link)) w)

  clock-apply_silently :
      (p : Args) (u : World P R) → (apply_silently pops rops p u).store.clock ≡ u.store.clock
  unfolding apply_silently
  clock-apply_silently p u = clock-dispatch pops rops p none u

  module _ (keeps : (args : Args) (w : World P R) → (hook args w).store ≡ w.store) where
    pub store-master_step :
        (now : ℤ) (args : Args) (link : Link) (w : World P R)
        → (master_step (now, (args, link)) w).store
          ≡ (dispatch pops rops args link (set_clock now w)).1.store
    unfolding Handler.propagated
    store-master_step now args link w =
        let (r, v) = dispatch pops rops args link (set_clock now w) in
        ground (arith, keeps r.propagate v)

    Agree-step :
        (now : ℤ) (args : Args) (link : Link) (w u : World P R)
        → w.store.clock ≤ℤ now
        → Prints (dispatch pops rops args link (set_clock now w)).0.propagate
        → Agree w.store u.store
        → Agree
            (master_step (now, (args, link)) w).store
            (replica_step (now, (args, link)) w u).store
    Agree-step now args link w u h prints agree =
        let w1 = set_clock now w in
        let u1 = set_clock now u in
        let r = (dispatch pops rops args link w1).0 in
        let both = Agree-later w.store u.store now h agree in
        let ticks = clock-dispatch pops rops args link w1 in
        rw (store-master_step now args link w) (elim (Bool-cases r.dirty) [
          | inl dirty ↦ rw dirty (record {
            same_clock = clock-apply_silently r.propagate u1 ∙ sym ticks;
            same_view = write_converges pops rops args link w1 u1 dirty both prints;
          })
          | inr clean ↦ rw clean (record {
            same_clock = sym ticks;
            same_view =
                λ i. both.same_view i ∙ sym (dispatch-Silent pops rops args link w1 i clean);
          })
        ])

    -- Of two servers that agree, at the same time and with the same keys seen, one runs a series
    -- of commands from any clients, the clock not going back, with a hook that leaves the store
    -- alone; if the other applies what each command that is dirty propagates, at the time of the
    -- command, they agree at the end. Each deadline that is propagated is an int64 other than the
    -- smallest.
    pub run_both-Agree :
        (steps : List Step) (w u : World P R)
        → Replicable steps w
        → Agree w.store u.store
        → Agree (run_both steps w u).0.store (run_both steps w u).1.store
    unfolding run_both
    run_both-Agree [] w u ok agree = agree
    run_both-Agree ((now, (args, link)) ∷ steps) w u (h, prints, rest) agree =
        run_both-Agree steps (master_step (now, (args, link)) w)
          (replica_step (now, (args, link)) w u) rest (Agree-step now args link w u h prints agree)
