-- ===== src/Persistence/Saves.antt =====
-- The saves through the steps of `Persistence`: what each step leaves alone.
use redis_plus.Prelude.{
  ◌≡◌, refl, ◌∙◌, Bool, true, false, not, none, List, [], ◌∷◌, Bytes, if◌then◌else◌, ◌&&◌, leb,
  arith, ℕ, ◌+◌, ◌<◌, length,
}
use redis_plus.Prelude.Int.{ℤ, pos, ltb_ℤ, leb_ℤ, ◌-ℤ◌, times_1000, to_u64, two_64}
use redis_plus.Store.{Record, bump}
use redis_plus.Commands.Base.{Args}
use redis_plus.Aof
use redis_plus.Aof.{Fwrite}
use redis_plus.Persistence.{
  Persistence, PersistenceConfig, RewriteOutcome, on_write, after_flush, after_rewrite, rewrite_aof,
  noted, background_save, finish_background, cron_aof, cron_reap, cron_schedule,
}

-- two states that agree on the configuration and on the saves
pub record SameSaves (p q : Persistence) : Type 0 where
  pub same_config : q.config ≡ p.config
  pub same_saving : q.saving ≡ p.saving
  pub same_failed : q.background_failed ≡ p.background_failed
  pub same_joinable : q.joinable ≡ p.joinable
  pub same_ok : q.saves_ok ≡ p.saves_ok
  pub same_bad : q.saves_failed ≡ p.saves_failed
  pub same_time : q.last_save_ms ≡ p.last_save_ms

only_others :
    {p q : Persistence}
    → q.config ≡ p.config
    → q.saving ≡ p.saving
    → q.background_failed ≡ p.background_failed
    → q.joinable ≡ p.joinable
    → q.saves_ok ≡ p.saves_ok
    → q.saves_failed ≡ p.saves_failed
    → q.last_save_ms ≡ p.last_save_ms
    → SameSaves p q
only_others a b c d e f g = record {
  same_config = a;
  same_saving = b;
  same_failed = c;
  same_joinable = d;
  same_ok = e;
  same_bad = f;
  same_time = g;
}

SameSaves-trans : {p q r : Persistence} → SameSaves p q → SameSaves q r → SameSaves p r
SameSaves-trans a b =
    only_others (b.same_config ∙ a.same_config) (b.same_saving ∙ a.same_saving)
      (b.same_failed ∙ a.same_failed) (b.same_joinable ∙ a.same_joinable) (b.same_ok ∙ a.same_ok)
      (b.same_bad ∙ a.same_bad) (b.same_time ∙ a.same_time)

-- both branches of a test
either_branch :
    {A : Type 0} (Q : A → Type 0) (b : Bool) (x y : A) → Q x → Q y → Q (if b then x else y)
either_branch Q true x y f g = f
either_branch Q false x y f g = g

SameSaves-self : (p : Persistence) → SameSaves p p
SameSaves-self p = only_others refl refl refl refl refl refl refl

SameSaves-on_write : (args : Args) (p : Persistence) → SameSaves p (on_write args p)
unfolding on_write
SameSaves-on_write args p =
    either_branch (SameSaves p) p.config.aof_enabled _ _
      (only_others refl refl refl refl refl refl refl)
      (only_others refl refl refl refl refl refl refl)

SameSaves-after_flush :
    (short : Bytes) (p : Persistence) (r : Bool × Aof.Aof) → SameSaves p (after_flush short p r)
SameSaves-after_flush short p (true, a) = only_others refl refl refl refl refl refl refl
SameSaves-after_flush short p (false, a) = only_others refl refl refl refl refl refl refl

SameSaves-after_rewrite :
    (error : Bytes) (p : Persistence) (r : Bool × Aof.Aof)
    → SameSaves p (noted (after_rewrite error p r))
SameSaves-after_rewrite error p (true, a) = only_others refl refl refl refl refl refl refl
SameSaves-after_rewrite error p (false, a) = only_others refl refl refl refl refl refl refl

SameSaves-rewrite_aof :
    (records : List Record) (o : RewriteOutcome) (p : Persistence)
    → SameSaves p (noted (rewrite_aof records o p))
unfolding rewrite_aof
SameSaves-rewrite_aof records o p =
    either_branch (λ r. SameSaves p (noted r)) p.config.aof_enabled _ _
      (SameSaves-after_rewrite o.error p _) (only_others refl refl refl refl refl refl refl)

-- The log's part of cron leaves the saves alone.
pub SameSaves-cron_aof :
    (now : ℤ) (o : Fwrite) (short : Bytes) (records : List Record) (r : RewriteOutcome)
    (p : Persistence)
    → SameSaves p (cron_aof now o short records r p)
unfolding cron_aof
SameSaves-cron_aof now o short records r p =
    let flushed = after_flush short p (Aof.flush now o p.aof) in
    let first = SameSaves-after_flush short p (Aof.flush now o p.aof) in
    let second = SameSaves-trans first (SameSaves-rewrite_aof records r flushed) in
    either_branch (SameSaves p) p.config.aof_enabled _ _
      (either_branch (SameSaves p) _ _ _ second first) (SameSaves-self p)

-- the writes that come while the thread runs
unfoldable pub on_writes : List Args → Persistence → Persistence
on_writes [] p = p
on_writes (args ∷ rest) p = on_writes rest (on_write args p)

pub SameSaves-on_writes : (writes : List Args) (p : Persistence) → SameSaves p (on_writes writes p)
unfolding on_writes
SameSaves-on_writes [] p = SameSaves-self p
SameSaves-on_writes (args ∷ rest) p =
    SameSaves-trans (SameSaves-on_write args p) (SameSaves-on_writes rest (on_write args p))

-- what a reap makes of the saves after a thread that ended in `ok`
pub record Reaped (ok : Bool) (now : ℤ) (p q : Persistence) : Type 0 where
  pub counted_ok : q.saves_ok ≡ (if ok then bump p.saves_ok 1 else p.saves_ok)
  pub counted_bad : q.saves_failed ≡ (if ok then p.saves_failed else bump p.saves_failed 1)
  pub time : q.last_save_ms ≡ (if ok then now else p.last_save_ms)
  pub quiet : q.saving ≡ false
  pub joined : q.joinable ≡ false

-- the end of a thread that ran, whatever else happened
pub Reaped-cron_reap :
    (ok : Bool) (now : ℤ) (p q : Persistence)
    → q.saving ≡ false
    → q.joinable ≡ true
    → q.background_failed ≡ not ok
    → q.saves_ok ≡ p.saves_ok
    → q.saves_failed ≡ p.saves_failed
    → q.last_save_ms ≡ p.last_save_ms
    → Reaped ok now p (cron_reap now q)
unfolding cron_reap
Reaped-cron_reap ok now p q a b c d e f = record {
  counted_ok = ground arith;
  counted_bad = ground arith;
  time = ground arith;
  quiet = ground arith;
  joined = ground arith;
}

pub schedule_lem :
    (now again : ℤ) (r : Persistence)
    → r.saving ≡ false
    → r.joinable ≡ false
    → ((cron_schedule now again r).saves_ok ≡ r.saves_ok)
      × ((cron_schedule now again r).saves_failed ≡ r.saves_failed)
      × ((cron_schedule now again r).last_save_ms ≡ r.last_save_ms)
      × ((cron_schedule now again r).joinable ≡ (cron_schedule now again r).saving)
unfolding cron_schedule background_save
schedule_lem now again r quiet joined = (ground arith, ground arith, ground arith, ground arith)

pub dirty-on_writes :
    (writes : List Args) (p : Persistence)
    → p.dirty + length writes < two_64
    → (on_writes writes p).dirty ≡ p.dirty + length writes
unfolding on_writes on_write
dirty-on_writes [] p h = omega arith
dirty-on_writes (args ∷ rest) p h =
    let one : (on_write args p).dirty ≡ p.dirty + 1 = ground arith in
    ground (arith, dirty-on_writes rest (on_write args p) (omega (arith, one, h)), one)

dirty-after_flush :
    (short : Bytes) (p : Persistence) (r : Bool × Aof.Aof) → (after_flush short p r).dirty ≡ p.dirty
dirty-after_flush short p (true, a) = refl
dirty-after_flush short p (false, a) = refl

dirty-after_rewrite :
    (error : Bytes) (p : Persistence) (r : Bool × Aof.Aof)
    → (noted (after_rewrite error p r)).dirty ≡ p.dirty
dirty-after_rewrite error p (true, a) = refl
dirty-after_rewrite error p (false, a) = refl

dirty-rewrite_aof :
    (records : List Record) (o : RewriteOutcome) (p : Persistence)
    → (noted (rewrite_aof records o p)).dirty ≡ p.dirty
unfolding rewrite_aof
dirty-rewrite_aof records o p =
    either_branch (λ r. (noted r).dirty ≡ p.dirty) p.config.aof_enabled _ _
      (dirty-after_rewrite o.error p _) refl

pub dirty-cron_aof :
    (now : ℤ) (o : Fwrite) (short : Bytes) (records : List Record) (r : RewriteOutcome)
    (p : Persistence)
    → (cron_aof now o short records r p).dirty ≡ p.dirty
unfolding cron_aof
dirty-cron_aof now o short records r p =
    let flushed = after_flush short p (Aof.flush now o p.aof) in
    let first = dirty-after_flush short p (Aof.flush now o p.aof) in
    let second = dirty-rewrite_aof records r flushed ∙ first in
    either_branch (λ (q : Persistence). q.dirty ≡ p.dirty) p.config.aof_enabled _ _
      (either_branch (λ (q : Persistence). q.dirty ≡ p.dirty) _ _ _ second first) refl

-- whether the configuration asks for a save, `writes` writes after the last one at `last`
unfoldable pub save_due : PersistenceConfig → ℕ → ℤ → ℤ → Bool
save_due c writes now last =
    c.rdb_enabled
    && (ltb_ℤ (pos 0) c.save_seconds && ltb_ℤ (pos 0) c.save_changes)
    && (leb (to_u64 c.save_changes) writes && leb_ℤ (times_1000 c.save_seconds) (now -ℤ last))

pub saving-cron_schedule :
    (now again : ℤ) (r : Persistence)
    → r.saving ≡ false
    → (cron_schedule now again r).saving ≡ save_due r.config r.dirty now r.last_save_ms
unfolding cron_schedule background_save save_due
saving-cron_schedule now again r quiet = ground arith

-- An accepted save has its thread, no failure yet and no write since.
pub started_lem :
    (started : ℤ) (p : Persistence)
    → (background_save started p).0 ≡ none
    → ((background_save started p).1.joinable ≡ true)
      × ((background_save started p).1.background_failed ≡ false)
      × ((background_save started p).1.dirty ≡ 0)
      × ((background_save started p).1.config ≡ p.config)
      × ((background_save started p).1.saves_ok ≡ p.saves_ok)
      × ((background_save started p).1.saves_failed ≡ p.saves_failed)
      × ((background_save started p).1.last_save_ms ≡ p.last_save_ms)
unfolding background_save
started_lem started p h = (
  ground arith,
  ground arith,
  ground arith,
  ground arith,
  ground arith,
  ground arith,
  ground arith,
)

pub failed-finish_background :
    (ok : Bool) (p : Persistence)
    → p.background_failed ≡ false
    → (finish_background ok p).background_failed ≡ not ok
unfolding finish_background
failed-finish_background ok p h = ground arith

pub unreaped :
    (now : ℤ) (p : Persistence)
    → ((cron_reap now p).dirty ≡ p.dirty) × ((cron_reap now p).config ≡ p.config)
unfolding cron_reap
unreaped now p = (ground arith, ground arith)
