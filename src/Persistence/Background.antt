-- ===== src/Persistence/Background.antt =====
-- Background saves: what is counted, and what is not.
use redis_plus.Prelude.{
  ◌≡◌, refl, ◌∙◌, Bool, true, false, none, List, Bytes, if◌then◌else◌, arith, ◌<◌, length, sym, ap,
}
use redis_plus.Prelude.Int.{ℤ, two_64}
use redis_plus.Store.{Record, bump}
use redis_plus.Commands.Base.{Args}
use redis_plus.Aof.{Fwrite}
use redis_plus.Persistence.{
  Persistence, RewriteOutcome, background_save, finish_background, cron_aof, cron_reap, cron,
}
use redis_plus.Persistence.Saves.{
  on_writes, save_due, SameSaves-on_writes, Reaped-cron_reap, SameSaves-cron_aof, dirty-on_writes,
  dirty-cron_aof, saving-cron_schedule, schedule_lem, started_lem, failed-finish_background,
  unreaped,
}

-- A background save is accepted, fewer than 2 ^ 64 writes come while it runs, its thread ends,
-- and cron runs, with any state of the log. Then it is counted once, as saved or as failed by how
-- it ended; the time of the last save is that of this cron if it succeeded and the old one if
-- not; the same cron has started another save exactly if the configuration asks for one after
-- those writes and that time; and the only thread left to join is the one of such a save.
pub background_save_counted :
    (started now again : ℤ) (written : Fwrite) (short : Bytes) (records : List Record)
    (o : RewriteOutcome) (ok : Bool) (writes : List Args) (p : Persistence)
    → (background_save started p).0 ≡ none
    → length writes < two_64
    → (t : Persistence) × (t
        ≡ cron now again written short records o
            (finish_background ok (on_writes writes (background_save started p).1)))
      × (t.saves_ok ≡ (if ok then bump p.saves_ok 1 else p.saves_ok))
      × (t.saves_failed ≡ (if ok then p.saves_failed else bump p.saves_failed 1))
      × (t.last_save_ms ≡ (if ok then now else p.last_save_ms))
      × (t.saving ≡ save_due p.config (length writes) now t.last_save_ms)
      × (t.joinable ≡ t.saving)
unfolding cron finish_background
background_save_counted started now again written short records o ok writes p h few =
    let began = (background_save started p).1 in
    let (joinable, well, fresh, c, so, sf, sl) = started_lem started p h in
    let wrote = SameSaves-on_writes writes began in
    let ended = finish_background ok (on_writes writes began) in
    let log = cron_aof now written short records o ended in
    let same = SameSaves-cron_aof now written short records o ended in
    let reaped =
      Reaped-cron_reap ok now p log same.same_saving
        (same.same_joinable ∙ wrote.same_joinable ∙ joinable)
        (same.same_failed
          ∙ failed-finish_background ok (on_writes writes began) (wrote.same_failed ∙ well))
        (same.same_ok ∙ wrote.same_ok ∙ so) (same.same_bad ∙ wrote.same_bad ∙ sf)
        (same.same_time ∙ wrote.same_time ∙ sl) in
    let (a1, a2, a3, a4) = schedule_lem now again (cron_reap now log) reaped.quiet reaped.joined in
    let many : (on_writes writes began).dirty ≡ length writes =
      omega (arith, fresh, dirty-on_writes writes began (omega (arith, few, fresh))) in
    let count : (cron_reap now log).dirty ≡ length writes =
      (unreaped now log).0 ∙ dirty-cron_aof now written short records o ended ∙ many in
    let conf : (cron_reap now log).config ≡ p.config =
      (unreaped now log).1 ∙ same.same_config ∙ wrote.same_config ∙ c in
    (
      _,
      refl,
      a1 ∙ reaped.counted_ok,
      a2 ∙ reaped.counted_bad,
      a3 ∙ reaped.time,
      saving-cron_schedule now again (cron_reap now log) reaped.quiet
          ∙ ap (λ g. save_due g (cron_reap now log).dirty now (cron_reap now log).last_save_ms) conf
          ∙ ap (λ n. save_due p.config n now (cron_reap now log).last_save_ms) count
          ∙ ap (λ k. save_due p.config (length writes) now k) (sym a3),
      a4,
    )

-- If an accepted background save fails and the next one is asked for before cron has run, that
-- one is accepted, and when it succeeds the counter of failures and the last error stand as
-- before both.
pub background_save_forgets :
    (started again now : ℤ) (p : Persistence)
    → (background_save started p).0 ≡ none
    → (t : Persistence) × (t ≡ finish_background false (background_save started p).1)
      × ((background_save again t).0 ≡ none)
      × ((cron_reap now (finish_background true (background_save again t).1)).saves_failed
          ≡ p.saves_failed)
      × ((cron_reap now (finish_background true (background_save again t).1)).last_error
          ≡ p.last_error)
unfolding background_save finish_background cron_reap
background_save_forgets started again now p h = (_, refl, ground arith, ground arith, ground arith)
