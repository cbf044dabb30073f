-- ===== src/Program/Hook.antt =====
-- What the hook of src/main.cpp hands to its two consumers.
use redis_plus.Prelude.{
  ℕ, ◌≡◌, ◌≢◌, refl, sym, ap, ◌∙◌, true, some, List, [], ◌∷◌, ◌++◌, append_assoc, append-nil, Bytes,
  All, arith,
}
use redis_plus.Resp.Reply.{encode}
use redis_plus.Aof
use redis_plus.Aof.{is_open}
use redis_plus.Persistence
use redis_plus.Persistence.{Persistence}
use redis_plus.Commands.Base.{Args}
use redis_plus.Commands.Ops.{World}
use redis_plus.Handler.Pipeline.{encode_all}
use redis_plus.Replication.{Replication, sent_to}
use redis_plus.Replication.Master.{propagate}
use redis_plus.Replication.Master.Sent.{entries, advance, propagate_all, sent_to-propagate_all}
use redis_plus.Program.{hook}

-- the hook, for a list of writes
unfoldable pub hook_all : List Args → World Persistence Replication → World Persistence Replication
hook_all [] w = w
hook_all (args ∷ rest) w = hook_all rest (hook args w)

unfoldable write_all : List Args → Persistence → Persistence
write_all [] p = p
write_all (args ∷ rest) p = write_all rest (Persistence.on_write args p)

replication-hook_all :
    (commands : List Args) (w : World Persistence Replication) (r : Replication)
    → w.replication ≡ some r
    → (hook_all commands w).replication ≡ some (propagate_all commands r)
unfolding hook_all propagate_all hook
replication-hook_all [] w r e = e
replication-hook_all (args ∷ rest) w r e =
    replication-hook_all rest (hook args w) (propagate args r) (ground (arith, e))

persistence-hook_all :
    (commands : List Args) (w : World Persistence Replication) (p : Persistence)
    → w.persistence ≡ some p
    → (hook_all commands w).persistence ≡ some (write_all commands p)
unfolding hook_all write_all hook
persistence-hook_all [] w p e = e
persistence-hook_all (args ∷ rest) w p e =
    persistence-hook_all rest (hook args w) (Persistence.on_write args p) (ground (arith, e))

store-hook_all :
    (commands : List Args) (w : World Persistence Replication)
    → (hook_all commands w).store ≡ w.store
unfolding hook_all hook
store-hook_all [] w = refl
store-hook_all (args ∷ rest) w = store-hook_all rest (hook args w)

-- A log that is on and open takes a command behind the others, and stays so.
logged :
    (args : Args) (p : Persistence) (f : Bytes)
    → args ≢ []
    → p.config.aof_enabled ≡ true
    → p.aof.file ≡ some f
    → ((Persistence.on_write args p).aof.buffer ≡ p.aof.buffer ++ encode args)
      × ((Persistence.on_write args p).aof.file ≡ some f)
      × ((Persistence.on_write args p).config.aof_enabled ≡ true)
unfolding Persistence.on_write Aof.append
logged [] p f full on is_there = absurd (full refl)
logged (a ∷ args) p f full on is_there = ground (arith, on, is_there)

buffer-write_all :
    (commands : List Args) (p : Persistence) (f : Bytes)
    → All (λ args. args ≢ []) commands
    → p.config.aof_enabled ≡ true
    → p.aof.file ≡ some f
    → (write_all commands p).aof.buffer ≡ p.aof.buffer ++ encode_all commands
unfolding write_all encode_all
buffer-write_all [] p f full on is_there = sym (append-nil p.aof.buffer)
buffer-write_all (args ∷ rest) p f (full, more) on is_there =
    let (bytes, same_file, still_on) = logged args p f full on is_there in
    buffer-write_all rest (Persistence.on_write args p) f more still_on same_file
    ∙ ap (λ k. k ++ encode_all rest) bytes
    ∙ append_assoc p.aof.buffer (encode args) (encode_all rest)

-- The hook, called for a list of writes none of which is empty, where the log is on and open and
-- a client has one entry among the replicas, adds the same bytes, the encoded writes in order, to
-- the log and to what that client was sent, advances the offset by their size, and leaves the
-- store alone.
pub hook_all-both :
    (commands : List Args) (w : World Persistence Replication) (p : Persistence) (r : Replication)
    (f : Bytes) (link : ℕ)
    → All (λ args. args ≢ []) commands
    → w.persistence ≡ some p
    → w.replication ≡ some r
    → p.config.aof_enabled ≡ true
    → p.aof.file ≡ some f
    → entries link r.replicas ≡ 1
    → (q : Persistence) × (s : Replication) × ((hook_all commands w).persistence ≡ some q)
      × ((hook_all commands w).replication ≡ some s)
      × (q.aof.buffer ≡ p.aof.buffer ++ encode_all commands)
      × (sent_to link s.outbox ≡ sent_to link r.outbox ++ encode_all commands)
      × (s.master_offset ≡ advance r.master_offset commands)
      × ((hook_all commands w).store ≡ w.store)
hook_all-both commands w p r f link full has_log has_link on is_there one =
    let (bytes, offset) = sent_to-propagate_all link commands r one in
    (
      write_all commands p,
      propagate_all commands r,
      persistence-hook_all commands w p has_log,
      replication-hook_all commands w r has_link,
      buffer-write_all commands p f full on is_there,
      bytes,
      offset,
      store-hook_all commands w,
    )
