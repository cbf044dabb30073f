-- ===== src/Server/Session/Linked.antt =====
-- The command table and the hook of src/main.cpp on a session: what replication hands to the session's
-- link, which stands in the outbox of its model, is sent on the session when the step is over.
use redis_plus.Prelude.{
  ℕ, ◌≡◌, refl, ap, Bool, true, false, Option, some, List, [], ◌∷◌, ◌++◌, Bytes, length, drop, ◌==◌,
  if◌then◌else◌,
}
use redis_plus.Commands.Base.{Args, CommandResult}
use redis_plus.Commands.Ops.{PersistenceOps, ReplicationOps, World}
use redis_plus.Commands.Dispatch.{dispatch}
use redis_plus.Handler.{propagated}
use redis_plus.Persistence.{Persistence}
use redis_plus.Replication.{Replication, Outbox}
use redis_plus.Program.{hook}
use redis_plus.Server.{ServerConfig}
use redis_plus.Server.Session.{Shared, send, work, reply, drop_or_flush}
use redis_plus.Server.Session.Commands.{Speaks, silent, says, acts}

-- the sends to a link, one by one
unfoldable pub sends_to : ℕ → Outbox → List Bytes
sends_to link [] = []
sends_to link ((to, bytes) ∷ rest) =
    let more = sends_to link rest in if to == link then bytes ∷ more else more

-- those that a step has added to the outbox
unfoldable pub new_sends : ℕ → Option Replication → Option Replication → List Bytes
unfolding sends_to
new_sends link (some before) (some later) = sends_to link (drop (length before.outbox) later.outbox)
new_sends link _ _ = []

module _ (config : ServerConfig)
    (on_disconnect : World Persistence Replication → World Persistence Replication)
    (pops : PersistenceOps Persistence) (rops : ReplicationOps Replication) (link : ℕ) where
  abbrev Client : Type 0
  Client = Shared (World Persistence Replication)

  unfoldable pub deliver : List Bytes → Client → Client
  deliver [] s = s
  deliver (bytes ∷ rest) s = deliver rest (send config on_disconnect bytes s)

  -- a step of the state, and then its sends on this link
  abbrev step_linked : World Persistence Replication → Client → Client
  step_linked w s = deliver (new_sends link s.world.replication w.replication) (work (λ _. w) s)

  abbrev exec_linked : Args → Client → CommandResult × Client
  exec_linked args s =
      let (r, w) = dispatch pops rops args (some link) s.world in (r, step_linked w s)

  abbrev hook_linked : Option (Args → Client → Client)
  hook_linked = some (λ args s. step_linked (hook args s.world) s)

  Speaking : Client → Client → Type 0
  Speaking s t = (bytes : Bytes) × Speaks config on_disconnect s bytes t

  send-down :
      (bytes : Bytes) (s : Client) → s.session.closed ≡ true → send config on_disconnect bytes s ≡ s
  unfolding send
  send-down bytes s down =
      ap (λ b. if b then s else drop_or_flush config on_disconnect (reply bytes s)) down

  -- a send, on a session that is open or not
  Speaking-send :
      (bytes : Bytes) (s t : Client) (down : Bool)
      → s.session.closed ≡ down
      → Speaking (send config on_disconnect bytes s) t
      → Speaking s t
  unfolding Speaking
  Speaking-send bytes s t true e (more, h) = (more, rw (send-down bytes s e) at h)
  Speaking-send bytes s t false e (more, h) = (bytes ++ more, says bytes e h)

  Speaking-deliver : (sent : List Bytes) (s : Client) → Speaking s (deliver sent s)
  unfolding Speaking deliver
  Speaking-deliver [] s = ([], silent)
  Speaking-deliver (bytes ∷ rest) s =
      Speaking-send bytes s (deliver rest (send config on_disconnect bytes s)) s.session.closed refl
        (Speaking-deliver rest (send config on_disconnect bytes s))

  Speaking-step_linked :
      (w : World Persistence Replication) (s : Client) → Speaking s (step_linked w s)
  unfolding Speaking
  Speaking-step_linked w s =
      let (bytes, h) =
        Speaking-deliver (new_sends link s.world.replication w.replication) (work (λ _. w) s) in
      (bytes, acts (λ _. w) h)

  -- The command table and the hook only send on the link and change the server's state.
  Speaking-exec_linked : (args : Args) (s : Client) → Speaking s (exec_linked args s).1
  Speaking-exec_linked args s =
      Speaking-step_linked (dispatch pops rops args (some link) s.world).1 s

  Speaking-hook_linked :
      (r : CommandResult) (s : Client) → Speaking s (propagated exec_linked hook_linked r s)
  unfolding propagated Speaking
  Speaking-hook_linked r s = by_dirty r.dirty
    where
      by_dirty :
          (dirty : Bool)
          → Speaking s (if dirty then step_linked (hook r.propagate s.world) s else s)
      by_dirty true = Speaking-step_linked (hook r.propagate s.world) s
      by_dirty false = ([], silent)
