-- ===== src/Replication/Master/Sent.antt =====
-- What a replica is sent.
use redis_plus.Prelude.{
  ℕ, zero, suc, ◌+◌, ◌≡◌, refl, sym, ap, ◌∙◌, some, List, [], ◌∷◌, ◌++◌, append_assoc, append-nil,
  Bytes, ◌==◌, if◌then◌else◌, length, arith,
}
use redis_plus.Prelude.Int.{ℤ, pos, ◌+ℤ◌}
use redis_plus.Resp.Reply.{encode}
use redis_plus.Store.{Store, snapshot}
use redis_plus.Rdb.Write.{rdb_serialize}
use redis_plus.Commands.Base.{Args}
use redis_plus.Handler.Pipeline.{encode_all}
use redis_plus.Replication.{Replica, Replication, Outbox, sent_to}
use redis_plus.Replication.Master.{
  broadcast, propagate, start_full_resync, full_resync_line, rdb_header, new_replica,
}

-- how many entries a client has among the replicas
abbrev pub entries : ℕ → List Replica → ℕ
entries link [] = 0
entries link (replica ∷ rest) =
    let others = entries link rest in if replica.link == link then suc others else others

abbrev repeated : ℕ → Bytes → Bytes
repeated zero bytes = []
repeated (suc n) bytes = bytes ++ repeated n bytes

-- the offset after a list of commands
abbrev pub advance : ℤ → List Args → ℤ
advance offset [] = offset
advance offset (args ∷ rest) = advance (offset +ℤ pos (length (encode args))) rest

unfoldable pub propagate_all : List Args → Replication → Replication
propagate_all [] r = r
propagate_all (args ∷ rest) r = propagate_all rest (propagate args r)

pub sent_to-append :
    (link : ℕ) (a b : Outbox) → sent_to link (a ++ b) ≡ sent_to link a ++ sent_to link b
sent_to-append link [] b = refl
sent_to-append link ((to, bytes) ∷ a) b =
    ground (arith, sent_to-append link a b, append_assoc bytes (sent_to link a) (sent_to link b))

sent_to-broadcast :
    (link : ℕ) (bytes : Bytes) (replicas : List Replica)
    → sent_to link (broadcast bytes replicas) ≡ repeated (entries link replicas) bytes
sent_to-broadcast link bytes [] = refl
sent_to-broadcast link bytes (replica ∷ rest) = ground (arith, sent_to-broadcast link bytes rest)

-- A write goes to a client as often as the client stands among the replicas.
pub sent_to-propagate :
    (link : ℕ) (args : Args) (r : Replication)
    → sent_to link (propagate args r).outbox
      ≡ sent_to link r.outbox ++ repeated (entries link r.replicas) (encode args)
unfolding propagate
sent_to-propagate link args r =
    sent_to-append link r.outbox (broadcast (encode args) r.replicas)
    ∙ ap (λ k. sent_to link r.outbox ++ k) (sent_to-broadcast link (encode args) r.replicas)

replicas-propagate : (args : Args) (r : Replication) → (propagate args r).replicas ≡ r.replicas
unfolding propagate
replicas-propagate args r = refl

offset-propagate :
    (args : Args) (r : Replication)
    → (propagate args r).master_offset ≡ r.master_offset +ℤ pos (length (encode args))
unfolding propagate
offset-propagate args r = refl

-- A replica gets every write once, in order, and the offset counts every byte of them.
pub sent_to-propagate_all :
    (link : ℕ) (commands : List Args) (r : Replication)
    → entries link r.replicas ≡ 1
    → (sent_to link (propagate_all commands r).outbox
        ≡ sent_to link r.outbox ++ encode_all commands)
      × ((propagate_all commands r).master_offset ≡ advance r.master_offset commands)
unfolding propagate_all encode_all
sent_to-propagate_all link [] r h = (sym (append-nil _), refl)
sent_to-propagate_all link (args ∷ rest) r h =
    let t = propagate args r in
    let (bytes, offset) = sent_to-propagate_all link rest t (rw (replicas-propagate args r) h) in
    let one : sent_to link t.outbox ≡ sent_to link r.outbox ++ encode args =
      ground (arith, sent_to-propagate link args r, append-nil (encode args), h) in
    (
      rw one at bytes ∙ append_assoc (sent_to link r.outbox) (encode args) (encode_all rest),
      offset ∙ ap (λ (o : ℤ). advance o rest) (offset-propagate args r),
    )

sent_to-send :
    (link : ℕ) (bytes : Bytes) (out : Outbox)
    → sent_to link (out ++ ((link, bytes) ∷ [])) ≡ sent_to link out ++ bytes
sent_to-send link bytes out =
    ground (arith, sent_to-append link out ((link, bytes) ∷ []), append-nil bytes)

entries-append :
    (link : ℕ) (a b : List Replica) → entries link (a ++ b) ≡ entries link a + entries link b
entries-append link [] b = omega arith
entries-append link (replica ∷ a) b = ground (arith, entries-append link a b)

-- A client that asks for a resync is sent the line, the header and the payload, and becomes a
-- replica: one entry more.
pub sent_to-start_full_resync :
    (link : ℕ) (peer : Bytes) (now : ℤ) (store : Store) (r : Replication)
    → let payload = rdb_serialize (snapshot store) in
      let t = start_full_resync peer now (some link) store r in
      (sent_to link t.outbox
        ≡ sent_to link r.outbox ++ (full_resync_line r ++ (rdb_header payload ++ payload)))
      × (entries link t.replicas ≡ suc (entries link r.replicas))
      × (t.master_offset ≡ r.master_offset)
unfolding start_full_resync
sent_to-start_full_resync link peer now store r =
    let payload = rdb_serialize (snapshot store) in
    let head = full_resync_line r in
    let out1 = r.outbox ++ ((link, head) ∷ []) in
    let out2 = out1 ++ ((link, rdb_header payload) ∷ []) in
    (
      sent_to-send link payload out2
          ∙ ap (λ k. k ++ payload)
              (sent_to-send link (rdb_header payload) out1
                ∙ ap (λ k. k ++ rdb_header payload) (sent_to-send link head r.outbox))
          ∙ append_assoc (sent_to link r.outbox ++ head) (rdb_header payload) payload
          ∙ append_assoc (sent_to link r.outbox) head (rdb_header payload ++ payload),
      ground (arith, entries-append link r.replicas (new_replica link peer now r ∷ [])),
      refl,
    )
