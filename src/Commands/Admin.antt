-- ===== src/Commands/Admin.antt =====
-- The commands of `CommandTable::dispatch` that concern the server: INFO, SAVE, BGSAVE, BGREWRITEAOF,
-- REPLCONF, PSYNC, REPLICAOF, and unknown names.
use redis_plus.Prelude.{
  ℕ, Bool, ◌&&◌, Option, none, some, [], ◌∷◌, ◌++◌, Bytes, codes, beq, if◌then◌else◌,
}
use redis_plus.Prelude.Int.{ℤ, pos, negsuc, ltb_ℤ, leb_ℤ}
use redis_plus.Decimal.{to_int64, to_string}
use redis_plus.Resp.Reply
use redis_plus.Stats.{to_info, line}
use redis_plus.Store
use redis_plus.Store.{Store, bump}
use redis_plus.Commands.Base.{Args, replied, upper, iequals}
use redis_plus.Commands.Verb.{Verb, save, bgsave, bgrewriteaof, info}
use redis_plus.Commands.Ops.{
  Link, Failure, PersistenceOps, ReplicationOps, World, Dispatched, answer,
}

abbrev quoted : Bytes → Bytes
quoted arg = b'\'' ∷ (arg ++ codes "' ")

-- the first three arguments
abbrev quoted_args : Args → Bytes
quoted_args [] = []
quoted_args (a ∷ []) = quoted a
quoted_args (a ∷ b ∷ []) = quoted a ++ quoted b
quoted_args (a ∷ b ∷ c ∷ rest) = quoted a ++ (quoted b ++ quoted c)

unfoldable pub unknown_command : Bytes → Args → Bytes
unknown_command name rest = Reply.error (
    codes "ERR unknown command '"
    ++ (name ++ (codes "', with args beginning with: " ++ quoted_args rest)))

module _ {P R : Type 0} (pops : PersistenceOps P) (rops : ReplicationOps R) where
  unfoldable pub cmd_info : World P R → Bytes
  cmd_info w =
      let s = w.store in
      let st = s.stats in
      to_info w.uptime w.stats
      ++ (line (codes "expired_keys:") (bump st.expired_lazy st.expired_active)
          ++ (line (codes "expired_keys_lazy:") st.expired_lazy
              ++ (line (codes "expired_keys_active:") st.expired_active
                  ++ (line (codes "active_expire_cycles:") st.cycles
                      ++ (line (codes "active_expire_passes:") st.passes
                          ++ (elim w.persistence [
                            | none ↦ []
                            | some p ↦ codes "\r\n# Persistence\r\n" ++ pops.info_section p
                          ]
                              ++ (elim w.replication [
                                | none ↦ []
                                | some r ↦ codes "\r\n# Replication\r\n" ++ rops.info_section r
                              ]
                                  ++ (codes "\r\n# Keyspace\r\ndb0:keys="
                                      ++ (to_string (Store.size s)
                                          ++ (codes ",expires="
                                              ++ (to_string (Store.expires_size s)
                                                  ++ (codes ",tracked="
                                                      ++ (to_string (Store.raw_size s)
                                                          ++ codes "\r\n")))))))))))))

  saved : Bytes → World P R → Failure × P → Dispatched P R
  saved text w (none, p) = answer text (record w { persistence = some p })
  saved text w (some message, p) =
      answer (Reply.error (codes "ERR " ++ message)) (record w { persistence = some p })

  -- SAVE, BGSAVE and BGREWRITEAOF
  persist_verb : Verb → P → World P R → Dispatched P R
  persist_verb bgsave p w =
      saved (Reply.simple (codes "Background saving started")) w (pops.background_save w.store p)
  persist_verb bgrewriteaof p w =
      saved (Reply.simple (codes "Background append only file rewriting started")) w
        (pops.rewrite_aof w.store p)
  persist_verb _ p w = saved Reply.ok w (pops.save_now w.store p)

  with_persistence : Verb → World P R → Dispatched P R
  with_persistence verb w = elim w.persistence [
    | none ↦ answer (Reply.error (codes "ERR persistence is disabled on this server")) w
    | some p ↦ persist_verb verb p w
  ]

  unfoldable pub other_verb : Verb → Bytes → Args → World P R → Dispatched P R
  unfolding with_persistence persist_verb saved
  other_verb info name rest w = answer (Reply.bulk (cmd_info w)) w
  other_verb save name rest w = with_persistence save w
  other_verb bgsave name rest w = with_persistence bgsave w
  other_verb bgrewriteaof name rest w = with_persistence bgrewriteaof w
  other_verb _ name rest w = answer (unknown_command name rest) w

  is_port : ℤ → Bool
  is_port port = ltb_ℤ (pos 0) port && leb_ℤ port (pos 65535)

  port_of : ℤ → ℕ
  port_of (pos n) = n
  port_of (negsuc n) = 0

  -- `to_int64(args[2], offset)` leaves the offset at 0 where it fails
  ack_offset : Option ℤ → ℤ
  ack_offset none = pos 0
  ack_offset (some n) = n

  set_port : Link → Option ℤ → World P R → R → World P R
  set_port link none w r = w
  set_port link (some port) w r =
      if is_port port
      then record w { replication = some (rops.set_replica_port link (port_of port) r) }
      else w

  replconf_sub : Bytes → Bytes → Link → World P R → R → Dispatched P R
  replconf_sub sub arg link w r =
      if beq sub (codes "ACK")
      then (
        replied [],
        record w { replication = some (rops.on_replica_ack link (ack_offset (to_int64 arg)) r) },
      )
      else if beq sub (codes "LISTENING-PORT")
      then answer Reply.ok (set_port link (to_int64 arg) w r)
      else answer Reply.ok w

  unfoldable pub replconf : Args → Link → World P R → Dispatched P R
  unfolding replconf_sub set_port is_port port_of ack_offset
  replconf (sub ∷ arg ∷ rest) link w = elim w.replication [
    | none ↦ answer Reply.ok w
    | some r ↦ replconf_sub (upper sub) arg link w r
  ]
  replconf _ link w = answer Reply.ok w

  disabled : World P R → Dispatched P R
  disabled w = answer (Reply.error (codes "ERR replication is not enabled")) w

  unfoldable pub psync : Link → World P R → Dispatched P R
  unfolding disabled
  psync link w = elim w.replication [
    | none ↦ disabled w
    | some r ↦ answer [] (record w { replication = some (rops.start_full_resync link w.store r) })
  ]

  started : World P R → Failure × R → Dispatched P R
  started w (none, r) = answer Reply.ok (record w { replication = some r })
  started w (some message, r) =
      answer (Reply.error (codes "ERR " ++ message)) (record w { replication = some r })

  replicaof_port : Bytes → Option ℤ → World P R → R → Dispatched P R
  replicaof_port host none w r = answer (Reply.error (codes "ERR Invalid master port")) w
  replicaof_port host (some port) w r =
      if is_port port
      then started w (rops.replicaof host (port_of port) r)
      else answer (Reply.error (codes "ERR Invalid master port")) w

  unfoldable pub replicaof : Args → World P R → Dispatched P R
  unfolding replicaof_port started is_port port_of disabled
  replicaof (host ∷ port ∷ []) w = elim w.replication [
    | none ↦ disabled w
    | some r ↦
        if iequals host (codes "NO") && iequals port (codes "ONE")
        then answer Reply.ok (record w { replication = some (rops.stop_replication r) })
        else replicaof_port host (to_int64 port) w r
  ]
  replicaof _ w = answer (Reply.wrong_arity (codes "replicaof")) w
