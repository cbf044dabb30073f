-- ===== src/Commands/Dispatch.antt =====
-- `CommandTable::dispatch` of src/commands.cpp.
use redis_plus.Prelude.{
  Bool, true, false, ◌&&◌, ◌||◌, Option, none, some, [], ◌∷◌, Bytes, codes, beq, if◌then◌else◌,
  has_value,
}
use redis_plus.Resp.Reply
use redis_plus.Store.{Store}
use redis_plus.Commands.Base.{Args, CommandResult, Outcome, replied, upper}
use redis_plus.Commands.Set.{cmd_set}
use redis_plus.Commands.Keyspace.{
  cmd_ping, cmd_echo, cmd_get, cmd_del, cmd_exists, cmd_type, cmd_keys, cmd_expire, cmd_ttl,
  cmd_persist, cmd_config, cmd_dbsize, cmd_flushall,
}
use redis_plus.Commands.Verb.{
  Verb, ping, echo, set, get, del, exists, type, keys, expire, pexpire, expireat, pexpireat, ttl,
  pttl, persist, config, dbsize, flushall, command, select, quit, verb_of, is_write_command,
}
use redis_plus.Commands.Ops.{Link, PersistenceOps, ReplicationOps, World, Dispatched, answer}
use redis_plus.Commands.Admin.{replconf, psync, replicaof, other_verb}

-- The commands that touch the store alone.
unfoldable pub run_verb : Verb → Args → Store → Option Outcome
run_verb ping a s = some (replied (cmd_ping a), s)
run_verb echo a s = some (replied (cmd_echo a), s)
run_verb set a s = some (cmd_set a s)
run_verb get a s = some (cmd_get a s)
run_verb del a s = some (cmd_del a s)
run_verb exists a s = some (cmd_exists a s)
run_verb type a s = some (cmd_type a s)
run_verb keys a s = some (cmd_keys a s)
run_verb expire a s = some (cmd_expire true false (codes "expire") a s)
run_verb pexpire a s = some (cmd_expire false false (codes "pexpire") a s)
run_verb expireat a s = some (cmd_expire true true (codes "expireat") a s)
run_verb pexpireat a s = some (cmd_expire false true (codes "pexpireat") a s)
run_verb ttl a s = some (cmd_ttl true (codes "ttl") a s)
run_verb pttl a s = some (cmd_ttl false (codes "pttl") a s)
run_verb persist a s = some (cmd_persist a s)
run_verb config a s = some (replied (cmd_config a), s)
run_verb dbsize a s = some (replied (cmd_dbsize a s), s)
run_verb flushall a s = some (cmd_flushall a s)
run_verb command a s = some (replied Reply.empty_array, s)
run_verb select a s = some (replied Reply.ok, s)
run_verb quit a s = some (replied Reply.ok, s)
run_verb _ a s = none

-- `if (result.dirty && result.propagate.empty()) result.propagate = args;`
abbrev pub or_original : Args → CommandResult → CommandResult
or_original args r = elim r.propagate [
  | [] ↦ if r.dirty then record r { propagate = args } else r
  | _ ∷ _ ↦ r
]

module _ {P R : Type 0} (pops : PersistenceOps P) (rops : ReplicationOps R) where
  -- the chain of commands behind those of replication
  unfoldable pub run : Verb → Bytes → Args → World P R → Dispatched P R
  run verb name rest w = elim (run_verb verb (name ∷ rest) w.store) [
    | none ↦ other_verb pops rops verb name rest w
    | some (r, s) ↦ (or_original (name ∷ rest) r, record w { store = s })
  ]

  -- a client of a replica may not write; the master's own stream has no link
  unfoldable pub is_refused : Bytes → Link → World P R → Bool
  is_refused name link w =
      has_value link
      && elim w.replication [ none ↦ false | some r ↦ rops.is_replica r ]
      && is_write_command name

  unfoldable pub dispatch : Args → Link → World P R → Dispatched P R
  unfolding run is_refused
  dispatch [] link w = (replied [], w)
  dispatch (a ∷ rest) link w =
      let name = upper a in
      if is_refused name link w
      then answer (Reply.error (codes "READONLY You can't write against a read only replica.")) w
      else if beq name (codes "REPLCONF")
      then replconf pops rops rest link w
      else if beq name (codes "PSYNC")
      then psync pops rops link w
      else if beq name (codes "REPLICAOF") || beq name (codes "SLAVEOF")
      then replicaof pops rops rest w
      else run (verb_of name) a rest w
