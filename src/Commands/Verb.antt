-- ===== src/Commands/Verb.antt =====
-- The chain of name tests in `CommandTable::dispatch`, in its order, and `is_write_command` of
-- src/replication.cpp.
use redis_plus.Prelude.{Bool, ◌||◌, Bytes, codes, beq, if◌then◌else◌}

pub data Verb : Type 0 where
  ping echo set get del exists type keys : Verb
  expire pexpire expireat pexpireat ttl pttl persist : Verb
  config dbsize flushall save bgsave bgrewriteaof : Verb
  info command select quit unknown : Verb

-- The names behind EXISTS, and behind CONFIG, stand apart to keep each chain short.
unfoldable pub late_verb : Bytes → Verb
late_verb name =
    if beq name (codes "CONFIG")
    then config
    else if beq name (codes "DBSIZE")
    then dbsize
    else if beq name (codes "FLUSHALL") || beq name (codes "FLUSHDB")
    then flushall
    else if beq name (codes "SAVE")
    then save
    else if beq name (codes "BGSAVE")
    then bgsave
    else if beq name (codes "BGREWRITEAOF")
    then bgrewriteaof
    else if beq name (codes "INFO")
    then info
    else if beq name (codes "COMMAND")
    then command
    else if beq name (codes "SELECT")
    then select
    else if beq name (codes "QUIT")
    then quit
    else unknown

unfoldable pub middle_verb : Bytes → Verb
unfolding late_verb
middle_verb name =
    if beq name (codes "TYPE")
    then type
    else if beq name (codes "KEYS")
    then keys
    else if beq name (codes "EXPIRE")
    then expire
    else if beq name (codes "PEXPIRE")
    then pexpire
    else if beq name (codes "EXPIREAT")
    then expireat
    else if beq name (codes "PEXPIREAT")
    then pexpireat
    else if beq name (codes "TTL")
    then ttl
    else if beq name (codes "PTTL")
    then pttl
    else if beq name (codes "PERSIST")
    then persist
    else late_verb name

unfoldable pub verb_of : Bytes → Verb
unfolding middle_verb
verb_of name =
    if beq name (codes "PING")
    then ping
    else if beq name (codes "ECHO")
    then echo
    else if beq name (codes "SET")
    then set
    else if beq name (codes "GET")
    then get
    else if beq name (codes "DEL") || beq name (codes "UNLINK")
    then del
    else if beq name (codes "EXISTS")
    then exists
    else middle_verb name

unfoldable pub is_write_command : Bytes → Bool
is_write_command name =
    beq name (codes "SET")
    || beq name (codes "DEL")
    || beq name (codes "UNLINK")
    || beq name (codes "EXPIRE")
    || beq name (codes "PEXPIRE")
    || beq name (codes "EXPIREAT")
    || beq name (codes "PEXPIREAT")
    || beq name (codes "PERSIST")
    || beq name (codes "FLUSHALL")
    || beq name (codes "FLUSHDB")
