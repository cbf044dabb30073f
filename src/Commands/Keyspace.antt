-- ===== src/Commands/Keyspace.antt =====
-- The other commands on the keyspace, and those that read nothing (src/commands.cpp).
use redis_plus.Prelude.{
  ℕ, zero, suc, ◌+◌, ◌/◌, Bool, ◌&&◌, ◌||◌, Option, none, some, [], ◌∷◌, ◌++◌, Bytes, codes,
  if◌then◌else◌, length,
}
use redis_plus.Prelude.Int.{ℤ, pos, negsuc, neg, ltb_ℤ, ◌+ℤ◌, times_1000, max_i64}
use redis_plus.Decimal.{to_int64, int_to_string}
use redis_plus.Glob.{glob_match}
use redis_plus.Resp.Reply
use redis_plus.Store
use redis_plus.Store.{Store}
use redis_plus.Commands.Base.{Args, Outcome, replied, wrote, iequals, not_integer, invalid_expire}

-- `reply::wrong_arity`, with the store as it was
abbrev wrong : Bytes → Store → Outcome
wrong name s = (replied (Reply.wrong_arity name), s)

unfoldable pub cmd_ping : Args → Bytes
cmd_ping (name ∷ []) = Reply.simple (codes "PONG")
cmd_ping (name ∷ text ∷ []) = Reply.bulk text
cmd_ping _ = Reply.wrong_arity (codes "ping")

unfoldable pub cmd_echo : Args → Bytes
cmd_echo (name ∷ text ∷ []) = Reply.bulk text
cmd_echo _ = Reply.wrong_arity (codes "echo")

unfoldable pub cmd_get : Args → Store → Outcome
cmd_get (name ∷ key ∷ []) s =
    let (found, s') = Store.get key s in
    (replied (elim found [ none ↦ Reply.null_bulk | some value ↦ Reply.bulk value ]), s')
cmd_get _ s = wrong (codes "get") s

-- the keys erased, counted
unfoldable pub erase_all : Args → Store → ℕ × Store
erase_all [] s = (0, s)
erase_all (key ∷ ks) s =
    let (live, s1) = Store.erase key s in
    let (n, s2) = erase_all ks s1 in (if live then n + 1 else n, s2)

abbrev del_result : Args → ℕ × Store → Outcome
del_result a (zero, s) = (replied (Reply.integer (pos 0)), s)
del_result a (suc n, s) = (wrote (Reply.integer (pos (suc n))) a, s)

unfoldable pub cmd_del : Args → Store → Outcome
unfolding erase_all
cmd_del (name ∷ key ∷ ks) s = del_result (name ∷ key ∷ ks) (erase_all (key ∷ ks) s)
cmd_del _ s = wrong (codes "del") s

unfoldable pub count_present : Args → Store → ℕ × Store
count_present [] s = (0, s)
count_present (key ∷ ks) s =
    let (present, s1) = Store.contains key s in
    let (n, s2) = count_present ks s1 in (if present then n + 1 else n, s2)

unfoldable pub cmd_exists : Args → Store → Outcome
unfolding count_present
cmd_exists (name ∷ key ∷ ks) s =
    let (n, s') = count_present (key ∷ ks) s in (replied (Reply.integer (pos n)), s')
cmd_exists _ s = wrong (codes "exists") s

unfoldable pub cmd_type : Args → Store → Outcome
cmd_type (name ∷ key ∷ []) s =
    let (present, s') = Store.contains key s in
    (replied (Reply.simple (if present then codes "string" else codes "none")), s')
cmd_type _ s = wrong (codes "type") s

unfoldable pub cmd_keys : Args → Store → Outcome
cmd_keys (name ∷ pattern ∷ []) s =
    let (found, s') = Store.keys pattern s in
    (replied (Reply.array_header (length found) ++ Reply.bulks found), s')
cmd_keys _ s = wrong (codes "keys") s

-- behind the check of the number: the absolute deadline is applied and propagated
unfoldable pub expire_with : Bool → Bytes → ℤ → Store → Outcome
expire_with absolute key n s =
    let deadline = if absolute then n else s.clock +ℤ n in
    let (applied, s') = Store.expire_at key deadline s in
    (
      if applied
          then wrote (Reply.integer (pos 1)) (codes "PEXPIREAT" ∷ key ∷ int_to_string deadline ∷ [])
          else replied (Reply.integer (pos 0)),
      s',
    )

unfoldable pub expire_number : Bool → Bool → Bytes → Option ℤ → Store → Outcome
expire_number seconds absolute key none s = (replied (Reply.error not_integer), s)
expire_number seconds absolute key (some n) s =
    if seconds && (ltb_ℤ (pos (max_i64 / 1000)) n || ltb_ℤ n (neg (pos ((max_i64 + 1) / 1000))))
    then (replied (Reply.error invalid_expire), s)
    else expire_with absolute key (if seconds then times_1000 n else n) s

-- EXPIRE, PEXPIRE, EXPIREAT and PEXPIREAT, by the two flags
unfoldable pub cmd_expire : Bool → Bool → Bytes → Args → Store → Outcome
unfolding expire_number
cmd_expire seconds absolute command (name ∷ key ∷ n ∷ []) s =
    expire_number seconds absolute key (to_int64 n) s
cmd_expire seconds absolute command _ s = wrong command s

-- `(ms + 999) / 1000`, rounding towards zero
abbrev rounded_seconds : ℤ → ℤ
rounded_seconds (pos ms) = pos (ms / 1000)
rounded_seconds (negsuc ms) = neg (pos (suc ms / 1000))

unfoldable pub cmd_ttl : Bool → Bytes → Args → Store → Outcome
cmd_ttl seconds command (name ∷ key ∷ []) s =
    let (ms, s') = Store.pttl key s in
    (
      replied (
          Reply.integer (
            if ltb_ℤ ms (pos 0)
            then ms
            else if seconds
            then rounded_seconds (ms +ℤ pos 999)
            else ms)),
      s',
    )
cmd_ttl seconds command _ s = wrong command s

unfoldable pub cmd_persist : Args → Store → Outcome
cmd_persist (name ∷ key ∷ []) s =
    let (applied, s') = Store.persist key s in
    (
      if applied
          then wrote (Reply.integer (pos 1)) (name ∷ key ∷ [])
          else replied (Reply.integer (pos 0)),
      s',
    )
cmd_persist _ s = wrong (codes "persist") s

abbrev one_param : Bytes → Bytes → Bytes → Args
one_param pattern name value = if glob_match pattern name then name ∷ value ∷ [] else []

-- the parameters that CONFIG GET knows and the pattern matches, each with its value
config_matches : Bytes → Args
config_matches pattern =
    one_param pattern (codes "save") []
    ++ (one_param pattern (codes "appendonly") (codes "no")
        ++ one_param pattern (codes "maxmemory") (codes "0"))

unfoldable pub config_get : Args → Bytes
unfolding config_matches
config_get (pattern ∷ []) =
    let found = config_matches pattern in Reply.array_header (length found) ++ Reply.bulks found
config_get _ = Reply.wrong_arity (codes "config|get")

unfoldable pub cmd_config : Args → Bytes
unfolding config_get
cmd_config (name ∷ sub ∷ rest) =
    if iequals sub (codes "GET")
    then config_get rest
    else if iequals sub (codes "SET")
    then Reply.ok
    else Reply.error (codes "ERR Unknown CONFIG subcommand")
cmd_config _ = Reply.error (codes "ERR Unknown CONFIG subcommand")

unfoldable pub cmd_dbsize : Args → Store → Bytes
cmd_dbsize (name ∷ []) s = Reply.integer (pos (Store.size s))
cmd_dbsize _ s = Reply.wrong_arity (codes "dbsize")

unfoldable pub cmd_flushall : Args → Store → Outcome
cmd_flushall a s = (wrote Reply.ok a, Store.clear s)
