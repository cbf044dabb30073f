-- ===== src/Commands/Set.antt =====
-- `cmd_set` of src/commands.cpp.
use redis_plus.Prelude.{
  ◌/◌, Bool, true, false, not, ◌&&◌, ◌||◌, Option, none, some, [], ◌∷◌, Bytes, codes, beq,
  has_value, if◌then◌else◌,
}
use redis_plus.Prelude.Int.{ℤ, pos, leb_ℤ, ltb_ℤ, eq_ℤ, ◌+ℤ◌, times_1000, max_i64}
use redis_plus.Decimal.{to_int64, int_to_string}
use redis_plus.Resp.Reply
use redis_plus.Store
use redis_plus.Store.{Store, no_expiry}
use redis_plus.Commands.Base.{
  Args, Outcome, replied, wrote, upper, not_integer, syntax_error, invalid_expire,
}

pub record SetOptions : Type 0 where
  pub expire_at : ℤ
  pub keepttl : Bool
  pub nx : Bool
  pub xx : Bool
  pub get : Bool

abbrev pub no_options : SetOptions
no_options = record { expire_at = no_expiry; keepttl = false; nx = false; xx = false; get = false }

-- The options read so far, or the error message that ends the command.
pub data Scanned : Type 0 where
  good : SetOptions → Scanned
  bad : Bytes → Scanned

infixl 10 ◌>>=◌
abbrev ◌>>=◌ : Scanned → (SetOptions → Scanned) → Scanned
good o >>= f = f o
bad message >>= f = bad message

abbrev is_relative : Bytes → Bool
is_relative opt = beq opt (codes "EX") || beq opt (codes "PX")

abbrev is_absolute : Bytes → Bool
is_absolute opt = beq opt (codes "EXAT") || beq opt (codes "PXAT")

abbrev in_seconds : Bytes → Bool
in_seconds opt = beq opt (codes "EX") || beq opt (codes "EXAT")

has_expire : SetOptions → Bool
has_expire o = not (eq_ℤ o.expire_at no_expiry)

-- in milliseconds, by the clock
with_deadline : ℤ → Bool → ℤ → SetOptions → Scanned
with_deadline clock relative n o =
    if relative && leb_ℤ n (pos 0)
    then bad invalid_expire
    else good (record o { expire_at = if relative then clock +ℤ n else n })

with_number : ℤ → Bytes → Option ℤ → SetOptions → Scanned
with_number clock opt none o = bad not_integer
with_number clock opt (some n) o =
    if in_seconds opt && ltb_ℤ (pos (max_i64 / 1000)) n
    then bad invalid_expire
    else with_deadline clock (is_relative opt) (if in_seconds opt then times_1000 n else n) o

timed_option : ℤ → Bytes → Bytes → SetOptions → Scanned
timed_option clock opt arg o =
    if has_expire o || o.keepttl then bad syntax_error else with_number clock opt (to_int64 arg) o

flag_option : Bytes → SetOptions → Scanned
flag_option opt o =
    if beq opt (codes "KEEPTTL")
    then (if has_expire o then bad syntax_error else good (record o { keepttl = true }))
    else if beq opt (codes "NX")
    then (if o.xx then bad syntax_error else good (record o { nx = true }))
    else if beq opt (codes "XX")
    then (if o.nx then bad syntax_error else good (record o { xx = true }))
    else if beq opt (codes "GET")
    then good (record o { get = true })
    else bad syntax_error

-- The loop over the options; a deadline option takes the argument behind it.
unfoldable pub scan_options : ℤ → SetOptions → Args → Scanned
unfolding has_expire with_deadline with_number timed_option flag_option
scan_options clock o [] = good o
scan_options clock o (a ∷ []) =
    let opt = upper a in
    if is_relative opt || is_absolute opt then bad syntax_error else flag_option opt o
scan_options clock o (a ∷ b ∷ rest) =
    let opt = upper a in
    let timed = timed_option clock opt b o >>= λ o'. scan_options clock o' rest in
    let flagged = flag_option opt o >>= λ o'. scan_options clock o' (b ∷ rest) in
    if is_relative opt || is_absolute opt then timed else flagged

-- the reply to GET: the value that was there
abbrev bulk_or_null : Option Bytes → Bytes
bulk_or_null none = Reply.null_bulk
bulk_or_null (some value) = Reply.bulk value

-- the canonical form of the write
abbrev pub canonical : Bytes → Bytes → ℤ → Args
canonical key value deadline =
    if eq_ℤ deadline no_expiry
    then codes "SET" ∷ key ∷ value ∷ []
    else codes "SET" ∷ key ∷ value ∷ codes "PXAT" ∷ int_to_string deadline ∷ []

-- KEEPTTL reads the time left and adds it to the clock.
unfoldable pub kept_deadline : Bytes → Store → ℤ × Store
kept_deadline key s =
    let (left, s') = Store.pttl key s in
    (if leb_ℤ (pos 0) left then s.clock +ℤ left else no_expiry, s')

unfoldable pub write_value : SetOptions → Bytes → Bytes → Option Bytes → ℤ × Store → Outcome
write_value o key value previous (deadline, s) = (
  wrote (if o.get then bulk_or_null previous else Reply.ok) (canonical key value deadline),
  Store.set key value deadline s,
)

unfoldable pub set_with : SetOptions → Bytes → Bytes → Store → Outcome
unfolding kept_deadline write_value
set_with o key value s =
    let (previous, s1) = Store.get key s in
    if o.nx && has_value previous || o.xx && not (has_value previous)
    then (replied (if o.get then bulk_or_null previous else Reply.null_bulk), s1)
    else write_value o key value previous
        (if o.keepttl then kept_deadline key s1 else (o.expire_at, s1))

unfoldable pub set_scanned : Scanned → Bytes → Bytes → Store → Outcome
set_scanned (bad message) key value s = (replied (Reply.error message), s)
set_scanned (good o) key value s = set_with o key value s

unfoldable pub cmd_set : Args → Store → Outcome
unfolding set_scanned
cmd_set (name ∷ key ∷ value ∷ options) s =
    set_scanned (scan_options s.clock no_options options) key value s
cmd_set _ s = (replied (Reply.wrong_arity (codes "set")), s)
