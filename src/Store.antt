-- ===== src/Store.antt =====
-- `rp::Store` (include/rp/store.hpp, src/store.cpp). A method takes the store and gives its result
-- and the new store. `clock` is the reading of `clock_`, which holds for the whole of a call.
pub mod Expire
pub mod View
pub mod Valid
pub mod Reach
pub mod Snapshot
use redis_plus.Prelude.{
  ℕ, zero, suc, ◌+◌, ◌-◌, ◌*◌, ◌/◌, ◌%◌, Bool, true, false, not, ◌&&◌, Option, none, some, List, [],
  ◌∷◌, ◌++◌, Bytes, ltb, leb, ◌==◌, if◌then◌else◌, has_value, length,
}
use redis_plus.Prelude.Int.{ℤ, pos, negsuc, leb_ℤ, eq_ℤ, ◌-ℤ◌, two_64}
use redis_plus.Dict
use redis_plus.Dict.{Dict}
use redis_plus.Glob.{glob_match}

abbrev pub no_expiry : ℤ
no_expiry = negsuc 0

-- `++counter` and `counter += n` on `std::uint64_t`
abbrev pub bump : ℕ → ℕ → ℕ
bump counter n = (counter + n) % two_64

pub record ExpiryStats : Type 0 where
  pub expired_lazy : ℕ
  pub expired_active : ℕ
  pub cycles : ℕ
  pub passes : ℕ

pub record Record : Type 0 where
  pub key : Bytes
  pub value : Bytes
  pub expire_at : ℤ

-- `Entry` has the one field `value`, and is that value here.
pub record Store : Type 0 where
  pub map : Dict Bytes
  pub expires : Dict ℤ
  pub cursor : ℕ
  pub stats : ExpiryStats
  pub clock : ℤ

abbrev pub no_stats : ExpiryStats
no_stats = record { expired_lazy = 0; expired_active = 0; cycles = 0; passes = 0 }

abbrev pub empty : ℤ → Store
empty clock = record { map = []; expires = []; cursor = 0; stats = no_stats; clock = clock }

-- `now >= deadline`, where there is a deadline
abbrev pub past : ℤ → Option ℤ → Bool
past now none = false
past now (some deadline) = leb_ℤ deadline now

unfoldable pub is_expired : Bytes → Store → Bool
is_expired key s = past s.clock (Dict.find key s.expires)

unfoldable pub remove : Bytes → Store → Store
remove key s = record s { map = Dict.erase key s.map; expires = Dict.erase key s.expires }

abbrev pub count_lazy : Store → Store
count_lazy s = record s { stats = record s.stats { expired_lazy = bump s.stats.expired_lazy 1 } }

abbrev pub reap_lazily : Bytes → Store → Store
reap_lazily key s = count_lazy (remove key s)

-- Every method begins with `map_.find(key)` and most with `is_expired(key)`: what follows when the
-- key is absent, when it is dead, and when it holds a value.
unfoldable pub get : Bytes → Store → Option Bytes × Store
get key s = elim (Dict.find key s.map) [
  | none ↦ (none, s)
  | some value ↦ if is_expired key s then (none, reap_lazily key s) else (some value, s)
]

unfoldable pub set : Bytes → Bytes → ℤ → Store → Store
set key value expire_at s =
    if eq_ℤ expire_at no_expiry
    then record s { map = Dict.insert key value s.map; expires = Dict.erase key s.expires }
    else record s {
      map = Dict.insert key value s.map;
      expires = Dict.insert key expire_at s.expires;
    }

unfoldable pub erase : Bytes → Store → Bool × Store
erase key s = elim (Dict.find key s.map) [
  | none ↦ (false, s)
  | some value ↦ if is_expired key s then (false, reap_lazily key s) else (true, remove key s)
]

unfoldable pub contains : Bytes → Store → Bool × Store
unfolding get
contains key s = let (found, s') = get key s in (has_value found, s')

-- the deadline less the clock, or -1
abbrev remaining : Option ℤ → ℤ → ℤ
remaining none clock = no_expiry
remaining (some deadline) clock = deadline -ℤ clock

unfoldable pub pttl : Bytes → Store → ℤ × Store
pttl key s = elim (Dict.find key s.map) [
  | none ↦ (negsuc 1, s)
  | some value ↦
      if is_expired key s
      then (negsuc 1, reap_lazily key s)
      else (remaining (Dict.find key s.expires) s.clock, s)
]

unfoldable pub expire_at : Bytes → ℤ → Store → Bool × Store
expire_at key deadline s = elim (Dict.find key s.map) [
  | none ↦ (false, s)
  | some value ↦
      if is_expired key s
      then (false, reap_lazily key s)
      else if leb_ℤ deadline s.clock
      then (true, remove key s)
      else (true, record s { expires = Dict.insert key deadline s.expires })
]

unfoldable pub persist : Bytes → Store → Bool × Store
persist key s = elim (Dict.find key s.map) [
  | none ↦ (false, s)
  | some value ↦
      if is_expired key s
      then (false, reap_lazily key s)
      else (has_value (Dict.find key s.expires), record s { expires = Dict.erase key s.expires })
]

-- The loop of `keys` over the map: the keys found and the dead ones.
unfoldable pub scan_keys : Bytes → Store → Dict Bytes → List Bytes × List Bytes
scan_keys pattern s [] = ([], [])
scan_keys pattern s ((key, value) ∷ m) =
    let (found, dead) = scan_keys pattern s m in
    if is_expired key s
    then (found, key ∷ dead)
    else if glob_match pattern key
    then (key ∷ found, dead)
    else (found, dead)

unfoldable pub reap_all : List Bytes → Store → Store
reap_all [] s = s
reap_all (key ∷ dead) s = reap_all dead (reap_lazily key s)

unfoldable pub keys : Bytes → Store → List Bytes × Store
unfolding scan_keys reap_all
keys pattern s = let (found, dead) = scan_keys pattern s s.map in (found, reap_all dead s)

unfoldable pub count_past : ℤ → Dict ℤ → ℕ
count_past now [] = 0
count_past now ((key, deadline) ∷ m) =
    let rest = count_past now m in if leb_ℤ deadline now then rest + 1 else rest

-- `std::size_t` subtraction
unfoldable pub size : Store → ℕ
size s = (length s.map + (two_64 - count_past s.clock s.expires)) % two_64

unfoldable pub raw_size : Store → ℕ
raw_size s = length s.map

unfoldable pub expires_size : Store → ℕ
expires_size s = length s.expires

unfoldable pub clear : Store → Store
clear s = record s { map = []; expires = []; cursor = 0 }

-- `kNoExpiry` where there is no deadline
abbrev pub deadline_or : Option ℤ → ℤ
deadline_or none = no_expiry
deadline_or (some deadline) = deadline

abbrev pub is_dead : ℤ → ℤ → Bool
is_dead deadline now = not (eq_ℤ deadline no_expiry) && leb_ℤ deadline now

unfoldable pub snapshot_of : Dict ℤ → ℤ → Dict Bytes → List Record
snapshot_of expires now [] = []
snapshot_of expires now ((key, value) ∷ m) =
    let rest = snapshot_of expires now m in
    let deadline = deadline_or (Dict.find key expires) in
    if is_dead deadline now
    then rest
    else record { key = key; value = value; expire_at = deadline } ∷ rest

unfoldable pub snapshot : Store → List Record
unfolding snapshot_of
snapshot s = snapshot_of s.expires s.clock s.map

unfoldable pub load_record : Record → Store → Store
load_record r s = if is_dead r.expire_at s.clock then s else set r.key r.value r.expire_at s

unfoldable pub load_records : List Record → Store → Store
load_records [] s = s
load_records (r ∷ records) s = load_records records (load_record r s)
