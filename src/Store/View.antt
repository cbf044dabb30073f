-- ===== src/Store/View.antt =====
-- What a client can see of a store: the live keys, their values and their deadlines. Each method is
-- specified by what it does to that view, and refines its specification.
use redis_plus.Prelude.{
  ◌≡◌, Bool, true, false, Option, none, some, Bytes, beq, beq_iff, has_value, if◌then◌else◌, arith,
}
use redis_plus.Prelude.Int.{ℤ, negsuc, eq_ℤ}
use redis_plus.Dict
use redis_plus.Store.{
  Store, no_expiry, past, remaining, is_expired, remove, reap_lazily, get, set, erase, pttl,
  expire_at, persist,
}

-- A value, and its deadline if it has one.
abbrev pub Held : Type 0
Held = Bytes × Option ℤ

abbrev pub alive : ℤ → Option Bytes → Option ℤ → Option Held
alive now none deadline = none
alive now (some value) deadline = if past now deadline then none else some (value, deadline)

unfoldable pub view : Store → Bytes → Option Held
view s key = alive s.clock (Dict.find key s.map) (Dict.find key s.expires)

-- the answer of GET, of PTTL and of PERSIST for a key that is seen so
abbrev pub value_of : Option Held → Option Bytes
value_of none = none
value_of (some (value, deadline)) = some value

abbrev pub ttl_of : ℤ → Option Held → ℤ
ttl_of now none = negsuc 1
ttl_of now (some (value, deadline)) = remaining deadline now

abbrev pub has_deadline : Option Held → Bool
has_deadline none = false
has_deadline (some (value, deadline)) = has_value deadline

-- the key as it is seen after a new deadline, and after PERSIST
abbrev pub redated : ℤ → ℤ → Option Held → Option Held
redated now deadline none = none
redated now deadline (some (value, old)) = alive now (some value) (some deadline)

abbrev pub undated : Option Held → Option Held
undated none = none
undated (some (value, deadline)) = some (value, none)

abbrev pub deadline_of : ℤ → Option ℤ
deadline_of deadline = if eq_ℤ deadline no_expiry then none else some deadline

module _ (key : Bytes) (s : Store) where
  -- Reaping a dead key changes nothing that can be seen.
  pub view-reap_lazily :
      (j : Bytes) → is_expired key s ≡ true → view (reap_lazily key s) j ≡ view s j
  unfolding view remove is_expired
  view-reap_lazily j h =
      ground (arith, beq_iff key j, Dict.find-erase key j s.map, Dict.find-erase key j s.expires)

  -- `get` answers with the value that is seen, and changes nothing that is seen.
  pub get_refines :
      (j : Bytes) → ((get key s).0 ≡ value_of (view s key)) × (view (get key s).1 j ≡ view s j)
  unfolding get view remove is_expired
  get_refines j =
      ground (arith, beq_iff key j, Dict.find-erase key j s.map, Dict.find-erase key j s.expires)

  -- After set its key is seen with the new value and exactly the new deadline, unless that is
  -- past, and the other keys as before.
  pub set_refines :
      (value : Bytes) (deadline : ℤ) (j : Bytes)
      → view (set key value deadline s) j
        ≡ (if beq key j then alive s.clock (some value) (deadline_of deadline) else view s j)
  unfolding set view
  set_refines value deadline j = ground (
    arith,
    beq_iff key j,
    Dict.find-insert key j value s.map,
    Dict.find-insert key j deadline s.expires,
    Dict.find-erase key j s.expires,
  )

  -- erase says whether the key was seen, and takes it away; the other keys are seen as before.
  pub erase_refines :
      (j : Bytes)
      → ((erase key s).0 ≡ has_value (view s key))
        × (view (erase key s).1 j ≡ (if beq key j then none else view s j))
  unfolding erase view remove is_expired
  erase_refines j =
      ground (arith, beq_iff key j, Dict.find-erase key j s.map, Dict.find-erase key j s.expires)

  -- `pttl` answers -2 for no key, -1 for no deadline, else the time left, and changes no view.
  pub pttl_refines :
      (j : Bytes)
      → ((pttl key s).0 ≡ ttl_of s.clock (view s key)) × (view (pttl key s).1 j ≡ view s j)
  unfolding pttl view remove is_expired
  pttl_refines j =
      ground (arith, beq_iff key j, Dict.find-erase key j s.map, Dict.find-erase key j s.expires)

  -- expire_at says whether the key was seen, and the key is then seen with the new deadline, or
  -- not at all if that is past; the other keys are seen as before.
  pub expire_at_refines :
      (deadline : ℤ) (j : Bytes)
      → ((expire_at key deadline s).0 ≡ has_value (view s key))
        × (view (expire_at key deadline s).1 j
            ≡ (if beq key j then redated s.clock deadline (view s key) else view s j))
  unfolding expire_at view remove is_expired
  expire_at_refines deadline j = ground (
    arith,
    beq_iff key j,
    Dict.find-erase key j s.map,
    Dict.find-insert key j deadline s.expires,
    Dict.find-erase key j s.expires,
  )

  -- persist says whether the key was seen with a deadline, and takes the deadline away; the other
  -- keys are seen as before.
  pub persist_refines :
      (j : Bytes)
      → ((persist key s).0 ≡ has_deadline (view s key))
        × (view (persist key s).1 j ≡ (if beq key j then undated (view s key) else view s j))
  unfolding persist view remove is_expired
  persist_refines j =
      ground (arith, beq_iff key j, Dict.find-erase key j s.map, Dict.find-erase key j s.expires)
