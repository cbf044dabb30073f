-- ===== src/Store/Snapshot/Live.antt =====
-- The live keys: `size`, `keys` and the snapshot.
use redis_plus.Prelude.{
  ℕ, ◌+◌, ◌<◌, ◌≡◌, ◌≢◌, refl, sym, ◌&&◌, none, some, List, [], ◌∷◌, Bytes, beq_iff, if◌then◌else◌,
  arith, length, has_value,
}
use redis_plus.Prelude.Int.{ℤ, leb_ℤ, two_64}
use redis_plus.Dict
use redis_plus.Dict.{Dict}
use redis_plus.Dict.Keys.{NodupKeys}
use redis_plus.Store.{
  Store, Record, no_expiry, past, snapshot, snapshot_of, size, count_past, keys, scan_keys,
  is_expired,
}
use redis_plus.Store.Valid.{IsValid}
use redis_plus.Store.Snapshot.{is_dead-deadline_or}
use redis_plus.Glob.{glob_match}

-- the keys of the map whose deadline is past
dead_count : ℤ → Dict ℤ → Dict Bytes → ℕ
dead_count now expires [] = 0
dead_count now expires ((key, value) ∷ m) =
    let rest = dead_count now expires m in
    if past now (Dict.find key expires) then rest + 1 else rest

dead_count-nil : (now : ℤ) (m : Dict Bytes) → dead_count now [] m ≡ 0
unfolding dead_count Dict.find
dead_count-nil now [] = refl
dead_count-nil now ((key, value) ∷ m) = dead_count-nil now m

-- One more entry with a past deadline is one more dead key, if the map has that key.
dead_count-cons :
    (now : ℤ) (k : Bytes) (d : ℤ) (expires : Dict ℤ) (m : Dict Bytes)
    → NodupKeys m
    → Dict.find k expires ≡ none
    → dead_count now ((k, d) ∷ expires) m
      ≡ dead_count now expires m + (if leb_ℤ d now && has_value (Dict.find k m) then 1 else 0)
unfolding dead_count Dict.find
dead_count-cons now k d expires [] nodup fresh = ground arith
dead_count-cons now k d expires ((j, value) ∷ m) (alone, nodup) fresh =
    ground (arith, beq_iff k j, beq_iff j k, dead_count-cons now k d expires m nodup fresh)

count_past-eq-dead_count :
    (now : ℤ) (expires : Dict ℤ) (m : Dict Bytes)
    → NodupKeys expires
    → NodupKeys m
    → ((k : Bytes) → Dict.find k m ≡ none → Dict.find k expires ≡ none)
    → count_past now expires ≡ dead_count now expires m
unfolding count_past
count_past-eq-dead_count now [] m ne nm h = sym (dead_count-nil now m)
count_past-eq-dead_count now ((k, d) ∷ expires) m (fresh, ne) nm h =
    let smaller : (j : Bytes) → Dict.find j m ≡ none → Dict.find j expires ≡ none =
      λ j absent. unfold Dict.find in ground (arith, beq_iff k j, h j absent) in
    let there : Dict.find k m ≢ none =
      λ absent. unfold Dict.find in ground (arith, beq_iff k k, h k absent) in
    ground (
      arith,
      there,
      dead_count-cons now k d expires m nm fresh,
      count_past-eq-dead_count now expires m ne nm smaller,
    )

module _ (expires : Dict ℤ) (now : ℤ)
    (clean : (k : Bytes) → Dict.find k expires ≢ some no_expiry) where
  length-snapshot_of :
      (m : Dict Bytes) → length (snapshot_of expires now m) + dead_count now expires m ≡ length m
  unfolding snapshot_of dead_count
  length-snapshot_of [] = refl
  length-snapshot_of ((key, value) ∷ m) =
      ground
        (arith, is_dead-deadline_or (Dict.find key expires) now (clean key), length-snapshot_of m)

-- size of a valid store is the number of its live keys, as its snapshot lists them, where the map
-- holds fewer than 2 ^ 64 keys.
pub size-eq-length-snapshot :
    (s : Store) → IsValid s → length s.map < two_64 → size s ≡ length (snapshot s)
unfolding size snapshot
size-eq-length-snapshot s v h = omega (
  arith,
  count_past-eq-dead_count s.clock s.expires s.map v.expires_nodup v.map_nodup v.tracked,
  length-snapshot_of s.expires s.clock v.no_sentinel s.map,
)

-- the keys of records that match a pattern
pub matching : Bytes → List Record → List Bytes
matching pattern [] = []
matching pattern (r ∷ records) =
    let rest = matching pattern records in if glob_match pattern r.key then r.key ∷ rest else rest

scan_keys-matching :
    (pattern : Bytes) (s : Store) (v : IsValid s) (m : Dict Bytes)
    → (scan_keys pattern s m).0 ≡ matching pattern (snapshot_of s.expires s.clock m)
unfolding scan_keys matching snapshot_of is_expired
scan_keys-matching pattern s v [] = refl
scan_keys-matching pattern s v ((key, value) ∷ m) = ground (
  arith,
  is_dead-deadline_or (Dict.find key s.expires) s.clock (v.no_sentinel key),
  scan_keys-matching pattern s v m,
)

-- keys of a valid store answers with exactly the keys of its snapshot that match the pattern, in
-- the order of the table.
pub keys-matching :
    (pattern : Bytes) (s : Store) → IsValid s → (keys pattern s).0 ≡ matching pattern (snapshot s)
unfolding keys snapshot
keys-matching pattern s v = scan_keys-matching pattern s v s.map
