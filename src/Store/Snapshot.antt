-- ===== src/Store/Snapshot.antt =====
-- Snapshots: what they hold, what loading one gives, and the count of live keys.
pub mod Live
use redis_plus.Prelude.{
  ℕ, suc, ◌+◌, ◌-◌, ◌%◌, ◌≤◌, ◌<◌, ◌≡◌, ◌≢◌, refl, sym, ◌∙◌, Bool, true, false, not, ◌&&◌, Option,
  none, some, List, [], ◌∷◌, Bytes, beq, beq_iff, beq_refl, if◌then◌else◌, arith, Option-cases,
  Bool-cases, inl, inr, length,
}
use redis_plus.Prelude.Int.{ℤ, pos, negsuc, ◌≤ℤ◌, leb_ℤ, eq_ℤ, eq_ℤ_iff, two_64}
use redis_plus.Dict
use redis_plus.Dict.{Dict}
use redis_plus.Dict.Keys.{NodupKeys}
use redis_plus.Store.{
  Store, Record, no_expiry, past, deadline_or, is_dead, set, empty, snapshot, snapshot_of,
  load_record, load_records, size, count_past, keys, scan_keys, is_expired,
}
use redis_plus.Store.View.{Held, alive, view, deadline_of, set_refines}
use redis_plus.Store.Valid.{IsValid}
use redis_plus.Glob.{glob_match}

unfoldable pub or_else : Option Held → Option Held → Option Held
or_else none y = y
or_else (some x) y = some x

-- A deadline that is not the mark for none goes through the record and back.
pub deadline_of-deadline_or : (d : Option ℤ) → d ≢ some no_expiry → deadline_of (deadline_or d) ≡ d
deadline_of-deadline_or none h = refl
deadline_of-deadline_or (some d) h = ground (arith, eq_ℤ_iff d no_expiry)

pub is_dead-deadline_or :
    (d : Option ℤ) (now : ℤ) → d ≢ some no_expiry → is_dead (deadline_or d) now ≡ past now d
is_dead-deadline_or none now h = refl
is_dead-deadline_or (some d) now h = ground (arith, eq_ℤ_iff d no_expiry)

pub past_later :
    (d : Option ℤ) (now later : ℤ) → now ≤ℤ later → past now d ≡ true → past later d ≡ true
past_later none now later h p = p
past_later (some d) now later h p = ground arith

pub clock-load_record : (r : Record) (s : Store) → (load_record r s).clock ≡ s.clock
unfolding load_record set
clock-load_record r s = ground arith

-- One record of a snapshot, loaded: seen as it was, if it is still alive.
view-load_record :
    (key value : Bytes) (d : Option ℤ) (s : Store) (j : Bytes)
    → d ≢ some no_expiry
    → view (load_record (record { key = key; value = value; expire_at = deadline_or d }) s) j
      ≡ (if beq key j then or_else (alive s.clock (some value) d) (view s j) else view s j)
unfolding load_record or_else
view-load_record key value d s j h = ground (
  arith,
  is_dead-deadline_or d s.clock h,
  deadline_of-deadline_or d h,
  set_refines key s value (deadline_or d) j,
)

module _ (expires : Dict ℤ) (now : ℤ)
    (clean : (k : Bytes) → Dict.find k expires ≢ some no_expiry) where
  -- the rest of the table, loaded over a store `s` at a later time
  pub view-load_snapshot_of :
      (m : Dict Bytes) (s : Store) (j : Bytes)
      → NodupKeys m
      → now ≤ℤ s.clock
      → view (load_records (snapshot_of expires now m) s) j
        ≡ or_else (alive s.clock (Dict.find j m) (Dict.find j expires)) (view s j)
  unfolding snapshot_of load_records or_else Dict.find
  view-load_snapshot_of [] s j nodup h = refl
  view-load_snapshot_of ((key, value) ∷ m) s j (fresh, nodup) h =
      let d = Dict.find key expires in
      let r : Record = record { key = key; value = value; expire_at = deadline_or d } in
      let s1 = load_record r s in
      elim (Bool-cases (past now d)) [
        | inl dead ↦
            rw (is_dead-deadline_or d now (clean key), dead)
              (ground (
                arith,
                beq_iff key j,
                past_later d now s.clock h dead,
                view-load_snapshot_of m s j nodup h,
              ))
        | inr alive_now ↦
            rw (is_dead-deadline_or d now (clean key), alive_now)
              (ground (
                arith,
                beq_iff key j,
                clock-load_record r s,
                view-load_record key value d s j (clean key),
                view-load_snapshot_of m s1 j nodup (rw clock-load_record h),
              ))
      ]

-- The snapshot of a valid store, loaded into an empty store at that time or later, shows every
-- key as the first store would show it by then.
pub view-load-snapshot :
    (s : Store) (later : ℤ) (j : Bytes)
    → IsValid s
    → s.clock ≤ℤ later
    → view (load_records (snapshot s) (empty later)) j ≡ view (record s { clock = later }) j
unfolding snapshot view or_else
view-load-snapshot s later j v h = ground (
  arith,
  Dict.find-nil {V = Bytes} j,
  view-load_snapshot_of s.expires s.clock v.no_sentinel s.map (empty later) j v.map_nodup h,
)
