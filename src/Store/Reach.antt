-- ===== src/Store/Reach.antt =====
-- The invariant over sequences of method calls, with the clock moving forward between them.
use mathlib.Core.Path.{subst, sym}
use redis_plus.Prelude.{
  ℕ, zero, suc, ◌+◌, ◌≡◌, refl, Bool, true, false, Option, none, some, List, [], ◌∷◌, Bytes,
  if◌then◌else◌, arith, Bool-cases, inl, inr, length, leb, has_value, ◌||◌, ◌==◌, ◌*◌, ◌/◌,
}
use redis_plus.Prelude.Int.{ℤ, negsuc, ◌≤ℤ◌, leb_ℤ, neg_part}
use redis_plus.Dict
use redis_plus.Dict.{Dict}
use redis_plus.Store.{
  Store, Record, ExpiryStats, remaining, is_expired, remove, reap_lazily, get, set, erase, contains,
  pttl, expire_at, persist, keys, reap_all, scan_keys, clear, load_record, is_dead,
}
use redis_plus.Store.Valid.{
  IsValid, clear-IsValid, remove-IsValid, reap_lazily-IsValid, set-IsValid, redate-IsValid,
  undate-IsValid,
}
use redis_plus.Store.Expire.{
  ExpiryConfig, sample_from, sample_expiring, dead_of, count_pass, remove_all, count_active, is_nil,
  reap_expired, expire_passes, active_expire_cycle, scan_dead,
}

-- A method that looks its key up and drops it if it is dead keeps what its last branch keeps.
module _ {R : Type 0} (P : Store → Type 0) (key : Bytes) (s : Store) (absent dead : R)
    (live : Bytes → R × Store) where
  after_lookup :
      P s
      → P (reap_lazily key s)
      → ((value : Bytes) → Dict.find key s.map ≡ some value → P (live value).1)
      → (o : Option Bytes) → Dict.find key s.map ≡ o
      → (b : Bool)
      → P
          (elim o as (λ _. R × Store) [
            | none ↦ (absent, s)
            | some value ↦ if b then (dead, reap_lazily key s) else live value
          ]).1
  after_lookup hs hr hl none e b = hs
  after_lookup hs hr hl (some value) e true = hr
  after_lookup hs hr hl (some value) e false = hl value e

module _ (s : Store) (v : IsValid s) (key : Bytes) where
  IsValid-after :
      {R : Type 0} (absent dead : R) (live : Bytes → R × Store)
      → ((value : Bytes) → Dict.find key s.map ≡ some value → IsValid (live value).1)
      → IsValid
          (elim (Dict.find key s.map) as (λ _. R × Store) [
            | none ↦ (absent, s)
            | some value ↦ if is_expired key s then (dead, reap_lazily key s) else live value
          ]).1
  IsValid-after absent dead live hl =
      after_lookup IsValid key s absent dead live v (reap_lazily-IsValid s v key) hl
        (Dict.find key s.map) refl (is_expired key s)

  get-IsValid : IsValid (get key s).1
  unfolding get
  get-IsValid = IsValid-after none none (λ value. (some value, s)) (λ value found. v)

  erase-IsValid : IsValid (erase key s).1
  unfolding erase
  erase-IsValid =
      IsValid-after false false (λ value. (true, remove key s))
        (λ value found. remove-IsValid s v key)

  pttl-IsValid : IsValid (pttl key s).1
  unfolding pttl
  pttl-IsValid =
      IsValid-after (negsuc 1) (negsuc 1)
        (λ value. (remaining (Dict.find key s.expires) s.clock, s)) (λ value found. v)

  persist-IsValid : IsValid (persist key s).1
  unfolding persist
  persist-IsValid =
      IsValid-after false false
        (λ value.
          (has_value (Dict.find key s.expires), record s { expires = Dict.erase key s.expires }))
        (λ value found. undate-IsValid s v key)

  redate_or_drop : ℤ → Bool × Store
  redate_or_drop deadline =
      if leb_ℤ deadline s.clock
      then (true, remove key s)
      else (true, record s { expires = Dict.insert key deadline s.expires })

  expire_at-IsValid : (deadline : ℤ) → IsValid (expire_at key deadline s).1
  unfolding expire_at redate_or_drop
  expire_at-IsValid deadline =
      IsValid-after false false (λ value. redate_or_drop deadline)
        (λ value found. elim (Bool-cases (leb_ℤ deadline s.clock)) [
          | inl past ↦ rw past (remove-IsValid s v key)
          | inr later ↦ rw later (redate-IsValid s v key deadline value found later)
        ])

load_record-IsValid : (r : Record) (s : Store) → IsValid s → IsValid (load_record r s)
unfolding load_record
load_record-IsValid r s v = elim (Bool-cases (is_dead r.expire_at s.clock)) [
  | inl dead ↦ rw dead v
  | inr alive ↦ rw alive (set-IsValid s v r.key r.value r.expire_at)
]

reap_all-IsValid : (dead : List Bytes) (s : Store) → IsValid s → IsValid (reap_all dead s)
unfolding reap_all
reap_all-IsValid [] s v = v
reap_all-IsValid (key ∷ dead) s v =
    reap_all-IsValid dead (reap_lazily key s) (reap_lazily-IsValid s v key)

remove_all-IsValid : (dead : List Bytes) (s : Store) → IsValid s → IsValid (remove_all dead s)
unfolding remove_all
remove_all-IsValid [] s v = v
remove_all-IsValid (key ∷ dead) s v =
    remove_all-IsValid dead (remove key s) (remove-IsValid s v key)

-- The invariant reads neither the counters nor the cursor.
recount-IsValid :
    (s : Store) (c : ℕ) (st : ExpiryStats)
    → IsValid s
    → IsValid (record s { cursor = c; stats = st })
recount-IsValid s c st v = record {
  tracked = v.tracked;
  no_sentinel = v.no_sentinel;
  map_nodup = v.map_nodup;
  expires_nodup = v.expires_nodup;
  clock_nonneg = v.clock_nonneg;
}

sample_from-IsValid :
    (table : List (List Bytes)) (n : ℕ) (s : Store) → IsValid s → IsValid (sample_from table n s).1
unfolding sample_from
sample_from-IsValid table n s v = elim (Bool-cases (is_nil s.expires || n == 0 || is_nil table)) [
  | inl none_left ↦ rw none_left v
  | inr some_left ↦ rw some_left (recount-IsValid s _ _ v)
]

either_branch :
    (b : Bool) (x y : ℕ × Store) → IsValid x.1 → IsValid y.1 → IsValid (if b then x else y).1
either_branch true x y hx hy = hx
either_branch false x y hx hy = hy

module _ (buckets : Dict ℤ → List (List Bytes)) where
  expire_passes-IsValid :
      (cfg : ExpiryConfig) (left total : ℕ) (s : Store)
      → IsValid s
      → IsValid (expire_passes buckets cfg left total s).1
  unfolding expire_passes sample_expiring
  expire_passes-IsValid cfg zero total s v = v
  expire_passes-IsValid cfg (suc left) total s v =
      let sample = sample_from (buckets s.expires) cfg.sample_size (count_pass s) in
      let s1 = sample.1 in
      let dead = dead_of s1 sample.0 in
      let s2 = count_active (length dead) (remove_all dead s1) in
      let v1 : IsValid s1 =
        sample_from-IsValid (buckets s.expires) cfg.sample_size (count_pass s)
          (recount-IsValid s _ _ v) in
      let v2 : IsValid s2 =
        recount-IsValid (remove_all dead s1) _ _ (remove_all-IsValid dead s1 v1) in
      either_branch (is_nil s.expires) (total, s) _ v
        (either_branch (is_nil sample.0) (total, s1) _ v1
          (either_branch (leb (length dead) (length sample.0 * cfg.continue_threshold_pct / 100))
            (total + length dead, s2) _ v2
            (expire_passes-IsValid cfg left (total + length dead) s2 v2)))

-- One call of a method, or the clock moving on between two calls.
pub data Step (buckets : Dict ℤ → List (List Bytes)) (s : Store) : Store → Type 0 where
  gets : {t : Store} (key : Bytes) → t ≡ (get key s).1 → Step buckets s t
  sets :
      {t : Store} (key value : Bytes) (deadline : ℤ)
      → t ≡ set key value deadline s
      → Step buckets s t
  erases : {t : Store} (key : Bytes) → t ≡ (erase key s).1 → Step buckets s t
  looks : {t : Store} (key : Bytes) → t ≡ (contains key s).1 → Step buckets s t
  asks_ttl : {t : Store} (key : Bytes) → t ≡ (pttl key s).1 → Step buckets s t
  expires_at :
      {t : Store} (key : Bytes) (deadline : ℤ) → t ≡ (expire_at key deadline s).1 → Step buckets s t
  persists : {t : Store} (key : Bytes) → t ≡ (persist key s).1 → Step buckets s t
  lists : {t : Store} (pattern : Bytes) → t ≡ (keys pattern s).1 → Step buckets s t
  clears : {t : Store} → t ≡ clear s → Step buckets s t
  loads : {t : Store} (r : Record) → t ≡ load_record r s → Step buckets s t
  cycles :
      {t : Store} (cfg : ExpiryConfig)
      → t ≡ (active_expire_cycle buckets cfg s).1
      → Step buckets s t
  reaps : {t : Store} (limit : ℕ) → t ≡ (reap_expired limit s).1 → Step buckets s t
  ticks :
      {t : Store} (later : ℤ) → s.clock ≤ℤ later → t ≡ record s { clock = later } → Step buckets s t

nonneg_later : (a b : ℤ) → a ≤ℤ b → neg_part a ≡ 0 → neg_part b ≡ 0
nonneg_later a b h e = ground arith

pub data Reach (buckets : Dict ℤ → List (List Bytes)) (s : Store) : Store → Type 0 where
  here : Reach buckets s s
  next : {t u : Store} → Reach buckets s t → Step buckets t u → Reach buckets s u

module _ (buckets : Dict ℤ → List (List Bytes)) where
  by : {t u : Store} → t ≡ u → IsValid u → IsValid t
  by e v = subst IsValid (sym e) v

  Step-IsValid : {s t : Store} → Step buckets s t → IsValid s → IsValid t
  unfolding contains keys clear active_expire_cycle reap_expired
  Step-IsValid {s} (gets key e) v = by e (get-IsValid s v key)
  Step-IsValid {s} (sets key value deadline e) v = by e (set-IsValid s v key value deadline)
  Step-IsValid {s} (erases key e) v = by e (erase-IsValid s v key)
  Step-IsValid {s} (looks key e) v = by e (get-IsValid s v key)
  Step-IsValid {s} (asks_ttl key e) v = by e (pttl-IsValid s v key)
  Step-IsValid {s} (expires_at key deadline e) v = by e (expire_at-IsValid s v key deadline)
  Step-IsValid {s} (persists key e) v = by e (persist-IsValid s v key)
  Step-IsValid {s} (lists pattern e) v = by e (reap_all-IsValid (scan_keys pattern s s.map).1 s v)
  Step-IsValid {s} (clears e) v = by e (clear-IsValid s v)
  Step-IsValid {s} (loads r e) v = by e (load_record-IsValid r s v)
  Step-IsValid {s} (cycles cfg e) v =
      by e (expire_passes-IsValid buckets cfg cfg.max_passes 0 _ (recount-IsValid s _ _ v))
  Step-IsValid {s} (reaps limit e) v =
      by e (recount-IsValid _ _ _ (remove_all-IsValid (scan_dead s.clock limit 0 s.expires) s v))
  Step-IsValid {s} (ticks later h e) v = by e (record {
    tracked = v.tracked;
    no_sentinel = v.no_sentinel;
    map_nodup = v.map_nodup;
    expires_nodup = v.expires_nodup;
    clock_nonneg = nonneg_later s.clock later h v.clock_nonneg;
  })

  -- Whatever methods are called in whatever order, while the clock only moves forward, a store
  -- that began valid stays valid.
  pub Reach-IsValid : {s t : Store} → IsValid s → Reach buckets s t → IsValid t
  Reach-IsValid v here = v
  Reach-IsValid v (next r st) = Step-IsValid st (Reach-IsValid v r)
