-- ===== src/Store/Expire/Safe.antt =====
-- The expiry passes and what a client sees.
use redis_plus.Prelude.{
  ℕ, zero, suc, ◌+◌, ◌≡◌, refl, ◌∙◌, true, none, some, List, [], ◌∷◌, Bytes, beq, beq_iff, All,
  All-map, if◌then◌else◌, arith, length, Bool-cases, inl, inr,
}
use redis_plus.Prelude.Int.{ℤ}
use redis_plus.Dict
use redis_plus.Dict.{Dict}
use redis_plus.Dict.Keys.{NodupKeys, find_entries}
use redis_plus.Store.{
  Store, bump, past, remove, count_lazy, reap_lazily, reap_all, keys, scan_keys, is_expired,
}
use redis_plus.Store.View.{view, alive}
use redis_plus.Store.Expire.{
  ExpiryConfig, sample_from, sample_expiring, dead_of, remove_all, count_pass, count_active,
  expire_passes, active_expire_cycle, scan_dead, reap_expired,
}

abbrev pub IsUnseen : Store → Bytes → Type 0
IsUnseen s key = view s key ≡ none

pub view-remove :
    (key : Bytes) (s : Store) (j : Bytes)
    → view (remove key s) j ≡ (if beq key j then none else view s j)
unfolding view remove
view-remove key s j =
    ground (arith, beq_iff key j, Dict.find-erase key j s.map, Dict.find-erase key j s.expires)

-- Removing a key that is not seen changes no view.
view-remove_unseen :
    (key : Bytes) (s : Store) → IsUnseen s key → (j : Bytes) → view (remove key s) j ≡ view s j
view-remove_unseen key s h j = ground (arith, view-remove key s j, beq_iff key j)

view-count_lazy : (s : Store) (k : Bytes) → view (count_lazy s) k ≡ view s k
unfolding view
view-count_lazy s k = refl

view-count_active : (n : ℕ) (s : Store) (k : Bytes) → view (count_active n s) k ≡ view s k
unfolding view
view-count_active n s k = refl

abbrev count_cycle : Store → Store
count_cycle s = record s { stats = record s.stats { cycles = bump s.stats.cycles 1 } }

view-count_cycle : (s : Store) (k : Bytes) → view (count_cycle s) k ≡ view s k
unfolding view
view-count_cycle s k = refl

view-sample_from :
    (table : List (List Bytes)) (n : ℕ) (s : Store) (k : Bytes)
    → view (sample_from table n (count_pass s)).1 k ≡ view s k
unfolding view sample_from
view-sample_from table n s k = ground arith

pub view-remove_all :
    (dead : List Bytes) (s : Store)
    → All (IsUnseen s) dead
    → (j : Bytes) → view (remove_all dead s) j ≡ view s j
unfolding remove_all
view-remove_all [] s h j = refl
view-remove_all (key ∷ dead) s (hk, h) j =
    let same = view-remove_unseen key s hk in
    view-remove_all dead (remove key s) (All-map dead (λ k u. same k ∙ u) h) j ∙ same j

view-reap_lazily_unseen :
    (key : Bytes) (s : Store) → IsUnseen s key → (j : Bytes) → view (reap_lazily key s) j ≡ view s j
view-reap_lazily_unseen key s h j = view-count_lazy (remove key s) j ∙ view-remove_unseen key s h j

pub view-reap_all :
    (dead : List Bytes) (s : Store)
    → All (IsUnseen s) dead
    → (j : Bytes) → view (reap_all dead s) j ≡ view s j
unfolding reap_all
view-reap_all [] s h j = refl
view-reap_all (key ∷ dead) s (hk, h) j =
    let same = view-reap_lazily_unseen key s hk in
    view-reap_all dead (reap_lazily key s) (All-map dead (λ k u. same k ∙ u) h) j ∙ same j

IsUnseen-of_past :
    (s : Store) (key : Bytes) → past s.clock (Dict.find key s.expires) ≡ true → IsUnseen s key
unfolding view
IsUnseen-of_past s key h = ground arith

dead_of-IsUnseen : (s : Store) (sampled : List Bytes) → All (IsUnseen s) (dead_of s sampled)
unfolding dead_of
dead_of-IsUnseen s [] = tt
dead_of-IsUnseen s (key ∷ sampled) = elim (Bool-cases (past s.clock (Dict.find key s.expires))) [
  | inl dead ↦ rw dead (IsUnseen-of_past s key dead, dead_of-IsUnseen s sampled)
  | inr alive ↦ rw alive (dead_of-IsUnseen s sampled)
]

module _ (buckets : Dict ℤ → List (List Bytes)) where
  -- one pass, for the store that the sample left
  view_pass :
      (s1 : Store) (sampled : List Bytes) (j : Bytes)
      → view (count_active (length (dead_of s1 sampled)) (remove_all (dead_of s1 sampled) s1)) j
        ≡ view s1 j
  view_pass s1 sampled j =
      let dead = dead_of s1 sampled in
      view-count_active (length dead) (remove_all dead s1) j
      ∙ view-remove_all dead s1 (dead_of-IsUnseen s1 sampled) j

  view-expire_passes :
      (cfg : ExpiryConfig) (left total : ℕ) (s : Store) (j : Bytes)
      → view (expire_passes buckets cfg left total s).1 j ≡ view s j
  unfolding expire_passes sample_expiring
  view-expire_passes cfg zero total s j = refl
  view-expire_passes cfg (suc left) total s j =
      let sample = sample_from (buckets s.expires) cfg.sample_size (count_pass s) in
      let dead = dead_of sample.1 sample.0 in
      ground (
        arith,
        view-sample_from (buckets s.expires) cfg.sample_size s j,
        view_pass sample.1 sample.0 j,
        view-expire_passes cfg left (total + length dead)
            (count_active (length dead) (remove_all dead sample.1)) j,
      )

  -- However the table hashes its keys, the active expiry cycle leaves every key as it was seen.
  pub view-active_expire_cycle :
      (cfg : ExpiryConfig) (s : Store) (j : Bytes)
      → view (active_expire_cycle buckets cfg s).1 j ≡ view s j
  unfolding active_expire_cycle
  view-active_expire_cycle cfg s j =
      view-expire_passes cfg cfg.max_passes 0 (count_cycle s) j ∙ view-count_cycle s j

scan_dead-IsUnseen :
    (s : Store) (limit taken : ℕ) (m : Dict ℤ)
    → All (λ (e : Bytes × ℤ). Dict.find e.0 s.expires ≡ some e.1) m
    → All (IsUnseen s) (scan_dead s.clock limit taken m)
unfolding scan_dead
scan_dead-IsUnseen s limit taken [] h = tt
scan_dead-IsUnseen s limit taken ((key, deadline) ∷ m) (e, h) = ground (
  arith,
  IsUnseen-of_past s key,
  scan_dead-IsUnseen s limit taken m h,
  scan_dead-IsUnseen s limit (taken + 1) m h,
)

-- reap_expired leaves every key as it was seen, for a table of deadlines that holds each key
-- once.
pub view-reap_expired :
    (limit : ℕ) (s : Store) (j : Bytes)
    → NodupKeys s.expires
    → view (reap_expired limit s).1 j ≡ view s j
unfolding reap_expired
view-reap_expired limit s j nodup =
    let dead = scan_dead s.clock limit 0 s.expires in
    view-count_active (length dead) (remove_all dead s) j
    ∙ view-remove_all dead s (scan_dead-IsUnseen s limit 0 s.expires (find_entries s.expires nodup))
        j

scan_keys-IsUnseen :
    (pattern : Bytes) (s : Store) (m : Dict Bytes) → All (IsUnseen s) (scan_keys pattern s m).1
unfolding scan_keys is_expired
scan_keys-IsUnseen pattern s [] = tt
scan_keys-IsUnseen pattern s ((key, value) ∷ m) =
    ground (arith, IsUnseen-of_past s key, scan_keys-IsUnseen pattern s m)

-- `keys` drops the dead keys that it meets, which changes no view.
pub view-keys : (pattern : Bytes) (s : Store) (j : Bytes) → view (keys pattern s).1 j ≡ view s j
unfolding keys
view-keys pattern s j =
    view-reap_all (scan_keys pattern s s.map).1 s (scan_keys-IsUnseen pattern s s.map) j
