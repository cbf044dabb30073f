-- ===== src/Store/Expire.antt =====
-- `sample_expiring`, `active_expire_cycle` and `reap_expired`. The bucket structure of the standard
-- library's hash table is the parameter `buckets`: the keys of each bucket of `expires_`, in order.
pub mod Safe
use redis_plus.Prelude.{
  ℕ, zero, suc, ◌+◌, ◌-◌, ◌*◌, ◌/◌, ◌%◌, Bool, true, false, ◌||◌, none, some, List, [], ◌∷◌, ◌++◌,
  Bytes, ltb, leb, ◌==◌, if◌then◌else◌, length, take, get_elem?,
}
use redis_plus.Prelude.Int.{ℤ, leb_ℤ}
use redis_plus.Dict
use redis_plus.Dict.{Dict}
use redis_plus.Store.{Store, past, remove, bump}

-- `continue_threshold_pct` is converted to `std::size_t`, as it is here.
pub record ExpiryConfig : Type 0 where
  pub sample_size : ℕ
  pub continue_threshold_pct : ℕ
  pub max_passes : ℕ

abbrev pub default_config : ExpiryConfig
default_config = record { sample_size = 20; continue_threshold_pct = 25; max_passes = 16 }

abbrev bucket_at : List (List Bytes) → ℕ → List Bytes
bucket_at table i = elim (get_elem? table i) [ none ↦ [] | some bucket ↦ bucket ]

-- The walk over the buckets from `cursor` on, `left` of them not yet visited: how many were
-- visited, and the keys.
unfoldable pub walk : List (List Bytes) → ℕ → ℕ → ℕ → ℕ → List Bytes → ℕ × List Bytes
walk table cursor n zero visited out = (visited, out)
walk table cursor n (suc left) visited out =
    let bucket = bucket_at table ((cursor + visited) % length table) in
    let rest = walk table cursor n left (visited + 1) (out ++ take (n - length out) bucket) in
    if ltb (length out) n then rest else (visited, out)

abbrev pub is_nil {ℓ} : {A : Type ℓ} → List A → Bool
is_nil [] = true
is_nil (x ∷ xs) = false

unfoldable pub sample_from : List (List Bytes) → ℕ → Store → List Bytes × Store
unfolding walk
sample_from table n s =
    if is_nil s.expires || n == 0 || is_nil table
    then ([], s)
    else let cursor = if leb (length table) s.cursor then 0 else s.cursor in
      let (visited, out) = walk table cursor n (length table) 0 [] in
      (out, record s { cursor = (cursor + visited) % length table })

-- the sampled keys whose deadline is past
unfoldable pub dead_of : Store → List Bytes → List Bytes
dead_of s [] = []
dead_of s (key ∷ sampled) =
    let rest = dead_of s sampled in
    if past s.clock (Dict.find key s.expires) then key ∷ rest else rest

unfoldable pub remove_all : List Bytes → Store → Store
remove_all [] s = s
remove_all (key ∷ dead) s = remove_all dead (remove key s)

abbrev pub count_pass : Store → Store
count_pass s = record s { stats = record s.stats { passes = bump s.stats.passes 1 } }

abbrev pub count_active : ℕ → Store → Store
count_active n s = record s {
  stats = record s.stats { expired_active = bump s.stats.expired_active n };
}

module _ (buckets : Dict ℤ → List (List Bytes)) where
  unfoldable pub sample_expiring : ℕ → Store → List Bytes × Store
  unfolding sample_from
  sample_expiring n s = sample_from (buckets s.expires) n s

  -- The passes that are left; the keys reaped so far are `total`.
  unfoldable pub expire_passes : ExpiryConfig → ℕ → ℕ → Store → ℕ × Store
  expire_passes cfg zero total s = (total, s)
  expire_passes cfg (suc left) total s =
      let (sampled, s1) = sample_expiring cfg.sample_size (count_pass s) in
      let dead = dead_of s1 sampled in
      let s2 = count_active (length dead) (remove_all dead s1) in
      let threshold = length sampled * cfg.continue_threshold_pct / 100 in
      let rest = expire_passes cfg left (total + length dead) s2 in
      if is_nil s.expires
      then (total, s)
      else if is_nil sampled
      then (total, s1)
      else if leb (length dead) threshold
      then (total + length dead, s2)
      else rest

  unfoldable pub active_expire_cycle : ExpiryConfig → Store → ℕ × Store
  unfolding expire_passes
  active_expire_cycle cfg s =
      expire_passes cfg cfg.max_passes 0
        (record s { stats = record s.stats { cycles = bump s.stats.cycles 1 } })

-- The loop of `reap_expired`, with `taken` keys found before.
unfoldable pub scan_dead : ℤ → ℕ → ℕ → Dict ℤ → List Bytes
scan_dead now limit taken [] = []
scan_dead now limit taken ((key, deadline) ∷ m) =
    let skip = scan_dead now limit taken m in
    let more = key ∷ scan_dead now limit (taken + 1) m in
    if leb limit taken then [] else if leb_ℤ deadline now then more else skip

unfoldable pub reap_expired : ℕ → Store → ℕ × Store
unfolding scan_dead remove_all
reap_expired limit s =
    let dead = scan_dead s.clock limit 0 s.expires in
    (length dead, count_active (length dead) (remove_all dead s))
