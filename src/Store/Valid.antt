-- ===== src/Store/Valid.antt =====
-- The invariant of a store, and each method on a store that has it.
use redis_plus.Prelude.{◌≡◌, ◌≢◌, false, none, some, Bytes, beq_iff, arith, Bool-cases, inl, inr}
use redis_plus.Prelude.Int.{ℤ, neg_part, eq_ℤ, leb_ℤ}
use redis_plus.Dict
use redis_plus.Dict.Keys.{NodupKeys, insert-NodupKeys, erase-NodupKeys}
use redis_plus.Store.{Store, no_expiry, remove, reap_lazily, set, clear, empty}

-- Only stored keys have deadlines, a deadline is never the mark for none, each table holds a key
-- once, and the clock is past the epoch.
pub record IsValid (s : Store) : Type 0 where
  pub tracked : (k : Bytes) → Dict.find k s.map ≡ none → Dict.find k s.expires ≡ none
  pub no_sentinel : (k : Bytes) → Dict.find k s.expires ≢ some no_expiry
  pub map_nodup : NodupKeys s.map
  pub expires_nodup : NodupKeys s.expires
  pub clock_nonneg : neg_part s.clock ≡ 0

pub empty-IsValid : (clock : ℤ) → neg_part clock ≡ 0 → IsValid (empty clock)
empty-IsValid clock h = record {
  tracked = λ k _. Dict.find-nil k;
  no_sentinel = λ k e. cc (Dict.find-nil {V = ℤ} k);
  map_nodup = tt;
  expires_nodup = tt;
  clock_nonneg = h;
}

module _ (s : Store) (v : IsValid s) where
  pub clear-IsValid : IsValid (clear s)
  unfolding clear
  clear-IsValid = record {
    tracked = λ k _. Dict.find-nil k;
    no_sentinel = λ k e. cc (Dict.find-nil {V = ℤ} k);
    map_nodup = tt;
    expires_nodup = tt;
    clock_nonneg = v.clock_nonneg;
  }

  pub remove-IsValid : (key : Bytes) → IsValid (remove key s)
  unfolding remove
  remove-IsValid key = record {
    tracked = λ k h.
        ground (arith, Dict.find-erase key k s.map, Dict.find-erase key k s.expires, v.tracked k);
    no_sentinel = λ k h. ground (arith, Dict.find-erase key k s.expires, v.no_sentinel k);
    map_nodup = erase-NodupKeys key s.map v.map_nodup;
    expires_nodup = erase-NodupKeys key s.expires v.expires_nodup;
    clock_nonneg = v.clock_nonneg;
  }

  pub reap_lazily-IsValid : (key : Bytes) → IsValid (reap_lazily key s)
  reap_lazily-IsValid key =
      let r = remove-IsValid key in
      record {
        tracked = r.tracked;
        no_sentinel = r.no_sentinel;
        map_nodup = r.map_nodup;
        expires_nodup = r.expires_nodup;
        clock_nonneg = r.clock_nonneg;
      }

  pub set-IsValid : (key value : Bytes) (deadline : ℤ) → IsValid (set key value deadline s)
  unfolding set
  set-IsValid key value deadline = elim (Bool-cases (eq_ℤ deadline no_expiry)) [
    | inl same ↦ rw same (record {
      tracked = λ k h.
          ground (
            arith,
            Dict.find-insert key k value s.map,
            Dict.find-erase key k s.expires,
            v.tracked k,
          );
      no_sentinel = λ k h. ground (arith, Dict.find-erase key k s.expires, v.no_sentinel k);
      map_nodup = insert-NodupKeys key value s.map v.map_nodup;
      expires_nodup = erase-NodupKeys key s.expires v.expires_nodup;
      clock_nonneg = v.clock_nonneg;
    })
    | inr other ↦ rw other (record {
      tracked = λ k h. ground (
        arith,
        Dict.find-insert key k value s.map,
        Dict.find-insert key k deadline s.expires,
        v.tracked k,
      );
      no_sentinel =
          λ k h. ground (arith, Dict.find-insert key k deadline s.expires, v.no_sentinel k);
      map_nodup = insert-NodupKeys key value s.map v.map_nodup;
      expires_nodup = insert-NodupKeys key deadline s.expires v.expires_nodup;
      clock_nonneg = v.clock_nonneg;
    })
  ]

  pub redate-IsValid :
      (key : Bytes) (deadline : ℤ) (value : Bytes)
      → Dict.find key s.map ≡ some value
      → leb_ℤ deadline s.clock ≡ false
      → IsValid (record s { expires = Dict.insert key deadline s.expires })
  redate-IsValid key deadline value e late = record {
    tracked = λ k h.
        ground (arith, beq_iff key k, Dict.find-insert key k deadline s.expires, v.tracked k);
    no_sentinel = λ k h.
        ground (arith, v.clock_nonneg, Dict.find-insert key k deadline s.expires, v.no_sentinel k);
    map_nodup = v.map_nodup;
    expires_nodup = insert-NodupKeys key deadline s.expires v.expires_nodup;
    clock_nonneg = v.clock_nonneg;
  }

  pub undate-IsValid : (key : Bytes) → IsValid (record s { expires = Dict.erase key s.expires })
  undate-IsValid key = record {
    tracked = λ k h. ground (arith, Dict.find-erase key k s.expires, v.tracked k);
    no_sentinel = λ k h. ground (arith, Dict.find-erase key k s.expires, v.no_sentinel k);
    map_nodup = v.map_nodup;
    expires_nodup = erase-NodupKeys key s.expires v.expires_nodup;
    clock_nonneg = v.clock_nonneg;
  }
