-- ===== src/Dict/Keys.antt =====
-- Tables that hold each key once.
use redis_plus.Prelude.{
  ◌+◌, ◌≡◌, none, [], ◌∷◌, Bytes, beq_iff, beq_refl, All, All-map, some, length, has_value,
  if◌then◌else◌, arith,
}
use redis_plus.Dict.{Dict, find, insert, erase, find-nil, find-insert, find-erase}

module _ {ℓ} {V : Type ℓ} where
  abbrev pub NodupKeys : Dict V → Type ℓ
  NodupKeys [] = Unit
  NodupKeys ((k, v) ∷ m) = (find k m ≡ none) × NodupKeys m

  pub insert-NodupKeys : (k : Bytes) (v : V) (m : Dict V) → NodupKeys m → NodupKeys (insert k v m)
  unfolding insert
  insert-NodupKeys k v [] h = (find-nil k, tt)
  insert-NodupKeys k v ((j, w) ∷ m) (a, h) =
      ground (arith, beq_iff j k, beq_iff k j, find-insert k j v m, insert-NodupKeys k v m h)

  pub erase-NodupKeys : (k : Bytes) (m : Dict V) → NodupKeys m → NodupKeys (erase k m)
  unfolding erase
  erase-NodupKeys k [] h = tt
  erase-NodupKeys k ((j, w) ∷ m) (a, h) = ground (arith, find-erase k j m, erase-NodupKeys k m h)

  -- Erasing a key that is there removes exactly one entry.
  pub length-erase :
      (k : Bytes) (m : Dict V)
      → NodupKeys m
      → length (erase k m) + (if has_value (find k m) then 1 else 0) ≡ length m
  unfolding erase find
  length-erase k [] h = omega arith
  length-erase k ((j, w) ∷ m) (a, h) = ground (arith, beq_iff j k, length-erase k m h)

  -- Each entry of the table is the one that its key finds.
  pub find_entries : (m : Dict V) → NodupKeys m → All (λ (e : Bytes × V). find e.0 m ≡ some e.1) m
  unfolding find
  find_entries [] h = tt
  find_entries ((k, v) ∷ m) (a, h) =
      (rw beq_refl, All-map m (λ e found. ground (arith, beq_iff k e.0)) (find_entries m h))
