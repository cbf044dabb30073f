-- ===== src/Dict.antt =====
-- `std::unordered_map` keyed by strings, as far as the store uses it: find, erase, `m[k] = v`,
-- the number of entries and iteration. The order of the entries stands for the table's unspecified
-- iteration order; a new key goes to the end.
pub mod Keys
use redis_plus.Prelude.{
  ◌≡◌, refl, Option, none, some, List, [], ◌∷◌, Bytes, beq, beq_iff, if◌then◌else◌, arith,
}

abbrev pub Dict {ℓ} : Type ℓ → Type ℓ
Dict V = List (Bytes × V)

module _ {ℓ} {V : Type ℓ} where
  unfoldable pub find : Bytes → Dict V → Option V
  find k [] = none
  find k ((j, v) ∷ m) = if beq j k then some v else find k m

  -- `m[k] = v`
  unfoldable pub insert : Bytes → V → Dict V → Dict V
  insert k v [] = (k, v) ∷ []
  insert k v ((j, w) ∷ m) = if beq j k then (k, v) ∷ m else (j, w) ∷ insert k v m

  unfoldable pub erase : Bytes → Dict V → Dict V
  erase k [] = []
  erase k ((j, w) ∷ m) = let rest = erase k m in if beq j k then rest else (j, w) ∷ rest

  pub find-insert :
      (k j : Bytes) (v : V) (m : Dict V)
      → find j (insert k v m) ≡ (if beq k j then some v else find j m)
  unfolding find insert
  find-insert k j v [] = refl
  find-insert k j v ((i, w) ∷ m) =
      ground (arith, beq_iff k j, beq_iff i k, beq_iff i j, find-insert k j v m)

  pub find-erase :
      (k j : Bytes) (m : Dict V) → find j (erase k m) ≡ (if beq k j then none else find j m)
  unfolding find erase
  find-erase k j [] = ground arith
  find-erase k j ((i, w) ∷ m) =
      ground (arith, beq_iff k j, beq_iff i k, beq_iff i j, find-erase k j m)

pub find-nil {ℓ} : {V : Type ℓ} (k : Bytes) → find {V = V} k [] ≡ none
unfolding find
find-nil k = refl

pub ruleset dict_laws = (find-nil, find-insert, find-erase)
