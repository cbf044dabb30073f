-- ===== src/Commands/Propagate/Expire.antt =====
-- EXPIRE and its kin, and PERSIST.
use mathlib.Core.Bool.{false≢true}
use redis_plus.Prelude.{
  ◌≡◌, refl, Bool, true, false, Option, none, some, [], ◌∷◌, Bytes, beq, beq_iff, codes,
  if◌then◌else◌, arith,
}
use redis_plus.Prelude.Int.{ℤ, times_1000, ◌+ℤ◌}
use redis_plus.Decimal.{to_int64, int_to_string}
use redis_plus.Decimal.RoundTrip.{to_int64-int_to_string}
use redis_plus.Store.{Store}
use redis_plus.Store.View.{view, redated, expire_at_refines, persist_refines}
use redis_plus.Commands.Base.{Args, Outcome}
use redis_plus.Commands.Keyspace.{cmd_expire, expire_number, expire_with, cmd_persist}
use redis_plus.Commands.Propagate.Set.{IsPrintable}

abbrev pub pexpireat : Bytes → ℤ → Args
pexpireat key d = codes "PEXPIREAT" ∷ key ∷ int_to_string d ∷ []

-- A key given a deadline, as the view shows it: deleted if that is past.
abbrev pub Redates : Bytes → ℤ → Store → Store → Type 0
Redates key d s t =
    (j : Bytes) → view t j ≡ (if beq key j then redated s.clock d (view s key) else view s j)

expire_with-written :
    (absolute : Bool) (key : Bytes) (n : ℤ) (s : Store)
    → (expire_with absolute key n s).0.dirty ≡ true
    → (d : ℤ) × ((expire_with absolute key n s).0.propagate ≡ pexpireat key d)
      × Redates key d s (expire_with absolute key n s).1
unfolding expire_with
expire_with-written absolute key n s h =
    let d = if absolute then n else s.clock +ℤ n in
    (d, ground arith, λ j. (expire_at_refines key s d j).1)

expire_with-unwritten :
    (absolute : Bool) (key : Bytes) (n : ℤ) (s : Store) (j : Bytes)
    → (expire_with absolute key n s).0.dirty ≡ false
    → view (expire_with absolute key n s).1 j ≡ view s j
unfolding expire_with
expire_with-unwritten absolute key n s j h =
    let d = if absolute then n else s.clock +ℤ n in
    ground (arith, beq_iff key j, expire_at_refines key s d j)

-- an outcome that, if it is dirty, propagates the deadline that it set
abbrev Dated : Store → Outcome → Type 0
Dated s x =
    x.0.dirty ≡ true
    → (key : Bytes) × (d : ℤ) × (x.0.propagate ≡ pexpireat key d) × Redates key d s x.1

-- an outcome that, if it is not dirty, leaves the view
abbrev Spares : Store → Outcome → Type 0
Spares s x = (j : Bytes) → x.0.dirty ≡ false → view x.1 j ≡ view s j

either {ℓ} : (Q : Outcome → Type ℓ) (b : Bool) (x y : Outcome) → Q x → Q y → Q (if b then x else y)
either Q true x y hx hy = hx
either Q false x y hx hy = hy

module _ (seconds absolute : Bool) (key : Bytes) (s : Store) where
  expire_number-Dated : (o : Option ℤ) → Dated s (expire_number seconds absolute key o s)
  unfolding expire_number
  expire_number-Dated none = λ e. absurd (false≢true e)
  expire_number-Dated (some m) =
      let n = if seconds then times_1000 m else m in
      either (Dated s) _ _ _ (λ e. absurd (false≢true e))
        (λ e. let (d, p, r) = expire_with-written absolute key n s e in (key, d, p, r))

  expire_number-Spares : (o : Option ℤ) → Spares s (expire_number seconds absolute key o s)
  unfolding expire_number
  expire_number-Spares none = λ j e. refl
  expire_number-Spares (some m) =
      let n = if seconds then times_1000 m else m in
      either (Spares s) _ _ _ (λ j e. refl) (λ j. expire_with-unwritten absolute key n s j)

-- An EXPIRE command of any of the four kinds that changes something propagates PEXPIREAT with a
-- key and an absolute deadline, and what it did to the store is to give that key that deadline.
pub cmd_expire-written :
    (seconds absolute : Bool) (command : Bytes) (a : Args) (s : Store)
    → (cmd_expire seconds absolute command a s).0.dirty ≡ true
    → (key : Bytes) × (d : ℤ) × ((cmd_expire seconds absolute command a s).0.propagate
        ≡ pexpireat key d)
      × Redates key d s (cmd_expire seconds absolute command a s).1
unfolding cmd_expire
cmd_expire-written seconds absolute command (name ∷ key ∷ n ∷ []) s h =
    expire_number-Dated seconds absolute key s (to_int64 n) h
cmd_expire-written seconds absolute command [] s h = absurd (false≢true h)
cmd_expire-written seconds absolute command (_ ∷ []) s h = absurd (false≢true h)
cmd_expire-written seconds absolute command (_ ∷ _ ∷ []) s h = absurd (false≢true h)
cmd_expire-written seconds absolute command (_ ∷ _ ∷ _ ∷ _ ∷ _) s h = absurd (false≢true h)

pub cmd_expire-unwritten :
    (seconds absolute : Bool) (command : Bytes) (a : Args) (s : Store) (j : Bytes)
    → (cmd_expire seconds absolute command a s).0.dirty ≡ false
    → view (cmd_expire seconds absolute command a s).1 j ≡ view s j
unfolding cmd_expire
cmd_expire-unwritten seconds absolute command (name ∷ key ∷ n ∷ []) s j h =
    expire_number-Spares seconds absolute key s (to_int64 n) j h
cmd_expire-unwritten seconds absolute command [] s j h = refl
cmd_expire-unwritten seconds absolute command (_ ∷ []) s j h = refl
cmd_expire-unwritten seconds absolute command (_ ∷ _ ∷ []) s j h = refl
cmd_expire-unwritten seconds absolute command (_ ∷ _ ∷ _ ∷ _ ∷ _) s j h = refl

-- PEXPIREAT with the decimal text of a deadline, run on any store, gives the key that deadline if
-- it is seen there, and leaves the other keys, for an int64 other than the smallest.
pub cmd_expire-pexpireat :
    (key command : Bytes) (d : ℤ) (t : Store)
    → IsPrintable d
    → Redates key d t (cmd_expire false true command (pexpireat key d) t).1
unfolding cmd_expire expire_number expire_with
cmd_expire-pexpireat key command d t p j =
    rw (to_int64-int_to_string d p.top p.bottom) (expire_at_refines key t d j).1

-- PERSIST, if it is not dirty, leaves the view; if it is, it propagates itself.
pub cmd_persist-unwritten :
    (a : Args) (s : Store) (j : Bytes)
    → (cmd_persist a s).0.dirty ≡ false
    → view (cmd_persist a s).1 j ≡ view s j
unfolding cmd_persist
cmd_persist-unwritten (name ∷ key ∷ []) s j h =
    ground (arith, beq_iff key j, persist_refines key s j)
cmd_persist-unwritten [] s j h = refl
cmd_persist-unwritten (_ ∷ []) s j h = refl
cmd_persist-unwritten (_ ∷ _ ∷ _ ∷ _) s j h = refl
