-- ===== src/Commands/Propagate/Set.antt =====
-- SET: its effect on the view, and the form that it propagates.
use mathlib.Core.Bool.{false≢true}
use redis_plus.Prelude.{
  ◌≤◌, ◌≡◌, refl, true, false, some, [], ◌∷◌, Bytes, beq, codes, if◌then◌else◌, arith, Bool-cases,
  inl, inr,
}
use redis_plus.Prelude.Int.{ℤ, pos_part, neg_part, max_i64, eq_ℤ, eq_ℤ_iff}
use redis_plus.Decimal.{to_int64, int_to_string}
use redis_plus.Decimal.RoundTrip.{to_int64-int_to_string}
use redis_plus.Store
use redis_plus.Store.{Store, no_expiry}
use redis_plus.Store.View.{view, alive, deadline_of, get_refines, pttl_refines, set_refines}
use redis_plus.Commands.Base.{Args, upper}
use redis_plus.Commands.Set.{
  SetOptions, no_options, Scanned, good, bad, scan_options, canonical, kept_deadline, set_with,
  set_scanned, cmd_set,
}

-- `std::to_string` and back keeps every deadline but the smallest int64.
pub record IsPrintable (d : ℤ) : Type 0 where
  pub top : pos_part d ≤ max_i64
  pub bottom : neg_part d ≤ max_i64

module _ (key : Bytes) (s : Store) where
  pub clock-get : (Store.get key s).1.clock ≡ s.clock
  unfolding Store.get Store.remove
  clock-get = ground arith

  pub clock-pttl : (Store.pttl key s).1.clock ≡ s.clock
  unfolding Store.pttl Store.remove
  clock-pttl = ground arith

-- the deadline that a SET writes
used_deadline : SetOptions → Bytes → Store → ℤ
used_deadline o key s = if o.keepttl then (kept_deadline key (Store.get key s).1).0 else o.expire_at

-- A key set to a value, as the view shows it.
abbrev pub Sets : Bytes → Bytes → ℤ → Store → Store → Type 0
Sets key value d s t =
    (j : Bytes)
    → view t j ≡ (if beq key j then alive s.clock (some value) (deadline_of d) else view s j)

set_with-written :
    (o : SetOptions) (key value : Bytes) (s : Store)
    → (set_with o key value s).0.dirty ≡ true
    → (set_with o key value s).0.propagate ≡ canonical key value (used_deadline o key s)
unfolding set_with used_deadline
set_with-written o key value s h = ground arith

set_with-Sets :
    (o : SetOptions) (key value : Bytes) (s : Store)
    → (set_with o key value s).0.dirty ≡ true
    → Sets key value (used_deadline o key s) s (set_with o key value s).1
unfolding set_with used_deadline
set_with-Sets o key value s h j =
    let s1 = (Store.get key s).1 in
    let s2 = (Store.pttl key s1).1 in
    let d = used_deadline o key s in
    ground (
      arith,
      clock-get key s,
      clock-pttl key s1,
      get_refines key s j,
      pttl_refines key s1 j,
      set_refines key s1 value d j,
      set_refines key s2 value d j,
    )

-- A SET that writes nothing changes no view.
set_with-unwritten :
    (o : SetOptions) (key value : Bytes) (s : Store) (j : Bytes)
    → (set_with o key value s).0.dirty ≡ false
    → view (set_with o key value s).1 j ≡ view s j
unfolding set_with
set_with-unwritten o key value s j h = ground (arith, get_refines key s j)

pub cmd_set-unwritten :
    (a : Args) (s : Store) (j : Bytes)
    → (cmd_set a s).0.dirty ≡ false
    → view (cmd_set a s).1 j ≡ view s j
unfolding cmd_set
cmd_set-unwritten (name ∷ key ∷ value ∷ options) s j h =
    scanned (scan_options s.clock no_options options) h
  where
    scanned :
        (o : Scanned)
        → (set_scanned o key value s).0.dirty ≡ false
        → view (set_scanned o key value s).1 j ≡ view s j
    scanned (good o) e = set_with-unwritten o key value s j e
    scanned (bad message) e = refl
cmd_set-unwritten [] s j h = refl
cmd_set-unwritten (name ∷ []) s j h = refl
cmd_set-unwritten (name ∷ key ∷ []) s j h = refl

abbrev dated : ℤ → SetOptions
dated d = record no_options { expire_at = d }

scan_options-pxat :
    (clock d : ℤ) (arg : Bytes)
    → to_int64 arg ≡ some d
    → scan_options clock no_options (codes "PXAT" ∷ arg ∷ []) ≡ good (dated d)
unfolding scan_options upper
scan_options-pxat clock d arg e = rw e

set_with-dated :
    (d : ℤ) (key value : Bytes) (t : Store) → Sets key value d t (set_with (dated d) key value t).1
unfolding set_with used_deadline
set_with-dated d key value t = set_with-Sets (dated d) key value t refl

cmd_set-plain :
    (key value : Bytes) (t : Store)
    → Sets key value no_expiry t (cmd_set (canonical key value no_expiry) t).1
unfolding cmd_set scan_options
cmd_set-plain key value t = set_with-dated no_expiry key value t

-- The canonical form of a SET, run on any store, sets the key to that value and that deadline and
-- leaves the other keys, for a deadline that is an int64 other than the smallest.
pub cmd_set-canonical :
    (key value : Bytes) (d : ℤ) (t : Store)
    → IsPrintable d
    → Sets key value d t (cmd_set (canonical key value d) t).1
unfolding cmd_set
cmd_set-canonical key value d t p j = elim (Bool-cases (eq_ℤ d no_expiry)) [
  | inl persistent ↦
      let e = (eq_ℤ_iff d no_expiry).0 persistent in rw e (cmd_set-plain key value t j)
  | inr other ↦
      let read =
        scan_options-pxat t.clock d (int_to_string d) (to_int64-int_to_string d p.top p.bottom) in
      let done = set_with-dated d key value t j in rw other (rw read (rw other at done))
]

-- The clock is as it was.
clock-set_with :
    (o : SetOptions) (key value : Bytes) (s : Store) → (set_with o key value s).1.clock ≡ s.clock
unfolding set_with Store.set
clock-set_with o key value s = ground (arith, clock-get key s, clock-pttl key (Store.get key s).1)

pub clock-cmd_set : (a : Args) (s : Store) → (cmd_set a s).1.clock ≡ s.clock
unfolding cmd_set
clock-cmd_set (name ∷ key ∷ value ∷ options) s = scanned (scan_options s.clock no_options options)
  where
    scanned : (o : Scanned) → (set_scanned o key value s).1.clock ≡ s.clock
    scanned (good o) = clock-set_with o key value s
    scanned (bad message) = refl
clock-cmd_set [] s = refl
clock-cmd_set (_ ∷ []) s = refl
clock-cmd_set (_ ∷ _ ∷ []) s = refl

-- A SET that writes, with any options, propagates the canonical form of a key, a value and an
-- absolute deadline, and what it did to the store is to set that key to that value and that
-- deadline.
pub cmd_set-written :
    (a : Args) (s : Store)
    → (cmd_set a s).0.dirty ≡ true
    → (key : Bytes) × (value : Bytes) × (d : ℤ) × ((cmd_set a s).0.propagate
        ≡ canonical key value d)
      × Sets key value d s (cmd_set a s).1
unfolding cmd_set
cmd_set-written (name ∷ key ∷ value ∷ options) s h =
    scanned (scan_options s.clock no_options options) h
  where
    scanned :
        (o : Scanned)
        → (set_scanned o key value s).0.dirty ≡ true
        → (k : Bytes) × (v : Bytes) × (d : ℤ) × ((set_scanned o key value s).0.propagate
            ≡ canonical k v d)
          × Sets k v d s (set_scanned o key value s).1
    scanned (good o) e = (
      key,
      value,
      used_deadline o key s,
      set_with-written o key value s e,
      set_with-Sets o key value s e,
    )
    scanned (bad message) e = absurd (false≢true e)
cmd_set-written [] s h = absurd (false≢true h)
cmd_set-written (name ∷ []) s h = absurd (false≢true h)
cmd_set-written (name ∷ key ∷ []) s h = absurd (false≢true h)
