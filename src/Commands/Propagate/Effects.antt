-- ===== src/Commands/Propagate/Effects.antt =====
-- What SET and the EXPIRE commands propagate, run on another store.
use redis_plus.Prelude.{◌≡◌, ◌≢◌, refl, ap, ◌∙◌, Bool, true, false, [], Bytes, codes, arith}
use redis_plus.Prelude.Int.{ℤ}
use redis_plus.Store.{Store}
use redis_plus.Store.View.{view}
use redis_plus.Commands.Base.{Args, CommandResult, upper}
use redis_plus.Commands.Set.{canonical, cmd_set}
use redis_plus.Commands.Keyspace.{cmd_expire}
use redis_plus.Commands.Verb.{verb_of}
use redis_plus.Commands.Dispatch.{run_verb, or_original}
use redis_plus.Commands.Propagate.Set.{IsPrintable, cmd_set-written, cmd_set-canonical}
use redis_plus.Commands.Propagate.Expire.{pexpireat, cmd_expire-written, cmd_expire-pexpireat}
use redis_plus.Commands.Propagate.Plain.{applied, Plain, Plain-canonical, Plain-pexpireat}

-- Each deadline in a propagated command is an int64 other than the smallest.
pub record Prints (p : Args) : Type 0 where
  pub set_prints : (key value : Bytes) (d : ℤ) → p ≡ canonical key value d → IsPrintable d
  pub expire_prints : (key : Bytes) (d : ℤ) → p ≡ pexpireat key d → IsPrintable d

-- Two stores at the same time that show the same.
pub record Agree (s u : Store) : Type 0 where
  pub same_clock : u.clock ≡ s.clock
  pub same_view : (i : Bytes) → view u i ≡ view s i

applied-canonical :
    (key value : Bytes) (d : ℤ) (u : Store)
    → applied (canonical key value d) u ≡ (cmd_set (canonical key value d) u).1
unfolding applied run_verb verb_of upper
applied-canonical key value d u = ground arith

applied-pexpireat :
    (key : Bytes) (d : ℤ) (u : Store)
    → applied (pexpireat key d) u
      ≡ (cmd_expire false true (codes "pexpireat") (pexpireat key d) u).1
unfolding applied run_verb verb_of upper
applied-pexpireat key d u = refl

pub or_original-dirty : (a : Args) (r : CommandResult) → (or_original a r).dirty ≡ r.dirty
or_original-dirty a r = ground arith

pub or_original-full :
    (a p : Args) (r : CommandResult) → p ≢ [] → r.propagate ≡ p → (or_original a r).propagate ≡ p
or_original-full a p r full e = ground (arith, e, full)

pub set_converges :
    (a : Args) (s u : Store)
    → (cmd_set a s).0.dirty ≡ true
    → Agree s u
    → Prints (or_original a (cmd_set a s).0).propagate
    → Plain (or_original a (cmd_set a s).0).propagate
      × ((j : Bytes)
          → view (applied (or_original a (cmd_set a s).0).propagate u) j ≡ view (cmd_set a s).1 j)
set_converges a s u h agree prints =
    let (key, value, d, sent, sets) = cmd_set-written a s h in
    let p = canonical key value d in
    let full : p ≢ [] = λ e. ground (arith, e) in
    let same = or_original-full a p (cmd_set a s).0 full sent in
    let fits = prints.set_prints key value d same in
    (
      rw same (Plain-canonical key value d),
      λ j.
          ap (λ q. view (applied q u) j) same
          ∙ ap (λ (k : Store). view k j) (applied-canonical key value d u)
          ∙ ground (
            arith,
            cmd_set-canonical key value d u fits j,
            sets j,
            agree.same_clock,
            agree.same_view j,
          ),
    )

pub expire_converges :
    (seconds absolute : Bool) (command : Bytes) (a : Args) (s u : Store)
    → (cmd_expire seconds absolute command a s).0.dirty ≡ true
    → Agree s u
    → Prints (or_original a (cmd_expire seconds absolute command a s).0).propagate
    → Plain (or_original a (cmd_expire seconds absolute command a s).0).propagate
      × ((j : Bytes)
          → view (applied (or_original a (cmd_expire seconds absolute command a s).0).propagate u) j
            ≡ view (cmd_expire seconds absolute command a s).1 j)
expire_converges seconds absolute command a s u h agree prints =
    let r = (cmd_expire seconds absolute command a s).0 in
    let (key, d, sent, redates) = cmd_expire-written seconds absolute command a s h in
    let p = pexpireat key d in
    let full : p ≢ [] = λ e. cc e in
    let same = or_original-full a p r full sent in
    let fits = prints.expire_prints key d same in
    (
      rw same (Plain-pexpireat key d),
      λ j.
          ap (λ q. view (applied q u) j) same
          ∙ ap (λ (k : Store). view k j) (applied-pexpireat key d u)
          ∙ ground (
            arith,
            cmd_expire-pexpireat key (codes "pexpireat") d u fits j,
            redates j,
            agree.same_clock,
            agree.same_view j,
            agree.same_view key,
          ),
    )
