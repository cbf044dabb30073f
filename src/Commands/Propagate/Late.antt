-- ===== src/Commands/Propagate/Late.antt =====
-- PERSIST replayed at a later clock.
use redis_plus.Prelude.{◌≡◌, Option, none, some, [], ◌∷◌, Bytes, beq_refl, arith}
use redis_plus.Prelude.Int.{ℤ, ◌≤ℤ◌}
use redis_plus.Store
use redis_plus.Store.{Store}
use redis_plus.Store.View.{Held, view, persist_refines}
use redis_plus.Commands.Keyspace.{cmd_persist}

-- A persistent key stays in view whatever the clock says.
view_undated :
    (s : Store) (key value : Bytes) (later : ℤ)
    → view s key ≡ some (value, none)
    → view (record s { clock = later }) key ≡ some (value, none)
unfolding view
view_undated s key value later h = ground arith

view_past :
    (s : Store) (key value : Bytes) (d later : ℤ)
    → view s key ≡ some (value, some d)
    → d ≤ℤ later
    → view (record s { clock = later }) key ≡ none
unfolding view
view_past s key value d later h p = ground arith

cmd_persist_at :
    (name key : Bytes) (s : Store) (held : Option Held)
    → view s key ≡ held
    → view (cmd_persist (name ∷ key ∷ []) s).1 key ≡ Store.View.undated held
unfolding cmd_persist
cmd_persist_at name key s held h = ground (arith, persist_refines key s key, beq_refl key)

-- A key that is seen with a deadline and is persisted in time is seen without one at any later
-- time past the old deadline; if PERSIST runs on the same store at that later time instead, the
-- key is not seen.
pub late_persist_loses_key :
    (name key value : Bytes) (d later : ℤ) (s : Store)
    → view s key ≡ some (value, some d)
    → d ≤ℤ later
    → (view (record (cmd_persist (name ∷ key ∷ []) s).1 { clock = later }) key ≡ some (value, none))
      × (view (cmd_persist (name ∷ key ∷ []) (record s { clock = later })).1 key ≡ none)
late_persist_loses_key name key value d later s h p = (
  view_undated (cmd_persist (name ∷ key ∷ []) s).1 key value later
      (cmd_persist_at name key s (some (value, some d)) h),
  cmd_persist_at name key (record s { clock = later }) none (view_past s key value d later h p),
)
