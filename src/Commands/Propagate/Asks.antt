-- ===== src/Commands/Propagate/Asks.antt =====
-- The commands that ask.
use redis_plus.Prelude.{◌≡◌, refl, Bool, false, [], ◌∷◌, Bytes}
use redis_plus.Store.{Store}
use redis_plus.Commands.Base.{Args}
use redis_plus.Commands.Keyspace.{cmd_get, cmd_exists, cmd_type, cmd_keys, cmd_ttl}

-- The commands that ask are not dirty.
pub clean-cmd_get : (a : Args) (s : Store) → (cmd_get a s).0.dirty ≡ false
unfolding cmd_get
clean-cmd_get (name ∷ key ∷ []) s = refl
clean-cmd_get [] s = refl
clean-cmd_get (_ ∷ []) s = refl
clean-cmd_get (_ ∷ _ ∷ _ ∷ _) s = refl

pub clean-cmd_exists : (a : Args) (s : Store) → (cmd_exists a s).0.dirty ≡ false
unfolding cmd_exists
clean-cmd_exists (name ∷ key ∷ ks) s = refl
clean-cmd_exists [] s = refl
clean-cmd_exists (_ ∷ []) s = refl

pub clean-cmd_type : (a : Args) (s : Store) → (cmd_type a s).0.dirty ≡ false
unfolding cmd_type
clean-cmd_type (name ∷ key ∷ []) s = refl
clean-cmd_type [] s = refl
clean-cmd_type (_ ∷ []) s = refl
clean-cmd_type (_ ∷ _ ∷ _ ∷ _) s = refl

pub clean-cmd_keys : (a : Args) (s : Store) → (cmd_keys a s).0.dirty ≡ false
unfolding cmd_keys
clean-cmd_keys (name ∷ pattern ∷ []) s = refl
clean-cmd_keys [] s = refl
clean-cmd_keys (_ ∷ []) s = refl
clean-cmd_keys (_ ∷ _ ∷ _ ∷ _) s = refl

pub clean-cmd_ttl :
    (seconds : Bool) (command : Bytes) (a : Args) (s : Store)
    → (cmd_ttl seconds command a s).0.dirty ≡ false
unfolding cmd_ttl
clean-cmd_ttl seconds command (name ∷ key ∷ []) s = refl
clean-cmd_ttl seconds command [] s = refl
clean-cmd_ttl seconds command (_ ∷ []) s = refl
clean-cmd_ttl seconds command (_ ∷ _ ∷ _ ∷ _) s = refl
