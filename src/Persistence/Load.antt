-- ===== src/Persistence/Load.antt =====
-- `Persistence::load`: the start of the server.
use redis_plus.Prelude.{
  ℕ, Bool, true, false, Option, none, some, List, ◌++◌, Bytes, codes, if◌then◌else◌, ltb,
}
use redis_plus.Decimal.{to_string}
use redis_plus.Store.{Store, Record}
use redis_plus.Commands.Base.{Args}
use redis_plus.Aof
use redis_plus.Aof.{Replayed, done, corrupt, replay}
use redis_plus.Rdb.Parse.{Parsed, rdb_load_file}
use redis_plus.Persistence.{Persistence, aof_path}

-- How a start ends: the state of the server and of its persistence, and the error if it failed.
pub data Loaded {ℓ} (W : Type ℓ) : Type ℓ where
  loaded : W → Persistence → Loaded W
  refused : Bytes → W → Persistence → Loaded W

-- `apply` is `handler.apply_silently`, and `restore` loads the records into the store of the state.
module _ {ℓ} {W : Type ℓ} (apply : Args → W → W) (restore : List Record → W → W) where
  abbrev after_open : Bytes → W → Persistence → Bool × Aof.Aof → Loaded W
  after_open path w p (true, a) = loaded w (record p { aof = a })
  after_open path w p (false, a) =
      refused (codes "cannot open AOF " ++ (path ++ codes " for appending")) w
        (record p { aof = a })

  abbrev note_torn : ℕ → Persistence → Persistence
  note_torn truncated p =
      if ltb 0 truncated
      then record p {
        last_error =
            codes "recovered from a torn AOF tail ("
            ++ (to_string truncated ++ codes " bytes discarded)");
      }
      else p

  -- `opened` is what the file holds when it is opened for appending.
  unfoldable pub after_replay : Option Bytes → Persistence → Replayed W → Loaded W
  after_replay opened p (done applied truncated w) =
      after_open (aof_path p.config) w (note_torn truncated p)
        (Aof.open_file (aof_path p.config) p.config.fsync_policy opened p.aof)
  after_replay opened p (corrupt offset message w) =
      refused (codes "corrupt AOF at offset " ++ (to_string offset ++ (codes ": " ++ message))) w p

  unfoldable pub after_load : W → Persistence → Parsed → Loaded W
  after_load w p parse =
      if parse.success then loaded (restore parse.out w) p else refused parse.error w p

  -- `none`: out of fuel
  unfoldable pub load :
      Option Bytes → Option Bytes → Option Bytes → W → Persistence → Option (Loaded W)
  load log opened dump w p =
      if p.config.aof_enabled
      then elim (replay apply log w) [ none ↦ none | some r ↦ some (after_replay opened p r) ]
      else if p.config.rdb_enabled
      then elim (rdb_load_file dump) [ none ↦ none | some parse ↦ some (after_load w p parse) ]
      else some (loaded w p)
