-- ===== src/Replication/Catchup.antt =====
-- A client of the master that becomes its replica, from the handshake to the end of the stream.
use redis_plus.Prelude.{ℕ, suc, Bool, Option, none, some, List, [], ◌∷◌, ◌++◌, Bytes}
use redis_plus.Prelude.Int.{ℤ}
use redis_plus.Store.{Store}
use redis_plus.Replication.{Replication}
use redis_plus.Replication.Reader.{SyncReader}
use redis_plus.Replication.Stream.{Writer, ReadResult, chunk, would_block, Turned, turns}
use redis_plus.Replication.Handshake.{Attempt, refused, synced, attempt, begin_stream}

-- What is still on the way is read chunk by chunk, and then nothing is there; the clock is read once
-- a turn.
abbrev pub reads_of : (ℕ → ℤ) → ℕ → List Bytes → List (ℤ × ReadResult)
reads_of clock n [] = []
reads_of clock n (bytes ∷ rest) = (clock n, chunk bytes) ∷ reads_of clock (suc n) rest

module _ (strtoll : Bytes → ℤ) (strtoull : Bytes → ℕ) where
  -- the turns after an attempt, with the chunks that it left and one reading that finds none
  abbrev follow : Bool → (ℕ → ℤ) → Option Attempt → Option Turned
  follow has_apply clock none = none
  follow has_apply clock (some (refused state message w)) = none
  follow has_apply clock (some (synced offset records reader w)) =
      turns has_apply (reads_of clock 1 reader.incoming ++ ((clock 0, would_block) ∷ []))
        (begin_stream (clock 0) offset records reader.buffer w)

  unfoldable pub run_link : ℕ → Bool → (ℕ → ℤ) → SyncReader → Writer → Option Turned
  run_link port has_apply clock reader w =
      follow has_apply clock (attempt strtoll strtoull port none reader w)
