-- ===== src/Server/Session.antt =====
-- `Session` of src/asio_server.cpp. The handler acts on a state `W`. The completions of
-- `async_read_some` and `async_write` are the arguments of `on_read` and `on_written`.
pub mod Order
pub mod Runs
pub mod Wire
pub mod Drained
pub mod Commands
pub mod Speech
pub mod Apart
pub mod Linked
pub mod Pipeline
use redis_plus.Prelude.{
  ℕ, zero, ◌+◌, ◌%◌, Bool, true, false, Option, none, some, [], ◌∷◌, ◌++◌, Bytes, ltb, ◌==◌,
  if◌then◌else◌, length, take,
}
use redis_plus.Prelude.Int.{two_64}
use redis_plus.Buffer
use redis_plus.Buffer.{Buffer, readable, size, empty_buffer}
use redis_plus.Stats
use redis_plus.Stats.{Stats}
use redis_plus.Server.{ServerConfig}

-- `writing` holds the size of the chunk while `writing_` is set, as the completion captures it.
-- `wire` is what the socket has taken.
pub record Session : Type 0 where
  pub input : Buffer
  pub out : Buffer
  pub pending : Buffer
  pub writing : Option ℕ
  pub closed : Bool
  pub wire : Bytes

abbrev pub new_session : Session
new_session = record {
  input = empty_buffer;
  out = empty_buffer;
  pending = empty_buffer;
  writing = none;
  closed = false;
  wire = [];
}

-- a session, the counters, and the handler's state
pub record Shared (W : Type 0) : Type 0 where
  pub session : Session
  pub stats : Stats
  pub world : W

abbrev pub start_write : Session → Session
start_write s = if size s.out == 0 then s else record s { writing = some (size s.out) }

abbrev pub move_pending : Session → Session
move_pending s = if size s.pending == 0 then s else record s {
  out = Buffer.append (readable s.pending) s.out;
  pending = Buffer.clear s.pending;
}

unfoldable pub flush : Session → Session
flush s = elim s.writing [ some n ↦ s | none ↦ start_write (move_pending s) ]

abbrev pub on_session : {W : Type 0} → (Session → Session) → Shared W → Shared W
on_session f s = record s { session = f s.session }

abbrev on_stats : {W : Type 0} → (Stats → Stats) → Shared W → Shared W
on_stats f s = record s { stats = f s.stats }

abbrev overflowed : Stats → Stats
overflowed k = record k { output_buffer_overflows = (k.output_buffer_overflows + 1) % two_64 }

-- `out.append` of a handler that was given `pending_`
unfoldable pub reply : {W : Type 0} → Bytes → Shared W → Shared W
reply bytes s = on_session (λ x. record x { pending = Buffer.append bytes x.pending }) s

-- a change of the handler to the buffer that it reads
unfoldable pub take_input : {W : Type 0} → Buffer → Shared W → Shared W
take_input rest s = on_session (λ x. record x { input = rest }) s

unfoldable pub work : {W : Type 0} → (W → W) → Shared W → Shared W
work f s = record s { world = f s.world }

module _ {W : Type 0} (config : ServerConfig) (on_disconnect : W → W) where
  abbrev pub over : Session → Bool
  over s = ltb config.max_output_buffer (size s.out + size s.pending)

  unfoldable pub do_close : Shared W → Shared W
  do_close s = if s.session.closed then s else record {
    session = record s.session { closed = true };
    stats = Stats.on_disconnect s.stats;
    world = on_disconnect s.world;
  }

  -- the test behind each append: the session is dropped, or what it has is written
  unfoldable pub drop_or_flush : Shared W → Shared W
  drop_or_flush s = if over s.session then do_close (on_stats overflowed s) else on_session flush s

  unfoldable pub send : Bytes → Shared W → Shared W
  send bytes s = if s.session.closed then s else drop_or_flush (reply bytes s)

  -- the write is over: `written` bytes of the chunk are in the socket
  abbrev pub taken : ℕ → Shared W → Shared W
  taken written s = record s {
    stats = record s.stats { bytes_written = (s.stats.bytes_written + written) % two_64 };
    session = record s.session {
      writing = none;
      wire = s.session.wire ++ take written (readable s.session.out);
    };
  }

  -- the completion of a write of `n` bytes
  abbrev pub completed : Option ℕ → Bool → ℕ → Shared W → Shared W
  completed none failed written s = s
  completed (some n) failed written s =
      if failed
      then do_close (taken written s)
      else on_session (λ x. flush (record x { out = Buffer.consume n x.out })) (taken written s)

  unfoldable pub on_written : Bool → ℕ → Shared W → Shared W
  on_written failed written s = completed s.session.writing failed written s

  module _ (on_data : Shared W → ℕ × Shared W) where
    -- the chunk is in the buffer, and counted
    abbrev pub received : Bytes → Shared W → Shared W
    received bytes s = record s {
      stats = record s.stats { bytes_read = (s.stats.bytes_read + length bytes) % two_64 };
      session = record s.session { input = Buffer.append bytes s.session.input };
    }

    abbrev counted : ℕ × Shared W → Shared W
    counted (handled, s) =
        on_stats (λ k. record k { commands_processed = (k.commands_processed + handled) % two_64 })
          s

    unfoldable pub on_read : Option Bytes → Shared W → Shared W
    on_read none s = do_close s
    on_read (some bytes) s = drop_or_flush (counted (on_data (received bytes s)))
