-- ===== src/Examples/Sessions.antt =====
-- The theorems on connections at a client that is answered and pushed to.
use redis_plus.Prelude.{
  ℕ, ◌+◌, ◌≤◌, ◌≡◌, refl, true, false, none, some, List, [], ◌∷◌, ◌++◌, Bytes, codes, length, arith,
  Option, Bool,
}
use redis_plus.Prelude.Int.{pos}
use redis_plus.Buffer
use redis_plus.Buffer.{Buffer, readable, size, empty_buffer}
use redis_plus.Server.{ServerConfig, default_config}
use redis_plus.Server.Session.{
  Shared, new_session, flush, reply, take_input, do_close, drop_or_flush, send, on_read, work,
  received,
}
use redis_plus.Server.Session.Runs.{Touches, replies, takes, untouched}
use redis_plus.Server.Session.Wire.{Run, starts, reads, pushes, wire-Run, waiting-Run}
use redis_plus.Server.Session.Drained.{finish, wire-finish}
use redis_plus.Server.Poll.{
  Conn, PollServer, new_conn, Recv, got, peer_closed, took, send_interrupted, send_again, find_conn,
  on_conn, recv_loop, send_loop, handle_read,
}
use redis_plus.Server.Poll.Conns.{KeepsTrail, trail-send_loop, handle_read-closed}
use redis_plus.Examples.Data.{no_traffic, set_k, get_k}
use redis_plus.Examples.Wire.{set_k-IsSendable, get_k-IsSendable, started}
use redis_plus.Commands.Base.{Args, CommandResult, wrote}
use redis_plus.Handler.{propagated}
use redis_plus.Decimal.{to_string}
use redis_plus.Resp.Reply.{encode, array_header, bulks, bulk}
use redis_plus.Handler.Pipeline.{encode_all, AreSendable}
use redis_plus.Server.Session.Order.{waiting}
use redis_plus.Server.Session.Commands.{Speaks, silent, says, acts, spoken, answer_one}
use redis_plus.Server.Session.Pipeline.{
  serve, serve_law, read_bytes, heard, after_each, wire-pipeline,
}

abbrev pong : Bytes
pong = codes "+PONG\r\n"

-- whatever comes is answered, and counted
abbrev answer : Shared ℕ → ℕ × Shared ℕ
answer s = (1, take_input empty_buffer (reply pong s))

abbrev same : ℕ → ℕ
same w = w

answer_law : (s : Shared ℕ) → (bytes : Bytes) × Touches default_config same s bytes (answer s).1
answer_law s = (pong ++ [], replies pong (takes empty_buffer untouched))

abbrev fresh : Shared ℕ
fresh = record { session = new_session; stats = no_traffic; world = 0 }

abbrev answered : Shared ℕ
answered = on_read default_config same answer (some (codes "PING\r\n")) fresh

abbrev pushed : Shared ℕ
pushed = send default_config same (codes "*1\r\n") answered

answered_open : answered.session.closed ≡ false
unfolding on_read drop_or_flush do_close flush reply take_input size readable Buffer.append
answered_open = refl

run : Run default_config same answer answer_law true ((pong ++ []) ++ codes "*1\r\n") pushed
unfolding answer_law
run = pushes (codes "*1\r\n") answered_open (reads (codes "PING\r\n") (starts no_traffic 0))

wire-Run_example :
    ((rest : Bytes) × (pushed.session.wire ++ rest ≡ (pong ++ []) ++ codes "*1\r\n"))
    × ((n : ℕ) → pushed.session.writing ≡ some n → n ≡ length (readable pushed.session.out))
wire-Run_example = wire-Run default_config same answer answer_law run

pushed_open : pushed.session.closed ≡ false
unfolding on_read drop_or_flush do_close flush reply take_input size readable Buffer.append send
    Buffer.clear
pushed_open = refl

waiting-Run_example :
    size pushed.session.out + size pushed.session.pending ≤ default_config.max_output_buffer
waiting-Run_example = waiting-Run default_config same answer answer_law run pushed_open

wire-finish_example :
    (finish default_config same answer answer_law
      (finish default_config same answer answer_law pushed)).session.wire
    ≡ (pong ++ []) ++ codes "*1\r\n"
wire-finish_example =
    wire-finish default_config same answer answer_law ((pong ++ []) ++ codes "*1\r\n") pushed run
      pushed_open

abbrev queued : Conn
queued = record (new_conn (codes "10.0.0.2:40")) { out = record { bytes = pong; read_pos = 0 } }

trail-send_loop_example :
    KeepsTrail queued
      (send_loop (took 2 ∷ send_interrupted ∷ took 3 ∷ send_again ∷ []) queued no_traffic)
trail-send_loop_example =
    trail-send_loop (took 2 ∷ send_interrupted ∷ took 3 ∷ send_again ∷ []) queued no_traffic
      (record { within = omega arith })

-- six bytes fill a read
abbrev small_reads : ServerConfig
small_reads = record default_config { read_chunk = 6 }

abbrev one_client : PollServer ℕ
one_client = record {
  conns = (9, queued) ∷ [];
  posted = [];
  last_cron = pos 0;
  stats = no_traffic;
  world = 0;
}

abbrev ping_then_gone : List Recv
ping_then_gone = got (codes "PING\r\n") ∷ peer_closed ∷ []

client_found : find_conn 9 one_client.conns ≡ some queued
unfolding find_conn
client_found = refl

abbrev keep : ℕ → ℕ → ℕ
keep fd w = w

handle_read-closed_example :
    (readable (recv_loop 6 ping_then_gone queued no_traffic).1.0.input
      ≡ readable queued.input ++ codes "PING\r\n")
    × (handle_read small_reads keep keep none (λ fd s. (1, s)) 9 ping_then_gone [] one_client ≡ (
      false,
      record one_client {
        conns =
            on_conn 9 (λ _. (recv_loop 6 ping_then_gone queued no_traffic).1.0) one_client.conns;
        stats = (recv_loop 6 ping_then_gone queued no_traffic).1.1;
      },
    ))
handle_read-closed_example =
    handle_read-closed small_reads keep keep none (λ fd s. (1, s)) 9 ping_then_gone [] one_client
      queued client_found (record { within = omega arith }) (omega arith, refl)

abbrev counted : Args → ℕ → ℕ
counted args n = n + 1

-- Each command is counted, sends on its link, and is answered; the client is a replica itself, and
-- the hook sends it what was written.
abbrev full_resync : Bytes
full_resync = codes "+FULLRESYNC 0\r\n"

abbrev exec : Args → Shared ℕ → CommandResult × Shared ℕ
exec args s =
    (wrote (codes "+OK\r\n") args, work (counted args) (send default_config same full_resync s))

abbrev hook : Option (Args → Shared ℕ → Shared ℕ)
hook = some (λ args s. send default_config same (encode args) s)

-- a send on the link, and then a change of the state; `down` says whether the session is closed
unfoldable spoken_on :
    (bytes : Bytes) (f : ℕ → ℕ) (s : Shared ℕ) (down : Bool)
    → s.session.closed ≡ down
    → (more : Bytes) × Speaks default_config same s more (work f (send default_config same bytes s))
unfolding send
spoken_on bytes f s true e = ([], rw e (acts f silent))
spoken_on bytes f s false e = (bytes ++ [], says bytes e (acts f silent))

unfoldable exec_law :
    (args : Args) (s : Shared ℕ)
    → (bytes : Bytes) × Speaks default_config same s bytes (exec args s).1
unfolding spoken_on
exec_law args s = spoken_on full_resync (counted args) s s.session.closed refl

unfoldable passed_on :
    (r : CommandResult) (s : Shared ℕ) (dirty : Bool)
    → r.dirty ≡ dirty
    → (bytes : Bytes) × Speaks default_config same s bytes (propagated exec hook r s)
unfolding propagated work spoken_on
passed_on r s true e =
    let (bytes, h) = spoken_on (encode r.propagate) same s s.session.closed refl in (bytes, rw e h)
passed_on r s false e = ([], rw e silent)

unfoldable hook_law :
    (r : CommandResult) (s : Shared ℕ)
    → (bytes : Bytes) × Speaks default_config same s bytes (propagated exec hook r s)
unfolding passed_on
hook_law r s = passed_on r s r.dirty refl

abbrev pipeline : List Args
pipeline = set_k ∷ get_k ∷ []

pipeline-AreSendable : AreSendable pipeline
pipeline-AreSendable = ((set_k-IsSendable, λ e. cc e), ((get_k-IsSendable, λ e. cc e), tt))

-- two requests, and the beginning of a third
abbrev chunk : Bytes
chunk = encode_all pipeline ++ codes "*1"

abbrev serving : Shared ℕ → ℕ × Shared ℕ
serving s = serve default_config same exec hook exec_law hook_law s

abbrev law : (s : Shared ℕ) → (bytes : Bytes) × Touches default_config same s bytes (serving s).1
law s = serve_law default_config same exec hook exec_law hook_law s

abbrev arrived : Shared ℕ
arrived = received default_config same serving chunk fresh

length-heard : length (heard default_config same exec hook exec_law hook_law pipeline arrived) ≡ 89
unfolding heard readable spoken exec_law spoken_on passed_on hook_law propagated work send
    drop_or_flush flush size Buffer.append Buffer.consume Buffer.clear take_input answer_one reply
    encode array_header bulks bulk to_string
length-heard = refl

heard_fits :
    waiting new_session
      + length (heard default_config same exec hook exec_law hook_law pipeline arrived)
    ≤ default_config.max_output_buffer
unfolding readable
heard_fits = omega (arith, length-heard)

wire-pipeline_example :
    let v = read_bytes default_config same exec hook exec_law hook_law chunk fresh in
    ((finish default_config same serving law
        (finish default_config same serving law v)).session.wire
      ≡ heard default_config same exec hook exec_law hook_law pipeline arrived)
    × (v.world
        ≡ (after_each default_config same exec hook exec_law hook_law pipeline arrived).world)
    × (readable v.session.input ≡ codes "*1")
    × (v.session.closed ≡ false)
wire-pipeline_example =
    wire-pipeline default_config same exec hook exec_law hook_law pipeline (codes "*1") [] chunk
      fresh (starts no_traffic 0) refl (record { within = omega arith }) pipeline-AreSendable
      started (unfold readable in refl) heard_fits
