-- ===== src/Server/Poll.antt =====
-- The back end of src/poll_server.cpp. The handler acts on a state `W` and, in `on_data`, on the
-- connections. What the calls of the socket library answer are arguments.
pub mod Conns
use redis_plus.Prelude.{
  ℕ, zero, suc, ◌+◌, ◌%◌, Bool, true, false, not, ◌&&◌, ◌||◌, Option, none, some, List, [], ◌∷◌,
  ◌++◌, Bytes, ltb, ◌==◌, if◌then◌else◌, length, take,
}
use redis_plus.Prelude.Int.{ℤ, pos, ◌-ℤ◌, ltb_ℤ, two_64}
use redis_plus.Buffer
use redis_plus.Buffer.{Buffer, readable, size, empty_buffer}
use redis_plus.Stats
use redis_plus.Stats.{Stats}
use redis_plus.Server.{ServerConfig}

-- `wire` is what the socket has taken.
pub record Conn : Type 0 where
  pub peer_name : Bytes
  pub input : Buffer
  pub out : Buffer
  pub close_after_flush : Bool
  pub wire : Bytes

abbrev pub new_conn : Bytes → Conn
new_conn peer = record {
  peer_name = peer;
  input = empty_buffer;
  out = empty_buffer;
  close_after_flush = false;
  wire = [];
}

unfoldable pub send : Bytes → Conn → Conn
send bytes c = record c { out = Buffer.append bytes c.out }

unfoldable pub close : Conn → Conn
close c = record c { close_after_flush = true }

-- The tasks of `post` change the handler's state alone, as those of replication do.
pub record PollServer (W : Type 0) : Type 0 where
  pub conns : List (ℕ × Conn)
  pub posted : List (W → W)
  pub last_cron : ℤ
  pub stats : Stats
  pub world : W

unfoldable pub find_conn : ℕ → List (ℕ × Conn) → Option Conn
find_conn fd [] = none
find_conn fd ((other, c) ∷ conns) =
    let later = find_conn fd conns in if other == fd then some c else later

-- the connections with that of `fd` changed
unfoldable pub on_conn : ℕ → (Conn → Conn) → List (ℕ × Conn) → List (ℕ × Conn)
on_conn fd f [] = []
on_conn fd f ((other, c) ∷ conns) =
    let rest = on_conn fd f conns in (other, if other == fd then f c else c) ∷ rest

unfoldable pub erase_conn : ℕ → List (ℕ × Conn) → List (ℕ × Conn)
erase_conn fd [] = []
erase_conn fd ((other, c) ∷ conns) =
    let rest = erase_conn fd conns in if other == fd then rest else (other, c) ∷ rest

-- What `recv` answers; `got` has at least one byte.
pub data Recv : Type 0 where
  got : Bytes → Recv
  peer_closed recv_again recv_interrupted recv_failed : Recv

-- What `send` of the socket answers; `took` has at least one byte.
pub data Sent : Type 0 where
  took : ℕ → Sent
  send_again send_interrupted send_failed : Sent

-- The loop of `handle_read`: whether the connection lives, with what came. An answer that is not
-- listed is EAGAIN.
unfoldable pub recv_loop : ℕ → List Recv → Conn → Stats → Bool × (Conn × Stats)
recv_loop chunk [] c k = (true, (c, k))
recv_loop chunk (got bytes ∷ answers) c k =
    let c1 = record c { input = Buffer.append bytes c.input } in
    let k1 = record k { bytes_read = (k.bytes_read + length bytes) % two_64 } in
    let more = recv_loop chunk answers c1 k1 in
    if ltb (length bytes) chunk then (true, (c1, k1)) else more
recv_loop chunk (peer_closed ∷ answers) c k = (false, (c, k))
recv_loop chunk (recv_again ∷ answers) c k = (true, (c, k))
recv_loop chunk (recv_interrupted ∷ answers) c k = recv_loop chunk answers c k
recv_loop chunk (recv_failed ∷ answers) c k = (false, (c, k))

-- the socket has taken the first `n` bytes of the queue
abbrev pub written : ℕ → Conn → Conn
written n c = record c { out = Buffer.consume n c.out; wire = c.wire ++ take n (readable c.out) }

-- The loop of `handle_write`; an answer that is not listed is EAGAIN.
unfoldable pub send_loop : List Sent → Conn → Stats → Bool × (Conn × Stats)
send_loop [] c k = if size c.out == 0 then (not c.close_after_flush, (c, k)) else (true, (c, k))
send_loop (took n ∷ answers) c k =
    let more =
      send_loop answers (written n c)
        (record k { bytes_written = (k.bytes_written + n) % two_64 }) in
    if size c.out == 0 then (not c.close_after_flush, (c, k)) else more
send_loop (send_again ∷ answers) c k =
    if size c.out == 0 then (not c.close_after_flush, (c, k)) else (true, (c, k))
send_loop (send_interrupted ∷ answers) c k =
    let more = send_loop answers c k in
    if size c.out == 0 then (not c.close_after_flush, (c, k)) else more
send_loop (send_failed ∷ answers) c k =
    if size c.out == 0 then (not c.close_after_flush, (c, k)) else (false, (c, k))

module _ {W : Type 0} (config : ServerConfig) (on_connect on_disconnect : ℕ → W → W)
    (cron : Option (W → W)) where
  abbrev store_conn : ℕ → Bool × (Conn × Stats) → PollServer W → Bool × PollServer W
  store_conn fd (lives, (c, k)) s =
      (lives, record s { conns = on_conn fd (λ _. c) s.conns; stats = k })

  unfoldable pub handle_write : ℕ → List Sent → PollServer W → Bool × PollServer W
  handle_write fd answers s = elim (find_conn fd s.conns) [
    | none ↦ (false, s)
    | some c ↦ store_conn fd (send_loop answers c s.stats) s
  ]

  -- one connection that `accept` gives
  unfoldable pub accept_one : ℕ → Bytes → PollServer W → PollServer W
  accept_one fd peer s = record s {
    world = on_connect fd s.world;
    conns = (fd, new_conn peer) ∷ s.conns;
    stats = Stats.on_connect s.stats;
  }

  -- `accept` fails for want of descriptors
  unfoldable pub reject_one : PollServer W → PollServer W
  reject_one s = record s {
    stats = record s.stats { connections_rejected = (s.stats.connections_rejected + 1) % two_64 };
  }

  -- what `accept` answers, up to the first EAGAIN
  pub data Accept : Type 0 where
    accepted : ℕ → Bytes → Accept
    no_descriptors accept_failed : Accept

  unfoldable pub accept_ready : List Accept → PollServer W → PollServer W
  accept_ready [] s = s
  accept_ready (accepted fd peer ∷ answers) s = accept_ready answers (accept_one fd peer s)
  accept_ready (no_descriptors ∷ answers) s = reject_one s
  accept_ready (accept_failed ∷ answers) s = s

  unfoldable pub drop_conn : ℕ → PollServer W → PollServer W
  drop_conn fd s = elim (find_conn fd s.conns) [
    | none ↦ s
    | some c ↦ record s {
      world = on_disconnect fd s.world;
      conns = erase_conn fd s.conns;
      stats = Stats.on_disconnect s.stats;
    }
  ]

  -- `for (const int fd : dead) drop(fd);`
  unfoldable pub drop_all : List ℕ → PollServer W → PollServer W
  drop_all [] s = s
  drop_all (fd ∷ dead) s = drop_all dead (drop_conn fd s)

  run_tasks : List (W → W) → W → W
  run_tasks [] w = w
  run_tasks (task ∷ tasks) w = run_tasks tasks (task w)

  -- The tasks are taken out first.
  unfoldable pub drain_posted : PollServer W → PollServer W
  unfolding run_tasks
  drain_posted s = record s { posted = []; world = run_tasks s.posted s.world }

  unfoldable pub run_cron_if_due : ℤ → PollServer W → PollServer W
  run_cron_if_due now s = elim cron [
    | none ↦ s
    | some f ↦
        if ltb_ℤ (now -ℤ s.last_cron) (pos config.cron_interval_ms)
        then s
        else record s { last_cron = now; world = f s.world }
  ]

  -- an entry of the `pollfd` vector that has events
  pub record Ready : Type 0 where
    pub fd : ℕ
    pub broken : Bool
    pub readable_now : Bool
    pub writable_now : Bool
    pub recvs : List Recv
    pub sends : List Sent
    pub later_sends : List Sent

  module _ (on_data : ℕ → PollServer W → ℕ × PollServer W) where
    abbrev count_commands : ℕ × PollServer W → PollServer W
    count_commands (handled, s) = record s {
      stats = record s.stats {
        commands_processed = (s.stats.commands_processed + handled) % two_64;
      };
    }

    abbrev out_size : ℕ → PollServer W → ℕ
    out_size fd s = elim (find_conn fd s.conns) [ none ↦ 0 | some c ↦ size c.out ]

    -- what `handle_read` does with what it has read
    unfoldable pub after_recv : ℕ → List Sent → Bool × PollServer W → Bool × PollServer W
    after_recv fd answers (false, s) = (false, s)
    after_recv fd answers (true, s) =
        let t = count_commands (on_data fd s) in
        if ltb config.max_output_buffer (out_size fd t)
        then (
          false,
          record t {
            stats = record t.stats {
              output_buffer_overflows = (t.stats.output_buffer_overflows + 1) % two_64;
            };
          },
        )
        else handle_write fd answers t

    unfoldable pub handle_read : ℕ → List Recv → List Sent → PollServer W → Bool × PollServer W
    handle_read fd recvs sends s = elim (find_conn fd s.conns) [
      | none ↦ (false, s)
      | some c ↦ after_recv fd sends (store_conn fd (recv_loop config.read_chunk recvs c s.stats) s)
    ]

    -- the tests on `revents`, with the descriptors that are dead so far
    abbrev then_write : Ready → List ℕ → Bool × PollServer W → List ℕ × PollServer W
    then_write p dead (false, s) = (dead ++ (p.fd ∷ []), s)
    then_write p dead (true, s) =
        if p.writable_now
        then (let (lives, t) = handle_write p.fd p.later_sends s in
            (if lives then dead else dead ++ (p.fd ∷ []), t))
        else (dead, s)

    unfoldable pub serve_one : Ready → List ℕ → PollServer W → List ℕ × PollServer W
    serve_one p dead s =
        if p.broken
        then (dead ++ (p.fd ∷ []), s)
        else then_write p dead
            (if p.readable_now then handle_read p.fd p.recvs p.sends s else (true, s))

    unfoldable pub sweep : List Ready → List ℕ → PollServer W → List ℕ × PollServer W
    sweep [] dead s = (dead, s)
    sweep (p ∷ ready) dead s = let (dead1, t) = serve_one p dead s in sweep ready dead1 t

    -- One turn of `run` after `poll`; the listening socket stands first in the vector, and a
    -- connection that is accepted is not in it yet.
    unfoldable pub turn : ℤ → List Accept → List Ready → PollServer W → PollServer W
    turn now accepts ready s =
        let s1 = accept_ready accepts (run_cron_if_due now (drain_posted s)) in
        let (dead, t) = sweep ready [] s1 in drop_all dead t
