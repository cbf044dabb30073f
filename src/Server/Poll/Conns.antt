-- ===== src/Server/Poll/Conns.antt =====
-- The connections of the poll back end.
use redis_plus.Prelude.{
  ℕ, ◌+◌, ◌%◌, ◌≤◌, ◌≡◌, refl, sym, ap, ◌∙◌, Bool, false, Option, some, List, [], ◌∷◌, ◌++◌,
  append_assoc, append-nil, Bytes, length, take, drop, take-append-drop, arith,
}
use redis_plus.Prelude.Int.{two_64}
use redis_plus.Buffer
use redis_plus.Buffer.{Buffer, readable, size}
use redis_plus.Buffer.Queue.{
  IsValid, readable-append, append-IsValid, readable-consume, consume-IsValid,
}
use redis_plus.Stats.{Stats}
use redis_plus.Server.{ServerConfig}
use redis_plus.Server.Poll.{
  Conn, PollServer, find_conn, on_conn, Recv, got, peer_closed, recv_again, recv_interrupted,
  recv_failed, Sent, took, send_again, send_interrupted, send_failed, recv_loop, send_loop, written,
  after_recv, handle_read,
}

-- the bytes of a connection in order: those that the socket took, and those that wait
abbrev pub trail : Conn → Bytes
trail c = c.wire ++ readable c.out

trail-written : (n : ℕ) (c : Conn) → IsValid c.out → trail (written n c) ≡ trail c
trail-written n c v =
    ap (λ a. (c.wire ++ take n (readable c.out)) ++ a) (readable-consume n c.out v)
    ∙ append_assoc c.wire (take n (readable c.out)) (drop n (readable c.out))
    ∙ ap (λ a. c.wire ++ a) (take-append-drop n (readable c.out))

abbrev pub KeepsTrail : Conn → Bool × (Conn × Stats) → Type 0
KeepsTrail c (lives, (d, k)) =
    (trail d ≡ trail c)
    × IsValid d.out
    × (d.input ≡ c.input)
    × (d.close_after_flush ≡ c.close_after_flush)

-- Whatever the socket answers to handle_write, what it has taken and what still waits are
-- together the same bytes in the same order as before, and the input and the mark to close stand
-- as they were.
pub trail-send_loop :
    (answers : List Sent) (c : Conn) (k : Stats)
    → IsValid c.out
    → KeepsTrail c (send_loop answers c k)
unfolding send_loop
trail-send_loop [] c k v = ground (arith)
trail-send_loop (took n ∷ answers) c k v =
    let (same, valid, input, closing) =
      trail-send_loop answers (written n c)
        (record k { bytes_written = (k.bytes_written + n) % two_64 }) (consume-IsValid n c.out v) in
    ground (arith, same, valid, input, closing, trail-written n c v)
trail-send_loop (send_again ∷ answers) c k v = ground (arith)
trail-send_loop (send_interrupted ∷ answers) c k v =
    let (same, valid, input, closing) = trail-send_loop answers c k v in
    ground (arith, same, valid, input, closing)
trail-send_loop (send_failed ∷ answers) c k v = ground (arith)

-- the bytes that a list of answers brings
abbrev pub brought : List Recv → Bytes
brought [] = []
brought (got bytes ∷ answers) = bytes ++ brought answers
brought (_ ∷ answers) = brought answers

-- Each `recv` that is not the last fills the buffer, and the last finds the peer gone.
abbrev pub EndsClosed : ℕ → List Recv → Type 0
EndsClosed chunk [] = ⊥
EndsClosed chunk (got bytes ∷ answers) = (chunk ≤ length bytes) × EndsClosed chunk answers
EndsClosed chunk (peer_closed ∷ answers) = answers ≡ []
EndsClosed chunk (recv_again ∷ answers) = ⊥
EndsClosed chunk (recv_interrupted ∷ answers) = EndsClosed chunk answers
EndsClosed chunk (recv_failed ∷ answers) = ⊥

recv_loop-closed :
    (chunk : ℕ) (answers : List Recv) (c : Conn) (k : Stats)
    → IsValid c.input
    → EndsClosed chunk answers
    → ((recv_loop chunk answers c k).0 ≡ false)
      × (readable (recv_loop chunk answers c k).1.0.input ≡ readable c.input ++ brought answers)
unfolding recv_loop
recv_loop-closed chunk [] c k v ends = elim ends [ ]
recv_loop-closed chunk (recv_again ∷ answers) c k v ends = elim ends [ ]
recv_loop-closed chunk (recv_failed ∷ answers) c k v ends = elim ends [ ]
recv_loop-closed chunk (got bytes ∷ answers) c k v (full, ends) =
    let c1 = record c { input = Buffer.append bytes c.input } in
    let k1 = record k { bytes_read = (k.bytes_read + length bytes) % two_64 } in
    let (dead, whole) =
      recv_loop-closed chunk answers c1 k1 (append-IsValid bytes c.input v) ends in
    ground (
      arith,
      dead,
      whole,
      readable-append bytes c.input v,
      append_assoc (readable c.input) bytes (brought answers),
    )
recv_loop-closed chunk (peer_closed ∷ answers) c k v ends =
    (refl, sym (append-nil (readable c.input)) ∙ ap (λ a. readable c.input ++ brought a) (sym ends))
recv_loop-closed chunk (recv_interrupted ∷ answers) c k v ends =
    recv_loop-closed chunk answers c k v ends

module _ {W : Type 0} (config : ServerConfig) (on_connect on_disconnect : ℕ → W → W)
    (cron : Option (W → W)) (on_data : ℕ → PollServer W → ℕ × PollServer W) where
  -- If every recv fills the chunk until one finds that the peer has closed, handle_read has all
  -- the bytes in the input buffer and reports the connection dead without handing them to the
  -- handler, whose state stands as before; of the connections only this one is another, and of it
  -- only what recv changed.
  pub handle_read-closed :
      (fd : ℕ) (recvs : List Recv) (sends : List Sent) (s : PollServer W) (c : Conn)
      → find_conn fd s.conns ≡ some c
      → IsValid c.input
      → EndsClosed config.read_chunk recvs
      → let d = (recv_loop config.read_chunk recvs c s.stats).1.0 in
        (readable d.input ≡ readable c.input ++ brought recvs)
        × (handle_read config on_connect on_disconnect cron on_data fd recvs sends s ≡ (
          false,
          record s {
            conns = on_conn fd (λ _. d) s.conns;
            stats = (recv_loop config.read_chunk recvs c s.stats).1.1;
          },
        ))
  unfolding handle_read after_recv
  handle_read-closed fd recvs sends s c found v ends =
      let (dead, whole) = recv_loop-closed config.read_chunk recvs c s.stats v ends in
      (whole, rw (found, handle_read, dead) refl)
