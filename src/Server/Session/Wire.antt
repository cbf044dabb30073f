-- ===== src/Server/Session/Wire.antt =====
-- The runs of a session, and what its socket has taken.
use redis_plus.Prelude.{
  ℕ, ◌+◌, ◌≤◌, ◌≡◌, refl, sym, ap, ◌∙◌, Bool, true, false, none, some, [], ◌++◌, append_assoc,
  append-nil, Bytes, length, take, drop, take-append-drop, length-drop, arith,
}
use redis_plus.Buffer
use redis_plus.Buffer.{Buffer, readable, size, empty_buffer}
use redis_plus.Buffer.Queue.{size-readable, readable-consume}
use redis_plus.Stats.{Stats}
use redis_plus.Server.{ServerConfig}
use redis_plus.Server.Session.{
  Session, Shared, new_session, do_close, send, on_written, taken, on_read, received,
}
use redis_plus.Server.Session.Order.{
  Keeps, Keeps-flush, Keeps-other_fields, waiting-flush, idle-flush, closed-flush,
}
use redis_plus.Server.Session.Runs.{
  Settles, Touches, drop_or_flush_lem, Keeps-do_close, Settles-do_close, Keeps-send, Keeps-Touches,
  on_written-busy, Keeps-written, Keeps-failed,
}

module _ {W : Type 0} (config : ServerConfig) (on_disconnect : W → W)
    (on_data : Shared W → ℕ × Shared W)
    (law : (s : Shared W)
      → (bytes : Bytes) × Touches config on_disconnect s bytes (on_data s).1) where
  -- A session after any events, with the bytes that were handed to it, and whether its connection
  -- still takes bytes: after a write that failed it takes none. Other connections change the
  -- counters and the handler's state between the events.
  pub data Run : Bool → Bytes → Shared W → Type 0 where
    starts :
        (stats : Stats) (w : W)
        → Run true [] (record { session = new_session; stats = stats; world = w })
    others :
        {live : Bool} {handed : Bytes} {s : Shared W} (stats : Stats) (w : W)
        → Run live handed s
        → Run live handed (record s { stats = stats; world = w })
    reads :
        {live : Bool} {handed : Bytes} {s : Shared W} (bytes : Bytes)
        → Run live handed s
        → Run live
            (handed ++ (law (received config on_disconnect on_data bytes s)).0)
            (on_read config on_disconnect on_data (some bytes) s)
    read_fails :
        {live : Bool} {handed : Bytes} {s : Shared W}
        → Run live handed s
        → Run live handed (on_read config on_disconnect on_data none s)
    pushes :
        {live : Bool} {handed : Bytes} {s : Shared W} (bytes : Bytes)
        → s.session.closed ≡ false
        → Run live handed s
        → Run live (handed ++ bytes) (send config on_disconnect bytes s)
    hangs_up :
        {live : Bool} {handed : Bytes} {s : Shared W}
        → Run live handed s
        → Run live handed (do_close config on_disconnect s)
    writes :
        {handed : Bytes} {s : Shared W} (n : ℕ)
        → s.session.writing ≡ some n
        → Run true handed s
        → Run true handed (on_written config on_disconnect false n s)
    write_fails :
        {live : Bool} {handed : Bytes} {s : Shared W} (n written : ℕ)
        → s.session.writing ≡ some n
        → (live ≡ false → written ≡ 0)
        → Run live handed s
        → Run false handed (on_written config on_disconnect true written s)

  abbrev pub Sound : Bool → Bytes → Shared W → Type 0
  Sound live handed s = Keeps live handed s.session × Settles config s.session

  read-Sound :
      (live : Bool) (handed bytes : Bytes) (s : Shared W)
      → Sound live handed s
      → Sound live
          (handed ++ (law (received config on_disconnect on_data bytes s)).0)
          (on_read config on_disconnect on_data (some bytes) s)
  unfolding on_read
  read-Sound live handed bytes s (k, t) =
      let v = received config on_disconnect on_data bytes s in
      let handled = on_data v in
      let (more, h) = law v in
      let k1 = Keeps-other_fields live handed v.session.input s.session.closed s.session k in
      let k2 = Keeps-Touches config on_disconnect live handed more v handled.1 h k1 in
      drop_or_flush_lem config on_disconnect live (handed ++ more) _ k2

  written-Sound :
      (handed : Bytes) (n : ℕ) (s : Shared W)
      → s.session.writing ≡ some n
      → Sound true handed s
      → Sound true handed (on_written config on_disconnect false n s)
  written-Sound handed n s busy (k, t) =
      let size = k.same_chunk n busy in
      let v = record (taken config on_disconnect n s).session {
        out = Buffer.consume n s.session.out;
      } in
      let k1 = Keeps-written config on_disconnect true handed n s size refl k in
      rw (on_written-busy config on_disconnect false n n s busy) (
        Keeps-flush true handed v k1,
        record {
          bounded = λ up. ground (
            arith,
            t.bounded (sym (closed-flush v) ∙ up),
            waiting-flush v k1.out_valid,
            ap length (readable-consume n s.session.out k.out_valid),
            length-drop n (readable s.session.out),
          );
          idle = λ up. idle-flush v;
        },
      )

  -- what a write that failed left behind: all but `written` bytes
  left_behind :
      (live : Bool) (handed : Bytes) (written : ℕ) (s : Shared W)
      → (live ≡ false → written ≡ 0)
      → Keeps live handed s.session
      → (rest : Bytes) × ((s.session.wire ++ take written (readable s.session.out)) ++ rest
          ≡ handed)
  left_behind true handed written s none_if_dead k =
      let out = readable s.session.out in
      (
        drop written out ++ readable s.session.pending,
        append_assoc s.session.wire (take written out) _
            ∙ ap (λ a. s.session.wire ++ a)
                (sym
                  (append_assoc (take written out) (drop written out) (readable s.session.pending)))
            ∙ ap (λ a. s.session.wire ++ (a ++ readable s.session.pending))
                (take-append-drop written out)
            ∙ k.queued refl,
      )
  left_behind false handed written s none_if_dead k =
      let (rest, e) = k.begins in
      (
        rest,
        ap (λ n. (s.session.wire ++ take n (readable s.session.out)) ++ rest) (none_if_dead refl)
            ∙ ap (λ a. a ++ rest) (append-nil s.session.wire)
            ∙ e,
      )

  Keeps-dead :
      (live : Bool) (handed : Bytes) (s : Session) → Keeps live handed s → Keeps false handed s
  Keeps-dead live handed s k = record {
    out_valid = k.out_valid;
    pending_valid = k.pending_valid;
    queued = λ up. absurd cc;
    begins = k.begins;
    same_chunk = k.same_chunk;
  }

  failed-Sound :
      (live : Bool) (handed : Bytes) (n written : ℕ) (s : Shared W)
      → s.session.writing ≡ some n
      → (live ≡ false → written ≡ 0)
      → Sound live handed s
      → Sound false handed (on_written config on_disconnect true written s)
  failed-Sound live handed n written s busy none_if_dead (k, t) =
      let v = taken config on_disconnect written s in
      rw (on_written-busy config on_disconnect true n written s busy) (
        Keeps-do_close config on_disconnect false handed v (
            Keeps-failed config on_disconnect handed written s
              (left_behind live handed written s none_if_dead k)
              (Keeps-dead live handed s.session k)),
        Settles-do_close config on_disconnect v,
      )

  new_session-Sound :
      (stats : Stats) (w : W)
      → Sound true [] (record { session = new_session; stats = stats; world = w })
  unfolding readable
  new_session-Sound stats w = (
    record {
      out_valid = record { within = omega arith };
      pending_valid = record { within = omega arith };
      queued = λ up. refl;
      begins = ([], refl);
      same_chunk = λ n busy. absurd cc;
    },
    record { bounded = λ up. omega arith; idle = λ up idle. (refl, refl) },
  )

  pub Run-Sound :
      {live : Bool} {handed : Bytes} {s : Shared W} → Run live handed s → Sound live handed s
  unfolding on_read
  Run-Sound (starts stats w) = new_session-Sound stats w
  Run-Sound (others stats w run) = Run-Sound run
  Run-Sound {live = live} (reads {handed = handed} {s = s} bytes run) =
      read-Sound live handed bytes s (Run-Sound run)
  Run-Sound {live = live} {handed = handed} (read_fails {s = s} run) = (
    Keeps-do_close config on_disconnect live handed s (Run-Sound run).0,
    Settles-do_close config on_disconnect s,
  )
  Run-Sound {live = live} (pushes {handed = handed} {s = s} bytes up run) =
      Keeps-send config on_disconnect live handed bytes s up (Run-Sound run).0
  Run-Sound {live = live} {handed = handed} (hangs_up {s = s} run) = (
    Keeps-do_close config on_disconnect live handed s (Run-Sound run).0,
    Settles-do_close config on_disconnect s,
  )
  Run-Sound {handed = handed} (writes {s = s} n busy run) =
      written-Sound handed n s busy (Run-Sound run)
  Run-Sound {handed = handed} (write_fails {live = live} {s = s} n written busy dead run) =
      failed-Sound live handed n written s busy dead (Run-Sound run)

  -- Whatever a session meets, in any order, what its socket has taken is the first part of the
  -- bytes that were handed to it, in order and each once; and while a write is in flight its
  -- chunk is the whole output buffer, as it was when the write began. The handler touches the
  -- session only by replies, sends, closing and taking input; a write that succeeds has taken its
  -- chunk, and after one that failed the socket takes nothing.
  pub wire-Run :
      {live : Bool} {handed : Bytes} {s : Shared W}
      → Run live handed s
      → ((rest : Bytes) × (s.session.wire ++ rest ≡ handed))
        × ((n : ℕ) → s.session.writing ≡ some n → n ≡ length (readable s.session.out))
  wire-Run run = let (k, t) = Run-Sound run in (k.begins, k.same_chunk)

  -- Whatever a session meets, in any order, while it is open its two output buffers together hold
  -- no more than the configured limit between two events. The handler touches the session only by
  -- replies, sends, closing and taking input.
  pub waiting-Run :
      {live : Bool} {handed : Bytes} {s : Shared W}
      → Run live handed s
      → s.session.closed ≡ false
      → size s.session.out + size s.session.pending ≤ config.max_output_buffer
  waiting-Run {s = s} run up = ground (
    arith,
    (Run-Sound run).1.bounded up,
    size-readable s.session.out,
    size-readable s.session.pending,
  )
