-- ===== src/Server/Session/Pipeline.antt =====
-- A session of `RespHandler` whose client sends a pipeline.
use redis_plus.Prelude.{
  ℕ, zero, suc, ◌+◌, ◌≤◌, ◌<◌, ◌≡◌, refl, sym, ap, ◌∙◌, true, false, Option, some, List, [], ◌∷◌,
  ◌++◌, append_assoc, append-nil, Bytes, length, length-append, drop, drop-append_left, arith,
}
use redis_plus.Resp.{ParseResult, parse_request}
use redis_plus.Resp.Prefix.{parse_request_bounds}
use redis_plus.Resp.Reply.{encode}
use redis_plus.Resp.RoundTrip.{parse_request-encode}
use redis_plus.Buffer
use redis_plus.Buffer.{Buffer, readable}
use redis_plus.Buffer.Queue.{
  IsValid, readable-append, append-IsValid, readable-consume, consume-IsValid,
}
use redis_plus.Commands.Base.{Args, CommandResult}
use redis_plus.Handler.{propagated}
use redis_plus.Handler.Pipeline.{encode_all, AreSendable}
use redis_plus.Server.{ServerConfig}
use redis_plus.Server.Session.{
  Shared, flush, drop_or_flush, on_read, received, counted, on_session, take_input,
}
use redis_plus.Server.Session.Order.{Keeps, Keeps-other_fields, waiting, closed-flush, input-flush}
use redis_plus.Server.Session.Runs.{Touches, Keeps-Touches}
use redis_plus.Server.Session.Wire.{Run, reads, Run-Sound}
use redis_plus.Server.Session.Drained.{finish, wire-finish}
use redis_plus.Server.Session.Commands.{
  Speaks, answer_one, drain_session, handled_by, or_untouched, spoken, handled_by_law,
}
use redis_plus.Server.Session.Speech.{Went-answer_one, drop_or_flush-fits, length-handed}

module _ {W : Type 0} (config : ServerConfig) (on_disconnect : W → W)
    (exec : Args → Shared W → CommandResult × Shared W) (hook : Option (Args → Shared W → Shared W))
    (exec_law : (args : Args) (s : Shared W)
      → (bytes : Bytes) × Speaks config on_disconnect s bytes (exec args s).1)
    (hook_law : (r : CommandResult) (s : Shared W)
      → (bytes : Bytes) × Speaks config on_disconnect s bytes (propagated exec hook r s)) where
  -- the session's handler is RespHandler
  abbrev pub serve : Shared W → ℕ × Shared W
  serve s = handled_by exec hook s

  abbrev pub serve_law :
      (s : Shared W) → (bytes : Bytes) × Touches config on_disconnect s bytes (serve s).1
  serve_law s = handled_by_law config on_disconnect exec hook exec_law hook_law s

  abbrev pub read_bytes : Bytes → Shared W → Shared W
  read_bytes bytes s = on_read config on_disconnect serve (some bytes) s

  abbrev said : Args → Shared W → Bytes
  said args s = spoken config on_disconnect exec hook exec_law hook_law args s

  -- the session from which a request has been taken
  abbrev less : Args → Shared W → Shared W
  less args s = take_input (Buffer.consume (length (encode args)) s.session.input) s

  -- the session after a list of requests, each taken from the input and then answered
  unfoldable pub after_each : List Args → Shared W → Shared W
  after_each [] s = s
  after_each (args ∷ rest) s = after_each rest (answer_one exec hook args (less args s))

  -- what the session is handed on the way, request by request: what the command sends on this
  -- session's link, the reply, and what the hook sends on it
  unfoldable pub heard : List Args → Shared W → Bytes
  heard [] s = []
  heard (args ∷ rest) s =
      said args (less args s) ++ heard rest (answer_one exec hook args (less args s))

  -- A pipeline that is drained: the rest is left, and all that was handed over fits.
  record Drained (commands : List Args) (rest handed : Bytes) (s : Shared W) : Type 0 where
    keeps : Keeps true (handed ++ heard commands s) (after_each commands s).session
    up : (after_each commands s).session.closed ≡ false
    same_wire : (after_each commands s).session.wire ≡ s.session.wire
    unread : readable (after_each commands s).session.input ≡ rest

  drain_session-encode_all :
      (commands : List Args) (rest handed : Bytes) (fuel n : ℕ) (s : Shared W)
      → AreSendable commands
      → parse_request rest ≡ ParseResult.incomplete
      → IsValid s.session.input
      → readable s.session.input ≡ encode_all commands ++ rest
      → length (readable s.session.input) < fuel
      → Keeps true handed s.session
      → s.session.closed ≡ false
      → length handed + length (heard commands s) ≤ config.max_output_buffer + length s.session.wire
      → (drain_session exec hook fuel n s ≡ some (n + length commands, after_each commands s))
        × Drained commands rest handed s
  unfolding drain_session encode_all after_each heard take_input
  drain_session-encode_all commands rest handed zero n s ss i v e h k up room =
      absurd (omega (arith, h))
  drain_session-encode_all [] rest handed (suc fuel) n s ss i v e h k up room =
      let stop : parse_request (readable s.session.input) ≡ ParseResult.incomplete = rw e i in
      (
        rw (stop, drain_session) (ap (λ m. some (m, s)) (omega arith)),
        record { keeps = rw append-nil k; up = up; same_wire = refl; unread = e },
      )
  drain_session-encode_all ([] ∷ commands) rest handed (suc fuel) n s ((f, ne), ss) i v e h k up
        room =
      absurd (ne refl)
  drain_session-encode_all ((a ∷ args) ∷ commands) rest handed (suc fuel) n s ((f, ne), ss) i v e h
        k up room =
      let c = a ∷ args in
      let behind = encode_all commands ++ rest in
      let m = length (encode c) in
      let whole : readable s.session.input ≡ encode c ++ behind =
        e ∙ append_assoc (encode c) (encode_all commands) rest in
      let read : parse_request (readable s.session.input) ≡ ParseResult.ok m c =
        rw whole (parse_request-encode c behind f) in
      let (le, lt) = parse_request_bounds (readable s.session.input) m c read in
      let t = less c s in
      let u = answer_one exec hook c t in
      let more = heard commands u in
      let k1 = Keeps-other_fields true handed t.session.input s.session.closed s.session k in
      let w =
        Went-answer_one config on_disconnect exec hook exec_law hook_law handed c t k1 up
          (omega (arith, room, length-append (said c t) more)) in
      let left : readable u.session.input ≡ behind =
        ap readable w.same_input
        ∙ readable-consume m s.session.input v
        ∙ ap (λ b. drop m b) whole
        ∙ drop-append_left (encode c) behind in
      let valid : IsValid u.session.input = rw w.same_input (consume-IsValid m s.session.input v) in
      let (drained, d) =
        drain_session-encode_all commands rest (handed ++ said c t) fuel (n + 1) u ss i valid left
          (omega (arith, h, lt, ap length left, ap length whole, length-append (encode c) behind))
          w.keeps w.up
          (omega (
            arith,
            room,
            length-append (said c t) more,
            length-append handed (said c t),
            ap length w.same_wire,
          )) in
      (
        rw (read, drain_session)
            (drained ∙ ap (λ l. some (l, after_each commands u)) (omega arith)),
        record {
          keeps = rw (append_assoc handed (said c t) more) at d.keeps;
          up = d.up;
          same_wire = d.same_wire ∙ w.same_wire;
          unread = d.unread;
        },
      )

  -- A session of RespHandler, open and with every write so far a success, has a valid input
  -- buffer and reads bytes that make it a list of encoded requests within the limits and an
  -- incomplete rest. The commands and the hook touch the session only by sending on its link, as
  -- PSYNC and what is propagated to a replica do. If what waits and what the session is handed
  -- for these requests are within the output limit, then after two more writes the wire has,
  -- behind all that was handed over before, request by request and in order what the command sent
  -- on this link, its reply, and what the hook sent on it, and nothing else; the state is that of
  -- running the requests one by one on this session, the rest stays in the input, and the session
  -- is open.
  pub wire-pipeline :
      (commands : List Args) (rest handed bytes : Bytes) (s : Shared W)
      → Run config on_disconnect serve serve_law true handed s
      → s.session.closed ≡ false
      → IsValid s.session.input
      → AreSendable commands
      → parse_request rest ≡ ParseResult.incomplete
      → readable s.session.input ++ bytes ≡ encode_all commands ++ rest
      → waiting s.session + length (heard commands (received config on_disconnect serve bytes s))
        ≤ config.max_output_buffer
      → let recv = received config on_disconnect serve bytes s in
        let v = read_bytes bytes s in
        ((finish config on_disconnect serve serve_law
            (finish config on_disconnect serve serve_law v)).session.wire
          ≡ handed ++ heard commands recv)
        × (v.world ≡ (after_each commands recv).world)
        × (readable v.session.input ≡ rest)
        × (v.session.closed ≡ false)
  unfolding on_read
  wire-pipeline commands rest handed bytes s run up valid sendable partial e room =
      let recv = received config on_disconnect serve bytes s in
      let k = (Run-Sound config on_disconnect serve serve_law run).0 in
      let input = readable-append bytes s.session.input valid ∙ e in
      let k1 = Keeps-other_fields true handed recv.session.input s.session.closed s.session k in
      let (done, d) =
        drain_session-encode_all commands rest handed (suc (length (readable recv.session.input))) 0
          recv sendable partial (append-IsValid bytes s.session.input valid) input (omega arith) k1
          up (omega (arith, room, length-handed handed s.session k)) in
      let x = after_each commands recv in
      let served : serve recv ≡ (0 + length commands, x) =
        unfold handled_by in ap (or_untouched exec hook recv) done in
      let (more, h) = serve_law recv in
      let k2 : Keeps true (handed ++ more) (serve recv).1.session =
        Keeps-Touches config on_disconnect true handed more recv (serve recv).1 h k1 in
      let k3 : Keeps true (handed ++ more) x.session = rw served at k2 in
      let same : handed ++ more ≡ handed ++ heard commands recv =
        sym (k3.queued refl) ∙ d.keeps.queued refl in
      let y = counted config on_disconnect serve (0 + length commands, x) in
      let fits : waiting y.session ≤ config.max_output_buffer = omega (
        arith,
        room,
        length-handed (handed ++ heard commands recv) x.session d.keeps,
        length-handed handed s.session k,
        length-append handed (heard commands recv),
        ap length d.same_wire,
      ) in
      let flushed : read_bytes bytes s ≡ on_session flush y =
        ap (λ r. drop_or_flush config on_disconnect (counted config on_disconnect serve r)) served
        ∙ drop_or_flush-fits config on_disconnect y fits in
      let still_up : (read_bytes bytes s).session.closed ≡ false =
        ap (λ (t : Shared W). t.session.closed) flushed ∙ closed-flush x.session ∙ d.up in
      (
        wire-finish config on_disconnect serve serve_law (handed ++ more) (read_bytes bytes s)
              (reads bytes run) still_up
            ∙ same,
        ap (λ (t : Shared W). t.world) flushed,
        ap (λ (t : Shared W). readable t.session.input) flushed
            ∙ ap readable (input-flush x.session)
            ∙ d.unread,
        still_up,
      )
