-- ===== src/Server/Session/Speech.antt =====
-- A session within its output limit, through what `RespHandler` makes it send and reply.
use redis_plus.Prelude.{
  ◌+◌, ◌≤◌, ◌≡◌, refl, ap, ◌∙◌, true, false, Option, [], ◌∷◌, ◌++◌, append_assoc, append-nil, Bytes,
  length, length-append, arith,
}
use redis_plus.Buffer.{readable}
use redis_plus.Buffer.Queue.{size-readable}
use redis_plus.Commands.Base.{Args, CommandResult}
use redis_plus.Handler.{propagated}
use redis_plus.Server.{ServerConfig}
use redis_plus.Server.Session.{
  Session, Shared, flush, reply, work, send, drop_or_flush, over, on_session,
}
use redis_plus.Server.Session.Order.{
  Keeps, Keeps-reply, Keeps-flush, waiting, closed-flush, input-flush, wire-flush,
}
use redis_plus.Server.Session.Runs.{send-up}
use redis_plus.Server.Session.Commands.{Speaks, silent, says, acts, answer_one, spoken}

-- How a session went on: it is open still, has written nothing and read nothing, and holds `handed`.
pub record Went (handed : Bytes) (s t : Session) : Type 0 where
  pub keeps : Keeps true handed t
  pub up : t.closed ≡ false
  pub same_wire : t.wire ≡ s.wire
  pub same_input : t.input ≡ s.input

pub Went-trans :
    (handed more : Bytes) (s t u : Session) → Went handed s t → Went more t u → Went more s u
Went-trans handed more s t u a b = record {
  keeps = b.keeps;
  up = b.up;
  same_wire = b.same_wire ∙ a.same_wire;
  same_input = b.same_input ∙ a.same_input;
}

-- all that was handed over is written or waits
pub length-handed :
    (handed : Bytes) (s : Session) → Keeps true handed s → length handed ≡ length s.wire + waiting s
length-handed handed s k = omega (
  arith,
  ap length (k.queued refl),
  length-append s.wire (readable s.out ++ readable s.pending),
  length-append (readable s.out) (readable s.pending),
)

Went-reply :
    {W : Type 0} (handed bytes : Bytes) (s : Shared W)
    → Keeps true handed s.session
    → s.session.closed ≡ false
    → Went (handed ++ bytes) s.session (reply bytes s).session
unfolding reply
Went-reply handed bytes s k up = record {
  keeps = Keeps-reply true handed bytes s k;
  up = up;
  same_wire = refl;
  same_input = refl;
}

module _ {W : Type 0} (config : ServerConfig) (on_disconnect : W → W) where
  -- A session that is not over the limit is flushed.
  pub drop_or_flush-fits :
      (x : Shared W)
      → waiting x.session ≤ config.max_output_buffer
      → drop_or_flush config on_disconnect x ≡ on_session flush x
  unfolding drop_or_flush
  drop_or_flush-fits x h =
      let fits : over config on_disconnect x.session ≡ false =
        ground (arith, size-readable x.session.out, size-readable x.session.pending) in
      rw fits refl

  Went-send :
      (handed bytes : Bytes) (s : Shared W)
      → Keeps true handed s.session
      → s.session.closed ≡ false
      → length handed + length bytes ≤ config.max_output_buffer + length s.session.wire
      → Went (handed ++ bytes) s.session (send config on_disconnect bytes s).session
  Went-send handed bytes s k up room =
      let x = reply bytes s in
      let w = Went-reply handed bytes s k up in
      let fits : waiting x.session ≤ config.max_output_buffer = omega (
        arith,
        room,
        length-handed (handed ++ bytes) x.session w.keeps,
        length-append handed bytes,
        ap length w.same_wire,
      ) in
      let flushed : send config on_disconnect bytes s ≡ on_session flush x =
        send-up config on_disconnect bytes s up ∙ drop_or_flush-fits x fits in
      rw flushed (record {
        keeps = Keeps-flush true (handed ++ bytes) x.session w.keeps;
        up = closed-flush x.session ∙ w.up;
        same_wire = wire-flush x.session ∙ w.same_wire;
        same_input = input-flush x.session ∙ w.same_input;
      })

  Went-Speaks :
      (handed bytes : Bytes) (s t : Shared W)
      → Speaks config on_disconnect s bytes t
      → Keeps true handed s.session
      → s.session.closed ≡ false
      → length handed + length bytes ≤ config.max_output_buffer + length s.session.wire
      → Went (handed ++ bytes) s.session t.session
  unfolding work
  Went-Speaks handed _ s t silent k up room = record {
    keeps = rw append-nil k;
    up = up;
    same_wire = refl;
    same_input = refl;
  }
  Went-Speaks handed _ s t (says {more = more} bytes _ h) k up room =
      let x = send config on_disconnect bytes s in
      let first = Went-send handed bytes s k up (omega (arith, room, length-append bytes more)) in
      let fits : length (handed ++ bytes) + length more
          ≤ config.max_output_buffer + length x.session.wire =
        omega (
          arith,
          room,
          length-append bytes more,
          length-append handed bytes,
          ap length first.same_wire,
        ) in
      let second = Went-Speaks (handed ++ bytes) more x t h first.keeps first.up fits in
      rw (append_assoc handed bytes more) at (
        Went-trans (handed ++ bytes) ((handed ++ bytes) ++ more) s.session x.session t.session first
          second)
  Went-Speaks handed bytes s t (acts f h) k up room =
      Went-Speaks handed bytes (work f s) t h k up room

  module _ (exec : Args → Shared W → CommandResult × Shared W)
      (hook : Option (Args → Shared W → Shared W))
      (exec_law : (args : Args) (s : Shared W)
        → (bytes : Bytes) × Speaks config on_disconnect s bytes (exec args s).1)
      (hook_law : (r : CommandResult) (s : Shared W)
        → (bytes : Bytes) × Speaks config on_disconnect s bytes (propagated exec hook r s)) where
    abbrev said : Args → Shared W → Bytes
    said args s = spoken config on_disconnect exec hook exec_law hook_law args s

    pub Went-answer_one :
        (handed : Bytes) (args : Args) (s : Shared W)
        → Keeps true handed s.session
        → s.session.closed ≡ false
        → length handed + length (said args s) ≤ config.max_output_buffer + length s.session.wire
        → Went (handed ++ said args s) s.session (answer_one exec hook args s).session
    unfolding answer_one spoken
    Went-answer_one handed [] s k up room = record {
      keeps = rw append-nil k;
      up = up;
      same_wire = refl;
      same_input = refl;
    }
    Went-answer_one handed (a ∷ args) s k up room =
        let (r, t) = exec (a ∷ args) s in
        let x = reply r.reply t in
        let (first, h) = exec_law (a ∷ args) s in
        let (last, l) = hook_law r x in
        let u = propagated exec hook r x in
        let parts : length (first ++ (r.reply ++ last))
            ≡ length first + (length r.reply + length last) =
          omega (arith, length-append first (r.reply ++ last), length-append r.reply last) in
        let w1 = Went-Speaks handed first s t h k up (omega (arith, room, parts)) in
        let w2 = Went-reply (handed ++ first) r.reply t w1.keeps w1.up in
        let fits : length ((handed ++ first) ++ r.reply) + length last
            ≤ config.max_output_buffer + length x.session.wire =
          omega (
            arith,
            room,
            parts,
            length-append (handed ++ first) r.reply,
            length-append handed first,
            ap length w2.same_wire,
            ap length w1.same_wire,
          ) in
        let w3 = Went-Speaks ((handed ++ first) ++ r.reply) last x u l w2.keeps w2.up fits in
        let same : ((handed ++ first) ++ r.reply) ++ last ≡ handed ++ (first ++ (r.reply ++ last)) =
          simp append_assoc in
        rw same at (
          Went-trans ((handed ++ first) ++ r.reply) (((handed ++ first) ++ r.reply) ++ last)
            s.session x.session u.session
            (Went-trans (handed ++ first) ((handed ++ first) ++ r.reply) s.session t.session
              x.session w1 w2)
            w3)
