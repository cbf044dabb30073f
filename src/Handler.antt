-- ===== src/Handler.antt =====
-- `RespHandler::on_data` of src/commands.cpp: the loop that drains a connection's read buffer. The
-- call of `table_.dispatch` is the parameter `exec`, and `hook` is `propagate_`, if it is set; both
-- act on a state `W`. Handler/Table puts the command table in.
pub mod Pipeline
pub mod Table
pub mod PingPong
use redis_plus.Prelude.{
  ℕ, zero, suc, ◌+◌, Bool, ◌&&◌, Option, none, some, List, [], ◌∷◌, ◌++◌, Bytes, if◌then◌else◌,
  length,
}
use redis_plus.Resp.{ParseResult, parse_request}
use redis_plus.Resp.Reply
use redis_plus.Buffer
use redis_plus.Buffer.{Buffer}
use redis_plus.Commands.Base.{Args, CommandResult}

-- the connection's buffers, the state, and the commands handled
pub record Progress {ℓ} (W : Type ℓ) : Type ℓ where
  pub input : Buffer
  pub output : Buffer
  pub world : W
  pub handled : ℕ

module _ {ℓ} {W : Type ℓ} (exec : Args → W → CommandResult × W) (hook : Option (Args → W → W)) where
  -- `if (outcome.dirty && propagate_) propagate_(outcome.propagate);`
  unfoldable pub propagated : CommandResult → W → W
  propagated r w = elim hook [ none ↦ w | some f ↦ if r.dirty then f r.propagate w else w ]

  -- one request that was parsed; an empty one is skipped
  unfoldable pub handle : Args → Progress W → Progress W
  unfolding propagated
  handle [] p = p
  handle (a ∷ args) p =
      let (r, w) = exec (a ∷ args) p.world in
      record p {
        output = Buffer.append r.reply p.output;
        world = propagated r w;
        handled = p.handled + 1;
      }

  -- `none`: out of fuel.
  unfoldable pub drain : ℕ → Progress W → Option (Progress W)
  drain zero p = none
  drain (suc fuel) p = elim (parse_request (Buffer.readable p.input)) [
    | ParseResult.incomplete ↦ some p
    | ParseResult.error message ↦ some (record p {
      output = Buffer.append (Reply.error message) p.output;
      input = Buffer.clear p.input;
    })
    | ParseResult.ok n args ↦
        drain fuel (handle args (record p { input = Buffer.consume n p.input }))
  ]

  -- Each request takes at least a byte, so the readable bytes bound the rounds (Pipeline).
  unfoldable pub on_data : Buffer → Buffer → W → Option (Progress W)
  unfolding drain handle
  on_data input output w =
      drain (suc (length (Buffer.readable input)))
        (record { input = input; output = output; world = w; handled = 0 })
