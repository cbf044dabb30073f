-- ===== src/Server/Session/Apart.antt =====
-- `RespHandler::on_data` where no command sends on the client's own link: the handler of a session is
-- then the loop of Handler on the session's buffers.
use redis_plus.Prelude.{
  ℕ, zero, suc, ◌≡◌, refl, ap, ◌∙◌, Bool, true, false, Option, none, some, [], ◌∷◌, length,
  if◌then◌else◌,
}
use redis_plus.Resp.{ParseResult, parse_request}
use redis_plus.Buffer
use redis_plus.Commands.Base.{Args, CommandResult}
use redis_plus.Handler.{Progress, propagated, handle, drain, on_data}
use redis_plus.Server.Session.{Shared, reply, take_input}
use redis_plus.Server.Session.Commands.{
  answer_one, drain_session, handled_by, take_one, count_one, or_untouched,
}

module _ {W : Type 0} (exec : Args → W → CommandResult × W) where
  -- a command that leaves the session alone
  abbrev exec_apart : Args → Shared W → CommandResult × Shared W
  exec_apart args s = let (r, w) = exec args s.world in (r, record s { world = w })

  abbrev hook_apart : Option (Args → W → W) → Option (Args → Shared W → Shared W)
  hook_apart none = none
  hook_apart (some f) = some (λ args s. record s { world = f args s.world })

  -- the session with what the handler made of its buffers
  abbrev put : Progress W → Shared W → Shared W
  put p s = record s {
    session = record s.session { input = p.input; pending = p.output };
    world = p.world;
  }

  abbrev put_all : Shared W → Option (Progress W) → Option (ℕ × Shared W)
  put_all s none = none
  put_all s (some p) = some (p.handled, put p s)

  by_dirty :
      (dirty : Bool) (s : Shared W) (v w : W)
      → (if dirty then record s { world = v } else record s { world = w })
        ≡ record s { world = if dirty then v else w }
  by_dirty true s v w = refl
  by_dirty false s v w = refl

  propagated-put :
      (hook : Option (Args → W → W)) (r : CommandResult) (s : Shared W) (w : W)
      → propagated exec_apart (hook_apart hook) r (record s { world = w })
        ≡ record s { world = propagated exec hook r w }
  unfolding propagated
  propagated-put none r s w = refl
  propagated-put (some f) r s w = by_dirty r.dirty s (f r.propagate w) w

  take_one-put :
      (hook : Option (Args → W → W)) (n : ℕ) (args : Args) (p : Progress W) (s : Shared W)
      → let q = handle exec hook args (record p { input = Buffer.consume n p.input }) in
        (count_one exec_apart (hook_apart hook) args p.handled ≡ q.handled)
        × (take_one exec_apart (hook_apart hook) n args (put p s) ≡ put q s)
  unfolding answer_one handle take_input reply
  take_one-put hook n [] p s = (refl, refl)
  take_one-put hook n (a ∷ args) p s =
      let (r, w) = exec (a ∷ args) p.world in
      (
        refl,
        propagated-put hook r
            (put
              (record p {
                input = Buffer.consume n p.input;
                output = Buffer.append r.reply p.output;
              })
              s)
            w,
      )

  drain_session-drain :
      (hook : Option (Args → W → W)) (fuel : ℕ) (p : Progress W) (s : Shared W)
      → drain_session exec_apart (hook_apart hook) fuel p.handled (put p s)
        ≡ put_all s (drain exec hook fuel p)
  unfolding drain_session drain reply take_input
  drain_session-drain hook zero p s = refl
  drain_session-drain hook (suc fuel) p s =
      by_result (drain_session-drain hook fuel) (parse_request (Buffer.readable p.input)) refl
    where
      by_result :
          ((q : Progress W) (t : Shared W)
            → drain_session exec_apart (hook_apart hook) fuel q.handled (put q t)
              ≡ put_all t (drain exec hook fuel q))
          → (r : ParseResult) → parse_request (Buffer.readable p.input) ≡ r
          → drain_session exec_apart (hook_apart hook) (suc fuel) p.handled (put p s)
            ≡ put_all s (drain exec hook (suc fuel) p)
      by_result ih ParseResult.incomplete e = rw (e, drain_session, drain)
      by_result ih (ParseResult.error message) e = rw (e, drain_session, drain)
      by_result ih (ParseResult.ok n args) e =
          let q = handle exec hook args (record p { input = Buffer.consume n p.input }) in
          let (count, same) = take_one-put hook n args p s in
          rw (e, drain_session, drain)
            (ap
                (λ m.
                  drain_session exec_apart (hook_apart hook) fuel m
                    (take_one exec_apart (hook_apart hook) n args (put p s)))
                count
              ∙ ap (λ t. drain_session exec_apart (hook_apart hook) fuel q.handled t) same
              ∙ ih q s)

  -- If no command and no hook acts on the session, the handler does to the session what on_data
  -- does to its two buffers and to the state.
  handled_by-on_data :
      (hook : Option (Args → W → W)) (s : Shared W)
      → handled_by exec_apart (hook_apart hook) s
        ≡ or_untouched exec_apart
            (hook_apart hook)
            s
            (put_all s (on_data exec hook s.session.input s.session.pending s.world))
  unfolding handled_by on_data
  handled_by-on_data hook s = ap (or_untouched exec_apart (hook_apart hook) s) (
      drain_session-drain hook (suc (length (Buffer.readable s.session.input)))
        (record {
          input = s.session.input;
          output = s.session.pending;
          world = s.world;
          handled = 0;
        })
        s)
