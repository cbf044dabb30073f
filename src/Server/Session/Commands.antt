-- ===== src/Server/Session/Commands.antt =====
-- `RespHandler::on_data` (src/commands.cpp) as the handler of a session: it is given the session itself
-- as its link, the session's `in_` and `pending_`, and the commands and the hook may send on the link.
use redis_plus.Prelude.{
  ℕ, zero, suc, ◌+◌, ◌≡◌, refl, sym, ap, Option, none, some, [], ◌∷◌, ◌++◌, append_assoc, Bytes,
  length, false,
}
use redis_plus.Resp.{ParseResult, parse_request}
use redis_plus.Resp.Reply
use redis_plus.Buffer
use redis_plus.Commands.Base.{Args, CommandResult}
use redis_plus.Handler.{propagated}
use redis_plus.Server.{ServerConfig}
use redis_plus.Server.Session.{Shared, reply, take_input, work, send}
use redis_plus.Server.Session.Runs.{Touches, untouched, replies, sends, takes, works}

-- `exec` is `table_.dispatch(args, link)` and `hook` is `propagate_`, if it is set. Both may act on
-- the session, as by `link->send`.
module _ {W : Type 0} (exec : Args → Shared W → CommandResult × Shared W)
    (hook : Option (Args → Shared W → Shared W)) where
  -- one request that was parsed; an empty one is skipped
  unfoldable pub answer_one : Args → Shared W → Shared W
  unfolding propagated
  answer_one [] s = s
  answer_one (a ∷ args) s =
      let (r, t) = exec (a ∷ args) s in propagated exec hook r (reply r.reply t)

  abbrev pub count_one : Args → ℕ → ℕ
  count_one [] n = n
  count_one (a ∷ args) n = n + 1

  -- the request's bytes are taken, and it is answered
  abbrev pub take_one : ℕ → Args → Shared W → Shared W
  take_one n args s = answer_one args (take_input (Buffer.consume n s.session.input) s)

  abbrev pub refuse : Bytes → Shared W → Shared W
  refuse message s =
      let t = reply (Reply.error message) s in take_input (Buffer.clear t.session.input) t

  -- `none`: out of fuel. The second argument counts the commands.
  unfoldable pub drain_session : ℕ → ℕ → Shared W → Option (ℕ × Shared W)
  unfolding answer_one
  drain_session zero handled s = none
  drain_session (suc fuel) handled s = elim (parse_request (Buffer.readable s.session.input)) [
    | ParseResult.incomplete ↦ some (handled, s)
    | ParseResult.error message ↦ some (handled, refuse message s)
    | ParseResult.ok n args ↦ drain_session fuel (count_one args handled) (take_one n args s)
  ]

  abbrev pub or_untouched : Shared W → Option (ℕ × Shared W) → ℕ × Shared W
  or_untouched s none = (0, s)
  or_untouched s (some (handled, t)) = (handled, t)

  -- `handler_->on_data(this, in_, pending_)`
  unfoldable pub handled_by : Shared W → ℕ × Shared W
  unfolding drain_session
  handled_by s = or_untouched s (drain_session (suc (length (Buffer.readable s.session.input))) 0 s)

module _ {W : Type 0} (config : ServerConfig) (on_disconnect : W → W) where
  -- What a command or the hook may do: send on the link, with the bytes sent, and change the
  -- handler's own state.
  pub data Speaks : Shared W → Bytes → Shared W → Type 0 where
    silent : {s : Shared W} → Speaks s [] s
    says :
        {s t : Shared W} {more : Bytes} (bytes : Bytes)
        → s.session.closed ≡ false
        → Speaks (send config on_disconnect bytes s) more t
        → Speaks s (bytes ++ more) t
    acts : {s t : Shared W} {more : Bytes} (f : W → W) → Speaks (work f s) more t → Speaks s more t

  Touches-Speaks :
      (bytes more : Bytes) (s t u : Shared W)
      → Speaks s bytes t
      → Touches config on_disconnect t more u
      → Touches config on_disconnect s (bytes ++ more) u
  Touches-Speaks _ more s t u silent h = h
  Touches-Speaks _ more s t u (says {more = rest} bytes up k) h =
      rw (append_assoc bytes rest more) (sends bytes up (Touches-Speaks rest more _ t u k h))
  Touches-Speaks bytes more s t u (acts f k) h = works f (Touches-Speaks bytes more _ t u k h)

  module _ (exec : Args → Shared W → CommandResult × Shared W)
      (hook : Option (Args → Shared W → Shared W))
      (exec_law : (args : Args) (s : Shared W) → (bytes : Bytes) × Speaks s bytes (exec args s).1)
      (hook_law : (r : CommandResult) (s : Shared W)
        → (bytes : Bytes) × Speaks s bytes (propagated exec hook r s)) where
    -- what the session is handed for one request: what the command sends on the link, the reply,
    -- and what the hook sends
    unfoldable pub spoken : Args → Shared W → Bytes
    spoken [] s = []
    spoken (a ∷ args) s =
        let (r, t) = exec (a ∷ args) s in
        (exec_law (a ∷ args) s).0 ++ (r.reply ++ (hook_law r (reply r.reply t)).0)

    pub Touches-answer_one :
        (args : Args) (more : Bytes) (s u : Shared W)
        → Touches config on_disconnect (answer_one exec hook args s) more u
        → Touches config on_disconnect s (spoken args s ++ more) u
    unfolding answer_one spoken
    Touches-answer_one [] more s u h = h
    Touches-answer_one (a ∷ args) more s u h =
        let (r, t) = exec (a ∷ args) s in
        let (first, k) = exec_law (a ∷ args) s in
        let (last, l) = hook_law r (reply r.reply t) in
        let behind = replies r.reply (Touches-Speaks last more (reply r.reply t) _ u l h) in
        let whole = Touches-Speaks first (r.reply ++ (last ++ more)) s t u k behind in
        let same : (first ++ (r.reply ++ last)) ++ more ≡ first ++ (r.reply ++ (last ++ more)) =
          simp append_assoc in
        rw same whole

    Touched : Shared W → ℕ × Shared W → Type 0
    Touched s q = (bytes : Bytes) × Touches config on_disconnect s bytes q.1

    ends_at :
        (s : Shared W) (n : ℕ) (t : Shared W) (q : ℕ × Shared W)
        → (bytes : Bytes) × Touches config on_disconnect s bytes t
        → some (n, t) ≡ some q
        → Touched s q
    unfolding Touched
    ends_at s n t q h e =
        let same : (n, t) ≡ q = cc in rw (ap (λ (k : ℕ × Shared W). k.1) (sym same)) h

    Touched-drain_session :
        (fuel handled : ℕ) (s : Shared W) (q : ℕ × Shared W)
        → drain_session exec hook fuel handled s ≡ some q
        → Touched s q
    unfolding drain_session Touched reply
    Touched-drain_session zero handled s q e = absurd cc
    Touched-drain_session (suc fuel) handled s q e =
        by_result (λ n r k. Touched-drain_session fuel n r q k)
          (parse_request (Buffer.readable s.session.input)) refl
      where
        by_result :
            ((n : ℕ) (r : Shared W) → drain_session exec hook fuel n r ≡ some q → Touched r q)
            → (r : ParseResult) → parse_request (Buffer.readable s.session.input) ≡ r
            → Touched s q
        by_result ih ParseResult.incomplete r =
            ends_at s handled s q ([], untouched) (rw (r, drain_session) at e)
        by_result ih (ParseResult.error message) r =
            ends_at s handled (refuse exec hook message s) q
              (
                Reply.error message ++ [],
                replies (Reply.error message) (takes (Buffer.clear s.session.input) untouched),
              )
              (rw (r, drain_session) at e)
        by_result ih (ParseResult.ok n args) r =
            let (bytes, h) = ih _ _ (rw (r, drain_session) at e) in
            (_, takes (Buffer.consume n s.session.input) (Touches-answer_one args bytes _ q.1 h))

    -- The handler replies, sends, takes input and changes its own state, and nothing more.
    pub handled_by_law :
        (s : Shared W)
        → (bytes : Bytes) × Touches config on_disconnect s bytes (handled_by exec hook s).1
    unfolding handled_by Touched
    handled_by_law s =
        by_drained (drain_session exec hook (suc (length (Buffer.readable s.session.input))) 0 s)
          refl
      where
        by_drained :
            (o : Option (ℕ × Shared W))
            → drain_session exec hook (suc (length (Buffer.readable s.session.input))) 0 s ≡ o
            → (bytes : Bytes) × Touches config on_disconnect s bytes (or_untouched exec hook s o).1
        by_drained none e = ([], untouched)
        by_drained (some q) e =
            Touched-drain_session (suc (length (Buffer.readable s.session.input))) 0 s q e
