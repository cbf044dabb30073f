-- ===== src/Handler/Pipeline.antt =====
-- The loop of `on_data` over a pipeline of requests.
use redis_plus.Prelude.{
  ℕ, zero, suc, ◌+◌, ◌<◌, ◌≡◌, ◌≢◌, refl, sym, ap, ◌∙◌, Option, some, List, [], ◌∷◌, ◌++◌,
  append_assoc, append-nil, Bytes, length, length-append, length-drop, drop, drop-append_left,
  arith, All,
}
use redis_plus.Resp.{ParseResult, parse_request}
use redis_plus.Resp.Prefix.{parse_request_bounds}
use redis_plus.Resp.Reply
use redis_plus.Resp.Reply.{encode}
use redis_plus.Resp.RoundTrip.{IsSendable, parse_request-encode}
use redis_plus.Buffer
use redis_plus.Buffer.{Buffer, readable}
use redis_plus.Buffer.Queue.{
  IsValid, consume-IsValid, readable-consume, readable-append, append-IsValid,
}
use redis_plus.Commands.Base.{Args, CommandResult}
use redis_plus.Handler.{Progress, propagated, handle, drain, on_data}

module _ {ℓ} {W : Type ℓ} (exec : Args → W → CommandResult × W) (hook : Option (Args → W → W)) where
  input-handle : (args : Args) (p : Progress W) → (handle exec hook args p).input ≡ p.input
  unfolding handle
  input-handle [] p = refl
  input-handle (a ∷ args) p = refl

  -- one round, after a request of `n` bytes
  abbrev round : ℕ → Args → Progress W → Progress W
  round n args p = handle exec hook args (record p { input = Buffer.consume n p.input })

  -- after a round the buffer is sound, and what is readable is what stood behind the request
  round-IsValid :
      (n : ℕ) (args : Args) (p : Progress W) → IsValid p.input → IsValid (round n args p).input
  round-IsValid n args p v = rw input-handle (consume-IsValid n p.input v)

  readable-round :
      (n : ℕ) (args : Args) (p : Progress W)
      → IsValid p.input
      → readable (round n args p).input ≡ drop n (readable p.input)
  readable-round n args p v = rw input-handle (readable-consume n p.input v)

  drain_total :
      (fuel : ℕ) (p : Progress W)
      → IsValid p.input
      → length (readable p.input) < fuel
      → (q : Progress W) × (drain exec hook fuel p ≡ some q)
  unfolding drain
  drain_total zero p v h = absurd (omega arith)
  drain_total (suc fuel) p v h =
      by_result (drain_total fuel) (parse_request (readable p.input)) refl
    where
      by_result :
          ((p' : Progress W)
            → IsValid p'.input
            → length (readable p'.input) < fuel
            → (q : Progress W) × (drain exec hook fuel p' ≡ some q))
          → (r : ParseResult) → parse_request (readable p.input) ≡ r
          → (q : Progress W) × (drain exec hook (suc fuel) p ≡ some q)
      by_result ih ParseResult.incomplete e = (p, rw (e, drain))
      by_result ih (ParseResult.error message) e = (
        record p {
          output = Buffer.append (Reply.error message) p.output;
          input = Buffer.clear p.input;
        },
        rw (e, drain),
      )
      by_result ih (ParseResult.ok n args) e =
          let (le, lt) = parse_request_bounds (readable p.input) n args e in
          let shorter : length (drop n (readable p.input)) < fuel =
            omega (arith, length-drop n (readable p.input)) in
          let (q, done) =
            ih (round n args p) (round-IsValid n args p v)
              (rw (readable-round n args p v) shorter) in
          (q, rw (e, drain) done)

  -- on_data returns, whatever bytes stand in a valid input buffer.
  pub on_data_total :
      (input output : Buffer) (w : W)
      → IsValid input
      → (q : Progress W) × (on_data exec hook input output w ≡ some q)
  unfolding on_data
  on_data_total input output w v =
      drain_total (suc (length (readable input)))
        (record { input = input; output = output; world = w; handled = 0 }) v (omega arith)

-- the requests, encoded one behind the other
unfoldable pub encode_all : List Args → Bytes
encode_all [] = []
encode_all (args ∷ rest) = encode args ++ encode_all rest

abbrev pub AreSendable : List Args → Type 0
AreSendable = All (λ args. IsSendable args × (args ≢ []))

module _ {ℓ} {W : Type ℓ} (exec : Args → W → CommandResult × W) (hook : Option (Args → W → W)) where
  -- the state after a list of requests, and the replies to them
  unfoldable pub after_all : List Args → W → W
  after_all [] w = w
  after_all (args ∷ rest) w =
      let (r, w') = exec args w in after_all rest (propagated exec hook r w')

  unfoldable pub replies : List Args → W → Bytes
  replies [] w = []
  replies (args ∷ rest) w =
      let (r, w') = exec args w in r.reply ++ replies rest (propagated exec hook r w')

  -- What a drained buffer leaves: the requests handled in order, each once, and the rest unread.
  pub record Drained (requests : List Args) (rest : Bytes) (p q : Progress W) : Type ℓ where
    pub unread : readable q.input ≡ rest
    pub replied : readable q.output ≡ readable p.output ++ replies requests p.world
    pub state : q.world ≡ after_all requests p.world
    pub count : q.handled ≡ p.handled + length requests

  -- one request more in front
  Drained-cons :
      (n : ℕ) (a : Bytes) (args : Args) (requests : List Args) (rest : Bytes) (p q : Progress W)
      → IsValid p.output
      → Drained requests rest (round exec hook n (a ∷ args) p) q
      → Drained ((a ∷ args) ∷ requests) rest p q
  unfolding handle after_all replies
  Drained-cons n a args requests rest p q vo d =
      let reply = (exec (a ∷ args) p.world).0.reply in
      record {
        unread = d.unread;
        replied =
            d.replied
            ∙ ap (λ out. out ++ replies requests (round exec hook n (a ∷ args) p).world)
                (readable-append reply p.output vo)
            ∙ append_assoc (readable p.output) reply _;
        state = d.state;
        count = omega (arith, d.count);
      }

  drain-encode_all :
      (requests : List Args) (rest : Bytes) (fuel : ℕ) (p : Progress W)
      → AreSendable requests
      → parse_request rest ≡ ParseResult.incomplete
      → IsValid p.input
      → IsValid p.output
      → readable p.input ≡ encode_all requests ++ rest
      → length (readable p.input) < fuel
      → (q : Progress W) × (drain exec hook fuel p ≡ some q) × Drained requests rest p q
  unfolding drain encode_all after_all replies
  drain-encode_all requests rest zero p s i v vo e h = absurd (omega arith)
  drain-encode_all [] rest (suc fuel) p s i v vo e h =
      let stop : parse_request (readable p.input) ≡ ParseResult.incomplete = rw e i in
      (
        p,
        rw (stop, drain),
        record { unread = e; replied = sym (append-nil _); state = refl; count = omega arith },
      )
  drain-encode_all ([] ∷ requests) rest (suc fuel) p ((s, ne), ss) i v vo e h = absurd (ne refl)
  drain-encode_all ((a ∷ args) ∷ requests) rest (suc fuel) p ((s, ne), ss) i v vo e h =
      let behind = encode_all requests ++ rest in
      let n = length (encode (a ∷ args)) in
      let whole : readable p.input ≡ encode (a ∷ args) ++ behind =
        e ∙ append_assoc (encode (a ∷ args)) (encode_all requests) rest in
      let read : parse_request (readable p.input) ≡ ParseResult.ok n (a ∷ args) =
        rw whole (parse_request-encode (a ∷ args) behind s) in
      let (le, lt) = parse_request_bounds (readable p.input) n (a ∷ args) read in
      let p' = round exec hook n (a ∷ args) p in
      let reply = (exec (a ∷ args) p.world).0.reply in
      let left : readable p'.input ≡ behind =
        readable-round exec hook n (a ∷ args) p v
        ∙ rw whole (drop-append_left (encode (a ∷ args)) behind) in
      let (q, done, d) =
        drain-encode_all requests rest fuel p' ss i (round-IsValid exec hook n (a ∷ args) p v)
          (unfold handle in append-IsValid reply p.output vo) left
          (rw left (omega (arith, ap length whole, length-append (encode (a ∷ args)) behind))) in
      (q, rw (read, drain) done, Drained-cons n a args requests rest p q vo d)

  -- For a valid input and output buffer, where the input is a list of encoded requests within the
  -- limits and an incomplete rest, on_data returns with the rest as its input, the replies in
  -- order behind the old output, the state of running the requests one by one, and their count.
  pub on_data_pipeline :
      (requests : List Args) (rest : Bytes) (input output : Buffer) (w : W)
      → AreSendable requests
      → parse_request rest ≡ ParseResult.incomplete
      → IsValid input
      → IsValid output
      → readable input ≡ encode_all requests ++ rest
      → (q : Progress W) × (on_data exec hook input output w ≡ some q)
        × (readable q.input ≡ rest)
        × (readable q.output ≡ readable output ++ replies requests w)
        × (q.world ≡ after_all requests w)
        × (q.handled ≡ length requests)
  unfolding on_data
  on_data_pipeline requests rest input output w s i v vo e =
      let p : Progress W = record { input = input; output = output; world = w; handled = 0 } in
      let (q, done, d) =
        drain-encode_all requests rest (suc (length (readable input))) p s i v vo e (omega arith) in
      (q, done, d.unread, d.replied, d.state, omega (arith, d.count))
