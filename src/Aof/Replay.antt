-- ===== src/Aof/Replay.antt =====
-- `Aof::replay` on a log of whole commands with a torn tail.
use redis_plus.Prelude.{
  ℕ, zero, suc, ◌+◌, ◌-◌, ◌<◌, ◌≡◌, refl, ap, ◌∙◌, Option, none, some, List, [], ◌∷◌, ◌++◌,
  append_assoc, Bytes, length, length-append, length-drop, drop, drop-append_left, arith,
}
use redis_plus.Prelude.Int.{two_64}
use redis_plus.Resp.{ParseResult, parse_request}
use redis_plus.Resp.Prefix.{parse_request_bounds}
use redis_plus.Resp.Reply.{encode}
use redis_plus.Resp.RoundTrip.{parse_request-encode}
use redis_plus.Store.{bump}
use redis_plus.Commands.Base.{Args}
use redis_plus.Handler.Pipeline.{encode_all, AreSendable}
use redis_plus.Aof.{Replayed, done, corrupt, replay_loop, replay, apply_nonempty, count_nonempty}

module _ {ℓ} {W : Type ℓ} (apply : Args → W → W) where
  replay_loop_total :
      (fuel size : ℕ) (text : Bytes) (applied : ℕ) (w : W)
      → length text < fuel
      → (r : Replayed W) × (replay_loop apply fuel size text applied w ≡ some r)
  unfolding replay_loop
  replay_loop_total zero size text applied w h = absurd (omega arith)
  replay_loop_total (suc fuel) size [] applied w h = (done applied 0 w, refl)
  replay_loop_total (suc fuel) size (c ∷ text) applied w h =
      by_result (replay_loop_total fuel size) (parse_request (c ∷ text)) refl
    where
      by_result :
          ((rest : Bytes) (n : ℕ) (v : W)
            → length rest < fuel
            → (r : Replayed W) × (replay_loop apply fuel size rest n v ≡ some r))
          → (p : ParseResult) → parse_request (c ∷ text) ≡ p
          → (r : Replayed W) × (replay_loop apply (suc fuel) size (c ∷ text) applied w ≡ some r)
      by_result ih ParseResult.incomplete e =
          (done applied (length (c ∷ text)) w, rw (e, replay_loop))
      by_result ih (ParseResult.error message) e =
          (corrupt (size - length (c ∷ text)) message w, rw (e, replay_loop))
      by_result ih (ParseResult.ok n args) e =
          let (le, lt) = parse_request_bounds (c ∷ text) n args e in
          let (r, ended) =
            ih (drop n (c ∷ text)) (count_nonempty apply args applied) (apply_nonempty apply args w)
              (omega (arith, length-drop n (c ∷ text))) in
          (r, rw (e, replay_loop) ended)

  -- replay returns, whatever the file holds.
  pub replay_total :
      (file : Option Bytes) (w : W) → (r : Replayed W) × (replay apply file w ≡ some r)
  unfolding replay
  replay_total none w = (done 0 0 w, refl)
  replay_total (some text) w =
      replay_loop_total (suc (length text)) (length text) text 0 w (omega arith)

  -- the commands applied in order
  unfoldable pub apply_all : List Args → W → W
  apply_all [] w = w
  apply_all (args ∷ rest) w = apply_all rest (apply args w)

  replay_loop-ok :
      (fuel size : ℕ) (text : Bytes) (applied : ℕ) (w : W) (n : ℕ) (args : Args)
      → parse_request text ≡ ParseResult.ok n args
      → replay_loop apply (suc fuel) size text applied w
        ≡ replay_loop apply fuel size
            (drop n text)
            (count_nonempty apply args applied)
            (apply_nonempty apply args w)
  unfolding replay_loop
  replay_loop-ok fuel size [] applied w n args e = absurd (unfold parse_request in (cc))
  replay_loop-ok fuel size (c ∷ text) applied w n args e = rw (e, replay_loop)

  replay_loop-encode_all :
      (requests : List Args) (torn : Bytes) (fuel size applied : ℕ) (w : W)
      → AreSendable requests
      → parse_request torn ≡ ParseResult.incomplete
      → applied + length requests < two_64
      → length (encode_all requests ++ torn) < fuel
      → replay_loop apply fuel size (encode_all requests ++ torn) applied w
        ≡ some (done (applied + length requests) (length torn) (apply_all requests w))
  unfolding replay_loop encode_all apply_all
  replay_loop-encode_all requests torn zero size applied w s i b h = absurd (omega arith)
  replay_loop-encode_all [] [] (suc fuel) size applied w s i b h = ground arith
  replay_loop-encode_all [] (c ∷ torn) (suc fuel) size applied w s i b h =
      rw (i, replay_loop) (ground arith)
  replay_loop-encode_all ([] ∷ requests) torn (suc fuel) size applied w ((s, ne), ss) i b h =
      absurd (ne refl)
  replay_loop-encode_all ((a ∷ args) ∷ requests) torn (suc fuel) size applied w ((s, ne), ss) i b
        h =
      let behind = encode_all requests ++ torn in
      let n = length (encode (a ∷ args)) in
      let whole : encode (a ∷ args) ++ encode_all requests ++ torn ≡ encode (a ∷ args) ++ behind =
        append_assoc (encode (a ∷ args)) (encode_all requests) torn in
      let read = parse_request-encode (a ∷ args) behind s in
      let (le, lt) = parse_request_bounds (encode (a ∷ args) ++ behind) n (a ∷ args) read in
      let shorter : length behind < fuel =
        omega (arith, ap length whole, length-append (encode (a ∷ args)) behind) in
      rw whole (
        replay_loop-ok fuel size (encode (a ∷ args) ++ behind) applied w n (a ∷ args) read
        ∙ rw (drop-append_left (encode (a ∷ args)) behind) (
            replay_loop-encode_all requests torn fuel size (bump applied 1) (apply (a ∷ args) w) ss
              i (omega arith) shorter
            ∙ ground arith))

  -- A log of encoded commands within the limits, fewer than 2 ^ 64, and an incomplete tail
  -- replays as exactly those commands in order; the bytes of the tail are counted and not
  -- applied.
  pub replay-encode_all :
      (requests : List Args) (torn : Bytes) (w : W)
      → AreSendable requests
      → parse_request torn ≡ ParseResult.incomplete
      → length requests < two_64
      → replay apply (some (encode_all requests ++ torn)) w
        ≡ some (done (length requests) (length torn) (apply_all requests w))
  unfolding replay
  replay-encode_all requests torn w s i b =
      let text = encode_all requests ++ torn in
      replay_loop-encode_all requests torn (suc (length text)) (length text) 0 w s i (omega arith)
        (omega arith)
      ∙ ground arith
