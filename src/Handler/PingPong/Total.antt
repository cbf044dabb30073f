-- ===== src/Handler/PingPong/Total.antt =====
-- The loop of `PingPongHandler::on_data` ends.
use redis_plus.Prelude.{
  ℕ, zero, suc, ◌+◌, ◌-◌, ◌≤◌, ◌<◌, ◌≡◌, refl, ap, Option, none, some, [], ◌∷◌, Bytes, ◌==◌, length,
  length-drop, take, drop, arith, Option-cases, Bool-cases, inl, inr,
}
use redis_plus.Resp.Find.{find_crlf, find_crlf-le}
use redis_plus.Buffer
use redis_plus.Buffer.{readable}
use redis_plus.Buffer.Queue.{IsValid, readable-consume, consume-IsValid}
use redis_plus.Stats.{Stats}
use redis_plus.Handler.PingPong.{
  number, max_argc, bulk_length, frame_args, with_argc, framed_length, answer, Answered, answer_all,
  on_data,
}

bulk_length-le : (s : Bytes) (n : ℕ) → bulk_length s ≡ some n → n ≤ length s
unfolding bulk_length
bulk_length-le [] n e = absurd cc
bulk_length-le (c ∷ s) n e = ground (arith, e)

frame_args-le :
    (argc pos size : ℕ) (rest : Bytes) → pos + length rest ≤ size → frame_args argc pos rest ≤ size
unfolding frame_args
frame_args-le zero pos size rest h = omega arith
frame_args-le (suc argc) pos size rest h = elim (Option-cases (bulk_length rest)) [
  | inl broken ↦ rw (broken, frame_args) (omega arith)
  | inr (n, found) ↦
      let fits = bulk_length-le rest n found in
      rw (found, frame_args)
        (frame_args-le argc (pos + n) size (drop n rest) (omega (arith, length-drop n rest)))
]

with_argc-le :
    (eol : ℕ) (input : Bytes) (argc : Option ℕ)
    → eol + 2 ≤ length input
    → with_argc eol input argc ≤ length input
with_argc-le eol input none h = omega arith
with_argc-le eol input (some argc) h =
    frame_args-le argc (eol + 2) (length input) (drop (eol + 2) input)
      (omega (arith, length-drop (eol + 2) input))

-- A request that is framed is in the buffer.
framed_length-le : (s : Bytes) → framed_length s ≤ length s
unfolding framed_length
framed_length-le [] = omega arith
framed_length-le (c ∷ s) = elim (Option-cases (find_crlf (c ∷ s))) [
  | inl missing ↦ rw (missing, framed_length) (omega arith)
  | inr (eol, found) ↦
      let fits = find_crlf-le (c ∷ s) eol found in
      rw (found, framed_length)
        (ground (arith, fits, with_argc-le eol (c ∷ s) (number max_argc 0 (take (eol - 1) s)) fits))
]

answer_all_total :
    (uptime : ℕ) (stats : Stats) (fuel : ℕ) (a : Answered)
    → IsValid a.input
    → length (readable a.input) < fuel
    → (b : Answered) × (answer_all uptime stats fuel a ≡ some b)
unfolding answer_all
answer_all_total uptime stats zero a v h = absurd (omega arith)
answer_all_total uptime stats (suc fuel) a v h =
    let n = framed_length (readable a.input) in
    let next : Answered = record {
      input = Buffer.consume n a.input;
      output = answer uptime stats (take n (readable a.input)) a.output;
      handled = a.handled + 1;
    } in
    let fits = framed_length-le (readable a.input) in
    let ih = answer_all_total uptime stats fuel next (consume-IsValid n a.input v) in
    elim (Bool-cases (n == 0)) [
      | inl done ↦ (a, rw done refl)
      | inr more ↦
          let shorter : length (readable next.input) < fuel =
            ground
              (arith, ap length (readable-consume n a.input v), length-drop n (readable a.input)) in
          let (b, ended) = ih shorter in (b, rw more ended)
    ]

-- on_data returns, whatever bytes stand in a valid input buffer.
pub on_data_total :
    (uptime : ℕ) (stats : Stats) (input output : Buffer.Buffer)
    → IsValid input
    → (b : Answered) × (on_data uptime stats input output ≡ some b)
unfolding on_data
on_data_total uptime stats input output v =
    answer_all_total uptime stats (suc (length (readable input)))
      (record { input = input; output = output; handled = 0 }) v (omega arith)
