-- ===== src/Server/Session/Order.antt =====
-- What a session hands to its socket.
use redis_plus.Prelude.{
  ℕ, ◌+◌, ◌≡◌, refl, sym, ap, ◌∙◌, Bool, true, none, some, [], ◌∷◌, ◌++◌, append_assoc, append-nil,
  Bytes, ◌==◌, length, length-append, arith, Bool-cases, Option-cases, inl, inr,
}
use redis_plus.Buffer
use redis_plus.Buffer.{Buffer, readable, size, empty_buffer}
use redis_plus.Buffer.Queue.{IsValid, size-readable, readable-append, append-IsValid, clear_lem}
use redis_plus.Server.Session.{Session, Shared, flush, reply, move_pending, start_write}

-- Of the bytes `handed` to a session: the socket has the first; on a connection that still takes
-- bytes the others are queued in order; and the chunk of a write in flight is as it was.
pub record Keeps (live : Bool) (handed : Bytes) (s : Session) : Type 0 where
  pub out_valid : IsValid s.out
  pub pending_valid : IsValid s.pending
  pub queued : live ≡ true → s.wire ++ (readable s.out ++ readable s.pending) ≡ handed
  pub begins : (rest : Bytes) × (s.wire ++ rest ≡ handed)
  pub same_chunk : (n : ℕ) → s.writing ≡ some n → n ≡ length (readable s.out)

pub empty_readable : (b : Buffer) → size b ≡ 0 → readable b ≡ []
empty_readable b e = by_bytes (readable b) (sym (size-readable b) ∙ e)
  where
    by_bytes : (s : Bytes) → length s ≡ 0 → s ≡ []
    by_bytes [] h = refl
    by_bytes (c ∷ s) h = absurd (omega (arith, h))

-- What is pending is moved behind what goes out first.
Keeps-move_pending :
    (live : Bool) (handed : Bytes) (s : Session)
    → Keeps live handed s
    → s.writing ≡ none
    → Keeps live handed (move_pending s)
Keeps-move_pending live handed s k idle = elim (Bool-cases (size s.pending == 0)) [
  | inl nothing ↦ rw nothing k
  | inr some_bytes ↦
      let moved = readable-append (readable s.pending) s.out k.out_valid in
      let (gone, valid) = clear_lem s.pending in
      rw some_bytes (record {
        out_valid = append-IsValid (readable s.pending) s.out k.out_valid;
        pending_valid = valid;
        queued = λ up.
            ap (λ a. s.wire ++ (a ++ readable (Buffer.clear s.pending))) moved
            ∙ ap (λ a. s.wire ++ ((readable s.out ++ readable s.pending) ++ a)) gone
            ∙ ap (λ a. s.wire ++ a) (append-nil (readable s.out ++ readable s.pending))
            ∙ k.queued up;
        begins = k.begins;
        same_chunk = λ n busy. absurd cc;
      })
]

Keeps-start_write :
    (live : Bool) (handed : Bytes) (s : Session)
    → Keeps live handed s
    → Keeps live handed (start_write s)
Keeps-start_write live handed s k = elim (Bool-cases (size s.out == 0)) [
  | inl nothing ↦ rw nothing k
  | inr some_bytes ↦ rw some_bytes (record {
    out_valid = k.out_valid;
    pending_valid = k.pending_valid;
    queued = k.queued;
    begins = k.begins;
    same_chunk = λ n busy. ground (arith, busy, size-readable s.out);
  })
]

pub Keeps-flush :
    (live : Bool) (handed : Bytes) (s : Session) → Keeps live handed s → Keeps live handed (flush s)
unfolding flush
Keeps-flush live handed s k = elim (Option-cases s.writing) [
  | inl idle ↦
      rw (idle, flush)
        (Keeps-start_write live handed (move_pending s) (Keeps-move_pending live handed s k idle))
  | inr (n, busy) ↦ rw (busy, flush) k
]

-- A handler adds its bytes behind the others.
pub Keeps-reply :
    {W : Type 0} (live : Bool) (handed bytes : Bytes) (s : Shared W)
    → Keeps live handed s.session
    → Keeps live (handed ++ bytes) (reply bytes s).session
unfolding reply
Keeps-reply live handed bytes s k =
    let (rest, e) = k.begins in
    record {
      out_valid = k.out_valid;
      pending_valid = append-IsValid bytes s.session.pending k.pending_valid;
      queued = λ up.
          ap (λ a. s.session.wire ++ (readable s.session.out ++ a))
            (readable-append bytes s.session.pending k.pending_valid)
          ∙ ap (λ a. s.session.wire ++ a)
              (sym (append_assoc (readable s.session.out) (readable s.session.pending) bytes))
          ∙ sym (
              append_assoc s.session.wire (readable s.session.out ++ readable s.session.pending)
                bytes)
          ∙ ap (λ a. a ++ bytes) (k.queued up);
      begins =
          (rest ++ bytes, sym (append_assoc s.session.wire rest bytes) ∙ ap (λ a. a ++ bytes) e);
      same_chunk = k.same_chunk;
    }

pub Keeps-other_fields :
    (live : Bool) (handed : Bytes) (input : Buffer) (closed : Bool) (s : Session)
    → Keeps live handed s
    → Keeps live handed (record s { input = input; closed = closed })
Keeps-other_fields live handed input closed s k = record {
  out_valid = k.out_valid;
  pending_valid = k.pending_valid;
  queued = k.queued;
  begins = k.begins;
  same_chunk = k.same_chunk;
}

-- how much waits to be written
abbrev pub waiting : Session → ℕ
waiting s = length (readable s.out) + length (readable s.pending)

waiting-move_pending : (s : Session) → IsValid s.out → waiting (move_pending s) ≡ waiting s
waiting-move_pending s v = ground (
  arith,
  clear_lem s.pending,
  ap length (readable-append (readable s.pending) s.out v),
  length-append (readable s.out) (readable s.pending),
)

pub waiting-flush : (s : Session) → IsValid s.out → waiting (flush s) ≡ waiting s
unfolding flush
waiting-flush s v = ground (arith, waiting-move_pending s v)

nothing_pending : (s : Session) → readable (move_pending s).pending ≡ []
nothing_pending s = ground (arith, clear_lem s.pending, empty_readable s.pending)

nothing_out : (s : Session) → (start_write s).writing ≡ none → readable (start_write s).out ≡ []
nothing_out s idle = elim (Bool-cases (size s.out == 0)) [
  | inl nothing ↦ rw nothing (empty_readable s.out (ground (arith, nothing)))
  | inr some_bytes ↦ let k = rw some_bytes at idle in absurd cc
]

-- No write is in flight only if nothing waits.
pub idle-flush :
    (s : Session)
    → (flush s).writing ≡ none
    → (readable (flush s).out ≡ []) × (readable (flush s).pending ≡ [])
unfolding flush
idle-flush s idle = elim (Option-cases s.writing) [
  | inl before ↦
      rw (before, flush)
        (
          nothing_out (move_pending s) (rw (before, flush) at idle),
          ground (arith, nothing_pending s),
        )
  | inr (n, busy) ↦ let k = rw (busy, flush) at idle in absurd cc
]

closed-move_pending : (s : Session) → (move_pending s).closed ≡ s.closed
closed-move_pending s = ground arith

pub closed-flush : (s : Session) → (flush s).closed ≡ s.closed
unfolding flush
closed-flush s = ground (arith, closed-move_pending s)

-- `flush` with no write in flight leaves nothing pending.
pub pending-flush : (s : Session) → s.writing ≡ none → readable (flush s).pending ≡ []
unfolding flush
pending-flush s idle = rw (idle, flush) (ground (arith, nothing_pending s))

pub out-flush :
    (s : Session)
    → s.writing ≡ none
    → readable s.pending ≡ []
    → readable (flush s).out ≡ readable s.out
unfolding flush
out-flush s idle nothing = ground (arith, idle, size-readable s.pending, ap length nothing)

pub input-flush : (s : Session) → (flush s).input ≡ s.input
unfolding flush
input-flush s = ground arith

pub wire-flush : (s : Session) → (flush s).wire ≡ s.wire
unfolding flush
wire-flush s = ground arith
