-- ===== src/Server/Session/Runs.antt =====
-- The life of a session: every order of reads, sends, closings and completed writes.
use redis_plus.Prelude.{
  ℕ, ◌≤◌, ◌≡◌, sym, ap, ◌∙◌, Bool, true, false, none, some, [], ◌++◌, append_assoc, append-nil,
  Bytes, if◌then◌else◌, length, take, drop, take-append-drop, arith, Bool-cases, inl, inr,
}
use redis_plus.Buffer
use redis_plus.Buffer.{Buffer, readable, size}
use redis_plus.Buffer.Queue.{size-readable, readable-consume, consume-IsValid}
use redis_plus.Server.{ServerConfig}
use redis_plus.Server.Session.{
  Session, Shared, flush, reply, take_input, work, over, do_close, drop_or_flush, send, on_written,
  taken, completed,
}
use redis_plus.Server.Session.Order.{
  Keeps, Keeps-flush, Keeps-reply, Keeps-other_fields, waiting, waiting-flush, idle-flush,
}

-- Between two events: a session that is open holds no more than the limit, and if no write is in
-- flight, nothing.
pub record Settles (config : ServerConfig) (s : Session) : Type 0 where
  pub bounded : s.closed ≡ false → waiting s ≤ config.max_output_buffer
  pub idle : s.closed ≡ false → s.writing ≡ none → (readable s.out ≡ []) × (readable s.pending ≡ [])

module _ {W : Type 0} (config : ServerConfig) (on_disconnect : W → W) where
  pub Keeps-do_close :
      (live : Bool) (handed : Bytes) (s : Shared W)
      → Keeps live handed s.session
      → Keeps live handed (do_close config on_disconnect s).session
  unfolding do_close
  Keeps-do_close live handed s k = elim (Bool-cases s.session.closed) [
    | inl closed ↦ rw closed (Keeps-other_fields live handed s.session.input true s.session k)
    | inr up ↦ rw up (Keeps-other_fields live handed s.session.input true s.session k)
  ]

  pub Settles-do_close : (s : Shared W) → Settles config (do_close config on_disconnect s).session
  unfolding do_close
  Settles-do_close s = elim (Bool-cases s.session.closed) [
    | inl closed ↦ rw closed (record { bounded = λ up. absurd cc; idle = λ up. absurd cc })
    | inr up ↦ rw up (record { bounded = λ h. absurd cc; idle = λ h. absurd cc })
  ]

  pub drop_or_flush_lem :
      (live : Bool) (handed : Bytes) (s : Shared W)
      → Keeps live handed s.session
      → Keeps live handed (drop_or_flush config on_disconnect s).session
        × Settles config (drop_or_flush config on_disconnect s).session
  unfolding drop_or_flush
  drop_or_flush_lem live handed s k = elim (Bool-cases (over config on_disconnect s.session)) [
    | inl too_much ↦ rw too_much (Keeps-do_close live handed _ k, Settles-do_close _)
    | inr fits ↦
        let room : waiting (flush s.session) ≤ config.max_output_buffer = ground (
          arith,
          fits,
          size-readable s.session.out,
          size-readable s.session.pending,
          waiting-flush s.session k.out_valid,
        ) in
        rw fits (
          Keeps-flush live handed s.session k,
          record { bounded = λ up. room; idle = λ up. idle-flush s.session },
        )
  ]

  -- What a handler may do in `on_data` to the session and to its own state, with the bytes that it
  -- hands over; a `send` on a closed session changes nothing.
  pub data Touches : Shared W → Bytes → Shared W → Type 0 where
    untouched : {s : Shared W} → Touches s [] s
    replies :
        {s t : Shared W} {more : Bytes} (bytes : Bytes)
        → Touches (reply bytes s) more t
        → Touches s (bytes ++ more) t
    sends :
        {s t : Shared W} {more : Bytes} (bytes : Bytes)
        → s.session.closed ≡ false
        → Touches (send config on_disconnect bytes s) more t
        → Touches s (bytes ++ more) t
    closes :
        {s t : Shared W} {more : Bytes}
        → Touches (do_close config on_disconnect s) more t
        → Touches s more t
    takes :
        {s t : Shared W} {more : Bytes} (rest : Buffer)
        → Touches (take_input rest s) more t
        → Touches s more t
    works :
        {s t : Shared W} {more : Bytes} (f : W → W) → Touches (work f s) more t → Touches s more t

  pub send-up :
      (bytes : Bytes) (s : Shared W)
      → s.session.closed ≡ false
      → send config on_disconnect bytes s ≡ drop_or_flush config on_disconnect (reply bytes s)
  unfolding send
  send-up bytes s up =
      ap (λ b. if b then s else drop_or_flush config on_disconnect (reply bytes s)) up

  pub Keeps-send :
      (live : Bool) (handed bytes : Bytes) (s : Shared W)
      → s.session.closed ≡ false
      → Keeps live handed s.session
      → Keeps live (handed ++ bytes) (send config on_disconnect bytes s).session
        × Settles config (send config on_disconnect bytes s).session
  Keeps-send live handed bytes s up k =
      rw (send-up bytes s up) (
        drop_or_flush_lem live (handed ++ bytes) (reply bytes s)
          (Keeps-reply live handed bytes s k))

  pub Keeps-Touches :
      (live : Bool) (handed more : Bytes) (s t : Shared W)
      → Touches s more t
      → Keeps live handed s.session
      → Keeps live (handed ++ more) t.session
  unfolding take_input work
  Keeps-Touches live handed _ s _ untouched k = rw (append-nil handed) k
  Keeps-Touches live handed _ s t (replies {more = more} bytes h) k =
      rw (append_assoc handed bytes more) at (
        Keeps-Touches live (handed ++ bytes) more (reply bytes s) t h
          (Keeps-reply live handed bytes s k))
  Keeps-Touches live handed _ s t (sends {more = more} bytes up h) k =
      rw (append_assoc handed bytes more) at (
        Keeps-Touches live (handed ++ bytes) more (send config on_disconnect bytes s) t h
          (Keeps-send live handed bytes s up k).0)
  Keeps-Touches live handed more s t (closes h) k =
      Keeps-Touches live handed more (do_close config on_disconnect s) t h
        (Keeps-do_close live handed s k)
  Keeps-Touches live handed more s t (takes rest h) k =
      Keeps-Touches live handed more (take_input rest s) t h
        (Keeps-other_fields live handed rest s.session.closed s.session k)
  Keeps-Touches live handed more s t (works f h) k = Keeps-Touches live handed more (work f s) t h k

  pub on_written-busy :
      (failed : Bool) (n written : ℕ) (s : Shared W)
      → s.session.writing ≡ some n
      → on_written config on_disconnect failed written s
        ≡ completed config on_disconnect (some n) failed written s
  unfolding on_written
  on_written-busy failed n written s busy =
      ap (λ o. completed config on_disconnect o failed written s) busy

  -- The chunk is gone from the front of the queue, and is on the wire.
  pub Keeps-written :
      (live : Bool) (handed : Bytes) (n : ℕ) (s : Shared W)
      → n ≡ length (readable s.session.out)
      → live ≡ true
      → Keeps live handed s.session
      → Keeps live handed
          (record (taken config on_disconnect n s).session { out = Buffer.consume n s.session.out })
  Keeps-written live handed n s size up k =
      let out = s.session.out in
      let gone = readable-consume n out k.out_valid in
      let whole : (s.session.wire ++ take n (readable out))
            ++ (readable (Buffer.consume n out) ++ readable s.session.pending)
          ≡ handed =
        ap (λ a. (s.session.wire ++ take n (readable out)) ++ (a ++ readable s.session.pending))
          gone
        ∙ append_assoc s.session.wire (take n (readable out)) _
        ∙ ap (λ a. s.session.wire ++ a)
            (sym (
              append_assoc (take n (readable out)) (drop n (readable out))
                (readable s.session.pending)))
        ∙ ap (λ a. s.session.wire ++ (a ++ readable s.session.pending))
            (take-append-drop n (readable out))
        ∙ k.queued up in
      record {
        out_valid = consume-IsValid n out k.out_valid;
        pending_valid = k.pending_valid;
        queued = λ _. whole;
        begins = (_, whole);
        same_chunk = λ m busy. absurd cc;
      }

  -- A part of the chunk is on the wire, and nothing behind it will be.
  pub Keeps-failed :
      (handed : Bytes) (written : ℕ) (s : Shared W)
      → (rest : Bytes) × ((s.session.wire ++ take written (readable s.session.out)) ++ rest
          ≡ handed)
      → Keeps false handed s.session
      → Keeps false handed (taken config on_disconnect written s).session
  Keeps-failed handed written s begins k = record {
    out_valid = k.out_valid;
    pending_valid = k.pending_valid;
    queued = λ up. absurd cc;
    begins = begins;
    same_chunk = λ m busy. absurd cc;
  }
