-- ===== src/Aof/Flush.antt =====
-- What an open log holds, and where, through `Aof::append` and `Aof::flush`.
use redis_plus.Prelude.{
  ◌≡◌, refl, ap, ◌∙◌, sym, ℕ, Bool, true, false, some, List, [], ◌∷◌, ◌++◌, append_assoc,
  append-nil, Bytes, length, take, drop, take-append_left, take-append-drop, if◌then◌else◌, arith,
  Bool-cases, inl, inr,
}
use redis_plus.Prelude.Int.{ℤ, pos, ◌-ℤ◌, leb_ℤ}
use redis_plus.Resp.Reply.{encode}
use redis_plus.Store.{bump}
use redis_plus.Commands.Base.{Args}
use redis_plus.Handler.Pipeline.{encode_all, AreSendable}
use redis_plus.Aof.{
  Aof, append, fwrite, fflush, fsync_handle, flush, write_buffer, write_out, sync_if_due,
  FsyncPolicy, always, every_sec, never,
}

unfoldable pub append_all : List Args → Aof → Aof
append_all [] a = a
append_all (args ∷ rest) a = append_all rest (append args a)

-- whether a flush leaves nothing with the C library
unfoldable pub reaches_file : FsyncPolicy → ℤ → ℤ → Bool
reaches_file always now last = true
reaches_file every_sec now last = leb_ℤ (pos 1000) (now -ℤ last)
reaches_file never now last = true

abbrev pub syncs : FsyncPolicy → Bool
syncs always = true
syncs every_sec = true
syncs never = false

-- An open log that holds `text`, in its file, with the C library and in its buffer.
pub record Holds (text : Bytes) (a : Aof) : Type 0 where
  pub held : Bytes
  pub is_there : a.file ≡ some held
  pub whole : held ++ (a.stdio ++ a.buffer) ≡ text

Holds-append :
    (text : Bytes) (arg : Bytes) (args : Args) (a : Aof)
    → Holds text a
    → Holds (text ++ encode (arg ∷ args)) (append (arg ∷ args) a)
      × ((append (arg ∷ args) a).policy ≡ a.policy)
unfolding append
Holds-append text arg args a h =
    let more = encode (arg ∷ args) in
    rw (h.is_there, append)
      (
        record {
          held = h.held;
          is_there = h.is_there;
          whole =
              ap (λ k. h.held ++ k) (sym (append_assoc a.stdio a.buffer more))
              ∙ sym (append_assoc h.held (a.stdio ++ a.buffer) more)
              ∙ ap (λ k. k ++ more) h.whole;
        },
        refl,
      )

pub Holds-append_all :
    (text : Bytes) (requests : List Args) (a : Aof)
    → AreSendable requests
    → Holds text a
    → (b : Aof) × (b ≡ append_all requests a)
      × Holds (text ++ encode_all requests) b
      × (b.policy ≡ a.policy)
      × (b.disk ≡ a.disk)
      × (b.last_fsync_ms ≡ a.last_fsync_ms)
unfolding append_all encode_all append
Holds-append_all text [] a s h = (a, refl, rw append-nil h, refl, refl, refl)
Holds-append_all text ([] ∷ requests) a ((s, ne), ss) h = absurd (ne refl)
Holds-append_all text ((arg ∷ args) ∷ requests) a ((s, ne), ss) h =
    let (b, e, held, p, d, l) =
      Holds-append_all (text ++ encode (arg ∷ args)) requests (append (arg ∷ args) a) ss
        (Holds-append text arg args a h).0 in
    (
      b,
      e,
      rw (append_assoc text (encode (arg ∷ args)) (encode_all requests)) at held,
      p ∙ ground (arith, h.is_there),
      d ∙ ground (arith, h.is_there),
      l ∙ ground (arith, h.is_there),
    )

take-length : (s : Bytes) → take (length s) s ≡ s
take-length s = rw (append-nil s) at (take-append_left s [])

-- A write of the whole buffer: it is with the C library, or further.
write_all_lem :
    (through : ℕ) (text : Bytes) (a : Aof)
    → Holds text a
    → (b : Aof) × (write_buffer (record { taken = length a.buffer; through = through }) a
        ≡ (true, b))
      × Holds text b
      × (b.buffer ≡ [])
      × (b.policy ≡ a.policy)
      × (b.disk ≡ a.disk)
      × (b.last_fsync_ms ≡ a.last_fsync_ms)
unfolding write_buffer write_out fwrite
write_all_lem through text a h = by_buffer a.buffer refl
  where
    by_buffer :
        (buffer : Bytes)
        → a.buffer ≡ buffer
        → (b : Aof) × (write_buffer (record { taken = length a.buffer; through = through }) a
            ≡ (true, b))
          × Holds text b
          × (b.buffer ≡ [])
          × (b.policy ≡ a.policy)
          × (b.disk ≡ a.disk)
          × (b.last_fsync_ms ≡ a.last_fsync_ms)
    by_buffer [] e = (
      a,
      ap
          (λ (k : Bytes). elim k [
            | [] ↦ (true, a)
            | _ ∷ _ ↦ write_out (record { taken = length a.buffer; through = through }) a
          ])
          e,
      h,
      e,
      refl,
      refl,
      refl,
    )
    by_buffer (c ∷ buffer) e =
        let waiting = a.stdio ++ a.buffer in
        (
          record a {
            file = some (h.held ++ take through waiting);
            stdio = drop through waiting;
            bytes_written = bump a.bytes_written (length a.buffer);
            buffer = [];
          },
          ground (arith, e, h.is_there, take-length a.buffer),
          record {
            held = h.held ++ take through waiting;
            is_there = refl;
            whole =
                ap (λ k. (h.held ++ take through waiting) ++ k) (append-nil (drop through waiting))
                ∙ append_assoc h.held (take through waiting) (drop through waiting)
                ∙ ap (λ k. h.held ++ k) (take-append-drop through waiting)
                ∙ h.whole;
          },
          refl,
          refl,
          refl,
          refl,
        )

-- A flush of a written log hands everything to the operating system.
out_to_file : (text : Bytes) (a : Aof) (h : Holds text a) → a.buffer ≡ [] → h.held ++ a.stdio ≡ text
out_to_file text a h e =
    ap (λ k. h.held ++ k) (sym (append-nil a.stdio) ∙ ap (λ k. a.stdio ++ k) (sym e)) ∙ h.whole

-- What a flush at `now` makes of a log with this policy, the last flush to the disk at `last` and
-- `disk` there: it holds `text` still, with nothing in its buffer.
pub record Wrote (policy : FsyncPolicy) (now last : ℤ) (disk text : Bytes) (c : Aof) : Type 0 where
  pub holds : Holds text c
  pub same_policy : c.policy ≡ policy
  pub no_sync : syncs policy ≡ false → c.disk ≡ disk
  pub whole_file : reaches_file policy now last ≡ true → c.file ≡ some text
  pub whole_disk :
      reaches_file policy now last ≡ true → c.disk ≡ (if syncs policy then text else disk)

pub Holds-all :
    (text : Bytes) (c : Aof) → c.file ≡ some text → c.stdio ≡ [] → c.buffer ≡ [] → Holds text c
Holds-all text c f s e = record {
  held = text;
  is_there = f;
  whole = ap (λ k. text ++ (k ++ c.buffer)) s ∙ ap (λ k. text ++ k) e ∙ append-nil text;
}

fflush_lem :
    (text : Bytes) (b : Aof)
    → Holds text b
    → b.buffer ≡ []
    → ((fflush b).file ≡ some text)
      × ((fflush b).stdio ≡ [])
      × ((fflush b).buffer ≡ [])
      × ((fflush b).policy ≡ b.policy)
      × ((fflush b).disk ≡ b.disk)
unfolding fflush
fflush_lem text b h e = (
  rw (h.is_there, fflush) (ap some (out_to_file text b h e)),
  ground (arith, h.is_there),
  ground (arith, h.is_there, e),
  ground (arith, h.is_there),
  ground (arith, h.is_there),
)

fsync_handle_lem :
    (text : Bytes) (b : Aof)
    → Holds text b
    → b.buffer ≡ []
    → ((fsync_handle b).file ≡ some text)
      × ((fsync_handle b).stdio ≡ [])
      × ((fsync_handle b).buffer ≡ [])
      × ((fsync_handle b).policy ≡ b.policy)
      × ((fsync_handle b).disk ≡ text)
unfolding fsync_handle
fsync_handle_lem text b h e =
    let (f, s, n, p, d) = fflush_lem text b h e in
    rw (h.is_there, fsync_handle) (f, s, n, p, out_to_file text b h e)

sync_if_due_lem :
    (policy : FsyncPolicy) (now : ℤ) (text : Bytes) (b : Aof)
    → Holds text b
    → b.buffer ≡ []
    → b.policy ≡ policy
    → Wrote policy now b.last_fsync_ms b.disk text (sync_if_due policy now b)
unfolding sync_if_due reaches_file
sync_if_due_lem always now text b h e q =
    let (f, s, n, p, d) = fsync_handle_lem text b h e in
    record {
      holds = Holds-all text (sync_if_due always now b) f s n;
      same_policy = p ∙ q;
      no_sync = λ k. absurd cc;
      whole_file = λ k. f;
      whole_disk = λ k. d;
    }
sync_if_due_lem every_sec now text b h e q =
    let (f, s, n, p, d) = fsync_handle_lem text b h e in
    elim (Bool-cases (leb_ℤ (pos 1000) (now -ℤ b.last_fsync_ms))) [
      | inl due ↦ record {
        holds = rw (due, sync_if_due) (Holds-all text (sync_if_due always now b) f s n);
        same_policy = rw (due, sync_if_due) (p ∙ q);
        no_sync = λ k. absurd cc;
        whole_file = λ k. rw (due, sync_if_due) f;
        whole_disk = λ k. rw (due, sync_if_due) d;
      }
      | inr early ↦ record {
        holds = rw (early, sync_if_due) h;
        same_policy = rw (early, sync_if_due) q;
        no_sync = λ k. absurd cc;
        whole_file = λ k. absurd cc;
        whole_disk = λ k. absurd cc;
      }
    ]
sync_if_due_lem never now text b h e q =
    let (f, s, n, p, d) = fflush_lem text b h e in
    record {
      holds = Holds-all text (fflush b) f s n;
      same_policy = p ∙ q;
      no_sync = λ k. d;
      whole_file = λ k. f;
      whole_disk = λ k. d;
    }

-- A flush that takes the whole buffer.
pub flush_lem :
    (now : ℤ) (through : ℕ) (text : Bytes) (b : Aof)
    → Holds text b
    → (c : Aof) × (flush now (record { taken = length b.buffer; through = through }) b ≡ (true, c))
      × Wrote b.policy now b.last_fsync_ms b.disk text c
unfolding flush
flush_lem now through text b h =
    let (out, written, kept, empty, p, d, l) = write_all_lem through text b h in
    (
      sync_if_due b.policy now out,
      rw (h.is_there, written, flush),
      rw (d, l) at (sync_if_due_lem b.policy now text out kept empty p),
    )
