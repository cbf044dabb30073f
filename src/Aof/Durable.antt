-- ===== src/Aof/Durable.antt =====
-- From commands to the file and back: rounds of `Aof::append` and `Aof::flush`, and `Aof::replay`.
use redis_plus.Prelude.{
  ◌≡◌, refl, ap, ◌∙◌, sym, ℕ, Bool, true, false, some, List, [], ◌∷◌, ◌++◌, append_assoc,
  append-nil, ◌<◌, Bytes, length, if◌then◌else◌, arith,
}
use redis_plus.Prelude.Int.{ℤ, two_64}
use redis_plus.Resp.{parse_request}
use redis_plus.Resp.Reply.{encode}
use redis_plus.Commands.Base.{Args}
use redis_plus.Handler.Pipeline.{encode_all, AreSendable}
use redis_plus.Aof.{Aof, flush, FsyncPolicy, replay, done}
use redis_plus.Aof.Replay.{apply_all, replay-encode_all}
use redis_plus.Aof.Flush.{
  append_all, reaches_file, syncs, Holds, Wrote, Holds-append_all, Holds-all, flush_lem,
}

-- One turn of the event loop: commands are appended, then the log is flushed at a time, when the C
-- library hands so many bytes to the operating system by itself.
pub record Turn : Type 0 where
  pub commands : List Args
  pub now : ℤ
  pub through : ℕ

-- every byte of the buffer is taken
unfoldable pub turn : Turn → Aof → Bool × Aof
turn t a =
    let b = append_all t.commands a in
    flush t.now (record { taken = length b.buffer; through = t.through }) b

unfoldable pub turns : List Turn → Aof → Aof
turns [] a = a
turns (t ∷ rest) a = turns rest (turn t a).1

unfoldable pub commands_of : List Turn → List Args
commands_of [] = []
commands_of (t ∷ rest) = t.commands ++ commands_of rest

turn_lem :
    (text : Bytes) (t : Turn) (a : Aof)
    → AreSendable t.commands
    → Holds text a
    → (c : Aof) × (turn t a ≡ (true, c))
      × Wrote a.policy t.now a.last_fsync_ms a.disk (text ++ encode_all t.commands) c
unfolding turn
turn_lem text t a s h =
    let (b, e, held, p, d, l) = Holds-append_all text t.commands a s h in
    let (c, flushed, wrote) = flush_lem t.now t.through (text ++ encode_all t.commands) b held in
    (c, rw e at flushed, rw (p, d, l) at wrote)

encode_all-append : (xs ys : List Args) → encode_all (xs ++ ys) ≡ encode_all xs ++ encode_all ys
unfolding encode_all
encode_all-append [] ys = refl
encode_all-append (x ∷ xs) ys =
    ap (λ k. encode x ++ k) (encode_all-append xs ys)
    ∙ sym (append_assoc (encode x) (encode_all xs) (encode_all ys))

AreSendable-append : (xs ys : List Args) → AreSendable (xs ++ ys) → AreSendable xs × AreSendable ys
AreSendable-append [] ys s = (tt, s)
AreSendable-append (x ∷ xs) ys (s, ss) =
    let (here, there) = AreSendable-append xs ys ss in ((s, here), there)

-- a log that held nothing before, after turns: `text` is what it holds
record Ran (text : Bytes) (a c : Aof) : Type 0 where
  holds : Holds text c
  same_policy : c.policy ≡ a.policy
  no_sync : syncs a.policy ≡ false → c.disk ≡ a.disk

turns_lem :
    (text : Bytes) (ts : List Turn) (a : Aof)
    → AreSendable (commands_of ts)
    → Holds text a
    → Ran (text ++ encode_all (commands_of ts)) a (turns ts a)
unfolding turns commands_of encode_all
turns_lem text [] a s h = record {
  holds = rw append-nil h;
  same_policy = refl;
  no_sync = λ k. refl;
}
turns_lem text (t ∷ ts) a s h =
    let (here, there) = AreSendable-append t.commands (commands_of ts) s in
    let (c, e, wrote) = turn_lem text t a here h in
    let ran = turns_lem (text ++ encode_all t.commands) ts c there wrote.holds in
    let same : (turn t a).1 ≡ c = ap (λ (r : Bool × Aof). r.1) e in
    let whole =
      append_assoc text (encode_all t.commands) (encode_all (commands_of ts))
      ∙ ap (λ k. text ++ k) (sym (encode_all-append t.commands (commands_of ts))) in
    rw same (record {
      holds = rw whole at ran.holds;
      same_policy = ran.same_policy ∙ wrote.same_policy;
      no_sync = λ k. ran.no_sync (ap syncs wrote.same_policy ∙ k) ∙ wrote.no_sync k;
    })

-- what is on the disk in the end, by the policy
disk_after :
    {policy q : FsyncPolicy} {disk disk1 disk2 text all : Bytes}
    → disk2 ≡ (if syncs q then text else disk1)
    → q ≡ policy
    → text ≡ all
    → (syncs policy ≡ false → disk1 ≡ disk)
    → disk2 ≡ (if syncs policy then all else disk)
disk_after {policy} h p t quiet = let k = rw p at h in ground (arith, quiet, t, k)

-- A log that is open with nothing in it takes turns of the event loop, each at any time and with
-- any commands appended and then flushed, every byte being taken: after them the file, what the C
-- library holds and the buffer are together exactly the encoded commands in order. If the flush
-- of one turn more leaves nothing with the C library (the policy is always or no, or a second has
-- passed since the last fsync), it succeeds, the file replays as exactly the commands of all the
-- turns in order, with nothing torn, and what fsync has put on the disk is that file, or what was
-- there before the turns if the policy is no. The commands are within the limits and fewer than 2
-- ^ 64.
pub replay-flush :
    {W : Type 0} (apply : Args → W → W) (earlier : List Turn) (last : Turn) (a : Aof) (w : W)
    → AreSendable (commands_of earlier ++ last.commands)
    → length (commands_of earlier ++ last.commands) < two_64
    → a.file ≡ some []
    → a.stdio ≡ []
    → a.buffer ≡ []
    → reaches_file a.policy last.now (turns earlier a).last_fsync_ms ≡ true
    → let all = commands_of earlier ++ last.commands in
      (held : Bytes) × ((turns earlier a).file ≡ some held)
      × (held ++ ((turns earlier a).stdio ++ (turns earlier a).buffer)
          ≡ encode_all (commands_of earlier))
      × (c : Aof) × (turn last (turns earlier a) ≡ (true, c))
      × (replay apply c.file w ≡ some (done (length all) 0 (apply_all apply all w)))
      × (c.disk ≡ (if syncs a.policy then encode_all all else a.disk))
replay-flush apply earlier last a w s count fresh nothing clean due =
    let all = commands_of earlier ++ last.commands in
    let (before, now) = AreSendable-append (commands_of earlier) last.commands s in
    let ran = turns_lem [] earlier a before (Holds-all [] a fresh nothing clean) in
    let (c, e, wrote) =
      turn_lem (encode_all (commands_of earlier)) last (turns earlier a) now ran.holds in
    let reached =
      ap (λ q. reaches_file q last.now (turns earlier a).last_fsync_ms) ran.same_policy ∙ due in
    let text = sym (encode_all-append (commands_of earlier) last.commands) in
    let file : c.file ≡ some (encode_all all ++ []) =
      wrote.whole_file reached ∙ ap some (text ∙ sym (append-nil (encode_all all))) in
    (
      ran.holds.held,
      ran.holds.is_there,
      ran.holds.whole,
      c,
      e,
      rw file (replay-encode_all apply all [] w s (unfold parse_request in refl) count),
      disk_after (wrote.whole_disk reached) ran.same_policy text ran.no_sync,
    )
