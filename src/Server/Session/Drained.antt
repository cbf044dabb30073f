-- ===== src/Server/Session/Drained.antt =====
-- A session whose writes succeed.
use redis_plus.Prelude.{
  ℕ, ◌≡◌, refl, sym, ap, ◌∙◌, true, false, Option, none, some, [], ◌∷◌, ◌++◌, append-nil, Bytes,
  length, length-drop, drop, arith, Option-cases, inl, inr,
}
use redis_plus.Buffer
use redis_plus.Buffer.{Buffer, readable, size}
use redis_plus.Buffer.Queue.{readable-consume}
use redis_plus.Server.{ServerConfig}
use redis_plus.Server.Session.{Session, Shared, flush, on_written, taken}
use redis_plus.Server.Session.Order.{closed-flush, pending-flush, out-flush}
use redis_plus.Server.Session.Runs.{Touches, on_written-busy}
use redis_plus.Server.Session.Wire.{Run, writes, Run-Sound}

no_bytes : (s : Bytes) → length s ≡ 0 → s ≡ []
no_bytes [] h = refl
no_bytes (c ∷ s) h = absurd (omega (arith, h))

module _ {W : Type 0} (config : ServerConfig) (on_disconnect : W → W)
    (on_data : Shared W → ℕ × Shared W)
    (law : (s : Shared W)
      → (bytes : Bytes) × Touches config on_disconnect s bytes (on_data s).1) where
  -- the write in flight, if there is one, is completed
  abbrev finish_with : Option ℕ → Shared W → Shared W
  finish_with none s = s
  finish_with (some n) s = on_written config on_disconnect false n s

  abbrev pub finish : Shared W → Shared W
  finish s = finish_with s.session.writing s

  finish-idle : (s : Shared W) → s.session.writing ≡ none → finish s ≡ s
  finish-idle s idle = ap (λ o. finish_with o s) idle

  finish-busy :
      (s : Shared W) (n : ℕ)
      → s.session.writing ≡ some n
      → finish s ≡ on_written config on_disconnect false n s
  finish-busy s n busy = ap (λ o. finish_with o s) busy

  Live : Bytes → Shared W → Type 0
  Live handed s = Run config on_disconnect on_data law true handed s × (s.session.closed ≡ false)

  -- the session after a write of `n` bytes, before the next
  abbrev cleared : ℕ → Shared W → Session
  cleared n s = record (taken config on_disconnect n s).session {
    out = Buffer.consume n s.session.out;
  }

  written_session :
      (s : Shared W) (n : ℕ) → s.session.writing ≡ some n → (finish s).session ≡ flush (cleared n s)
  written_session s n busy =
      ap (λ (t : Shared W). t.session)
        (finish-busy s n busy ∙ on_written-busy config on_disconnect false n n s busy)

  Live-finish : (handed : Bytes) (s : Shared W) → Live handed s → Live handed (finish s)
  unfolding Live
  Live-finish handed s (run, up) = elim (Option-cases s.session.writing) [
    | inl idle ↦ rw (finish-idle s idle) (run, up)
    | inr (n, busy) ↦ (
      rw (finish-busy s n busy) (writes n busy run),
      ap (λ (t : Session). t.closed) (written_session s n busy) ∙ closed-flush (cleared n s) ∙ up,
    )
  ]

  Empties : Shared W → Type 0
  Empties s = (readable s.session.out ≡ []) × (readable s.session.pending ≡ [])

  idle-Empties :
      (handed : Bytes) (s : Shared W) → Live handed s → s.session.writing ≡ none → Empties s
  unfolding Live Empties
  idle-Empties handed s (run, up) idle =
      (Run-Sound config on_disconnect on_data law run).1.idle up idle

  pending-finish :
      (handed : Bytes) (s : Shared W) → Live handed s → readable (finish s).session.pending ≡ []
  unfolding Empties
  pending-finish handed s l = elim (Option-cases s.session.writing) [
    | inl idle ↦
        ap (λ (t : Shared W). readable t.session.pending) (finish-idle s idle)
        ∙ (idle-Empties handed s l idle).1
    | inr (n, busy) ↦
        ap (λ (t : Session). readable t.pending) (written_session s n busy)
        ∙ pending-flush (cleared n s) refl
  ]

  out-finish :
      (handed : Bytes) (s : Shared W)
      → Live handed s
      → readable s.session.pending ≡ []
      → readable (finish s).session.out ≡ []
  unfolding Live Empties
  out-finish handed s (run, up) nothing = elim (Option-cases s.session.writing) [
    | inl idle ↦
        ap (λ (t : Shared W). readable t.session.out) (finish-idle s idle)
        ∙ (idle-Empties handed s (run, up) idle).0
    | inr (n, busy) ↦
        let k = (Run-Sound config on_disconnect on_data law run).0 in
        let whole = k.same_chunk n busy in
        ap (λ (t : Session). readable t.out) (written_session s n busy)
        ∙ out-flush (cleared n s) refl nothing
        ∙ readable-consume n s.session.out k.out_valid
        ∙ no_bytes (drop n (readable s.session.out))
            (omega (arith, length-drop n (readable s.session.out)))
  ]

  -- A session that is open and whose writes have all succeeded so far has every byte that was
  -- handed to it on the wire after two more writes succeed. The handler touches the session only
  -- by replies, sends, closing and taking input.
  pub wire-finish :
      (handed : Bytes) (s : Shared W)
      → Run config on_disconnect on_data law true handed s
      → s.session.closed ≡ false
      → (finish (finish s)).session.wire ≡ handed
  unfolding Live
  wire-finish handed s run up =
      let t = finish s in
      let l = Live-finish handed s (run, up) in
      let (run2, up2) = Live-finish handed t l in
      let k = (Run-Sound config on_disconnect on_data law run2).0 in
      let no_out = out-finish handed t l (pending-finish handed s (run, up)) in
      let no_pending = pending-finish handed t l in
      sym (append-nil (finish t).session.wire)
      ∙ ap (λ a. (finish t).session.wire ++ (a ++ [])) (sym no_out)
      ∙ ap (λ a. (finish t).session.wire ++ (readable (finish t).session.out ++ a)) (sym no_pending)
      ∙ k.queued refl
