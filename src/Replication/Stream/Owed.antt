-- ===== src/Replication/Stream/Owed.antt =====
-- A part of a stream of commands: what the loop over whole requests leaves to do.
use redis_plus.Prelude.{
  ℕ, zero, suc, ◌<◌, ◌≡◌, ◌≢◌, refl, sym, ap, ◌∙◌, Bool, Option, some, List, [], ◌∷◌, ◌++◌,
  append_assoc, append-nil, Bytes, length, length-append, length-drop, drop, drop-append_le,
  drop-append_eq, arith, if◌then◌else◌,
}
use redis_plus.Prelude.Int.{ℤ, pos, ◌+ℤ◌}
use redis_plus.Resp.{ParseResult, parse_request, ok, incomplete, error}
use redis_plus.Resp.Prefix.{parse_request-append, parse_request_bounds}
use redis_plus.Resp.Reply.{encode}
use redis_plus.Resp.RoundTrip.{parse_request-encode}
use redis_plus.Commands.Base.{Args}
use redis_plus.Handler.Pipeline.{encode_all, AreSendable}
use redis_plus.Replication.Master.Sent.{advance}
use redis_plus.Replication.Stream.{Task, apply, Streaming, send_ack, is_applied, on_request, drain}

-- the tasks that a list of commands stands for
abbrev pub tasks_of : Bool → List Args → List Task
tasks_of has_apply [] = []
tasks_of has_apply (args ∷ rest) =
    let later = tasks_of has_apply rest in
    if is_applied has_apply args then apply args ∷ later else later

-- What is left to do: the commands `rest`, of which `more` is still on the way, from `commands` at `t`.
pub record Owes (has_apply : Bool) (more : Bytes) (commands : List Args) (t u : Streaming)
    : Type 0 where
  pub rest : List Args
  pub sendable : AreSendable rest
  pub bytes : u.stream ++ more ≡ encode_all rest
  pub tasks : u.posted ++ tasks_of has_apply rest ≡ t.posted ++ tasks_of has_apply commands
  pub offset : advance u.replica_offset rest ≡ advance t.replica_offset commands

posted-on_request :
    (has_apply : Bool) (n : ℕ) (args : Args) (t : Streaming) (later : List Args)
    → (on_request has_apply n args t).posted ++ tasks_of has_apply later
      ≡ t.posted ++ tasks_of has_apply (args ∷ later)
unfolding on_request send_ack is_applied
posted-on_request has_apply n [] t later = refl
posted-on_request has_apply n (name ∷ args) t later =
    ground (arith, append_assoc t.posted (apply (name ∷ args) ∷ []) (tasks_of has_apply later))

offset-on_request :
    (has_apply : Bool) (n : ℕ) (args : Args) (t : Streaming)
    → (on_request has_apply n args t).replica_offset ≡ t.replica_offset +ℤ pos n
unfolding on_request send_ack
offset-on_request has_apply n args t = ground arith

-- A whole request at the front of what the commands encode to is the first of them.
first_of :
    (s more : Bytes) (n : ℕ) (args : Args) (commands : List Args)
    → parse_request s ≡ ok n args
    → AreSendable commands
    → s ++ more ≡ encode_all commands
    → (rest : List Args) × (commands ≡ args ∷ rest)
      × (n ≡ length (encode args))
      × (drop n s ++ more ≡ encode_all rest)
unfolding encode_all
first_of s more n args [] read sendable e =
    let (le, lt) = parse_request_bounds s n args read in
    absurd (omega (arith, ap length e, length-append s more))
first_of s more n args (c ∷ rest) read ((small, ne), sendable) e =
    let (le, lt) = parse_request_bounds s n args read in
    let stays = (parse_request-append s more n args read).0 in
    let front : parse_request (s ++ more) ≡ ok (length (encode c)) c =
      rw e (parse_request-encode c (encode_all rest) small) in
    let same : (n ≡ length (encode c)) × (args ≡ c) = ground (arith, stays, front) in
    (
      rest,
      ground (arith, same.1),
      ground (arith, same.0, same.1),
      sym (drop-append_le n s more le)
          ∙ ap (drop n) e
          ∙ drop-append_eq n (encode c) (encode_all rest) same.0,
    )

-- Nothing more to come: commands that are left are whole.
whole_first :
    (commands : List Args) (s : Bytes)
    → AreSendable commands
    → s ≡ encode_all commands
    → ((n : ℕ) (args : Args) → parse_request s ≢ ok n args)
    → s ≡ []
unfolding encode_all
whole_first [] s sendable e stuck = e
whole_first (c ∷ rest) s ((small, ne), sendable) e stuck =
    absurd (stuck (length (encode c)) c (rw e (parse_request-encode c (encode_all rest) small)))

-- The loop stops here.
Owes-here :
    (has_apply : Bool) (s more : Bytes) (commands : List Args) (t : Streaming)
    → AreSendable commands
    → s ++ more ≡ encode_all commands
    → ((n : ℕ) (args : Args) → parse_request s ≢ ok n args)
    → Owes has_apply more commands t (record t { stream = s }) × (more ≡ [] → s ≡ [])
Owes-here has_apply s more commands t sendable e stuck = (
  record { rest = commands; sendable = sendable; bytes = e; tasks = refl; offset = refl },
  λ last.
      whole_first commands s sendable (sym (append-nil s) ∙ ap (λ k. s ++ k) (sym last) ∙ e) stuck,
)

-- One request done.
Owes-on_request :
    (has_apply : Bool) (n : ℕ) (args : Args) (more : Bytes) (rest : List Args) (t u : Streaming)
    → n ≡ length (encode args)
    → Owes has_apply more rest (on_request has_apply n args t) u
    → Owes has_apply more (args ∷ rest) t u
Owes-on_request has_apply n args more rest t u e o = record {
  rest = o.rest;
  sendable = o.sendable;
  bytes = o.bytes;
  tasks = o.tasks ∙ posted-on_request has_apply n args t rest;
  offset =
      o.offset
      ∙ ap (λ (k : ℤ). advance k rest)
          (offset-on_request has_apply n args t ∙ ap (λ k. t.replica_offset +ℤ pos k) e);
}

abbrev pub Drained : Bool → Bytes → List Args → Streaming → Option Streaming → Type 0
Drained has_apply more commands t result =
    (u : Streaming) × (result ≡ some u)
    × Owes has_apply more commands t u
    × (more ≡ [] → u.stream ≡ [])

pub drain-Owes :
    (has_apply : Bool) (fuel : ℕ) (s more : Bytes) (commands : List Args) (t : Streaming)
    → AreSendable commands
    → s ++ more ≡ encode_all commands
    → length s < fuel
    → Drained has_apply more commands t (drain has_apply fuel s t)
unfolding drain
drain-Owes has_apply zero s more commands t sendable e h = absurd (omega arith)
drain-Owes has_apply (suc fuel) s more commands t sendable e h =
    by_result (drain-Owes has_apply fuel) (parse_request s) refl
  where
    by_result :
        ((s1 more1 : Bytes) (commands1 : List Args) (t1 : Streaming)
          → AreSendable commands1
          → s1 ++ more1 ≡ encode_all commands1
          → length s1 < fuel
          → Drained has_apply more1 commands1 t1 (drain has_apply fuel s1 t1))
        → (r : ParseResult) → parse_request s ≡ r
        → Drained has_apply more commands t (drain has_apply (suc fuel) s t)
    by_result ih incomplete r =
        let here = Owes-here has_apply s more commands t sendable e (λ n args k. cc (r, k)) in
        (record t { stream = s }, rw (r, drain) refl, here.0, here.1)
    by_result ih (error message) r =
        let here = Owes-here has_apply s more commands t sendable e (λ n args k. cc (r, k)) in
        (record t { stream = s }, rw (r, drain) refl, here.0, here.1)
    by_result ih (ok n args) r =
        let (rest, split, size, behind) = first_of s more n args commands r sendable e in
        let (le, lt) = parse_request_bounds s n args r in
        let (u, done, o, last) =
          ih (drop n s) more rest (on_request has_apply n args t) (rw split at sendable).1 behind
            (omega (arith, length-drop n s)) in
        (
          u,
          rw (r, drain) done,
          rw split (Owes-on_request has_apply n args more rest t u size o),
          last,
        )
