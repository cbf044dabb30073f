-- ===== src/Replication/Lines.antt =====
-- The lines of a full resync, as the replica reads them.
use redis_plus.Prelude.{
  ℕ, suc, ◌≡◌, ◌≢◌, refl, sym, ap, ◌∙◌, Bool, true, none, some, List, [], ◌∷◌, ◌++◌, append_assoc,
  Bytes, codes, length, All, All-map, arith,
}
use redis_plus.Prelude.Int.{ℤ, pos, negsuc}
use redis_plus.Decimal.{to_string, int_to_string}
use redis_plus.Decimal.RoundTrip.{to_string-IsDigit}
use redis_plus.Resp.Find.{cr, lf}
use redis_plus.Resp.Reply.{encode}
use redis_plus.Commands.Base.{Args}
use redis_plus.Replication.{Replication}
use redis_plus.Replication.Reader.{SyncReader, ahead, read_line_lem}
use redis_plus.Replication.Master.{full_resync_line, rdb_header}
use redis_plus.Replication.Stream.{Writer, send_command}
use redis_plus.Replication.Handshake.{expect_prefix, ask, step, handshake, after_last_space}

-- A request that the socket takes, and its answer.
pub ask_lem :
    (command : Args) (reader : SyncReader) (w : Writer) (more : List Bool) (line t : Bytes)
    → w.outcomes ≡ true ∷ more
    → All (λ c. c ≢ cr) line
    → ahead reader ≡ line ++ (cr ∷ lf ∷ t)
    → (q : SyncReader) × (v : Writer) × (ask command reader w ≡ (some (line, q), v))
      × (ahead q ≡ t)
      × (v.outcomes ≡ more)
unfolding ask send_command
ask_lem command reader w more line t up clean e =
    let (q, read, left) = read_line_lem reader line t clean e in
    (q, record { outcomes = more; sent = w.sent ++ encode command }, rw (up, read) refl, left, refl)

step_lem :
    (command : Args) (prefix : Bytes) (reader : SyncReader) (w : Writer) (more : List Bool)
    (line t : Bytes)
    → expect_prefix line prefix ≡ true
    → w.outcomes ≡ true ∷ more
    → All (λ c. c ≢ cr) line
    → ahead reader ≡ line ++ (cr ∷ lf ∷ t)
    → (q : SyncReader) × (v : Writer) × (step command prefix reader w ≡ (some q, v))
      × (ahead q ≡ t)
      × (v.outcomes ≡ more)
unfolding step
step_lem command prefix reader w more line t fits up clean e =
    let (q, v, asked, left, outcomes) = ask_lem command reader w more line t up clean e in
    (q, v, rw (asked, fits) refl, left, outcomes)

abbrev pub greetings : Bytes
greetings = codes "+PONG\r\n+OK\r\n+OK\r\n"

pub handshake_lem :
    (port : ℕ) (reader : SyncReader) (w : Writer) (more : List Bool) (t : Bytes)
    → w.outcomes ≡ true ∷ true ∷ true ∷ more
    → ahead reader ≡ greetings ++ t
    → (q : SyncReader) × (v : Writer) × (handshake port reader w ≡ (some q, v))
      × (ahead q ≡ t)
      × (v.outcomes ≡ more)
unfolding handshake expect_prefix
handshake_lem port reader w more t up e =
    let (q1, w1, s1, e1, up1) =
      step_lem (codes "PING" ∷ []) (codes "+PONG") reader w (true ∷ true ∷ more) (codes "+PONG")
        (codes "+OK\r\n+OK\r\n" ++ t) refl up (ground arith) e in
    let (q2, w2, s2, e2, up2) =
      step_lem (codes "REPLCONF" ∷ codes "listening-port" ∷ to_string port ∷ []) (codes "+OK") q1 w1
        (true ∷ more) (codes "+OK") (codes "+OK\r\n" ++ t) refl up1 (ground arith) e1 in
    let (q3, w3, s3, e3, up3) =
      step_lem (codes "REPLCONF" ∷ codes "capa" ∷ codes "psync2" ∷ []) (codes "+OK") q2 w2 more
        (codes "+OK") t refl up2 (ground arith) e2 in
    (q3, w3, rw (s1, s2, s3) refl, e3, up3)

no_space : (text : Bytes) → All (λ c. c ≢ b' ') text → after_last_space text ≡ none
unfolding after_last_space
no_space [] h = refl
no_space (c ∷ text) h = ground (arith, no_space text h.1)

-- A text without a space, behind a space, is found again.
after_last_space_lem :
    (line text : Bytes)
    → All (λ c. c ≢ b' ') text
    → after_last_space (line ++ (b' ' ∷ text)) ≡ some text
unfolding after_last_space
after_last_space_lem [] text h = ground (arith, no_space text h)
after_last_space_lem (c ∷ line) text h = rw (after_last_space_lem line text h) refl

All-append : (P : ℕ → Type 0) (xs ys : Bytes) → All P xs → All P ys → All P (xs ++ ys)
All-append P [] ys h k = k
All-append P (x ∷ xs) ys (hx, h) k = (hx, All-append P xs ys h k)

unfoldable pub full_line : Replication → Bytes
full_line r = codes "+FULLRESYNC " ++ (r.replid ++ (b' ' ∷ int_to_string r.master_offset))

digit_or_minus : (a : ℤ) → All (λ c. (c ≢ b' ') × (c ≢ cr)) (int_to_string a)
unfolding int_to_string
digit_or_minus (pos n) =
    All-map (to_string n) (λ c d. (ground (arith, d), ground (arith, d))) (to_string-IsDigit n)
digit_or_minus (negsuc n) = (
  (omega arith, omega arith),
  All-map (to_string (suc n)) (λ c d. (ground (arith, d), ground (arith, d)))
      (to_string-IsDigit (suc n)),
)

pub full_line-split :
    (r : Replication) (t : Bytes) → full_resync_line r ++ t ≡ full_line r ++ (cr ∷ lf ∷ t)
unfolding full_line
full_line-split r t = ground (
  arith,
  append_assoc r.replid (b' ' ∷ (int_to_string r.master_offset ++ codes "\r\n")) t,
  append_assoc (int_to_string r.master_offset) (codes "\r\n") t,
  append_assoc r.replid (b' ' ∷ int_to_string r.master_offset) (cr ∷ lf ∷ t),
)

pub full_line-clean :
    (r : Replication) → All (λ c. c ≢ cr) r.replid → All (λ c. c ≢ cr) (full_line r)
unfolding full_line
full_line-clean r clean =
    let digits =
      All-map (int_to_string r.master_offset) (λ c h. h.1) (digit_or_minus r.master_offset) in
    ground (
      arith,
      All-append _ r.replid (b' ' ∷ int_to_string r.master_offset) clean (ground (arith, digits)),
    )

pub offset_found :
    (r : Replication) → after_last_space (full_line r) ≡ some (int_to_string r.master_offset)
unfolding full_line
offset_found r =
    let digits =
      All-map (int_to_string r.master_offset) (λ c h. h.0) (digit_or_minus r.master_offset) in
    ap after_last_space
      (sym (append_assoc (codes "+FULLRESYNC ") r.replid (b' ' ∷ int_to_string r.master_offset)))
    ∙ after_last_space_lem (codes "+FULLRESYNC " ++ r.replid) (int_to_string r.master_offset) digits

unfoldable pub header_line : Bytes → Bytes
header_line payload = b'$' ∷ to_string (length payload)

pub header_line-split :
    (payload t : Bytes) → rdb_header payload ++ t ≡ header_line payload ++ (cr ∷ lf ∷ t)
unfolding header_line
header_line-split payload t =
    ap (λ k. b'$' ∷ k) (append_assoc (to_string (length payload)) (codes "\r\n") t)

pub header_line-clean : (payload : Bytes) → All (λ c. c ≢ cr) (header_line payload)
unfolding header_line
header_line-clean payload = (
  omega arith,
  All-map (to_string (length payload)) (λ c d. ground (arith, d))
      (to_string-IsDigit (length payload)),
)
