-- ===== src/Replication/Reader.antt =====
-- `SyncReader` of src/replication.cpp. `incoming` is what each further `read_some` on the socket
-- brings; when nothing is left, the read fails.
use redis_plus.Prelude.{
  ℕ, ◌+◌, ◌≤◌, ◌≡◌, ◌≢◌, sym, ap, ◌∙◌, false, Option, none, some, List, [], ◌∷◌, ◌++◌, append_assoc,
  append-nil, Bytes, ltb, if◌then◌else◌, length, take, drop, length-append, take-append_le,
  take-append_eq, drop-append_eq, drop-append_le, All, arith, Option-cases, Bool-cases, inl, inr,
}
use redis_plus.Resp.Find.{cr, lf, crlf, find_crlf, find_crlf-le, find_crlf-append, find_crlf_line}

pub record SyncReader : Type 0 where
  pub buffer : Bytes
  pub incoming : List Bytes

unfoldable pub read_line_from : Bytes → List Bytes → Option (Bytes × SyncReader)
read_line_from buffer [] = elim (find_crlf buffer) [
  | none ↦ none
  | some eol ↦ some (take eol buffer, record { buffer = drop (eol + 2) buffer; incoming = [] })
]
read_line_from buffer (chunk ∷ rest) =
    let filled = read_line_from (buffer ++ chunk) rest in
    elim (find_crlf buffer) [
      | none ↦ filled
      | some eol ↦
          some (take eol buffer, record { buffer = drop (eol + 2) buffer; incoming = chunk ∷ rest })
    ]

unfoldable pub read_line : SyncReader → Option (Bytes × SyncReader)
read_line r = read_line_from r.buffer r.incoming

unfoldable pub read_exact_from : ℕ → Bytes → List Bytes → Option (Bytes × SyncReader)
read_exact_from n buffer [] =
    if ltb (length buffer) n
    then none
    else some (take n buffer, record { buffer = drop n buffer; incoming = [] })
read_exact_from n buffer (chunk ∷ rest) =
    let filled = read_exact_from n (buffer ++ chunk) rest in
    if ltb (length buffer) n
    then filled
    else some (take n buffer, record { buffer = drop n buffer; incoming = chunk ∷ rest })

unfoldable pub read_exact : ℕ → SyncReader → Option (Bytes × SyncReader)
read_exact n r = read_exact_from n r.buffer r.incoming

abbrev pub joined : List Bytes → Bytes
joined [] = []
joined (chunk ∷ rest) = chunk ++ joined rest

-- all that the reader has and will get
abbrev pub ahead : SyncReader → Bytes
ahead r = r.buffer ++ joined r.incoming

-- Where the line ends is found as soon as its CRLF is there.
line_found :
    (buffer more line t : Bytes) (eol : ℕ)
    → All (λ c. c ≢ cr) line
    → buffer ++ more ≡ line ++ (cr ∷ lf ∷ t)
    → find_crlf buffer ≡ some eol
    → (take eol buffer ≡ line) × (drop (eol + 2) buffer ++ more ≡ t)
line_found buffer more line t eol clean e found =
    let fits = find_crlf-le buffer eol found in
    let here = find_crlf-append buffer more eol found in
    let there = find_crlf_line line t clean in
    let same : eol ≡ length line = ground (arith, here, there, ap find_crlf e) in
    (
      sym (take-append_le eol buffer more (omega (arith)))
          ∙ ap (take eol) e
          ∙ take-append_eq eol line (cr ∷ lf ∷ t) same,
      sym (drop-append_le (eol + 2) buffer more fits)
          ∙ ap (drop (eol + 2)) (e ∙ sym (append_assoc line crlf t))
          ∙ drop-append_eq (eol + 2) (line ++ crlf) t
              (omega (arith, same, length-append line crlf)),
    )

read_line_from_lem :
    (incoming : List Bytes) (buffer line t : Bytes)
    → All (λ c. c ≢ cr) line
    → buffer ++ joined incoming ≡ line ++ (cr ∷ lf ∷ t)
    → (r : SyncReader) × (read_line_from buffer incoming ≡ some (line, r)) × (ahead r ≡ t)
unfolding read_line_from
read_line_from_lem [] buffer line t clean e = elim (Option-cases (find_crlf buffer)) [
  | inl missing ↦
      let whole : buffer ≡ line ++ (cr ∷ lf ∷ t) = sym (append-nil buffer) ∙ e in
      absurd (ground (arith, missing, ap find_crlf whole, find_crlf_line line t clean))
  | inr (eol, found) ↦
      let (taken, left) = line_found buffer [] line t eol clean e found in
      (
        record { buffer = drop (eol + 2) buffer; incoming = [] },
        rw (found, read_line_from)
            (ap (λ k. some (k, record { buffer = drop (eol + 2) buffer; incoming = [] })) taken),
        left,
      )
]
read_line_from_lem (chunk ∷ rest) buffer line t clean e = elim (Option-cases (find_crlf buffer)) [
  | inl missing ↦
      let (r, read, left) =
        read_line_from_lem rest (buffer ++ chunk) line t clean
          (append_assoc buffer chunk (joined rest) ∙ e) in
      (r, rw (missing, read_line_from) read, left)
  | inr (eol, found) ↦
      let (taken, left) = line_found buffer (chunk ++ joined rest) line t eol clean e found in
      (
        record { buffer = drop (eol + 2) buffer; incoming = chunk ∷ rest },
        rw (found, read_line_from)
            (ap (λ k. some (k, record { buffer = drop (eol + 2) buffer; incoming = chunk ∷ rest }))
              taken),
        left,
      )
]

-- A line is read however its bytes come in.
pub read_line_lem :
    (r : SyncReader) (line t : Bytes)
    → All (λ c. c ≢ cr) line
    → ahead r ≡ line ++ (cr ∷ lf ∷ t)
    → (q : SyncReader) × (read_line r ≡ some (line, q)) × (ahead q ≡ t)
unfolding read_line
read_line_lem r line t clean e = read_line_from_lem r.incoming r.buffer line t clean e

read_exact_from_lem :
    (n : ℕ) (incoming : List Bytes) (buffer s t : Bytes)
    → n ≡ length s
    → buffer ++ joined incoming ≡ s ++ t
    → (r : SyncReader) × (read_exact_from n buffer incoming ≡ some (s, r)) × (ahead r ≡ t)
unfolding read_exact_from
read_exact_from_lem n [] buffer s t size e =
    let whole : buffer ≡ s ++ t = sym (append-nil buffer) ∙ e in
    let enough : ltb (length buffer) n ≡ false =
      ground (arith, ap length whole, length-append s t) in
    (
      record { buffer = drop n buffer; incoming = [] },
      rw enough (
          ap (λ k. some (k, record { buffer = drop n buffer; incoming = [] }))
            (ap (take n) whole ∙ take-append_eq n s t size)),
      append-nil (drop n buffer) ∙ ap (drop n) whole ∙ drop-append_eq n s t size,
    )
read_exact_from_lem n (chunk ∷ rest) buffer s t size e = elim (Bool-cases (ltb (length buffer) n)) [
  | inl short ↦
      let (r, read, left) =
        read_exact_from_lem n rest (buffer ++ chunk) s t size
          (append_assoc buffer chunk (joined rest) ∙ e) in
      (r, rw short read, left)
  | inr enough ↦
      let more = chunk ++ joined rest in
      let fits : n ≤ length buffer = ground arith in
      (
        record { buffer = drop n buffer; incoming = chunk ∷ rest },
        rw enough (
            ap (λ k. some (k, record { buffer = drop n buffer; incoming = chunk ∷ rest }))
              (sym (take-append_le n buffer more fits)
                ∙ ap (take n) e
                ∙ take-append_eq n s t size)),
        sym (drop-append_le n buffer more fits) ∙ ap (drop n) e ∙ drop-append_eq n s t size,
      )
]

-- So is a payload of a known length.
pub read_exact_lem :
    (n : ℕ) (r : SyncReader) (s t : Bytes)
    → n ≡ length s
    → ahead r ≡ s ++ t
    → (q : SyncReader) × (read_exact n r ≡ some (s, q)) × (ahead q ≡ t)
unfolding read_exact
read_exact_lem n r s t size e = read_exact_from_lem n r.incoming r.buffer s t size e
