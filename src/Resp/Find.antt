-- ===== src/Resp/Find.antt =====
-- `in.find("\r\n")`.
use redis_plus.Prelude.{
  ℕ, zero, suc, ◌+◌, ◌≤◌, ◌≡◌, refl, ◌≢◌, ◌&&◌, Option, none, some, [], ◌∷◌, ◌++◌, Bytes, ◌==◌,
  if◌then◌else◌, length, All, arith,
}

abbrev pub cr : ℕ
cr = b'\r'

abbrev pub lf : ℕ
lf = b'\n'

abbrev pub crlf : Bytes
crlf = cr ∷ lf ∷ []

abbrev one_more : Option ℕ → Option ℕ
one_more none = none
one_more (some n) = some (suc n)

unfoldable pub find_crlf : Bytes → Option ℕ
find_crlf [] = none
find_crlf (c ∷ []) = none
find_crlf (c ∷ d ∷ s) =
    let later = one_more (find_crlf (d ∷ s)) in if c == cr && d == lf then some 0 else later

-- The line found and its CRLF are within the text.
pub find_crlf-le : (s : Bytes) (n : ℕ) → find_crlf s ≡ some n → n + 2 ≤ length s
unfolding find_crlf
find_crlf-le [] n h = cc
find_crlf-le (c ∷ []) n h = cc
find_crlf-le (c ∷ d ∷ s) zero h = omega arith
find_crlf-le (c ∷ d ∷ s) (suc n) h = ground (arith, find_crlf-le (d ∷ s) n)

-- More bytes behind do not move the line that was found.
pub find_crlf-append : (s t : Bytes) (n : ℕ) → find_crlf s ≡ some n → find_crlf (s ++ t) ≡ some n
unfolding find_crlf
find_crlf-append [] t n h = cc
find_crlf-append (c ∷ []) t n h = cc
find_crlf-append (c ∷ d ∷ s) t zero h = ground (arith)
find_crlf-append (c ∷ d ∷ s) t (suc n) h = ground (arith, find_crlf-append (d ∷ s) t n)

-- A line that holds no CR ends at the CRLF behind it.
pub find_crlf_line :
    (line t : Bytes) → All (λ c. c ≢ cr) line → find_crlf (line ++ cr ∷ lf ∷ t) ≡ some (length line)
unfolding find_crlf
find_crlf_line [] t h = refl
find_crlf_line (c ∷ []) t h = ground arith
find_crlf_line (c ∷ d ∷ line) t h = ground (arith, find_crlf_line (d ∷ line) t h.1)
