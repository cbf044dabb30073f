-- ===== src/Decimal/RoundTrip.antt =====
-- What is printed is read back.
use native.Mathlib.Nat.{pow-suc}
use redis_plus.Prelude.{
  Bool-cases, ltb-false, inl, inr, ◌∙◌, ℕ, zero, suc, ◌+◌, ◌/◌, ◌%◌, ◌^◌, ◌≤◌, ◌<◌, ◌≡◌, refl, some,
  [], ◌∷◌, Bytes, ltb, length, All, arith,
}
use redis_plus.Prelude.Int.{ℤ, pos, negsuc, neg, max_i64, pos_part, neg_part}
use redis_plus.Decimal.{print_digits, to_string, int_to_string, scan_digits, parse_int, to_int64}

abbrev pub IsDigit : ℕ → Type 0
IsDigit c = (b'0' ≤ c) × (c ≤ b'9')

scan_last :
    (n : ℕ) (out : Bytes)
    → n ≤ max_i64
    → scan_digits (n / 10) ((b'0' + n % 10) ∷ out) ≡ scan_digits n out
unfolding scan_digits
scan_last n out h = ground arith

scan_first : (n : ℕ) (out : Bytes) → n < 10 → scan_digits 0 ((b'0' + n) ∷ out) ≡ scan_digits n out
unfolding scan_digits
scan_first n out h = ground arith

-- With more fuel than the number no digit is lost.
pub scan-print_digits :
    (fuel n : ℕ) (out : Bytes)
    → n < fuel
    → n ≤ max_i64
    → scan_digits 0 (print_digits fuel n out) ≡ scan_digits n out
unfolding print_digits
scan-print_digits zero n out h fits = absurd (omega arith)
scan-print_digits (suc fuel) n out h fits = ground (
  arith,
  scan_first n out,
  scan_last n out fits,
  scan-print_digits fuel (n / 10) ((b'0' + n % 10) ∷ out),
)

pub print_digits-IsDigit :
    (fuel n : ℕ) (out : Bytes) → All IsDigit out → All IsDigit (print_digits fuel n out)
unfolding print_digits
print_digits-IsDigit zero n out h = h
print_digits-IsDigit (suc fuel) n out h =
    ground (arith, print_digits-IsDigit fuel (n / 10) ((b'0' + n % 10) ∷ out))

-- A number of at most `k` digits prints as at most `k` bytes.
pub length-print_digits :
    (k fuel n : ℕ) (out : Bytes)
    → n < 10 ^ suc k
    → length (print_digits fuel n out) ≤ length out + suc k
unfolding print_digits
length-print_digits k zero n out h = omega arith
length-print_digits zero (suc fuel) n out h = ground arith
length-print_digits (suc k) (suc fuel) n out h = ground (
  arith,
  length-print_digits k fuel (n / 10) ((b'0' + n % 10) ∷ out) (omega (arith, pow-suc 10 (suc k))),
)

print_digits-cons :
    (fuel n c : ℕ) (out : Bytes)
    → IsDigit c
    → (d : ℕ) × (s : Bytes) × (print_digits fuel n (c ∷ out) ≡ d ∷ s) × IsDigit d
unfolding print_digits
print_digits-cons zero n c out h = (c, out, refl, h)
print_digits-cons (suc fuel) n c out h = elim (Bool-cases (ltb n 10)) [
  | inl small ↦ (b'0' + n, c ∷ out, rw small, ground arith)
  | inr large ↦
      let (d, s, e, hd) = print_digits-cons fuel (n / 10) (b'0' + n % 10) (c ∷ out) (omega arith) in
      (d, s, rw large e, hd)
]

-- The print of a number begins with a digit.
pub to_string-cons : (n : ℕ) → (c : ℕ) × (s : Bytes) × (to_string n ≡ c ∷ s) × IsDigit c
unfolding to_string print_digits
to_string-cons n = elim (Bool-cases (ltb n 10)) [
  | inl small ↦ (b'0' + n, [], rw small, ground arith)
  | inr large ↦
      let (d, s, e, hd) = print_digits-cons n (n / 10) (b'0' + n % 10) [] (omega arith) in
      (d, s, rw large e, hd)
]

pub to_string-IsDigit : (n : ℕ) → All IsDigit (to_string n)
unfolding to_string
to_string-IsDigit n = print_digits-IsDigit (suc n) n [] tt

pub scan-to_string : (n : ℕ) → n ≤ max_i64 → scan_digits 0 (to_string n) ≡ some n
unfolding to_string scan_digits
scan-to_string n h = ground (arith, scan-print_digits (suc n) n [])

pub parse_int-to_string : (n : ℕ) → n ≤ max_i64 → parse_int (to_string n) ≡ some (pos n)
unfolding parse_int
parse_int-to_string n h =
    let (c, s, e, hc) = to_string-cons n in
    let whole = rw e at (scan-to_string n h) in rw e (ground arith)

parse_int_minus : (n : ℕ) → n ≤ max_i64 → parse_int (b'-' ∷ to_string n) ≡ some (neg (pos n))
unfolding parse_int
parse_int_minus n h =
    let (c, s, e, hc) = to_string-cons n in
    let whole = rw e at (scan-to_string n h) in rw e (ground arith)

pub length-int_to_string :
    (a : ℤ) → pos_part a ≤ max_i64 → neg_part a ≤ max_i64 → length (int_to_string a) ≤ 20
unfolding int_to_string to_string
length-int_to_string (pos n) p q = omega (arith, length-print_digits 18 (suc n) n [])
length-int_to_string (negsuc n) p q = omega (arith, length-print_digits 18 (suc (suc n)) (suc n) [])

pub parse_int-int_to_string :
    (a : ℤ) → pos_part a ≤ max_i64 → neg_part a ≤ max_i64 → parse_int (int_to_string a) ≡ some a
unfolding int_to_string
parse_int-int_to_string (pos n) p q = parse_int-to_string n p
parse_int-int_to_string (negsuc n) p q = parse_int_minus (suc n) q ∙ ground arith

-- Every int64 but the smallest is read back by to_int64 from the text that std::to_string prints.
pub to_int64-int_to_string :
    (a : ℤ) → pos_part a ≤ max_i64 → neg_part a ≤ max_i64 → to_int64 (int_to_string a) ≡ some a
unfolding to_int64
to_int64-int_to_string a p q =
    rw (ltb-false _ _ (length-int_to_string a p q)) (parse_int-int_to_string a p q)
