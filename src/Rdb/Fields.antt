-- ===== src/Rdb/Fields.antt =====
-- The fields that `put_u64_le`, `put_length` and `put_string` write, read back by the reader.
use redis_plus.Prelude.{
  ℕ, zero, suc, ◌+◌, ◌-◌, ◌*◌, ◌/◌, ◌%◌, ◌^◌, ◌≤◌, ◌<◌, ◌≡◌, refl, ap, ◌∙◌, true, [], ◌∷◌, ◌++◌,
  append_assoc, Bytes, ltb, leb, length, take, drop, length-append, length-drop, drop-append_left,
  take-append_left, arith, Bool-cases, inl, inr,
}
use redis_plus.Prelude.Int.{two_64}
use redis_plus.Rdb.Write.{shift_right, put_le, put_be, put_length, put_string}
use redis_plus.Rdb.Reader.{
  Reader, u8, read_le, read_be, shift_left, plain, read_length, length_after, str, str_of,
  plain_string,
}

-- a reader that has not failed
abbrev pub at_position : Bytes → ℕ → Reader
at_position bytes position = record { bytes = bytes; position = position; ok = true; error = [] }

-- Wherever the bytes `field` stand, `read` gives `a` and moves behind them.
abbrev pub Reads : {A : Type 0} → (Reader → A × Reader) → Bytes → A → Type 0
Reads read field a =
    (bytes : Bytes) (position : ℕ) (t : Bytes)
    → length bytes < two_64
    → drop position bytes ≡ field ++ t
    → read (at_position bytes position) ≡ (a, at_position bytes (position + length field))

drop-nil : (n : ℕ) → drop {A = ℕ} n [] ≡ []
drop-nil zero = refl
drop-nil (suc n) = refl

drop-add : (a b : ℕ) (xs : Bytes) → drop (a + b) xs ≡ drop b (drop a xs)
drop-add zero b xs = ground arith
drop-add (suc a) b [] = ground (arith, drop-nil b, drop-nil (suc a + b))
drop-add (suc a) b (x ∷ xs) =
    let moved : suc a + b ≡ suc (a + b) = omega arith in rw moved (drop-add a b xs)

-- Behind a field stands what stood behind it.
pub drop_past :
    (bytes : Bytes) (position : ℕ) (field t : Bytes)
    → drop position bytes ≡ field ++ t
    → drop (position + length field) bytes ≡ t
drop_past bytes position field t e =
    drop-add position (length field) bytes ∙ rw e (drop-append_left field t)

-- Two fields, one behind the other.
pub Reads-two :
    {A B : Type 0} (f : Reader → A × Reader) (g : Reader → B × Reader) (field more : Bytes) (x : A)
    (y : B)
    → Reads f field x
    → Reads g more y
    → (bytes : Bytes) (position : ℕ) (t : Bytes) → length bytes < two_64
    → drop position bytes ≡ (field ++ more) ++ t
    → (f (at_position bytes position) ≡ (x, at_position bytes (position + length field)))
      × (g (at_position bytes (position + length field))
          ≡ (y, at_position bytes (position + length (field ++ more))))
Reads-two f g field more x y reads_x reads_y bytes position t b e =
    let split : drop position bytes ≡ field ++ (more ++ t) = e ∙ append_assoc field more t in
    let moved : position + length field + length more ≡ position + length (field ++ more) =
      omega (arith, length-append field more) in
    (
      reads_x bytes position (more ++ t) b split,
      reads_y bytes (position + length field) t b (drop_past bytes position field (more ++ t) split)
          ∙ ap (λ k. (y, at_position bytes k)) moved,
    )

pub u8-Reads : (c : ℕ) → Reads u8 (c ∷ []) c
unfolding u8
u8-Reads c bytes position t b e = rw (e, u8) refl

read_be-put_be : (n v : ℕ) → Reads (read_be n (shift_right n v)) (put_be n v) v
unfolding read_be put_be shift_right
read_be-put_be zero v bytes position t b e = ground arith
read_be-put_be (suc n) v bytes position t b e =
    let w = shift_right n v in
    let c = w % 256 in
    let step = u8-Reads c bytes position (put_be n v ++ t) b e in
    let rest =
      read_be-put_be n v bytes (position + 1) t b
        (drop_past bytes position (c ∷ []) (put_be n v ++ t) e) in
    let same : w / 256 * 256 + w % 256 ≡ w = omega arith in rw step (rw same (ground (arith, rest)))

-- What byte `i` of a number adds when it is read.
shift_left-add : (i a b : ℕ) → shift_left i (a + b) ≡ shift_left i a + shift_left i b
unfolding shift_left
shift_left-add zero a b = refl
shift_left-add (suc i) a b = omega (arith, shift_left-add i a b)

shift_left-256 : (i a : ℕ) → shift_left i (256 * a) ≡ shift_left (suc i) a
unfolding shift_left
shift_left-256 zero a = refl
shift_left-256 (suc i) a = omega (arith, shift_left-256 i a)

shift_left-zero : (i : ℕ) → shift_left i 0 ≡ 0
unfolding shift_left
shift_left-zero zero = refl
shift_left-zero (suc i) = omega (arith, shift_left-zero i)

-- A number without its lowest byte, and that byte.
shift_left-shift_right :
    (i v : ℕ)
    → shift_left i (shift_right i v % 256) + shift_left (suc i) (shift_right (suc i) v)
      ≡ shift_left i (shift_right i v)
unfolding shift_right
shift_left-shift_right i v =
    let w = shift_right i v in
    let parts : w ≡ w % 256 + 256 * (w / 256) = omega arith in
    ground (
      arith,
      shift_left-add i (w % 256) (256 * (w / 256)),
      shift_left-256 i (w / 256),
      ap (shift_left i) parts,
    )

read_le-put_le :
    (n i v acc : ℕ)
    → shift_right (n + i) v ≡ 0
    → Reads (read_le n i acc) (put_le n i v) (acc + shift_left i (shift_right i v))
unfolding read_le put_le
read_le-put_le zero i v acc h bytes position t b e =
    let none_left : shift_right i v ≡ 0 = ground (arith, h) in
    ground (arith, none_left, shift_left-zero i)
read_le-put_le (suc n) i v acc h bytes position t b e =
    let c = shift_right i v % 256 in
    let behind = put_le n (suc i) v ++ t in
    let step = u8-Reads c bytes position behind b e in
    let moved : n + suc i ≡ suc n + i = omega arith in
    let rest =
      read_le-put_le n (suc i) v (acc + shift_left i c) (ap (λ k. shift_right k v) moved ∙ h) bytes
        (position + 1) t b (drop_past bytes position (c ∷ []) behind e) in
    rw step (ground (arith, rest, shift_left-shift_right i v))

-- A 64-bit number goes through `put_u64_le` and `u64_le`.
pub u64_le-Reads : (v : ℕ) → v < two_64 → Reads (read_le 8 0 0) (put_le 8 0 v) v
unfolding shift_right shift_left
u64_le-Reads v h bytes position t b e =
    let same : 0 + shift_left 0 (shift_right 0 v) ≡ v = omega arith in
    rw same at (read_le-put_le 8 0 v 0 (omega arith) bytes position t b e)

read_length-first :
    (first : ℕ) (bytes : Bytes) (position : ℕ) (t : Bytes)
    → length bytes < two_64
    → drop position bytes ≡ first ∷ t
    → read_length (at_position bytes position)
      ≡ length_after first (at_position bytes (position + 1))
unfolding read_length
read_length-first first bytes position t b e = rw (u8-Reads first bytes position t b e) refl

read_length-put_be :
    (first n v : ℕ)
    → ((r : Reader) → length_after first r ≡ (plain (read_be n 0 r).0, (read_be n 0 r).1))
    → shift_right n v ≡ 0
    → Reads read_length (first ∷ put_be n v) (plain v)
read_length-put_be first n v h z bytes position t b e =
    let rest =
      read_be-put_be n v bytes (position + 1) t b
        (drop_past bytes position (first ∷ []) (put_be n v ++ t) e) in
    read_length-first first bytes position (put_be n v ++ t) b e
    ∙ ground (arith, h (at_position bytes (position + 1)), z, rest)

read_length-short : (n : ℕ) → n < 64 → Reads read_length (n ∷ []) (plain n)
unfolding length_after
read_length-short n h bytes position t b e = read_length-first n bytes position t b e ∙ ground arith

read_length-two_bytes :
    (n : ℕ) → n < 2 ^ 14 → Reads read_length ((64 + n / 256) ∷ n % 256 ∷ []) (plain n)
unfolding length_after
read_length-two_bytes n h bytes position t b e =
    let first = 64 + n / 256 in
    let second =
      u8-Reads (n % 256) bytes (position + 1) t b
        (drop_past bytes position (first ∷ []) (n % 256 ∷ t) e) in
    read_length-first first bytes position (n % 256 ∷ t) b e ∙ ground (arith, second)

shift_right-4 : (n : ℕ) → n ≤ 2 ^ 32 - 1 → shift_right 4 n ≡ 0
unfolding shift_right
shift_right-4 n h = omega arith

-- Every length below 2 ^ 64 goes through `put_length` and `length`, in each of its four forms.
pub read_length-Reads : (n : ℕ) → n < two_64 → Reads read_length (put_length n) (plain n)
unfolding put_length
read_length-Reads n h = elim (Bool-cases (ltb n (2 ^ 6))) [
  | inl small ↦ rw small (read_length-short n (ground arith))
  | inr more ↦ elim (Bool-cases (ltb n (2 ^ 14))) [
    | inl small ↦ rw (more, small) (read_length-two_bytes n (ground arith))
    | inr more1 ↦ elim (Bool-cases (leb n (2 ^ 32 - 1))) [
      | inl small ↦
          rw (more, more1, small)
            (read_length-put_be 128 4 n (λ r. unfold length_after in (refl))
              (shift_right-4 n (ground arith)))
      | inr more2 ↦
          rw (more, more1, more2)
            (read_length-put_be 129 8 n (λ r. unfold length_after in (refl))
              (unfold shift_right in (omega arith)))
    ]
  ]
]

plain_string_lem :
    (bytes : Bytes) (position : ℕ) (s t : Bytes)
    → length bytes < two_64
    → drop position bytes ≡ s ++ t
    → position + length s ≤ length bytes
    → plain_string (length s) (at_position bytes position)
      ≡ (s, at_position bytes (position + length s))
unfolding plain_string
plain_string_lem bytes position s t b e h =
    ground (arith, take-append_left s t, ap (take (length s)) e)

length-put_length : (n : ℕ) → 1 ≤ length (put_length n)
unfolding put_length
length-put_length n = ground arith

-- Every string goes through `put_string` and `str`.
pub str-Reads : (s : Bytes) → Reads str (put_string s) s
unfolding put_string str str_of
str-Reads s bytes position t b e =
    let field = put_length (length s) in
    let split : drop position bytes ≡ field ++ (s ++ t) = e ∙ append_assoc field s t in
    let fits : position + length field + length s ≤ length bytes = omega (
      arith,
      length-put_length (length s),
      length-drop position bytes,
      ap length split,
      length-append field (s ++ t),
      length-append s t,
    ) in
    let len = read_length-Reads (length s) (omega arith) bytes position (s ++ t) b split in
    let text =
      plain_string_lem bytes (position + length field) s t b
        (drop_past bytes position field (s ++ t) split) fits in
    let moved : position + length field + length s ≡ position + length (field ++ s) =
      omega (arith, length-append field s) in
    rw len (text ∙ ap (λ k. (s, at_position bytes k)) moved)
