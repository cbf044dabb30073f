-- ===== src/Glob.antt =====
-- `glob_match` of src/resp.cpp. A position in a text is the suffix that begins there.
pub mod Fuel
use redis_plus.Prelude.{
  ℕ, zero, suc, ◌+◌, ◌*◌, ◌%◌, Bool, true, false, not, ◌&&◌, ◌||◌, Option, none, some, [], ◌∷◌,
  Bytes, leb, ◌==◌, if◌then◌else◌, length,
}

-- `char` is signed on the targets of the build: 128 to 255 come below 0.
abbrev char_leb : ℕ → ℕ → Bool
char_leb a b = leb ((a + 128) % 256) ((b + 128) % 256)

-- `c` lies between `lo` and `hi`, in either order
abbrev in_span : ℕ → ℕ → ℕ → Bool
in_span c lo hi =
    if not (char_leb lo hi) then char_leb hi c && char_leb c lo else char_leb lo c && char_leb c hi

-- The loop over a class `[...]`: whether `c` is in it, and the text from its `]` on.
unfoldable pub class_loop : ℕ → Bool → Bytes → Bool × Bytes
class_loop c matched [] = (matched, [])
class_loop c matched (x ∷ []) = if x == b']' then (matched, x ∷ []) else (matched || x == c, [])
class_loop c matched (x ∷ y ∷ []) =
    let next = class_loop c (matched || x == c) (y ∷ []) in
    if x == b']'
    then (matched, x ∷ y ∷ [])
    else if x == b'\\'
    then (matched || y == c, [])
    else next
class_loop c matched (x ∷ y ∷ z ∷ r) =
    let escaped = class_loop c (matched || y == c) (z ∷ r) in
    let span = class_loop c (matched || in_span c x z) r in
    let next = class_loop c (matched || x == c) (y ∷ z ∷ r) in
    if x == b']'
    then (matched, x ∷ y ∷ z ∷ r)
    else if x == b'\\'
    then escaped
    else if y == b'-' && not (z == b']')
    then span
    else next

-- What one character of the text does with the pattern.
pub data Move : Type 0 where
  star : Bytes → Move
  advance : Bytes → Move
  mismatch : Move

-- behind the class, past its `]` if it has one
abbrev close_class : Bytes → Bytes
close_class [] = []
close_class (_ ∷ r) = r

abbrev class_move : Bool → Bool × Bytes → Move
class_move negate (matched, q) =
    let passes = if negate then not matched else matched in
    if passes then advance (close_class q) else mismatch

class_at : ℕ → Bytes → Move
class_at c [] = class_move false (class_loop c false [])
class_at c (x ∷ q) =
    if x == b'^'
    then class_move true (class_loop c false q)
    else class_move false (class_loop c false (x ∷ q))

abbrev literal_move : ℕ → ℕ → Bytes → Move
literal_move c literal next = if literal == c then advance next else mismatch

-- behind a backslash; a last one stands for itself
escaped_move : ℕ → Bytes → Move
escaped_move c [] = literal_move c b'\\' []
escaped_move c (x ∷ next) = literal_move c x next

unfoldable pub move : Bytes → ℕ → Move
unfolding class_loop class_at escaped_move
move [] c = mismatch
move (pc ∷ p) c =
    if pc == b'*'
    then star p
    else if pc == b'?'
    then advance p
    else if pc == b'['
    then class_at c p
    else if pc == b'\\'
    then escaped_move c p
    else literal_move c pc p

abbrev only_stars : Bytes → Bool
only_stars [] = true
only_stars (c ∷ p) = let rest = only_stars p in c == b'*' && rest

-- `star_p + 1` and `star_s`, when a `*` has been seen
abbrev Mark : Type 0
Mark = Option (Bytes × Bytes)

-- The main loop. `none`: out of fuel.
unfoldable pub glob_loop : ℕ → Bytes → Bytes → Mark → Option Bool
glob_loop zero p s mark = none
glob_loop (suc fuel) p [] mark = some (only_stars p)
glob_loop (suc fuel) p (c ∷ s) mark = elim (move p c) [
  | star q ↦ glob_loop fuel q (c ∷ s) (some (q, c ∷ s))
  | advance q ↦ glob_loop fuel q s mark
  | mismatch ↦ elim mark [
    | none ↦ some false
    | some (q, r) ↦ elim r [ [] ↦ some false | _ ∷ r' ↦ glob_loop fuel q r' (some (q, r')) ]
  ]
]

-- A round for every place of the pattern, of the start of the last star, and of the text.
abbrev pub rounds : Bytes → Bytes → ℕ
rounds p s = let width = length s + 1 in (length p + 2) * (width * width)

unfoldable pub glob_match : Bytes → Bytes → Bool
unfolding glob_loop move
glob_match p s = elim (glob_loop (rounds p s) p s none) [ none ↦ false | some b ↦ b ]
