-- ===== src/Glob/Fuel.antt =====
-- The rounds of `glob_match`.
use redis_plus.Prelude.{
  ℕ, zero, suc, ◌+◌, ◌*◌, ◌≤◌, ◌<◌, ◌≡◌, refl, ap, Bool, true, false, ◌||◌, Option, none, some, [],
  ◌∷◌, Bytes, ◌==◌, length, arith,
}
use redis_plus.Glob.{
  in_span, class_at, class_move, escaped_move, Move, star, advance, mismatch, move, glob_loop,
  rounds, glob_match, class_loop,
}

step_star : (q p b : ℕ) → q < p → q * b + b ≤ p * b
step_star q p b h = grind arith

row : (a n : ℕ) → a ≤ n → a * (n + 1) + a ≤ n * (n + 1) + n
row a n h = grind arith

step_row : (r n : ℕ) → suc r * (n + 1) ≡ r * (n + 1) + n + 1
step_row r n = grind arith

start_fits : (p n : ℕ) → p * (n * (n + 1) + n + 1) + n * (n + 1) + n < (p + 2) * ((n + 1) * (n + 1))
start_fits p n = grind arith

class_loop_bound : (c : ℕ) (m : Bool) (q : Bytes) → length (class_loop c m q).1 ≤ length q
unfolding class_loop
class_loop_bound c m [] = omega arith
class_loop_bound c m (x ∷ []) = ground arith
class_loop_bound c m (x ∷ y ∷ []) = ground (arith, class_loop_bound c (m || x == c) (y ∷ []))
class_loop_bound c m (x ∷ y ∷ z ∷ r) = ground (
  arith,
  class_loop_bound c (m || y == c) (z ∷ r),
  class_loop_bound c (m || in_span c x z) r,
  class_loop_bound c (m || x == c) (y ∷ z ∷ r),
)

abbrev Shortens : ℕ → Move → Type 0
Shortens n (star q) = length q < n
Shortens n (advance q) = length q < n
Shortens n mismatch = Unit

class_move_bound :
    (n : ℕ) (negate : Bool) (x : Bool × Bytes) → length x.1 < n → Shortens n (class_move negate x)
class_move_bound n negate (true, []) h = ground arith
class_move_bound n negate (false, []) h = ground arith
class_move_bound n negate (true, _ ∷ r) h = ground arith
class_move_bound n negate (false, _ ∷ r) h = ground arith

move-Shortens : (p : Bytes) (c : ℕ) → Shortens (length p) (move p c)
unfolding move class_at escaped_move
move-Shortens [] c = tt
move-Shortens (pc ∷ []) c = ground (
  arith,
  class_move_bound 1 false (class_loop c false []) (omega (arith, class_loop_bound c false [])),
)
move-Shortens (pc ∷ x ∷ p) c = ground (
  arith,
  class_move_bound (suc (suc (length p))) true (class_loop c false p)
      (omega (arith, class_loop_bound c false p)),
  class_move_bound (suc (suc (length p))) false (class_loop c false (x ∷ p))
      (omega (arith, class_loop_bound c false (x ∷ p))),
)

abbrev Fits : Option (Bytes × Bytes) → ℕ → ℕ → Type 0
Fits none k r = Unit
Fits (some (q, start)) k r = (length q ≡ k) × (length start ≡ r)

-- Enough fuel, for a pattern within `k` and a text within `r`.
Ends : ℕ → Type 0
Ends fuel =
    (p s : Bytes) (mark : Option (Bytes × Bytes)) (k r n b : ℕ)
    → Fits mark k r
    → length p ≤ k
    → length s ≤ r
    → r ≤ n
    → n * (n + 1) + n < b
    → k * b + r * (n + 1) + length s < fuel
    → (a : Bool) × (glob_loop fuel p s mark ≡ some a)

glob_loop_step :
    (fuel : ℕ) (p s : Bytes) (c k r n b : ℕ) (m : Move) (mark : Option (Bytes × Bytes))
    → Ends fuel
    → move p c ≡ m
    → Shortens (length p) m
    → Fits mark k r
    → length p ≤ k
    → length (c ∷ s) ≤ r
    → r ≤ n
    → n * (n + 1) + n < b
    → k * b + r * (n + 1) + length (c ∷ s) < suc fuel
    → (a : Bool) × (glob_loop (suc fuel) p (c ∷ s) mark ≡ some a)
unfolding Ends glob_loop
glob_loop_step fuel p s c k r n b (star q) mark ih e sh f hp hs hr hb h =
    let text = c ∷ s in
    let (a, done) =
      ih q text (some (q, text)) (length q) (length text) n b (refl, refl) (omega arith)
        (omega arith) (omega arith) hb
        (omega
          (arith, step_star (length q) k b (omega arith), row (length text) n (omega arith))) in
    (a, rw (e, glob_loop) done)
glob_loop_step fuel p s c k r n b (advance q) mark ih e sh f hp hs hr hb h =
    let (a, done) = ih q s mark k r n b f (omega arith) (omega arith) hr hb (omega arith) in
    (a, rw (e, glob_loop) done)
glob_loop_step fuel p s c k r n b mismatch none ih e sh f hp hs hr hb h =
    (false, rw (e, glob_loop) refl)
glob_loop_step fuel p s c k r n b mismatch (some (q, [])) ih e sh f hp hs hr hb h =
    (false, rw (e, glob_loop) refl)
glob_loop_step fuel p s c k r n b mismatch (some (q, x ∷ start)) ih e sh (fq, fr) hp hs hr hb h =
    let (a, done) =
      ih q start (some (q, start)) k (length start) n b (fq, refl) (omega arith) (omega arith)
        (omega arith) hb (omega (arith, step_row (length start) n, ap (λ i. i * (n + 1)) fr)) in
    (a, rw (e, glob_loop) done)

glob_loop_total : (fuel : ℕ) → Ends fuel
unfolding Ends glob_loop
glob_loop_total zero p s mark k r n b f hp hs hr hb h = absurd (omega arith)
glob_loop_total (suc fuel) p [] mark k r n b f hp hs hr hb h = (_, refl)
glob_loop_total (suc fuel) p (c ∷ s) mark k r n b f hp hs hr hb h =
    glob_loop_step fuel p s c k r n b (move p c) mark (glob_loop_total fuel) refl
      (move-Shortens p c) f hp hs hr hb h

-- The loop of glob_match ends within the rounds that it is given, for every pattern and text, and
-- its answer is that of glob_match.
pub glob_match_total :
    (pattern text : Bytes)
    → (a : Bool) × (glob_loop (rounds pattern text) pattern text none ≡ some a)
      × (glob_match pattern text ≡ a)
unfolding glob_match Ends
glob_match_total pattern text =
    let n = length text in
    let (a, done) =
      glob_loop_total (rounds pattern text) pattern text none (length pattern) n n
        (n * (n + 1) + n + 1) tt (omega arith) (omega arith) (omega arith) (omega arith)
        (omega (arith, start_fits (length pattern) n)) in
    (a, done, rw (glob_match, done) refl)
