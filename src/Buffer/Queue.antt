-- ===== src/Buffer/Queue.antt =====
-- A buffer as a queue of bytes.
use redis_plus.Prelude.{
  ℕ, zero, suc, ◌+◌, ◌≤◌, ◌≡◌, refl, sym, ap, ◌∙◌, [], ◌∷◌, ◌++◌, append-nil, Bytes, length,
  length-append, length-drop, drop, drop-append_le, arith,
}
use redis_plus.Buffer.{Buffer, clear, size, readable, reclaim, append, consume}

pub record IsValid (b : Buffer) : Type 0 where
  pub within : b.read_pos ≤ length b.bytes

drop_all : (n : ℕ) (s : Bytes) → length s ≤ n → drop n s ≡ []
drop_all zero [] h = refl
drop_all zero (c ∷ s) h = absurd (omega arith)
drop_all (suc n) [] h = refl
drop_all (suc n) (c ∷ s) h = drop_all n s (omega arith)

drop-nil : (n : ℕ) → ◌≡◌ {A = Bytes} (drop n []) []
drop-nil n = drop_all n [] (omega arith)

suc-add : (n m : ℕ) → suc (n + m) ≡ suc n + m
suc-add n m = omega arith

drop-drop : (m n : ℕ) (s : Bytes) → drop m (drop n s) ≡ drop (n + m) s
drop-drop m zero s = ap (λ k. drop k s) (omega arith)
drop-drop m (suc n) [] = drop-nil m ∙ sym (drop-nil (suc n + m))
drop-drop m (suc n) (c ∷ s) = drop-drop m n s ∙ ap (λ k. drop k (c ∷ s)) (suc-add n m)

pub readable-reclaim : (b : Buffer) → readable (reclaim b) ≡ readable b
unfolding readable reclaim
readable-reclaim b = ground arith

pub reclaim-IsValid : (b : Buffer) → IsValid b → IsValid (reclaim b)
unfolding reclaim
reclaim-IsValid b v = ground arith

-- `size` is the number of bytes that can be read.
pub size-readable : (b : Buffer) → size b ≡ length (readable b)
unfolding size readable
size-readable b = sym (length-drop b.read_pos b.bytes)

readable_push :
    (b : Buffer) (s : Bytes)
    → IsValid b
    → readable (record b { bytes = b.bytes ++ s }) ≡ readable b ++ s
unfolding readable
readable_push b s v = drop-append_le b.read_pos b.bytes s v.within

-- Appending to a valid buffer puts the bytes behind what can be read, also when the buffer moves
-- its bytes to the front.
pub readable-append : (s : Bytes) (b : Buffer) → IsValid b → readable (append s b) ≡ readable b ++ s
unfolding append
readable-append [] b v = sym (append-nil (readable b))
readable-append (c ∷ s) b v =
    readable_push (reclaim b) (c ∷ s) (reclaim-IsValid b v)
    ∙ ap (λ r. r ++ (c ∷ s)) (readable-reclaim b)

pub append-IsValid : (s : Bytes) (b : Buffer) → IsValid b → IsValid (append s b)
unfolding append
append-IsValid [] b v = v
append-IsValid (c ∷ s) b v = record {
  within = omega (arith, (reclaim-IsValid b v).within, length-append (reclaim b).bytes (c ∷ s));
}

-- Consuming from a valid buffer drops bytes from the front of what can be read, as many as there
-- are at most.
pub readable-consume :
    (n : ℕ) (b : Buffer) → IsValid b → readable (consume n b) ≡ drop n (readable b)
unfolding readable consume
readable-consume n b v = ground (
  arith,
  drop-drop n b.read_pos b.bytes,
  drop_all (b.read_pos + n) b.bytes,
  drop_all n (drop b.read_pos b.bytes),
  length-drop b.read_pos b.bytes,
)

pub consume-IsValid : (n : ℕ) (b : Buffer) → IsValid b → IsValid (consume n b)
unfolding consume
consume-IsValid n b v = ground arith

pub clear_lem : (b : Buffer) → (readable (clear b) ≡ []) × IsValid (clear b)
unfolding readable clear
clear_lem b = (refl, record { within = omega arith })
