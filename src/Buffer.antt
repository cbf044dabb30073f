-- ===== src/Buffer.antt =====
-- `rp::Buffer` (include/rp/buffer.hpp). The capacity of the vector is not modelled: nothing reads it.
pub mod Queue
use redis_plus.Prelude.{
  ℕ, ◌+◌, ◌-◌, ◌*◌, ◌/◌, Bool, ◌&&◌, [], ◌∷◌, ◌++◌, Bytes, ltb, ◌==◌, if◌then◌else◌, length, drop,
}

pub record Buffer : Type 0 where
  pub bytes : Bytes
  pub read_pos : ℕ

abbrev pub reclaim_threshold : ℕ
reclaim_threshold = 8 * 1024

abbrev pub empty_buffer : Buffer
empty_buffer = record { bytes = []; read_pos = 0 }

unfoldable pub clear : Buffer → Buffer
clear b = empty_buffer

-- `data_.size() - read_pos_`; `read_pos_` never passes the size (Queue)
unfoldable pub size : Buffer → ℕ
size b = length b.bytes - b.read_pos

unfoldable pub readable : Buffer → Bytes
readable b = drop b.read_pos b.bytes

unfoldable pub reclaim : Buffer → Buffer
reclaim b =
    if b.read_pos == 0
    then b
    else if ltb b.read_pos (length b.bytes / 2) && ltb b.read_pos reclaim_threshold
    then b
    else record { bytes = drop b.read_pos b.bytes; read_pos = 0 }

unfoldable pub append : Bytes → Buffer → Buffer
unfolding reclaim
append [] b = b
append (c ∷ s) b = let r = reclaim b in record r { bytes = r.bytes ++ (c ∷ s) }

unfoldable pub consume : ℕ → Buffer → Buffer
unfolding clear size
consume n b =
    let pos = b.read_pos + (if ltb (size b) n then size b else n) in
    if pos == length b.bytes then clear b else record b { read_pos = pos }
