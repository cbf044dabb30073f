-- ===== src/Resp/Reply.antt =====
-- namespace `reply` of include/rp/resp.hpp and src/resp.cpp, and `Aof::encode` of src/aof.cpp.
use redis_plus.Prelude.{ℕ, List, [], ◌∷◌, ◌++◌, Bytes, codes, length}
use redis_plus.Prelude.Int.{ℤ}
use redis_plus.Decimal.{to_string, int_to_string}
use redis_plus.Resp.Find.{crlf}

unfoldable pub simple : Bytes → Bytes
simple s = b'+' ∷ (s ++ crlf)

unfoldable pub error : Bytes → Bytes
error s = b'-' ∷ (s ++ crlf)

unfoldable pub integer : ℤ → Bytes
integer v = b':' ∷ (int_to_string v ++ crlf)

unfoldable pub bulk : Bytes → Bytes
bulk s = b'$' ∷ (to_string (length s) ++ (crlf ++ (s ++ crlf)))

abbrev pub null_bulk : Bytes
null_bulk = codes "$-1\r\n"

unfoldable pub array_header : ℕ → Bytes
array_header n = b'*' ∷ (to_string n ++ crlf)

abbrev pub empty_array : Bytes
empty_array = codes "*0\r\n"

abbrev pub ok : Bytes
ok = codes "+OK\r\n"

unfoldable pub wrong_arity : Bytes → Bytes
unfolding error
wrong_arity command =
    error (codes "ERR wrong number of arguments for '" ++ (command ++ codes "' command"))

unfoldable pub bulks : List Bytes → Bytes
bulks [] = []
bulks (arg ∷ args) = bulk arg ++ bulks args

-- `Aof::encode`
unfoldable pub encode : List Bytes → Bytes
encode args = array_header (length args) ++ bulks args
