-- ===== src/Commands/Base.antt =====
-- The results of commands, and the text helpers at the top of src/commands.cpp.
use redis_plus.Prelude.{
  ℕ, ◌-◌, Bool, true, false, ◌&&◌, List, [], ◌∷◌, Bytes, codes, leb, ◌==◌, if◌then◌else◌,
}
use redis_plus.Store.{Store}

abbrev pub Args : Type 0
Args = List Bytes

pub record CommandResult : Type 0 where
  pub reply : Bytes
  pub dirty : Bool
  pub propagate : Args

-- a command's result and the store after it
abbrev pub Outcome : Type 0
Outcome = CommandResult × Store

-- a reply that changes nothing to persist
abbrev pub replied : Bytes → CommandResult
replied text = record { reply = text; dirty = false; propagate = [] }

abbrev pub wrote : Bytes → Args → CommandResult
wrote text args = record { reply = text; dirty = true; propagate = args }

-- `std::toupper`
abbrev pub to_upper : ℕ → ℕ
to_upper c = if leb b'a' c && leb c b'z' then c - 32 else c

unfoldable pub upper : Bytes → Bytes
upper [] = []
upper (c ∷ s) = to_upper c ∷ upper s

unfoldable pub iequals : Bytes → Bytes → Bool
iequals [] [] = true
iequals [] (d ∷ b) = false
iequals (c ∷ a) [] = false
iequals (c ∷ a) (d ∷ b) = to_upper c == to_upper d && iequals a b

abbrev pub not_integer : Bytes
not_integer = codes "ERR value is not an integer or out of range"

abbrev pub syntax_error : Bytes
syntax_error = codes "ERR syntax error"

abbrev pub invalid_expire : Bytes
invalid_expire = codes "ERR invalid expire time in 'set' command"
