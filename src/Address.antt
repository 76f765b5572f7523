-- ===== src/Address.antt =====
-- address.h and address.c. A pointer to text is `none` for NULL.
pub mod Parse
use otpchat.Base.Int.{ℤ, pos, leb_ℤ, to_unsigned}
use otpchat.Base.{
  ℕ, ◌^◌, Bool, ◌||◌, not, Option, none, some, List, [], ◌∷◌, Bytes, if◌then◌else◌, ◌==◌, length,
}
use otpchat.Text.{split_last, strtol}

abbrev pub default_port : ℕ
default_port = 14137

pub record Address : Type 0 where
  pub node : Option Bytes
  pub port : ℕ

-- `port<=0||port>=(1<<16)||*port_end!=0`
pub is_bad_port : ℤ × Bytes → Bool
is_bad_port (port, port_end) =
    leb_ℤ port (pos 0) || leb_ℤ (pos (2 ^ 16)) port || not (length port_end == 0)

parse_port : Bytes → ℤ × Bytes → Option Address
unfolding is_bad_port
parse_port name number =
    if is_bad_port number
    then none
    else some (record { node = some name; port = to_unsigned 16 number.0 })

-- `none` is the result 1. On a bad port the caller's `addr` then points to freed text, which no
-- caller reads.
unfoldable pub parse_address : Bytes → Option Address
unfolding parse_port
parse_address text = elim (split_last b':' text) [
  | none ↦ some (record { node = some text; port = default_port })
  | some (name, rest) ↦ if length name == 0 then none else parse_port name (strtol rest)
]

unfoldable pub free_address : Address → Address
free_address addr = record { node = none; port = 0 }
