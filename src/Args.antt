-- ===== src/Args.antt =====
-- args.h and args.c. `argv` is the list of arguments, and `argc` its length. `parse_args` fills
-- `*a`; where it fails its caller reads nothing of it, and the result is `none`.
pub mod Parse
use otpchat.Address.{Address, default_port, parse_address, free_address}
use otpchat.Base.Int.{ℤ, to_unsigned}
use otpchat.Base.{
  ℕ, Bool, true, false, ◌&&◌, ◌||◌, not, Option, none, some, List, [], ◌∷◌, Bytes, ◌>>=◌,
  if◌then◌else◌, ◌==◌, ltb, leb, length, drop, equal_bytes,
}
use otpchat.Text.{strtol}

pub record GenerateArgs : Type 0 where
  pub key_size : ℕ
  pub key_path : Option Bytes

pub record ChatArgs : Type 0 where
  pub local_key_path : Option Bytes
  pub remote_key_path : Option Bytes
  pub wait_for_remote : Bool
  pub addr : Address

-- The mode, with the member of the union that it selects.
pub data Args : Type 0 where
  invalid : Args
  chat : ChatArgs → Args
  generate : GenerateArgs → Args

unfoldable pub free_generate_args : GenerateArgs → GenerateArgs
free_generate_args a = record { key_size = 0; key_path = none }

unfoldable pub free_chat_args : ChatArgs → ChatArgs
free_chat_args a = record a {
  local_key_path = none;
  remote_key_path = none;
  addr = free_address a.addr;
}

-- `strtoll` into a `size_t`; the whole of the first argument must be a number.
parse_generate_args : List Bytes → Option GenerateArgs
parse_generate_args (size ∷ path ∷ []) =
    let number = strtol size in
    if not (length number.1 == 0)
    then none
    else some (record { key_size = to_unsigned 64 number.0; key_path = some path })
parse_generate_args _ = none

-- The third argument: a number is a port to listen on, and anything else an address.
parse_target : Bytes → Option (Bool × Address)
parse_target text =
    let number = strtol text in
    if not (length number.1 == 0)
    then (parse_address text >>= λ addr. some (false, addr))
    else some (true, record { node = none; port = to_unsigned 16 number.0 })

chat_args : Bytes → Bytes → Bool × Address → ChatArgs
chat_args local remote (wait, addr) = record {
  local_key_path = some local;
  remote_key_path = some remote;
  wait_for_remote = wait;
  addr = addr;
}

parse_chat_args : List Bytes → Option ChatArgs
unfolding parse_target chat_args
parse_chat_args (local ∷ remote ∷ []) =
    some (chat_args local remote (true, record { node = none; port = default_port }))
parse_chat_args (local ∷ remote ∷ target ∷ []) =
    parse_target target >>= λ t. some (chat_args local remote t)
parse_chat_args _ = none

-- "--generate"
abbrev pub generate_flag : Bytes
generate_flag = b'-' ∷ b'-' ∷ b'g' ∷ b'e' ∷ b'n' ∷ b'e' ∷ b'r' ∷ b'a' ∷ b't' ∷ b'e' ∷ []

is_generate : List Bytes → Bool
is_generate (program ∷ flag ∷ rest) = equal_bytes flag generate_flag
is_generate _ = false

unfoldable pub parse_args : List Bytes → Option Args
unfolding parse_generate_args parse_chat_args is_generate
parse_args argv =
    if is_generate argv
    then (parse_generate_args (drop 2 argv) >>= λ a. some (generate a))
    else (parse_chat_args (drop 1 argv) >>= λ a. some (chat a))

unfoldable pub free_args : Args → Args
free_args a = invalid
