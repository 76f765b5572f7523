-- ===== src/Tests/Parsing.antt =====
-- Addresses and command lines.
use otpchat.Address.Parse.{parse_address-print}
use otpchat.Address.{parse_address}
use otpchat.Args.{generate_flag}
use otpchat.Base.Int.{pos}
use otpchat.Base.{refl, List, ◌≡◌, ◌≢◌, some, [], ◌∷◌, ◌++◌, Bytes, arith}
use otpchat.Command.Port.{listen_port_wraps}
use otpchat.Command.Words.{str_to_argv-unwords}
use otpchat.Command.{str_to_argv, listen_port}
use otpchat.Text.Decimal.{strtol-decimal}
use otpchat.Text.{strtol, decimal}

-- "::1"
abbrev localhost : Bytes
localhost = b':' ∷ b':' ∷ b'1' ∷ []

abbrev host : Bytes
host = b'h' ∷ b'o' ∷ []

abbrev program : Bytes
program = b'o' ∷ []

abbrev my_key : Bytes
my_key = b'm' ∷ []

abbrev their_key : Bytes
their_key = b't' ∷ []

my_key-generate_flag : my_key ≢ generate_flag
my_key-generate_flag e = ground arith

strtol-decimal_example : strtol (decimal 12345) ≡ (pos 12345, [])
strtol-decimal_example = strtol-decimal 12345 (omega arith) (omega arith)

parse_address-print_example :
    parse_address (localhost ++ b':' ∷ decimal 8080)
    ≡ some (record { node = some localhost; port = 8080 })
parse_address-print_example =
    parse_address-print localhost 8080 (λ e. ground arith) (omega arith) (omega arith)

abbrev line : List Bytes
line = (b'l' ∷ b'i' ∷ []) ∷ (b'9' ∷ []) ∷ []

str_to_argv-unwords_example : str_to_argv (b'l' ∷ b'i' ∷ b' ' ∷ b'9' ∷ b' ' ∷ []) ≡ line
str_to_argv-unwords_example =
    str_to_argv-unwords line (omega arith, (refl, (refl, tt)), (omega arith, (refl, tt), tt))

listen_port_wraps_example : listen_port (decimal 4294967376 ∷ []) ≡ some 80
listen_port_wraps_example = listen_port_wraps 80 (omega arith) (omega arith)
