-- ===== src/Args/Parse.antt =====
-- The command lines that README.md documents.
use otpchat.Address.Parse.{parse_address-print}
use otpchat.Address.{default_port}
use otpchat.Args.{chat, generate, parse_args, generate_flag}
use otpchat.Base.{
  ℕ, ◌^◌, ◌<◌, ◌≡◌, ◌≢◌, none, some, [], ◌∷◌, ◌++◌, Bytes, arith, true, false, equal_bytes_iff,
  equal_bytes_refl,
}
use otpchat.Text.Decimal.{strtol-decimal}
use otpchat.Text.Number.{strtol_stops, contains-append}
use otpchat.Text.{decimal}

-- `otpchat --generate <size> <new-key-file>`, with a size from 1 that a `long` holds.
pub parse_args_generate :
    (program path : Bytes) (size : ℕ)
    → 0 < size
    → size < 2 ^ 63
    → parse_args (program ∷ generate_flag ∷ decimal size ∷ path ∷ [])
      ≡ some (generate (record { key_size = size; key_path = some path }))
unfolding parse_args
parse_args_generate program path size p h =
    rw (equal_bytes_refl generate_flag, strtol-decimal size p h) (ground arith)

-- `otpchat <local-key> <remote-key>`, where the first is not "--generate": listen on the default
-- port.
pub parse_args_default :
    (program local remote : Bytes)
    → local ≢ generate_flag
    → parse_args (program ∷ local ∷ remote ∷ [])
      ≡ some (
          chat (record {
            local_key_path = some local;
            remote_key_path = some remote;
            wait_for_remote = true;
            addr = record { node = none; port = default_port };
          }))
unfolding parse_args
parse_args_default program local remote ne = ground (arith, equal_bytes_iff local generate_flag)

-- `otpchat <local-key> <remote-key> <port>`, where the first is not "--generate" and the port is
-- from 1 to 65535: listen on that port.
pub parse_args_port :
    (program local remote : Bytes) (port : ℕ)
    → local ≢ generate_flag
    → 0 < port
    → port < 2 ^ 16
    → parse_args (program ∷ local ∷ remote ∷ decimal port ∷ [])
      ≡ some (
          chat (record {
            local_key_path = some local;
            remote_key_path = some remote;
            wait_for_remote = true;
            addr = record { node = none; port = port };
          }))
unfolding parse_args
parse_args_port program local remote port ne p h =
    ground (arith, equal_bytes_iff local generate_flag, strtol-decimal port p)

-- `otpchat <local-key> <remote-key> <address>:<port>`, where the first is not "--generate", the
-- address is not empty and the port is from 1 to 65535: connect to that address and port.
parse_args_connect :
    (program local remote node : Bytes) (port : ℕ)
    → local ≢ generate_flag
    → node ≢ []
    → 0 < port
    → port < 2 ^ 16
    → parse_args (program ∷ local ∷ remote ∷ (node ++ b':' ∷ decimal port) ∷ [])
      ≡ some (
          chat (record {
            local_key_path = some local;
            remote_key_path = some remote;
            wait_for_remote = false;
            addr = record { node = some node; port = port };
          }))
unfolding parse_args
parse_args_connect program local remote node port ne named p h = ground (
  arith,
  equal_bytes_iff local generate_flag,
  parse_address-print node port named p h,
  strtol_stops (node ++ b':' ∷ decimal port) (contains-append node (decimal port)),
)
