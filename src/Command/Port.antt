-- ===== src/Command/Port.antt =====
-- The port of the command `listen`.
use otpchat.Base.{ℕ, ◌+◌, ◌%◌, ◌^◌, ◌<◌, ◌≡◌, some, [], ◌∷◌, arith}
use otpchat.Command.{listen_port}
use otpchat.Text.Decimal.{strtol-decimal}
use otpchat.Text.{decimal}

-- A number above 32 bits is taken for the port that its low bits are.
pub listen_port_wraps :
    (port : ℕ) → 0 < port → port < 2 ^ 16 → listen_port (decimal (2 ^ 32 + port) ∷ []) ≡ some port
unfolding listen_port
listen_port_wraps port p h =
    let cut : (2 ^ 32 + port) % 2 ^ 32 ≡ port = omega arith in
    rw (strtol-decimal (2 ^ 32 + port) (omega arith) (omega arith)) (rw cut (ground arith))
