-- ===== src/Address/Parse.antt =====
-- `parse_address` reads what a user writes: `node`, or `node:port`.
use otpchat.Base.Int.{ℤ, pos, negsuc}
use otpchat.Base.{
  ℕ, ◌^◌, ◌<◌, ◌≡◌, ◌≢◌, inl, inr, refl, none, some, [], ◌∷◌, ◌++◌, Bytes, arith, if◌then◌else◌,
  ◌==◌, length, Option-cases,
}
use otpchat.Text.Split.{Lacks, split_last-none, split_last-append}
use otpchat.Text.Decimal.{strtol-decimal, decimal-Lacks}
use otpchat.Text.{split_last, strtol, decimal}
use otpchat.Address.{Address, default_port, parse_address, parse_port}

-- Without a ':' the whole text is the node, and the port is the default.
pub parse_address-default :
    (text : Bytes)
    → Lacks b':' text
    → parse_address text ≡ some (record { node = some text; port = default_port })
unfolding parse_address
parse_address-default text h = rw (split_last-none b':' text h, parse_address)

-- Any node that is not empty, also one with ':' in it as an IPv6 address has, followed by ':' and
-- a port from 1 to 65535 in decimal, is read back as that node and that port.
pub parse_address-print :
    (node : Bytes) (port : ℕ)
    → node ≢ []
    → 0 < port
    → port < 2 ^ 16
    → parse_address (node ++ b':' ∷ decimal port) ≡ some (record { node = some node; port = port })
unfolding parse_address
parse_address-print [] port ne p h = absurd (ne refl)
parse_address-print (c ∷ cs) port ne p h =
    rw (split_last-append b':' (c ∷ cs) (decimal port) (decimal-Lacks port), parse_address)
      (rw (strtol-decimal port p (omega arith)) (ground arith))

parse_port_range :
    (name : Bytes) (number : ℤ × Bytes) (addr : Address)
    → parse_port name number ≡ some addr
    → (0 < addr.port) × (addr.port < 2 ^ 16) × (addr.node ≡ some name)
unfolding parse_port
parse_port_range name (pos n, end) addr h = ground arith
parse_port_range name (negsuc n, end) addr h = ground arith

named_range :
    (name rest : Bytes) (addr : Address)
    → (if length name == 0 then none else parse_port name (strtol rest)) ≡ some addr
    → (0 < addr.port) × (addr.port < 2 ^ 16)
named_range [] rest addr h = cc
named_range (c ∷ cs) rest addr h =
    let range = parse_port_range (c ∷ cs) (strtol rest) addr (ground arith) in (range.0, range.1)

-- Whatever text is accepted, the port lies between 1 and 65535.
parse_address_range :
    (text : Bytes) (addr : Address)
    → parse_address text ≡ some addr
    → (0 < addr.port) × (addr.port < 2 ^ 16)
unfolding parse_address
parse_address_range text addr h = elim (Option-cases (split_last b':' text)) [
  | inl e ↦ ground arith
  | inr ((name, rest), e) ↦ named_range name rest addr (rw (e, parse_address) at h)
]
