-- ===== src/Node.antt =====
-- node.h and node.c but for `node_exchange`, which is in `Exchange`. The results of the system calls
-- that a function makes are its first argument.
pub mod Life
pub mod Keeps
use otpchat.Address.{Address}
use otpchat.Base.Endian.{from_be}
use otpchat.Base.{
  ℕ, Bool, true, false, Option, none, some, List, [], ◌∷◌, Bytes, if◌then◌else◌, length, take, min,
  ◌>>=◌, not,
}
use otpchat.Text.{decimal}

-- `errno`, and the value of SO_ERROR.
pub data Errno : Type 0 where
  enotsock einprogress econnreset enotconn ebadf other_error : Errno

-- `info`: NULL, or what `getaddrinfo` gave, or what `freeaddrinfo` has freed.
pub data Info : Type 0 where
  null live freed : Info

-- `socket` is `none` for -1.
pub record Node : Type 0 where
  pub info : Info
  pub socket : Option ℕ

abbrev pub unset_node : Node
unset_node = record { info = null; socket = none }

-- Freeing an `info` that is freed is undefined.
unfoldable pub node_close : Node → Option Node
node_close n = elim n.info [
  | null ↦ some (record n { socket = none })
  | live ↦ some (record { info = null; socket = none })
  | freed ↦ none
]

-- `getsockopt` fails with an `errno`, or gives SO_ERROR, `none` for 0.
pub data SockOpt : Type 0 where
  refused : Errno → SockOpt
  so_error : Option Errno → SockOpt

pending_error : SockOpt → Option Errno
pending_error (refused e) = some e
pending_error (so_error none) = none
pending_error (so_error (some einprogress)) = none
pending_error (so_error (some e)) = some e

-- The error, or `none` for the result 0.
unfoldable pub node_error : SockOpt → Node → Option Errno
unfolding pending_error
node_error opt n = elim n.socket [ none ↦ some enotsock | some _ ↦ pending_error opt ]

-- `ai_family`, and `ai_addr` for AF_INET or another family: an address and a port in network order.
pub data SockAddr : Type 0 where
  inet : Bytes → Bytes → SockAddr
  inet6 : Bytes → Bytes → SockAddr

-- What `getaddrinfo` found, and what `inet_ntop` prints of an address, `none` where it fails.
pub record AddressCalls : Type 0 where
  pub ai_family : ℕ
  pub ai_addr : SockAddr
  pub inet_ntop : ℕ → Bytes → Option Bytes

get_address : AddressCalls → SockAddr → Option Address
get_address calls (inet sin_addr sin_port) = do
  name ← calls.inet_ntop calls.ai_family sin_addr
  some (record { node = some name; port = from_be sin_port })
get_address calls (inet6 sin6_addr sin6_port) = do
  name ← calls.inet_ntop calls.ai_family sin6_addr
  some (record { node = some name; port = from_be sin6_port })

-- `*addr`. A node whose `info` is not there cannot be asked.
unfoldable pub node_get_address : AddressCalls → Node → Option Address
unfolding get_address
node_get_address calls n = elim n.info [
  | null ↦ none
  | live ↦ get_address calls calls.ai_addr
  | freed ↦ none
]

-- `getaddrinfo` of a node and a port, the descriptor of `socket`, and the `errno` of `connect`,
-- `none` where it returned 0.
pub record ConnectCalls : Type 0 where
  pub getaddrinfo : Option Bytes → Bytes → Bool
  pub socket : Option ℕ
  pub connect : Option Errno

-- `snprintf` into six bytes.
abbrev pub port_str : ℕ → Bytes
port_str port = take 5 (decimal port)

is_refused : Option Errno → Bool
is_refused none = false
is_refused (some einprogress) = false
is_refused (some _) = true

-- The status, and `*remote`.
unfoldable pub node_connect : ConnectCalls → Address → ℕ × Node
unfolding is_refused
node_connect calls addr =
    if calls.getaddrinfo addr.node (port_str addr.port)
    then (elim calls.socket [
      | none ↦ (1, record { info = freed; socket = none })
      | some fd ↦
          if is_refused calls.connect
          then (1, record { info = freed; socket = some fd })
          else (0, record { info = live; socket = some fd })
    ])
    else (1, unset_node)

pub record ListenCalls : Type 0 where
  pub getaddrinfo : Option Bytes → Bytes → Bool
  pub socket : Option ℕ
  pub bind : Bool
  pub listen : Bool

unfoldable pub node_listen : ListenCalls → ℕ → ℕ × Node
node_listen calls port =
    if calls.getaddrinfo none (port_str port)
    then (elim calls.socket [
      | none ↦ (1, unset_node)
      | some fd ↦
          if not calls.bind
          then (1, unset_node)
          else if not calls.listen
          then (1, unset_node)
          else (0, record { info = live; socket = some fd })
    ])
    else (1, unset_node)

-- The descriptor that `accept` gives, `none` for -1; the status and `*remote`.
unfoldable pub node_accept : Option ℕ → ℕ × Node
node_accept none = (1, unset_node)
node_accept (some fd) = (0, record { info = live; socket = some fd })

-- `send` takes some bytes from the front, or fails.
pub data Sent : Type 0 where
  accepted : ℕ → Sent
  send_error : Errno → Sent

send_result : Sent → Node → Bytes → Node × ℕ
send_result (accepted count) n bytes = (n, min count (length bytes))
send_result (send_error _) n bytes = (record n { socket = none }, 0)

-- Every error leaves -1 in the socket. A send on -1 fails.
unfoldable pub node_send : Sent → Node → Bytes → Node × ℕ
unfolding send_result
node_send sent n bytes = elim n.socket [ none ↦ (n, 0) | some _ ↦ send_result sent n bytes ]

-- `recv` has these bytes at hand, and gives what fits the buffer; none is the end of the stream.
pub data Received : Type 0 where
  arrived : Bytes → Received
  recv_error : Received

recv_result : Node → Bytes → Node × Bytes
recv_result n [] = (record n { socket = none }, [])
recv_result n (b ∷ bs) = (n, b ∷ bs)

recv_bytes : Received → ℕ → Bytes
recv_bytes (arrived bytes) size = take size bytes
recv_bytes recv_error size = []

-- The bytes received, and the node, whose socket is closed where there were none.
unfoldable pub node_recv : Received → Node → ℕ → Node × Bytes
unfolding recv_result recv_bytes
node_recv received n size = elim n.socket [
  | none ↦ (n, [])
  | some _ ↦ recv_result n (recv_bytes received size)
]
