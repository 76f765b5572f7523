-- ===== src/User.antt =====
-- user.h and user.c: the two ends of a connection, and the handshake.
pub mod Handshake
pub mod Safety
pub mod Meeting
use otpchat.Address.{Address}
use otpchat.Base.{
  ℕ, zero, suc, ◌+◌, Bool, true, false, not, Option, none, some, List, [], ◌∷◌, ◌++◌, Bytes, ◌>>=◌,
  if◌then◌else◌, ◌==◌, equal_bytes, take, drop,
}
use otpchat.Exchange.{Round, Exchanged, node_exchange}
use otpchat.KeyStore.{KeyStore, KeyRef, key_store_find}
use otpchat.Node.{
  Node, unset_node, node_close, SockOpt, node_error, ConnectCalls, node_connect, node_accept,
}

abbrev pub id_status : ℕ
id_status = 0

abbrev pub id_local : ℕ
id_local = 1

abbrev pub id_remote : ℕ
id_remote = 2

abbrev pub timeout_ms : ℕ
timeout_ms = 2000

-- "OTPCHAT0"
abbrev pub protocol_id : Bytes
protocol_id = b'O' ∷ b'T' ∷ b'P' ∷ b'C' ∷ b'H' ∷ b'A' ∷ b'T' ∷ b'0' ∷ []

pub data ConnectionState : Type 0 where
  not_connected connecting connected : ConnectionState

pub record User : Type 0 where
  pub key : Option KeyRef
  pub node : Node
  pub name : Option Bytes
  pub state : ConnectionState
  pub id : ℕ

unfoldable pub user_init : ℕ → User
user_init id = record { key = none; node = unset_node; name = none; state = not_connected; id = id }

unfoldable pub user_set_name : User → Bytes → User
user_set_name u name = record u { name = some name }

unfoldable pub user_disconnect : User → Option User
user_disconnect u = do
  node' ← node_close u.node
  some (record u { node = node'; state = not_connected })

-- The status, and `*u`.
unfoldable pub user_begin_connect : ConnectCalls → User → Address → Option (ℕ × User)
user_begin_connect calls u addr = do
  u' ← user_disconnect u
  let tried = node_connect calls addr
  let u'' = record u' { node = tried.1 }
  some (if tried.0 == 0 then (0, record u'' { state = connecting }) else (1, u''))

-- The rounds of the two exchanges of a handshake.
pub record Rounds : Type 0 where
  pub ids : List Round
  pub accepts : List Round

-- The byte that tells the other side whether its key was found.
abbrev pub accept_byte : Option KeyRef → Bytes
accept_byte none = 0 ∷ []
accept_byte (some _) = 1 ∷ []

-- The second half: `remote_accept` starts as 0.
pub verdict : Option KeyRef → Bytes → ℕ
verdict key [] = 2
verdict key (zero ∷ _) = 2
verdict none (suc _ ∷ _) = 3
verdict (some _) (suc _ ∷ _) = 0

-- The status, the user, and the bytes given to the socket.
handshake_accept : List Round → User → Option ℕ → Option (ℕ × User × Bytes)
unfolding verdict
handshake_accept rounds u time_left = do
  x ← node_exchange rounds u.node (accept_byte u.key) 1 time_left
  let u' = record u { node = x.node }
  some (if not (x.status == 0) then 4 else verdict u.key x.recv_data, u', x.wire)

-- The status, the user, and the bytes that the two exchanges give to the socket. It is `none` while
-- an exchange waits. The store counts its keys, else the search is undefined.
unfoldable pub handshake : Rounds → User → KeyStore → ℕ → Option (ℕ × User × Bytes × Bytes)
unfolding handshake_accept
handshake rounds u keys timeout = do
  x ← node_exchange rounds.ids u.node (protocol_id ++ keys.local.id) 24 (some timeout)
  let u' = record u { node = x.node }
  if not (x.status == 0)
      then some (4, u', x.wire, [])
      else if not (equal_bytes (take 8 x.recv_data) protocol_id)
      then some (1, u', x.wire, [])
      else (key_store_find keys (drop 8 x.recv_data) >>= λ found.
          handshake_accept rounds.accepts (record u' { key = found }) x.timeout_ms >>= λ a.
          some (a.0, a.1, x.wire, a.2))

unfoldable pub user_handshake : Rounds → User → KeyStore → ℕ → Option (ℕ × User)
user_handshake rounds u keys timeout = do
  (status, u', _, _) ← handshake rounds u keys timeout
  some (status, u')

finish_handshake : ℕ × User → Option (ℕ × User)
finish_handshake (zero, u) = some (0, record u { state = connected })
finish_handshake (suc _, u) = do u' ← user_disconnect u; some (1, u')

unfoldable pub user_finish_connect : SockOpt → Rounds → User → KeyStore → Option (ℕ × User)
unfolding finish_handshake
user_finish_connect opt rounds u keys = elim (node_error opt u.node) [
  | some _ ↦ some (1, u)
  | none ↦ user_handshake rounds u keys timeout_ms >>= finish_handshake
]

unfoldable pub user_accept : Option ℕ → SockOpt → Rounds → User → KeyStore → Option (ℕ × User)
user_accept fd opt rounds u keys =
    let accepted = node_accept fd in
    let u' = record u { node = accepted.1 } in
    if not (accepted.0 == 0) then some (1, u') else user_finish_connect opt rounds u' keys

unfoldable pub user_close : User → Option User
user_close u = do u' ← user_disconnect u; some (record u' { name = none; key = none })
