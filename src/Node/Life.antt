-- ===== src/Node/Life.antt =====
-- What a node holds: which operations leave one that can be closed, and which do not.
use otpchat.Address.{Address}
use otpchat.Base.{
  ℕ, ◌≤◌, ◌≡◌, ◌≢◌, ◌↔◌, refl, ap, ◌∙◌, true, false, Option, none, some, [], ◌∷◌, Bytes, arith,
  length, take, min, length-take, ◌⊎◌, ◌<◌, take_all,
}
use otpchat.Node.{
  freed, einprogress, Node, unset_node, node_close, ConnectCalls, port_str, node_connect,
  ListenCalls, node_listen, Sent, node_send, Received, node_recv, recv_result, recv_bytes,
  send_result, arrived, accepted, recv_error,
}

-- Either nothing is open, or an address is held with the socket. Closing is defined.
abbrev pub IsClosable : Node → Type 0
IsClosable n = n.info ≢ freed

pub node_close_lem : (n : Node) → IsClosable n → node_close n ≡ some unset_node
unfolding node_close
node_close_lem n h = ground arith

-- Listening leaves an open node or an unset one, also where it fails.
pub node_listen_lem :
    (calls : ListenCalls) (port : ℕ)
    → IsClosable (node_listen calls port).1
      × (((node_listen calls port).0 ≡ 0) ↔ ((node_listen calls port).1.socket ≢ none))
      × (((node_listen calls port).0 ≡ 1) ↔ ((node_listen calls port).1 ≡ unset_node))
unfolding node_listen
node_listen_lem calls port = ground arith

-- Connecting leaves a node that can be closed exactly when it succeeds or finds no address.
pub node_connect_lem :
    (calls : ConnectCalls) (addr : Address)
    → IsClosable (node_connect calls addr).1 ↔ (
        ((node_connect calls addr).0 ≡ 0)
        ⊎ (calls.getaddrinfo addr.node (port_str addr.port) ≡ false))
unfolding node_connect
node_connect_lem calls addr = ground arith

-- A connection that is refused at once, or for which there is no socket, leaves an address that is
-- freed but not forgotten: closing that node is undefined.
pub node_close-node_connect_failed :
    (calls : ConnectCalls) (addr : Address)
    → calls.getaddrinfo addr.node (port_str addr.port) ≡ true
    → (node_connect calls addr).0 ≡ 1
    → node_close (node_connect calls addr).1 ≡ none
unfolding node_connect node_close
node_close-node_connect_failed calls addr found failed = ground arith

pub node_recv-le :
    (received : Received) (n : Node) (size : ℕ) → length (node_recv received n size).1 ≤ size
unfolding node_recv
node_recv-le (arrived bytes) n size = ground (arith, length-take size bytes)
node_recv-le recv_error n size = ground arith

-- `node_recv` gives a part of what is there that fits the buffer, and closes the socket exactly
-- when it gives nothing. With a buffer of size 0 it closes the socket of a live peer.
pub node_recv_lem :
    (received : Received) (n : Node) (size : ℕ)
    → n.socket ≢ none
    → (length (node_recv received n size).1 ≤ size)
      × (((node_recv received n size).0.socket ≡ none) ↔ ((node_recv received n size).1 ≡ []))
      × ((node_recv received n size).0.info ≡ n.info)
unfolding node_recv
node_recv_lem (arrived bytes) n size h = ground (arith, length-take size bytes)
node_recv_lem recv_error n size h = ground arith

-- `node_send` reports no more bytes than there are, and none at all where it gives up the socket.
pub node_send_lem :
    (sent : Sent) (n : Node) (bytes : Bytes)
    → ((node_send sent n bytes).1 ≤ length bytes)
      × ((node_send sent n bytes).0.socket ≡ none → (node_send sent n bytes).1 ≡ 0)
      × ((node_send sent n bytes).0.info ≡ n.info)
unfolding node_send
node_send_lem sent n bytes = ground arith

recv_result-some : (n : Node) (p : Bytes) → 0 < length p → recv_result n p ≡ (n, p)
unfolding recv_result
recv_result-some n [] h = absurd (omega arith)
recv_result-some n (b ∷ bs) h = refl

-- Bytes that fit are all received, and the node stays as it is.
pub node_recv-arrived :
    (p : Bytes) (n : Node) (size fd : ℕ)
    → n.socket ≡ some fd
    → 0 < length p
    → length p ≤ size
    → node_recv (arrived p) n size ≡ (n, p)
unfolding node_recv recv_bytes
node_recv-arrived p n size fd connected h fits =
    ap (λ (s : Option ℕ). elim s [ none ↦ (n, []) | some _ ↦ recv_result n (take size p) ])
      connected
    ∙ ap (recv_result n) (take_all size p fits)
    ∙ recv_result-some n p h

-- A connected socket takes what it says, as far as there are bytes, and the node stays as it is.
pub node_send-accepted :
    (count : ℕ) (n : Node) (bytes : Bytes) (fd : ℕ)
    → n.socket ≡ some fd
    → node_send (accepted count) n bytes ≡ (n, min count (length bytes))
unfolding node_send send_result
node_send-accepted count n bytes fd connected =
    ap (λ (s : Option ℕ). elim s [ none ↦ (n, 0) | some _ ↦ send_result (accepted count) n bytes ])
      connected

-- Asked for no bytes, the socket of a live peer is closed as if the peer had gone.
pub node_recv_nothing :
    (received : Received) (n : Node) (fd : ℕ)
    → n.socket ≡ some fd
    → node_recv received n 0 ≡ (record n { socket = none }, [])
unfolding node_recv recv_result recv_bytes
node_recv_nothing received n fd connected =
    ap
      (λ (s : Option ℕ). elim s [ none ↦ (n, []) | some _ ↦ recv_result n (recv_bytes received 0) ])
      connected
    ∙ ap (recv_result n) (no_bytes received)
  where
    no_bytes : (r : Received) → recv_bytes r 0 ≡ []
    no_bytes (arrived bytes) = refl
    no_bytes recv_error = refl

-- A socket can be had, and the connection is not refused at once.
pub record Connects (calls : ConnectCalls) : Type 0 where
  pub opened : calls.socket ≢ none
  pub goes_on : (calls.connect ≡ none) ⊎ (calls.connect ≡ some einprogress)

pub node_connect_socket :
    (calls : ConnectCalls) (addr : Address)
    → Connects calls
    → IsClosable (node_connect calls addr).1
      × (((node_connect calls addr).1.socket ≡ none)
          ⊎ ((node_connect calls addr).1.socket ≡ calls.socket))
unfolding node_connect
node_connect_socket calls addr c = let opened = c.opened in let goes_on = c.goes_on in ground arith

pub node_listen_socket :
    (calls : ListenCalls) (port : ℕ)
    → IsClosable (node_listen calls port).1
      × (((node_listen calls port).1.socket ≡ none)
          ⊎ ((node_listen calls port).1.socket ≡ calls.socket))
unfolding node_listen
node_listen_socket calls port = ground arith
