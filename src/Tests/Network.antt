-- ===== src/Tests/Network.antt =====
-- Sockets, exchanges and handshakes.
use otpchat.Address.{Address}
use otpchat.Base.Int.{pos}
use otpchat.Base.{equal_bytes, ◌≡◌, refl, some, none, true, false, [], ◌∷◌, ◌++◌, Bytes, length}
use otpchat.Exchange.Done.{node_exchange_done}
use otpchat.Exchange.{Exchanged, Round, ready, node_exchange}
use otpchat.KeyStore.{remote_key, key_store_find}
use otpchat.Node.Life.{node_close-node_connect_failed}
use otpchat.Node.{
  Node, live, ConnectCalls, node_connect, node_close, accepted, node_send, arrived, node_recv,
}
use otpchat.Tests.Keys.{id, store}
use otpchat.User.Handshake.{Agreed, user_handshake_lem}
use otpchat.User.{protocol_id, User, Rounds, connecting, handshake, user_handshake}

abbrev pub node : Node
node = record { info = live; socket = some 3 }

-- One round in which the peer's bytes come in and all of ours go out.
abbrev served : Bytes → Round
served xs = record {
  select = ready true true;
  elapsed = pos 10;
  received = arrived xs;
  sent = accepted 100;
  stray = false;
}

abbrev exchanged_one : Exchanged
exchanged_one = record {
  status = 0;
  node = node;
  recv_data = 7 ∷ [];
  timeout_ms = none;
  wire = 1 ∷ 2 ∷ [];
}

exchange_one : node_exchange (served (7 ∷ []) ∷ []) node (1 ∷ 2 ∷ []) 1 none ≡ some exchanged_one
unfolding node_exchange node_send node_recv
exchange_one = refl

node_exchange_done_example :
    (exchanged_one.wire ≡ 1 ∷ 2 ∷ []) × (length exchanged_one.recv_data ≡ 1)
node_exchange_done_example =
    node_exchange_done (served (7 ∷ []) ∷ []) node (1 ∷ 2 ∷ []) 1 none exchanged_one exchange_one
      refl

abbrev pub user : User
user = record { key = none; node = node; name = none; state = connecting; id = 2 }

abbrev rounds : Rounds
rounds = record { ids = served (protocol_id ++ id) ∷ []; accepts = served (1 ∷ []) ∷ [] }

handshakes :
    user_handshake rounds user store 1000 ≡ some (0, record user { key = some (remote_key 0) })
unfolding user_handshake handshake node_exchange node_send node_recv key_store_find equal_bytes
handshakes = refl

user_handshake_lem_example :
    (x : Exchanged) × (node_exchange
        (served (protocol_id ++ id) ∷ [])
        node
        (protocol_id ++ id)
        24
        (some 1000)
      ≡ some x)
    × (x.status ≡ 0)
    × Agreed store x.recv_data (record user { key = some (remote_key 0) })
user_handshake_lem_example =
    user_handshake_lem rounds user (record user { key = some (remote_key 0) }) store 1000 refl
      handshakes

-- There is an address, but no socket.
abbrev no_socket : ConnectCalls
no_socket = record { getaddrinfo = λ name port. true; socket = none; connect = none }

abbrev there : Address
there = record { node = none; port = 14137 }

connect_fails : (node_connect no_socket there).0 ≡ 1
unfolding node_connect
connect_fails = refl

node_close-node_connect_failed_example : node_close (node_connect no_socket there).1 ≡ none
node_close-node_connect_failed_example =
    node_close-node_connect_failed no_socket there refl connect_fails
