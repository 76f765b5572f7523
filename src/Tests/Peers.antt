-- ===== src/Tests/Peers.antt =====
-- Two peers: an exchange, a handshake, and messages one after another.
use otpchat.Base.Int.{pos}
use otpchat.Base.{
  ℕ, ◌≡◌, ◌≢◌, ◌↔◌, refl, Option, some, none, List, [], ◌∷◌, Bytes, arith, replicate,
}
use otpchat.Block.{block_of, null_block, free_block}
use otpchat.Exchange.Served.{Turn, serving, node_exchange_served}
use otpchat.Exchange.{node_exchange}
use otpchat.KeyStore.Find.{Finds}
use otpchat.KeyStore.{KeyRef, local_key, remote_key}
use otpchat.State.{ChatState}
use otpchat.Tests.Keys.{pad_bytes, key_at, key_at_1, key_at_4, id, store, message}
use otpchat.Tests.Messages.{world, talking, talking-CanDraw}
use otpchat.Tests.Network.{node, user}
use otpchat.Transfer.Apart.{put}
use otpchat.Transfer.Duplex.{Move, send, recv, recvs, duplex, duplex_lem}
use otpchat.Transfer.Hear.{Hears, frames, hear_all}
use otpchat.Transfer.Say.{Speaks, Saying, say_all, hear_all-say_all}
use otpchat.Transfer.Session.{Side, Share, say_all-user_handshake}
use otpchat.Node.{node_send}
use otpchat.Transfer.{chat_handle_send}
use otpchat.Transfer.Wire.{recv_wire}
use otpchat.User.Meeting.{meeting, user_handshake_agrees}
use otpchat.User.{handshake}

speaks : Speaks world talking pad_bytes (key_at 1)
speaks = record {
  fd = 3;
  connected = refl;
  ref = local_key;
  key_is = refl;
  held = refl;
  data_at = key_at_1;
}

hears : Hears world talking pad_bytes
hears = record {
  fd = 3;
  connected = refl;
  key = key_at 4;
  has_key = record { ref = remote_key 0; key_is = refl; held = refl; data_at = key_at_4 };
  draws = talking-CanDraw;
  idle = refl;
}

abbrev sayings : List Saying
sayings =
    record { words = message; counts = replicate 14 0 }
    ∷ record { words = b'!' ∷ []; counts = 5 ∷ replicate 12 2 }
    ∷ []

hear_all-say_all_example :
    (wire : Bytes) × (st₁ st₂ : ChatState) × (say_all world talking sayings ≡ some (wire, st₁))
    × (recv_wire world talking (7 ∷ replicate 26 0) wire ≡ some (0, st₂, []))
    × (st₂.history
        ≡ record { id = 2; timestamp = 99; text = block_of message }
          ∷ record { id = 2; timestamp = 99; text = block_of (b'!' ∷ []) }
          ∷ [])
hear_all-say_all_example =
    hear_all-say_all world world talking talking pad_bytes (key_at 1) sayings (7 ∷ replicate 26 0)
      speaks hears (omega arith) (omega arith) (omega arith) (omega arith)

abbrev turn : Turn
turn = record { got = 1; took = 0; elapsed = pos 10 }

node_exchange_served_example :
    (left : Option ℕ) × (node_exchange
        (serving (turn ∷ turn ∷ turn ∷ []) (7 ∷ 8 ∷ 9 ∷ []))
        node
        (1 ∷ 2 ∷ [])
        3
        (some 2000)
      ≡ some (record {
        status = 0;
        node = node;
        recv_data = 7 ∷ 8 ∷ 9 ∷ [];
        timeout_ms = left;
        wire = 1 ∷ 2 ∷ [];
      }))
node_exchange_served_example =
    node_exchange_served (turn ∷ turn ∷ turn ∷ []) node 3 (1 ∷ 2 ∷ []) (7 ∷ 8 ∷ 9 ∷ []) (some 2000)
      refl (omega arith) (omega arith)

user_handshake_agrees_example :
    (greeting₁ answer₁ greeting₂ answer₂ : Bytes) × (key₁ key₂ : Option KeyRef) × (s₁ s₂ : ℕ)
    × (handshake (meeting (replicate 24 turn) (turn ∷ []) greeting₂ answer₂) user store 2000
        ≡ some (s₁, record user { key = key₁ }, greeting₁, answer₁))
    × (handshake (meeting (replicate 24 turn) (turn ∷ []) greeting₁ answer₁) user store 1000
        ≡ some (s₂, record user { key = key₂ }, greeting₂, answer₂))
    × Finds id store.remotes key₁
    × Finds id store.remotes key₂
    × ((s₁ ≡ 0) ↔ ((key₁ ≢ none) × (key₂ ≢ none)))
    × ((s₂ ≡ 0) ↔ ((key₂ ≢ none) × (key₁ ≢ none)))
user_handshake_agrees_example =
    user_handshake_agrees (replicate 24 turn) (turn ∷ []) (replicate 24 turn) (turn ∷ []) user user
      3 3 store store 2000 1000 refl refl refl refl refl refl (omega arith) (omega arith)
      (omega arith) (omega arith)

abbrev side : Side talking
side = record {
  fd = 3;
  connected = refl;
  id_size = refl;
  counted = refl;
  ids = replicate 24 turn;
  enough_ids = omega arith;
  accepts = turn ∷ [];
  enough_accepts = omega arith;
}

abbrev share : Share world world talking talking pad_bytes
share = record {
  is_local = refl;
  local_at = key_at_1;
  index = 0;
  first = refl;
  key = key_at 4;
  held = refl;
  remote_at = key_at_4;
}

say_all-user_handshake_example :
    (greeting₁ answer₁ greeting₂ answer₂ : Bytes) × (handshake
        (meeting (replicate 24 turn) (turn ∷ []) greeting₂ answer₂)
        talking.remote
        store
        2000
      ≡ some (0, talking.remote, greeting₁, answer₁))
    × (handshake
          (meeting (replicate 24 turn) (turn ∷ []) greeting₁ answer₁)
          talking.remote
          store
          2000
        ≡ some (0, talking.remote, greeting₂, answer₂))
    × ((wire : Bytes) × (st₁ st₂ : ChatState) × (say_all world talking sayings ≡ some (wire, st₁))
        × (recv_wire world talking (7 ∷ replicate 26 0) wire ≡ some (0, st₂, []))
        × (st₂.history
            ≡ record { id = 2; timestamp = 99; text = block_of message }
              ∷ record { id = 2; timestamp = 99; text = block_of (b'!' ∷ []) }
              ∷ []))
say_all-user_handshake_example =
    say_all-user_handshake world world talking talking pad_bytes side side 0 2000 2000 share sayings
      (7 ∷ replicate 26 0) refl talking-CanDraw refl (omega arith) (omega arith) (omega arith)
      (omega arith)

-- Something is to be sent while a message comes in.
abbrev busy : ChatState
busy = put (block_of (1 ∷ 2 ∷ 3 ∷ 4 ∷ [])) 1 talking

abbrev moves : List Move
moves =
    recv 6
    ∷ send 0
    ∷ recv 10
    ∷ recv 0
    ∷ send 4
    ∷ send 0
    ∷ recv 2
    ∷ recv 9
    ∷ recv 0
    ∷ recv 0
    ∷ recv 0
    ∷ recv 0
    ∷ recv 0
    ∷ recv 0
    ∷ recv 0
    ∷ recv 0
    ∷ recv 0
    ∷ []

busy-Hears : Hears world busy pad_bytes
busy-Hears = record {
  fd = 3;
  connected = refl;
  key = key_at 4;
  has_key = record { ref = remote_key 0; key_is = refl; held = refl; data_at = key_at_4 };
  draws = record { screen = talking-CanDraw.screen; box = talking-CanDraw.box };
  idle = refl;
}

heard :
    (st' : ChatState) × (recv_wire world busy (recvs moves) (frames pad_bytes 0 (message ∷ []))
      ≡ some (0, st', []))
heard =
    let h =
      hear_all world busy pad_bytes 0 (message ∷ []) (recvs moves) busy-Hears (omega arith)
        (omega arith) (omega arith) in
    (h.0, h.1)

duplex_lem_example :
    (st' : ChatState) × (duplex world busy moves (frames pad_bytes 0 (message ∷ []))
      ≡ some (0, put null_block 0 st', [], 2 ∷ 3 ∷ 4 ∷ []))
unfolding chat_handle_send node_send free_block
duplex_lem_example = (
  heard.0,
  duplex_lem world busy heard.0 3 moves (frames pad_bytes 0 (message ∷ [])) [] refl heard.1,
)
