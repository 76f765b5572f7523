-- ===== src/Tests/Messages.antt =====
-- A message from peer to peer.
use otpchat.Base.Endian.{to_be}
use otpchat.Base.Int.{pos}
use otpchat.Base.{◌≡◌, refl, some, none, true, [], ◌∷◌, ◌++◌, Bytes, arith}
use otpchat.Block.{block_of, null_block}
use otpchat.Chat.Push.{CanDraw}
use otpchat.KeyStore.{local_key, remote_key}
use otpchat.Node.{arrived, Node, live, accepted, unset_node}
use otpchat.State.{ChatState, Terminal, World}
use otpchat.Tests.Keys.{pad_bytes, disk, key_at, store, key_at_4, Pad-at_1, message}
use otpchat.Transfer.Pieces.{Receives}
use otpchat.Transfer.Delivery.{receive_all-chat_begin_send}
use otpchat.Transfer.Empty.{chat_handle_recv-empty}
use otpchat.Transfer.Frame.{frame}
use otpchat.Transfer.Progress.{takes, send_all_done}
use otpchat.Transfer.Send.{
  HasLocalKey, chat_begin_send_short, offering, remaining, send_all, send_all_lem,
}
use otpchat.Transfer.Stream.{recv_all}
use otpchat.Transfer.Stuck.{chat_handle_recv-out_of_key}
use otpchat.Chat.Push.{status_message}
use otpchat.Chat.{text}
use otpchat.Transfer.{header, chat_begin_send, chat_handle_recv}
use otpchat.User.{User, connected}

abbrev pub terminal : Terminal
terminal = record { mblen = λ xs. some 1; width = 80; height = 24 }

abbrev pub world : World
world = record { terminal = terminal; now = 99; disk = disk; fresh = λ n. 0 }

abbrev peer_node : Node
peer_node = record { info = live; socket = some 3 }

abbrev me : User
me = record { key = some local_key; node = unset_node; name = none; state = connected; id = 1 }

abbrev peer : User
peer = record {
  key = some (remote_key 0);
  node = peer_node;
  name = none;
  state = connected;
  id = 2;
}

abbrev pub talking : ChatState
talking = record {
  keys = store;
  local = me;
  remote = peer;
  history = [];
  history_line = 0;
  history_width = 70;
  history_height = pos 20;
  input = null_block;
  cursor_index = 0;
  receiving = null_block;
  received_size = 0;
  sending = null_block;
  sent_size = 0;
  running = true;
}

pub talking-CanDraw : CanDraw world talking
talking-CanDraw = record { screen = omega arith; box = omega arith }

can_send : HasLocalKey world talking (key_at 1) (22 ∷ 33 ∷ 44 ∷ 55 ∷ [])
can_send = record { ref = local_key; key_is = refl; held = refl; pad = Pad-at_1 }

abbrev cipher : Bytes
cipher = 126 ∷ 72 ∷ []

abbrev can_receive : Receives world talking pad_bytes 1 cipher
can_receive = record {
  fd = 3;
  connected = refl;
  key = key_at 4;
  has_key = record { ref = remote_key 0; key_is = refl; held = refl; data_at = key_at_4 };
  head_fits = omega arith;
  size_fits = omega arith;
  draws = talking-CanDraw;
}

header_pieces : (0 ∷ 0 ∷ 0 ∷ 2 ∷ 0 ∷ []) ++ (0 ∷ 0 ∷ 0 ∷ 0 ∷ 0 ∷ 0 ∷ 1 ∷ []) ≡ header 2 1
unfolding to_be
header_pieces = refl

receive_all-chat_begin_send_example :
    (st₁ st₂ : ChatState) × (chat_begin_send world talking (block_of message) ≡ some (0, st₁))
    × (st₁.sending ≡ block_of (0 ∷ 0 ∷ 0 ∷ 2 ∷ 0 ∷ 0 ∷ 0 ∷ 0 ∷ 0 ∷ 0 ∷ 0 ∷ 1 ∷ 126 ∷ 72 ∷ []))
    × (recv_all world talking (
          (0 ∷ 0 ∷ 0 ∷ 2 ∷ 0 ∷ []) ∷ (0 ∷ 0 ∷ 0 ∷ 0 ∷ 0 ∷ 0 ∷ 1 ∷ []) ∷ (126 ∷ []) ∷ (72 ∷ []) ∷ [])
        ≡ some (0, st₂))
    × (st₂.history ≡ record { id = 2; timestamp = 99; text = block_of message } ∷ [])
    × (st₂.receiving ≡ null_block)
receive_all-chat_begin_send_example =
    receive_all-chat_begin_send world world talking talking pad_bytes message (key_at 1) can_send
      can_receive (omega arith) refl (0 ∷ 0 ∷ 0 ∷ 2 ∷ 0 ∷ []) (126 ∷ [])
      ((0 ∷ 0 ∷ 0 ∷ 0 ∷ 0 ∷ 0 ∷ 1 ∷ []) ∷ []) ((72 ∷ []) ∷ []) (omega arith) (omega arith, tt)
      header_pieces (omega arith) (omega arith, tt) refl

send_all_lem_example :
    (send_all (accepted 2 ∷ accepted 1 ∷ []) (offering talking (1 ∷ 2 ∷ 3 ∷ 4 ∷ []) 0)).0
      ++ remaining
          (send_all (accepted 2 ∷ accepted 1 ∷ []) (offering talking (1 ∷ 2 ∷ 3 ∷ 4 ∷ []) 0)).1
    ≡ 1 ∷ 2 ∷ 3 ∷ 4 ∷ []
send_all_lem_example =
    send_all_lem (accepted 2 ∷ accepted 1 ∷ []) talking (1 ∷ 2 ∷ 3 ∷ 4 ∷ []) 0 (omega arith)

chat_begin_send_short_example :
    (st : ChatState) × (chat_begin_send world talking (block_of (1 ∷ 2 ∷ 3 ∷ 4 ∷ 5 ∷ []))
      ≡ some (1, st))
    × (st.sending ≡ block_of (frame 1 (1 ∷ 2 ∷ 3 ∷ 4 ∷ 5 ∷ [])))
    × (st.sent_size ≡ 0)
chat_begin_send_short_example =
    chat_begin_send_short world talking (1 ∷ 2 ∷ 3 ∷ 4 ∷ 5 ∷ []) (22 ∷ 33 ∷ 44 ∷ 55 ∷ []) (key_at 1)
      can_send talking-CanDraw (omega arith) (omega arith)

send_all_done_example :
    ((send_all (takes (1 ∷ 0 ∷ 5 ∷ 0 ∷ [])) (offering talking (1 ∷ 2 ∷ 3 ∷ 4 ∷ []) 0)).0
      ≡ 1 ∷ 2 ∷ 3 ∷ 4 ∷ [])
    × ((send_all (takes (1 ∷ 0 ∷ 5 ∷ 0 ∷ [])) (offering talking (1 ∷ 2 ∷ 3 ∷ 4 ∷ []) 0)).1.sending
        ≡ null_block)
send_all_done_example =
    send_all_done (1 ∷ 0 ∷ 5 ∷ 0 ∷ []) 3 talking (1 ∷ 2 ∷ 3 ∷ 4 ∷ []) 0 refl (omega arith)
      (omega arith)

abbrev can_receive_nothing : Receives world talking pad_bytes 1 []
can_receive_nothing = record {
  fd = 3;
  connected = refl;
  key = key_at 4;
  has_key = record { ref = remote_key 0; key_is = refl; held = refl; data_at = key_at_4 };
  head_fits = omega arith;
  size_fits = omega arith;
  draws = talking-CanDraw;
}

empty_header : 0 ∷ 0 ∷ 0 ∷ 0 ∷ 0 ∷ 0 ∷ 0 ∷ 0 ∷ 0 ∷ 0 ∷ 0 ∷ 1 ∷ [] ≡ header 0 1
unfolding to_be
empty_header = refl

chat_handle_recv-empty_example :
    (st₁ st₂ : ChatState) × (recv_all world talking
        ((0 ∷ 0 ∷ 0 ∷ 0 ∷ 0 ∷ 0 ∷ 0 ∷ 0 ∷ 0 ∷ 0 ∷ 0 ∷ 1 ∷ []) ∷ [])
      ≡ some (0, st₁))
    × (chat_handle_recv (arrived (9 ∷ [])) world st₁ ≡ some (1, st₂))
    × (st₂.remote.node.socket ≡ none)
    × (st₂.history ≡ [])
chat_handle_recv-empty_example =
    chat_handle_recv-empty world talking pad_bytes 1 can_receive_nothing refl
      (0 ∷ 0 ∷ 0 ∷ 0 ∷ 0 ∷ 0 ∷ 0 ∷ 0 ∷ 0 ∷ 0 ∷ 0 ∷ 1 ∷ []) [] (omega arith) tt empty_header
      (arrived (9 ∷ []))

abbrev long_cipher : Bytes
long_cipher = 1 ∷ 2 ∷ 3 ∷ 4 ∷ 5 ∷ 6 ∷ []

abbrev receives_long : Receives world talking pad_bytes 1 long_cipher
receives_long = record {
  fd = 3;
  connected = refl;
  key = key_at 4;
  has_key = record { ref = remote_key 0; key_is = refl; held = refl; data_at = key_at_4 };
  head_fits = omega arith;
  size_fits = omega arith;
  draws = talking-CanDraw;
}

abbrev long_header : Bytes
long_header = 0 ∷ 0 ∷ 0 ∷ 6 ∷ 0 ∷ 0 ∷ 0 ∷ 0 ∷ 0 ∷ 0 ∷ 0 ∷ 1 ∷ []

is_long_header : long_header ≡ header 6 1
unfolding to_be
is_long_header = refl

chat_handle_recv-out_of_key_example :
    (st₁ st₂ : ChatState) × (recv_all world talking (long_header ∷ long_cipher ∷ [])
      ≡ some (1, st₁))
    × (st₁.history ≡ status_message world (text "Out of remote key data!") ∷ [])
    × (chat_handle_recv (arrived (9 ∷ [])) world (record st₁ { remote = peer }) ≡ some (1, st₂))
    × (st₂.remote.node.socket ≡ none)
    × (st₂.history ≡ st₁.history)
chat_handle_recv-out_of_key_example =
    chat_handle_recv-out_of_key world talking pad_bytes 1 long_cipher receives_long (omega arith)
      refl long_header long_cipher [] [] (omega arith) tt is_long_header (omega arith) tt refl world
      (arrived (9 ∷ [])) peer 3 refl
