-- ===== src/Chat.antt =====
-- chat.c: status messages, and connecting, listening and disconnecting as a command or the peer
-- makes them happen. Sending and receiving are in `Transfer`.
pub mod Push
pub mod Safety
use Prim.Native.Char.{code}
use Prim.Native.String.{String}
use otpchat.Address.{Address}
use otpchat.Base.Endian.{to_be, from_be}
use otpchat.Base.{
  ℕ, zero, suc, ◌+◌, ◌-◌, ◌%◌, ◌^◌, Bool, true, false, not, ◌&&◌, Option, none, some, List, [], ◌∷◌,
  ◌++◌, Bytes, ◌>>=◌, if◌then◌else◌, ◌==◌, length, take, drop, overwrite,
}
use otpchat.Block.{Block, null_block, content, block_create, free_block}
use otpchat.Key.{Key, key_seek, encrypt, decrypt}
use otpchat.KeyStore.{KeyRef, get_key, set_key}
use otpchat.Message.{Message}
use otpchat.Node.{
  ConnectCalls, ListenCalls, node_close, node_listen, Sent, node_send, Received, node_recv,
}
use otpchat.State.{ChatState, World, Terminal}
use otpchat.Text.{decimal}
use otpchat.Ui.{ui_message_lines, update_history_box}
use otpchat.User.{
  User, ConnectionState, not_connected, connecting, connected, id_status, id_local, id_remote,
  user_begin_connect, user_disconnect,
}

abbrev pub message_header_size : ℕ
message_header_size = 12

abbrev pub message_head_offset : ℕ
message_head_offset = 4

-- The bytes of an ASCII literal.
abbrev pub text : String → Bytes
text String.[] = []
text (String.◌∷◌ c s) = code c ∷ text s

unfoldable pub chat_id_name : ChatState → ℕ → Option Bytes
chat_id_name state id =
    if id == id_status
    then some (text "Status message")
    else if id == id_local
    then state.local.name
    else if id == id_remote
    then state.remote.name
    else some (text "Unknown")

-- `malloc` and `memcpy` of a text. NULL can be copied only where nothing is.
pub copy_text : Block → Option Block
copy_text b = elim b.bytes [
  | none ↦ if b.size == 0 then some (record { bytes = some []; size = 0 }) else none
  | some xs ↦ some (record { bytes = some (take b.size xs); size = b.size })
]

-- A view that is scrolled up stays where it is.
unfoldable pub scrolled : World → ChatState → Message → Option ℕ
scrolled w state msg =
    if state.history_line == 0
    then some 0
    else (ui_message_lines w.terminal msg state.history_width >>= λ lines.
        some (state.history_line + lines))

unfoldable pub chat_push_message : World → ChatState → Message → Option ChatState
unfolding copy_text scrolled
chat_push_message w state msg = do
  copied ← copy_text msg.text
  let new_msg = record msg { text = copied }
  line ← scrolled w state new_msg
  update_history_box w.terminal
      (record state { history = state.history ++ new_msg ∷ []; history_line = line })

-- The message is printed with a NUL behind it that its size does not count.
unfoldable pub chat_push_status : World → ChatState → Bytes → Option ChatState
chat_push_status w state printed = chat_push_message w state (record {
  id = id_status;
  timestamp = w.now;
  text = record { bytes = some (printed ++ 0 ∷ []); size = length printed };
})

-- "%s:%d" of an address whose node is set.
print_address : Address → Bytes
print_address addr = (elim addr.node [ none ↦ [] | some name ↦ name ]) ++ b':' ∷ decimal addr.port

unfoldable pub chat_begin_connect :
    ConnectCalls → World → ChatState → Address → Option (ℕ × ChatState)
unfolding print_address
chat_begin_connect calls w state addr = do
  (status, remote') ← user_begin_connect calls state.remote addr
  let state' = record state { remote = remote' }
  let tail = if not (status == 0) then text " failed" else []
  state'' ← chat_push_status w state' (text "Connecting to " ++ (print_address addr ++ tail))
  some (if not (status == 0) then 1 else 0, state'')

unfoldable pub chat_begin_listen : ListenCalls → World → ChatState → ℕ → Option (ℕ × ChatState)
chat_begin_listen calls w state port = do
  _ ← node_close state.local.node
  let listened = node_listen calls port
  let state' = record state { local = record state.local { node = listened.1 } }
  let tail = if not (listened.0 == 0) then text " failed" else []
  state'' ← chat_push_status w state' (text "Listening on port " ++ (decimal port ++ tail))
  some (if not (listened.0 == 0) then 1 else 0, state'')

is_connected_or_connecting : ConnectionState → Bool
is_connected_or_connecting not_connected = false
is_connected_or_connecting _ = true

unfoldable pub chat_disconnect : World → ChatState → ℕ → Option ChatState
unfolding is_connected_or_connecting
chat_disconnect w state id =
    if id == id_remote && is_connected_or_connecting state.remote.state
    then (user_disconnect state.remote >>= λ remote'.
        chat_push_status w (record state { remote = remote' }) (text "Disconnected"))
    else some state

unfoldable pub chat_end_listen : World → ChatState → Option ChatState
chat_end_listen w state = elim state.local.node.socket [
  | none ↦ some state
  | some _ ↦ node_close state.local.node >>= λ node'.
      chat_push_status w (record state { local = record state.local { node = node' } })
        (text "Stopped listening for connections")
]
