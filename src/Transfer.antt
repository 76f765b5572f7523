-- ===== src/Transfer.antt =====
-- chat.c: sending and receiving messages over the connection. A message travels as a header of 12
-- bytes, the size and the head of the sender's key in big endian, and its text under the pad.
pub mod Frame
pub mod Send
pub mod Progress
pub mod Receive
pub mod Stream
pub mod Pieces
pub mod Delivery
pub mod Stuck
pub mod Empty
pub mod Buffers
pub mod Handlers
pub mod Safety
pub mod SendSafety
pub mod Wire
pub mod Hear
pub mod Say
pub mod Session
pub mod Apart
pub mod Kept
pub mod SendFrom
pub mod Duplex
use otpchat.Base.Endian.{to_be, from_be}
use otpchat.Base.{
  ℕ, zero, suc, ◌+◌, ◌-◌, ◌%◌, ◌^◌, Bool, true, false, not, Option, none, some, List, [], ◌∷◌, ◌++◌,
  Bytes, ◌>>=◌, if◌then◌else◌, ◌==◌, length, take, drop, overwrite,
}
use otpchat.Block.{Block, null_block, content, block_create, free_block}
use otpchat.Chat.{
  message_header_size, message_head_offset, text, chat_push_message, chat_push_status,
}
use otpchat.Key.{Key, key_seek, encrypt, decrypt}
use otpchat.KeyStore.{KeyRef, get_key, set_key}
use otpchat.Node.{Sent, node_send, Received, node_recv}
use otpchat.State.{ChatState, World}
use otpchat.User.{id_remote}

-- The two words of a header.
abbrev pub header : ℕ → ℕ → Bytes
header size head = to_be 4 size ++ to_be 8 head

-- The status, and what is to be sent. `local.key` points into the store.
unfoldable pub chat_begin_send : World → ChatState → Block → Option (ℕ × ChatState)
chat_begin_send w state b = do
  ref ← state.local.key
  k ← get_key state.keys ref
  let size = b.size + message_header_size
  let words = header ((size - message_header_size) % 2 ^ 32) k.head
  let plain : Block = record {
    bytes = some (take b.size (content b));
    size = size - message_header_size;
  }
  (status, k', message) ← encrypt w.disk k plain
  let state' = record state {
    keys = set_key state.keys ref k';
    sending = record { bytes = some (words ++ content message); size = size };
    sent_size = 0;
  }
  if not (status == 0)
      then (chat_push_status w state' (text "Out of local key data!") >>= λ state''.
          some (1, state''))
      else some (0, state')

unfoldable pub chat_handle_message : World → ChatState → Option (ℕ × ChatState)
chat_handle_message w state = do
  xs ← state.receiving.bytes
  state' ← chat_push_message w state (record {
    id = id_remote;
    timestamp = w.now;
    text = record {
      bytes = some (drop message_header_size xs);
      size = state.receiving.size - message_header_size;
    };
  })
  some (0, record state' { receiving = free_block state'.receiving })

-- The bytes that `realloc` adds.
unfoldable pub added : (ℕ → ℕ) → ℕ → Bytes
added fresh zero = []
added fresh (suc n) = fresh n ∷ added fresh n

-- The header is there: the key is moved to the sender's head, and the buffer grows by the text.
pub handle_header : World → ChatState → Bytes → Option (ℕ × ChatState)
unfolding added
handle_header w state xs = do
  ref ← state.remote.key
  k ← get_key state.keys ref
  let size = from_be (take 4 xs)
  let head = from_be (take 8 (drop message_head_offset xs))
  k' ← key_seek k head
  some (
    0,
    record state {
      keys = set_key state.keys ref k';
      receiving = record {
        bytes = some (xs ++ added w.fresh size);
        size = state.receiving.size + size;
      };
    },
  )

-- The text is there: it is decrypted in place.
pub handle_text : World → ChatState → Bytes → Option (ℕ × ChatState)
handle_text w state xs = do
  ref ← state.remote.key
  k ← get_key state.keys ref
  let cipher : Block = record {
    bytes = some (drop message_header_size xs);
    size = state.receiving.size - message_header_size;
  }
  (status, k', message) ← decrypt w.disk k cipher
  let state' = record state {
    keys = set_key state.keys ref k';
    receiving = record state.receiving {
      bytes = some (take message_header_size xs ++ content message);
    };
  }
  if not (status == 0)
      then (chat_push_status w state' (text "Out of remote key data!") >>= λ state''.
          some (1, state''))
      else chat_handle_message w state'

-- A new message starts with a buffer for its header.
pub begin_receiving : ChatState → ChatState
begin_receiving state =
    if state.receiving.size == 0
    then record state { receiving = block_create message_header_size; received_size = 0 }
    else state

unfoldable pub chat_handle_recv : Received → World → ChatState → Option (ℕ × ChatState)
unfolding begin_receiving handle_header handle_text
chat_handle_recv from_socket w old = do
  let state = begin_receiving old
  buffer ← state.receiving.bytes
  let received =
      node_recv from_socket state.remote.node (state.receiving.size - state.received_size)
  let xs = overwrite state.received_size received.1 buffer
  let state' = record state {
    remote = record state.remote { node = received.0 };
    receiving = record state.receiving { bytes = some xs };
    received_size = state.received_size + length received.1;
  }
  if length received.1 == 0
      then some (1, state')
      else if not (state'.received_size == state'.receiving.size)
      then some (0, state')
      else if state'.receiving.size == message_header_size
      then handle_header w state' xs
      else handle_text w state' xs

-- What is handed to `send`, and the new state. The status is always 0.
unfoldable pub chat_handle_send : Sent → ChatState → ChatState
chat_handle_send to_socket state =
    let left = drop state.sent_size (content state.sending) in
    let sent = node_send to_socket state.remote.node left in
    let state' = record state {
      remote = record state.remote { node = sent.0 };
      sent_size = state.sent_size + sent.1;
    } in
    if state.sending.size == 0
    then state
    else if state'.sent_size == state'.sending.size
    then record state' { sending = free_block state'.sending; sent_size = 0 }
    else state'
