-- ===== src/Transfer/Receive.antt =====
-- The handlers of chat.c that run when a buffer is full: the header moves the key, the text is
-- decrypted and shown.
use otpchat.Base.{
  ℕ, zero, suc, ◌+◌, ◌-◌, ◌^◌, ◌≤◌, ◌<◌, ◌≡◌, refl, sym, ap, ◌∙◌, Option, some, ◌++◌, Bytes, arith,
  length, take, drop, length-append, length-drop, take_all, drop-append,
}
use otpchat.Block.{null_block, block_of, free_block}
use otpchat.Chat.{chat_push_message}
use otpchat.Chat.Push.{CanDraw, Pushed, chat_push_message_lem}
use otpchat.Key.Pad.{KeyAt, KeyAt-Pad, advance, encrypt_lem, key_seek_lem}
use otpchat.Key.Xor.{xor_with, length-xor_with}
use otpchat.Key.{Key, decrypt}
use otpchat.KeyStore.{KeyRef, get_key, set_key}
use otpchat.Message.{Message}
use otpchat.State.{ChatState, World}
use otpchat.Transfer.Frame.{length-header, header_size, header_head, frame, take-frame, drop-frame}
use otpchat.Transfer.{header, chat_handle_message, added, handle_header, handle_text}
use otpchat.User.{id_remote}

-- The key that decrypts messages of the peer, over `key_data`.
pub record HasRemoteKey (w : World) (state : ChatState) (key_data : Bytes) (k : Key) : Type 0 where
  pub ref : KeyRef
  pub key_is : state.remote.key ≡ some ref
  pub held : get_key state.keys ref ≡ some k
  pub data_at : KeyAt w.disk k key_data

pub length-added : (fresh : ℕ → ℕ) (n : ℕ) → length (added fresh n) ≡ n
unfolding added
length-added fresh zero = refl
length-added fresh (suc n) = ap suc (length-added fresh n)

message_handled :
    (w : World) (state : ChatState) (xs plain : Bytes) (state' : ChatState)
    → state.receiving ≡ block_of xs
    → drop 12 xs ≡ plain
    → length xs - 12 ≡ length plain
    → chat_push_message w state
        (record { id = id_remote; timestamp = w.now; text = block_of plain })
      ≡ some state'
    → state'.receiving ≡ block_of xs
    → chat_handle_message w state ≡ some (0, record state' { receiving = null_block })
unfolding chat_handle_message free_block
message_handled w state xs plain state' e text_is size_is pushes kept =
    simp (e, text_is, size_is, pushes, kept)

-- A message that is there as a whole is shown, and the buffer is freed.
chat_handle_message_lem :
    (w : World) (state : ChatState) (front plain : Bytes)
    → CanDraw w state
    → length front ≡ 12
    → state.receiving ≡ block_of (front ++ plain)
    → (state' : ChatState) × (chat_handle_message w state
        ≡ some (0, record state' { receiving = null_block }))
      × Pushed state (record { id = id_remote; timestamp = w.now; text = block_of plain }) state'
chat_handle_message_lem w state front plain c front_length e =
    let msg : Message = record { id = id_remote; timestamp = w.now; text = block_of plain } in
    let text_is : drop 12 (front ++ plain) ≡ plain =
      drop-append 12 front plain (sym front_length) in
    let size_is : length (front ++ plain) - 12 ≡ length plain =
      omega (arith, length-append front plain) in
    let (state', pushes, p) =
      rw (take_all (length plain) plain (omega arith)) at
        (chat_push_message_lem w state msg plain c refl) in
    (
      state',
      message_handled w state (front ++ plain) plain state' e text_is size_is pushes
          (ap (λ (s : ChatState). s.receiving) p.is_state ∙ e),
      p,
    )

text_handled :
    (w : World) (state : ChatState) (xs cs plain front : Bytes) (ref : KeyRef) (k k' : Key)
    (result : Option (ℕ × ChatState))
    → state.remote.key ≡ some ref
    → get_key state.keys ref ≡ some k
    → drop 12 xs ≡ cs
    → take 12 xs ≡ front
    → state.receiving.size ≡ length (front ++ plain)
    → length (front ++ plain) - 12 ≡ length cs
    → decrypt w.disk k (block_of cs) ≡ some (0, k', block_of plain)
    → chat_handle_message w
        (record state { keys = set_key state.keys ref k'; receiving = block_of (front ++ plain) })
      ≡ result
    → handle_text w state xs ≡ result
unfolding handle_text
text_handled w state xs cs plain front ref k k' result key_is held cs_is front_is size_is rest_is
      deciphers handles =
    simp (key_is, held, cs_is, size_is, rest_is, deciphers, front_is) handles

module _ (w : World) (key_data : Bytes) (head : ℕ) (cs : Bytes) (head_fits : head + 32 < 2 ^ 63)
    (size_fits : length cs < 2 ^ 32) where
  -- With the header complete, the key is moved to the sender's head, and the buffer has room for
  -- the text behind the header.
  pub handle_header_lem :
      (state : ChatState) (k : Key) (r : HasRemoteKey w state key_data k)
      → (k' : Key) × (handle_header w state (header (length cs) head)
          ≡ some (
            0,
            record state {
              keys = set_key state.keys r.ref k';
              receiving = record {
                bytes = some (header (length cs) head ++ added w.fresh (length cs));
                size = state.receiving.size + length cs;
              };
            },
          ))
        × KeyAt w.disk k' key_data
        × (k'.head ≡ head)
  unfolding handle_header
  handle_header_lem state k r =
      let (k', seeks, data_at, at_head) = key_seek_lem head r.data_at head_fits in
      (
        k',
        simp (
          r.key_is,
          r.held,
          header_size (length cs) head size_fits,
          header_head (length cs) head (omega arith),
          seeks,
        ),
        data_at,
        at_head,
      )

  abbrev pub shown : Key → Message
  shown k = record {
    id = id_remote;
    timestamp = w.now;
    text = block_of (xor_with (drop k.head key_data) cs);
  }

  -- With the text complete, it is decrypted and pushed, and the buffer is freed.
  pub handle_text_lem :
      (state : ChatState) (k : Key) (r : HasRemoteKey w state key_data k)
      → CanDraw w state
      → state.receiving.size ≡ 12 + length cs
      → k.head + length cs ≤ length key_data
      → (state' : ChatState) × (handle_text w state (frame head cs)
          ≡ some (0, record state' { receiving = null_block }))
        × Pushed
            (record state {
              keys = set_key state.keys r.ref (advance k (length cs));
              receiving = block_of (header (length cs) head ++ xor_with (drop k.head key_data) cs);
            })
            (shown k)
            state'
  unfolding handle_text decrypt
  handle_text_lem state k r c size enough =
      let pad = drop k.head key_data in
      let (state', handles, p) =
        chat_handle_message_lem w
          (record state {
            keys = set_key state.keys r.ref (advance k (length cs));
            receiving = block_of (header (length cs) head ++ xor_with pad cs);
          })
          (header (length cs) head) (xor_with pad cs) (record { screen = c.screen; box = c.box })
          (length-header (length cs) head) refl in
      let whole : length (header (length cs) head ++ xor_with pad cs) ≡ 12 + length cs = omega (
        arith,
        length-append (header (length cs) head) (xor_with pad cs),
        length-header (length cs) head,
        length-xor_with pad cs,
      ) in
      let deciphers : decrypt w.disk k (block_of cs)
          ≡ some (0, advance k (length cs), block_of (xor_with pad cs)) =
        encrypt_lem cs (KeyAt-Pad r.data_at) (omega (arith, length-drop k.head key_data)) in
      (
        state',
        text_handled w state (frame head cs) cs (xor_with pad cs) (header (length cs) head) r.ref k
            (advance k (length cs)) (some (0, record state' { receiving = null_block })) r.key_is
            r.held (drop-frame head cs) (take-frame head cs) (omega (arith, size, whole))
            (omega (arith, whole)) deciphers handles,
        p,
      )
