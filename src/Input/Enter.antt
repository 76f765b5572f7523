-- ===== src/Input/Enter.antt =====
-- The newline of ui.c, on a line that is no command.
use otpchat.Base.{
  ℕ, ◌^◌, ◌≤◌, ◌<◌, ◌≡◌, ◌≢◌, refl, sym, ap, ap₂, ◌∙◌, false, Option, none, some, [], ◌∷◌, ◌++◌,
  Bytes, arith, ◌==◌, length, take, length-append, take_all,
}
use otpchat.Block.{Block, null_block, block_of, content, free_block}
use otpchat.Chat.Push.{CanDraw, chat_push_message_lem}
use otpchat.Command.{Calls}
use otpchat.Input.Line.{Shows, Shows-array}
use otpchat.Input.{line, byte, send_line, newline, ui_handle_input}
use otpchat.Key.Pad.{advance}
use otpchat.Key.Xor.{xor_with}
use otpchat.Key.{Key}
use otpchat.KeyStore.{get_key, set_key}
use otpchat.State.{ChatState, World}
use otpchat.Transfer.Frame.{frame}
use otpchat.Transfer.Send.{HasLocalKey, chat_begin_send_lem}
use otpchat.Transfer.{chat_begin_send}
use otpchat.Ui.Total.{update_history_box_total}
use otpchat.Ui.{update_history_box}
use otpchat.User.{id_local, connected}

-- Only the bytes up to the size are sent.
chat_begin_send-take :
    (w : World) (st : ChatState) (b : Block) (ms : Bytes)
    → b.size ≡ length ms
    → take b.size (content b) ≡ ms
    → chat_begin_send w st b ≡ chat_begin_send w st (block_of ms)
unfolding chat_begin_send
chat_begin_send-take w st b ms size is_text =
    let is_all : take (length ms) (content b) ≡ ms =
      ap (λ (n : ℕ). take n (content b)) (sym size) ∙ is_text in
    simp (size, is_all, take_all (length ms) ms (omega arith))

send_line_lem :
    (w : World) (st : ChatState) (ms xs rest : Bytes) (k : Key) (h : HasLocalKey w st k rest)
    → CanDraw w st
    → st.input.bytes ≡ some xs
    → st.input.size ≡ length ms
    → line st ≡ ms
    → length ms < 2 ^ 32
    → length ms ≤ length rest
    → (st' : ChatState) × (send_line w st ≡ some (0, st'))
      × (st'.history ≡ st.history ++ record { id = 1; timestamp = w.now; text = block_of ms } ∷ [])
      × (st'.sending ≡ block_of (frame k.head (xor_with rest ms)))
      × (st'.sent_size ≡ 0)
      × (st'.input ≡ st.input)
unfolding send_line
send_line_lem w st ms xs rest k h c array size is_text small enough =
    let (shown, pushes, p) =
      chat_push_message_lem w st (record { id = id_local; timestamp = w.now; text = st.input }) xs c
        array in
    let is_content : content st.input ≡ xs =
      ap (λ (b : Option Bytes). elim b [ none ↦ [] | some ys ↦ ys ]) array in
    let text_is : take st.input.size xs ≡ ms = ap (take st.input.size) (sym is_content) ∙ is_text in
    let h' : HasLocalKey w shown k rest = record {
      ref = h.ref;
      key_is = ap (λ (s : ChatState). s.local.key) p.is_state ∙ h.key_is;
      held = ap (λ (s : ChatState). get_key s.keys h.ref) p.is_state ∙ h.held;
      pad = h.pad;
    } in
    let sends =
      chat_begin_send-take w shown st.input ms size is_text
      ∙ chat_begin_send_lem w shown ms rest k h' small enough in
    (
      record shown {
        keys = set_key shown.keys h.ref (advance k (length ms));
        sending = block_of (frame k.head (xor_with rest ms));
        sent_size = 0;
      },
      rw (pushes, sends),
      ap (λ (s : ChatState). s.history) p.is_state
          ∙ ap₂
              (λ (ys : Bytes) (n : ℕ).
                st.history
                ++ record { id = 1; timestamp = w.now; text = record { bytes = some ys; size = n } }
                  ∷ [])
              text_is size,
      refl,
      refl,
      ap (λ (s : ChatState). s.input) p.is_state,
    )

-- The parts of `newline` on such a line.
newline_sends :
    (calls : Calls) (w : World) (st st₁ st₂ : ChatState) (b : ℕ) (bs : Bytes)
    → (st.input.size == 0) ≡ false
    → line st ≡ b ∷ bs
    → (b == b'/') ≡ false
    → st.remote.state ≡ connected
    → send_line w st ≡ some (0, st₁)
    → update_history_box w.terminal (record st₁ { input = free_block st₁.input; cursor_index = 0 })
      ≡ some st₂
    → newline calls w st ≡ some (0, st₂)
unfolding newline
newline_sends calls w st st₁ st₂ b bs filled is_text plain on sends draws =
    simp (filled, is_text, plain, on, sends, draws)

-- A peer is connected, and the line, with the cursor anywhere, does not start with '/': a newline
-- shows the line as a message of the user, makes its ciphertext under the next bytes of the key
-- what is to be sent, and empties the line. The key must have enough bytes left, and the screen
-- can be drawn.
pub ui_handle_input_newline :
    (calls : Calls) (w : World) (st : ChatState) (front back rest : Bytes) (b : ℕ) (bs : Bytes)
    (k : Key)
    → HasLocalKey w st k rest
    → CanDraw w st
    → Shows st front back
    → front ++ back ≡ b ∷ bs
    → b ≢ b'/'
    → st.remote.state ≡ connected
    → length (b ∷ bs) < 2 ^ 32
    → length (b ∷ bs) ≤ length rest
    → (st' : ChatState) × (ui_handle_input calls (byte 10) w st ≡ some (0, st'))
      × (st'.history
          ≡ st.history ++ record { id = 1; timestamp = w.now; text = block_of (b ∷ bs) } ∷ [])
      × (st'.sending ≡ block_of (frame k.head (xor_with rest (b ∷ bs))))
      × (st'.sent_size ≡ 0)
      × (st'.input ≡ null_block)
      × (st'.cursor_index ≡ 0)
unfolding ui_handle_input free_block
ui_handle_input_newline calls w st front back rest b bs k h c s is_text ne on small enough =
    let size : st.input.size ≡ length (b ∷ bs) =
      omega (arith, s.size_is, ap length is_text, length-append front back) in
    let filled : (st.input.size == 0) ≡ false = ground arith in
    let plain : (b == b'/') ≡ false = ground arith in
    let (xs, array) =
      Shows-array st front back s (omega (arith, ap length is_text, length-append front back)) in
    let (st₁, sends, history, sending, sent, kept) =
      send_line_lem w st (b ∷ bs) xs rest k h c array size (s.line_is ∙ is_text) small enough in
    let cleared : ChatState = record st₁ { input = free_block st₁.input; cursor_index = 0 } in
    let (width, height, draws, _) = update_history_box_total w.terminal cleared c.screen in
    (
      record cleared { history_width = width; history_height = height },
      newline_sends calls w st st₁ _ b bs filled (s.line_is ∙ is_text) plain on sends draws,
      history,
      sending,
      sent,
      ap (λ (i : Block). free_block i) kept
          ∙ ap (λ (o : Option Bytes). free_block (record { bytes = o; size = st.input.size }))
              array,
      refl,
    )
