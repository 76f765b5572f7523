-- ===== src/Input/Safety.antt =====
-- The keys, on the states that the loop comes to.
use otpchat.Base.Int.{to_unsigned}
use otpchat.Base.{
  ℕ, ◌+◌, ◌%◌, ◌^◌, ◌≤◌, ◌≡◌, ◌≢◌, refl, ap, inl, inr, Option, [], ◌∷◌, Bytes, ◌==◌, arith, length,
  ltb,
}
use otpchat.Block.{Block, null_block, free_block}
use otpchat.Command.Safety.{FreshCalls, command_handle-Safe}
use otpchat.Command.{Calls}
use otpchat.Input.Bounds.{
  Bounded, Edited, length-line, move_left-InLine, move_right-InLine, insert_byte-InLine,
  erase_char-Edited,
}
use otpchat.Input.{
  Pressed, byte, error, key_backspace, key_left, key_right, key_up, key_down, key_home, key_end,
  other_key, line, insert_byte, move_left, move_right, erase_char, scroll_up, scroll_down,
  is_connected, clear_line, run_command, send_line, enter_line, newline, edit_key, is_newline,
  ui_handle_input,
}
use otpchat.Node.Life.{Connects}
use otpchat.State.Inv.{InvOf, LineInv, forget, Any, Safe, Safe-bind, Safe-map, Safe-if, if_case}
use otpchat.State.View.{chat_push_message-Safe, update_history_box-Safe}
use otpchat.State.{ChatState, World}
use otpchat.Text.{c_str}
use otpchat.Transfer.SendSafety.{chat_begin_send-Safe}
use otpchat.Ui.Total.{ui_history_lines_total}

pub freed_line : (b : Block) (cursor : ℕ) → LineInv b cursor → free_block b ≡ null_block
unfolding free_block
freed_line b cursor (inl (e, z)) = ap (λ (c : Block). free_block c) e
freed_line b cursor (inr (xs, e, fits, c)) =
    ap (λ (m : Option Bytes). free_block (record { bytes = m; size = b.size })) e

with_line :
    (st : ChatState) (b : Block) (cursor : ℕ)
    → InvOf Any st
    → LineInv b cursor
    → InvOf Any (record st { input = b; cursor_index = cursor })
with_line st b cursor h l = record {
  box = h.box;
  net = h.net;
  receiving = h.receiving;
  sending = h.sending;
  input = l;
  sockets = tt;
}

with_view :
    (st : ChatState) (lines : ℕ) → InvOf Any st → InvOf Any (record st { history_line = lines })
with_view st lines h = record {
  box = h.box;
  net = h.net;
  receiving = h.receiving;
  sending = h.sending;
  input = h.input;
  sockets = tt;
}

module _ (calls : Calls) (w : World) (wide : 2 ≤ w.terminal.width)
    (connects : Connects calls.connect) where
  abbrev After : ℕ × ChatState → Type 0
  After r = InvOf Any r.1

  clear_line-Safe : (r : ℕ × ChatState) → After r → Safe After (clear_line w r)
  unfolding clear_line
  clear_line-Safe (fail, st) h =
      Safe-bind (InvOf Any) After _ _
        (update_history_box-Safe Any w.terminal _ wide (
          with_line st (free_block st.input) 0 h
            (inl (freed_line st.input st.cursor_index h.input, refl))))
        (λ st' k. k)

  run_command-Safe :
      (st : ChatState) (str : Bytes)
      → InvOf (FreshCalls calls) st
      → Safe After (run_command calls w st str)
  unfolding run_command
  run_command-Safe st str h =
      Safe-bind After After _ _ (command_handle-Safe calls w wide connects st (c_str str) h)
        (λ r k. k)

  send_line-Safe : (st : ChatState) → st.input.size ≢ 0 → InvOf Any st → Safe After (send_line w st)
  unfolding send_line
  send_line-Safe st filled h = elim h.input [
    | inl (e, z) ↦ absurd (filled (ap (λ (b : Block). b.size) e))
    | inr (xs, e, fits, c) ↦
        Safe-bind (InvOf Any) After _ _ (chat_push_message-Safe Any w st _ xs wide e h) (λ shown k.
          Safe-bind After After _ _
            (chat_begin_send-Safe Any (λ l r s. tt) w shown st.input xs wide k e fits) (λ r k'. k'))
  ]

  enter_line-Safe :
      (st : ChatState) (text : Bytes)
      → InvOf (FreshCalls calls) st
      → st.input.size ≢ 0
      → length text ≢ 0
      → Safe After (enter_line calls w st text)
  unfolding enter_line
  enter_line-Safe st [] h filled some_text = absurd (some_text refl)
  enter_line-Safe st (c ∷ rest) h filled some_text =
      let h' = forget (FreshCalls calls) st h in
      Safe-if After (c == b'/') _ _
        (λ _. Safe-bind After After _ _ (run_command-Safe st rest h) clear_line-Safe)
        (λ _.
          Safe-if After (is_connected st.remote.state) _ _
            (λ _. Safe-bind After After _ _ (send_line-Safe st filled h') clear_line-Safe)
            (λ _. h'))

  newline-Safe : (st : ChatState) → InvOf (FreshCalls calls) st → Safe After (newline calls w st)
  unfolding newline
  newline-Safe st h =
      Safe-if After (st.input.size == 0) _ _ (λ _. forget (FreshCalls calls) st h)
        (λ e.
          let filled : st.input.size ≢ 0 = λ z. ground arith in
          enter_line-Safe st (line st) h filled
            (λ z. filled (omega (arith, z, length-line st h.input))))

  scroll_up-Safe : (st : ChatState) → InvOf Any st → Safe (InvOf Any) (scroll_up w.terminal st)
  unfolding scroll_up
  scroll_up-Safe st h =
      let (lines, e, _) = ui_history_lines_total w.terminal st h.box in
      rw e (
        if_case (InvOf Any)
          (ltb ((st.history_line + to_unsigned 64 st.history_height) % 2 ^ 64) lines) _ _
          (λ _. with_view st (st.history_line + 1) h) (λ _. h))

  edit_key-Safe :
      (bounded : Bounded w.terminal) (c : Pressed) (st : ChatState)
      → InvOf Any st
      → Safe (InvOf Any) (edit_key w c st)
  unfolding edit_key scroll_down insert_byte move_left move_right
  edit_key-Safe bounded (byte c) st h = with_line st _ _ h (insert_byte-InLine w c st h.input)
  edit_key-Safe bounded error st h = with_line st _ _ h (insert_byte-InLine w 255 st h.input)
  edit_key-Safe bounded key_backspace st h =
      Safe-map (Edited st) (InvOf Any) (erase_char w.terminal st)
        (erase_char-Edited w.terminal st h.input)
        (λ st' d. rw d.is_state (with_line st d.input d.cursor h d.in_line))
  edit_key-Safe bounded key_left st h = with_line st _ _ h (move_left-InLine w.terminal st h.input)
  edit_key-Safe bounded key_right st h =
      with_line st _ _ h (move_right-InLine w.terminal st bounded h.input)
  edit_key-Safe bounded key_up st h = scroll_up-Safe st h
  edit_key-Safe bounded key_down st h = with_view st _ h
  edit_key-Safe bounded key_home st h = with_line st st.input 0 h (elim h.input [
    | inl e ↦ inl (e.0, refl)
    | inr (xs, e, fits, c) ↦ inr (xs, e, fits, omega arith)
  ])
  edit_key-Safe bounded key_end st h = with_line st st.input st.input.size h (elim h.input [
    | inl e ↦ inl (e.0, ap (λ (b : Block). b.size) e.0)
    | inr (xs, e, fits, c) ↦ inr (xs, e, fits, omega arith)
  ])
  edit_key-Safe bounded other_key st h = h

  pub ui_handle_input-Safe :
      (bounded : Bounded w.terminal) (c : Pressed) (st : ChatState)
      → InvOf (FreshCalls calls) st
      → Safe After (ui_handle_input calls c w st)
  unfolding ui_handle_input
  ui_handle_input-Safe bounded c st h =
      Safe-if After (is_newline c) _ _ (λ _. newline-Safe st h)
        (λ _.
          Safe-bind (InvOf Any) After _ _
            (edit_key-Safe bounded c st (forget (FreshCalls calls) st h))
            (λ st' k.
              Safe-bind (InvOf Any) After _ _ (update_history_box-Safe Any w.terminal st' wide k)
                (λ drawn k'. k')))
