-- ===== src/Transfer/Kept.antt =====
-- A call of `chat_handle_recv` over which something comes keeps its connection.
use otpchat.Base.{
  ℕ, ◌≡◌, refl, sym, inl, inr, Bool-cases, ◌∙◌, ap, false, some, Bytes, ◌==◌, not, arith, length,
  take, ◌-◌,
}
use otpchat.Base.Every.{Every, Every-bind, Every-then, Every-if, Every-is}
use otpchat.Block.{content}
use otpchat.Chat.{chat_push_message, chat_push_status, scrolled, copy_text}
use otpchat.Key.{decrypt}
use otpchat.KeyStore.{get_key}
use otpchat.Message.{Message}
use otpchat.Node.{Node, Received, node_recv}
use otpchat.User.{User}
use otpchat.State.{ChatState, Terminal, World}
use otpchat.Transfer.Apart.{on_received, received_into, into_lem}
use otpchat.Transfer.{
  begin_receiving, handle_header, handle_text, chat_handle_message, chat_handle_recv,
}
use otpchat.Ui.{update_history_box, make_room, ui_history_lines, string_lines}

module _ (node : Node) where
  abbrev Has : ChatState → Type 0
  Has st = st.remote.node ≡ node

  abbrev Keeps : ℕ × ChatState → Type 0
  Keeps (status, st) = status ≡ 0 → Has st

  make_room_kept :
      (t : Terminal) (st : ChatState) (lines : ℕ) → Has st → Every Has (make_room t st lines)
  unfolding make_room ui_history_lines
  make_room_kept t st lines h = ground arith

  update_history_box_kept :
      (t : Terminal) (st : ChatState) → Has st → Every Has (update_history_box t st)
  unfolding update_history_box
  update_history_box_kept t st h =
      Every-bind Has (string_lines t (take st.input.size (content st.input)) t.width) _
        (λ input_lines.
          Every-bind Has (ui_history_lines t _) _ (λ lines. make_room_kept t _ lines h))

  push_message_kept :
      (w : World) (st : ChatState) (msg : Message) → Has st → Every Has (chat_push_message w st msg)
  unfolding chat_push_message
  push_message_kept w st msg h = Every-bind Has (copy_text msg.text) _ (λ copied.
      Every-bind Has (scrolled w st _) _ (λ line. update_history_box_kept w.terminal _ h))

  handle_message_kept :
      (w : World) (st : ChatState) → Has st → Every Keeps (chat_handle_message w st)
  unfolding chat_handle_message
  handle_message_kept w st h =
      Every-bind Keeps st.receiving.bytes _
        (λ xs. Every-then Has Keeps _ _ (push_message_kept w st _ h) (λ s e _. e))

  handle_header_kept :
      (w : World) (st : ChatState) (xs : Bytes) → Has st → Every Keeps (handle_header w st xs)
  unfolding handle_header
  handle_header_kept w st xs h = ground arith

  handle_text_kept :
      (w : World) (st : ChatState) (xs : Bytes) → Has st → Every Keeps (handle_text w st xs)
  unfolding handle_text chat_push_status
  handle_text_kept w st xs h = Every-bind Keeps st.remote.key _ (λ ref.
      Every-bind Keeps (get_key st.keys ref) _ (λ k. Every-bind Keeps (decrypt w.disk k _) _ (λ d.
        Every-if Keeps (not (d.0 == 0)) _ _
          (Every-then Has Keeps _ _ (push_message_kept w _ _ h) (λ s e _. e))
          (handle_message_kept w _ h))))

-- Where something comes, the node is what it was.
node_kept :
    (r : Received) (n : Node) (size fd : ℕ)
    → n.socket ≡ some fd
    → (length (node_recv r n size).1 == 0) ≡ false
    → (node_recv r n size).0 ≡ n
unfolding node_recv
node_kept r n size fd connected h = ground arith

on_received_kept :
    (node : Node) (w : World) (st : ChatState) (got xs : Bytes)
    → ((length got == 0) ≡ false → Has node st)
    → Every (Keeps node) (on_received w st got xs)
on_received_kept node w st got xs h = elim (Bool-cases (length got == 0)) [
  | inl e ↦ rw e (λ f. absurd (omega (arith, f)))
  | inr e ↦ rw e (
      Every-if (Keeps node) (not (st.received_size == st.receiving.size)) _ _ (λ _. h e)
        (Every-if (Keeps node) (st.receiving.size == 12) _ _ (handle_header_kept node w st xs (h e))
          (handle_text_kept node w st xs (h e))))
]

into_kept :
    (r : Received) (w : World) (st : ChatState) (fd : ℕ)
    → st.remote.node.socket ≡ some fd
    → Every (Keeps st.remote.node) (received_into r w st)
into_kept r w st fd connected = Every-bind (Keeps st.remote.node) st.receiving.bytes _ (λ buffer.
    on_received_kept st.remote.node w _ _ _
      (node_kept r st.remote.node (st.receiving.size - st.received_size) fd connected))

begins_kept : (st : ChatState) → (begin_receiving st).remote ≡ st.remote
unfolding begin_receiving
begins_kept st = ground arith

pub chat_handle_recv_kept :
    (r : Received) (w : World) (st st' : ChatState) (fd : ℕ)
    → st.remote.node.socket ≡ some fd
    → chat_handle_recv r w st ≡ some (0, st')
    → st'.remote.node.socket ≡ some fd
chat_handle_recv_kept r w st st' fd connected e =
    let same = ap (λ (u : User). u.node) (begins_kept st) in
    let kept =
      Every-is (Keeps (begin_receiving st).remote.node) _ (0, st')
        (into_kept r w (begin_receiving st) fd (ap (λ (n : Node). n.socket) same ∙ connected))
        (sym (into_lem r w st) ∙ e) refl in
    ap (λ (n : Node). n.socket) (kept ∙ same) ∙ connected
