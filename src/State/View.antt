-- ===== src/State/View.antt =====
-- Drawing the screen and pushing a message, and what holds of the chat.
use otpchat.Base.Int.{ℤ}
use otpchat.Base.{ℕ, ◌≤◌, ◌<◌, ◌≡◌, Option, some, List, Bytes}
use otpchat.Chat.Push.{chat_push_message_lem, chat_push_status_lem}
use otpchat.Chat.{chat_push_message, chat_push_status}
use otpchat.State.Inv.{InvOf, Safe, Safe-some}
use otpchat.Message.{Message}
use otpchat.State.{ChatState, Terminal, World}
use otpchat.Ui.Total.{update_history_box_total}
use otpchat.Ui.{update_history_box}

module _ (Sockets : Option ℕ → Option ℕ → Type 0) where
  viewed :
      (st : ChatState) (history : List Message) (line width : ℕ) (height : ℤ)
      → InvOf Sockets st
      → 0 < width
      → InvOf Sockets (record st {
        history = history;
        history_line = line;
        history_width = width;
        history_height = height;
      })
  viewed st history line width height h box = record {
    box = box;
    net = h.net;
    receiving = h.receiving;
    sending = h.sending;
    input = h.input;
    sockets = h.sockets;
  }

  pub chat_push_message-Safe :
      (w : World) (st : ChatState) (msg : Message) (xs : Bytes)
      → 2 ≤ w.terminal.width
      → msg.text.bytes ≡ some xs
      → InvOf Sockets st
      → Safe (InvOf Sockets) (chat_push_message w st msg)
  chat_push_message-Safe w st msg xs wide text_is h =
      let (st', pushes, p) =
        chat_push_message_lem w st msg xs (record { screen = wide; box = h.box }) text_is in
      Safe-some (InvOf Sockets) (chat_push_message w st msg) st' pushes
        (rw p.is_state (viewed st _ p.line p.width p.height h p.box))

  pub chat_push_status-Safe :
      (w : World) (st : ChatState) (printed : Bytes)
      → 2 ≤ w.terminal.width
      → InvOf Sockets st
      → Safe (InvOf Sockets) (chat_push_status w st printed)
  chat_push_status-Safe w st printed wide h =
      let (st', pushes, p) =
        chat_push_status_lem w st printed (record { screen = wide; box = h.box }) in
      Safe-some (InvOf Sockets) (chat_push_status w st printed) st' pushes
        (rw p.is_state (viewed st _ p.line p.width p.height h p.box))

  pub update_history_box-Safe :
      (t : Terminal) (st : ChatState)
      → 2 ≤ t.width
      → InvOf Sockets st
      → Safe (InvOf Sockets) (update_history_box t st)
  update_history_box-Safe t st wide h =
      let (width, height, draws, box) = update_history_box_total t st wide in
      Safe-some (InvOf Sockets) (update_history_box t st) _ draws
        (viewed st st.history st.history_line width height h box)
