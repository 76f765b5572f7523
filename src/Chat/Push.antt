-- ===== src/Chat/Push.antt =====
-- Pushing a message appends it to the history, and changes nothing else but the view.
use otpchat.Base.Int.{ℤ}
use otpchat.Base.{
  ℕ, ◌+◌, ◌≤◌, ◌<◌, ◌≡◌, refl, some, [], ◌∷◌, ◌++◌, Bytes, arith, ◌==◌, length, take, Bool-cases,
  inl, inr, take-append,
}
use otpchat.Block.{Block, block_of}
use otpchat.Chat.{scrolled, chat_push_message, chat_push_status, copy_text}
use otpchat.Message.{Message}
use otpchat.State.{ChatState, World}
use otpchat.Ui.Total.{ui_message_lines_total, update_history_box_total}
use otpchat.User.{id_status}

-- The screen has at least two columns, and the history box one.
pub record CanDraw (w : World) (state : ChatState) : Type 0 where
  pub screen : 2 ≤ w.terminal.width
  pub box : 0 < state.history_width

-- `state'` is `state` with one more message, and perhaps another view.
pub record Pushed (state : ChatState) (msg : Message) (state' : ChatState) : Type 0 where
  pub line : ℕ
  pub width : ℕ
  pub height : ℤ
  pub is_state : state' ≡ record state {
    history = state.history ++ msg ∷ [];
    history_line = line;
    history_width = width;
    history_height = height;
  }
  pub box : 0 < width

scrolled_total :
    (w : World) (state : ChatState) (msg : Message)
    → CanDraw w state
    → (line : ℕ) × (scrolled w state msg ≡ some line)
unfolding scrolled
scrolled_total w state msg c = elim (Bool-cases (state.history_line == 0)) [
  | inl e ↦ (0, rw e)
  | inr e ↦
      let (n, e') = ui_message_lines_total w.terminal msg state.history_width c.box in
      (state.history_line + n, rw (e, e'))
]

copy_text_lem :
    (b : Block) (xs : Bytes)
    → b.bytes ≡ some xs
    → copy_text b ≡ some (record { bytes = some (take b.size xs); size = b.size })
unfolding copy_text
copy_text_lem b xs e = ground arith

pub chat_push_message_lem :
    (w : World) (state : ChatState) (msg : Message) (xs : Bytes)
    → CanDraw w state
    → msg.text.bytes ≡ some xs
    → (state' : ChatState) × (chat_push_message w state msg ≡ some state')
      × Pushed state
          (record msg {
            text = record { bytes = some (take msg.text.size xs); size = msg.text.size };
          })
          state'
unfolding chat_push_message
chat_push_message_lem w state msg xs c e =
    let copied = record msg {
      text = record { bytes = some (take msg.text.size xs); size = msg.text.size };
    } in
    let (line, scrolls) = scrolled_total w state copied c in
    let next = record state { history = state.history ++ copied ∷ []; history_line = line } in
    let (width, height, draws, box) = update_history_box_total w.terminal next c.screen in
    (
      record next { history_width = width; history_height = height },
      rw (copy_text_lem msg.text xs e, scrolls, draws),
      record { line = line; width = width; height = height; is_state = refl; box = box },
    )

abbrev pub status_message : World → Bytes → Message
status_message w printed = record { id = id_status; timestamp = w.now; text = block_of printed }

-- Where the screen can be drawn, a status message appears in the history as it was printed, without
-- the NUL, and nothing else but the view changes.
pub chat_push_status_lem :
    (w : World) (state : ChatState) (printed : Bytes)
    → CanDraw w state
    → (state' : ChatState) × (chat_push_status w state printed ≡ some state')
      × Pushed state (status_message w printed) state'
unfolding chat_push_status
chat_push_status_lem w state printed c =
    let full : Message = record {
      id = id_status;
      timestamp = w.now;
      text = record { bytes = some (printed ++ 0 ∷ []); size = length printed };
    } in
    rw (take-append (length printed) printed (0 ∷ []) refl) at
      (chat_push_message_lem w state full (printed ++ 0 ∷ []) c refl)
