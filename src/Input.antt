-- ===== src/Input.antt =====
-- ui.c: the line of input and what a key does to the chat. A key is what `getch` returns. A line is
-- shorter than 2^31 bytes, so the `int` offsets of `next_char` and `prev_char` are exact.
pub mod Line
pub mod Walk
pub mod Editor
pub mod Steps
pub mod Refine
pub mod Enter
pub mod Undecodable
pub mod Bounds
pub mod Safety
use otpchat.Base.Int.{ℤ, pos, negsuc, sub_ℕ, to_unsigned}
use otpchat.Base.{
  ℕ, zero, suc, ◌+◌, ◌-◌, ◌%◌, ◌^◌, Bool, true, false, ◌&&◌, not, Option, none, some, List, [], ◌∷◌,
  ◌++◌, Bytes, ◌>>=◌, if◌then◌else◌, ◌==◌, leb, ltb, length, drop, take, overwrite,
}
use otpchat.Block.{Block, content, free_block}
use otpchat.Chat.{chat_push_message}
use otpchat.Command.{Calls, command_handle}
use otpchat.State.{ChatState, Terminal, World}
use otpchat.Text.{c_str}
use otpchat.Transfer.{added, chat_begin_send}
use otpchat.Ui.{char_length, ui_history_lines, update_history_box}
use otpchat.User.{ConnectionState, connected, id_local}

-- `error` is ERR, -1. `byte` is below 256; the other names are those of <ncurses.h>.
pub data Pressed : Type 0 where
  byte : ℕ → Pressed
  error key_backspace key_left key_right key_up key_down key_home key_end other_key : Pressed

-- Each round moves `i` on by at least one byte, so `mbs_len` rounds are enough.
unfoldable pub next_char_loop : Terminal → Bytes → ℕ → ℕ → ℕ → ℕ
next_char_loop t mbs cursor_pos zero i = i
next_char_loop t mbs cursor_pos (suc fuel) i =
    let rest = next_char_loop t mbs cursor_pos fuel (i + char_length t mbs i) in
    if leb i cursor_pos && (ltb i (length mbs) && ltb 0 (char_length t mbs i)) then rest else i

pub next_char : Terminal → Bytes → ℕ → ℤ
unfolding next_char_loop
next_char t mbs cursor_pos = sub_ℕ (next_char_loop t mbs cursor_pos (length mbs) 0) cursor_pos

unfoldable pub prev_char_loop : Terminal → Bytes → ℕ → ℕ → ℕ → ℕ → ℕ
prev_char_loop t mbs cursor_pos zero i prev = prev
prev_char_loop t mbs cursor_pos (suc fuel) i prev =
    let rest = prev_char_loop t mbs cursor_pos fuel (i + char_length t mbs i) i in
    if ltb i cursor_pos && (ltb i (length mbs) && ltb 0 (char_length t mbs i)) then rest else prev

pub prev_char : Terminal → Bytes → ℕ → ℤ
unfolding prev_char_loop
prev_char t mbs cursor_pos = sub_ℕ (prev_char_loop t mbs cursor_pos (length mbs) 0 0) cursor_pos

-- A size or an index with an `int` added.
abbrev pub offset_by : ℕ → ℤ → ℕ
offset_by n (pos k) = n + k
offset_by n (negsuc k) = n - suc k

-- `realloc` to `n` bytes.
abbrev pub resized : (ℕ → ℕ) → ℕ → Bytes → Bytes
resized fresh n xs = take n xs ++ added fresh (n - length xs)

-- `state->input.data` up to `state->input.size`.
abbrev pub line : ChatState → Bytes
line state = take state.input.size (content state.input)

unfoldable pub insert_byte : World → ℕ → ChatState → ChatState
insert_byte w c state =
    let xs = resized w.fresh (state.input.size + 1) (content state.input) in
    let back = take (state.input.size - state.cursor_index) (drop state.cursor_index xs) in
    let shifted = overwrite (state.cursor_index + 1) back xs in
    record state {
      input = record {
        bytes = some (overwrite state.cursor_index (c ∷ []) shifted);
        size = state.input.size + 1;
      };
      cursor_index = state.cursor_index + 1;
    }

-- `memmove` of what stands behind the cursor; the array stays as long as it was. An array that is
-- NULL has nothing to move.
pub moved_back : ChatState → ℤ → Bytes → ChatState
moved_back state offset xs =
    let back = take (state.input.size - state.cursor_index) (drop state.cursor_index xs) in
    record state {
      input = record {
        bytes = some (overwrite (offset_by state.cursor_index offset) back xs);
        size = offset_by state.input.size offset;
      };
      cursor_index = offset_by state.cursor_index offset;
    }

pub is_nonzero : ℤ → Bool
is_nonzero (pos n) = ltb 0 n
is_nonzero (negsuc n) = true

unfoldable pub erase_char : Terminal → ChatState → Option ChatState
unfolding moved_back is_nonzero
erase_char t state =
    let offset = prev_char t (line state) state.cursor_index in
    if is_nonzero offset
    then (state.input.bytes >>= λ xs. some (moved_back state offset xs))
    else some state

unfoldable pub move_left : Terminal → ChatState → ChatState
move_left t state = record state {
  cursor_index = offset_by state.cursor_index (prev_char t (line state) state.cursor_index);
}

unfoldable pub move_right : Terminal → ChatState → ChatState
move_right t state = record state {
  cursor_index = offset_by state.cursor_index (next_char t (line state) state.cursor_index);
}

-- The sum of a `size_t` and an `int` is a `size_t`.
unfoldable pub scroll_up : Terminal → ChatState → Option ChatState
scroll_up t state = do
  lines ← ui_history_lines t state
  let bottom = (state.history_line + to_unsigned 64 state.history_height) % 2 ^ 64
  some (if ltb bottom lines then record state { history_line = state.history_line + 1 } else state)

unfoldable pub scroll_down : ChatState → ChatState
scroll_down state = record state { history_line = state.history_line - 1 }

is_connected : ConnectionState → Bool
is_connected connected = true
is_connected _ = false

-- The line is done with: the editor is empty.
pub clear_line : World → ℕ × ChatState → Option (ℕ × ChatState)
clear_line w (fail, state) = do
  state' ←
      update_history_box w.terminal
        (record state { input = free_block state.input; cursor_index = 0 })
  some (fail, state')

-- A line that starts with '/' is a command, with the C string behind it.
run_command : Calls → World → ChatState → Bytes → Option (ℕ × ChatState)
run_command calls w state command_str = do
  (status, state') ← command_handle calls w state (c_str command_str)
  some (if status == 0 then 0 else 1, state')

-- The message is shown, and what the sending makes of it is passed over.
pub send_line : World → ChatState → Option (ℕ × ChatState)
send_line w state = do
  shown ←
      chat_push_message w state (record { id = id_local; timestamp = w.now; text = state.input })
  (_, sending) ← chat_begin_send w shown state.input
  some (0, sending)

-- By the first byte, with what stands behind it.
enter_line : Calls → World → ChatState → Bytes → Option (ℕ × ChatState)
unfolding clear_line run_command send_line is_connected
enter_line calls w state [] = none
enter_line calls w state (c ∷ rest) =
    if c == b'/'
    then run_command calls w state rest >>= clear_line w
    else if is_connected state.remote.state
    then send_line w state >>= clear_line w
    else some (0, state)

unfoldable pub newline : Calls → World → ChatState → Option (ℕ × ChatState)
unfolding enter_line
newline calls w state =
    if state.input.size == 0 then some (0, state) else enter_line calls w state (line state)

-- Every other key changes the editor or the view, and the screen is drawn.
pub edit_key : World → Pressed → ChatState → Option ChatState
edit_key w (byte c) state = some (insert_byte w c state)
edit_key w error state = some (insert_byte w 255 state)
edit_key w key_backspace state = erase_char w.terminal state
edit_key w key_left state = some (move_left w.terminal state)
edit_key w key_right state = some (move_right w.terminal state)
edit_key w key_up state = scroll_up w.terminal state
edit_key w key_down state = some (scroll_down state)
edit_key w key_home state = some (record state { cursor_index = 0 })
edit_key w key_end state = some (record state { cursor_index = state.input.size })
edit_key w other_key state = some state

pub is_newline : Pressed → Bool
is_newline (byte c) = c == 10
is_newline _ = false

unfoldable pub ui_handle_input : Calls → Pressed → World → ChatState → Option (ℕ × ChatState)
unfolding edit_key is_newline newline
ui_handle_input calls c w state =
    if is_newline c
    then newline calls w state
    else edit_key w c state >>= λ state'.
        update_history_box w.terminal state' >>= λ drawn. some (0, drawn)
