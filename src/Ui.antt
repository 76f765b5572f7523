-- ===== src/Ui.antt =====
-- ui.c: how many characters and lines a text takes, and what `ui_update` does to the state. What is
-- drawn is in `Draw`. `none` is a division by a width of 0.
pub mod Total
pub mod Count
use otpchat.Base.Int.{ℤ, sub_ℕ, to_unsigned}
use otpchat.Base.{
  ℕ, zero, suc, ◌+◌, ◌-◌, ◌/◌, ◌%◌, ◌^◌, Bool, true, false, ◌&&◌, Option, none, some, List, [], ◌∷◌,
  Bytes, ◌>>=◌, if◌then◌else◌, ◌==◌, ltb, length, drop, take,
}
use otpchat.Block.{Block, content}
use otpchat.Message.{Message}
use otpchat.State.{ChatState, Terminal}

-- `mblen(mbs_begin+i, mbs_len-i)`, 0 where it is below 1.
abbrev pub char_length : Terminal → Bytes → ℕ → ℕ
char_length t mbs i = elim (t.mblen (drop i mbs)) [ none ↦ 0 | some n ↦ n ]

-- Each round moves `i` on by at least one byte: `mbs_len` rounds are enough.
count_chars_loop : Terminal → Bytes → ℕ → ℕ → ℕ → ℕ
count_chars_loop t mbs zero i chars = chars
count_chars_loop t mbs (suc fuel) i chars =
    let rest = count_chars_loop t mbs fuel (i + char_length t mbs i) (chars + 1) in
    if ltb i (length mbs) && ltb 0 (char_length t mbs i) then rest else chars

unfoldable pub count_chars : Terminal → Bytes → ℕ
unfolding count_chars_loop
count_chars t mbs = count_chars_loop t mbs (length mbs) 0 0

unfoldable pub string_lines : Terminal → Bytes → ℕ → Option ℕ
string_lines t str width =
    let chars = count_chars t str in
    if chars == 0
    then some 0
    else if width == 0
    then none
    else some (((chars - 1) / width + 1) % 2 ^ 32)

unfoldable pub ui_message_lines : Terminal → Message → ℕ → Option ℕ
ui_message_lines t msg width = do
  lines ← string_lines t (take msg.text.size (content msg.text)) width
  some ((1 + lines) % 2 ^ 32)

history_lines_loop : Terminal → ℕ → ℕ → List Message → Option ℕ
history_lines_loop t width lines [] = some lines
history_lines_loop t width lines (msg ∷ msgs) = do
  n ← ui_message_lines t msg width
  history_lines_loop t width ((lines + n) % 2 ^ 32) msgs

unfoldable pub ui_history_lines : Terminal → ChatState → Option ℕ
unfolding history_lines_loop
ui_history_lines t state = history_lines_loop t state.history_width 0 state.history

-- Room for the scrollbar, where the history is longer than its box.
unfoldable pub make_room : Terminal → ChatState → ℕ → Option ChatState
make_room t state lines =
    if ltb (to_unsigned 32 state.history_height) lines
    then (let narrow = record state { history_width = state.history_width - 1 } in
        ui_history_lines t narrow >>= λ _. some narrow)
    else some state

-- The part of `ui_update` that changes the state: the size of the history box. The width of the screen is at least 1, as in ncurses.
unfoldable pub update_history_box : Terminal → ChatState → Option ChatState
unfolding make_room
update_history_box t state = do
  input_lines ← string_lines t (take state.input.size (content state.input)) t.width
  let lines = if input_lines == 0 then 1 else input_lines
  let sized = record state { history_width = t.width; history_height = sub_ℕ t.height (lines + 2) }
  history_lines ← ui_history_lines t sized
  make_room t sized history_lines
