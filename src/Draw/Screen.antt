-- ===== src/Draw/Screen.antt =====
-- ui.c: `ui_update` with all that it draws. A `float` or `double` is a number of the parameter that
-- stands for the floating-point operations; `none` is a conversion that C leaves undefined.
pub mod Bar
pub mod Usage
pub mod Parts
pub mod Total
pub mod Whole
pub mod Cursor
pub mod Start
pub mod Colors
pub mod Messages
pub mod Painted
use otpchat.Base.Int.{ℤ, pos, sub_ℕ, to_unsigned}
use otpchat.Base.{
  ℕ, zero, suc, ◌+◌, ◌-◌, ◌/◌, ◌%◌, ◌^◌, Bool, true, false, ◌&&◌, Option, none, some, List, [], ◌∷◌,
  ◌++◌, Bytes, ◌>>=◌, if◌then◌else◌, ◌==◌, ltb, leb, length, take, get_elem?,
}
use otpchat.Block.{content}
use otpchat.Chat.{text}
use otpchat.Draw.{
  Drawing, clear, refresh, add, put, move, colour, color_id_offset, add_ℤ, below, draw_rect,
  draw_text_rect, draw_history,
}
use otpchat.Key.{Key}
use otpchat.KeyStore.{KeyRef, get_key}
use otpchat.State.{ChatState, Terminal}
use otpchat.Text.{decimal}
use otpchat.Ui.{count_chars, string_lines, ui_history_lines}
use otpchat.User.{id_local, id_remote}

-- The operations of one floating-point type that the drawing uses, with the conversions to
-- `unsigned` and `int`.
pub record Floats (W : Type 0) : Type 0 where
  pub of_ℕ : ℕ → W
  pub div : W → W → W
  pub mul : W → W → W
  pub to_unsigned : W → Option ℕ
  pub to_int : W → Option ℤ

abbrev pub color_key_used : ℕ
color_key_used = 1

abbrev pub color_key_left : ℕ
color_key_left = 2

abbrev pub color_scrollbar : ℕ
color_scrollbar = color_id_offset + id_local

-- `content_offset` and `displayed_h` are `unsigned`, and so is their difference.
unfoldable pub draw_scrollbar : {W : Type 0} → Floats W → ℤ → ℤ → ℕ → ℕ → ℕ → Option (List Drawing)
draw_scrollbar f x y content_h content_offset displayed_h = do
  let bar_ratio_height = f.div (f.of_ℕ displayed_h) (f.of_ℕ content_h)
  let hidden = (content_offset + 2 ^ 32 - displayed_h) % 2 ^ 32
  let bar_ratio_top = f.div (f.of_ℕ hidden) (f.of_ℕ content_h)
  bar_height ← f.to_int (f.mul (f.of_ℕ displayed_h) bar_ratio_height)
  bar_top ← f.to_int (f.mul (f.of_ℕ displayed_h) bar_ratio_top)
  some (
      (colour color_scrollbar true
        ∷ draw_rect x (add_ℤ y bar_top) 1 (to_unsigned 32 (add_ℤ bar_height (pos 1))))
      ++ colour color_scrollbar false ∷ [])

-- `used/size`
abbrev pub usage_text : Key → Bytes
usage_text k = decimal k.head ++ (text "/" ++ decimal k.size)

-- `usage_str[i-usage_offset]`, or a space beside it.
abbrev pub usage_cell : Bytes → ℕ → ℕ → ℕ
usage_cell usage usage_offset i =
    if leb usage_offset i && ltb (i - usage_offset) (length usage)
    then (elim (get_elem? usage (i - usage_offset)) [ none ↦ b' ' | some c ↦ c ])
    else b' '

-- Either loop: `n` cells from `i` on.
pub usage_cells : Bytes → ℕ → ℕ → ℕ → List Drawing
usage_cells usage usage_offset zero i = []
usage_cells usage usage_offset (suc n) i =
    add (usage_cell usage usage_offset i) ∷ usage_cells usage usage_offset n (i + 1)

-- The columns taken, and what is drawn.
unfoldable pub draw_key_usage :
    {W : Type 0} → Floats W → Bytes → Key → ℤ → ℤ → ℕ → Option (ℕ × List Drawing)
unfolding usage_cells
draw_key_usage f info_text k x y min_width = do
  let usage = usage_text k
  let width = if ltb min_width (length usage) then length usage else min_width
  let usage_offset = (width - length usage) / 2
  used ← f.to_unsigned (f.mul (f.div (f.of_ℕ k.head) (f.of_ℕ k.size)) (f.of_ℕ width))
  let left = (width + 2 ^ 32 - used) % 2 ^ 32
  some (
    length info_text + width,
    (put y x info_text ∷ colour color_key_used true ∷ usage_cells usage usage_offset used 0)
        ++ (colour color_key_used false
            ∷ colour color_key_left true
            ∷ usage_cells usage usage_offset left used)
        ++ colour color_key_left false ∷ [],
  )

-- With the scrollbar, where the history is longer than its box.
pub draw_bar :
    {W : Type 0} → Floats W → Terminal → ChatState → ℕ → Option (ChatState × List Drawing)
draw_bar f t state lines =
    if ltb (to_unsigned 32 state.history_height) lines
    then (let narrow = record state { history_width = state.history_width - 1 } in
        ui_history_lines t narrow >>= λ history_lines.
        draw_scrollbar f (sub_ℕ t.width 1) (pos 0) history_lines
          ((history_lines + 2 ^ 32 - state.history_line) % 2 ^ 32)
          (to_unsigned 32 state.history_height)
        >>= λ bar. some (narrow, bar))
    else some (state, [])

-- `state->remote.key` may be NULL.
pub draw_remote_usage :
    {W : Type 0} → Floats W → Terminal → ChatState → ℕ → Option KeyRef → Option (List Drawing)
draw_remote_usage f t state local_key_usage_len none = some []
draw_remote_usage f t state local_key_usage_len (some ref) = do
  k ← get_key state.keys ref
  (_, drawn) ←
      draw_key_usage f (text "Remote: ") k (pos (local_key_usage_len + 1)) (sub_ℕ t.height 1) 20
  some drawn

-- Where the cursor is left: a row and a column.
unfoldable pub cursor_place : Terminal → Bytes → ℕ → ℤ → Option (ℤ × ℤ)
cursor_place t input cursor_index input_line =
    let cursor_pos = count_chars t (take cursor_index input) in
    if t.width == 0
    then none
    else some (below (below input_line 1) (cursor_pos / t.width), pos (cursor_pos % t.width))

-- The state that `ui_update` leaves, and the calls that it makes.
unfoldable pub draw_screen :
    {S D : Type 0}
    → Floats S
    → Floats D
    → Terminal
    → (ℕ → Bytes)
    → ChatState
    → Option (ChatState × List Drawing)
unfolding draw_bar draw_remote_usage
draw_screen single double t clock state = do
  let input = take state.input.size (content state.input)
  input_lines ← string_lines t input t.width
  let lines = if input_lines == 0 then 1 else input_lines
  let input_line = sub_ℕ t.height (lines + 2)
  let sized = record state { history_width = t.width; history_height = input_line }
  history_lines ← ui_history_lines t sized
  (state', bar) ← draw_bar single t sized history_lines
  history ← draw_history t clock state' (pos 0) (pos 0)
  local_ref ← state'.local.key
  local_key ← get_key state'.keys local_ref
  (local_len, local_usage) ←
      draw_key_usage double (text "Local:  ") local_key (pos 0) (sub_ℕ t.height 1) 20
  remote_usage ← draw_remote_usage double t state' local_len state'.remote.key
  box ← draw_text_rect t input (color_id_offset + id_local) (pos 0) (below input_line 1) t.width
  cursor ← cursor_place t input state'.cursor_index input_line
  some (
    state',
    clear
        ∷ (bar
            ++ (history
                ++ (draw_rect (pos 0) input_line t.width 1
                    ++ (draw_rect (pos 0) (below input_line 2) t.width 1
                        ++ (local_usage
                            ++ (remote_usage
                                ++ (box ++ move cursor.0 cursor.1 ∷ refresh ∷ []))))))),
  )
