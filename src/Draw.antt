-- ===== src/Draw.antt =====
-- ui.c: what is drawn of the history, as the list of the calls of ncurses that put something on the
-- screen. `strftime` of `localtime` is the argument `clock`. The whole screen is in `Draw.Screen`.
pub mod Rows
pub mod TextRect
pub mod Screen
use otpchat.Base.Int.{ℤ, pos, negsuc, pos_part, neg_part, sub_ℕ, ◌-ℤ◌, ltb_ℤ}
use otpchat.Base.{
  ℕ, zero, suc, ◌+◌, ◌-◌, ◌%◌, ◌^◌, Bool, true, false, ◌&&◌, Option, none, some, List, [], ◌∷◌,
  ◌++◌, Bytes, ◌>>=◌, if◌then◌else◌, ◌==◌, ltb, leb, length, take, drop, replicate,
}
use otpchat.Block.{content}
use otpchat.Chat.{text, chat_id_name}
use otpchat.Message.{Message}
use otpchat.State.{ChatState, Terminal}
use otpchat.Text.{c_str}
use otpchat.Ui.{char_length, string_lines, ui_message_lines}

-- `put` is a row, a column and the bytes from there on; `colour` is `attron` or `attroff`; `add` is
-- `addch` at the place behind what was drawn last.
pub data Drawing : Type 0 where
  clear refresh : Drawing
  add : ℕ → Drawing
  put : ℤ → ℤ → Bytes → Drawing
  move : ℤ → ℤ → Drawing
  colour : ℕ → Bool → Drawing

abbrev pub color_id_offset : ℕ
color_id_offset = 3

abbrev pub add_ℤ : ℤ → ℤ → ℤ
add_ℤ a b = sub_ℕ (pos_part a + pos_part b) (neg_part a + neg_part b)

-- `i` rows further down.
abbrev pub below : ℤ → ℕ → ℤ
below (pos n) i = pos (n + i)
below (negsuc n) i = sub_ℕ i (suc n)

abbrev pub is_on_screen : ℤ → Bool
is_on_screen (pos n) = true
is_on_screen (negsuc n) = false

-- Each round moves `i` on by at least one byte, so `mbs_len` rounds are enough.
pub count_bytes_loop : Terminal → Bytes → ℕ → ℕ → ℕ → ℕ → ℕ → ℕ
count_bytes_loop t mbs begin_index chars zero i j = i
count_bytes_loop t mbs begin_index chars (suc fuel) i j =
    let rest =
      count_bytes_loop t mbs begin_index chars fuel (i + char_length t mbs i)
        (if leb begin_index i then j + 1 else j) in
    if ltb i (length mbs) && (ltb j chars && ltb 0 (char_length t mbs i)) then rest else i

-- The difference is a `size_t`.
pub count_bytes : Terminal → Bytes → ℕ → ℕ → ℕ
unfolding count_bytes_loop
count_bytes t mbs begin_index chars =
    (count_bytes_loop t mbs begin_index chars (length mbs) 0 0 + 2 ^ 64 - begin_index) % 2 ^ 64

-- The rows from `i` on, with `n` to go.
rect_rows : ℤ → ℤ → ℕ → ℕ → ℕ → List Drawing
rect_rows x y w zero i = []
rect_rows x y w (suc n) i =
    let rest = rect_rows x y w n (i + 1) in
    if is_on_screen (below y i) then put (below y i) x (replicate w b' ') ∷ rest else rest

unfoldable pub draw_rect : ℤ → ℤ → ℕ → ℕ → List Drawing
unfolding rect_rows
draw_rect x y w h = rect_rows x y w h 0

unfoldable pub draw_message_header :
    (ℕ → Bytes) → ChatState → Message → ℤ → ℤ → ℕ → Option (List Drawing)
draw_message_header clock state msg x y width =
    if is_on_screen y
    then (chat_id_name state msg.id >>= λ name. some (
        (colour (msg.id + color_id_offset) true ∷ draw_rect x y width 1)
        ++ put y x (name ++ (text " [" ++ (clock msg.timestamp ++ text "]:")))
          ∷ colour (msg.id + color_id_offset) false
          ∷ []))
    else some []

-- The loop from `line` on, with `n` lines to go. "%.*s" stops at a NUL;
-- its precision is an `int`, and the `size_t` that is passed for it is taken for its value.
pub text_rows : Terminal → Bytes → ℤ → ℤ → ℕ → ℕ → ℕ → ℕ → List Drawing
text_rows t str x y width zero line str_offset = []
text_rows t str x y width (suc n) line str_offset =
    let len = count_bytes t str str_offset width in
    let rest = text_rows t str x y width n (line + 1) ((str_offset + len) % 2 ^ 64) in
    if is_on_screen (below y line)
    then put (below y line) x (c_str (take len (drop str_offset str))) ∷ rest
    else rest

unfoldable pub draw_text_rect : Terminal → Bytes → ℕ → ℤ → ℤ → ℕ → Option (List Drawing)
unfolding text_rows
draw_text_rect t str color_id x y width = do
  lines ← string_lines t str width
  some (
      (colour color_id true ∷ draw_rect x y width (if lines == 0 then 1 else lines))
      ++ (move y x ∷ text_rows t str x y width lines 0 0)
      ++ colour color_id false ∷ [])

draw_message : Terminal → (ℕ → Bytes) → ChatState → Message → ℤ → ℤ → Option (List Drawing)
draw_message t clock state msg x line = do
  header ← draw_message_header clock state msg x line state.history_width
  body ←
      draw_text_rect t (take msg.text.size (content msg.text)) (msg.id + color_id_offset) x
        (below line 1) state.history_width
  some (header ++ body)

-- From the last message on, while there is room above.
history_loop : Terminal → (ℕ → Bytes) → ChatState → ℤ → ℤ → List Message → ℤ → Option (List Drawing)
unfolding draw_message
history_loop t clock state x y [] line = some []
history_loop t clock state x y (msg ∷ msgs) line =
    if is_on_screen line
    then (ui_message_lines t msg state.history_width >>= λ msg_lines.
        let line' = line -ℤ pos msg_lines in
        let is_below = ltb_ℤ (add_ℤ y state.history_height) line' in
        (if is_below then some [] else draw_message t clock state msg x line') >>= λ drawn.
        history_loop t clock state x y msgs line' >>= λ above. some (drawn ++ above))
    else some []

reverse_onto : List Message → List Message → List Message
reverse_onto [] rest = rest
reverse_onto (msg ∷ msgs) rest = reverse_onto msgs (msg ∷ rest)

unfoldable pub draw_history : Terminal → (ℕ → Bytes) → ChatState → ℤ → ℤ → Option (List Drawing)
unfolding history_loop reverse_onto
draw_history t clock state x y =
    history_loop t clock state x y (reverse_onto state.history [])
      (below (add_ℤ y state.history_height) state.history_line)
