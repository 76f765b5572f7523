-- ===== src/Ui/Total.antt =====
-- On a screen of at least two columns nothing is divided by 0.
use otpchat.Base.{
  ℕ, ◌+◌, ◌-◌, ◌/◌, ◌%◌, ◌^◌, ◌≤◌, ◌<◌, ◌≡◌, refl, false, some, List, [], ◌∷◌, Bytes, arith,
  if◌then◌else◌, ◌==◌, ltb, Bool-cases, inl, inr, take,
}
use otpchat.Base.Int.{ℤ, sub_ℕ, to_unsigned}
use otpchat.Block.{content}
use otpchat.Message.{Message}
use otpchat.State.{ChatState, Terminal}
use otpchat.Ui.{
  string_lines, count_chars, ui_message_lines, history_lines_loop, ui_history_lines, make_room,
  update_history_box,
}

pub string_lines_total :
    (t : Terminal) (str : Bytes) (width : ℕ)
    → 0 < width
    → (n : ℕ) × (string_lines t str width ≡ some n)
unfolding string_lines
string_lines_total t str width h = elim (Bool-cases (count_chars t str == 0)) [
  | inl e ↦ (0, rw e)
  | inr e ↦
      let wide : (width == 0) ≡ false = ground arith in
      (((count_chars t str - 1) / width + 1) % 2 ^ 32, rw (e, wide))
]

pub ui_message_lines_total :
    (t : Terminal) (msg : Message) (width : ℕ)
    → 0 < width
    → (n : ℕ) × (ui_message_lines t msg width ≡ some n)
unfolding ui_message_lines
ui_message_lines_total t msg width h =
    let (n, e) = string_lines_total t (take msg.text.size (content msg.text)) width h in
    ((1 + n) % 2 ^ 32, rw e)

history_lines_total :
    (t : Terminal) (width lines : ℕ) (msgs : List Message)
    → 0 < width
    → lines < 2 ^ 32
    → (n : ℕ) × (history_lines_loop t width lines msgs ≡ some n) × (n < 2 ^ 32)
unfolding history_lines_loop
history_lines_total t width lines [] h small = (lines, refl, small)
history_lines_total t width lines (msg ∷ msgs) h small =
    let (n, e) = ui_message_lines_total t msg width h in
    let (m, e', m_small) =
      history_lines_total t width ((lines + n) % 2 ^ 32) msgs h (omega arith) in
    (m, rw (e, e'), m_small)

-- The number of lines is an `unsigned`.
pub ui_history_lines_total :
    (t : Terminal) (state : ChatState)
    → 0 < state.history_width
    → (n : ℕ) × (ui_history_lines t state ≡ some n) × (n < 2 ^ 32)
unfolding ui_history_lines
ui_history_lines_total t state h =
    history_lines_total t state.history_width 0 state.history h (omega arith)

make_room_total :
    (t : Terminal) (state : ChatState) (lines : ℕ)
    → 2 ≤ state.history_width
    → (width : ℕ) × (make_room t state lines ≡ some (record state { history_width = width }))
      × (0 < width)
unfolding make_room
make_room_total t state lines h =
    let narrow = record state { history_width = state.history_width - 1 } in
    let (n, e, _) = ui_history_lines_total t narrow (omega arith) in
    elim (Bool-cases (ltb (to_unsigned 32 state.history_height) lines)) [
      | inl long ↦ (state.history_width - 1, rw (long, e), omega arith)
      | inr short ↦ (state.history_width, rw short, omega arith)
    ]

-- On a screen of at least two columns `ui_update` returns, leaves a history box of at least one
-- column, and changes nothing but the size of the history box.
pub update_history_box_total :
    (t : Terminal) (state : ChatState)
    → 2 ≤ t.width
    → (width : ℕ) × (height : ℤ) × (update_history_box t state
        ≡ some (record state { history_width = width; history_height = height }))
      × (0 < width)
unfolding update_history_box
update_history_box_total t state h =
    let (input_lines, e) =
      string_lines_total t (take state.input.size (content state.input)) t.width (omega arith) in
    let lines = if input_lines == 0 then 1 else input_lines in
    let sized = record state {
      history_width = t.width;
      history_height = sub_ℕ t.height (lines + 2);
    } in
    let (n, e', _) = ui_history_lines_total t sized (omega arith) in
    let (width, e'', pos_width) = make_room_total t sized n h in
    (width, sub_ℕ t.height (lines + 2), rw (e, e', e''), pos_width)
