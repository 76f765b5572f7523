-- ===== src/Draw/Screen/Start.antt =====
-- `ui_init` and `ui_end` of ui.c: the calls that set ncurses up and end it.
use otpchat.Base.{ℕ, ◌+◌, Bool, false, ◌||◌, Option, some, List, [], ◌∷◌, Bytes, ◌>>=◌, ◌==◌}
use otpchat.Draw.Screen.{Floats, color_key_used, color_key_left, draw_screen}
use otpchat.Draw.{Drawing, color_id_offset}
use otpchat.State.{ChatState, Terminal}
use otpchat.User.{id_status, id_local, id_remote}

-- `default_color` is -1.
pub data Color : Type 0 where
  default_color black red green cyan white : Color

pub data SetUp : Type 0 where
  setlocale initscr cbreak noecho use_default_colors keypad start_color endwin : SetUp
  init_pair : ℕ → Color → Color → SetUp

abbrev pub set_up : List SetUp
set_up =
    setlocale
    ∷ initscr
    ∷ cbreak
    ∷ noecho
    ∷ use_default_colors
    ∷ keypad
    ∷ start_color
    ∷ init_pair color_key_used white red
    ∷ init_pair color_key_left white green
    ∷ init_pair (id_status + color_id_offset) default_color default_color
    ∷ init_pair (id_local + color_id_offset) black white
    ∷ init_pair (id_remote + color_id_offset) white cyan
    ∷ []

-- The state, the calls that set the screen up, and those of `ui_update` behind them.
unfoldable pub ui_init :
    {S D : Type 0}
    → Floats S
    → Floats D
    → Terminal
    → (ℕ → Bytes)
    → ChatState
    → Option (ChatState × List SetUp × List Drawing)
ui_init single double t clock state = do
  (state', drawn) ← draw_screen single double t clock state
  some (state', set_up, drawn)

ui_end : List SetUp
ui_end = endwin ∷ []

-- Whether the colour pair has been initialised.
abbrev pub is_pair : ℕ → List SetUp → Bool
is_pair c [] = false
is_pair c (init_pair c' fg bg ∷ calls) = (c == c') || is_pair c calls
is_pair c (_ ∷ calls) = is_pair c calls
