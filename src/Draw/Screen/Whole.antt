-- ===== src/Draw/Screen/Whole.antt =====
-- `ui_update` of ui.c as a whole: what it draws, and the state that it leaves.
use otpchat.Base.Int.{ℤ, pos}
use otpchat.Base.{ℕ, ◌+◌, ◌/◌, ◌%◌, List, [], ◌∷◌, ◌++◌, Bytes, take}
use otpchat.Block.{content}
use otpchat.Draw.{Drawing, clear, move, refresh, draw_rect}
use otpchat.Key.{Key}
use otpchat.State.{ChatState, Terminal}
use otpchat.Ui.{count_chars}

-- The state with the size of the history box, `width` columns by `rows` rows.
abbrev pub sized : ChatState → ℕ → ℤ → ChatState
sized state width rows = record state { history_width = width; history_height = rows }

abbrev pub input_of : ChatState → Bytes
input_of state = take state.input.size (content state.input)

-- Where the cursor is left.
abbrev pub cursor : Terminal → ChatState → ℕ → ℤ × ℤ
cursor t state rows =
    let chars = count_chars t (take state.cursor_index (input_of state)) in
    (pos (rows + 1 + chars / t.width), pos (chars % t.width))

-- What `ui_update` puts on the screen, in its order.
abbrev pub painted :
    Terminal
    → ChatState
    → ℕ
    → List Drawing
    → List Drawing
    → List Drawing
    → List Drawing
    → List Drawing
    → List Drawing
painted t state rows bar history local_usage remote_usage box =
    clear
    ∷ (bar
        ++ (history
            ++ (draw_rect (pos 0) (pos rows) t.width 1
                ++ (draw_rect (pos 0) (pos (rows + 2)) t.width 1
                    ++ (local_usage
                        ++ (remote_usage
                            ++ (box
                                ++ move (cursor t state rows).0 (cursor t state rows).1
                                  ∷ refresh
                                  ∷ [])))))))
