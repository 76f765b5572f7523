-- ===== src/Draw/Screen/Messages.antt =====
-- The colours of the history.
use otpchat.Base.Every.{Every, Every-bind, Every-then, Every-if}
use otpchat.Base.Int.{ℤ, pos, ◌-ℤ◌, ltb_ℤ}
use otpchat.Base.{
  ℕ, ◌+◌, ◌<◌, ◌≡◌, true, none, some, List, [], ◌∷◌, ◌++◌, Bytes, ◌>>=◌, if◌then◌else◌, arith,
}
use otpchat.Draw.Screen.Colors.{
  append-Leads, nothing, IsBalanced, text_rect-IsBalanced, header-IsBalanced,
}
use otpchat.Draw.Screen.Start.{set_up, is_pair}
use otpchat.Draw.{
  Drawing, add_ℤ, draw_message, history_loop, reverse_onto, draw_history, color_id_offset,
  is_on_screen,
}
use otpchat.Message.{Message}
use otpchat.State.{ChatState, Terminal}
use otpchat.Ui.{ui_message_lines}

-- Each message has the id of a status, of the local or of the remote user.
abbrev pub AllKnown : List Message → Type 0
AllKnown [] = Unit
AllKnown (msg ∷ msgs) = (msg.id < 3) × AllKnown msgs

id_color : (id : ℕ) → id < 3 → is_pair (id + color_id_offset) set_up ≡ true
id_color id h = ground arith

pub joined : (ds es : List Drawing) → IsBalanced ds → IsBalanced es → IsBalanced (ds ++ es)
joined ds es h h' = append-Leads none none none ds es h h'

known_onto :
    (msgs rest : List Message) → AllKnown msgs → AllKnown rest → AllKnown (reverse_onto msgs rest)
unfolding reverse_onto
known_onto [] rest h k = k
known_onto (msg ∷ msgs) rest (known, h) k = known_onto msgs (msg ∷ rest) h (known, k)

module _ (t : Terminal) (clock : ℕ → Bytes) (state : ChatState) where
  message-IsBalanced :
      (msg : Message) (x line : ℤ)
      → msg.id < 3
      → Every IsBalanced (draw_message t clock state msg x line)
  unfolding draw_message
  message-IsBalanced msg x line known =
      let set = id_color msg.id known in
      Every-then IsBalanced IsBalanced _ _
        (header-IsBalanced clock state msg x line state.history_width set)
        (λ header h.
          Every-then IsBalanced IsBalanced _ _
            (text_rect-IsBalanced t _ (msg.id + color_id_offset) x _ state.history_width set)
            (λ body h'. joined header body h h'))

  history_loop-IsBalanced :
      (x y : ℤ) (msgs : List Message) (line : ℤ)
      → AllKnown msgs
      → Every IsBalanced (history_loop t clock state x y msgs line)
  unfolding history_loop
  history_loop-IsBalanced x y [] line known = nothing none
  history_loop-IsBalanced x y (msg ∷ msgs) line (known, all) =
      Every-if IsBalanced (is_on_screen line) _ _
        (Every-bind IsBalanced (ui_message_lines t msg state.history_width) _ (λ msg_lines.
          let line' = line -ℤ pos msg_lines in
          let is_below = ltb_ℤ (add_ℤ y state.history_height) line' in
          Every-then IsBalanced IsBalanced
            (if is_below then some [] else draw_message t clock state msg x line')
            (λ drawn. history_loop t clock state x y msgs line' >>= λ above. some (drawn ++ above))
            (Every-if IsBalanced is_below (some []) (draw_message t clock state msg x line')
              (nothing none) (message-IsBalanced msg x line' known))
            (λ drawn h.
              Every-then IsBalanced IsBalanced (history_loop t clock state x y msgs line')
                (λ above. some (drawn ++ above)) (history_loop-IsBalanced x y msgs line' all)
                (λ above h'. joined drawn above h h'))))
        (nothing none)

  pub history-IsBalanced :
      (x y : ℤ) → AllKnown state.history → Every IsBalanced (draw_history t clock state x y)
  unfolding draw_history
  history-IsBalanced x y known =
      history_loop-IsBalanced x y (reverse_onto state.history []) _
        (known_onto state.history [] known tt)
