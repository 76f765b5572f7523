-- ===== src/Draw/Screen/Painted.antt =====
-- The colours of the whole screen, from `ui_init` on.
use otpchat.Base.Every.{Every, Every-bind, Every-then, Every-if, Every-is}
use otpchat.Base.Int.{ℤ, pos, sub_ℕ, to_unsigned}
use otpchat.Base.{
  ℕ, ◌+◌, ◌≡◌, refl, sym, ap, append-nil, ◌∙◌, none, some, Option, List, [], ◌∷◌, ◌++◌, Bytes,
  if◌then◌else◌, ltb, take, ◌==◌,
}
use otpchat.Chat.{text}
use otpchat.Draw.Screen.Colors.{
  paint, nothing, IsBalanced, IsDrawn, IsPlain, draw_rect-IsPlain, scrollbar-IsBalanced,
  key_usage-IsBalanced, text_rect-IsBalanced,
}
use otpchat.Draw.Screen.Start.{SetUp, set_up, ui_init}
use otpchat.Draw.Screen.{
  Floats, draw_bar, draw_remote_usage, draw_screen, draw_key_usage, cursor_place,
}
use otpchat.Draw.{
  Drawing, below, clear, refresh, move, draw_history, draw_text_rect, color_id_offset,
}
use otpchat.KeyStore.{KeyRef, get_key}
use otpchat.Block.{content}
use otpchat.State.{ChatState, Terminal}
use otpchat.User.{id_local}
use otpchat.Ui.{string_lines, ui_history_lines}
use otpchat.Draw.Screen.Messages.{AllKnown, joined, history-IsBalanced}

remote_usage-IsBalanced :
    {W : Type 0} (f : Floats W) (t : Terminal) (state : ChatState) (len : ℕ) (ref : Option KeyRef)
    → Every IsBalanced (draw_remote_usage f t state len ref)
unfolding draw_remote_usage
remote_usage-IsBalanced f t state len none = nothing none
remote_usage-IsBalanced f t state len (some ref) =
    Every-bind IsBalanced (get_key state.keys ref) _ (λ k.
      Every-then IsDrawn IsBalanced _ _
        (key_usage-IsBalanced f (text "Remote: ") k (pos (len + 1)) (sub_ℕ t.height 1) 20)
        (λ r h. h))

abbrev HasBar : ChatState × List Drawing → Type 0
HasBar r = AllKnown r.0.history × IsBalanced r.1

bar-IsBalanced :
    {W : Type 0} (f : Floats W) (t : Terminal) (state : ChatState) (lines : ℕ)
    → AllKnown state.history
    → Every HasBar (draw_bar f t state lines)
unfolding draw_bar
bar-IsBalanced f t state lines known =
    Every-if HasBar (ltb (to_unsigned 32 state.history_height) lines) _ _
      (Every-bind HasBar (ui_history_lines t _) _ (λ history_lines.
        Every-then IsBalanced HasBar _ _
          (scrollbar-IsBalanced f (sub_ℕ t.width 1) (pos 0) history_lines _ _)
          (λ bar h. (known, h))))
      (known, nothing none)

gathered :
    (bar history local_usage remote_usage box margins margin : List Drawing) (cursor : ℤ × ℤ)
    → IsBalanced bar
    → IsBalanced history
    → IsBalanced local_usage
    → IsBalanced remote_usage
    → IsBalanced box
    → IsPlain margins
    → IsPlain margin
    → IsBalanced (
        clear
        ∷ (bar
            ++ (history
                ++ (margins
                    ++ (margin
                        ++ (local_usage
                            ++ (remote_usage
                                ++ (box ++ move cursor.0 cursor.1 ∷ refresh ∷ []))))))))
gathered bar history local_usage remote_usage box margins margin cursor h₁ h₂ h₃ h₄ h₅ m m' =
    let all = joined bar _ h₁ (
      joined history _ h₂ (
        joined margins _ (m none) (
          joined margin _ (m' none) (
            joined local_usage _ h₃
              (joined remote_usage _ h₄ (joined box _ h₅ (record { before = λ rest. refl }))))))) in
    record { before = all.before }

screen-IsBalanced :
    {S D : Type 0} (single : Floats S) (double : Floats D) (t : Terminal) (clock : ℕ → Bytes)
    (state : ChatState)
    → AllKnown state.history
    → Every IsDrawn (draw_screen single double t clock state)
unfolding draw_screen
screen-IsBalanced single double t clock state known =
    let input = take state.input.size (content state.input) in
    Every-bind IsDrawn (string_lines t input t.width) _ (λ input_lines.
      let input_line = sub_ℕ t.height ((if input_lines == 0 then 1 else input_lines) + 2) in
      let sized = record state { history_width = t.width; history_height = input_line } in
      Every-bind IsDrawn (ui_history_lines t sized) _ (λ history_lines.
        Every-then HasBar IsDrawn (draw_bar single t sized history_lines) _
          (bar-IsBalanced single t sized history_lines known)
          (λ r bar.
            Every-then IsBalanced IsDrawn (draw_history t clock r.0 (pos 0) (pos 0)) _
              (history-IsBalanced t clock r.0 (pos 0) (pos 0) bar.0)
              (λ history h. Every-bind IsDrawn r.0.local.key _ (λ ref.
                Every-bind IsDrawn (get_key r.0.keys ref) _ (λ k.
                  Every-then IsDrawn IsDrawn
                    (draw_key_usage double (text "Local:  ") k (pos 0) (sub_ℕ t.height 1) 20) _
                    (key_usage-IsBalanced double (text "Local:  ") k (pos 0) (sub_ℕ t.height 1) 20)
                    (λ usage u.
                      Every-then IsBalanced IsDrawn
                        (draw_remote_usage double t r.0 usage.0 r.0.remote.key) _
                        (remote_usage-IsBalanced double t r.0 usage.0 r.0.remote.key)
                        (λ remote_usage v.
                          Every-then IsBalanced IsDrawn
                            (draw_text_rect t input (color_id_offset + id_local) (pos 0)
                              (below input_line 1) t.width)
                            _
                            (text_rect-IsBalanced t input (color_id_offset + id_local) (pos 0)
                              (below input_line 1) t.width refl)
                            (λ box b.
                              Every-bind IsDrawn (cursor_place t input r.0.cursor_index input_line)
                                _
                                (λ cursor.
                                  gathered r.1 history usage.1 remote_usage box _ _ cursor bar.1 h u
                                    v b (draw_rect-IsPlain (pos 0) input_line t.width 1)
                                    (draw_rect-IsPlain (pos 0) (below input_line 2) t.width
                                      1)))))))))))

abbrev IsStarted : ChatState × List SetUp × List Drawing → Type 0
IsStarted r = (r.1 ≡ set_up) × IsBalanced r.2

init-IsBalanced :
    {S D : Type 0} (single : Floats S) (double : Floats D) (t : Terminal) (clock : ℕ → Bytes)
    (state : ChatState)
    → AllKnown state.history
    → Every IsStarted (ui_init single double t clock state)
unfolding ui_init
init-IsBalanced single double t clock state known =
    Every-then IsDrawn IsStarted (draw_screen single double t clock state) _
      (screen-IsBalanced single double t clock state known) (λ r h. (refl, h))

-- What `ui_init` draws and what a later `ui_update` draws, where they are defined, for histories
-- whose messages have the ids of a status and of the two users: from one call to the next at most one
-- colour is on, it is turned off before the next is turned on and at the end, and it is one of the
-- pairs that `ui_init` has initialised.
pub draw_screen-ui_init :
    {S D : Type 0} (single : Floats S) (double : Floats D) (t t' : Terminal)
    (clock clock' : ℕ → Bytes) (old old' state state' : ChatState) (calls : List SetUp)
    (drawn drawn' : List Drawing)
    → AllKnown old.history
    → ui_init single double t clock old ≡ some (old', calls, drawn)
    → AllKnown state.history
    → draw_screen single double t' clock' state ≡ some (state', drawn')
    → paint calls none (drawn ++ drawn') ≡ some none
draw_screen-ui_init single double t t' clock clock' old old' state state' calls drawn drawn' known
      starts known' draws =
    let start =
      Every-is IsStarted _ (old', calls, drawn) (init-IsBalanced single double t clock old known)
        starts in
    let screen =
      Every-is IsDrawn _ (state', drawn') (screen-IsBalanced single double t' clock' state known')
        draws in
    ap (λ (set : List SetUp). paint set none (drawn ++ drawn')) start.0
    ∙ start.1.before drawn'
    ∙ ap (paint set_up none) (sym (append-nil drawn'))
    ∙ screen.before []
