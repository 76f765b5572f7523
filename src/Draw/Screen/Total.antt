-- ===== src/Draw/Screen/Total.antt =====
-- When `ui_update` of ui.c draws the whole screen.
use otpchat.Base.Int.{ℤ, pos, ◌-ℤ◌, ltb_ℤ}
use otpchat.Base.{
  ℕ, ◌+◌, ◌<◌, ◌≡◌, refl, ap, ◌∙◌, some, Option, List, [], ◌∷◌, ◌++◌, Bytes, ◌>>=◌, if◌then◌else◌,
  ◌==◌, take, Bool-cases, inl, inr,
}
use otpchat.Block.{content}
use otpchat.Chat.{text, chat_id_name}
use otpchat.Draw.{
  Drawing, add_ℤ, is_on_screen, below, color_id_offset, draw_text_rect, draw_message_header,
  draw_message, history_loop, reverse_onto, draw_history,
}
use otpchat.Message.{Message}
use otpchat.State.{ChatState, Terminal}
use otpchat.Ui.{string_lines, ui_message_lines}
use otpchat.Ui.Total.{string_lines_total, ui_message_lines_total}

-- Both users have a name.
pub record HasNames (state : ChatState) : Type 0 where
  pub local : Bytes
  pub is_local : state.local.name ≡ some local
  pub remote : Bytes
  pub is_remote : state.remote.name ≡ some remote

chat_id_name_total :
    (state : ChatState) (id : ℕ)
    → HasNames state
    → (name : Bytes) × (chat_id_name state id ≡ some name)
unfolding chat_id_name
chat_id_name_total state id h = elim (Bool-cases (id == 0)) [
  | inl e ↦ (text "Status message", rw e)
  | inr e ↦ elim (Bool-cases (id == 1)) [
    | inl e' ↦ (h.local, rw (e, e') h.is_local)
    | inr e' ↦ elim (Bool-cases (id == 2)) [
      | inl e'' ↦ (h.remote, rw (e, e', e'') h.is_remote)
      | inr e'' ↦ (text "Unknown", rw (e, e', e''))
    ]
  ]
]

abbrev pub Drawn : {A : Type 0} → Option A → Type 0
Drawn {A} o = (ds : A) × (o ≡ some ds)

pub Drawn-bind :
    {A B : Type 0} (o : Option A) (f : A → Option B)
    → Drawn o
    → ((a : A) → Drawn (f a))
    → Drawn (o >>= f)
Drawn-bind o f (a, e) h = let (b, e') = h a in (b, ap (λ o. o >>= f) e ∙ e')

module _ (t : Terminal) (clock : ℕ → Bytes) where
  pub text_rect_total :
      (str : Bytes) (color_id : ℕ) (x y : ℤ) (width : ℕ)
      → 0 < width
      → Drawn (draw_text_rect t str color_id x y width)
  unfolding draw_text_rect
  text_rect_total str color_id x y width wide =
      Drawn-bind (string_lines t str width) _ (string_lines_total t str width wide) (λ n. (_, refl))

  header_total :
      (state : ChatState) (msg : Message) (x y : ℤ) (width : ℕ)
      → HasNames state
      → Drawn (draw_message_header clock state msg x y width)
  unfolding draw_message_header
  header_total state msg x y width h = elim (Bool-cases (is_on_screen y)) [
    | inl e ↦ rw e (
        Drawn-bind (chat_id_name state msg.id) _ (chat_id_name_total state msg.id h)
          (λ name. (_, refl)))
    | inr e ↦ rw e ([], refl)
  ]

  message_total :
      (state : ChatState) (msg : Message) (x line : ℤ)
      → HasNames state
      → 0 < state.history_width
      → Drawn (draw_message t clock state msg x line)
  unfolding draw_message
  message_total state msg x line h wide =
      Drawn-bind (draw_message_header clock state msg x line state.history_width) _
        (header_total state msg x line state.history_width h)
        (λ header.
          Drawn-bind
            (draw_text_rect t (take msg.text.size (content msg.text)) (msg.id + color_id_offset) x
              (below line 1) state.history_width)
            _
            (text_rect_total _ (msg.id + color_id_offset) x (below line 1) state.history_width wide)
            (λ body. (_, refl)))

  round_total :
      (state : ChatState) (msg : Message) (x y line : ℤ) (msgs : List Message)
      → HasNames state
      → 0 < state.history_width
      → Drawn (history_loop t clock state x y msgs line)
      → Drawn (
          (if ltb_ℤ (add_ℤ y state.history_height) line
            then some []
            else draw_message t clock state msg x line)
          >>= λ drawn. history_loop t clock state x y msgs line >>= λ above. some (drawn ++ above))
  round_total state msg x y line msgs h wide later =
      let tail : (drawn : List Drawing)
          → Drawn (history_loop t clock state x y msgs line >>= λ above. some (drawn ++ above)) =
        λ drawn.
          Drawn-bind (history_loop t clock state x y msgs line) _ later (λ above. (_, refl)) in
      elim (Bool-cases (ltb_ℤ (add_ℤ y state.history_height) line)) [
        | inl e ↦ rw e (tail [])
        | inr e ↦ rw e (
            Drawn-bind (draw_message t clock state msg x line) _
              (message_total state msg x line h wide) tail)
      ]

  history_loop_total :
      (state : ChatState) (x y : ℤ) (msgs : List Message) (line : ℤ)
      → HasNames state
      → 0 < state.history_width
      → Drawn (history_loop t clock state x y msgs line)
  unfolding history_loop
  history_loop_total state x y [] line h wide = ([], refl)
  history_loop_total state x y (msg ∷ msgs) line h wide =
      let later : (l : ℤ) → Drawn (history_loop t clock state x y msgs l) =
        λ l. history_loop_total state x y msgs l h wide in
      elim (Bool-cases (is_on_screen line)) [
        | inl e ↦ rw e (
            Drawn-bind (ui_message_lines t msg state.history_width) _
              (ui_message_lines_total t msg state.history_width wide)
              (λ n. round_total state msg x y (line -ℤ pos n) msgs h wide (later (line -ℤ pos n))))
        | inr e ↦ rw e ([], refl)
      ]

  pub draw_history_total :
      (state : ChatState) (x y : ℤ)
      → HasNames state
      → 0 < state.history_width
      → Drawn (draw_history t clock state x y)
  unfolding draw_history
  draw_history_total state x y h wide =
      history_loop_total state x y (reverse_onto state.history [])
        (below (add_ℤ y state.history_height) state.history_line) h wide
