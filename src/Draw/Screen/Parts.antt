-- ===== src/Draw/Screen/Parts.antt =====
-- The scrollbar and the use of the keys, as `ui_update` of ui.c draws them.
use otpchat.Base.Int.{ℤ, pos, sub_ℕ, to_unsigned}
use otpchat.Base.{
  ℕ, ◌+◌, ◌-◌, ◌%◌, ◌^◌, ◌≤◌, ◌<◌, ◌≡◌, refl, ap, ◌∙◌, some, none, Option, List, [], Bytes,
  if◌then◌else◌, ◌==◌, ltb, arith, take, Bool-cases, inl, inr,
}
use otpchat.Block.{content}
use otpchat.Chat.{text}
use otpchat.Draw.{Drawing}
use otpchat.Draw.Screen.{Floats, draw_scrollbar, draw_key_usage, draw_bar, draw_remote_usage}
use otpchat.Draw.Screen.Total.{Drawn, Drawn-bind}
use otpchat.Draw.Screen.Usage.{IsRounding, draw_key_usage_lem}
use otpchat.Key.{Key}
use otpchat.KeyStore.{KeyRef, get_key}
use otpchat.State.{ChatState, Terminal}
use otpchat.Ui.{string_lines, ui_history_lines, make_room}
use otpchat.Ui.Total.{ui_history_lines_total}

-- The history is not scrolled beyond its first line.
abbrev pub IsInView : Terminal → ChatState → ℕ → ℕ → Type 0
IsInView t state rows lines =
    rows < lines
    → (n : ℕ)
    → ui_history_lines t (record state { history_width = state.history_width - 1 }) ≡ some n
    → state.history_line + rows ≤ n

module _ {W : Type 0} (f : Floats W) (r : IsRounding f) where
  ratio_int :
      (part whole scale : ℕ)
      → part ≤ whole
      → 0 < whole
      → scale < 2 ^ 24
      → (m : ℕ) × (f.to_int (f.mul (f.of_ℕ scale) (f.div (f.of_ℕ part) (f.of_ℕ whole)))
          ≡ some (pos m))
        × (m ≤ scale)
  ratio_int part whole scale inside some_there small =
      let x = f.div (f.of_ℕ part) (f.of_ℕ whole) in
      let (above, below) = r.div_range part whole inside some_there in
      let (above', below') = r.mul_range x scale above below in
      let (m, converts, at_most) =
        r.to_int_range (f.mul x (f.of_ℕ scale)) scale above' below' small in
      (m, ap f.to_int (r.mul_comm (f.of_ℕ scale) x) ∙ converts, at_most)

  scrollbar_total :
      (x y : ℤ) (content_h content_offset displayed_h : ℕ)
      → displayed_h ≤ content_offset
      → content_offset ≤ content_h
      → 0 < displayed_h
      → displayed_h < 2 ^ 24
      → content_h < 2 ^ 32
      → Drawn (draw_scrollbar f x y content_h content_offset displayed_h)
  unfolding draw_scrollbar
  scrollbar_total x y content_h content_offset displayed_h above inside some_rows small fits =
      let hidden = (content_offset + 2 ^ 32 - displayed_h) % 2 ^ 32 in
      let (height, is_height, _) =
        ratio_int displayed_h content_h displayed_h (omega arith) (omega arith) small in
      let (top, is_top, _) =
        ratio_int hidden content_h displayed_h (omega arith) (omega arith) small in
      Drawn-bind
        (f.to_int (f.mul (f.of_ℕ displayed_h) (f.div (f.of_ℕ displayed_h) (f.of_ℕ content_h)))) _
        (pos height, is_height)
        (λ bar_height.
          Drawn-bind
            (f.to_int (f.mul (f.of_ℕ displayed_h) (f.div (f.of_ℕ hidden) (f.of_ℕ content_h)))) _
            (pos top, is_top) (λ bar_top. (_, refl)))

  pub bar_lem :
      (t : Terminal) (state : ChatState) (rows lines : ℕ)
      → state.history_height ≡ pos rows
      → 0 < rows
      → rows < 2 ^ 24
      → 2 ≤ state.history_width
      → IsInView t state rows lines
      → (width : ℕ) × (bar : List Drawing) × (draw_bar f t state lines
          ≡ some (record state { history_width = width }, bar))
        × (make_room t state lines ≡ some (record state { history_width = width }))
        × (0 < width)
  unfolding draw_bar make_room
  bar_lem t state rows lines height some_rows few wide in_view =
      let shown : to_unsigned 32 state.history_height ≡ rows =
        ap (to_unsigned 32) height ∙ omega arith in
      elim (Bool-cases (ltb rows lines)) [
        | inl long ↦
            let narrow = record state { history_width = state.history_width - 1 } in
            let (n, e, small) = ui_history_lines_total t narrow (omega arith) in
            let seen = in_view (ground arith) n e in
            let offset = (n + 2 ^ 32 - state.history_line) % 2 ^ 32 in
            let (bar, draws) =
              scrollbar_total (sub_ℕ t.width 1) (pos 0) n offset rows (omega arith) (omega arith)
                some_rows few small in
            (
              state.history_width - 1,
              bar,
              simp (shown, long, e, draws),
              simp (shown, long, e),
              omega arith,
            )
        | inr short ↦
            (state.history_width, [], simp (shown, short), simp (shown, short), omega arith)
      ]

-- A key with bytes, and a head among them.
abbrev pub IsInside : Key → Type 0
IsInside k = (k.head ≤ k.size) × (0 < k.size)

-- The keys whose use is drawn.
pub record HasKeys (state : ChatState) : Type 0 where
  pub ref : KeyRef
  pub is_local : state.local.key ≡ some ref
  pub local : Key
  pub held : get_key state.keys ref ≡ some local
  pub inside : IsInside local
  pub remote :
      (r : KeyRef)
      → state.remote.key ≡ some r
      → (k : Key) × (get_key state.keys r ≡ some k) × IsInside k

-- The screen has room for the input box and a row of the history.
pub record HasRoom (t : Terminal) (state : ChatState) : Type 0 where
  pub wide : 2 ≤ t.width
  pub input_lines : ℕ
  pub is_input :
      string_lines t (take state.input.size (content state.input)) t.width ≡ some input_lines
  pub rows : ℕ
  pub some_rows : 0 < rows
  pub few : rows < 2 ^ 24
  pub height : t.height ≡ rows + ((if input_lines == 0 then 1 else input_lines) + 2)

module _ {D : Type 0} (f : Floats D) (r : IsRounding f) where
  pub usage_total :
      (info : Bytes) (k : Key) (x y : ℤ)
      → IsInside k
      → (n : ℕ) × (ds : List Drawing) × (draw_key_usage f info k x y 20 ≡ some (n, ds))
  usage_total info k x y (inside, some_key) =
      let (used, _, _, draws) =
        draw_key_usage_lem f r info k x y 20 inside some_key (omega arith) in
      (_, _, draws)

  pub remote_total :
      (t : Terminal) (state : ChatState) (len : ℕ) (key : Option KeyRef)
      → ((ref : KeyRef)
          → key ≡ some ref
          → (k : Key) × (get_key state.keys ref ≡ some k) × IsInside k)
      → Drawn (draw_remote_usage f t state len key)
  unfolding draw_remote_usage
  remote_total t state len none h = ([], refl)
  remote_total t state len (some ref) h =
      let (k, held, inside) = h ref refl in
      let (n, ds, draws) =
        usage_total (text "Remote: ") k (pos (len + 1)) (sub_ℕ t.height 1) inside in
      (ds, rw (held, draws))
