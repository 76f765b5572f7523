-- ===== src/Draw/Screen/Colors.antt =====
-- The colours of the drawing: each is turned off again, and `ui_init` has set each up.
use otpchat.Base.Int.{ℤ}
use otpchat.Base.{
  ℕ, zero, suc, ◌+◌, ◌≡◌, refl, ap, ◌∙◌, Bool, true, false, Option, none, some, List, [], ◌∷◌, ◌++◌,
  Bytes, ◌>>=◌, if◌then◌else◌, ◌==◌, ltb, length, ◌-◌, ◌/◌, arith, append_assoc,
}
use otpchat.Draw.Screen.Start.{SetUp, set_up, is_pair}
use otpchat.Draw.{
  Drawing, clear, refresh, add, put, move, colour, rect_rows, draw_rect, draw_text_rect,
  draw_message_header, color_id_offset, text_rows, is_on_screen, below,
}
use otpchat.Base.Every.{Every, Every-bind, Every-if}
use otpchat.Chat.{chat_id_name}
use otpchat.Key.{Key}
use otpchat.Message.{Message}
use otpchat.Ui.{string_lines}
use otpchat.Draw.Screen.{
  Floats, draw_scrollbar, draw_key_usage, usage_text, color_scrollbar, color_key_used,
  color_key_left, usage_cells,
}
use otpchat.State.{ChatState, Terminal}

-- The colour that is on behind a call, where it is turned on with none on, and off where it is on.
abbrev paint_one : List SetUp → Option ℕ → Drawing → Option (Option ℕ)
paint_one calls none (colour c true) = if is_pair c calls then some (some c) else none
paint_one calls (some c) (colour c' false) = if c == c' then some none else none
paint_one calls none (colour c false) = none
paint_one calls (some c) (colour c' true) = none
paint_one calls on (clear) = some on
paint_one calls on (refresh) = some on
paint_one calls on (add c) = some on
paint_one calls on (put y x s) = some on
paint_one calls on (move y x) = some on

abbrev pub paint : List SetUp → Option ℕ → List Drawing → Option (Option ℕ)
paint calls on [] = some on
paint calls on (d ∷ ds) = paint_one calls on d >>= λ on'. paint calls on' ds

-- From one colour to another, whatever is drawn behind.
pub record Leads (on on' : Option ℕ) (ds : List Drawing) : Type 0 where
  pub before : (rest : List Drawing) → paint set_up on (ds ++ rest) ≡ paint set_up on' rest

pub nothing : (on : Option ℕ) → Leads on on []
nothing on = record { before = λ rest. refl }

pub append-Leads :
    (on on' on'' : Option ℕ) (ds es : List Drawing)
    → Leads on on' ds
    → Leads on' on'' es
    → Leads on on'' (ds ++ es)
append-Leads on on' on'' ds es h h' = record {
  before = λ rest.
      ap (paint set_up on) (append_assoc ds es rest) ∙ h.before (es ++ rest) ∙ h'.before rest;
}

colour_on :
    (c : ℕ) (on : Option ℕ) (ds : List Drawing)
    → is_pair c set_up ≡ true
    → Leads (some c) on ds
    → Leads none on (colour c true ∷ ds)
colour_on c on ds set h = record { before = λ rest. rw set (h.before rest) }

colour_off :
    (c : ℕ) (on : Option ℕ) (ds : List Drawing)
    → Leads none on ds
    → Leads (some c) on (colour c false ∷ ds)
colour_off c on ds h =
    let same : (c == c) ≡ true = ground arith in record { before = λ rest. rw same (h.before rest) }

-- Whatever colour is on, it stays.
abbrev pub IsPlain : List Drawing → Type 0
IsPlain ds = (on : Option ℕ) → Leads on on ds

-- No colour is on in front and none behind.
abbrev pub IsBalanced : List Drawing → Type 0
IsBalanced = Leads none none

put-IsPlain :
    (b : Bool) (y x : ℤ) (s : Bytes) (ds : List Drawing)
    → IsPlain ds
    → IsPlain (if b then put y x s ∷ ds else ds)
put-IsPlain true y x s ds h on = record { before = (h on).before }
put-IsPlain false y x s ds h on = h on

rect_rows-IsPlain : (x y : ℤ) (w n i : ℕ) → IsPlain (rect_rows x y w n i)
unfolding rect_rows
rect_rows-IsPlain x y w zero i = nothing
rect_rows-IsPlain x y w (suc n) i =
    put-IsPlain (is_on_screen (below y i)) _ x _ _ (rect_rows-IsPlain x y w n (i + 1))

pub draw_rect-IsPlain : (x y : ℤ) (w h : ℕ) → IsPlain (draw_rect x y w h)
unfolding draw_rect
draw_rect-IsPlain x y w h = rect_rows-IsPlain x y w h 0

text_rows-IsPlain :
    (t : Terminal) (str : Bytes) (x y : ℤ) (width n line str_offset : ℕ)
    → IsPlain (text_rows t str x y width n line str_offset)
unfolding text_rows
text_rows-IsPlain t str x y width zero line str_offset = nothing
text_rows-IsPlain t str x y width (suc n) line str_offset =
    put-IsPlain (is_on_screen (below y line)) _ x _ _
      (text_rows-IsPlain t str x y width n (line + 1) _)

usage_cells-IsPlain :
    (usage : Bytes) (usage_offset n i : ℕ) → IsPlain (usage_cells usage usage_offset n i)
unfolding usage_cells
usage_cells-IsPlain usage usage_offset zero i = nothing
usage_cells-IsPlain usage usage_offset (suc n) i =
    λ on. record { before = (usage_cells-IsPlain usage usage_offset n (i + 1) on).before }

shown :
    (y x : ℤ) (s : Bytes) (on on' : Option ℕ) (ds : List Drawing)
    → Leads on on' ds
    → Leads on on' (put y x s ∷ ds)
shown y x s none on' ds h = record { before = h.before }
shown y x s (some c) on' ds h = record { before = h.before }

pub moved :
    (y x : ℤ) (on on' : Option ℕ) (ds : List Drawing)
    → Leads on on' ds
    → Leads on on' (move y x ∷ ds)
moved y x none on' ds h = record { before = h.before }
moved y x (some c) on' ds h = record { before = h.before }

colored :
    (c : ℕ) (ds : List Drawing)
    → is_pair c set_up ≡ true
    → IsPlain ds
    → IsBalanced ((colour c true ∷ ds) ++ colour c false ∷ [])
colored c ds set h =
    append-Leads none (some c) none (colour c true ∷ ds) (colour c false ∷ [])
      (colour_on c (some c) ds set (h (some c))) (colour_off c none [] (nothing none))

abbrev pub IsDrawn : {A : Type 0} → A × List Drawing → Type 0
IsDrawn r = IsBalanced r.1

pub scrollbar-IsBalanced :
    {W : Type 0} (f : Floats W) (x y : ℤ) (content_h content_offset displayed_h : ℕ)
    → Every IsBalanced (draw_scrollbar f x y content_h content_offset displayed_h)
unfolding draw_scrollbar
scrollbar-IsBalanced f x y content_h content_offset displayed_h =
    Every-bind IsBalanced (f.to_int _) _ (λ bar_height.
      Every-bind IsBalanced (f.to_int _) _
        (λ bar_top. colored color_scrollbar (draw_rect x _ 1 _) refl (draw_rect-IsPlain x _ 1 _)))

pub key_usage-IsBalanced :
    {W : Type 0} (f : Floats W) (info_text : Bytes) (k : Key) (x y : ℤ) (min_width : ℕ)
    → Every IsDrawn (draw_key_usage f info_text k x y min_width)
unfolding draw_key_usage
key_usage-IsBalanced f info_text k x y min_width =
    let usage = usage_text k in
    Every-bind IsDrawn (f.to_unsigned _) _ (λ used.
      let width = if ltb min_width (length usage) then length usage else min_width in
      let cells : (n i : ℕ) → IsPlain (usage_cells usage ((width - length usage) / 2) n i) =
        usage_cells-IsPlain usage ((width - length usage) / 2) in
      append-Leads none (some color_key_left) none _ (colour color_key_left false ∷ [])
        (append-Leads none (some color_key_used) (some color_key_left) _ _
          (shown y x info_text none (some color_key_used) _
            (colour_on color_key_used (some color_key_used) _ refl (cells used 0 _)))
          (colour_off color_key_used (some color_key_left) _
            (colour_on color_key_left (some color_key_left) _ refl (cells _ used _))))
        (colour_off color_key_left none [] (nothing none)))

pub text_rect-IsBalanced :
    (t : Terminal) (str : Bytes) (color_id : ℕ) (x y : ℤ) (width : ℕ)
    → is_pair color_id set_up ≡ true
    → Every IsBalanced (draw_text_rect t str color_id x y width)
unfolding draw_text_rect
text_rect-IsBalanced t str color_id x y width set =
    Every-bind IsBalanced (string_lines t str width) _ (λ lines.
      append-Leads none (some color_id) none _ (colour color_id false ∷ [])
        (append-Leads none (some color_id) (some color_id) _ _
          (colour_on color_id (some color_id) _ set (draw_rect-IsPlain x y width _ (some color_id)))
          (moved y x (some color_id) (some color_id) _
            (text_rows-IsPlain t str x y width lines 0 0 (some color_id))))
        (colour_off color_id none [] (nothing none)))

pub header-IsBalanced :
    (clock : ℕ → Bytes) (state : ChatState) (msg : Message) (x y : ℤ) (width : ℕ)
    → is_pair (msg.id + color_id_offset) set_up ≡ true
    → Every IsBalanced (draw_message_header clock state msg x y width)
unfolding draw_message_header
header-IsBalanced clock state msg x y width set =
    Every-if IsBalanced (is_on_screen y) _ _
      (Every-bind IsBalanced (chat_id_name state msg.id) _ (λ name.
        let c = msg.id + color_id_offset in
        append-Leads none (some c) none _ (put y x _ ∷ colour c false ∷ [])
          (colour_on c (some c) _ set (draw_rect-IsPlain x y width 1 (some c)))
          (shown y x _ (some c) none _ (colour_off c none [] (nothing none)))))
      (nothing none)
