-- ===== src/Tests/Keyboard.antt =====
-- Keys that are pressed, and a text that is drawn.
use otpchat.Base.{
  List, ◌++◌, ℕ, ◌≡◌, refl, Option, some, none, true, false, [], ◌∷◌, Bytes, if◌then◌else◌, ◌==◌,
  ltb, arith,
}
use otpchat.Block.{block_of, null_block}
use otpchat.Command.{Calls}
use otpchat.Base.Int.{pos}
use otpchat.Draw.TextRect.{lay_out, all_put, draw_text_rect_lem}
use otpchat.Draw.{move, colour, draw_rect, draw_text_rect}
use otpchat.Key.Pad.{concat}
use otpchat.Ui.{string_lines}
use otpchat.Input.Editor.{type, erase, left, right, end, edit_all, all_keys, press_all, Refines}
use otpchat.Input.Enter.{ui_handle_input_newline}
use otpchat.Input.Line.{Shows}
use otpchat.Input.Refine.{press_all-edit_all}
use otpchat.Input.Undecodable.{key_backspace_undecodable}
use otpchat.Input.Walk.{IsChar}
use otpchat.Input.{byte, key_backspace, ui_handle_input}
use otpchat.Key.Xor.{xor_with}
use otpchat.KeyStore.{local_key}
use otpchat.State.{ChatState, World}
use otpchat.Tests.Keys.{key_at, Pad-at_1}
use otpchat.Tests.Messages.{world, talking}
use otpchat.Transfer.Frame.{frame}

-- A part of UTF-8: ASCII, and two bytes from 195.
abbrev two_bytes : Bytes → Option ℕ
two_bytes [] = none
two_bytes (_ ∷ _) = some 2

unfoldable mblen : Bytes → Option ℕ
mblen [] = some 0
mblen (b ∷ bs) = if ltb b 128 then some 1 else if b == 195 then two_bytes bs else none

abbrev screen : World
screen = record world { terminal = record { mblen = mblen; width = 80; height = 24 } }

abbrev pub calls : Calls
calls = record {
  connect = record { getaddrinfo = λ name port. true; socket = some 5; connect = none };
  listen = record { getaddrinfo = λ name port. true; socket = some 6; bind = true; listen = true };
}

abbrev e_acute : Bytes
e_acute = 195 ∷ 169 ∷ []

ascii-IsChar : IsChar screen.terminal (104 ∷ [])
unfolding mblen
ascii-IsChar = record { decodes = λ rest. refl; nonempty = omega arith }

e_acute-IsChar : IsChar screen.terminal e_acute
unfolding mblen
e_acute-IsChar = record { decodes = λ rest. refl; nonempty = omega arith }

press_all-edit_all_example :
    (st : ChatState) × (press_all calls screen
        (all_keys (type (104 ∷ []) ∷ type e_acute ∷ left ∷ left ∷ right ∷ erase ∷ end ∷ []))
        talking
      ≡ some st)
    × Refines screen.terminal st (
        edit_all
          (type (104 ∷ []) ∷ type e_acute ∷ left ∷ left ∷ right ∷ erase ∷ end ∷ [])
          (record { before = []; after = [] }))
press_all-edit_all_example =
    press_all-edit_all calls screen (omega arith)
      (type (104 ∷ []) ∷ type e_acute ∷ left ∷ left ∷ right ∷ erase ∷ end ∷ [])
      (record { before = []; after = [] }) talking
      (
        (ascii-IsChar, (refl, tt)),
        ((e_acute-IsChar, (refl, (refl, tt))), (tt, (tt, (tt, (tt, (tt, tt)))))),
      )
      (record {
        shows = record { size_is = refl; cursor_is = refl; line_is = refl };
        chars_before = tt;
        chars_after = tt;
      })

-- "hi" with the cursor between its letters.
abbrev typed : ChatState
typed = record talking { input = block_of (104 ∷ 105 ∷ []); cursor_index = 1 }

ui_handle_input_newline_example :
    (st : ChatState) × (ui_handle_input calls (byte 10) world typed ≡ some (0, st))
    × (st.history ≡ record { id = 1; timestamp = 99; text = block_of (104 ∷ 105 ∷ []) } ∷ [])
    × (st.sending ≡ block_of (frame 1 (xor_with (22 ∷ 33 ∷ 44 ∷ 55 ∷ []) (104 ∷ 105 ∷ []))))
    × (st.sent_size ≡ 0)
    × (st.input ≡ null_block)
    × (st.cursor_index ≡ 0)
ui_handle_input_newline_example =
    ui_handle_input_newline calls world typed (104 ∷ []) (105 ∷ []) (22 ∷ 33 ∷ 44 ∷ 55 ∷ []) 104
      (105 ∷ []) (key_at 1) (record { ref = local_key; key_is = refl; held = refl; pad = Pad-at_1 })
      (record { screen = omega arith; box = omega arith })
      (record { size_is = refl; cursor_is = refl; line_is = refl }) refl (λ e. omega (arith, e))
      refl (omega arith) (omega arith)

-- The first byte of a character behind "h".
abbrev half_typed : ChatState
half_typed = record talking { input = block_of (104 ∷ 195 ∷ []); cursor_index = 2 }

key_backspace_undecodable_example :
    (st : ChatState) × (press_all calls screen (key_backspace ∷ []) half_typed ≡ some st)
    × Shows st [] []
unfolding mblen
key_backspace_undecodable_example =
    key_backspace_undecodable calls screen half_typed (104 ∷ []) [] (195 ∷ []) [] (omega arith)
      (ascii-IsChar, tt) refl (record { size_is = refl; cursor_is = refl; line_is = refl })

-- "hé" twice, in rows of three characters.
abbrev two_words : List Bytes
two_words = (104 ∷ []) ∷ e_acute ∷ (104 ∷ []) ∷ e_acute ∷ []

draw_text_rect_lem_example :
    (lines : ℕ) × (string_lines screen.terminal (concat two_words) 3 ≡ some lines)
    × (draw_text_rect screen.terminal (concat two_words) 4 (pos 0) (pos 5) 3
        ≡ some (
            (colour 4 true ∷ draw_rect (pos 0) (pos 5) 3 (if lines == 0 then 1 else lines))
            ++ (move (pos 5) (pos 0) ∷ lay_out lines (pos 0) 5 3 two_words)
            ++ colour 4 false ∷ []))
    × (all_put (lay_out lines (pos 0) 5 3 two_words) ≡ concat two_words)
draw_text_rect_lem_example =
    draw_text_rect_lem screen.terminal two_words 4 (pos 0) 5 3
      (ascii-IsChar, (e_acute-IsChar, (ascii-IsChar, (e_acute-IsChar, tt))))
      (refl, (refl, (refl, (refl, (refl, (refl, tt)))))) (omega arith) (omega arith)
