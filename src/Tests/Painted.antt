-- ===== src/Tests/Painted.antt =====
-- A screen with messages of all three ids, and its colours.
use otpchat.Base.Int.{◌-ℤ◌}
use otpchat.Base.{
  ◌≡◌, refl, ap, Bool, true, false, Option, some, none, List, [], ◌∷◌, ◌++◌, ◌>>=◌, arith,
}
use otpchat.Block.{block_of}
use otpchat.Chat.{text, chat_id_name}
use otpchat.Draw.{draw_history, draw_message_header, draw_text_rect, Drawing}
use otpchat.Draw.Screen.{draw_key_usage, draw_screen}
use otpchat.Draw.Screen.{cursor_place}
use otpchat.Draw.Screen.Start.{set_up, ui_init}
use otpchat.Draw.Screen.Colors.{paint}
use otpchat.Draw.Screen.Messages.{AllKnown}
use otpchat.Draw.Screen.Painted.{draw_screen-ui_init}
use otpchat.State.{ChatState}
use otpchat.Tests.Messages.{terminal}
use otpchat.Ui.{string_lines, ui_message_lines, ui_history_lines, count_chars}
use otpchat.Tests.Screen.{fractions, named}

-- A status and a message of either user are in the history.
abbrev spoken : ChatState
spoken = record named {
  history =
      record { id = 0; timestamp = 9; text = block_of (text "Hi") }
      ∷ record { id = 1; timestamp = 9; text = block_of (text "a") }
      ∷ record { id = 2; timestamp = 9; text = block_of (text "b") }
      ∷ [];
}

abbrev is_some : {A : Type 0} → Option A → Bool
is_some none = false
is_some (some a) = true

defined : {A : Type 0} (o : Option A) → is_some o ≡ true → (a : A) × (o ≡ some a)
defined none e = absurd (cc)
defined (some a) e = (a, refl)

spoken_drawn :
    (r : ChatState × List Drawing) × (draw_screen fractions fractions terminal
        (λ n. text "12:00")
        spoken
      ≡ some r)
unfolding draw_screen string_lines count_chars ui_history_lines ui_message_lines draw_history ◌-ℤ◌
    draw_message_header chat_id_name draw_text_rect draw_key_usage cursor_place
spoken_drawn = defined (draw_screen fractions fractions terminal (λ n. text "12:00") spoken) refl

spoken_started :
    ui_init fractions fractions terminal (λ n. text "12:00") spoken
    ≡ some (spoken_drawn.0.0, set_up, spoken_drawn.0.1)
unfolding ui_init
spoken_started =
    ap
      (λ (o : Option (ChatState × List Drawing)).
        o >>= λ (r : ChatState × List Drawing). some (r.0, set_up, r.1))
      spoken_drawn.1

spoken-AllKnown : AllKnown spoken.history
spoken-AllKnown = (omega arith, (omega arith, (omega arith, tt)))

draw_screen-ui_init_example : paint set_up none (spoken_drawn.0.1 ++ spoken_drawn.0.1) ≡ some none
draw_screen-ui_init_example =
    draw_screen-ui_init fractions fractions terminal terminal (λ n. text "12:00")
      (λ n. text "12:00") spoken spoken_drawn.0.0 spoken spoken_drawn.0.0 set_up spoken_drawn.0.1
      spoken_drawn.0.1 spoken-AllKnown spoken_started spoken-AllKnown spoken_drawn.1
