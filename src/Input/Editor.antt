-- ===== src/Input/Editor.antt =====
-- The line as an editor of characters: what stands in front of the cursor, nearest first, and what
-- stands behind it. The keys of ui.c that do on the bytes what an edit does on the characters.
use otpchat.Base.{
  ◌≤◌, ◌≡◌, refl, false, Option, some, List, [], ◌∷◌, ◌++◌, map, Bytes, ◌>>=◌, ◌==◌, append_assoc,
  append-nil,
}
use otpchat.Command.{Calls}
use otpchat.Input.Line.{Shows, insert_byte-Shows}
use otpchat.Input.Walk.{IsChar, AllChars, behind}
use otpchat.Input.{
  Pressed, byte, key_backspace, key_left, key_right, key_home, key_end, insert_byte, edit_key,
  is_newline, ui_handle_input,
}
use otpchat.Key.Pad.{concat}
use otpchat.State.{ChatState, Terminal, World}
use otpchat.Ui.Total.{update_history_box_total}

pub record Editing : Type 0 where
  pub before : List Bytes
  pub after : List Bytes

pub data Edit : Type 0 where
  type : Bytes → Edit
  erase left right home end : Edit

abbrev pub to_home : List Bytes → List Bytes → List Bytes
to_home [] after = after
to_home (c ∷ cs) after = to_home cs (c ∷ after)

abbrev pub to_end : List Bytes → List Bytes → List Bytes
to_end before [] = before
to_end before (c ∷ cs) = to_end (c ∷ before) cs

abbrev pub edit : Edit → List Bytes → List Bytes → Editing
edit (type c) before after = record { before = c ∷ before; after = after }
edit erase [] after = record { before = []; after = after }
edit erase (c ∷ cs) after = record { before = cs; after = after }
edit left [] after = record { before = []; after = after }
edit left (c ∷ cs) after = record { before = cs; after = c ∷ after }
edit right before [] = record { before = before; after = [] }
edit right before (c ∷ cs) = record { before = c ∷ before; after = cs }
edit home before after = record { before = []; after = to_home before after }
edit end before after = record { before = to_end before after; after = [] }

abbrev pub edit_all : List Edit → Editing → Editing
edit_all [] e = e
edit_all (x ∷ xs) e = edit_all xs (edit x e.before e.after)

-- The keys that make an edit.
abbrev pub keys : Edit → List Pressed
keys (type c) = map byte c
keys erase = key_backspace ∷ []
keys left = key_left ∷ []
keys right = key_right ∷ []
keys home = key_home ∷ []
keys end = key_end ∷ []

abbrev pub all_keys : List Edit → List Pressed
all_keys [] = []
all_keys (x ∷ xs) = keys x ++ all_keys xs

abbrev pub press_all : Calls → World → List Pressed → ChatState → Option ChatState
press_all calls w [] st = some st
press_all calls w (c ∷ cs) st = do (_, st') ← ui_handle_input calls c w st; press_all calls w cs st'

-- The characters of an edit are whole, and no byte of them ends the line.
abbrev pub NoNewline : Bytes → Type 0
NoNewline [] = Unit
NoNewline (b ∷ bs) = ((b == 10) ≡ false) × NoNewline bs

abbrev pub IsTyped : Terminal → Edit → Type 0
IsTyped t (type c) = IsChar t c × NoNewline c
IsTyped t _ = Unit

abbrev pub AllTyped : Terminal → List Edit → Type 0
AllTyped t [] = Unit
AllTyped t (x ∷ xs) = IsTyped t x × AllTyped t xs

-- The line of `st` is that of the editor, and its characters are whole.
pub record Refines (t : Terminal) (st : ChatState) (e : Editing) : Type 0 where
  pub shows : Shows st (behind e.before) (concat e.after)
  pub chars_before : AllChars t e.before
  pub chars_after : AllChars t e.after

module _ (calls : Calls) (w : World) (wide : 2 ≤ w.terminal.width) where
  abbrev t : Terminal
  t = w.terminal

  -- A key that is no newline edits, and drawing the screen keeps the line.
  press :
      (c : Pressed) (st st' : ChatState) (front back : Bytes)
      → is_newline c ≡ false
      → edit_key w c st ≡ some st'
      → Shows st' front back
      → (st'' : ChatState) × (ui_handle_input calls c w st ≡ some (0, st'')) × Shows st'' front back
  unfolding ui_handle_input
  press c st st' front back plain edits s =
      let (width, height, draws, _) = update_history_box_total w.terminal st' wide in
      (
        record st' { history_width = width; history_height = height },
        rw (plain, edits, draws),
        record { size_is = s.size_is; cursor_is = s.cursor_is; line_is = s.line_is },
      )

  pub press_one :
      (c : Pressed) (st st' : ChatState) (front back : Bytes)
      → is_newline c ≡ false
      → edit_key w c st ≡ some st'
      → Shows st' front back
      → (st'' : ChatState) × (press_all calls w (c ∷ []) st ≡ some st'') × Shows st'' front back
  press_one c st st' front back plain edits s =
      let (st'', presses, s') = press c st st' front back plain edits s in (st'', rw presses, s')

  -- The bytes of a character one after the other.
  pub press_bytes :
      (bs : Bytes) (st : ChatState) (front back : Bytes)
      → NoNewline bs
      → Shows st front back
      → (st' : ChatState) × (press_all calls w (map byte bs) st ≡ some st')
        × Shows st' (front ++ bs) back
  unfolding edit_key is_newline
  press_bytes [] st front back plain s = (st, refl, rw (append-nil front) s)
  press_bytes (b ∷ bs) st front back (here, plain) s =
      let (st', presses, s') =
        press (byte b) st (insert_byte w b st) (front ++ b ∷ []) back here refl
          (insert_byte-Shows w b st front back s) in
      let (st'', rest, s'') = press_bytes bs st' (front ++ b ∷ []) back plain s' in
      (st'', rw presses rest, rw (append_assoc front (b ∷ []) bs) at s'')
