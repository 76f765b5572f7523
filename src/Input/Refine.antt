-- ===== src/Input/Refine.antt =====
-- Each key of the editor, and any sequence of edits.
use otpchat.Base.{
  ℕ, ◌+◌, ◌≤◌, ◌≡◌, refl, sym, ap, ◌∙◌, false, Option, none, some, List, [], ◌∷◌, ◌++◌, Bytes,
  ◌>>=◌, arith, length, length-append, append_assoc, append-nil,
}
use otpchat.Command.{Calls}
use otpchat.Input.Editor.{
  Editing, Edit, type, erase, left, right, home, end, to_home, to_end, edit, edit_all, keys,
  all_keys, press_all, IsTyped, AllTyped, Refines, press_one, press_bytes,
}
use otpchat.Input.Line.{Shows}
use otpchat.Input.Walk.{AllChars, behind, next_char_loop_lem, next_char_loop_end}
use otpchat.Input.{
  Pressed, key_backspace, key_left, key_right, key_home, key_end, offset_by, move_left, move_right,
  edit_key, is_newline, ui_handle_input,
}
use otpchat.Key.Pad.{concat}
use otpchat.State.{ChatState, World}
use otpchat.Input.Steps.{
  prev_char_lem, next_char_lem, offset_by-to, at_cursor, erase_none, erase_one, behind-to_end,
  concat-to_home, AllChars-to_end, AllChars-to_home,
}

module _ (calls : Calls) (w : World) (wide : 2 ≤ w.terminal.width) where
  pressed :
      (c : Pressed) (st st' : ChatState) (before after : List Bytes)
      → is_newline c ≡ false
      → edit_key w c st ≡ some st'
      → Shows st' (behind before) (concat after)
      → AllChars w.terminal before
      → AllChars w.terminal after
      → (st'' : ChatState) × (press_all calls w (c ∷ []) st ≡ some st'')
        × Refines w.terminal st'' (record { before = before; after = after })
  pressed c st st' before after plain edits s h h' =
      let (st'', presses, s'') =
        press_one calls w wide c st st' (behind before) (concat after) plain edits s in
      (st'', presses, record { shows = s''; chars_before = h; chars_after = h' })

  edit-Refines :
      (x : Edit) (before after : List Bytes) (st : ChatState)
      → IsTyped w.terminal x
      → AllChars w.terminal before
      → AllChars w.terminal after
      → Shows st (behind before) (concat after)
      → (st' : ChatState) × (press_all calls w (keys x) st ≡ some st')
        × Refines w.terminal st' (edit x before after)
  unfolding edit_key is_newline move_left move_right
  edit-Refines (type c) before after st (hc, plain) h h' s =
      let (st', presses, s') =
        press_bytes calls w wide c st (behind before) (concat after) plain s in
      (st', presses, record { shows = s'; chars_before = (hc, h); chars_after = h' })
  edit-Refines erase [] after st x h h' s =
      pressed key_backspace st st [] after refl (erase_none w.terminal st (concat after) s) s h h'
  edit-Refines erase (c ∷ cs) after st x (hc, h) h' s =
      let (st', erases, s') = erase_one w.terminal st c cs (concat after) hc h s in
      pressed key_backspace st st' cs after refl erases s' h h'
  edit-Refines left [] after st x h h' s =
      pressed key_left st (move_left w.terminal st) [] after refl refl
        (at_cursor st [] (concat after) [] (concat after) _ s
          (ap (offset_by st.cursor_index) (prev_char_lem w.terminal st [] (concat after) h s)
            ∙ offset_by-to st.cursor_index 0)
          refl)
        h h'
  edit-Refines left (c ∷ cs) after st x (hc, h) h' s =
      pressed key_left st (move_left w.terminal st) cs (c ∷ after) refl refl
        (at_cursor st (behind cs ++ c) (concat after) (behind cs) (c ++ concat after) _ s
          (ap (offset_by st.cursor_index)
              (prev_char_lem w.terminal st (c ∷ cs) (concat after) (hc, h) s)
            ∙ offset_by-to st.cursor_index (length (behind cs)))
          (append_assoc (behind cs) c (concat after)))
        h (hc, h')
  edit-Refines right before [] st x h h' s =
      pressed key_right st (move_right w.terminal st) before [] refl refl
        (at_cursor st (behind before) [] (behind before) [] _ s
          (ap (offset_by st.cursor_index) (
              next_char_lem w.terminal st before [] (length (behind before)) s
                (next_char_loop_end w.terminal before h))
            ∙ offset_by-to st.cursor_index (length (behind before)))
          refl)
        h h'
  edit-Refines right before (c ∷ cs) st x h (hc, h') s =
      pressed key_right st (move_right w.terminal st) (c ∷ before) cs refl refl
        (at_cursor st (behind before) (c ++ concat cs) (behind before ++ c) (concat cs) _ s
          (ap (offset_by st.cursor_index) (
              next_char_lem w.terminal st before (c ++ concat cs)
                (length (behind before) + length c) s
                (next_char_loop_lem w.terminal before c (concat cs) h hc))
            ∙ offset_by-to st.cursor_index (length (behind before) + length c)
            ∙ sym (length-append (behind before) c))
          (sym (append_assoc (behind before) c (concat cs))))
        (hc, h) h'
  edit-Refines home before after st x h h' s =
      pressed key_home st (record st { cursor_index = 0 }) [] (to_home before after) refl refl
        (at_cursor st (behind before) (concat after) [] (concat (to_home before after)) 0 s refl
          (sym (concat-to_home before after)))
        tt (AllChars-to_home w.terminal before after h h')
  edit-Refines end before after st x h h' s =
      pressed key_end st (record st { cursor_index = st.input.size }) (to_end before after) [] refl
        refl
        (at_cursor st (behind before) (concat after) (behind (to_end before after)) [] _ s
          (omega (
            arith,
            s.size_is,
            ap length (behind-to_end before after),
            length-append (behind before) (concat after),
          ))
          (sym (behind-to_end before after) ∙ sym (append-nil _)))
        (AllChars-to_end w.terminal before after h h') tt

  after_key :
      (cs ys : List Pressed) (o : Option (ℕ × ChatState))
      → ((st : ChatState)
          → press_all calls w (cs ++ ys) st ≡ (press_all calls w cs st >>= press_all calls w ys))
      → (o >>= λ r. press_all calls w (cs ++ ys) r.1)
        ≡ ((o >>= λ r. press_all calls w cs r.1) >>= press_all calls w ys)
  after_key cs ys none ih = refl
  after_key cs ys (some (_, st)) ih = ih st

  press_all-append :
      (xs ys : List Pressed) (st : ChatState)
      → press_all calls w (xs ++ ys) st ≡ (press_all calls w xs st >>= press_all calls w ys)
  press_all-append [] ys st = refl
  press_all-append (c ∷ cs) ys st =
      after_key cs ys (ui_handle_input calls c w st) (λ st'. press_all-append cs ys st')

  -- On a screen of at least two columns, whatever is typed, erased and moved over, in whole
  -- characters, the keys leave the line that the editor of characters has.
  pub press_all-edit_all :
      (xs : List Edit) (e : Editing) (st : ChatState)
      → AllTyped w.terminal xs
      → Refines w.terminal st e
      → (st' : ChatState) × (press_all calls w (all_keys xs) st ≡ some st')
        × Refines w.terminal st' (edit_all xs e)
  press_all-edit_all [] e st h r = (st, refl, r)
  press_all-edit_all (x ∷ xs) e st (hx, h) r =
      let (st₁, first, r₁) =
        edit-Refines x e.before e.after st hx r.chars_before r.chars_after r.shows in
      let (st₂, rest, r₂) = press_all-edit_all xs (edit x e.before e.after) st₁ h r₁ in
      (
        st₂,
        press_all-append (keys x) (all_keys xs) st
            ∙ ap (λ o. o >>= press_all calls w (all_keys xs)) first
            ∙ rest,
        r₂,
      )
