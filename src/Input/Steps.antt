-- ===== src/Input/Steps.antt =====
-- Where `prev_char` and `next_char` lead, and what a move and an erased character leave.
use otpchat.Base.Int.{sub_ℕ, pos}
use otpchat.Base.{
  ℕ, ◌<◌, ◌≡◌, refl, sym, ap, ap₂, ◌∙◌, true, some, List, [], ◌∷◌, ◌++◌, Bytes, arith, length,
  length-append, append_assoc, append-nil,
}
use otpchat.Input.Editor.{to_home, to_end}
use otpchat.Input.Line.{Shows, Shows-array, moved_back-Shows}
use otpchat.Input.Walk.{IsChar, AllChars, behind, last_start, prev_char_loop_lem}
use otpchat.Input.{
  next_char_loop, prev_char_loop, prev_char, next_char, line, offset_by, erase_char, is_nonzero,
  moved_back,
}
use otpchat.Key.Pad.{concat}
use otpchat.State.{ChatState, Terminal}

pub prev_char_lem :
    (t : Terminal) (st : ChatState) (cs : List Bytes) (back : Bytes)
    → AllChars t cs
    → Shows st (behind cs) back
    → prev_char t (line st) st.cursor_index ≡ sub_ℕ (last_start cs) st.cursor_index
unfolding prev_char
prev_char_lem t st cs back h s =
    ap (λ (i : ℕ). sub_ℕ i st.cursor_index)
      (ap₂ (λ (m : Bytes) (c : ℕ). prev_char_loop t m c (length m) 0 0) s.line_is s.cursor_is
        ∙ prev_char_loop_lem t cs back h)

pub next_char_lem :
    (t : Terminal) (st : ChatState) (cs : List Bytes) (back : Bytes) (n : ℕ)
    → Shows st (behind cs) back
    → next_char_loop t (behind cs ++ back) (length (behind cs)) (length (behind cs ++ back)) 0 ≡ n
    → next_char t (line st) st.cursor_index ≡ sub_ℕ n st.cursor_index
unfolding next_char
next_char_lem t st cs back n s e =
    ap (λ (i : ℕ). sub_ℕ i st.cursor_index)
      (ap₂ (λ (m : Bytes) (c : ℕ). next_char_loop t m c (length m) 0) s.line_is s.cursor_is ∙ e)

pub offset_by-to : (c i : ℕ) → offset_by c (sub_ℕ i c) ≡ i
offset_by-to c i = ground arith

-- Only the cursor moves.
pub at_cursor :
    (st : ChatState) (front back front' back' : Bytes) (cursor : ℕ)
    → Shows st front back
    → cursor ≡ length front'
    → front ++ back ≡ front' ++ back'
    → Shows (record st { cursor_index = cursor }) front' back'
at_cursor st front back front' back' cursor s c e = record {
  size_is =
      omega (arith, s.size_is, ap length e, length-append front back, length-append front' back');
  cursor_is = c;
  line_is = s.line_is ∙ e;
}

pub erase_none :
    (t : Terminal) (st : ChatState) (back : Bytes) → Shows st [] back → erase_char t st ≡ some st
unfolding erase_char
erase_none t st back s =
    let offset : prev_char t (line st) st.cursor_index ≡ pos 0 =
      prev_char_lem t st [] back tt s ∙ ap (sub_ℕ 0) s.cursor_is in
    rw offset

pub negative : (a b : ℕ) → a < b → is_nonzero (sub_ℕ a b) ≡ true
unfolding is_nonzero
negative a b h = ground arith

pub erase_one :
    (t : Terminal) (st : ChatState) (c : Bytes) (cs : List Bytes) (back : Bytes)
    → IsChar t c
    → AllChars t cs
    → Shows st (behind cs ++ c) back
    → (st' : ChatState) × (erase_char t st ≡ some st') × Shows st' (behind cs) back
unfolding erase_char
erase_one t st c cs back h hs s =
    let p = h.nonempty in
    let len = length-append (behind cs) c in
    let (xs, array) = Shows-array st (behind cs ++ c) back s (omega (arith, len)) in
    let offset = prev_char_lem t st (c ∷ cs) back (h, hs) s in
    let moves : is_nonzero (sub_ℕ (length (behind cs)) st.cursor_index) ≡ true =
      negative (length (behind cs)) st.cursor_index (omega (arith, len, s.cursor_is)) in
    (
      moved_back st (sub_ℕ (length (behind cs)) st.cursor_index) xs,
      simp (offset, moves, array),
      moved_back-Shows st (behind cs) c back xs s array,
    )

pub behind-to_end :
    (before after : List Bytes) → behind (to_end before after) ≡ behind before ++ concat after
behind-to_end before [] = sym (append-nil (behind before))
behind-to_end before (c ∷ cs) =
    behind-to_end (c ∷ before) cs ∙ append_assoc (behind before) c (concat cs)

pub concat-to_home :
    (before after : List Bytes) → concat (to_home before after) ≡ behind before ++ concat after
concat-to_home [] after = refl
concat-to_home (c ∷ cs) after =
    concat-to_home cs (c ∷ after) ∙ sym (append_assoc (behind cs) c (concat after))

pub AllChars-to_end :
    (t : Terminal) (before after : List Bytes)
    → AllChars t before
    → AllChars t after
    → AllChars t (to_end before after)
AllChars-to_end t before [] h h' = h
AllChars-to_end t before (c ∷ cs) h (hc, h') = AllChars-to_end t (c ∷ before) cs (hc, h) h'

pub AllChars-to_home :
    (t : Terminal) (before after : List Bytes)
    → AllChars t before
    → AllChars t after
    → AllChars t (to_home before after)
AllChars-to_home t [] after h h' = h'
AllChars-to_home t (c ∷ cs) after (hc, h) h' = AllChars-to_home t cs (c ∷ after) h (hc, h')
