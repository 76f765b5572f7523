-- ===== src/Input/Undecodable.antt =====
-- The key backspace behind bytes that are no character, as when one of several bytes is typed.
use otpchat.Base.Int.{sub_ℕ}
use otpchat.Base.{
  ℕ, zero, suc, ◌+◌, ◌-◌, ◌≤◌, ◌≡◌, refl, ap, ap₂, ◌∙◌, true, Option, none, some, List, [], ◌∷◌,
  ◌++◌, Bytes, arith, length, length-append, append_assoc, drop-append,
}
use otpchat.Command.{Calls}
use otpchat.Input.Editor.{press_one, press_all}
use otpchat.Input.Line.{Shows, Shows-array, moved_back-Shows}
use otpchat.Input.Steps.{negative}
use otpchat.Input.Walk.{AllChars, behind, length-behind, last_start, walk_prev}
use otpchat.Input.{
  key_backspace, prev_char_loop, prev_char, line, erase_char, is_nonzero, moved_back, edit_key,
  is_newline,
}
use otpchat.State.{ChatState, Terminal, World}
use otpchat.Ui.{char_length}

prev_breaks :
    (t : Terminal) (mbs : Bytes) (cursor fuel i prev : ℕ)
    → char_length t mbs i ≡ 0
    → prev_char_loop t mbs cursor fuel i prev ≡ prev
unfolding prev_char_loop
prev_breaks t mbs cursor zero i prev e = refl
prev_breaks t mbs cursor (suc fuel) i prev e = ground arith

no_char_at :
    (t : Terminal) (front rest : Bytes)
    → t.mblen rest ≡ none
    → char_length t (front ++ rest) (length front) ≡ 0
no_char_at t front rest h =
    ap (λ (xs : Bytes). elim (t.mblen xs) as (λ _. ℕ) [ none ↦ 0 | some n ↦ n ])
      (drop-append (length front) front rest refl)
    ∙ ap (λ (o : Option ℕ). elim o as (λ _. ℕ) [ none ↦ 0 | some n ↦ n ]) h

prev_char_undecodable :
    (t : Terminal) (st : ChatState) (cs : List Bytes) (bad back : Bytes)
    → AllChars t cs
    → t.mblen (bad ++ back) ≡ none
    → Shows st (behind cs ++ bad) back
    → prev_char t (line st) st.cursor_index ≡ sub_ℕ (last_start cs) st.cursor_index
unfolding prev_char
prev_char_undecodable t st cs bad back h none_there s =
    let mbs = behind cs ++ (bad ++ back) in
    let cursor = length (behind cs ++ bad) in
    let n : ℕ = length mbs - length cs in
    let fuel : length mbs ≡ n + length cs =
      omega (arith, length-append (behind cs) (bad ++ back), length-behind t cs h) in
    ap (λ (i : ℕ). sub_ℕ i st.cursor_index)
      (ap₂ (λ (m : Bytes) (c : ℕ). prev_char_loop t m c (length m) 0 0)
          (s.line_is ∙ append_assoc (behind cs) bad back) s.cursor_is
        ∙ ap (λ (m : ℕ). prev_char_loop t mbs cursor m 0 0) fuel
        ∙ walk_prev t cs (bad ++ back) cursor n h (omega (arith, length-append (behind cs) bad))
        ∙ prev_breaks t mbs cursor n (length (behind cs)) (last_start cs)
            (no_char_at t (behind cs) (bad ++ back) none_there))

-- With bytes in front of the cursor that `mblen` refuses, backspace takes them away, and the whole
-- character in front of them too.
pub key_backspace_undecodable :
    (calls : Calls) (w : World) (st : ChatState) (c : Bytes) (cs : List Bytes) (bad back : Bytes)
    → 2 ≤ w.terminal.width
    → AllChars w.terminal (c ∷ cs)
    → w.terminal.mblen (bad ++ back) ≡ none
    → Shows st (behind (c ∷ cs) ++ bad) back
    → (st' : ChatState) × (press_all calls w (key_backspace ∷ []) st ≡ some st')
      × Shows st' (behind cs) back
unfolding edit_key is_newline erase_char
key_backspace_undecodable calls w st c cs bad back wide h none_there s =
    let p = h.0.nonempty in
    let regroup = append_assoc (behind cs) c bad in
    let s' : Shows st (behind cs ++ (c ++ bad)) back = record {
      size_is = s.size_is ∙ ap (λ (xs : Bytes). length xs + length back) regroup;
      cursor_is = s.cursor_is ∙ ap length regroup;
      line_is = s.line_is ∙ ap (◌++ back) regroup;
    } in
    let len = length-append (behind cs) (c ++ bad) in
    let len' = length-append c bad in
    let (xs, array) = Shows-array st (behind cs ++ (c ++ bad)) back s' (omega (arith, len, len')) in
    let offset = prev_char_undecodable w.terminal st (c ∷ cs) bad back h none_there s in
    let moves : is_nonzero (sub_ℕ (length (behind cs)) st.cursor_index) ≡ true =
      negative (length (behind cs)) st.cursor_index (omega (arith, len, len', s'.cursor_is)) in
    press_one calls w wide key_backspace st
      (moved_back st (sub_ℕ (length (behind cs)) st.cursor_index) xs) (behind cs) back refl
      (simp (offset, moves, array)) (moved_back-Shows st (behind cs) (c ++ bad) back xs s' array)
