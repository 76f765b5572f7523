-- ===== src/Input/Bounds.antt =====
-- The keys of ui.c: where the cursor is in the line, and the line in its array.
use otpchat.Base.Int.{sub_ℕ}
use otpchat.Base.{
  ℕ, zero, suc, ◌+◌, ◌-◌, ◌≤◌, ◌<◌, ◌≡◌, refl, ap, inl, inr, true, ◌&&◌, Option, none, some, [],
  ◌∷◌, Bytes, arith, ltb, leb, length, drop, take, overwrite, length-take, length-drop,
  length-overwrite, Bool-cases, Option-cases,
}
use otpchat.Block.{Block, content}
use otpchat.Input.Line.{length-resized, offset_by-sub}
use otpchat.Input.{
  next_char_loop, next_char, prev_char_loop, prev_char, offset_by, resized, line, insert_byte,
  moved_back, is_nonzero, erase_char, move_left, move_right,
}
use otpchat.State.Inv.{LineInv, Safe, Safe-if}
use otpchat.State.{ChatState, Terminal, World}
use otpchat.Ui.{char_length}

-- `mblen` looks at no byte behind the last.
abbrev pub Bounded : Terminal → Type 0
Bounded t = (xs : Bytes) (n : ℕ) → t.mblen xs ≡ some n → n ≤ length xs

abbrev pub InLine : ChatState → Type 0
InLine st = LineInv st.input st.cursor_index

-- `st'` is `st` but for its line.
pub record Edited (st st' : ChatState) : Type 0 where
  pub input : Block
  pub cursor : ℕ
  pub is_state : st' ≡ record st { input = input; cursor_index = cursor }
  pub in_line : LineInv input cursor

pub cursor-le : (st : ChatState) → InLine st → st.cursor_index ≤ st.input.size
cursor-le st (inl (e, z)) = omega (arith, z)
cursor-le st (inr (xs, e, fits, c)) = c

pub length-line : (st : ChatState) → InLine st → length (line st) ≡ st.input.size
length-line st (inl (e, z)) = rw e refl
length-line st (inr (xs, e, fits, c)) =
    let is_content : length (content st.input) ≡ length xs =
      ap (λ (m : Option Bytes). length (elim m as (λ _. Bytes) [ none ↦ [] | some ys ↦ ys ])) e in
    omega (arith, length-take st.input.size (content st.input), is_content)

prev_char_loop-le :
    (t : Terminal) (mbs : Bytes) (cursor fuel i prev : ℕ)
    → prev ≤ cursor
    → prev_char_loop t mbs cursor fuel i prev ≤ cursor
unfolding prev_char_loop
prev_char_loop-le t mbs cursor zero i prev h = h
prev_char_loop-le t mbs cursor (suc fuel) i prev h =
    elim (Bool-cases (ltb i cursor && (ltb i (length mbs) && ltb 0 (char_length t mbs i)))) [
      | inl goes ↦
          rw goes (prev_char_loop-le t mbs cursor fuel (i + char_length t mbs i) i (ground arith))
      | inr stops ↦ rw stops h
    ]

char_length-le :
    (t : Terminal) (mbs : Bytes) (i : ℕ)
    → Bounded t
    → i ≤ length mbs
    → i + char_length t mbs i ≤ length mbs
char_length-le t mbs i b h = elim (Option-cases (t.mblen (drop i mbs))) [
  | inl e ↦ rw (e, char_length) (omega arith)
  | inr (n, e) ↦ rw (e, char_length) (omega (arith, b (drop i mbs) n e, length-drop i mbs))
]

next_char_loop-le :
    (t : Terminal) (mbs : Bytes) (cursor fuel i : ℕ)
    → Bounded t
    → i ≤ length mbs
    → next_char_loop t mbs cursor fuel i ≤ length mbs
unfolding next_char_loop
next_char_loop-le t mbs cursor zero i b h = h
next_char_loop-le t mbs cursor (suc fuel) i b h =
    elim (Bool-cases (leb i cursor && (ltb i (length mbs) && ltb 0 (char_length t mbs i)))) [
      | inl goes ↦ rw goes (
          next_char_loop-le t mbs cursor fuel (i + char_length t mbs i) b
            (char_length-le t mbs i b h))
      | inr stops ↦ rw stops h
    ]

moved_to : (n i : ℕ) → offset_by n (sub_ℕ i n) ≡ i
moved_to n i = ground arith

pub move_left-InLine : (t : Terminal) (st : ChatState) → InLine st → InLine (move_left t st)
unfolding move_left prev_char
move_left-InLine t st h =
    let mbs = line st in
    let i = prev_char_loop t mbs st.cursor_index (length mbs) 0 0 in
    let left : i ≤ st.cursor_index =
      prev_char_loop-le t mbs st.cursor_index (length mbs) 0 0 (omega arith) in
    let moved = moved_to st.cursor_index i in
    elim h [
      | inl (e, z) ↦ inl (e, omega (arith, left, moved, z))
      | inr (xs, e, fits, c) ↦ inr (xs, e, fits, omega (arith, left, moved, c))
    ]

pub move_right-InLine :
    (t : Terminal) (st : ChatState) → Bounded t → InLine st → InLine (move_right t st)
unfolding move_right next_char
move_right-InLine t st b h =
    let mbs = line st in
    let i = next_char_loop t mbs st.cursor_index (length mbs) 0 in
    let right : i ≤ length mbs =
      next_char_loop-le t mbs st.cursor_index (length mbs) 0 b (omega arith) in
    let moved = moved_to st.cursor_index i in
    let size = length-line st h in
    elim h [
      | inl (e, z) ↦ inl (e, omega (arith, right, moved, size, ap (λ (b : Block). b.size) e))
      | inr (xs, e, fits, c) ↦ inr (xs, e, fits, omega (arith, right, moved, size))
    ]

pub insert_byte-InLine :
    (w : World) (c : ℕ) (st : ChatState) → InLine st → InLine (insert_byte w c st)
unfolding insert_byte
insert_byte-InLine w c st h =
    let xs = resized w.fresh (st.input.size + 1) (content st.input) in
    let back = take (st.input.size - st.cursor_index) (drop st.cursor_index xs) in
    let shifted = overwrite (st.cursor_index + 1) back xs in
    let room : length xs ≡ st.input.size + 1 =
      length-resized w.fresh (st.input.size + 1) (content st.input) in
    let inside = cursor-le st h in
    let moved : length back ≤ st.input.size - st.cursor_index =
      omega (arith, length-take (st.input.size - st.cursor_index) (drop st.cursor_index xs)) in
    let same : length shifted ≡ length xs =
      length-overwrite (st.cursor_index + 1) back xs (omega (arith, moved, inside, room)) in
    let same' : length (overwrite st.cursor_index (c ∷ []) shifted) ≡ length shifted =
      length-overwrite st.cursor_index (c ∷ []) shifted (omega (arith, same, inside, room)) in
    inr (_, refl, omega (arith, same, same', room), omega (arith, inside))

nonzero : (i n : ℕ) → i ≤ n → is_nonzero (sub_ℕ i n) ≡ true → i < n
unfolding is_nonzero
nonzero i n h e = ground arith

moved_back-Edited :
    (st : ChatState) (i : ℕ) (xs : Bytes)
    → i ≤ st.cursor_index
    → st.cursor_index ≤ st.input.size
    → st.input.size ≤ length xs
    → Edited st (moved_back st (sub_ℕ i st.cursor_index) xs)
unfolding moved_back
moved_back-Edited st i xs left c fits =
    let offset = sub_ℕ i st.cursor_index in
    let back = take (st.input.size - st.cursor_index) (drop st.cursor_index xs) in
    let moved = moved_to st.cursor_index i in
    let moved_length : length back ≤ st.input.size - st.cursor_index =
      omega (arith, length-take (st.input.size - st.cursor_index) (drop st.cursor_index xs)) in
    let same : length (overwrite (offset_by st.cursor_index offset) back xs) ≡ length xs =
      length-overwrite (offset_by st.cursor_index offset) back xs
        (omega (arith, moved, moved_length, left, c, fits)) in
    let size' = offset_by-sub st.input.size i st.cursor_index left c in
    record {
      input = _;
      cursor = _;
      is_state = refl;
      in_line =
          inr (_, refl, omega (arith, same, size', fits), omega (arith, moved, size', left, c));
    }

pub erase_char-Edited :
    (t : Terminal) (st : ChatState) → InLine st → Safe (Edited st) (erase_char t st)
unfolding erase_char prev_char
erase_char-Edited t st h =
    let mbs = line st in
    let i = prev_char_loop t mbs st.cursor_index (length mbs) 0 0 in
    let left : i ≤ st.cursor_index =
      prev_char_loop-le t mbs st.cursor_index (length mbs) 0 0 (omega arith) in
    Safe-if (Edited st) (is_nonzero (sub_ℕ i st.cursor_index)) _ _
      (λ moves. elim h [
        | inl (e, z) ↦ absurd (omega (arith, nonzero i st.cursor_index left moves, z))
        | inr (xs, e, fits, c) ↦ simp e (moved_back-Edited st i xs left c fits)
      ])
      (λ _. record { input = st.input; cursor = st.cursor_index; is_state = refl; in_line = h })
