-- ===== src/Draw/Screen/Cursor.antt =====
-- Where `ui_update` of ui.c leaves the cursor.
use native.Mathlib.Nat.{div-le_of_le-mul, mul-div-le, mul_comm}
use otpchat.Base.Int.{pos}
use otpchat.Base.{
  ℕ, ◌+◌, ◌*◌, ◌/◌, ◌%◌, ◌^◌, ◌≤◌, ◌<◌, ◌≡◌, refl, sym, ap, ◌∙◌, false, some, List, [], ◌++◌, Bytes,
  if◌then◌else◌, ◌==◌, arith, length, take-append, length-append, nil_of_length, Bool-cases, inl,
  inr,
}
use otpchat.Draw.Rows.{concat-append}
use otpchat.Draw.Screen.{cursor_place}
use otpchat.Draw.TextRect.{lines_counted, AllChars-append}
use otpchat.Input.Walk.{AllChars}
use otpchat.Key.Pad.{concat}
use otpchat.State.{Terminal}
use otpchat.Ui.Count.{count_chars_lem}
use otpchat.Ui.{string_lines}

-- The rows of the input box: one also for no text.
abbrev pub box_rows : ℕ → ℕ
box_rows lines = if lines == 0 then 1 else lines

row_bound :
    (front total lines width : ℕ)
    → 0 < width
    → front ≤ total
    → total ≤ lines * width
    → (front / width ≤ box_rows lines)
      × (front / width ≡ box_rows lines → (front ≡ total) × (front ≡ box_rows lines * width))
row_bound front total lines width wide inside fits =
    let row = front / width in
    let below : row ≤ lines = div-le_of_le-mul width (grind (arith, mul_comm width lines)) in
    let back : width * row ≤ front = mul-div-le front width in
    elim (Bool-cases (lines == 0)) [
      | inl e ↦
          let none_there : lines ≡ 0 = ground arith in
          rw e (
            omega (arith, below, none_there),
            λ full. absurd (omega (arith, full, below, none_there)),
          )
      | inr e ↦ rw e (
        below,
        λ full.
            (let reaches : lines * width ≤ front =
                omega (arith, back, ap (λ (m : ℕ). width * m) full, mul_comm width lines) in
              (omega (arith, reaches), omega (arith, reaches))),
      )
    ]

-- Over whole characters, with the cursor behind `front` and `back` behind the cursor: it is drawn as
-- many rows and columns into the box as the characters of `front` take, and inside it, but where it
-- stands at the end of a text that fills all rows of the box. It is then in the row below.
pub cursor_place_lem :
    (t : Terminal) (front back : List Bytes) (row : ℕ)
    → AllChars t front
    → AllChars t back
    → 0 < t.width
    → length (concat front ++ concat back) < 2 ^ 32
    → (lines : ℕ) × (string_lines t (concat front ++ concat back) t.width ≡ some lines)
      × (cursor_place t (concat front ++ concat back) (length (concat front)) (pos row)
          ≡ some (pos (row + 1 + length front / t.width), pos (length front % t.width)))
      × (length front / t.width ≤ box_rows lines)
      × (length front / t.width ≡ box_rows lines
          → (back ≡ []) × (length front ≡ box_rows lines * t.width))
unfolding cursor_place
cursor_place_lem t front back row hf hb wide small =
    let whole = concat-append front back in
    let (lines, counts, fits) =
      lines_counted t (front ++ back) t.width (AllChars-append t front back hf hb) wide
        (omega (arith, ap length whole)) in
    let split = length-append front back in
    let (inside, full) =
      row_bound (length front) (length (front ++ back)) lines t.width wide (omega (arith, split))
        fits in
    let not_narrow : (t.width == 0) ≡ false = ground arith in
    (
      lines,
      ap (λ (xs : Bytes). string_lines t xs t.width) (sym whole) ∙ counts,
      rw
          (
            not_narrow,
            take-append (length (concat front)) (concat front) (concat back) refl,
            count_chars_lem t front hf,
          )
          refl,
      inside,
      λ e. (nil_of_length back (let (all, _) = full e in omega (arith, split, all)), (full e).1),
    )
