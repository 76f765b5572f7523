-- ===== src/Draw/TextRect.antt =====
-- The rows that `draw_text_rect` of ui.c prints, and their layout.
use otpchat.Base.Int.{ℤ, pos}
use otpchat.Base.{
  ℕ, zero, suc, ◌+◌, ◌-◌, ◌*◌, ◌/◌, ◌%◌, ◌^◌, ◌≤◌, ◌<◌, ◌≡◌, refl, sym, ap, ap₂, ◌∙◌, true, false,
  some, List, [], ◌∷◌, ◌++◌, Bytes, if◌then◌else◌, ◌==◌, arith, length, take, drop, length-append,
  length-drop, append_assoc, drop-append, take-append, Bool-cases, inl, inr,
}
use otpchat.Draw.{
  Drawing, clear, refresh, add, put, move, colour, count_bytes, text_rows, draw_rect,
  draw_text_rect,
}
use otpchat.Input.Walk.{AllChars}
use otpchat.Key.Pad.{concat}
use otpchat.State.{Terminal}
use otpchat.Text.{c_str}
use otpchat.Ui.Count.{length-concat}
use otpchat.Ui.{string_lines}
use mathlib.Core.Path.{subst}
use otpchat.Draw.Rows.{concat-append, cut_row, count_bytes_lem}
use otpchat.Ui.Count.{count_chars_lem}

abbrev pub NoNul : Bytes → Type 0
NoNul [] = Unit
NoNul (b ∷ bs) = ((b == 0) ≡ false) × NoNul bs

NoNul-append : (xs ys : Bytes) → NoNul (xs ++ ys) → NoNul xs × NoNul ys
NoNul-append [] ys h = (tt, h)
NoNul-append (x ∷ xs) ys (here, h) =
    let (front, back) = NoNul-append xs ys h in ((here, front), back)

c_str-NoNul : (xs : Bytes) → NoNul xs → c_str xs ≡ xs
unfolding c_str
c_str-NoNul [] h = refl
c_str-NoNul (x ∷ xs) (here, h) = rw here (ap (x ∷◌) (c_str-NoNul xs h))

AllChars-take : (t : Terminal) (n : ℕ) (cs : List Bytes) → AllChars t cs → AllChars t (take n cs)
AllChars-take t zero cs h = tt
AllChars-take t (suc n) [] h = tt
AllChars-take t (suc n) (c ∷ cs) (h, hs) = (h, AllChars-take t n cs hs)

AllChars-drop : (t : Terminal) (n : ℕ) (cs : List Bytes) → AllChars t cs → AllChars t (drop n cs)
AllChars-drop t zero cs h = h
AllChars-drop t (suc n) [] h = tt
AllChars-drop t (suc n) (c ∷ cs) (h, hs) = AllChars-drop t n cs hs

pub AllChars-append :
    (t : Terminal) (cs ds : List Bytes) → AllChars t cs → AllChars t ds → AllChars t (cs ++ ds)
AllChars-append t [] ds h k = k
AllChars-append t (c ∷ cs) ds (h, hs) k = (h, AllChars-append t cs ds hs k)

-- The rows, `width` characters each.
abbrev pub lay_out : ℕ → ℤ → ℕ → ℕ → List Bytes → List Drawing
lay_out zero x row width cs = []
lay_out (suc n) x row width cs =
    put (pos row) x (concat (take width cs)) ∷ lay_out n x (row + 1) width (drop width cs)

text_rows_lem :
    (t : Terminal) (str : Bytes) (x : ℤ) (row width n line offset : ℕ) (above cs : List Bytes)
    → AllChars t above
    → AllChars t cs
    → NoNul (concat cs)
    → 0 < width
    → str ≡ concat above ++ concat cs
    → offset ≡ length (concat above)
    → length str < 2 ^ 64
    → text_rows t str x (pos row) width n line offset ≡ lay_out n x (row + line) width cs
unfolding text_rows
text_rows_lem t str x row width zero line offset above cs ha hc plain wide e at_row small = refl
text_rows_lem t str x row width (suc n) line offset above cs ha hc plain wide e at_row small =
    let shown = concat (take width cs) in
    let later = concat (drop width cs) in
    let cut = cut_row width cs in
    let (plain_row, plain_rest) = NoNul-append shown later (subst NoNul cut plain) in
    let counted = count_bytes_lem t str above cs width offset ha hc wide e at_row small in
    let printed : c_str (take (count_bytes t str offset width) (drop offset str)) ≡ shown =
      ap (λ (m : ℕ). c_str (take m (drop offset str))) counted
      ∙ ap (λ (xs : Bytes). c_str (take (length shown) xs))
          (ap₂ (λ (m : ℕ) (xs : Bytes). drop m xs) at_row e
            ∙ drop-append (length (concat above)) (concat above) (concat cs) refl
            ∙ cut)
      ∙ ap c_str (take-append (length shown) shown later refl)
      ∙ c_str-NoNul shown plain_row in
    let regroup : str ≡ concat (above ++ take width cs) ++ later =
      e
      ∙ ap (concat above ++◌) cut
      ∙ sym (append_assoc (concat above) shown later)
      ∙ ap (◌++ later) (sym (concat-append above (take width cs))) in
    let joined : length (concat (above ++ take width cs)) ≡ length (concat above) + length shown =
      ap length (concat-append above (take width cs)) ∙ length-append (concat above) shown in
    let next = (offset + count_bytes t str offset width) % 2 ^ 64 in
    let at_next : next ≡ length (concat (above ++ take width cs)) = omega (
      arith,
      counted,
      at_row,
      joined,
      small,
      ap length regroup,
      length-append (concat (above ++ take width cs)) later,
    ) in
    ap₂ (λ (xs : Bytes) (ds : List Drawing). put (pos (row + line)) x xs ∷ ds) printed
      (text_rows_lem t str x row width n (line + 1) next (above ++ take width cs) (drop width cs)
          (AllChars-append t above (take width cs) ha (AllChars-take t width cs hc))
          (AllChars-drop t width cs hc) plain_rest wide regroup at_next small
        ∙ ap (λ (r : ℕ). lay_out n x r width (drop width cs))
            (let r : row + (line + 1) ≡ row + line + 1 = omega arith in r))

-- What is put on the screen, row after row.
abbrev pub all_put : List Drawing → Bytes
all_put [] = []
all_put (put y x xs ∷ ds) = xs ++ all_put ds
all_put (clear ∷ ds) = all_put ds
all_put (refresh ∷ ds) = all_put ds
all_put (add c ∷ ds) = c ∷ all_put ds
all_put (move y x ∷ ds) = all_put ds
all_put (colour id on ∷ ds) = all_put ds

lay_out_all :
    (n : ℕ) (x : ℤ) (row width : ℕ) (cs : List Bytes)
    → length cs ≤ n * width
    → all_put (lay_out n x row width cs) ≡ concat cs
lay_out_all zero x row width [] h = refl
lay_out_all zero x row width (c ∷ cs) h = absurd (omega arith)
lay_out_all (suc n) x row width cs h =
    ap (concat (take width cs) ++◌) (
      lay_out_all n x (row + 1) width (drop width cs) (
        let fits : length cs ≤ width + n * width = omega (arith, h) in
        omega (arith, length-drop width cs, fits)))
    ∙ sym (cut_row width cs)

pub lines_counted :
    (t : Terminal) (cs : List Bytes) (width : ℕ)
    → AllChars t cs
    → 0 < width
    → length (concat cs) < 2 ^ 32
    → (lines : ℕ) × (string_lines t (concat cs) width ≡ some lines) × (length cs ≤ lines * width)
unfolding string_lines
lines_counted t cs width h wide small =
    let chars = count_chars_lem t cs h in
    elim (Bool-cases (length cs == 0)) [
      | inl none_there ↦ (0, rw (chars, none_there) refl, ground arith)
      | inr some_chars ↦
          let is_wide : (width == 0) ≡ false = ground arith in
          let whole : ((length cs - 1) / width + 1) % 2 ^ 32 ≡ (length cs - 1) / width + 1 =
            omega (arith, small, length-concat t cs h) in
          (
            (length cs - 1) / width + 1,
            rw (chars, some_chars, is_wide, whole) refl,
            omega (arith, wide),
          )
    ]

-- A text of whole characters, none of them NUL, on a row of the screen: `draw_text_rect` draws as
-- many rows as `string_lines` gives, each of the next `width` characters, and together they are the
-- text. The text has less than 2^32 bytes.
pub draw_text_rect_lem :
    (t : Terminal) (cs : List Bytes) (color_id : ℕ) (x : ℤ) (row width : ℕ)
    → AllChars t cs
    → NoNul (concat cs)
    → 0 < width
    → length (concat cs) < 2 ^ 32
    → (lines : ℕ) × (string_lines t (concat cs) width ≡ some lines)
      × (draw_text_rect t (concat cs) color_id x (pos row) width
          ≡ some (
              (colour color_id true ∷ draw_rect x (pos row) width (if lines == 0 then 1 else lines))
              ++ (move (pos row) x ∷ lay_out lines x row width cs)
              ++ colour color_id false ∷ []))
      × (all_put (lay_out lines x row width cs) ≡ concat cs)
unfolding draw_text_rect
draw_text_rect_lem t cs color_id x row width h plain wide small =
    let (lines, counted, enough) = lines_counted t cs width h wide small in
    let rows =
      text_rows_lem t (concat cs) x row width lines 0 0 [] cs tt h plain wide refl refl
        (omega (arith, small))
      ∙ ap (λ (r : ℕ). lay_out lines x r width cs) (omega arith) in
    (lines, counted, rw (counted, rows) refl, lay_out_all lines x row width cs enough)
