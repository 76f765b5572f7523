-- ===== src/Draw/Screen/Usage.antt =====
-- What `draw_key_usage` of ui.c draws.
use otpchat.Base.Int.{ℤ, pos}
use otpchat.Base.{
  ℕ, zero, suc, ◌+◌, ◌-◌, ◌/◌, ◌%◌, ◌^◌, ◌≤◌, ◌<◌, ◌≡◌, refl, ap, Bool, true, false, some, List, [],
  ◌∷◌, ◌++◌, Bytes, if◌then◌else◌, ltb, arith, length, take, drop, Bool-cases, inl, inr,
  length-append, length-drop, take_all,
}
use otpchat.Draw.{Drawing, put, colour}
use otpchat.Draw.Screen.{
  Floats, color_key_used, color_key_left, usage_text, usage_cells, draw_key_usage,
}
use otpchat.Key.{Key}
use otpchat.Text.Decimal.{length-decimal}
use otpchat.Text.{decimal}
use otpchat.Chat.{text}
use otpchat.Draw.Screen.Bar.{bar, length-bar, adds, usage_cells_lem}

-- What the drawing relies on: the operations round, as those of IEEE 754 do, so that they keep an
-- order, and numbers below two to the 24 are exact, in single precision too, so that a conversion
-- truncates to a number that is not above such a bound.
pub record IsRounding {W : Type 0} (f : Floats W) : Type 0 where
  pub le : W → W → Bool
  pub div_range :
      (a b : ℕ)
      → a ≤ b
      → 0 < b
      → (le (f.of_ℕ 0) (f.div (f.of_ℕ a) (f.of_ℕ b)) ≡ true)
        × (le (f.div (f.of_ℕ a) (f.of_ℕ b)) (f.of_ℕ 1) ≡ true)
  pub mul_range :
      (x : W) (n : ℕ)
      → le (f.of_ℕ 0) x ≡ true
      → le x (f.of_ℕ 1) ≡ true
      → (le (f.of_ℕ 0) (f.mul x (f.of_ℕ n)) ≡ true) × (le (f.mul x (f.of_ℕ n)) (f.of_ℕ n) ≡ true)
  pub mul_comm : (x y : W) → f.mul x y ≡ f.mul y x
  pub to_unsigned_range :
      (x : W) (n : ℕ)
      → le (f.of_ℕ 0) x ≡ true
      → le x (f.of_ℕ n) ≡ true
      → n < 2 ^ 24
      → (m : ℕ) × (f.to_unsigned x ≡ some m) × (m ≤ n)
  pub to_int_range :
      (x : W) (n : ℕ)
      → le (f.of_ℕ 0) x ≡ true
      → le x (f.of_ℕ n) ≡ true
      → n < 2 ^ 24
      → (m : ℕ) × (f.to_int x ≡ some (pos m)) × (m ≤ n)

-- The columns of the bar.
abbrev pub usage_width : Bytes → ℕ → ℕ
usage_width usage min_width = if ltb min_width (length usage) then length usage else min_width

abbrev pub usage_bar : Bytes → ℕ → Bytes
usage_bar usage min_width =
    bar usage ((usage_width usage min_width - length usage) / 2) (usage_width usage min_width)

length-usage_text : (k : Key) → length (usage_text k) ≤ 41
length-usage_text k = omega (
  arith,
  length-append (decimal k.head) (text "/" ++ decimal k.size),
  length-decimal k.head,
  length-decimal k.size,
)

usage_fits :
    (usage : Bytes) (min_width : ℕ)
    → (usage_width usage min_width - length usage) / 2 + length usage ≤ usage_width usage min_width
usage_fits usage min_width = elim (Bool-cases (ltb min_width (length usage))) [
  | inl e ↦ rw e (omega arith)
  | inr e ↦ let wide : length usage ≤ min_width = ground arith in rw e (omega arith)
]

usage_narrow :
    (k : Key) (min_width : ℕ) → min_width < 2 ^ 24 → usage_width (usage_text k) min_width < 2 ^ 24
usage_narrow k min_width h = elim (Bool-cases (ltb min_width (length (usage_text k)))) [
  | inl e ↦ rw e (omega (arith, length-usage_text k))
  | inr e ↦ rw e h
]

module _ {W : Type 0} (f : Floats W) (r : IsRounding f) where
  used_columns :
      (head size width : ℕ)
      → head ≤ size
      → 0 < size
      → width < 2 ^ 24
      → (used : ℕ) × (f.to_unsigned (f.mul (f.div (f.of_ℕ head) (f.of_ℕ size)) (f.of_ℕ width))
          ≡ some used)
        × (used ≤ width)
  used_columns head size width h some_key small =
      let (above, below) = r.div_range head size h some_key in
      let (above', below') = r.mul_range (f.div (f.of_ℕ head) (f.of_ℕ size)) width above below in
      r.to_unsigned_range _ width above' below' small

  -- With a key that is not empty and whose head is inside it, `draw_key_usage` draws its label and
  -- then one bar, the text `head/size` between spaces, at least `min_width` columns wide. Its first
  -- columns are drawn in one colour and the others in the other; the number of the first is
  -- `head/size` times the columns, rounded and truncated as the floating-point numbers do it.
  pub draw_key_usage_lem :
      (info : Bytes) (k : Key) (x y : ℤ) (min_width : ℕ)
      → k.head ≤ k.size
      → 0 < k.size
      → min_width < 2 ^ 24
      → (used : ℕ) × (used ≤ usage_width (usage_text k) min_width)
        × (f.to_unsigned (
              f.mul
                (f.div (f.of_ℕ k.head) (f.of_ℕ k.size))
                (f.of_ℕ (usage_width (usage_text k) min_width)))
            ≡ some used)
        × (draw_key_usage f info k x y min_width
            ≡ some (
              length info + usage_width (usage_text k) min_width,
              (put y x info
                    ∷ colour color_key_used true
                    ∷ adds (take used (usage_bar (usage_text k) min_width)))
                  ++ (colour color_key_used false
                      ∷ colour color_key_left true
                      ∷ adds (drop used (usage_bar (usage_text k) min_width)))
                  ++ colour color_key_left false ∷ [],
            ))
  unfolding draw_key_usage
  draw_key_usage_lem info k x y min_width inside some_key small =
      let usage = usage_text k in
      let width = usage_width usage min_width in
      let offset = (width - length usage) / 2 in
      let fits = usage_fits usage min_width in
      let narrow = usage_narrow k min_width small in
      let (used, converts, at_most) = used_columns k.head k.size width inside some_key narrow in
      let left : (width + 2 ^ 32 - used) % 2 ^ 32 ≡ width - used = omega arith in
      let rest : take (width - used) (drop used (usage_bar usage min_width))
          ≡ drop used (usage_bar usage min_width) =
        take_all (width - used) (drop used (usage_bar usage min_width)) (
          omega (
            arith,
            length-drop used (usage_bar usage min_width),
            length-bar usage offset width fits,
          )) in
      (
        used,
        at_most,
        converts,
        rw (
          converts,
          left,
          usage_cells_lem usage offset width used 0 fits (omega arith),
          usage_cells_lem usage offset width (width - used) used fits (omega arith),
          rest,
        ),
      )

length-usage_cells : (usage : Bytes) (offset n i : ℕ) → length (usage_cells usage offset n i) ≡ n
unfolding usage_cells
length-usage_cells usage offset zero i = refl
length-usage_cells usage offset (suc n) i = ap suc (length-usage_cells usage offset n (i + 1))

-- Where the conversion gives more columns than the bar has, as for a head behind the end of the
-- key, `width-used` wraps, and `draw_key_usage` draws two to the 32 cells and more.
pub draw_key_usage_beyond :
    {W : Type 0} (f : Floats W) (info : Bytes) (k : Key) (x y : ℤ) (min_width used : ℕ)
    → min_width < 2 ^ 32
    → f.to_unsigned (
        f.mul
          (f.div (f.of_ℕ k.head) (f.of_ℕ k.size))
          (f.of_ℕ (usage_width (usage_text k) min_width)))
      ≡ some used
    → usage_width (usage_text k) min_width < used
    → used < 2 ^ 32
    → (ds : List Drawing) × (draw_key_usage f info k x y min_width
        ≡ some (length info + usage_width (usage_text k) min_width, ds))
      × (2 ^ 32 ≤ length ds)
unfolding draw_key_usage
draw_key_usage_beyond f info k x y min_width used small converts over fits =
    let usage = usage_text k in
    let width = usage_width usage min_width in
    let offset = (width - length usage) / 2 in
    let left = (width + 2 ^ 32 - used) % 2 ^ 32 in
    let wraps : left ≡ width + 2 ^ 32 - used = omega arith in
    let first : List Drawing =
      put y x info ∷ colour color_key_used true ∷ usage_cells usage offset used 0 in
    let later : List Drawing =
      colour color_key_used false
      ∷ colour color_key_left true
      ∷ usage_cells usage offset left used in
    let ds = first ++ later ++ colour color_key_left false ∷ [] in
    (
      ds,
      rw converts refl,
      omega (
        arith,
        length-append (first ++ later) (colour color_key_left false ∷ []),
        length-append first later,
        length-usage_cells usage offset used 0,
        length-usage_cells usage offset left used,
        wraps,
      ),
    )
