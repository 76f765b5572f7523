-- ===== src/Draw/Rows.antt =====
-- The loop of `count_bytes` of ui.c, over whole characters.
use otpchat.Base.{
  ℕ, zero, suc, ◌+◌, ◌-◌, ◌^◌, ◌≤◌, ◌<◌, ◌≡◌, refl, sym, ap, ap₂, ◌∙◌, Bool, true, false, List, [],
  ◌∷◌, ◌++◌, Bytes, if◌then◌else◌, arith, ltb, leb, length, take, drop, length-append, append_assoc,
  take-append-drop, lt→ltb, take_all, Bool-cases, ◌⊎◌, inl, inr,
}
use otpchat.Draw.{count_bytes_loop, count_bytes}
use otpchat.Input.Walk.{AllChars, char_at}
use otpchat.Key.Pad.{concat}
use otpchat.State.{Terminal}
use otpchat.Ui.Count.{length-concat}
use otpchat.Ui.{char_length}

-- A round over a character.
count_round :
    (t : Terminal) (mbs : Bytes) (begin chars fuel i j n : ℕ)
    → i < length mbs
    → j < chars
    → char_length t mbs i ≡ n
    → 0 < n
    → count_bytes_loop t mbs begin chars (suc fuel) i j
      ≡ count_bytes_loop t mbs begin chars fuel (i + n) (if leb begin i then j + 1 else j)
unfolding count_bytes_loop
count_round t mbs begin chars fuel i j n h h' e p =
    rw (e, lt→ltb i (length mbs) h, lt→ltb j chars h', lt→ltb 0 n p)

-- The characters in front of the row are walked over.
skips :
    (t : Terminal) (mbs front : Bytes) (cs : List Bytes) (back : Bytes) (begin chars n i : ℕ)
    → AllChars t cs
    → 0 < chars
    → mbs ≡ front ++ (concat cs ++ back)
    → i ≡ length front
    → begin ≡ i + length (concat cs)
    → count_bytes_loop t mbs begin chars (n + length cs) i 0
      ≡ count_bytes_loop t mbs begin chars n begin 0
skips t mbs front [] back begin chars n i h some_chars e at_i at_begin =
    ap₂ (λ (m k : ℕ). count_bytes_loop t mbs begin chars m k 0) (omega arith) (omega arith)
skips t mbs front (c ∷ cs) back begin chars n i (h, hs) some_chars e at_i at_begin =
    let p = h.nonempty in
    let len = length-append c (concat cs) in
    let e' : mbs ≡ front ++ (c ++ (concat cs ++ back)) =
      e ∙ ap (front ++◌) (append_assoc c (concat cs) back) in
    let size : length mbs ≡ length front + (length c + length (concat cs ++ back)) =
      ap length e'
      ∙ omega (
        arith,
        length-append front (c ++ (concat cs ++ back)),
        length-append c (concat cs ++ back),
      ) in
    let here : char_length t mbs i ≡ length c =
      ap₂ (λ (xs : Bytes) (k : ℕ). char_length t xs k) e' at_i
      ∙ char_at t front c (concat cs ++ back) h in
    let before : leb begin i ≡ false = ground (arith, at_begin, len, p) in
    ap (λ (m : ℕ). count_bytes_loop t mbs begin chars m i 0)
      (let f : n + suc (length cs) ≡ suc (n + length cs) = omega arith in f)
    ∙ count_round t mbs begin chars (n + length cs) i 0 (length c) (omega (arith, size, at_i, p))
        some_chars here p
    ∙ ap
        (λ (b : Bool).
          count_bytes_loop t mbs begin chars (n + length cs) (i + length c) (if b then 1 else 0))
        before
    ∙ skips t mbs (front ++ c) cs back begin chars n (i + length c) hs some_chars
        (e' ∙ sym (append_assoc front c (concat cs ++ back)))
        (omega (arith, at_i, length-append front c)) (omega (arith, at_begin, len))

stops :
    (t : Terminal) (mbs : Bytes) (begin chars n i j : ℕ)
    → (length mbs ≤ i) ⊎ (chars ≤ j)
    → count_bytes_loop t mbs begin chars n i j ≡ i
unfolding count_bytes_loop
stops t mbs begin chars zero i j h = refl
stops t mbs begin chars (suc n) i j h = ground arith

-- The characters of the row are counted.
counts :
    (t : Terminal) (mbs front : Bytes) (cs : List Bytes) (begin chars n i j : ℕ)
    → AllChars t cs
    → mbs ≡ front ++ concat cs
    → i ≡ length front
    → begin ≤ i
    → j ≤ chars
    → count_bytes_loop t mbs begin chars (n + length cs) i j
      ≡ i + length (concat (take (chars - j) cs))
counts t mbs front [] begin chars n i j h e at_i le room =
    stops t mbs begin chars (n + 0) i j
      (inl (omega (arith, at_i, ap length e, length-append front [])))
    ∙ omega (
      arith,
      ap (λ (xs : List Bytes). length (concat xs)) (take_all (chars - j) [] (omega arith)),
    )
counts t mbs front (c ∷ cs) begin chars n i j (h, hs) e at_i le room =
    let p = h.nonempty in
    let len = length-append c (concat cs) in
    let size : length mbs ≡ length front + (length c + length (concat cs)) =
      ap length e ∙ omega (arith, length-append front (c ++ concat cs), len) in
    let here : char_length t mbs i ≡ length c =
      ap₂ (λ (xs : Bytes) (k : ℕ). char_length t xs k) e at_i ∙ char_at t front c (concat cs) h in
    elim (Bool-cases (ltb j chars)) [
      | inr full ↦
          let none_left : chars - j ≡ 0 = ground arith in
          stops t mbs begin chars (n + suc (length cs)) i j (inr (ground arith))
          ∙ omega (arith, ap (λ (m : ℕ). length (concat (take m (c ∷ cs)))) none_left)
      | inl more ↦
          let at_row : leb begin i ≡ true = ground arith in
          let left : chars - j ≡ suc (chars - (j + 1)) = ground arith in
          ap (λ (m : ℕ). count_bytes_loop t mbs begin chars m i j)
            (let f : n + suc (length cs) ≡ suc (n + length cs) = omega arith in f)
          ∙ count_round t mbs begin chars (n + length cs) i j (length c)
              (omega (arith, size, at_i, p)) (ground arith) here p
          ∙ ap
              (λ (b : Bool).
                count_bytes_loop t mbs begin chars (n + length cs) (i + length c)
                  (if b then j + 1 else j))
              at_row
          ∙ counts t mbs (front ++ c) cs begin chars n (i + length c) (j + 1) hs
              (e ∙ sym (append_assoc front c (concat cs)))
              (omega (arith, at_i, length-append front c)) (omega arith) (ground arith)
          ∙ omega (
            arith,
            ap (λ (m : ℕ). length (concat (take m (c ∷ cs)))) left,
            length-append c (concat (take (chars - (j + 1)) cs)),
          )
    ]

pub concat-append : (xs ys : List Bytes) → concat (xs ++ ys) ≡ concat xs ++ concat ys
concat-append [] ys = refl
concat-append (x ∷ xs) ys =
    ap (x ++◌) (concat-append xs ys) ∙ sym (append_assoc x (concat xs) (concat ys))

pub cut_row : (n : ℕ) (cs : List Bytes) → concat cs ≡ concat (take n cs) ++ concat (drop n cs)
cut_row n cs = ap concat (sym (take-append-drop n cs)) ∙ concat-append (take n cs) (drop n cs)

-- Behind the characters of the rows above, the bytes of a row of at most `width` characters.
pub count_bytes_lem :
    (t : Terminal) (str : Bytes) (above cs : List Bytes) (width offset : ℕ)
    → AllChars t above
    → AllChars t cs
    → 0 < width
    → str ≡ concat above ++ concat cs
    → offset ≡ length (concat above)
    → length str < 2 ^ 64
    → count_bytes t str offset width ≡ length (concat (take width cs))
unfolding count_bytes
count_bytes_lem t str above cs width offset ha hc wide e at_row small =
    let n : ℕ = length str - length above - length cs in
    let size : length str ≡ length (concat above) + length (concat cs) =
      ap length e ∙ length-append (concat above) (concat cs) in
    let row : length (concat cs)
        ≡ length (concat (take width cs)) + length (concat (drop width cs)) =
      ap length (cut_row width cs)
      ∙ length-append (concat (take width cs)) (concat (drop width cs)) in
    let fuel : length str ≡ (n + length cs) + length above =
      omega (arith, size, length-concat t above ha, length-concat t cs hc) in
    let walked : count_bytes_loop t str offset width (length str) 0 0
        ≡ offset + length (concat (take width cs)) =
      ap (λ (m : ℕ). count_bytes_loop t str offset width m 0 0) fuel
      ∙ skips t str [] above (concat cs) offset width (n + length cs) 0 ha wide e refl
          (omega (arith, at_row))
      ∙ counts t str (concat above) cs offset width n offset 0 hc e at_row (omega arith)
          (omega arith)
      ∙ ap (λ (m : ℕ). offset + length (concat (take m cs))) (omega arith) in
    omega (arith, walked, row, size, at_row, small)
