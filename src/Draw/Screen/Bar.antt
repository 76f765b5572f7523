-- ===== src/Draw/Screen/Bar.antt =====
-- The cells that `draw_key_usage` of ui.c adds, as a list.
use otpchat.Base.{
  ℕ, zero, suc, ◌+◌, ◌-◌, ◌≤◌, ◌<◌, ◌≡◌, refl, sym, ap, ◌∙◌, true, false, some, List, ◌∷◌, ◌++◌,
  Bytes, if◌then◌else◌, ltb, leb, arith, length, take, drop, get_elem?, replicate, map, Bool-cases,
  inl, inr, length-replicate, length-append, get_elem?-append, take-get_elem?, get_elem?-replicate,
  get_elem?-some,
}
use otpchat.Draw.{Drawing, add}
use otpchat.Draw.Screen.{usage_cell, usage_cells}

abbrev pub bar : Bytes → ℕ → ℕ → Bytes
bar usage offset width =
    replicate offset b' ' ++ (usage ++ replicate (width - offset - length usage) b' ')

pub length-bar :
    (usage : Bytes) (offset width : ℕ)
    → offset + length usage ≤ width
    → length (bar usage offset width) ≡ width
length-bar usage offset width fits =
    let rest = width - offset - length usage in
    omega (
      arith,
      length-append (replicate offset b' ') (usage ++ replicate rest b' '),
      length-append usage (replicate rest b' '),
      length-replicate {A = ℕ} offset b' ',
      length-replicate {A = ℕ} rest b' ',
    )

cell_at :
    (usage : Bytes) (offset width i : ℕ)
    → offset + length usage ≤ width
    → i < width
    → get_elem? (bar usage offset width) i ≡ some (usage_cell usage offset i)
cell_at usage offset width i fits h =
    let rest = replicate (width - offset - length usage) b' ' in
    get_elem?-append (replicate offset b' ') (usage ++ rest) i
    ∙ ap
        (λ (m : ℕ).
          if ltb i m
          then get_elem? (replicate offset b' ') i
          else get_elem? (usage ++ rest) (i - m))
        (length-replicate offset b' ')
    ∙ elim (Bool-cases (ltb i offset)) [
      | inl e ↦
          let before : leb offset i ≡ false = ground arith in
          rw (e, before) (get_elem?-replicate offset i b' ' (ground arith))
      | inr e ↦
          let behind : leb offset i ≡ true = ground arith in
          rw (e, behind, get_elem?-append usage rest (i - offset))
            (elim (Bool-cases (ltb (i - offset) (length usage))) [
              | inl e' ↦
                  let (c, there) = get_elem?-some usage (i - offset) (ground arith) in
                  rw (e', there)
              | inr e' ↦ rw e' (
                  get_elem?-replicate (width - offset - length usage) (i - offset - length usage)
                    b' ' (ground arith))
            ])
    ]

abbrev pub adds : Bytes → List Drawing
adds cs = map add cs

pub usage_cells_lem :
    (usage : Bytes) (offset width n i : ℕ)
    → offset + length usage ≤ width
    → i + n ≤ width
    → usage_cells usage offset n i ≡ adds (take n (drop i (bar usage offset width)))
unfolding usage_cells
usage_cells_lem usage offset width zero i fits h = refl
usage_cells_lem usage offset width (suc n) i fits h =
    ap (add (usage_cell usage offset i) ∷◌) (
      usage_cells_lem usage offset width n (i + 1) fits (omega arith)
      ∙ ap (λ (m : ℕ). adds (take n (drop m (bar usage offset width))))
          (let e : i + 1 ≡ suc i = omega arith in e))
    ∙ sym (
        ap adds (
          take-get_elem? (bar usage offset width) i n
            (cell_at usage offset width i fits (omega arith))))
