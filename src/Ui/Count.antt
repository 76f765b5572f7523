-- ===== src/Ui/Count.antt =====
-- The loop of `count_chars` of ui.c, over whole characters.
use otpchat.Base.{
  ℕ, zero, suc, ◌+◌, ◌-◌, ◌≤◌, ◌<◌, ◌≡◌, refl, sym, ap, ap₂, ◌∙◌, List, [], ◌∷◌, ◌++◌, Bytes, arith,
  length, length-append, append_assoc, lt→ltb, le→ltb,
}
use otpchat.Input.Walk.{AllChars, char_at}
use otpchat.Key.Pad.{concat}
use otpchat.State.{Terminal}
use otpchat.Ui.{char_length, count_chars_loop, count_chars}

pub length-concat :
    (t : Terminal) (cs : List Bytes) → AllChars t cs → length cs ≤ length (concat cs)
length-concat t [] h = omega arith
length-concat t (c ∷ cs) (h, hs) =
    let p = h.nonempty in omega (arith, length-append c (concat cs), length-concat t cs hs)

chars_end :
    (t : Terminal) (mbs : Bytes) (n i k : ℕ) → length mbs ≤ i → count_chars_loop t mbs n i k ≡ k
unfolding count_chars_loop
chars_end t mbs zero i k h = refl
chars_end t mbs (suc n) i k h = rw (le→ltb i (length mbs) h)

chars_round :
    (t : Terminal) (mbs : Bytes) (fuel i k n : ℕ)
    → i < length mbs
    → char_length t mbs i ≡ n
    → 0 < n
    → count_chars_loop t mbs (suc fuel) i k ≡ count_chars_loop t mbs fuel (i + n) (k + 1)
unfolding count_chars_loop
chars_round t mbs fuel i k n h e p = rw (e, lt→ltb i (length mbs) h, lt→ltb 0 n p)

chars_counted :
    (t : Terminal) (mbs front : Bytes) (cs : List Bytes) (n i k : ℕ)
    → AllChars t cs
    → mbs ≡ front ++ concat cs
    → i ≡ length front
    → count_chars_loop t mbs (n + length cs) i k ≡ k + length cs
chars_counted t mbs front [] n i k h e at_i =
    chars_end t mbs (n + 0) i k (omega (arith, at_i, ap length e, length-append front []))
    ∙ omega arith
chars_counted t mbs front (c ∷ cs) n i k (h, hs) e at_i =
    let p = h.nonempty in
    let here : char_length t mbs i ≡ length c =
      ap₂ (λ (xs : Bytes) (m : ℕ). char_length t xs m) e at_i ∙ char_at t front c (concat cs) h in
    ap (λ (m : ℕ). count_chars_loop t mbs m i k)
      (let f : n + suc (length cs) ≡ suc (n + length cs) = omega arith in f)
    ∙ chars_round t mbs (n + length cs) i k (length c)
        (omega (
          arith,
          at_i,
          p,
          ap length e,
          length-append front (c ++ concat cs),
          length-append c (concat cs),
        ))
        here p
    ∙ chars_counted t mbs (front ++ c) cs n (i + length c) (k + 1) hs
        (e ∙ sym (append_assoc front c (concat cs))) (omega (arith, at_i, length-append front c))
    ∙ omega arith

pub count_chars_lem :
    (t : Terminal) (cs : List Bytes) → AllChars t cs → count_chars t (concat cs) ≡ length cs
unfolding count_chars
count_chars_lem t cs h =
    let n : ℕ = length (concat cs) - length cs in
    let fuel : length (concat cs) ≡ n + length cs = omega (arith, length-concat t cs h) in
    ap (λ (m : ℕ). count_chars_loop t (concat cs) m 0 0) fuel
    ∙ chars_counted t (concat cs) [] cs n 0 0 h refl refl
    ∙ omega arith
