-- ===== src/Input/Walk.antt =====
-- The two loops that look for a character's border, over a line of whole characters.
use otpchat.Base.{
  ℕ, zero, suc, ◌+◌, ◌-◌, ◌≤◌, ◌<◌, ◌≡◌, refl, sym, ap, ◌∙◌, true, false, Option, none, some, List,
  [], ◌∷◌, ◌++◌, Bytes, arith, leb, length, length-append, drop-append, append_assoc, lt→ltb,
  le→ltb,
}
use otpchat.Input.{next_char_loop, prev_char_loop}
use otpchat.State.{Terminal}
use otpchat.Ui.{char_length}

-- `mblen` takes these bytes for one character, whatever stands behind them.
pub record IsChar (t : Terminal) (c : Bytes) : Type 0 where
  pub decodes : (rest : Bytes) → t.mblen (c ++ rest) ≡ some (length c)
  pub nonempty : 0 < length c

abbrev pub AllChars : Terminal → List Bytes → Type 0
AllChars t [] = Unit
AllChars t (c ∷ cs) = IsChar t c × AllChars t cs

-- The bytes of characters listed from the cursor to the left.
abbrev pub behind : List Bytes → Bytes
behind [] = []
behind (c ∷ cs) = behind cs ++ c

pub char_at :
    (t : Terminal) (front c rest : Bytes)
    → IsChar t c
    → char_length t (front ++ (c ++ rest)) (length front) ≡ length c
char_at t front c rest h =
    ap (λ (xs : Bytes). elim (t.mblen xs) as (λ _. ℕ) [ none ↦ 0 | some n ↦ n ])
      (drop-append (length front) front (c ++ rest) refl)
    ∙ ap (λ (o : Option ℕ). elim o as (λ _. ℕ) [ none ↦ 0 | some n ↦ n ]) (h.decodes rest)

pub length-behind :
    (t : Terminal) (cs : List Bytes) → AllChars t cs → length cs ≤ length (behind cs)
length-behind t [] h = omega arith
length-behind t (c ∷ cs) (h, hs) =
    let p = h.nonempty in omega (arith, length-append (behind cs) c, length-behind t cs hs)

-- Where the last character starts.
abbrev pub last_start : List Bytes → ℕ
last_start [] = 0
last_start (c ∷ cs) = length (behind cs)

-- One round of each loop, over a character in front of the cursor.
prev_round :
    (t : Terminal) (mbs : Bytes) (cursor fuel i prev n : ℕ)
    → i < cursor
    → i < length mbs
    → char_length t mbs i ≡ n
    → 0 < n
    → prev_char_loop t mbs cursor (suc fuel) i prev ≡ prev_char_loop t mbs cursor fuel (i + n) i
unfolding prev_char_loop
prev_round t mbs cursor fuel i prev n h h' e p =
    rw (e, lt→ltb i cursor h, lt→ltb i (length mbs) h', lt→ltb 0 n p)

next_round :
    (t : Terminal) (mbs : Bytes) (cursor fuel i n : ℕ)
    → i ≤ cursor
    → i < length mbs
    → char_length t mbs i ≡ n
    → 0 < n
    → next_char_loop t mbs cursor (suc fuel) i ≡ next_char_loop t mbs cursor fuel (i + n)
unfolding next_char_loop
next_round t mbs cursor fuel i n h h' e p =
    let at_or_before : leb i cursor ≡ true = ground arith in
    rw (e, at_or_before, lt→ltb i (length mbs) h', lt→ltb 0 n p)

pub walk_prev :
    (t : Terminal) (cs : List Bytes) (rest : Bytes) (cursor n : ℕ)
    → AllChars t cs
    → length (behind cs) ≤ cursor
    → prev_char_loop t (behind cs ++ rest) cursor (n + length cs) 0 0
      ≡ prev_char_loop t (behind cs ++ rest) cursor n (length (behind cs)) (last_start cs)
walk_prev t [] rest cursor n h le = ap (λ (m : ℕ). prev_char_loop t rest cursor m 0 0) (omega arith)
walk_prev t (c ∷ cs) rest cursor n (h, hs) le =
    let p = h.nonempty in
    let mbs = behind cs ++ (c ++ rest) in
    let regroup : (behind cs ++ c) ++ rest ≡ mbs = append_assoc (behind cs) c rest in
    ap (λ (xs : Bytes). prev_char_loop t xs cursor (n + suc (length cs)) 0 0) regroup
    ∙ ap (λ (m : ℕ). prev_char_loop t mbs cursor m 0 0)
        (let e : n + suc (length cs) ≡ suc n + length cs = omega arith in e)
    ∙ walk_prev t cs (c ++ rest) cursor (suc n) hs (omega (arith, length-append (behind cs) c))
    ∙ prev_round t mbs cursor n (length (behind cs)) (last_start cs) (length c)
        (omega (arith, length-append (behind cs) c))
        (omega (arith, length-append (behind cs) (c ++ rest), length-append c rest))
        (char_at t (behind cs) c rest h) p
    ∙ ap (λ (i : ℕ). prev_char_loop t mbs cursor n i (length (behind cs)))
        (sym (length-append (behind cs) c))
    ∙ ap
        (λ (xs : Bytes).
          prev_char_loop t xs cursor n (length (behind cs ++ c)) (length (behind cs)))
        (sym regroup)

prev_stops :
    (t : Terminal) (mbs : Bytes) (cursor fuel prev : ℕ)
    → prev_char_loop t mbs cursor fuel cursor prev ≡ prev
unfolding prev_char_loop
prev_stops t mbs cursor zero prev = refl
prev_stops t mbs cursor (suc fuel) prev = rw (le→ltb cursor cursor (omega arith))

-- With the cursor behind these characters, the loop finds the start of the last of them.
pub prev_char_loop_lem :
    (t : Terminal) (cs : List Bytes) (rest : Bytes)
    → AllChars t cs
    → prev_char_loop t (behind cs ++ rest) (length (behind cs)) (length (behind cs ++ rest)) 0 0
      ≡ last_start cs
prev_char_loop_lem t cs rest h =
    let mbs = behind cs ++ rest in
    let n : ℕ = length mbs - length cs in
    let fuel : length mbs ≡ n + length cs =
      omega (arith, length-append (behind cs) rest, length-behind t cs h) in
    ap (λ (m : ℕ). prev_char_loop t mbs (length (behind cs)) m 0 0) fuel
    ∙ walk_prev t cs rest (length (behind cs)) n h (omega arith)
    ∙ prev_stops t mbs (length (behind cs)) n (last_start cs)

walk_next :
    (t : Terminal) (cs : List Bytes) (rest : Bytes) (cursor n : ℕ)
    → AllChars t cs
    → length (behind cs) ≤ cursor
    → next_char_loop t (behind cs ++ rest) cursor (n + length cs) 0
      ≡ next_char_loop t (behind cs ++ rest) cursor n (length (behind cs))
walk_next t [] rest cursor n h le = ap (λ (m : ℕ). next_char_loop t rest cursor m 0) (omega arith)
walk_next t (c ∷ cs) rest cursor n (h, hs) le =
    let p = h.nonempty in
    let mbs = behind cs ++ (c ++ rest) in
    let regroup : (behind cs ++ c) ++ rest ≡ mbs = append_assoc (behind cs) c rest in
    ap (λ (xs : Bytes). next_char_loop t xs cursor (n + suc (length cs)) 0) regroup
    ∙ ap (λ (m : ℕ). next_char_loop t mbs cursor m 0)
        (let e : n + suc (length cs) ≡ suc n + length cs = omega arith in e)
    ∙ walk_next t cs (c ++ rest) cursor (suc n) hs (omega (arith, length-append (behind cs) c))
    ∙ next_round t mbs cursor n (length (behind cs)) (length c)
        (omega (arith, length-append (behind cs) c))
        (omega (arith, length-append (behind cs) (c ++ rest), length-append c rest))
        (char_at t (behind cs) c rest h) p
    ∙ ap (λ (i : ℕ). next_char_loop t mbs cursor n i) (sym (length-append (behind cs) c))
    ∙ ap (λ (xs : Bytes). next_char_loop t xs cursor n (length (behind cs ++ c))) (sym regroup)

next_stops :
    (t : Terminal) (mbs : Bytes) (cursor fuel i : ℕ)
    → cursor < i
    → next_char_loop t mbs cursor fuel i ≡ i
unfolding next_char_loop
next_stops t mbs cursor zero i h = refl
next_stops t mbs cursor (suc fuel) i h = let past : leb i cursor ≡ false = ground arith in rw past

next_ends :
    (t : Terminal) (mbs : Bytes) (cursor fuel : ℕ)
    → next_char_loop t mbs cursor fuel (length mbs) ≡ length mbs
unfolding next_char_loop
next_ends t mbs cursor zero = refl
next_ends t mbs cursor (suc fuel) = ground (arith, le→ltb (length mbs) (length mbs))

-- With the cursor in front of a character, the loop finds its end.
pub next_char_loop_lem :
    (t : Terminal) (cs : List Bytes) (c rest : Bytes)
    → AllChars t cs
    → IsChar t c
    → next_char_loop t
        (behind cs ++ (c ++ rest))
        (length (behind cs))
        (length (behind cs ++ (c ++ rest)))
        0
      ≡ length (behind cs) + length c
next_char_loop_lem t cs c rest h hc =
    let p = hc.nonempty in
    let mbs = behind cs ++ (c ++ rest) in
    let n : ℕ = length mbs - length cs - 1 in
    let size : length mbs ≡ length (behind cs) + length c + length rest =
      omega (arith, length-append (behind cs) (c ++ rest), length-append c rest) in
    let fuel : length mbs ≡ suc n + length cs = omega (arith, size, length-behind t cs h) in
    ap (λ (m : ℕ). next_char_loop t mbs (length (behind cs)) m 0) fuel
    ∙ walk_next t cs (c ++ rest) (length (behind cs)) (suc n) h (omega arith)
    ∙ next_round t mbs (length (behind cs)) n (length (behind cs)) (length c) (omega arith)
        (omega (arith, size)) (char_at t (behind cs) c rest hc) p
    ∙ next_stops t mbs (length (behind cs)) n (length (behind cs) + length c) (omega arith)

-- At the end of the line there is no character.
pub next_char_loop_end :
    (t : Terminal) (cs : List Bytes)
    → AllChars t cs
    → next_char_loop t (behind cs ++ []) (length (behind cs)) (length (behind cs ++ [])) 0
      ≡ length (behind cs)
next_char_loop_end t cs h =
    let mbs = behind cs ++ [] in
    let size : length mbs ≡ length (behind cs) = omega (arith, length-append (behind cs) []) in
    let n : ℕ = length mbs - length cs in
    let fuel : length mbs ≡ n + length cs = omega (arith, size, length-behind t cs h) in
    ap (λ (m : ℕ). next_char_loop t mbs (length (behind cs)) m 0) fuel
    ∙ walk_next t cs [] (length (behind cs)) n h (omega arith)
    ∙ ap (λ (i : ℕ). next_char_loop t mbs (length (behind cs)) n i) (sym size)
    ∙ next_ends t mbs (length (behind cs)) n
    ∙ size
