-- ===== src/Input/Line.antt =====
-- The line of input as the bytes in front of the cursor and those behind it.
use otpchat.Base.Int.{sub_ℕ}
use otpchat.Base.{
  ℕ, zero, suc, ◌+◌, ◌-◌, ◌≤◌, ◌<◌, ◌≡◌, refl, sym, ap, ap₂, ◌∙◌, List, [], ◌∷◌, ◌++◌, Bytes, arith,
  length, take, drop, overwrite, length-append, length-take, take-add, take-append, take-append_le,
  drop-append, take_all, drop_all, append-nil, append_assoc, take-overwrite, drop-overwrite, Option,
  none, some,
}
use otpchat.Block.{content}
use otpchat.Input.{line, resized, insert_byte, offset_by, moved_back}
use otpchat.State.{ChatState, World}
use otpchat.Transfer.Receive.{length-added}
use otpchat.Transfer.{added}

pub record Shows (st : ChatState) (front back : Bytes) : Type 0 where
  pub size_is : st.input.size ≡ length front + length back
  pub cursor_is : st.cursor_index ≡ length front
  pub line_is : line st ≡ front ++ back

pub take-take : {A : Type 0} (m n : ℕ) (xs : List A) → m ≤ n → take m (take n xs) ≡ take m xs
take-take zero n xs h = refl
take-take (suc m) zero xs h = absurd (omega arith)
take-take (suc m) (suc n) [] h = refl
take-take (suc m) (suc n) (x ∷ xs) h = ap (◌∷◌ x) (take-take m n xs (omega arith))

-- An array that holds `front ++ back` is cut behind `front`.
cut :
    (xs front back : Bytes)
    → take (length front + length back) xs ≡ front ++ back
    → (take (length front) xs ≡ front) × (take (length back) (drop (length front) xs) ≡ back)
cut xs front back h = (
  sym (take-append (length front) _ _ at_front)
      ∙ ap (take (length front)) joined
      ∙ take-append (length front) front back refl,
  sym (drop-append (length front) _ _ at_front)
      ∙ ap (drop (length front)) joined
      ∙ drop-append (length front) front back refl,
)
  where
    joined : take (length front) xs ++ take (length back) (drop (length front) xs) ≡ front ++ back
    joined = sym (take-add (length front) (length back) xs) ∙ h

    at_front : length front ≡ length (take (length front) xs)
    at_front = omega (
      arith,
      ap length h,
      length-append front back,
      length-take (length front + length back) xs,
      length-take (length front) xs,
    )

-- With `src` written behind the first `at` bytes.
take_end-overwrite :
    (at : ℕ) (src xs : Bytes)
    → at ≤ length xs
    → take (at + length src) (overwrite at src xs) ≡ take at xs ++ src
take_end-overwrite at src xs h =
    take-add at (length src) (overwrite at src xs)
    ∙ ap₂ ◌++◌ (take-overwrite at src xs h)
        (ap (take (length src)) (drop-overwrite at src xs h) ∙ take-append (length src) src _ refl)

Shows-held :
    (st : ChatState) (front back : Bytes)
    → Shows st front back
    → length front + length back ≤ length (content st.input)
Shows-held st front back s = omega (
  arith,
  ap length s.line_is,
  s.size_is,
  length-append front back,
  length-take st.input.size (content st.input),
)

pub length-resized : (fresh : ℕ → ℕ) (n : ℕ) (xs : Bytes) → length (resized fresh n xs) ≡ n
length-resized fresh n xs = omega (
  arith,
  length-append (take n xs) (added fresh (n - length xs)),
  length-take n xs,
  length-added fresh (n - length xs),
)

take-resized :
    (fresh : ℕ → ℕ) (m n : ℕ) (xs : Bytes)
    → m ≤ n
    → m ≤ length xs
    → take m (resized fresh n xs) ≡ take m xs
take-resized fresh m n xs h held =
    take-append_le m (take n xs) (added fresh (n - length xs)) (omega (arith, length-take n xs))
    ∙ take-take m n xs h

-- The two writes of an insertion into an array of the right length.
inserted :
    (c : ℕ) (front back xs : Bytes)
    → length xs ≡ length front + length back + 1
    → take (length front) xs ≡ front
    → overwrite (length front) (c ∷ []) (overwrite (length front + 1) back xs) ≡ front ++ c ∷ back
unfolding overwrite
inserted c front back xs len at_front =
    ap₂ (λ (a b : Bytes). a ++ c ∷ b)
      (take-append_le n (take (n + 1) xs) _ (omega (arith, length-take (n + 1) xs))
        ∙ take-take n (n + 1) xs (omega arith)
        ∙ at_front)
      (drop-overwrite (n + 1) back xs (omega arith)
        ∙ ap (back ++◌) (drop_all (n + 1 + length back) xs (omega arith))
        ∙ append-nil back)
  where
    n : ℕ
    n = length front

-- What `insert_byte` leaves in an array that holds the line.
abbrev insertion : (ℕ → ℕ) → ℕ → Bytes → ℕ → ℕ → Bytes
insertion fresh c xs size cursor =
    let ys = resized fresh (size + 1) xs in
    overwrite cursor (c ∷ []) (overwrite (cursor + 1) (take (size - cursor) (drop cursor ys)) ys)

insertion_lem :
    (fresh : ℕ → ℕ) (c : ℕ) (xs front back : Bytes)
    → take (length front + length back) xs ≡ front ++ back
    → length front + length back ≤ length xs
    → insertion fresh c xs (length front + length back) (length front) ≡ front ++ c ∷ back
insertion_lem fresh c xs front back h held =
    let n = length front + length back in
    let ys = resized fresh (n + 1) xs in
    let (at_front, behind) =
      cut ys front back (take-resized fresh n (n + 1) xs (omega arith) held ∙ h) in
    let size : n - length front ≡ length back = omega arith in
    ap (λ (src : Bytes). overwrite (length front) (c ∷ []) (overwrite (length front + 1) src ys))
      (ap (λ (m : ℕ). take m (drop (length front) ys)) size ∙ behind)
    ∙ inserted c front back ys (length-resized fresh (n + 1) xs) at_front

pub insert_byte-Shows :
    (w : World) (c : ℕ) (st : ChatState) (front back : Bytes)
    → Shows st front back
    → Shows (insert_byte w c st) (front ++ c ∷ []) back
unfolding insert_byte
insert_byte-Shows w c st front back s =
    let xs = content st.input in
    let n = length front + length back in
    let len = length-append front (c ∷ []) in
    let whole : insertion w.fresh c xs st.input.size st.cursor_index ≡ front ++ c ∷ back =
      ap₂ (insertion w.fresh c xs) s.size_is s.cursor_is
      ∙ insertion_lem w.fresh c xs front back
          (ap (λ (m : ℕ). take m xs) (sym s.size_is) ∙ s.line_is) (Shows-held st front back s) in
    record {
      size_is = omega (arith, s.size_is, len);
      cursor_is = omega (arith, s.cursor_is, len);
      line_is =
          ap (take (st.input.size + 1)) whole
          ∙ take_all (st.input.size + 1) (front ++ c ∷ back)
              (omega (arith, s.size_is, length-append front (c ∷ back)))
          ∙ sym (append_assoc front (c ∷ []) back);
    }

pub offset_by-sub : (n a b : ℕ) → a ≤ b → b ≤ n → offset_by n (sub_ℕ a b) ≡ n - (b - a)
offset_by-sub n a b h h' = ground arith

-- What `moved_back` leaves in the array, up to the new size.
abbrev removal : Bytes → ℕ → ℕ → ℕ → ℕ → Bytes
removal xs size' cursor' size cursor =
    take size' (overwrite cursor' (take (size - cursor) (drop cursor xs)) xs)

removal_lem :
    (xs front gone back : Bytes)
    → take (length (front ++ gone) + length back) xs ≡ (front ++ gone) ++ back
    → length front + length back ≤ length xs
    → removal xs
        (length front + length back)
        (length front)
        (length (front ++ gone) + length back)
        (length (front ++ gone))
      ≡ front ++ back
removal_lem xs front gone back h held =
    let (at_front, behind) = cut xs (front ++ gone) back h in
    let size : length (front ++ gone) + length back - length (front ++ gone) ≡ length back =
      omega arith in
    ap (λ (src : Bytes). take (length front + length back) (overwrite (length front) src xs))
      (ap (λ (m : ℕ). take m (drop (length (front ++ gone)) xs)) size ∙ behind)
    ∙ take_end-overwrite (length front) back xs (omega arith)
    ∙ ap (◌++ back) (
        sym (
          take-take (length front) (length (front ++ gone)) xs
            (omega (arith, length-append front gone)))
        ∙ ap (take (length front)) at_front
        ∙ take-append (length front) front gone refl)

-- The move of what stands behind the cursor, over the last bytes in front of it.
pub moved_back-Shows :
    (st : ChatState) (front gone back xs : Bytes)
    → Shows st (front ++ gone) back
    → st.input.bytes ≡ some xs
    → Shows (moved_back st (sub_ℕ (length front) st.cursor_index) xs) front back
unfolding moved_back
moved_back-Shows st front gone back xs s is_array =
    let len = length-append front gone in
    let offset = sub_ℕ (length front) st.cursor_index in
    let is_content : content st.input ≡ xs =
      ap (λ (b : Option Bytes). elim b [ none ↦ [] | some ys ↦ ys ]) is_array in
    let size' : offset_by st.input.size offset ≡ length front + length back =
      offset_by-sub st.input.size (length front) st.cursor_index (omega (arith, s.cursor_is, len))
        (omega (arith, s.cursor_is, s.size_is))
      ∙ omega (arith, s.cursor_is, s.size_is, len) in
    let cursor' : offset_by st.cursor_index offset ≡ length front =
      offset_by-sub st.cursor_index (length front) st.cursor_index (omega (arith, s.cursor_is, len))
        (omega arith)
      ∙ omega (arith, s.cursor_is, len) in
    let holds : take (length (front ++ gone) + length back) xs ≡ (front ++ gone) ++ back =
      ap₂ take (sym s.size_is) (sym is_content) ∙ s.line_is in
    record {
      size_is = size';
      cursor_is = cursor';
      line_is =
          ap₂ (λ (m a : ℕ). removal xs m a st.input.size st.cursor_index) size' cursor'
          ∙ ap₂ (removal xs (length front + length back) (length front)) s.size_is s.cursor_is
          ∙ removal_lem xs front gone back holds
              (omega (arith, ap length is_content, Shows-held st (front ++ gone) back s, len));
    }

-- A byte of the line is in an array.
pub Shows-array :
    (st : ChatState) (front back : Bytes)
    → Shows st front back
    → 0 < length front + length back
    → (xs : Bytes) × (st.input.bytes ≡ some xs)
Shows-array st front back s h = by_array st.input.bytes refl
  where
    by_array : (b : Option Bytes) → st.input.bytes ≡ b → (xs : Bytes) × (st.input.bytes ≡ some xs)
    by_array none e = absurd (
        omega (
          arith,
          Shows-held st front back s,
          ap (λ (b : Option Bytes). length (elim b as (λ _. Bytes) [ none ↦ [] | some ys ↦ ys ])) e,
        ))
    by_array (some xs) e = (xs, e)
