-- ===== src/Tests/Screen.antt =====
-- The whole screen, with fractions for the floating-point numbers.
use native.Mathlib.Nat.{div-le_of_le-mul, mul_comm}
use otpchat.Base.Int.{ℤ, pos}
use otpchat.Base.{
  ℕ, zero, suc, ◌*◌, ◌/◌, ◌^◌, ◌≤◌, ◌<◌, ◌≡◌, refl, ap, ap₂, Bool, true, false, ◌&&◌, Option, some,
  none, List, [], ◌∷◌, ◌++◌, Bytes, if◌then◌else◌, ltb, leb, ◌==◌, arith, length, take, drop,
}
use otpchat.Block.{block_of}
use otpchat.Chat.{text}
use otpchat.Draw.{Drawing, put, colour}
use otpchat.Draw.Screen.{Floats, draw_key_usage}
use otpchat.Draw.Screen.{cursor_place}
use otpchat.Draw.Screen.Cursor.{box_rows, cursor_place_lem}
use otpchat.Input.Walk.{IsChar}
use otpchat.Draw.Screen.Usage.{IsRounding, draw_key_usage_lem, draw_key_usage_beyond}
use otpchat.Draw.Screen.Bar.{adds}
use otpchat.Draw.Screen.Parts.{HasRoom, HasKeys, IsInside}
use otpchat.Key.{Key}
use otpchat.KeyStore.{KeyRef, local_key, remote_key, get_key}
use otpchat.State.{ChatState}
use otpchat.Tests.Keys.{key_at, store}
use otpchat.Tests.Messages.{terminal, talking}
use otpchat.Text.{decimal}
use otpchat.Ui.{string_lines, count_chars}

abbrev Fraction : Type 0
Fraction = ℕ × ℕ

abbrev le : Fraction → Fraction → Bool
le (a, b) (c, d) = ltb 0 b && leb (a * d) (c * b)

abbrev floor : Fraction → Option ℕ
floor (a, b) = if b == 0 then none else some (a / b)

abbrev as_int : Option ℕ → Option ℤ
as_int none = none
as_int (some n) = some (pos n)

abbrev pub fractions : Floats Fraction
fractions = record {
  of_ℕ = λ n. (n, 1);
  div = λ x y. (x.0 * y.1, x.1 * y.0);
  mul = λ x y. (x.0 * y.0, x.1 * y.1);
  to_unsigned = floor;
  to_int = λ x. as_int (floor x);
}

le_intro : (a b c d : ℕ) → 0 < b → a * d ≤ c * b → le (a, b) (c, d) ≡ true
le_intro a b c d h k = ground arith

le_elim : (a b c d : ℕ) → le (a, b) (c, d) ≡ true → (0 < b) × (a * d ≤ c * b)
le_elim a b c d h = ground arith

floor_range : (a b n : ℕ) → le (a, b) (n, 1) ≡ true → (m : ℕ) × (floor (a, b) ≡ some m) × (m ≤ n)
floor_range a b n h =
    let (positive, at_most) = le_elim a b n 1 h in
    let not_zero : (b == 0) ≡ false = ground arith in
    (a / b, rw not_zero refl, div-le_of_le-mul b (grind arith))

mul_bound :
    (a b n : ℕ)
    → le (a, b) (1, 1) ≡ true
    → (le (0, 1) (a * n, b * 1) ≡ true) × (le (a * n, b * 1) (n, 1) ≡ true)
mul_bound a b n h =
    let (positive, below) = le_elim a b 1 1 h in
    let fits : a ≤ b = omega arith in
    (
      le_intro 0 1 (a * n) (b * 1) (omega arith) (omega arith),
      le_intro (a * n) (b * 1) n 1 (omega arith) (grind arith),
    )

fractions-IsRounding : IsRounding fractions
fractions-IsRounding = record {
  le = le;
  div_range = λ a b h k. (
    le_intro 0 1 (a * 1) (1 * b) (omega arith) (grind arith),
    le_intro (a * 1) (1 * b) 1 1 (omega arith) (grind arith),
  );
  mul_range = λ x n h k. mul_bound x.0 x.1 n k;
  mul_comm = λ x y. ap₂ (λ (a b : ℕ). (a, b)) (mul_comm x.0 y.0) (mul_comm x.1 y.1);
  to_unsigned_range = λ x n h k small. floor_range x.0 x.1 n k;
  to_int_range =
      λ x n h k small. (let (m, e, at_most) = floor_range x.0 x.1 n k in (m, ap as_int e, at_most));
}

abbrev bar : Bytes
bar = text "        " ++ (text "1/5" ++ text "         ")

draw_key_usage_lem_example :
    (used : ℕ) × (used ≤ 20)
    × (◌≡◌ {A = Option ℕ} (some 4) (some used))
    × (draw_key_usage fractions (text "Local:  ") (key_at 1) (pos 0) (pos 23) 20
        ≡ some (
          28,
          (put (pos 23) (pos 0) (text "Local:  ") ∷ colour 1 true ∷ adds (take used bar))
              ++ (colour 1 false ∷ colour 2 true ∷ adds (drop used bar))
              ++ colour 2 false ∷ [],
        ))
unfolding decimal
draw_key_usage_lem_example =
    draw_key_usage_lem fractions fractions-IsRounding (text "Local:  ") (key_at 1) (pos 0) (pos 23)
      20 (omega arith) (omega arith) (omega arith)

-- A head behind the end, as a header of the peer may name it.
draw_key_usage_beyond_example :
    (ds : List Drawing) × (draw_key_usage fractions
        (text "Remote: ")
        (key_at 100)
        (pos 0)
        (pos 23)
        20
      ≡ some (28, ds))
    × (2 ^ 32 ≤ length ds)
unfolding decimal
draw_key_usage_beyond_example =
    draw_key_usage_beyond fractions (text "Remote: ") (key_at 100) (pos 0) (pos 23) 20 400
      (omega arith) refl (omega arith) (omega arith)

abbrev pub named : ChatState
named = record talking {
  local = record talking.local { name = some (text "Local") };
  remote = record talking.remote { name = some (text "Remote") };
  input = block_of (text "hi");
  cursor_index = 1;
}

named_input : string_lines terminal (text "hi") 80 ≡ some 1
unfolding string_lines count_chars
named_input = refl

abbrev named-HasRoom : HasRoom terminal named
named-HasRoom = record {
  wide = omega arith;
  input_lines = 1;
  is_input = named_input;
  rows = 21;
  some_rows = omega arith;
  few = omega arith;
  height = refl;
}

named_remote :
    (r : KeyRef) → named.remote.key ≡ some r → (k : Key) × (get_key store r ≡ some k) × IsInside k
named_remote local_key e = cc
named_remote (remote_key zero) e = (key_at 4, refl, (omega arith, omega arith))
named_remote (remote_key (suc i)) e = ground arith

abbrev named-HasKeys : HasKeys named
named-HasKeys = record {
  ref = local_key;
  is_local = refl;
  local = key_at 1;
  held = refl;
  inside = (omega arith, omega arith);
  remote = named_remote;
}

abbrev clock : ℕ → Bytes
clock n = text "12:00:00"

abbrev front : List Bytes
front = text "h" ∷ text "e" ∷ []

abbrev back : List Bytes
back = text "l" ∷ text "l" ∷ text "o" ∷ []

one_byte : (c : ℕ) → IsChar terminal (c ∷ [])
one_byte c = record { decodes = λ rest. refl; nonempty = omega arith }

cursor_place_lem_example :
    (lines : ℕ) × (string_lines terminal (text "hello") 80 ≡ some lines)
    × (cursor_place terminal (text "hello") 2 (pos 21) ≡ some (pos 22, pos 2))
    × (0 ≤ box_rows lines)
    × (◌≡◌ {A = ℕ} 0 (box_rows lines) → (back ≡ []) × (◌≡◌ {A = ℕ} 2 (box_rows lines * 80)))
cursor_place_lem_example =
    cursor_place_lem terminal front back 21 (one_byte b'h', (one_byte b'e', tt))
      (one_byte b'l', (one_byte b'l', (one_byte b'o', tt))) (omega arith) (omega arith)
