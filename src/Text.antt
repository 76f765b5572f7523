-- ===== src/Text.antt =====
-- C strings, without the final NUL, and what the program uses of <string.h> and <stdlib.h>:
-- `strrchr`, `strpbrk`, `strtol` and `strtoll` with base 0, and `%d` of a number that is not negative.
pub mod Decimal
pub mod Number
pub mod Split
use otpchat.Base.Int.{ℤ, pos, negsuc, neg}
use otpchat.Base.{
  ℕ, zero, suc, ◌+◌, ◌-◌, ◌*◌, ◌/◌, ◌%◌, ◌^◌, Bool, true, false, ◌&&◌, ◌||◌, Option, none, some,
  List, [], ◌∷◌, Bytes, if◌then◌else◌, ◌==◌, leb, ltb, min,
}

-- The string that starts at an array of bytes: up to the first NUL.
unfoldable pub c_str : Bytes → Bytes
c_str [] = []
c_str (c ∷ cs) = if c == 0 then [] else c ∷ c_str cs

-- `strrchr(text, c)`: what stands in front of the last `c`, and behind it.
unfoldable pub split_last : ℕ → Bytes → Option (Bytes × Bytes)
split_last c [] = none
split_last c (x ∷ xs) = elim (split_last c xs) [
  | some (front, back) ↦ some (x ∷ front, back)
  | none ↦ if x == c then some ([], xs) else none
]

-- `strpbrk`: what stands in front of the first byte that passes the test, and behind it.
unfoldable pub split_first : (ℕ → Bool) → Bytes → Bytes × Option Bytes
split_first test [] = ([], none)
split_first test (x ∷ xs) =
    let rest = split_first test xs in if test x then ([], some xs) else (x ∷ rest.0, rest.1)

abbrev pub is_space : ℕ → Bool
is_space c = c == b' ' || (leb 9 c && leb c 13)

unfoldable pub skip_spaces : Bytes → Bytes
skip_spaces [] = []
skip_spaces (c ∷ cs) = let rest = skip_spaces cs in if is_space c then rest else c ∷ cs

-- The value of a digit or a letter; 36 for anything else.
unfoldable pub digit_value : ℕ → ℕ
digit_value c =
    if leb b'0' c && leb c b'9'
    then c - b'0'
    else if leb b'a' c && leb c b'z'
    then c - b'a' + 10
    else if leb b'A' c && leb c b'Z'
    then c - b'A' + 10
    else 36

unfoldable pub read_digits : ℕ → ℕ → Bytes → ℕ × Bytes
read_digits base acc [] = (acc, [])
read_digits base acc (c ∷ cs) =
    let rest = read_digits base (acc * base + digit_value c) cs in
    if ltb (digit_value c) base then rest else (acc, c ∷ cs)

-- A "0x" in front of a hexadecimal digit; the digits that follow it.
hex_prefix : Bytes → Option Bytes
hex_prefix (z ∷ x ∷ h ∷ cs) =
    if z == b'0' && (x == b'x' || x == b'X') && ltb (digit_value h) 16 then some (h ∷ cs) else none
hex_prefix _ = none

-- The base that the number's own prefix gives, and where its digits start.
unfoldable pub number_base : Bytes → ℕ × Bytes
unfolding hex_prefix
number_base [] = (10, [])
number_base (c ∷ cs) = elim (hex_prefix (c ∷ cs)) [
  | some digits ↦ (16, digits)
  | none ↦ (if c == b'0' then 8 else 10, c ∷ cs)
]

-- The magnitude of the digits in a base and what follows them; `none` without a digit.
pub number_at : ℕ → Bytes → Option (ℕ × Bytes)
number_at base [] = none
number_at base (c ∷ cs) =
    if ltb (digit_value c) base then some (read_digits base 0 (c ∷ cs)) else none

unfoldable pub read_number : Bytes → Option (ℕ × Bytes)
unfolding number_at
read_number cs = number_at (number_base cs).0 (number_base cs).1

-- An optional sign.
unfoldable pub read_sign : Bytes → Bool × Bytes
read_sign [] = (false, [])
read_sign (c ∷ cs) =
    if c == b'-' then (true, cs) else if c == b'+' then (false, cs) else (false, c ∷ cs)

-- What does not fit a `long` becomes the nearest one that does.
abbrev pub to_long : Bool → ℕ → ℤ
to_long false n = pos (min n (2 ^ 63 - 1))
to_long true n = neg (min n (2 ^ 63))

-- `strtol(text, &end, 0)` and `strtoll`: the value, and the text from `end` on.
unfoldable pub strtol : Bytes → ℤ × Bytes
strtol text =
    let signed = read_sign (skip_spaces text) in
    elim (read_number signed.1) [ none ↦ (pos 0, text) | some (n, end) ↦ (to_long signed.0 n, end) ]

-- `%d` of `n`, with room for `fuel` digits.
decimal_onto : ℕ → ℕ → Bytes → Bytes
decimal_onto zero n acc = acc
decimal_onto (suc fuel) n acc =
    let more = decimal_onto fuel (n / 10) ((b'0' + n % 10) ∷ acc) in
    if n / 10 == 0 then (b'0' + n % 10) ∷ acc else more

unfoldable pub decimal : ℕ → Bytes
unfolding decimal_onto
decimal n = decimal_onto 20 n []
