-- ===== src/Text/Decimal.antt =====
-- A number that `%d` printed is read back by `strtol`.
use native.Mathlib.Nat.{pow-suc}
use otpchat.Base.Int.{pos}
use otpchat.Base.{
  ℕ, zero, suc, ◌+◌, ◌*◌, ◌/◌, ◌%◌, ◌^◌, ◌≤◌, ◌<◌, ◌≡◌, ap, ◌∙◌, some, [], ◌∷◌, Bytes, arith, ◌==◌,
  false, length, Bool-cases, inl, inr, lt→ltb,
}
use otpchat.Text.Split.{Lacks}
use otpchat.Text.{
  digit_value, read_digits, skip_spaces, read_sign, number_base, read_number, strtol, decimal,
  decimal_onto, to_long,
}

digit_value_lem : (d : ℕ) → d < 10 → digit_value (b'0' + d) ≡ d
unfolding digit_value
digit_value_lem d h = ground arith

read_digits_digit :
    (acc d : ℕ) (cs : Bytes)
    → d < 10
    → read_digits 10 acc ((b'0' + d) ∷ cs) ≡ read_digits 10 (acc * 10 + d) cs
unfolding read_digits
read_digits_digit acc d cs h = rw (digit_value_lem d h) (ground arith)

read_digits-decimal_onto :
    (fuel n : ℕ) (acc : Bytes)
    → n < 10 ^ fuel
    → read_digits 10 0 (decimal_onto fuel n acc) ≡ read_digits 10 n acc
unfolding decimal_onto
read_digits-decimal_onto zero n acc h = let e : n ≡ 0 = omega arith in rw e
read_digits-decimal_onto (suc fuel) n acc h = elim (Bool-cases (n / 10 == 0)) [
  | inl last ↦ rw last (
      read_digits_digit 0 (n % 10) acc (omega arith)
      ∙ ap (λ (t : ℕ). read_digits 10 t acc) (ground arith))
  | inr more ↦ rw more (
      read_digits-decimal_onto fuel (n / 10) _ (omega (arith, pow-suc 10 fuel))
      ∙ read_digits_digit (n / 10) (n % 10) acc (omega arith)
      ∙ ap (λ (t : ℕ). read_digits 10 t acc) (div_mod n))
]
  where
    div_mod : (n : ℕ) → n / 10 * 10 + n % 10 ≡ n
    div_mod n = omega arith

-- The first digit is not 0, so that `strtol` takes the number for a decimal one.
abbrev StartsDecimal : Bytes → Type 0
StartsDecimal [] = ⊥
StartsDecimal (c ∷ cs) = (b'1' ≤ c) × (c ≤ b'9')

decimal_onto_starts :
    (fuel n : ℕ) (acc : Bytes) → 0 < n → n < 10 ^ fuel → StartsDecimal (decimal_onto fuel n acc)
unfolding decimal_onto
decimal_onto_starts zero n acc p h = absurd (omega arith)
decimal_onto_starts (suc fuel) n acc p h = elim (Bool-cases (n / 10 == 0)) [
  | inl last ↦ rw last (ground arith, ground arith)
  | inr more ↦
      rw more (decimal_onto_starts fuel (n / 10) _ (ground arith) (omega (arith, pow-suc 10 fuel)))
]

skip_spaces_starts : (c : ℕ) (cs : Bytes) → StartsDecimal (c ∷ cs) → skip_spaces (c ∷ cs) ≡ c ∷ cs
unfolding skip_spaces
skip_spaces_starts c cs h = ground arith

read_sign_starts :
    (c : ℕ) (cs : Bytes) → StartsDecimal (c ∷ cs) → read_sign (c ∷ cs) ≡ (false, c ∷ cs)
unfolding read_sign
read_sign_starts c cs h = ground arith

number_base_starts :
    (c : ℕ) (cs : Bytes) → StartsDecimal (c ∷ cs) → number_base (c ∷ cs) ≡ (10, c ∷ cs)
unfolding number_base
number_base_starts c [] h = ground arith
number_base_starts c (x ∷ []) h = ground arith
number_base_starts c (x ∷ y ∷ cs) h = ground arith

read_number_starts :
    (c : ℕ) (cs : Bytes)
    → StartsDecimal (c ∷ cs)
    → read_number (c ∷ cs) ≡ some (read_digits 10 0 (c ∷ cs))
unfolding read_number
read_number_starts c cs h = rw (number_base_starts c cs h) (rw (lt→ltb _ 10 digit))
  where
    digit : digit_value c < 10
    digit = unfold digit_value in ground arith

strtol_starts :
    (cs : Bytes)
    → StartsDecimal cs
    → strtol cs ≡ (to_long false (read_digits 10 0 cs).0, (read_digits 10 0 cs).1)
unfolding strtol
strtol_starts [] h = absurd h
strtol_starts (c ∷ cs) h =
    rw (skip_spaces_starts c cs h, strtol)
      (rw (read_sign_starts c cs h)
        (rw (read_number_starts c cs h) (rw (skip_spaces_starts c cs h, read_sign_starts c cs h))))

-- `strtol` reads a positive number that a `long` holds back from its decimal digits, to the end of the text.
pub strtol-decimal : (n : ℕ) → 0 < n → n < 2 ^ 63 → strtol (decimal n) ≡ (pos n, [])
unfolding decimal
strtol-decimal n p h =
    strtol_starts (decimal_onto 20 n []) (decimal_onto_starts 20 n [] p (omega arith))
    ∙ rw (read_digits-decimal_onto 20 n [] (omega arith)) (unfold read_digits in ground arith)

decimal_onto-Lacks :
    (fuel n : ℕ) (acc : Bytes) → Lacks b':' acc → Lacks b':' (decimal_onto fuel n acc)
unfolding decimal_onto
decimal_onto-Lacks zero n acc h = h
decimal_onto-Lacks (suc fuel) n acc h = elim (Bool-cases (n / 10 == 0)) [
  | inl last ↦ rw last (omega arith, h)
  | inr more ↦ rw more (decimal_onto-Lacks fuel (n / 10) _ (omega arith, h))
]

-- No digit is a ':'.
pub decimal-Lacks : (n : ℕ) → Lacks b':' (decimal n)
unfolding decimal
decimal-Lacks n = decimal_onto-Lacks 20 n [] tt

length-decimal_onto :
    (fuel n : ℕ) (acc : Bytes) → length (decimal_onto fuel n acc) ≤ fuel + length acc
unfolding decimal_onto
length-decimal_onto zero n acc = omega arith
length-decimal_onto (suc fuel) n acc =
    ground (arith, length-decimal_onto fuel (n / 10) ((b'0' + n % 10) ∷ acc))

-- A number has at most twenty digits, as one of 64 bits has.
pub length-decimal : (n : ℕ) → length (decimal n) ≤ 20
unfolding decimal
length-decimal n = omega (arith, length-decimal_onto 20 n [])
