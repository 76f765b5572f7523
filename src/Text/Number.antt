-- ===== src/Text/Number.antt =====
-- `strtol` stops in front of a ':' at the latest, so that an address is never taken for a port.
use otpchat.Base.{
  ℕ, ◌+◌, ◌*◌, ◌≡◌, refl, ◌∙◌, some, [], ◌∷◌, ◌++◌, Bytes, arith, Bool, true, false, ◌||◌, ◌==◌,
  ltb, Bool-cases, inl, inr, length, Option-cases,
}
use otpchat.Text.{
  digit_value, read_digits, skip_spaces, read_sign, number_at, number_base, read_number, strtol,
}

abbrev pub has_colon : Bytes → Bool
has_colon [] = false
has_colon (c ∷ cs) = c == b':' || has_colon cs

pub contains-append : (front back : Bytes) → has_colon (front ++ b':' ∷ back) ≡ true
contains-append [] back = refl
contains-append (c ∷ front) back = ground (arith, contains-append front back)

skip_spaces-has_colon : (cs : Bytes) → has_colon (skip_spaces cs) ≡ has_colon cs
unfolding skip_spaces
skip_spaces-has_colon [] = refl
skip_spaces-has_colon (c ∷ cs) = ground (arith, skip_spaces-has_colon cs)

read_sign-has_colon : (cs : Bytes) → has_colon (read_sign cs).1 ≡ has_colon cs
unfolding read_sign
read_sign-has_colon [] = refl
read_sign-has_colon (c ∷ cs) = ground arith

digit_not_colon :
    (base c : ℕ) → ltb 36 base ≡ false → ltb (digit_value c) base ≡ true → (c == b':') ≡ false
unfolding digit_value
digit_not_colon base c h digit = ground arith

read_digits-has_colon :
    (base acc : ℕ) (cs : Bytes)
    → ltb 36 base ≡ false
    → has_colon (read_digits base acc cs).1 ≡ has_colon cs
unfolding read_digits
read_digits-has_colon base acc [] h = refl
read_digits-has_colon base acc (c ∷ cs) h = elim (Bool-cases (ltb (digit_value c) base)) [
  | inl digit ↦ rw digit (
      read_digits-has_colon base (acc * base + digit_value c) cs h
      ∙ rw (digit_not_colon base c h digit))
  | inr other ↦ rw other
]

number_base-has_colon : (cs : Bytes) → has_colon (number_base cs).1 ≡ has_colon cs
unfolding number_base
number_base-has_colon [] = refl
number_base-has_colon (z ∷ []) = ground arith
number_base-has_colon (z ∷ x ∷ []) = ground arith
number_base-has_colon (z ∷ x ∷ h ∷ cs) = ground arith

number_base-le : (cs : Bytes) → ltb 36 (number_base cs).0 ≡ false
unfolding number_base
number_base-le [] = refl
number_base-le (z ∷ []) = ground arith
number_base-le (z ∷ x ∷ []) = ground arith
number_base-le (z ∷ x ∷ h ∷ cs) = ground arith

number_end :
    (base : ℕ) (digits : Bytes) (n : ℕ) (end : Bytes)
    → ltb 36 base ≡ false
    → number_at base digits ≡ some (n, end)
    → has_colon end ≡ has_colon digits
unfolding number_at
number_end base [] n end h e = cc
number_end base (c ∷ cs) n end h e = ground (arith, read_digits-has_colon base 0 (c ∷ cs) h)

read_number-has_colon :
    (cs : Bytes) (n : ℕ) (end : Bytes)
    → read_number cs ≡ some (n, end)
    → has_colon end ≡ has_colon cs
unfolding read_number
read_number-has_colon cs n end e =
    number_end (number_base cs).0 (number_base cs).1 n end (number_base-le cs) e
    ∙ number_base-has_colon cs

strtol-has_colon : (text : Bytes) → has_colon (strtol text).1 ≡ has_colon text
unfolding strtol
strtol-has_colon text = elim (Option-cases (read_number (read_sign (skip_spaces text)).1)) [
  | inl e ↦ rw (e, strtol)
  | inr ((n, end), e) ↦
      rw (e, strtol)
        (read_number-has_colon _ n end e
          ∙ read_sign-has_colon (skip_spaces text)
          ∙ skip_spaces-has_colon text)
]

has_colon-length : (cs : Bytes) → has_colon cs ≡ true → (length cs == 0) ≡ false
has_colon-length [] h = cc
has_colon-length (c ∷ cs) h = ground arith

pub strtol_stops : (text : Bytes) → has_colon text ≡ true → (length (strtol text).1 == 0) ≡ false
strtol_stops text h = has_colon-length (strtol text).1 (strtol-has_colon text ∙ h)
