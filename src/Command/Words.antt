-- ===== src/Command/Words.antt =====
-- `str_to_argv` gives back the words of a line.
use otpchat.Base.{
  ℕ, zero, suc, ◌+◌, ◌≤◌, ◌<◌, ◌≡◌, refl, false, some, List, [], ◌∷◌, ◌++◌, Bytes, arith, ◌==◌,
  length, length-append,
}
use otpchat.Command.{is_separator, argv_loop, str_to_argv}
use otpchat.Text.{split_first}

abbrev pub NoSeparator : Bytes → Type 0
NoSeparator [] = Unit
NoSeparator (c ∷ cs) = (is_separator c ≡ false) × NoSeparator cs

abbrev pub AllWords : List Bytes → Type 0
AllWords [] = Unit
AllWords (w ∷ ws) = (0 < length w) × NoSeparator w × AllWords ws

-- The words in a row, each followed by a space.
abbrev pub unwords : List Bytes → Bytes
unwords [] = []
unwords (w ∷ ws) = w ++ b' ' ∷ unwords ws

split_first-append :
    (w rest : Bytes) → NoSeparator w → split_first is_separator (w ++ b' ' ∷ rest) ≡ (w, some rest)
unfolding split_first
split_first-append [] rest h = refl
split_first-append (c ∷ cs) rest (plain, h) = rw (plain, split_first-append cs rest h)

argv_loop-unwords :
    (n : ℕ) (ws : List Bytes) → AllWords ws → length ws < n → argv_loop n (some (unwords ws)) ≡ ws
unfolding argv_loop split_first
argv_loop-unwords zero ws h enough = absurd (omega arith)
argv_loop-unwords (suc n) [] h enough = refl
argv_loop-unwords (suc n) (w ∷ ws) (some_bytes, plain, h) enough =
    let filled : (length w == 0) ≡ false = ground arith in
    rw (split_first-append w (unwords ws) plain, argv_loop-unwords n ws h (omega arith), filled)

length-unwords : (ws : List Bytes) → AllWords ws → length ws ≤ length (unwords ws)
length-unwords [] h = omega arith
length-unwords (w ∷ ws) (some_bytes, plain, h) =
    omega (arith, length-append w (b' ' ∷ unwords ws), length-unwords ws h)

-- Words without separators, each followed by a space, are read back as these words.
pub str_to_argv-unwords : (ws : List Bytes) → AllWords ws → str_to_argv (unwords ws) ≡ ws
unfolding str_to_argv
str_to_argv-unwords ws h =
    argv_loop-unwords (1 + length (unwords ws)) ws h (omega (arith, length-unwords ws h))
