-- ===== src/Key/Xor.antt =====
-- The bytes of a pad combined with those of a message, with no counter: what `xor_loop` computes.
use otpchat.Base.Bits.{xor_twice}
use otpchat.Base.{
  ℕ, zero, suc, ◌≤◌, ◌≡◌, refl, ap, ap₂, some, [], ◌∷◌, ◌++◌, Bytes, arith, length, take, drop,
  bit_xor,
}
use otpchat.Key.{xor_loop}

abbrev pub xor_with : Bytes → Bytes → Bytes
xor_with (k ∷ ks) (m ∷ ms) = bit_xor k m ∷ xor_with ks ms
xor_with [] ms = ms
xor_with (k ∷ ks) [] = []

pub xor_loop-xor_with :
    (n : ℕ) (ks ms : Bytes)
    → n ≡ length ms
    → n ≤ length ks
    → xor_loop n ks ms ≡ some (xor_with ks ms)
unfolding xor_loop
xor_loop-xor_with zero [] [] e h = refl
xor_loop-xor_with zero (k ∷ ks) [] e h = refl
xor_loop-xor_with zero ks (m ∷ ms) e h = absurd (omega arith)
xor_loop-xor_with (suc n) ks [] e h = absurd (omega arith)
xor_loop-xor_with (suc n) [] (m ∷ ms) e h = absurd (omega arith)
xor_loop-xor_with (suc n) (k ∷ ks) (m ∷ ms) e h =
    rw (xor_loop-xor_with n ks ms (omega arith) (omega arith))

-- Combining twice with one pad gives the message back.
pub xor_with_twice : (ks ms : Bytes) → xor_with ks (xor_with ks ms) ≡ ms
xor_with_twice [] ms = refl
xor_with_twice (k ∷ ks) [] = refl
xor_with_twice (k ∷ ks) (m ∷ ms) = ap₂ ◌∷◌ (xor_twice k m) (xor_with_twice ks ms)

pub length-xor_with : (ks ms : Bytes) → length (xor_with ks ms) ≡ length ms
length-xor_with [] ms = refl
length-xor_with (k ∷ ks) [] = refl
length-xor_with (k ∷ ks) (m ∷ ms) = ap suc (length-xor_with ks ms)

-- Of the pad only as many bytes count as the message has.
pub xor_with-take :
    (n : ℕ) (ks ms : Bytes) → length ms ≤ n → xor_with (take n ks) ms ≡ xor_with ks ms
xor_with-take zero [] ms h = refl
xor_with-take zero (k ∷ ks) [] h = refl
xor_with-take zero (k ∷ ks) (m ∷ ms) h = absurd (omega arith)
xor_with-take (suc n) [] ms h = refl
xor_with-take (suc n) (k ∷ ks) [] h = refl
xor_with-take (suc n) (k ∷ ks) (m ∷ ms) h =
    ap (◌∷◌ (bit_xor k m)) (xor_with-take n ks ms (omega arith))

pub xor_with-nil : (ks : Bytes) → xor_with ks [] ≡ []
xor_with-nil [] = refl
xor_with-nil (k ∷ ks) = refl

-- A second message takes the bytes of the pad behind those of the first.
pub xor_with-append :
    (ks xs ys : Bytes)
    → xor_with ks (xs ++ ys) ≡ xor_with ks xs ++ xor_with (drop (length xs) ks) ys
xor_with-append ks [] ys = xor_nil ks
  where
    xor_nil : (ks : Bytes) → xor_with ks ys ≡ xor_with ks [] ++ xor_with ks ys
    xor_nil [] = refl
    xor_nil (k ∷ ks) = refl
xor_with-append [] (x ∷ xs) ys = refl
xor_with-append (k ∷ ks) (x ∷ xs) ys = ap (◌∷◌ (bit_xor k x)) (xor_with-append ks xs ys)
