-- ===== src/Base/Endian.antt =====
-- Words of `width` bytes in memory: `htole64`, `le64toh`, `htobe32`, `be32toh`, `htobe64` and
-- `be64toh`, each with the `memcpy` or `fread` that goes with it.
use Prim.Native.Nat.{ℕ, zero, suc, ◌+◌, ◌*◌, ◌/◌, ◌%◌, ◌^◌, ◌<◌}
use mathlib.Core.Path.{◌≡◌, refl, ap, ◌∙◌}
use mathlib.Core.List.{List, [], ◌∷◌, ◌++◌}
use native.Mathlib.Nat.{pow-suc}
use native.Mathlib.Omega.{arith}
use otpchat.Base.Lists.{length, length-append}

unfoldable pub to_le : ℕ → ℕ → List ℕ
to_le zero n = []
to_le (suc w) n = n % 256 ∷ to_le w (n / 256)

unfoldable pub from_le : List ℕ → ℕ
from_le [] = 0
from_le (b ∷ bs) = b + 256 * from_le bs

unfoldable pub to_be : ℕ → ℕ → List ℕ
to_be zero n = []
to_be (suc w) n = to_be w (n / 256) ++ (n % 256 ∷ [])

from_be_onto : ℕ → List ℕ → ℕ
from_be_onto acc [] = acc
from_be_onto acc (b ∷ bs) = from_be_onto (acc * 256 + b) bs

unfoldable pub from_be : List ℕ → ℕ
unfolding from_be_onto
from_be = from_be_onto 0

pub length-to_le : (w n : ℕ) → length (to_le w n) ≡ w
unfolding to_le
length-to_le zero n = refl
length-to_le (suc w) n = ap suc (length-to_le w (n / 256))

pub length-to_be : (w n : ℕ) → length (to_be w n) ≡ w
unfolding to_be
length-to_be zero n = refl
length-to_be (suc w) n =
    omega (arith, length-append (to_be w (n / 256)) (n % 256 ∷ []), length-to_be w (n / 256))

-- A word that fits `w` bytes is read back from its little-endian bytes.
pub from_le-to_le : (w n : ℕ) → n < 256 ^ w → from_le (to_le w n) ≡ n
unfolding to_le from_le
from_le-to_le zero n h = omega (arith)
from_le-to_le (suc w) n h =
    omega (arith, pow-suc 256 w, from_le-to_le w (n / 256) (omega (arith, pow-suc 256 w)))

from_be_onto-append :
    (acc : ℕ) (xs ys : List ℕ) → from_be_onto acc (xs ++ ys) ≡ from_be_onto (from_be_onto acc xs) ys
unfolding from_be_onto
from_be_onto-append acc [] ys = refl
from_be_onto-append acc (x ∷ xs) ys = from_be_onto-append (acc * 256 + x) xs ys

-- A word that fits `w` bytes is read back from its big-endian bytes.
pub from_be-to_be : (w n : ℕ) → n < 256 ^ w → from_be (to_be w n) ≡ n
unfolding to_be from_be
from_be-to_be zero n h = omega (arith)
from_be-to_be (suc w) n h =
    from_be_onto-append 0 (to_be w (n / 256)) (n % 256 ∷ [])
    ∙ omega (arith, pow-suc 256 w, from_be-to_be w (n / 256) (omega (arith, pow-suc 256 w)))
