-- ===== src/Base/Elements.antt =====
-- The elements of a list by their place.
use Prim.Native.Nat.{ℕ, zero, suc, ◌-◌, ◌<◌}
use mathlib.Core.Path.{◌≡◌, refl, ◌∙◌}
use mathlib.Core.List.{List, [], ◌∷◌, ◌++◌}
use mathlib.Core.Option.{some}
use native.Mathlib.Omega.{arith}
use otpchat.Base.Tests.{ltb, if◌then◌else◌}
use otpchat.Base.Lists.{length, take, drop, get_elem?, replicate}

module _ {ℓ} {A : Type ℓ} where
  pub get_elem?-append :
      (xs ys : List A) (i : ℕ)
      → get_elem? (xs ++ ys) i
        ≡ (if ltb i (length xs) then get_elem? xs i else get_elem? ys (i - length xs))
  get_elem?-append [] ys i = ground arith
  get_elem?-append (x ∷ xs) ys zero = ground arith
  get_elem?-append (x ∷ xs) ys (suc i) = get_elem?-append xs ys i ∙ ground arith

  pub take-get_elem? :
      (xs : List A) (i n : ℕ) {a : A}
      → get_elem? xs i ≡ some a
      → take (suc n) (drop i xs) ≡ a ∷ take n (drop (suc i) xs)
  take-get_elem? [] i n h = ground arith
  take-get_elem? (x ∷ xs) zero n h = ground arith
  take-get_elem? (x ∷ xs) (suc i) n h = take-get_elem? xs i n h

  pub get_elem?-replicate : (n i : ℕ) (a : A) → i < n → get_elem? (replicate n a) i ≡ some a
  get_elem?-replicate zero i a h = absurd (omega arith)
  get_elem?-replicate (suc n) zero a h = refl
  get_elem?-replicate (suc n) (suc i) a h = get_elem?-replicate n i a (omega arith)

  pub get_elem?-some : (xs : List A) (i : ℕ) → i < length xs → (a : A) × (get_elem? xs i ≡ some a)
  get_elem?-some [] i h = absurd (omega arith)
  get_elem?-some (x ∷ xs) zero h = (x, refl)
  get_elem?-some (x ∷ xs) (suc i) h = get_elem?-some xs i (omega arith)
