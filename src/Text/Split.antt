-- ===== src/Text/Split.antt =====
-- `strrchr` finds the last separator.
use otpchat.Base.{ℕ, ◌≡◌, ◌≢◌, refl, none, some, [], ◌∷◌, ◌++◌, Bytes, arith}
use otpchat.Text.{split_last}

abbrev pub Lacks : ℕ → Bytes → Type 0
Lacks c [] = Unit
Lacks c (x ∷ xs) = (x ≢ c) × Lacks c xs

pub split_last-none : (c : ℕ) (xs : Bytes) → Lacks c xs → split_last c xs ≡ none
unfolding split_last
split_last-none c [] h = refl
split_last-none c (x ∷ xs) (ne, h) = rw (split_last-none c xs h, split_last) (ground arith)

-- Whatever stands in front of it, the separator that is found is the last one.
pub split_last-append :
    (c : ℕ) (front back : Bytes)
    → Lacks c back
    → split_last c (front ++ c ∷ back) ≡ some (front, back)
unfolding split_last
split_last-append c [] back h = rw (split_last-none c back h, split_last) (ground arith)
split_last-append c (x ∷ front) back h = rw (split_last-append c front back h, split_last)
