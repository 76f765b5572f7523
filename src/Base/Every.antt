-- ===== src/Base/Every.antt =====
-- What holds of the result of a function that may have none.
use mathlib.Core.Option.{some-injective}
use otpchat.Base.{Bool, true, false, Option, none, some, ◌≡◌, sym, if◌then◌else◌, ◌>>=◌}

-- A result, if there is one, satisfies the predicate.
abbrev pub Every : {A : Type 0} → (A → Type 0) → Option A → Type 0
Every P none = Unit
Every P (some a) = P a

pub Every-bind :
    {A B : Type 0} (P : B → Type 0) (o : Option A) (f : A → Option B)
    → ((a : A) → Every P (f a))
    → Every P (o >>= f)
Every-bind P none f h = tt
Every-bind P (some a) f h = h a

pub Every-then :
    {A B : Type 0} (Q : A → Type 0) (P : B → Type 0) (o : Option A) (f : A → Option B)
    → Every Q o
    → ((a : A) → Q a → Every P (f a))
    → Every P (o >>= f)
Every-then Q P none f q h = tt
Every-then Q P (some a) f q h = h a q

pub Every-if :
    {B : Type 0} (P : B → Type 0) (b : Bool) (x y : Option B)
    → Every P x
    → Every P y
    → Every P (if b then x else y)
Every-if P true x y hx hy = hx
Every-if P false x y hx hy = hy

pub Every-is : {A : Type 0} (P : A → Type 0) (o : Option A) (a : A) → Every P o → o ≡ some a → P a
Every-is P none a h e = absurd (cc)
Every-is P (some b) a h e = (let same : b ≡ a = some-injective b a e in rw (sym same) h)
