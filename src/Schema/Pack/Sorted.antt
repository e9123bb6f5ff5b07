-- ===== src/Schema/Pack/Sorted.antt =====
-- The indexes of a schema, sorted.
use openodin.Prelude.{
  ℕ, ◌≤◌, ◌≡◌, false, Option, none, some, List, [], ◌∷◌, arith, leb, leb→le, Bool-cases, inl, inr,
}
use openodin.Schema.Pack.{insert, sort}

abbrev pub IsAtLeast : ℕ → Option ℕ → Type 0
IsAtLeast i none = Unit
IsAtLeast i (some last) = last ≤ i

-- A list that does not descend, from the last one before it.
abbrev pub IsFrom : Option ℕ → List ℕ → Type 0
IsFrom last [] = Unit
IsFrom last (i ∷ is) = IsAtLeast i last × IsFrom (some i) is

leb-false : (i j : ℕ) → leb i j ≡ false → j ≤ i
leb-false i j e = ground arith

insert-IsFrom :
    (last : Option ℕ) (i : ℕ) (is : List ℕ)
    → IsAtLeast i last
    → IsFrom last is
    → IsFrom last (insert i is)
unfolding insert
insert-IsFrom last i [] h k = (h, tt)
insert-IsFrom last i (j ∷ js) h k = elim (Bool-cases (leb i j)) [
  | inl e ↦ rw e (h, (leb→le i j e, k.1))
  | inr e ↦ rw e (k.0, insert-IsFrom (some j) i js (omega (arith, leb-false i j e)) k.1)
]

pub sort-IsFrom : (is : List ℕ) → IsFrom none (sort is)
unfolding sort
sort-IsFrom [] = tt
sort-IsFrom (i ∷ is) = insert-IsFrom none i (sort is) tt (sort-IsFrom is)
