-- ===== src/TimeFreeze.antt =====
-- storage/TimeFreeze.ts. The clock `Date.now()` enters as the argument `now` of each method.
mod Tests
pub mod Times
pub mod Safety
use openodin.Prelude.{ℕ, zero, suc, ◌==◌, Option, none, some, List, [], ◌∷◌, ◌++◌, if◌then◌else◌}

pub record TimeFreeze : Type 0 where
  pub frozen_time : List ℕ

unfoldable pub new : TimeFreeze
new = record { frozen_time = [] }

unfoldable pub freeze : ℕ → TimeFreeze → TimeFreeze × ℕ
freeze now t = (record { frozen_time = t.frozen_time ++ now ∷ [] }, now)

-- `frozenTime.indexOf(timestamp)`, with `none` for -1.
pub index_of : ℕ → List ℕ → Option ℕ
index_of a [] = none
index_of a (x ∷ xs) =
    let later = index_of a xs in
    if x == a then some 0 else elim later [ none ↦ none | some i ↦ some (suc i) ]

-- `splice(index, 1)`.
pub remove_at : ℕ → List ℕ → List ℕ
remove_at i [] = []
remove_at zero (x ∷ xs) = xs
remove_at (suc i) (x ∷ xs) = x ∷ remove_at i xs

-- `splice(-1, 1)` removes the last element.
pub drop_last : List ℕ → List ℕ
drop_last [] = []
drop_last (x ∷ []) = []
drop_last (x ∷ y ∷ xs) = x ∷ drop_last (y ∷ xs)

pub splice_one : Option ℕ → List ℕ → List ℕ
splice_one (some i) xs = remove_at i xs
splice_one none xs = drop_last xs

unfoldable pub unfreeze : ℕ → TimeFreeze → TimeFreeze
unfolding index_of remove_at drop_last splice_one
unfreeze timestamp t = record {
  frozen_time = splice_one (index_of timestamp t.frozen_time) t.frozen_time;
}

-- The first frozen time, if there is one.
pub first_or : ℕ → List ℕ → ℕ
first_or now [] = now
first_or now (oldest ∷ _) = oldest

unfoldable pub read : ℕ → TimeFreeze → ℕ
unfolding first_or
read now t = first_or now t.frozen_time
