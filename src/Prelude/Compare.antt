-- ===== src/Prelude/Compare.antt =====
-- Node's `Buffer.compare`, and the signs of differences.
use Prim.Native.Nat.{compare, Ordering}
use mathlib.Core.Path.{◌≡◌, refl}
use mathlib.Core.Bool.{Bool, true, false}
use mathlib.Core.List.{[], ◌∷◌}
use native.Mathlib.Omega.{arith}
use openodin.Prelude.Buffer.{Buffer}

-- `if (diff === 0) { diff = next; }`
abbrev pub or_else : Ordering → Ordering → Ordering
or_else Ordering.eq next = next
or_else Ordering.lt next = Ordering.lt
or_else Ordering.gt next = Ordering.gt

-- `a.compare(b)` of buffers.
unfoldable pub compare_bytes : Buffer → Buffer → Ordering
compare_bytes [] [] = Ordering.eq
compare_bytes [] (y ∷ ys) = Ordering.lt
compare_bytes (x ∷ xs) [] = Ordering.gt
compare_bytes (x ∷ xs) (y ∷ ys) = or_else (compare x y) (compare_bytes xs ys)

abbrev pub is_gt : Ordering → Bool
is_gt Ordering.gt = true
is_gt _ = false

pub gt-swap : (a b : Buffer) → is_gt (compare_bytes a b) ≡ true → is_gt (compare_bytes b a) ≡ false
unfolding compare_bytes
gt-swap [] [] h = refl
gt-swap [] (y ∷ ys) h = absurd cc
gt-swap (x ∷ xs) [] h = refl
gt-swap (x ∷ xs) (y ∷ ys) h = ground (arith, gt-swap xs ys)

pub not_gt_trans :
    (a b c : Buffer)
    → is_gt (compare_bytes a b) ≡ false
    → is_gt (compare_bytes b c) ≡ false
    → is_gt (compare_bytes a c) ≡ false
unfolding compare_bytes
not_gt_trans [] b [] h k = refl
not_gt_trans [] b (z ∷ zs) h k = refl
not_gt_trans (x ∷ xs) [] c h k = absurd cc
not_gt_trans (x ∷ xs) (y ∷ ys) [] h k = absurd cc
not_gt_trans (x ∷ xs) (y ∷ ys) (z ∷ zs) h k = ground (arith, not_gt_trans xs ys zs)

pub not_gt_antisym :
    (a b : Buffer) → is_gt (compare_bytes a b) ≡ false → is_gt (compare_bytes b a) ≡ false → a ≡ b
unfolding compare_bytes
not_gt_antisym [] [] h k = refl
not_gt_antisym [] (y ∷ ys) h k = absurd cc
not_gt_antisym (x ∷ xs) [] h k = absurd cc
not_gt_antisym (x ∷ xs) (y ∷ ys) h k = ground (arith, not_gt_antisym xs ys)
