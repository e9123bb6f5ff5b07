-- ===== src/Prelude/Buffer.antt =====
-- Node's `Buffer` as its bytes, with `equals` and `compare`.
use Prim.Native.Nat.{ℕ}
use mathlib.Core.Path.{◌≡◌, refl, sym, subst}
use mathlib.Core.Logic.{◌↔◌, ◌≢◌, inl, inr}
use mathlib.Core.Bool.{Bool, true, false, ◌&&◌}
use mathlib.Core.List.{List, [], ◌∷◌}
use native.Mathlib.Omega.{arith}
use openodin.Prelude.Tests.{◌==◌, Bool-cases}

abbrev pub Buffer : Type 0
Buffer = List ℕ

unfoldable pub equals : Buffer → Buffer → Bool
equals [] [] = true
equals (x ∷ xs) (y ∷ ys) = x == y && equals xs ys
equals _ _ = false

pub equals_refl : (a : Buffer) → equals a a ≡ true
unfolding equals
equals_refl [] = refl
equals_refl (x ∷ xs) = ground (arith, equals_refl xs)

pub equals→eq : (a b : Buffer) → equals a b ≡ true → a ≡ b
unfolding equals
equals→eq [] [] h = refl
equals→eq (x ∷ xs) (y ∷ ys) h = ground (arith, equals→eq xs ys)
equals→eq [] (y ∷ ys) h = cc
equals→eq (x ∷ xs) [] h = cc

pub equals_iff : (a b : Buffer) → (equals a b ≡ true) ↔ (a ≡ b)
equals_iff a b = (equals→eq a b, λ e. rw e (equals_refl b))

pub differ : (a b : Buffer) → a ≢ b → equals a b ≡ false
differ a b h = elim (Bool-cases (equals a b)) [ inl e ↦ absurd (h (equals→eq a b e)) | inr e ↦ e ]

pub equals_swap : (a b : Buffer) → equals a b ≡ false → equals b a ≡ false
equals_swap a b h = elim (Bool-cases (equals b a)) [
  | inl e ↦ absurd (differs (equals→eq b a e))
  | inr e ↦ e
]
  where
    differs : b ≡ a → ⊥
    differs e = let equal = subst (λ c. equals a c ≡ true) (sym e) (equals_refl a) in cc
