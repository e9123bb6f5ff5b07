-- ===== src/TimeFreeze/Times.antt =====
-- The list of frozen times of storage/TimeFreeze.ts: what its operations keep and count.
use openodin.Prelude.{
  ℕ, zero, suc, ◌+◌, ◌≤◌, ◌<◌, ◌≡◌, refl, Option, none, some, List, [], ◌∷◌, ◌++◌, arith, ◌==◌,
  if◌then◌else◌, All, All-append, Bool-cases, ==→eq, inl, inr,
}
use openodin.TimeFreeze.{index_of, remove_at, splice_one, drop_last, first_or}

-- How often a timestamp occurs.
abbrev pub count : ℕ → List ℕ → ℕ
count a [] = 0
count a (x ∷ xs) = (if x == a then 1 else 0) + count a xs

abbrev pub IsSorted : List ℕ → Type 0
IsSorted [] = Unit
IsSorted (x ∷ xs) = All (λ y. x ≤ y) xs × IsSorted xs

abbrev pub SameTimes : List ℕ → List ℕ → Type 0
SameTimes xs ys = (a : ℕ) → count a xs ≡ count a ys

pub count-append :
    (t : ℕ) (before after : List ℕ) → count t (before ++ after) ≡ count t before + count t after
count-append t [] after = omega arith
count-append t (x ∷ before) after = omega (arith, count-append t before after)

-- A frozen timestamp is found, and exactly one occurrence of it goes.
pub index_of-found :
    (t : ℕ) (xs : List ℕ)
    → 0 < count t xs
    → (i : ℕ) × (index_of t xs ≡ some i)
      × ((a : ℕ) → count a xs ≡ (if t == a then 1 else 0) + count a (remove_at i xs))
unfolding index_of remove_at
index_of-found t [] h = absurd (omega arith)
index_of-found t (x ∷ xs) h = elim (Bool-cases (x == t)) [
  | inl same ↦ (0, rw same, λ a. let e : x ≡ t = ==→eq x t same in rw e (ground arith))
  | inr other ↦
      let (i, found, counts) = index_of-found t xs (ground arith) in
      (suc i, rw (other, found), λ a. omega (arith, counts a))
]

pub count-splice_one :
    (t : ℕ) (xs : List ℕ)
    → 0 < count t xs
    → (a : ℕ) → count a xs ≡ (if t == a then 1 else 0) + count a (splice_one (index_of t xs) xs)
unfolding splice_one
count-splice_one t xs h a = let (i, found, counts) = index_of-found t xs h in rw found (counts a)

All-remove_at :
    (b : ℕ) (i : ℕ) (xs : List ℕ) → All (λ y. b ≤ y) xs → All (λ y. b ≤ y) (remove_at i xs)
unfolding remove_at
All-remove_at b i [] h = tt
All-remove_at b zero (x ∷ xs) h = h.1
All-remove_at b (suc i) (x ∷ xs) h = (h.0, All-remove_at b i xs h.1)

All-drop_last : (b : ℕ) (xs : List ℕ) → All (λ y. b ≤ y) xs → All (λ y. b ≤ y) (drop_last xs)
unfolding drop_last
All-drop_last b [] h = tt
All-drop_last b (x ∷ []) h = tt
All-drop_last b (x ∷ y ∷ xs) h = (h.0, All-drop_last b (y ∷ xs) h.1)

pub All-splice_one :
    (b : ℕ) (o : Option ℕ) (xs : List ℕ) → All (λ y. b ≤ y) xs → All (λ y. b ≤ y) (splice_one o xs)
unfolding splice_one
All-splice_one b none xs h = All-drop_last b xs h
All-splice_one b (some i) xs h = All-remove_at b i xs h

pub IsSorted-concat :
    (xs : List ℕ) (n : ℕ) → IsSorted xs → All (λ t. t ≤ n) xs → IsSorted (xs ++ n ∷ [])
IsSorted-concat [] n h k = (tt, tt)
IsSorted-concat (x ∷ xs) n h k =
    (All-append (λ y. x ≤ y) xs (n ∷ []) h.0 (k.0, tt), IsSorted-concat xs n h.1 k.1)

IsSorted-remove_at : (i : ℕ) (xs : List ℕ) → IsSorted xs → IsSorted (remove_at i xs)
unfolding remove_at
IsSorted-remove_at i [] h = tt
IsSorted-remove_at zero (x ∷ xs) h = h.1
IsSorted-remove_at (suc i) (x ∷ xs) h = (All-remove_at x i xs h.0, IsSorted-remove_at i xs h.1)

All-le-remove_at : (b i : ℕ) (xs : List ℕ) → All (λ y. y ≤ b) xs → All (λ y. y ≤ b) (remove_at i xs)
unfolding remove_at
All-le-remove_at b i [] h = tt
All-le-remove_at b zero (x ∷ xs) h = h.1
All-le-remove_at b (suc i) (x ∷ xs) h = (h.0, All-le-remove_at b i xs h.1)

-- Only times from `b` on are in a list without occurrences of earlier ones.
pub count_zero : (b a : ℕ) (xs : List ℕ) → All (λ y. b ≤ y) xs → a < b → count a xs ≡ 0
count_zero b a [] h lt = refl
count_zero b a (x ∷ xs) h lt = let k : b ≤ x = h.0 in ground (arith, count_zero b a xs h.1 lt)

pub All-of_counts : (b : ℕ) (xs : List ℕ) → ((a : ℕ) → a < b → count a xs ≡ 0) → All (λ y. b ≤ y) xs
All-of_counts b [] h = tt
All-of_counts b (x ∷ xs) h =
    (grind (arith, h x), All-of_counts b xs (λ a lt. omega (arith, h a lt)))

pub splice_one-IsSorted :
    (o : Option ℕ) (xs : List ℕ) → (i : ℕ) → o ≡ some i → IsSorted xs → IsSorted (splice_one o xs)
unfolding splice_one
splice_one-IsSorted none xs i e h = cc
splice_one-IsSorted (some j) xs i e h = IsSorted-remove_at j xs h

pub splice_one-All_le :
    (o : Option ℕ) (b : ℕ) (xs : List ℕ)
    → (i : ℕ) → o ≡ some i
    → All (λ y. y ≤ b) xs
    → All (λ y. y ≤ b) (splice_one o xs)
unfolding splice_one
splice_one-All_le none b xs i e h = cc
splice_one-All_le (some j) b xs i e h = All-le-remove_at b j xs h

pub first_or_bounds :
    (n : ℕ) (xs : List ℕ)
    → IsSorted xs
    → All (λ t. t ≤ n) xs
    → (first_or n xs ≤ n) × All (λ t. first_or n xs ≤ t) xs
unfolding first_or
first_or_bounds n [] h k = (omega arith, tt)
first_or_bounds n (x ∷ xs) h k = (k.0, (omega arith, h.0))

pub first_or_unheld : (n : ℕ) (xs : List ℕ) → ((a : ℕ) → count a xs ≡ 0) → first_or n xs ≡ n
unfolding first_or
first_or_unheld n [] h = refl
first_or_unheld n (x ∷ xs) h = absurd (ground (arith, h x))
