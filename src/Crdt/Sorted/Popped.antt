-- ===== src/Crdt/Sorted/Popped.antt =====
-- storage/crdt/AlgoSorted.ts: the order in which `delete` takes its indexes.
use mathlib.Core.List.{reverse, reverse-cons}
use openodin.Prelude.{
  ℕ, ◌<◌, ◌≡◌, ◌≢◌, refl, ◌∙◌, Bool, true, false, ◌||◌, Option, none, some, List, [], ◌∷◌, ◌++◌,
  All, All-map, All-append, Bool-cases, inl, inr, arith, ◌==◌, any,
}
use openodin.Crdt.Sorted.Update.{index_after, insert_index, sort_indexes}

-- Two indexes that are not one number.
abbrev pub AreApart : Option ℕ → Option ℕ → Type 0
AreApart (some i) (some j) = i ≢ j
AreApart _ _ = Unit

abbrev pub HasNoRepeat : List (Option ℕ) → Type 0
HasNoRepeat [] = Unit
HasNoRepeat (i ∷ indexes) = All (AreApart i) indexes × HasNoRepeat indexes

abbrev pub is_index : ℕ → Option ℕ → Bool
is_index p none = false
is_index p (some i) = i == p

abbrev pub has_index : ℕ → List (Option ℕ) → Bool
has_index p = any (is_index p)

-- `undefined` is above all numbers.
abbrev pub IsBelow : Option ℕ → Option ℕ → Type 0
IsBelow (some i) (some j) = i < j
IsBelow (some i) none = Unit
IsBelow none (some j) = ⊥
IsBelow none none = Unit

abbrev IsAscending : List (Option ℕ) → Type 0
IsAscending [] = Unit
IsAscending (i ∷ indexes) = All (IsBelow i) indexes × IsAscending indexes

abbrev pub IsDescending : List (Option ℕ) → Type 0
IsDescending [] = Unit
IsDescending (i ∷ indexes) = All (λ j. IsBelow j i) indexes × IsDescending indexes

IsBelow-trans : (a b c : Option ℕ) → IsBelow a b → IsBelow b c → IsBelow a c
IsBelow-trans (some i) (some j) (some k) h l = omega arith
IsBelow-trans (some i) (some j) none h l = tt
IsBelow-trans (some i) none (some k) h l = absurd l
IsBelow-trans (some i) none none h l = tt
IsBelow-trans none (some j) c h l = absurd h
IsBelow-trans none none c h l = l

after-IsBelow : (a b : Option ℕ) → index_after a b ≡ true → AreApart a b → IsBelow b a
unfolding index_after
after-IsBelow none none h d = tt
after-IsBelow none (some j) h d = tt
after-IsBelow (some i) none h d = absurd cc
after-IsBelow (some i) (some j) h d = ground arith

not_after-IsBelow : (a b : Option ℕ) → index_after a b ≡ false → AreApart a b → IsBelow a b
unfolding index_after
not_after-IsBelow none none h d = tt
not_after-IsBelow none (some j) h d = absurd cc
not_after-IsBelow (some i) none h d = tt
not_after-IsBelow (some i) (some j) h d = ground arith

All-insert_index :
    (P : Option ℕ → Type 0) (i : Option ℕ) (indexes : List (Option ℕ))
    → P i
    → All P indexes
    → All P (insert_index i indexes)
unfolding insert_index
All-insert_index P i [] this h = (this, tt)
All-insert_index P i (j ∷ indexes) this h = elim (Bool-cases (index_after i j)) [
  | inl e ↦ rw e (h.0, All-insert_index P i indexes this h.1)
  | inr e ↦ rw e (this, h)
]

All-sort_indexes :
    (P : Option ℕ → Type 0) (indexes : List (Option ℕ))
    → All P indexes
    → All P (sort_indexes indexes)
unfolding sort_indexes
All-sort_indexes P [] h = tt
All-sort_indexes P (i ∷ indexes) h =
    All-insert_index P i (sort_indexes indexes) h.0 (All-sort_indexes P indexes h.1)

insert_index-IsAscending :
    (i : Option ℕ) (indexes : List (Option ℕ))
    → All (AreApart i) indexes
    → IsAscending indexes
    → IsAscending (insert_index i indexes)
unfolding insert_index
insert_index-IsAscending i [] d h = (tt, tt)
insert_index-IsAscending i (j ∷ indexes) d h = elim (Bool-cases (index_after i j)) [
  | inl e ↦ rw e (
    All-insert_index (IsBelow j) i indexes (after-IsBelow i j e d.0) h.0,
    insert_index-IsAscending i indexes d.1 h.1,
  )
  | inr e ↦
      let below = not_after-IsBelow i j e d.0 in
      rw e
        ((below, All-map (IsBelow j) (IsBelow i) indexes (λ k. IsBelow-trans i j k below) h.0), h)
]

sort_indexes-IsAscending :
    (indexes : List (Option ℕ)) → HasNoRepeat indexes → IsAscending (sort_indexes indexes)
unfolding sort_indexes
sort_indexes-IsAscending [] d = tt
sort_indexes-IsAscending (i ∷ indexes) d =
    insert_index-IsAscending i (sort_indexes indexes) (All-sort_indexes (AreApart i) indexes d.0)
      (sort_indexes-IsAscending indexes d.1)

All-reverse :
    (P : Option ℕ → Type 0) (indexes : List (Option ℕ)) → All P indexes → All P (reverse indexes)
All-reverse P [] h = tt
All-reverse P (i ∷ indexes) h =
    rw (reverse-cons i indexes)
      (All-append P (reverse indexes) (i ∷ []) (All-reverse P indexes h.1) (h.0, tt))

append-IsDescending :
    (indexes : List (Option ℕ)) (i : Option ℕ)
    → All (IsBelow i) indexes
    → IsDescending indexes
    → IsDescending (indexes ++ i ∷ [])
append-IsDescending [] i d h = (tt, tt)
append-IsDescending (j ∷ indexes) i d h = (
  All-append (λ k. IsBelow k j) indexes (i ∷ []) h.0 (d.0, tt),
  append-IsDescending indexes i d.1 h.1,
)

reverse-IsDescending :
    (indexes : List (Option ℕ)) → IsAscending indexes → IsDescending (reverse indexes)
reverse-IsDescending [] h = tt
reverse-IsDescending (i ∷ indexes) h = rw (reverse-cons i indexes) (
    append-IsDescending (reverse indexes) i (All-reverse (IsBelow i) indexes h.0)
      (reverse-IsDescending indexes h.1))

-- The indexes are popped from the highest to the lowest.
pub popped-IsDescending :
    (indexes : List (Option ℕ))
    → HasNoRepeat indexes
    → IsDescending (reverse (sort_indexes indexes))
popped-IsDescending indexes d =
    reverse-IsDescending (sort_indexes indexes) (sort_indexes-IsAscending indexes d)

has_index-append :
    (p : ℕ) (xs ys : List (Option ℕ)) → has_index p (xs ++ ys) ≡ (has_index p xs || has_index p ys)
has_index-append p [] ys = refl
has_index-append p (x ∷ xs) ys =
    rw (has_index-append p xs ys) (assoc (is_index p x) (has_index p xs) (has_index p ys))
  where
    assoc : (a b c : Bool) → (a || (b || c)) ≡ ((a || b) || c)
    assoc true b c = refl
    assoc false b c = refl

swap : (a b c : Bool) → (a || (b || c)) ≡ (b || (a || c))
swap true true c = refl
swap true false c = refl
swap false true c = refl
swap false false c = refl

has_index-insert_index :
    (p : ℕ) (i : Option ℕ) (indexes : List (Option ℕ))
    → has_index p (insert_index i indexes) ≡ (is_index p i || has_index p indexes)
unfolding insert_index
has_index-insert_index p i [] = refl
has_index-insert_index p i (j ∷ indexes) = elim (Bool-cases (index_after i j)) [
  | inl e ↦
      rw (e, has_index-insert_index p i indexes)
        (swap (is_index p j) (is_index p i) (has_index p indexes))
  | inr e ↦ rw e refl
]

-- The popped indexes are the given ones.
pub has_index-popped :
    (p : ℕ) (indexes : List (Option ℕ))
    → has_index p (reverse (sort_indexes indexes)) ≡ has_index p indexes
unfolding sort_indexes
has_index-popped p indexes = reversed (sort_indexes indexes) ∙ sorted indexes
  where
    or_false : (a b : Bool) → (a || (b || false)) ≡ (b || a)
    or_false true true = refl
    or_false true false = refl
    or_false false true = refl
    or_false false false = refl

    reversed : (xs : List (Option ℕ)) → has_index p (reverse xs) ≡ has_index p xs
    reversed [] = refl
    reversed (x ∷ xs) =
        rw (reverse-cons x xs, has_index-append p (reverse xs) (x ∷ []), reversed xs)
          (or_false (has_index p xs) (is_index p x))

    sorted : (xs : List (Option ℕ)) → has_index p (sort_indexes xs) ≡ has_index p xs
    sorted [] = refl
    sorted (x ∷ xs) = has_index-insert_index p x (sort_indexes xs) ∙ rw (sorted xs) refl
