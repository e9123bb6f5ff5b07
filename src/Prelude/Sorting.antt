-- ===== src/Prelude/Sorting.antt =====
-- Insertion sort by a test that an element belongs after another, as `Array.sort` sorts.
use mathlib.Core.Path.{◌≡◌, refl, sym, ap, ◌∙◌}
use mathlib.Core.Bool.{Bool, true, false}
use mathlib.Core.List.{List, [], ◌∷◌, ◌++◌}
use mathlib.Core.Logic.{inl, inr}
use openodin.Prelude.Tests.{if◌then◌else◌, Bool-cases}
use openodin.Prelude.Lists.{All}

module _ {A : Type 0} (after : A → A → Bool) where
  unfoldable pub insert_sorted : A → List A → List A
  insert_sorted a [] = a ∷ []
  insert_sorted a (b ∷ xs) =
      let rest = insert_sorted a xs in if after a b then b ∷ rest else a ∷ b ∷ xs

  unfoldable pub sorted : List A → List A
  sorted [] = []
  sorted (a ∷ xs) = insert_sorted a (sorted xs)

  -- The test is a total order of the elements that are fit for it.
  pub record IsOrder (Fit : A → Type 0) : Type 0 where
    pub one_way : (a b : A) → Fit a → Fit b → after a b ≡ true → after b a ≡ false
    pub step :
        (a b c : A)
        → Fit a
        → Fit b
        → Fit c
        → after a b ≡ false
        → after b c ≡ false
        → after a c ≡ false
    pub same : (a b : A) → Fit a → Fit b → after a b ≡ false → after b a ≡ false → a ≡ b

  All-insert_sorted :
      (P : A → Type 0) (a : A) (xs : List A) → P a → All P xs → All P (insert_sorted a xs)
  unfolding insert_sorted
  All-insert_sorted P a [] p h = (p, tt)
  All-insert_sorted P a (b ∷ xs) p h = elim (Bool-cases (after a b)) [
    | inl e ↦ rw e (h.0, All-insert_sorted P a xs p h.1)
    | inr e ↦ rw e (p, h)
  ]

  pub All-sorted : (P : A → Type 0) (xs : List A) → All P xs → All P (sorted xs)
  unfolding sorted
  All-sorted P [] h = tt
  All-sorted P (a ∷ xs) h = All-insert_sorted P a (sorted xs) h.0 (All-sorted P xs h.1)

  module _ (Fit : A → Type 0) (order : IsOrder Fit) where
    -- Two elements at the front, put in either order.
    at_front :
        (a b : A) (xs : List A)
        → Fit a
        → Fit b
        → (if after a b then b ∷ a ∷ xs else a ∷ b ∷ xs)
          ≡ (if after b a then a ∷ b ∷ xs else b ∷ a ∷ xs)
    at_front a b xs p q = elim (Bool-cases (after a b)) [
      | inl e ↦ rw (e, order.one_way a b p q e) refl
      | inr e ↦ elim (Bool-cases (after b a)) [
        | inl f ↦ rw (e, f) refl
        | inr f ↦ rw (order.same a b p q e f) refl
      ]
    ]

    -- What belongs after the third and not the second belongs after what may precede the third.
    passes_both :
        (a b c : A)
        → Fit a
        → Fit b
        → Fit c
        → after a c ≡ true
        → after b c ≡ false
        → after a b ≡ true
    passes_both a b c p q r e f = elim (Bool-cases (after a b)) [
      | inl g ↦ g
      | inr g ↦ absurd (let no = order.step a b c p q r g f in cc)
    ]

    past :
        (a b c : A) (xs : List A)
        → Fit a
        → Fit b
        → Fit c
        → after a c ≡ true
        → after b c ≡ false
        → insert_sorted a (insert_sorted b (c ∷ xs)) ≡ insert_sorted b (insert_sorted a (c ∷ xs))
    unfolding insert_sorted
    past a b c xs p q r e f = rw (e, f, passes_both a b c p q r e f, e) refl

    pub insert_sorted_comm :
        (a b : A) (xs : List A)
        → Fit a
        → Fit b
        → All Fit xs
        → insert_sorted a (insert_sorted b xs) ≡ insert_sorted b (insert_sorted a xs)
    unfolding insert_sorted
    insert_sorted_comm a b [] p q h = at_front a b [] p q
    insert_sorted_comm a b (c ∷ xs) p q h = elim (Bool-cases (after a c)) [
      | inl e ↦ elim (Bool-cases (after b c)) [
        | inl f ↦ rw (e, f, e) (ap (λ t. c ∷ t) (insert_sorted_comm a b xs p q h.1))
        | inr f ↦ past a b c xs p q h.0 e f
      ]
      | inr e ↦ elim (Bool-cases (after b c)) [
        | inl f ↦ sym (past b a c xs q p h.0 f e)
        | inr f ↦ rw (e, f, e) (at_front a b (c ∷ xs) p q)
      ]
    ]

    -- An element at the end is sorted in.
    pub sorted-append_one :
        (xs : List A) (a : A)
        → All Fit xs
        → Fit a
        → sorted (xs ++ a ∷ []) ≡ insert_sorted a (sorted xs)
    unfolding sorted insert_sorted
    sorted-append_one [] a h p = refl
    sorted-append_one (b ∷ xs) a h p =
        ap (insert_sorted b) (sorted-append_one xs a h.1 p)
        ∙ insert_sorted_comm b a (sorted xs) h.0 p (All-sorted Fit xs h.1)

    sorted-insert_sorted :
        (a : A) (xs : List A)
        → Fit a
        → All Fit xs
        → sorted (insert_sorted a xs) ≡ insert_sorted a (sorted xs)
    unfolding sorted insert_sorted
    sorted-insert_sorted a [] p h = refl
    sorted-insert_sorted a (b ∷ xs) p h = elim (Bool-cases (after a b)) [
      | inl e ↦ rw e (
          ap (insert_sorted b) (sorted-insert_sorted a xs p h.1)
          ∙ insert_sorted_comm b a (sorted xs) h.0 p (All-sorted Fit xs h.1))
      | inr e ↦ rw e refl
    ]

    -- To sort what is sorted changes nothing.
    pub sorted-sorted : (xs : List A) → All Fit xs → sorted (sorted xs) ≡ sorted xs
    unfolding sorted
    sorted-sorted [] h = refl
    sorted-sorted (a ∷ xs) h =
        sorted-insert_sorted a (sorted xs) h.0 (All-sorted Fit xs h.1)
        ∙ ap (insert_sorted a) (sorted-sorted xs h.1)

-- Tests that agree on all elements sort alike.
module _ {A : Type 0} (after before : A → A → Bool) (P : A → Type 0)
    (agree : (a b : A) → P a → P b → after a b ≡ before a b) where
  insert_sorted-agree :
      (a : A) (xs : List A) → P a → All P xs → insert_sorted after a xs ≡ insert_sorted before a xs
  unfolding insert_sorted
  insert_sorted-agree a [] p h = refl
  insert_sorted-agree a (b ∷ xs) p h = rw (agree a b p h.0, insert_sorted-agree a xs p h.1) refl

  pub sorted-agree : (xs : List A) → All P xs → sorted after xs ≡ sorted before xs
  unfolding sorted
  sorted-agree [] h = refl
  sorted-agree (a ∷ xs) h =
      ap (insert_sorted after a) (sorted-agree xs h.1)
      ∙ insert_sorted-agree a (sorted before xs) h.0 (All-sorted before P xs h.1)
