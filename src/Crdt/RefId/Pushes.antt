-- ===== src/Crdt/RefId/Pushes.antt =====
-- storage/crdt/AlgoRefId.ts: levels that are pushed to and sorted, by any total order.
use mathlib.Core.Option
use openodin.Prelude.{
  ℕ, zero, suc, ◌+◌, ◌≡◌, refl, ap, ap₂, Bool, true, false, ◌||◌, ◌==◌, Option, none, some, List,
  [], ◌∷◌, arith, All, any, Bool-cases, inl, inr, All-append,
}
use openodin.Prelude.Buffer.{Buffer}
use openodin.Prelude.Sorting.{
  insert_sorted, sorted, IsOrder, All-sorted, sorted-append_one, sorted-sorted, sorted-agree,
}
use openodin.Crdt.RefId.{Levels, or_no_ids, push_at, sort_visited}

abbrev pub AllLevels : (Buffer → Type 0) → Levels → Type 0
AllLevels P levels = All (λ level. All P (or_no_ids level)) levels

pub AllLevels-push_at :
    (P : Buffer → Type 0) (k : ℕ) (id1 : Buffer) (levels : Levels)
    → P id1
    → AllLevels P levels
    → AllLevels P (push_at k id1 levels)
unfolding push_at
AllLevels-push_at P zero id1 [] p h = ((p, tt), tt)
AllLevels-push_at P zero id1 (level ∷ levels) p h =
    (All-append P (or_no_ids level) (id1 ∷ []) h.0 (p, tt), h.1)
AllLevels-push_at P (suc k) id1 [] p h = (tt, AllLevels-push_at P k id1 [] p tt)
AllLevels-push_at P (suc k) id1 (level ∷ levels) p h = (h.0, AllLevels-push_at P k id1 levels p h.1)

module _ (after : Buffer → Buffer → Bool) where
  -- Every level sorted.
  unfoldable pub sort_all : Levels → Levels
  sort_all [] = []
  sort_all (level ∷ levels) = Option.map (sorted after) level ∷ sort_all levels

  -- An identity sorted in.
  unfoldable pub push_sorted : ℕ → Buffer → Levels → Levels
  push_sorted zero id1 [] = some (id1 ∷ []) ∷ []
  push_sorted zero id1 (level ∷ levels) = some (insert_sorted after id1 (or_no_ids level)) ∷ levels
  push_sorted (suc k) id1 [] = none ∷ push_sorted k id1 []
  push_sorted (suc k) id1 (level ∷ levels) = level ∷ push_sorted k id1 levels

  -- The levels that were not visited are sorted.
  abbrev pub IsSettledFrom : List ℕ → ℕ → Levels → Type 0
  IsSettledFrom visited i [] = Unit
  IsSettledFrom visited i (level ∷ levels) =
      (any (λ k. k == i) visited ≡ false → Option.map (sorted after) level ≡ level)
      × IsSettledFrom visited (suc i) levels

  pub sort_visited-settled :
      (visited : List ℕ) (i : ℕ) (levels : Levels)
      → IsSettledFrom visited i levels
      → sort_visited (sorted after) visited i levels ≡ sort_all levels
  unfolding sort_visited sort_all
  sort_visited-settled visited i [] h = refl
  sort_visited-settled visited i (level ∷ levels) h =
      elim (Bool-cases (any (λ k. k == i) visited)) [
        | inl e ↦ rw (e, sort_visited-settled visited (suc i) levels h.1) refl
        | inr e ↦ rw (e, sort_visited-settled visited (suc i) levels h.1, h.0 e) refl
      ]

  neither : (a b : Bool) → (a || b) ≡ false → b ≡ false
  neither true b h = cc
  neither false b h = h

  not_here :
      (j i : ℕ) (visited : List ℕ) → j ≡ i + 0 → (j == i || any (λ k. k == i) visited) ≡ false → ⊥
  not_here j i visited e unseen = ground arith

  visited_more :
      (visited : List ℕ) (j i : ℕ) (levels : Levels)
      → IsSettledFrom visited i levels
      → IsSettledFrom (j ∷ visited) i levels
  visited_more visited j i [] h = tt
  visited_more visited j i (level ∷ levels) h =
      (λ e. h.0 (neither (j == i) _ e), visited_more visited j (suc i) levels h.1)

  pub IsSettledFrom-push_at :
      (visited : List ℕ) (j i k : ℕ) (id1 : Buffer) (levels : Levels)
      → j ≡ i + k
      → IsSettledFrom visited i levels
      → IsSettledFrom (j ∷ visited) i (push_at k id1 levels)
  unfolding push_at
  IsSettledFrom-push_at visited j i zero id1 [] e h =
      (λ unseen. absurd (not_here j i visited e unseen), tt)
  IsSettledFrom-push_at visited j i zero id1 (level ∷ levels) e h =
      (λ unseen. absurd (not_here j i visited e unseen), visited_more visited j (suc i) levels h.1)
  IsSettledFrom-push_at visited j i (suc k) id1 [] e h =
      (λ unseen. refl, IsSettledFrom-push_at visited j (suc i) k id1 [] (omega (arith, e)) tt)
  IsSettledFrom-push_at visited j i (suc k) id1 (level ∷ levels) e h = (
    λ unseen. h.0 (neither (j == i) _ unseen),
    IsSettledFrom-push_at visited j (suc i) k id1 levels (omega (arith, e)) h.1,
  )

  module _ (Fit : Buffer → Type 0) (order : IsOrder after Fit) where
    pub sort_all-push_at :
        (k : ℕ) (id1 : Buffer) (levels : Levels)
        → Fit id1
        → AllLevels Fit levels
        → sort_all (push_at k id1 levels) ≡ push_sorted k id1 (sort_all levels)
    unfolding sort_all push_at push_sorted sorted insert_sorted
    sort_all-push_at zero id1 [] p h = refl
    sort_all-push_at zero id1 (none ∷ levels) p h = refl
    sort_all-push_at zero id1 (some level ∷ levels) p h =
        ap (λ l. some l ∷ sort_all levels) (sorted-append_one after Fit order level id1 h.0 p)
    sort_all-push_at (suc k) id1 [] p h = ap (λ l. none ∷ l) (sort_all-push_at k id1 [] p tt)
    sort_all-push_at (suc k) id1 (level ∷ levels) p h =
        ap (λ l. Option.map (sorted after) level ∷ l) (sort_all-push_at k id1 levels p h.1)

    sort_level_again :
        (level : Option (List Buffer))
        → All Fit (or_no_ids level)
        → Option.map (sorted after) (Option.map (sorted after) level)
          ≡ Option.map (sorted after) level
    sort_level_again none h = refl
    sort_level_again (some ids) h = ap some (sorted-sorted after Fit order ids h)

    pub sort_all-sort_all :
        (levels : Levels) → AllLevels Fit levels → sort_all (sort_all levels) ≡ sort_all levels
    unfolding sort_all
    sort_all-sort_all [] h = refl
    sort_all-sort_all (level ∷ levels) h =
        ap₂ (λ a b. a ∷ b) (sort_level_again level h.0) (sort_all-sort_all levels h.1)

    pub IsSettledFrom-sort_all :
        (i : ℕ) (levels : Levels) → AllLevels Fit levels → IsSettledFrom [] i (sort_all levels)
    unfolding sort_all
    IsSettledFrom-sort_all i [] h = tt
    IsSettledFrom-sort_all i (level ∷ levels) h =
        (λ e. sort_level_again level h.0, IsSettledFrom-sort_all (suc i) levels h.1)

    All-level :
        (level : Option (List Buffer))
        → All Fit (or_no_ids level)
        → All Fit (or_no_ids (Option.map (sorted after) level))
    All-level none h = tt
    All-level (some ids) h = All-sorted after Fit ids h

    pub AllLevels-sort_all :
        (levels : Levels) → AllLevels Fit levels → AllLevels Fit (sort_all levels)
    unfolding sort_all
    AllLevels-sort_all [] h = tt
    AllLevels-sort_all (level ∷ levels) h = (All-level level h.0, AllLevels-sort_all levels h.1)

-- Orders that agree on all identities sort levels alike.
module _ (after before : Buffer → Buffer → Bool) (P : Buffer → Type 0)
    (agree : (a b : Buffer) → P a → P b → after a b ≡ before a b) where
  pub sort_all-agree :
      (levels : Levels) → AllLevels P levels → sort_all after levels ≡ sort_all before levels
  unfolding sort_all
  sort_all-agree [] h = refl
  sort_all-agree (none ∷ levels) h = ap (λ l. none ∷ l) (sort_all-agree levels h.1)
  sort_all-agree (some ids ∷ levels) h =
      ap₂ (λ a b. some a ∷ b) (sorted-agree after before P agree ids h.0)
        (sort_all-agree levels h.1)
